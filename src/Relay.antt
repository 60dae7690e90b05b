-- ===== src/Relay.antt =====
-- crates/orbit-relay/src/lib.rs: rooms, routing, leaving, and the loop of a connection.
--
-- A connection id and a channel are numbers. A room holds only `WsMessage::Binary`, so its
-- messages are the bytes of frames. What a handler sends is the list of its sends, in order. `route`
-- ignores that a channel has closed, and such a send shows here as a send; the Pong of `handle_conn`
-- does not ignore it. The map of
-- rooms is a function. One call of `route` is one step: where the code takes the lock twice, the
-- model has two functions, and `route` composes them with no other task in between.
pub mod Rooms
pub mod Routing
pub mod Connection
pub mod Leaving
pub mod Delivery
pub mod Carry
pub mod Reach
pub mod Silence
use orbit_transfer.Prelude.{
  ℕ, zero, suc, ◌+◌, ◌-◌, ◌*◌, ◌%◌, ◌^◌, Bool, true, false, ◌&&◌, List, [], ◌∷◌, ◌++◌, map, Option,
  none, some, ltb, ◌==◌, if◌then◌else◌, length,
}
use orbit_transfer.Wire
use orbit_transfer.Wire.{
  OrbitMessage, hello, meta, symbol, done, ready, direct, Outcome, ok, err, panic, session_id,
  encode, parse_frame, role_sender, role_receiver,
}

abbrev pub max_buffered_bytes : ℕ
max_buffered_bytes = 256 * 1024 * 1024

-- A registered end: its connection id and its channel.
pub record Link : Type 0 where
  pub conn_id : ℕ
  pub tx : ℕ

pub record Room : Type 0 where
  pub sender : Option Link
  pub receiver : Option Link
  pub buffer : List (List ℕ)
  pub buffered_bytes : ℕ
  pub pending_direct : Option (List ℕ)
  pub receiver_done : Bool

abbrev pub new_room : Room
new_room = record {
  sender = none;
  receiver = none;
  buffer = [];
  buffered_bytes = 0;
  pending_direct = none;
  receiver_done = false;
}

-- `while buffered_bytes + size > MAX { pop_front or break }`: the buffer and its bytes.
unfoldable pub evict : ℕ → List (List ℕ) → ℕ → List (List ℕ) × ℕ
evict size [] bytes = ([], bytes)
evict size (old ∷ rest) bytes =
    let more = evict size rest (bytes - length old) in
    if ltb max_buffered_bytes (bytes + size) then more else (old ∷ rest, bytes)

unfoldable pub push_buffer : List ℕ → Room → Room
unfolding evict
push_buffer msg room =
    let kept = evict (length msg) room.buffer room.buffered_bytes in
    record room { buffer = kept.0 ++ msg ∷ []; buffered_bytes = kept.1 + length msg }

-- The byte count after every message has been popped.
unfoldable pub drained_bytes : List (List ℕ) → ℕ → ℕ
drained_bytes [] bytes = bytes
drained_bytes (msg ∷ rest) bytes = drained_bytes rest (bytes - length msg)

unfoldable pub drain_buffer : Room → Room × List (List ℕ)
unfolding drained_bytes
drain_buffer room = (
  record room { buffer = []; buffered_bytes = drained_bytes room.buffer room.buffered_bytes },
  room.buffer,
)

abbrev pub Rooms : Type 0
Rooms = ℕ → Option Room

abbrev pub insert : ℕ → Room → Rooms → Rooms
insert id room rooms i = if id == i then some room else rooms i

abbrev pub remove : ℕ → Rooms → Rooms
remove id rooms i = if id == i then none else rooms i

pub record RelayCore : Type 0 where
  pub rooms : Rooms
  pub bytes_relayed : ℕ
  pub symbols_relayed : ℕ

-- `RelayCore::new`, less the throttle.
abbrev pub new_relay : RelayCore
new_relay = record { rooms = λ id. none; bytes_relayed = 0; symbols_relayed = 0 }

-- What goes into a channel.
pub data WsOut : Type 0 where
  binary : List ℕ → WsOut
  pong : List ℕ → WsOut
  close : WsOut

abbrev pub Sends : Type 0
Sends = List (ℕ × WsOut)

abbrev pub send_all : ℕ → List (List ℕ) → Sends
send_all tx frames = map (λ frame. (tx, binary frame)) frames

-- `rooms.entry(id).or_insert_with(Room::new)`.
abbrev pub entry : Rooms → ℕ → Room
entry rooms id = elim (rooms id) [ none ↦ new_room | some room ↦ room ]

abbrev pub with_room : RelayCore → ℕ → Room → RelayCore
with_room core id room = record core { rooms = insert id room core.rooms }

-- The second lock of the sender's Hello: the sender that is registered then gets the frame.
unfoldable pub deliver_pending : RelayCore → ℕ → Option (List ℕ) → Sends
deliver_pending core id none = []
deliver_pending core id (some frame) = elim (core.rooms id) [
  | none ↦ []
  | some room ↦ elim room.sender [ none ↦ [] | some link ↦ (link.tx, binary frame) ∷ [] ]
]

unfoldable pub hello_sender : RelayCore → ℕ → Link → RelayCore × Sends
unfolding deliver_pending
hello_sender core id link =
    let room = entry core.rooms id in
    let core' = with_room core id (record room { sender = some link; pending_direct = none }) in
    (core', deliver_pending core' id room.pending_direct)

unfoldable pub hello_receiver : RelayCore → ℕ → Link → RelayCore × Sends
unfolding drain_buffer
hello_receiver core id link =
    let (room, drained) = drain_buffer (record (entry core.rooms id) { receiver = some link }) in
    (with_room core id room, send_all link.tx drained)

-- A role byte that is not known still makes the room.
unfoldable pub route_hello : RelayCore → ℕ → ℕ → Link → RelayCore × Sends
unfolding hello_sender hello_receiver
route_hello core id role link =
    if role == role_sender
    then hello_sender core id link
    else if role == role_receiver
    then hello_receiver core id link
    else (with_room core id (entry core.rooms id), [])

-- SYMBOL and META in a room that is there.
unfoldable pub forward_in : RelayCore → ℕ → Room → List ℕ → RelayCore × Sends
unfolding push_buffer
forward_in core id room frame = if room.receiver_done then (core, []) else elim room.receiver [
  | some link ↦ (core, (link.tx, binary frame) ∷ [])
  | none ↦ (with_room core id (push_buffer frame room), [])
]

unfoldable pub forward : RelayCore → ℕ → List ℕ → RelayCore × Sends
unfolding forward_in push_buffer
forward core id frame = elim (core.rooms id) [
  | some room ↦ forward_in core id room frame
  | none ↦ (with_room core id (push_buffer frame new_room), [])
]

-- `AtomicU64::fetch_add` wraps.
unfoldable pub count_symbol : ℕ → RelayCore → RelayCore
count_symbol n core = record core {
  bytes_relayed = (core.bytes_relayed + n) % 2 ^ 64;
  symbols_relayed = (core.symbols_relayed + 1) % 2 ^ 64;
}

unfoldable pub route_ready : RelayCore → ℕ → List ℕ → RelayCore × Sends
route_ready core id frame = elim (core.rooms id) [
  | none ↦ (core, [])
  | some room ↦ (
    with_room core id (record room { receiver_done = true }),
    elim room.sender [ none ↦ [] | some link ↦ (link.tx, binary frame) ∷ [] ],
  )
]

unfoldable pub route_direct : RelayCore → ℕ → List ℕ → RelayCore × Sends
route_direct core id frame = elim (core.rooms id) [
  | none ↦ (with_room core id (record new_room { pending_direct = some frame }), [])
  | some room ↦ elim room.sender [
    | some link ↦ (core, (link.tx, binary frame) ∷ [])
    | none ↦ (with_room core id (record room { pending_direct = some frame }), [])
  ]
]

unfoldable pub route : RelayCore → OrbitMessage → Link → RelayCore × Sends
unfolding route_hello forward route_ready route_direct count_symbol
route core (hello id role) link = route_hello core id role link
route core (meta id filename size symbol_size k checksum) link =
    forward core id (encode (meta id filename size symbol_size k checksum))
route core (symbol id esi payload) link =
    forward (count_symbol (length payload) core) id (encode (symbol id esi payload))
route core (ready id) link = route_ready core id (encode (ready id))
route core (direct id addr) link = route_direct core id (encode (direct id addr))
route core (done id) link = (record core { rooms = remove id core.rooms }, [])

-- The link, unless it belongs to the connection that leaves.
abbrev pub unlink : ℕ → Option Link → Option Link
unlink conn none = none
unlink conn (some link) = if link.conn_id == conn then none else some link

abbrev pub is_vacant : Room → Bool
is_vacant room = elim room.sender [
  | some link ↦ false
  | none ↦ elim room.receiver [
    | some link ↦ false
    | none ↦ elim room.buffer [ [] ↦ true | _ ∷ _ ↦ false ]
  ]
]

unfoldable pub leave_room : RelayCore → ℕ → ℕ → RelayCore
leave_room core id conn = elim (core.rooms id) [
  | none ↦ core
  | some room ↦
      let left = record room {
        sender = unlink conn room.sender;
        receiver = unlink conn room.receiver;
      } in
      if is_vacant left
      then record core { rooms = remove id core.rooms }
      else with_room core id left
]

-- What arrives on a WebSocket; for a Ping, whether the task that writes still takes the Pong.
pub data WsEvent : Type 0 where
  frame : List ℕ → WsEvent
  ping : List ℕ → Bool → WsEvent
  closed failed ignored : WsEvent

-- How a connection's handler ended.
pub data Exit : Type 0 where
  finished errored panicked : Exit

-- `if let Some(id) = session_id { leave_room }`.
unfoldable pub finish : RelayCore → Option ℕ → Link → RelayCore
unfolding leave_room
finish core none link = core
finish core (some id) link = leave_room core id link.conn_id

-- `handle_conn` from the state after some messages; `sent` is what has been sent. An error of
-- `parse_frame`, or of the send of a Pong, returns at once, past the call of `leave_room`.
unfoldable pub handle_conn :
    RelayCore → Option ℕ → Link → Sends → List WsEvent → RelayCore × Sends × Exit
unfolding finish
handle_conn core session link sent [] = (finish core session link, sent, finished)
handle_conn core session link sent (failed ∷ events) = (finish core session link, sent, finished)
handle_conn core session link sent (closed ∷ events) =
    (finish core session link, sent ++ (link.tx, close) ∷ [], finished)
handle_conn core session link sent (ignored ∷ events) = handle_conn core session link sent events
handle_conn core session link sent (ping p false ∷ events) = (core, sent, errored)
handle_conn core session link sent (ping p true ∷ events) =
    handle_conn core session link (sent ++ (link.tx, pong p) ∷ []) events
handle_conn core session link sent (frame bytes ∷ events) = elim ((parse_frame bytes).0) [
  | ok none ↦ handle_conn core session link sent events
  | ok (some m) ↦
      let (core', sends) = route core m link in
      handle_conn core' (some (session_id m)) link (sent ++ sends) events
  | err e ↦ (core, sent, errored)
  | panic ↦ (core, sent, panicked)
]
