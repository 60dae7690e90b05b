-- ===== src/Examples/RelayRuns.antt =====
-- crates/orbit-relay/src/lib.rs: one sender and one receiver, as in its own tests.
use orbit_transfer.Prelude.{
  true, sym, ◌∙◌, All, ℕ, ◌≡◌, refl, ap, false, List, [], ◌∷◌, none, some, arith, ◌+◌, ◌++◌,
}
use orbit_transfer.Prelude.Le.{le_bytes}
use orbit_transfer.Wire.{
  OrbitMessage, session_id, hello, symbol, ready, encode, encode_parts, role_sender, role_receiver,
  ok, done, parse_frame, frame_too_large, type_symbol, max_frame,
}
use orbit_transfer.Wire.Frames.{parse_frame-encode, parse_frame_too_large}
use orbit_transfer.Relay.{
  finished, Room, Link, RelayCore, Sends, WsEvent, frame, ping, closed, binary, new_room, route,
  route_direct, route_hello, hello_sender, hello_receiver, handle_conn, leave_room, new_relay,
  send_all, with_room,
}
use orbit_transfer.Relay.Rooms.{total}
use orbit_transfer.Relay.Routing.{IsRelay}
use orbit_transfer.Relay.Connection.{handle_conn_malformed}
use orbit_transfer.Relay.Leaving.{is_registered, Speaks, handle_conn-is_registered}
use orbit_transfer.Relay.Silence.{route_all, route_all-ready}
use orbit_transfer.Relay.Reach.{at_start, routed, left, Reach-IsRelay}
use orbit_transfer.Relay.Delivery.{
  route_isolated, forward_all, hello_receiver-forward_all, Waiting, hello_sender-route_direct,
}

abbrev idle : RelayCore
idle = record { rooms = λ id. none; bytes_relayed = 0; symbols_relayed = 0 }

abbrev pub phone : Link
phone = record { conn_id = 1; tx = 10 }

abbrev pub laptop : Link
laptop = record { conn_id = 2; tx = 20 }

idle-IsRelay : IsRelay idle
unfolding IsRelay
idle-IsRelay id room h = absurd (ground arith)

-- A SYMBOL of session 7.
abbrev piece : List ℕ
piece = encode (symbol 7 1 (5 ∷ []))

-- The announced length is over the limit.
abbrev bad_frame : List ℕ
bad_frame = type_symbol ∷ (le_bytes 4 (max_frame + 1) ++ [])

abbrev greeting : OrbitMessage
greeting = hello 7 role_sender

abbrev good_frame : List ℕ
good_frame = encode greeting ++ []

route_isolated_example :
    (route (with_room idle 8 new_room) (symbol 7 1 (5 ∷ [])) phone).0.rooms 8
    ≡ (with_room idle 8 new_room).rooms 8
unfolding session_id
route_isolated_example =
    route_isolated (with_room idle 8 new_room) (symbol 7 1 (5 ∷ [])) phone 8 refl

-- The session of a sender that said Hello.
abbrev greeted : RelayCore
unfolding route route_hello hello_sender
greeted = (route idle greeting phone).0

greeted-Waiting : Waiting greeted 7 []
unfolding greeted total
greeted-Waiting = (refl, refl, refl, refl)

hello_receiver-forward_all_example :
    (hello_receiver (forward_all greeted 7 ((1 ∷ 2 ∷ []) ∷ (3 ∷ []) ∷ [])) 7 laptop).1
    ≡ send_all 20 ((1 ∷ 2 ∷ []) ∷ (3 ∷ []) ∷ [])
unfolding total
hello_receiver-forward_all_example =
    hello_receiver-forward_all greeted 7 [] ((1 ∷ 2 ∷ []) ∷ (3 ∷ []) ∷ []) laptop greeted-Waiting
      (omega arith)

abbrev received : Room
received = record new_room { receiver = some laptop }

-- A sender comes back after READY, and a second receiver.
abbrev afterwards : List (OrbitMessage × Link)
afterwards = (hello 7 role_sender, phone) ∷ (hello 7 role_receiver, phone) ∷ (done 8, phone) ∷ []

abbrev done_relay : RelayCore
done_relay = route_all (route (with_room idle 7 received) (ready 7) laptop).0 afterwards

route_all-ready_example :
    ((route done_relay (symbol 7 1 (5 ∷ [])) phone).1 ≡ [])
    × ((route done_relay (symbol 7 1 (5 ∷ [])) phone).0.rooms ≡ done_relay.rooms)
    × ((route done_relay (hello 7 role_receiver) laptop).1 ≡ [])
route_all-ready_example =
    route_all-ready 7 (with_room idle 7 received) received laptop afterwards (symbol 7 1 (5 ∷ []))
      phone laptop refl refl ((λ e. cc), ((λ e. cc), ((λ e. absurd (ground arith)), tt))) refl

hello_sender-route_direct_example :
    let first : RelayCore × Sends =
      hello_sender ((route_direct (with_room idle 7 received) 7 (6 ∷ [])).0) 7 phone in
    (first.1 ≡ (10, binary (6 ∷ [])) ∷ []) × ((hello_sender first.0 7 phone).1 ≡ [])
hello_sender-route_direct_example =
    hello_sender-route_direct (with_room idle 7 received) 7 (6 ∷ []) received phone phone refl refl

handle_conn_malformed_example :
    (room : Room) × ((handle_conn idle none phone []
          (frame good_frame ∷ frame bad_frame ∷ [])).0.rooms
        7
      ≡ some room)
    × (room.sender ≡ some phone)
unfolding encode_parts le_bytes
handle_conn_malformed_example =
    handle_conn_malformed idle 7 phone good_frame bad_frame (frame_too_large (max_frame + 1)) []
      (ap (λ r. r.0) (parse_frame-encode greeting (omega arith) (omega arith) tt []))
      (ap (λ r. r.0)
        (parse_frame_too_large type_symbol (max_frame + 1) [] (omega arith) (omega arith)))

abbrev taken : Room
taken = record {
  sender = some phone;
  receiver = some laptop;
  buffer = [];
  buffered_bytes = 0;
  pending_direct = none;
  receiver_done = false;
}

abbrev pub listening : RelayCore
listening = with_room idle 7 (record new_room { receiver = some laptop })

-- The phone greets and sends a SYMBOL, the laptop a READY in between, and the phone leaves.
Reach-IsRelay_example : IsRelay (
    leave_room
      (route
        (route (route new_relay greeting phone).0 (ready 7) laptop).0
        (symbol 7 1 (5 ∷ []))
        phone).0
      7
      1)
Reach-IsRelay_example = Reach-IsRelay (
    left
      (routed (routed (routed at_start greeting phone) (ready 7) laptop) (symbol 7 1 (5 ∷ []))
        phone)
      7 1)

-- The phone greets, is pinged, and closes.
abbrev visit : List WsEvent
visit = frame good_frame ∷ ping [] true ∷ closed ∷ []

good_read : (parse_frame good_frame).0 ≡ ok (some greeting)
unfolding encode_parts le_bytes
good_read = ap (λ r. r.0) (parse_frame-encode greeting (omega arith) (omega arith) tt [])

visit-Speaks : All (Speaks 7) visit
unfolding session_id
visit-Speaks = (λ m e. says m (sym good_read ∙ e), (tt, (tt, tt)))
  where
    says : (m : OrbitMessage) → ok (some greeting) ≡ ok (some m) → session_id m ≡ 7
    says m same = let own : greeting ≡ m = cc in ap session_id (sym own)

visit-finished : (handle_conn idle none phone [] visit).2 ≡ finished
unfolding handle_conn
visit-finished = rw (good_read, handle_conn) refl

handle_conn-is_registered_example :
    is_registered 1 ((handle_conn idle none phone [] visit).0.rooms 7) ≡ false
handle_conn-is_registered_example =
    handle_conn-is_registered 1 10 7 idle visit 7 visit-Speaks (λ j. refl) visit-finished
