-- ===== src/Relay/Routing.antt =====
-- Every message and every connection keep the rooms of crates/orbit-relay/src/lib.rs in order.
use orbit_transfer.Prelude.{
  ℕ, ◌≡◌, refl, subst, List, some, ◌==◌, length, arith, Bool-cases, Option-cases, inl, inr,
}
use orbit_transfer.Wire.{
  OrbitMessage, hello, meta, symbol, done, ready, direct, role_sender, role_receiver,
}
use orbit_transfer.Relay.{
  Room, Link, RelayCore, new_room, drain_buffer, route_hello, hello_sender, hello_receiver,
  forward_in, forward, count_symbol, route_ready, route_direct, route, entry, with_room, remove,
}
use orbit_transfer.Relay.Rooms.{IsRoom, new_room-IsRoom, push_buffer-IsRoom, drain_buffer-IsRoom}

-- Every room of the relay is in order.
unfoldable pub IsRelay : RelayCore → Type 0
IsRelay core = (id : ℕ) (room : Room) → core.rooms id ≡ some room → IsRoom room

entry-IsRoom : (core : RelayCore) (id : ℕ) → IsRelay core → IsRoom (entry core.rooms id)
unfolding IsRelay
entry-IsRoom core id inv = elim (Option-cases (core.rooms id)) [
  | inl none_ ↦ rw (none_, entry) new_room-IsRoom
  | inr (room, found) ↦ rw (found, entry) (inv id room found)
]

pub with_room-IsRelay :
    (core : RelayCore) (id : ℕ) (room : Room)
    → IsRelay core
    → IsRoom room
    → IsRelay (with_room core id room)
unfolding IsRelay
with_room-IsRelay core id room inv in_order i other found = elim (Bool-cases (id == i)) [
  | inl here ↦ let same : room ≡ other = ground arith in subst IsRoom same in_order
  | inr away ↦ inv i other (ground arith)
]

pub removed-IsRelay :
    (core : RelayCore) (id : ℕ)
    → IsRelay core
    → IsRelay (record core { rooms = remove id core.rooms })
unfolding IsRelay
removed-IsRelay core id inv i other found = elim (Bool-cases (id == i)) [
  | inl here ↦ absurd (ground arith)
  | inr away ↦ inv i other (ground arith)
]

hello_sender-IsRelay :
    (core : RelayCore) (id : ℕ) (link : Link)
    → IsRelay core
    → IsRelay ((hello_sender core id link).0)
unfolding hello_sender IsRoom
hello_sender-IsRelay core id link inv = with_room-IsRelay core id _ inv (entry-IsRoom core id inv)

hello_receiver-IsRelay :
    (core : RelayCore) (id : ℕ) (link : Link)
    → IsRelay core
    → IsRelay ((hello_receiver core id link).0)
unfolding hello_receiver IsRoom
hello_receiver-IsRelay core id link inv =
    let room = record (entry core.rooms id) { receiver = some link } in
    with_room-IsRelay core id ((drain_buffer room).0) inv
      (drain_buffer-IsRoom room ((entry-IsRoom core id inv).0))

forward-IsRelay :
    (core : RelayCore) (id : ℕ) (bytes : List ℕ)
    → IsRelay core
    → IsRelay ((forward core id bytes).0)
unfolding forward forward_in
forward-IsRelay core id bytes inv = elim (Option-cases (core.rooms id)) [
  | inl none_ ↦
      rw (none_, forward)
        (with_room-IsRelay core id _ inv (push_buffer-IsRoom bytes new_room new_room-IsRoom refl))
  | inr (room, found) ↦
      rw (found, forward)
        (elim (Bool-cases room.receiver_done) [
          | inl finished ↦ rw (finished, forward_in) inv
          | inr going ↦
              rw (going, forward_in)
                (elim (Option-cases room.receiver) [
                  | inl open_ ↦ rw open_ (
                      with_room-IsRelay core id _ inv
                        (push_buffer-IsRoom bytes room (unfold IsRelay in inv id room found) open_))
                  | inr (link, there) ↦ rw there inv
                ])
        ])
]

route_ready-IsRelay :
    (core : RelayCore) (id : ℕ) (bytes : List ℕ)
    → IsRelay core
    → IsRelay ((route_ready core id bytes).0)
unfolding route_ready IsRoom
route_ready-IsRelay core id bytes inv = elim (Option-cases (core.rooms id)) [
  | inl none_ ↦ rw (none_, route_ready) inv
  | inr (room, found) ↦
      rw (found, route_ready)
        (with_room-IsRelay core id _ inv (unfold IsRelay in inv id room found))
]

route_direct-IsRelay :
    (core : RelayCore) (id : ℕ) (bytes : List ℕ)
    → IsRelay core
    → IsRelay ((route_direct core id bytes).0)
unfolding route_direct IsRoom
route_direct-IsRelay core id bytes inv = elim (Option-cases (core.rooms id)) [
  | inl none_ ↦ rw (none_, route_direct) (with_room-IsRelay core id _ inv new_room-IsRoom)
  | inr (room, found) ↦
      rw (found, route_direct)
        (elim (Option-cases room.sender) [
          | inl away ↦
              rw away (with_room-IsRelay core id _ inv (unfold IsRelay in inv id room found))
          | inr (link, there) ↦ rw there inv
        ])
]

route_hello-IsRelay :
    (core : RelayCore) (id role : ℕ) (link : Link)
    → IsRelay core
    → IsRelay ((route_hello core id role link).0)
unfolding route_hello
route_hello-IsRelay core id role link inv = elim (Bool-cases (role == role_sender)) [
  | inl sends ↦ rw sends (hello_sender-IsRelay core id link inv)
  | inr other ↦ rw other (elim (Bool-cases (role == role_receiver)) [
    | inl receives ↦ rw receives (hello_receiver-IsRelay core id link inv)
    | inr unknown ↦ rw unknown (with_room-IsRelay core id _ inv (entry-IsRoom core id inv))
  ])
]

-- Routing one message keeps every room in order.
pub route-IsRelay :
    (core : RelayCore) (m : OrbitMessage) (link : Link)
    → IsRelay core
    → IsRelay ((route core m link).0)
unfolding route
route-IsRelay core (hello id role) link inv = route_hello-IsRelay core id role link inv
route-IsRelay core (meta id filename size symbol_size k checksum) link inv =
    forward-IsRelay core id _ inv
route-IsRelay core (symbol id esi payload) link inv =
    forward-IsRelay (count_symbol (length payload) core) id _ (unfold IsRelay count_symbol in inv)
route-IsRelay core (ready id) link inv = route_ready-IsRelay core id _ inv
route-IsRelay core (direct id addr) link inv = route_direct-IsRelay core id _ inv
route-IsRelay core (done id) link inv = removed-IsRelay core id inv
