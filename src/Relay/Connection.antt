-- ===== src/Relay/Connection.antt =====
-- The life of a connection of crates/orbit-relay/src/lib.rs: `leave_room` and `handle_conn`.
use orbit_transfer.Prelude.{
  ℕ, ◌≡◌, refl, true, List, [], ◌∷◌, Option, none, some, ◌==◌, arith, Bool-cases, Option-cases, inl,
  inr,
}
use orbit_transfer.Wire.{hello, ok, err, ProtocolError, parse_frame, role_sender}
use orbit_transfer.Relay.{
  Room, Link, RelayCore, WsEvent, frame, route, leave_room, unlink, is_vacant, handle_conn,
  hello_sender, route_hello, entry, insert,
}
use orbit_transfer.Relay.Rooms.{IsRoom}
use orbit_transfer.Relay.Routing.{IsRelay, with_room-IsRelay, removed-IsRelay}

unlink-some :
    (conn : ℕ) (end_ : Option Link) (link : Link) → unlink conn end_ ≡ some link → end_ ≡ some link
unlink-some conn none link h = h
unlink-some conn (some other) link h = elim (Bool-cases (other.conn_id == conn)) [
  | inl gone ↦ absurd (ground arith)
  | inr stays ↦ ground arith
]

pub leave_room-IsRelay :
    (core : RelayCore) (id conn : ℕ) → IsRelay core → IsRelay (leave_room core id conn)
unfolding leave_room IsRelay IsRoom
leave_room-IsRelay core id conn inv = elim (Option-cases (core.rooms id)) [
  | inl none_ ↦ rw (none_, leave_room) inv
  | inr (room, found) ↦
      let (counted, limit, idle) = inv id room found in
      let left = record room {
        sender = unlink conn room.sender;
        receiver = unlink conn room.receiver;
      } in
      let in_order : IsRoom left =
        (counted, limit, λ link there. idle link (unlink-some conn room.receiver link there)) in
      rw (found, leave_room)
        (elim (Bool-cases (is_vacant left)) [
          | inl vacant ↦ rw vacant (removed-IsRelay core id inv)
          | inr taken ↦ rw taken (with_room-IsRelay core id left inv in_order)
        ])
]

-- A connection that has registered as the sender of session `id` and then gets a frame that
-- `parse_frame` refuses ends with that registration still in the room: `leave_room` is not called.
pub handle_conn_malformed :
    (core : RelayCore) (id : ℕ) (link : Link) (first bytes : List ℕ) (e : ProtocolError)
    (events : List WsEvent)
    → (parse_frame first).0 ≡ ok (some (hello id role_sender))
    → (parse_frame bytes).0 ≡ err e
    → (room : Room) × ((handle_conn core none link [] (frame first ∷ frame bytes ∷ events)).0.rooms
          id
        ≡ some room)
      × (room.sender ≡ some link)
unfolding handle_conn route route_hello hello_sender
handle_conn_malformed core id link first bytes e events good bad =
    let room = record (entry core.rooms id) { sender = some link; pending_direct = none } in
    let here : (id == id) ≡ true = ground arith in
    rw (good, bad, here, handle_conn, insert) (room, refl, refl)
