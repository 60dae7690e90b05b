-- ===== src/Relay/Delivery.antt =====
-- What `route` of crates/orbit-relay/src/lib.rs delivers, and to which rooms.
use orbit_transfer.Prelude.{
  ℕ, ◌+◌, ◌≤◌, ◌≡◌, refl, sym, ap, subst, ◌∙◌, true, false, List, [], ◌∷◌, ◌++◌, Option, none, some,
  ◌==◌, length, arith,
}
use mathlib.Core.List.{append-nil, append_assoc}
use orbit_transfer.Wire.{OrbitMessage, hello, meta, symbol, done, ready, direct, session_id}
use orbit_transfer.Relay.{
  Room, Link, RelayCore, Sends, binary, max_buffered_bytes, evict, push_buffer, drain_buffer,
  route_hello, hello_sender, hello_receiver, forward_in, forward, count_symbol, route_ready,
  route_direct, route, entry, with_room, send_all, deliver_pending,
}
use orbit_transfer.Relay.Rooms.{total, total-++, evict_fits}

-- Routing a message leaves every room but that of the message's session as it was.
pub route_isolated :
    (core : RelayCore) (m : OrbitMessage) (link : Link) (i : ℕ)
    → (session_id m == i) ≡ false
    → (route core m link).0.rooms i ≡ core.rooms i
unfolding route route_hello hello_sender hello_receiver forward forward_in route_ready route_direct
    count_symbol session_id
route_isolated core (hello id role) link i away = ground arith
route_isolated core (meta id filename size symbol_size k checksum) link i away = ground arith
route_isolated core (symbol id esi payload) link i away = ground arith
route_isolated core (ready id) link i away = ground arith
route_isolated core (direct id addr) link i away = ground arith
route_isolated core (done id) link i away = ground arith

-- Frames that arrive one after the other for a session.
pub forward_all : RelayCore → ℕ → List (List ℕ) → RelayCore
unfolding forward
forward_all core id [] = core
forward_all core id (bytes ∷ rest) = forward_all ((forward core id bytes).0) id rest

-- A room whose receiver is not there, with the frames that wait in it; a session that the relay does
-- not know has a new room, with none.
abbrev pub Waiting : RelayCore → ℕ → List (List ℕ) → Type 0
Waiting core id frames =
    ((entry core.rooms id).receiver ≡ none)
    × ((entry core.rooms id).receiver_done ≡ false)
    × ((entry core.rooms id).buffer ≡ frames)
    × ((entry core.rooms id).buffered_bytes ≡ total frames)

forward_waits :
    (core : RelayCore) (id : ℕ) (bytes : List ℕ)
    → (entry core.rooms id).receiver ≡ none
    → (entry core.rooms id).receiver_done ≡ false
    → forward core id bytes ≡ (with_room core id (push_buffer bytes (entry core.rooms id)), [])
unfolding forward forward_in
forward_waits core id bytes open_ going = ground arith

forward-Waiting :
    (core : RelayCore) (id : ℕ) (frames : List (List ℕ)) (bytes : List ℕ)
    → total frames + length bytes ≤ max_buffered_bytes
    → Waiting core id frames
    → Waiting ((forward core id bytes).0) id (frames ++ bytes ∷ [])
unfolding push_buffer
forward-Waiting core id frames bytes fits (open_, going, held, counted) =
    let room = entry core.rooms id in
    let after = push_buffer bytes room in
    let kept : evict (length bytes) room.buffer room.buffered_bytes
        ≡ (room.buffer, room.buffered_bytes) =
      evict_fits (length bytes) room.buffer room.buffered_bytes (omega arith) in
    let here : (id == id) ≡ true = ground arith in
    let there : (forward core id bytes).0.rooms id ≡ some after =
      ap (λ r. r.0.rooms id) (forward_waits core id bytes open_ going) ∙ rw here refl in
    rw (there, entry)
      (
        open_,
        going,
        ap (λ k. k.0 ++ bytes ∷ []) kept ∙ ap (λ b. b ++ bytes ∷ []) held,
        ap (λ k. k.1 + length bytes) kept ∙ omega (arith, counted, total-++ frames bytes),
      )

-- A receiver's Hello hands over all that waits, in order.
hello_receiver-Waiting :
    (core : RelayCore) (id : ℕ) (frames : List (List ℕ)) (link : Link)
    → Waiting core id frames
    → (hello_receiver core id link).1 ≡ send_all link.tx frames
unfolding hello_receiver drain_buffer
hello_receiver-Waiting core id frames link (open_, going, held, counted) =
    ap (send_all link.tx) held

forward_all-Waiting :
    (core : RelayCore) (id : ℕ) (held frames : List (List ℕ))
    → total held + total frames ≤ max_buffered_bytes
    → Waiting core id held
    → Waiting (forward_all core id frames) id (held ++ frames)
unfolding forward_all total
forward_all-Waiting core id held [] fits waits =
    subst (Waiting core id) (sym (append-nil held)) waits
forward_all-Waiting core id held (bytes ∷ rest) fits waits =
    subst (Waiting (forward_all ((forward core id bytes).0) id rest) id)
      (append_assoc held (bytes ∷ []) rest)
      (forward_all-Waiting ((forward core id bytes).0) id (held ++ bytes ∷ []) rest
        (omega (arith, total-++ held bytes))
        (forward-Waiting core id held bytes (omega arith) waits))

-- When no receiver is there and none has said READY, whether or not the relay knows the session,
-- the frames that wait in its room and those that come then, of at most `MAX_BUFFERED_BYTES` in all,
-- reach the receiver that then says Hello: all, in their order, and nothing else. The counter of the
-- room is the size of its buffer.
pub hello_receiver-forward_all :
    (core : RelayCore) (id : ℕ) (held frames : List (List ℕ)) (link : Link)
    → Waiting core id held
    → total held + total frames ≤ max_buffered_bytes
    → (hello_receiver (forward_all core id frames) id link).1 ≡ send_all link.tx (held ++ frames)
hello_receiver-forward_all core id held frames link waits fits =
    hello_receiver-Waiting _ id (held ++ frames) link
      (forward_all-Waiting core id held frames fits waits)

pub inserted :
    (core : RelayCore) (id : ℕ) (room : Room) → (with_room core id room).rooms id ≡ some room
inserted core id room = let here : (id == id) ≡ true = ground arith in rw here refl

registered : RelayCore → ℕ → Room → Link → RelayCore
registered core id room link =
    with_room core id (record room { sender = some link; pending_direct = none })

-- What the Hello of a sender is sent in a room that keeps `pending`.
pending_sends : Link → Option (List ℕ) → Sends
pending_sends link none = []
pending_sends link (some offer) = (link.tx, binary offer) ∷ []

hello_sender_found :
    (core : RelayCore) (id : ℕ) (room : Room) (link : Link)
    → core.rooms id ≡ some room
    → hello_sender core id link
      ≡ (registered core id room link, pending_sends link room.pending_direct)
unfolding hello_sender registered deliver_pending pending_sends
hello_sender_found core id room link found =
    rw (found, entry)
      (ap (λ sends. (registered core id room link, sends)) (delivered room.pending_direct))
  where
    delivered :
        (pending : Option (List ℕ))
        → deliver_pending (registered core id room link) id pending ≡ pending_sends link pending
    delivered none = refl
    delivered (some offer) =
        let here : (id == id) ≡ true = ground arith in rw (here, deliver_pending) refl

route_direct_kept :
    (core : RelayCore) (id : ℕ) (offer : List ℕ) (room : Room)
    → core.rooms id ≡ some room
    → room.sender ≡ none
    → route_direct core id offer
      ≡ (with_room core id (record room { pending_direct = some offer }), [])
unfolding route_direct
route_direct_kept core id offer room found away = ground arith

-- A DIRECT that is routed in a room without a sender is what the next Hello of a sender is sent, and
-- is then no longer kept: a second Hello sends nothing.
pub hello_sender-route_direct :
    (core : RelayCore) (id : ℕ) (offer : List ℕ) (room : Room) (link again : Link)
    → core.rooms id ≡ some room
    → room.sender ≡ none
    → let first : RelayCore × Sends = hello_sender ((route_direct core id offer).0) id link in
      (first.1 ≡ (link.tx, binary offer) ∷ []) × ((hello_sender first.0 id again).1 ≡ [])
unfolding registered pending_sends
hello_sender-route_direct core id offer room link again found away =
    let kept : Room = record room { pending_direct = some offer } in
    let stored : (route_direct core id offer).0.rooms id ≡ some kept =
      ap (λ r. r.0.rooms id) (route_direct_kept core id offer room found away)
      ∙ inserted core id kept in
    let first = hello_sender_found ((route_direct core id offer).0) id kept link stored in
    (
      ap (λ r. r.1) first,
      ap (λ r. (hello_sender r.0 id again).1) first
          ∙ ap (λ r. r.1)
              (hello_sender_found (registered ((route_direct core id offer).0) id kept link) id
                (record kept { sender = some link; pending_direct = none }) again
                (inserted ((route_direct core id offer).0) id
                  (record kept { sender = some link; pending_direct = none }))),
    )
