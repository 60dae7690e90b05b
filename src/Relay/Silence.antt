-- ===== src/Relay/Silence.antt =====
-- The relay of crates/orbit-relay/src/lib.rs after a receiver's READY.
use orbit_transfer.Prelude.{
  ℕ, ◌≡◌, refl, sym, ap, subst, ◌∙◌, Bool, true, false, List, [], ◌∷◌, none, some, ◌==◌,
  if◌then◌else◌, All, arith, Bool-cases, inl, inr, length, Option-cases,
}
use orbit_transfer.Wire.{
  OrbitMessage, hello, meta, symbol, done, ready, direct, session_id, role_sender, role_receiver,
  encode,
}
use orbit_transfer.Relay.{
  Room, Link, RelayCore, route, route_hello, hello_sender, hello_receiver, forward, forward_in,
  route_ready, route_direct, count_symbol, drain_buffer, send_all, with_room, entry,
}
use orbit_transfer.Relay.Delivery.{route_isolated, inserted}

-- The messages that the relay carries to a receiver.
abbrev pub Data : ℕ → OrbitMessage → Type 0
Data id (meta own filename size symbol_size k checksum) = own ≡ id
Data id (symbol own esi payload) = own ≡ id
Data id (hello own role) = ⊥
Data id (done own) = ⊥
Data id (ready own) = ⊥
Data id (direct own addr) = ⊥

-- Messages of connections, one after the other.
abbrev pub route_all : RelayCore → List (OrbitMessage × Link) → RelayCore
route_all core [] = core
route_all core (step ∷ steps) = route_all (route core step.0 step.1).0 steps

module _ (id : ℕ) where
  -- The receiver is done, and nothing waits.
  Quiet : RelayCore → Type 0
  Quiet core =
      (room : Room) × (core.rooms id ≡ some room) × (room.receiver_done ≡ true) × (room.buffer ≡ [])

  Quiet-with_room :
      (core : RelayCore) (room : Room)
      → room.receiver_done ≡ true
      → room.buffer ≡ []
      → Quiet (with_room core id room)
  unfolding Quiet
  Quiet-with_room core room is_done empty = (room, inserted core id room, is_done, empty)

  at_entry :
      (core : RelayCore) (room : Room) → core.rooms id ≡ some room → entry core.rooms id ≡ room
  at_entry core room found = rw (found, entry) refl

  Quiet-hello :
      (core : RelayCore) (role : ℕ) (link : Link)
      → Quiet core
      → Quiet (route_hello core id role link).0
  unfolding Quiet route_hello hello_sender hello_receiver drain_buffer
  Quiet-hello core role link (room, found, is_done, empty) =
      go (role == role_sender) (role == role_receiver)
    where
      old : Room
      old = entry core.rooms id

      still_done : old.receiver_done ≡ true
      still_done = ap (λ r. r.receiver_done) (at_entry core room found) ∙ is_done

      still_empty : old.buffer ≡ []
      still_empty = ap (λ r. r.buffer) (at_entry core room found) ∙ empty

      go :
          (sends receives : Bool)
          → Quiet (
              (if sends
                then hello_sender core id link
                else if receives
                then hello_receiver core id link
                else (with_room core id (entry core.rooms id), [])).0)
      go true receives =
          Quiet-with_room core (record old { sender = some link; pending_direct = none }) still_done
            still_empty
      go false true =
          Quiet-with_room core (drain_buffer (record old { receiver = some link })).0 still_done
            refl
      go false false = Quiet-with_room core old still_done still_empty

  Quiet-forward :
      (core : RelayCore) (bytes : List ℕ) → Quiet core → forward core id bytes ≡ (core, [])
  unfolding Quiet forward forward_in
  Quiet-forward core bytes (room, found, is_done, empty) = ground arith

  Quiet-ready :
      (core : RelayCore) (room : Room) (bytes : List ℕ)
      → core.rooms id ≡ some room
      → room.buffer ≡ []
      → Quiet (route_ready core id bytes).0
  unfolding route_ready
  Quiet-ready core room bytes found empty =
      rw (found, route_ready)
        (Quiet-with_room core (record room { receiver_done = true }) refl empty)

  Quiet-direct :
      (core : RelayCore) (bytes : List ℕ) → Quiet core → Quiet (route_direct core id bytes).0
  unfolding Quiet route_direct
  Quiet-direct core bytes (room, found, is_done, empty) = elim (Option-cases room.sender) [
    | inl away ↦
        rw (found, away, route_direct)
          (Quiet-with_room core (record room { pending_direct = some bytes }) is_done empty)
    | inr (link, there) ↦ rw (found, there, route_direct) (room, found, is_done, empty)
  ]

  Quiet-Data :
      (core : RelayCore) (m : OrbitMessage) (link : Link)
      → Quiet core
      → Data id m
      → ((route core m link).1 ≡ []) × ((route core m link).0.rooms ≡ core.rooms)
  unfolding Quiet route count_symbol
  Quiet-Data core (meta own filename size symbol_size k checksum) link quiet same =
      let stays =
        subst
          (λ i.
            forward core i (encode (meta own filename size symbol_size k checksum)) ≡ (core, []))
          (sym same)
          (Quiet-forward core (encode (meta own filename size symbol_size k checksum)) quiet) in
      (ap (λ r. r.1) stays, ap (λ r. r.0.rooms) stays)
  Quiet-Data core (symbol own esi payload) link quiet same =
      let counted = count_symbol (length payload) core in
      let stays =
        subst (λ i. forward counted i (encode (symbol own esi payload)) ≡ (counted, [])) (sym same)
          (Quiet-forward counted (encode (symbol own esi payload)) quiet) in
      (ap (λ r. r.1) stays, ap (λ r. r.0.rooms) stays)
  Quiet-Data core (hello own role) link quiet h = absurd h
  Quiet-Data core (done own) link quiet h = absurd h
  Quiet-Data core (ready own) link quiet h = absurd h
  Quiet-Data core (direct own addr) link quiet h = absurd h

  Quiet-rooms : (core core' : RelayCore) → core'.rooms ≡ core.rooms → Quiet core → Quiet core'
  unfolding Quiet
  Quiet-rooms core core' same (room, found, is_done, empty) =
      (room, ap (λ rooms. rooms id) same ∙ found, is_done, empty)

  Quiet-own :
      (core : RelayCore) (m : OrbitMessage) (link : Link)
      → session_id m ≡ id
      → ¬ (m ≡ done id)
      → Quiet core
      → Quiet (route core m link).0
  unfolding Quiet session_id route
  Quiet-own core (hello own role) link same going quiet =
      subst (λ i. Quiet (route_hello core i role link).0) (sym same)
        (Quiet-hello core role link quiet)
  Quiet-own core (meta own filename size symbol_size k checksum) link same going quiet =
      let m = meta own filename size symbol_size k checksum in
      Quiet-rooms core (route core m link).0 (Quiet-Data core m link quiet same).1 quiet
  Quiet-own core (symbol own esi payload) link same going quiet =
      let m = symbol own esi payload in
      Quiet-rooms core (route core m link).0 (Quiet-Data core m link quiet same).1 quiet
  Quiet-own core (done own) link same going quiet = absurd (going (ap done same))
  Quiet-own core (ready own) link same going quiet =
      subst (λ i. Quiet (route_ready core i (encode (ready own))).0) (sym same) (again quiet)
    where
      again : Quiet core → Quiet (route_ready core id (encode (ready own))).0
      again (room, found, is_done, empty) = Quiet-ready core room (encode (ready own)) found empty
  Quiet-own core (direct own addr) link same going quiet =
      subst (λ i. Quiet (route_direct core i (encode (direct own addr))).0) (sym same)
        (Quiet-direct core (encode (direct own addr)) quiet)

  Quiet-route :
      (core : RelayCore) (m : OrbitMessage) (link : Link)
      → ¬ (m ≡ done id)
      → Quiet core
      → Quiet (route core m link).0
  unfolding Quiet
  Quiet-route core m link going (room, found, is_done, empty) =
      elim (Bool-cases (session_id m == id)) [
        | inl here ↦ Quiet-own core m link (ground arith) going (room, found, is_done, empty)
        | inr away ↦ (room, route_isolated core m link id away ∙ found, is_done, empty)
      ]

  Quiet-route_all :
      (core : RelayCore) (steps : List (OrbitMessage × Link))
      → All (λ step. ¬ (step.0 ≡ done id)) steps
      → Quiet core
      → Quiet (route_all core steps)
  Quiet-route_all core [] going quiet = quiet
  Quiet-route_all core (step ∷ steps) (here, later) quiet =
      Quiet-route_all (route core step.0 step.1).0 steps later
        (Quiet-route core step.0 step.1 here quiet)

  -- After a READY in a room with nothing in its buffer, as every room with a receiver is, and then any
  -- messages of any connections and sessions but a DONE of this session, a SYMBOL or a META of the
  -- session is sent to nobody and leaves all rooms as they are, and a receiver that says Hello is sent
  -- nothing.
  pub route_all-ready :
      (core : RelayCore) (room : Room) (from : Link) (steps : List (OrbitMessage × Link))
      (m : OrbitMessage) (link again : Link)
      → core.rooms id ≡ some room
      → room.buffer ≡ []
      → All (λ step. ¬ (step.0 ≡ done id)) steps
      → Data id m
      → let later = route_all (route core (ready id) from).0 steps in
        ((route later m link).1 ≡ [])
        × ((route later m link).0.rooms ≡ later.rooms)
        × ((route later (hello id role_receiver) again).1 ≡ [])
  unfolding Quiet route route_hello hello_receiver drain_buffer
  route_all-ready core room from steps m link again found empty going carried =
      let quiet =
        Quiet-route_all (route core (ready id) from).0 steps going
          (Quiet-ready core room (encode (ready id)) found empty) in
      let (unsent, same) =
        Quiet-Data (route_all (route core (ready id) from).0 steps) m link quiet carried in
      (unsent, same, nothing_left quiet)
    where
      nothing_left :
          Quiet (route_all (route core (ready id) from).0 steps)
          → (hello_receiver (route_all (route core (ready id) from).0 steps) id again).1 ≡ []
      nothing_left (room, found, is_done, empty) = ap (send_all again.tx) (
          ap (λ r. r.buffer) (at_entry (route_all (route core (ready id) from).0 steps) room found)
          ∙ empty)
