-- ===== src/Relay/Carry.antt =====
-- A stream of symbols through `route` of crates/orbit-relay/src/lib.rs to a registered receiver.
use orbit_transfer.Prelude.{
  ℕ, ◌≡◌, refl, sym, ap, subst, false, List, [], ◌∷◌, ◌++◌, map, some, arith, All, length,
}
use orbit_transfer.Wire.{OrbitMessage, meta, symbol, encode}
use orbit_transfer.Relay.{
  Room, Link, RelayCore, Sends, binary, forward, forward_in, count_symbol, route,
}

-- What is sent while a connection's messages are routed one after the other.
unfoldable pub carry : RelayCore → Link → List OrbitMessage → RelayCore × Sends
unfolding route
carry core link [] = (core, [])
carry core link (m ∷ ms) =
    let (core', sent) = route core m link in
    let (core2, more) = carry core' link ms in (core2, sent ++ more)

-- A META or a SYMBOL of session `id`.
abbrev pub Forwarded : ℕ → OrbitMessage → Type 0
Forwarded id (meta s filename size symbol_size k checksum) = s ≡ id
Forwarded id (symbol s esi payload) = s ≡ id
Forwarded id _ = ⊥

-- A receiver that is registered in session `id` and has not said READY.
abbrev pub Listens : RelayCore → ℕ → Link → Type 0
Listens core id rx =
    (room : Room) × (core.rooms id ≡ some room)
    × (room.receiver ≡ some rx)
    × (room.receiver_done ≡ false)

forward-Listens :
    (core : RelayCore) (id : ℕ) (bytes : List ℕ) (rx : Link)
    → Listens core id rx
    → forward core id bytes ≡ (core, (rx.tx, binary bytes) ∷ [])
unfolding forward forward_in
forward-Listens core id bytes rx (room, found, there, going) = ground arith

route-Listens :
    (core : RelayCore) (m : OrbitMessage) (id : ℕ) (link rx : Link)
    → Listens core id rx
    → Forwarded id m
    → ((route core m link).1 ≡ (rx.tx, binary (encode m)) ∷ [])
      × Listens (route core m link).0 id rx
unfolding route count_symbol
route-Listens core (meta s filename size symbol_size k checksum) id link rx l same =
    let here = subst (λ i. Listens core i rx) (sym same) l in
    let sent =
      forward-Listens core s (encode (meta s filename size symbol_size k checksum)) rx here in
    (ap (λ t. t.1) sent, subst (λ c. Listens c id rx) (sym (ap (λ t. t.0) sent)) l)
route-Listens core (symbol s esi payload) id link rx l same =
    let core' = count_symbol (length payload) core in
    let here : Listens core' s rx = subst (λ i. Listens core i rx) (sym same) l in
    let sent = forward-Listens core' s (encode (symbol s esi payload)) rx here in
    (ap (λ t. t.1) sent, subst (λ c. Listens c id rx) (sym (ap (λ t. t.0) sent)) l)
route-Listens core m id link rx l same = absurd same

-- META and SYMBOL messages that a connection sends one after the other reach the registered
-- receiver of their session: every one, in their order, and nothing else is sent.
pub carry-Listens :
    (core : RelayCore) (ms : List OrbitMessage) (id : ℕ) (link rx : Link)
    → Listens core id rx
    → All (Forwarded id) ms
    → (carry core link ms).1 ≡ map (λ m. (rx.tx, binary (encode m))) ms
unfolding carry
carry-Listens core [] id link rx l h = refl
carry-Listens core (m ∷ ms) id link rx l h =
    let (sent, still) = route-Listens core m id link rx l h.0 in
    rw sent (
      ap (λ t. (rx.tx, binary (encode m)) ∷ t)
        (carry-Listens ((route core m link).0) ms id link rx still h.1))
