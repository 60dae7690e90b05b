-- ===== src/Session/Readers/Closings.antt =====
-- `ReceiverSession` of crates/orbit-transport/src/session.rs without a META, as its relays end.
use orbit_transfer.Prelude.{
  ℕ, suc, ◌+◌, ◌<◌, ◌≡◌, ◌⊎◌, refl, ◌∙◌, ◌==◌, false, List, [], ◌∷◌, ◌++◌, none, All, arith, inl,
  inr, Bool-cases, if◌then◌else◌,
}
use orbit_transfer.Wire.{OrbitMessage, hello, meta, symbol, done, ready, direct}
use orbit_transfer.Platform.{Platform}
use orbit_transfer.Crypto.{Primitives}
use orbit_transfer.Session.{
  ReceiverSession, Step, RecvPath, relay, relay_closed, relays_gone, direct_message, direct_gone,
  more, failed, handle_symbol, receive, has_decoder, run,
}

abbrev pub IsMeta : OrbitMessage → Type 0
IsMeta (meta id filename size symbol_size k checksum) = Unit {0}
IsMeta (hello id role) = ⊥
IsMeta (symbol id esi sealed) = ⊥
IsMeta (done id) = ⊥
IsMeta (ready id) = ⊥
IsMeta (direct id addr) = ⊥

module _ (p : Platform) (c : Primitives) where
  -- Not a META of a relay.
  abbrev pub Dull : RecvPath p c → Type 0
  Dull (relay m) = ¬ IsMeta m
  Dull relay_closed = Unit {0}
  Dull relays_gone = Unit {0}
  Dull (direct_message m) = Unit {0}
  Dull direct_gone = Unit {0}

  -- How many relays an item says to have ended.
  unfoldable pub ended : RecvPath p c → ℕ
  ended (relay m) = 0
  ended relay_closed = 1
  ended relays_gone = 0
  ended (direct_message m) = 0
  ended direct_gone = 0

  unfoldable pub closings : List (RecvPath p c) → ℕ
  closings [] = 0
  closings (event ∷ events) = ended event + closings events

  -- A session without a decoder.
  abbrev pub Waits : ReceiverSession p c → Type 0
  Waits r = (r.decoder ≡ none) × (r.relays_closed < r.n_relays)

  -- Goes on without a decoder, and with the same count.
  abbrev Stays : ReceiverSession p c → Step p c → Type 0
  Stays r step =
      (r' : ReceiverSession p c) × (step ≡ more r')
      × (r'.decoder ≡ none)
      × (r'.relays_closed ≡ r.relays_closed)
      × (r'.n_relays ≡ r.n_relays)

  handle_symbol-Stays :
      (r : ReceiverSession p c) (esi : ℕ) (sealed : List ℕ)
      → r.decoder ≡ none
      → Stays r (handle_symbol p c r esi sealed)
  unfolding handle_symbol
  handle_symbol-Stays r esi sealed e =
      (record r { pending = r.pending ++ (esi, sealed) ∷ [] }, rw e refl, e, refl, refl)

  receive-Stays :
      (r : ReceiverSession p c) (m : OrbitMessage)
      → r.decoder ≡ none
      → ¬ IsMeta m
      → Stays r (receive p c r (relay m)) ⊎ (receive p c r (relay m) ≡ failed)
  unfolding receive
  receive-Stays r (meta id filename size symbol_size k checksum) e dull = elim (dull tt) [ ]
  receive-Stays r (symbol id esi sealed) e dull = inl (handle_symbol-Stays r esi sealed e)
  receive-Stays r (done id) e dull = inr refl
  receive-Stays r (hello id role) e dull = inl (r, refl, e, refl, refl)
  receive-Stays r (ready id) e dull = inl (r, refl, e, refl, refl)
  receive-Stays r (direct id addr) e dull = inl (r, refl, e, refl, refl)

  receive_direct-Stays :
      (r : ReceiverSession p c) (m : OrbitMessage)
      → r.decoder ≡ none
      → Stays r (receive p c r (direct_message m))
  unfolding receive
  receive_direct-Stays r (symbol id esi sealed) e = handle_symbol-Stays r esi sealed e
  receive_direct-Stays r (meta id filename size symbol_size k checksum) e = (r, refl, e, refl, refl)
  receive_direct-Stays r (done id) e = (r, refl, e, refl, refl)
  receive_direct-Stays r (hello id role) e = (r, refl, e, refl, refl)
  receive_direct-Stays r (ready id) e = (r, refl, e, refl, refl)
  receive_direct-Stays r (direct id addr) e = (r, refl, e, refl, refl)

  receive-relays_gone :
      (r : ReceiverSession p c) → r.decoder ≡ none → receive p c r relays_gone ≡ failed
  unfolding receive has_decoder
  receive-relays_gone r e = rw e refl

  receive-direct_gone :
      (r : ReceiverSession p c) → r.decoder ≡ none → Stays r (receive p c r direct_gone)
  unfolding receive
  receive-direct_gone r e = (record r { has_direct = false }, refl, e, refl, refl)

  -- What is left fails from every session that waits.
  abbrev pub Doomed : List (RecvPath p c) → Type 0
  Doomed events =
      (r : ReceiverSession p c)
      → Waits r
      → r.n_relays < suc (r.relays_closed + closings events)
      → run p c events r ≡ failed

  Stays-failed :
      (event : RecvPath p c) (events : List (RecvPath p c)) (r : ReceiverSession p c)
      → r.relays_closed < r.n_relays
      → r.n_relays < suc (r.relays_closed + closings events)
      → Stays r (receive p c r event)
      → Doomed events
      → run p c (event ∷ events) r ≡ failed
  unfolding run
  Stays-failed event events r waits enough (r', goes_on, e, same, n) doomed =
      rw (goes_on, run) (doomed r' (e, omega arith) (omega arith))

  failed-failed :
      (event : RecvPath p c) (events : List (RecvPath p c)) (r : ReceiverSession p c)
      → receive p c r event ≡ failed
      → run p c (event ∷ events) r ≡ failed
  unfolding run
  failed-failed event events r e = rw (e, run) refl

  receive-relay_closed :
      (r : ReceiverSession p c)
      → r.decoder ≡ none
      → receive p c r relay_closed ≡ (
          if r.relays_closed + 1 == r.n_relays
          then failed
          else more (record r { relays_closed = r.relays_closed + 1 }))
  unfolding receive has_decoder
  receive-relay_closed r e = rw e refl

  closed-failed :
      (events : List (RecvPath p c)) (r : ReceiverSession p c)
      → Waits r
      → r.n_relays < suc (r.relays_closed + suc (closings events))
      → Doomed events
      → run p c (relay_closed ∷ events) r ≡ failed
  unfolding run
  closed-failed events r (e, waits) enough doomed =
      let taken = receive-relay_closed r e in
      elim (Bool-cases (r.relays_closed + 1 == r.n_relays)) [
        | inl last ↦
            let fails : receive p c r relay_closed ≡ failed = taken ∙ rw last refl in
            failed-failed relay_closed events r fails
        | inr some_left ↦
            let closed = record r { relays_closed = r.relays_closed + 1 } in
            let goes_on : receive p c r relay_closed ≡ more closed = taken ∙ rw some_left refl in
            rw (goes_on, run) (doomed closed (e, ground arith) (omega arith))
      ]

  -- Once every relay has ended, the run has failed.
  pub run-closings : (events : List (RecvPath p c)) → All Dull events → Doomed events
  unfolding closings ended
  run-closings [] dull r (e, waits) enough = elim (too_few waits enough) [ ]
    where
      too_few : r.relays_closed < r.n_relays → r.n_relays < suc (r.relays_closed + 0) → ⊥
      too_few a b = omega arith
  run-closings (relay m ∷ events) (dull, later) r (e, waits) enough =
      elim (receive-Stays r m e dull) [
        | inl stays ↦
            Stays-failed (relay m) events r waits (omega arith) stays (run-closings events later)
        | inr fails ↦ failed-failed (relay m) events r fails
      ]
  run-closings (relay_closed ∷ events) (dull, later) r waits enough =
      closed-failed events r waits (omega arith) (run-closings events later)
  run-closings (relays_gone ∷ events) (dull, later) r (e, waits) enough =
      failed-failed relays_gone events r (receive-relays_gone r e)
  run-closings (direct_message m ∷ events) (dull, later) r (e, waits) enough =
      Stays-failed (direct_message m) events r waits (omega arith) (receive_direct-Stays r m e)
        (run-closings events later)
  run-closings (direct_gone ∷ events) (dull, later) r (e, waits) enough =
      Stays-failed direct_gone events r waits (omega arith) (receive-direct_gone r e)
        (run-closings events later)
