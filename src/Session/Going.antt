-- ===== src/Session/Going.antt =====
-- Whether a receiver of crates/orbit-transport/src/session.rs has its decoder, and listens for a direct
-- link, as its loop goes on.
use orbit_transfer.Prelude.{
  ℕ, ◌+◌, ◌≡◌, refl, ap, subst, ◌==◌, ◌∙◌, Bool, true, false, ◌||◌, List, [], ◌∷◌, ◌++◌, Option,
  none, some, All, if◌then◌else◌,
}
use orbit_transfer.Wire.{hello, meta, symbol, done, ready, direct}
use orbit_transfer.Platform.{Platform}
use orbit_transfer.Decoder
use orbit_transfer.Decoder.{FountainDecoder}
use orbit_transfer.Crypto.{Primitives}
use orbit_transfer.Session.{
  ReceiverSession, Step, RecvPath, relay, relay_closed, relays_gone, direct_message, direct_gone,
  more, completed, failed, panicked, opened, decoded, give_plain, give, handle_symbol,
  drain_pending, handle_meta, receive, has_decoder, run,
}

module _ (p : Platform) (c : Primitives) where
  -- A META of a relay.
  abbrev pub is_meta : RecvPath p c → Bool
  is_meta (relay (meta id filename size symbol_size k checksum)) = true
  is_meta (relay (hello id role)) = false
  is_meta (relay (symbol id esi sealed)) = false
  is_meta (relay (done id)) = false
  is_meta (relay (ready id)) = false
  is_meta (relay (direct id addr)) = false
  is_meta relay_closed = false
  is_meta relays_gone = false
  is_meta (direct_message m) = false
  is_meta direct_gone = false

  abbrev pub has_meta : List (RecvPath p c) → Bool
  has_meta [] = false
  has_meta (event ∷ events) = is_meta event || has_meta events

  -- What a reading task sends.
  abbrev pub Sent : RecvPath p c → Type 0
  Sent (relay m) = Unit {0}
  Sent relay_closed = Unit {0}
  Sent relays_gone = ⊥
  Sent (direct_message m) = Unit {0}
  Sent direct_gone = ⊥

  -- Going on, a session has a decoder or not, and listens or not.
  abbrev pub Going : Bool → Bool → Step p c → Type 0
  Going has listens (more r) = (has_decoder p c r ≡ has) × (r.has_direct ≡ listens)
  Going has listens (completed r) = Unit {0}
  Going has listens failed = Unit {0}
  Going has listens panicked = Unit {0}

  decoded-Going :
      (r : ReceiverSession p c) (o : Option (FountainDecoder p × Bool))
      → Going true r.has_direct (decoded p c r o)
  unfolding decoded has_decoder
  decoded-Going r none = tt
  decoded-Going r (some (d, true)) = tt
  decoded-Going r (some (d, false)) = (refl, refl)

  give-Going :
      (r : ReceiverSession p c) (d : FountainDecoder p) (esi : ℕ) (sealed : List ℕ)
      → Going true r.has_direct (give p c r d esi sealed)
  unfolding give give_plain
  give-Going r d esi sealed = go (opened p c r esi sealed)
    where
      go : (o : Option (List ℕ)) → Going true r.has_direct (give_plain p c r d esi o)
      go none = tt
      go (some plain) = decoded-Going r _

  handle_symbol-Going :
      (r : ReceiverSession p c) (esi : ℕ) (sealed : List ℕ)
      → Going (has_decoder p c r) r.has_direct (handle_symbol p c r esi sealed)
  unfolding handle_symbol has_decoder
  handle_symbol-Going r esi sealed = go r.decoder refl
    where
      go :
          (o : Option (FountainDecoder p))
          → r.decoder ≡ o
          → Going
              (elim o [ some d ↦ true | none ↦ false ])
              r.has_direct
              (elim o [
                | none ↦ more (record r { pending = r.pending ++ (esi, sealed) ∷ [] })
                | some d ↦ give p c r d esi sealed
              ])
      go none e = (rw e refl, refl)
      go (some d) e = give-Going r d esi sealed

  drain_pending-Going :
      (waiting : List (ℕ × List ℕ)) (r : ReceiverSession p c)
      → has_decoder p c r ≡ true
      → Going true r.has_direct (drain_pending p c waiting r)
  unfolding drain_pending has_decoder
  drain_pending-Going [] r has = (has, refl)
  drain_pending-Going ((esi, sealed) ∷ rest) r has =
      go (handle_symbol p c (record r { pending = rest }) esi sealed)
        (subst
          (λ b. Going b r.has_direct (handle_symbol p c (record r { pending = rest }) esi sealed))
          has (handle_symbol-Going (record r { pending = rest }) esi sealed))
        (λ r'. drain_pending-Going rest r')
    where
      go :
          (step : Step p c)
          → Going true r.has_direct step
          → ((r' : ReceiverSession p c)
              → has_decoder p c r' ≡ true
              → Going true r'.has_direct (drain_pending p c rest r'))
          → Going true r.has_direct (elim step [
            | more r' ↦ drain_pending p c rest r'
            | completed r' ↦ completed r'
            | failed ↦ failed
            | panicked ↦ panicked
          ])
      go (more r') (has', same) later =
          subst (λ b. Going true b (drain_pending p c rest r')) same (later r' has')
      go (completed r') h later = tt
      go failed h later = tt
      go panicked h later = tt

  handle_meta-Going :
      (r : ReceiverSession p c) (filename : List ℕ) (size symbol_size k checksum : ℕ)
      → Going true r.has_direct (handle_meta p c r filename size symbol_size k checksum)
  unfolding handle_meta has_decoder
  handle_meta-Going r filename size symbol_size k checksum =
      go r.decoder refl (Decoder.new p size symbol_size k checksum)
    where
      go :
          (o : Option (FountainDecoder p))
          → r.decoder ≡ o
          → (made : Option (FountainDecoder p))
          → Going true r.has_direct (elim o [
            | some d ↦ more r
            | none ↦ elim made [
              | none ↦ panicked
              | some d ↦
                  drain_pending p c r.pending
                    (record r { filename = some filename; decoder = some d })
            ]
          ])
      go (some d) e made = (rw e refl, refl)
      go none e none = tt
      go none e (some d) =
          drain_pending-Going r.pending (record r { filename = some filename; decoder = some d })
            refl

  or_false : (b : Bool) → b ≡ (b || false)
  or_false true = refl
  or_false false = refl

  or_true : (b : Bool) → true ≡ (b || true)
  or_true true = refl
  or_true false = refl

  or_assoc : (a b d : Bool) → ((a || b) || d) ≡ (a || (b || d))
  or_assoc true b d = refl
  or_assoc false b d = refl

  -- It has what it had.
  kept :
      (r : ReceiverSession p c) (step : Step p c)
      → Going (has_decoder p c r) r.has_direct step
      → Going (has_decoder p c r || false) r.has_direct step
  kept r step h = subst (λ b. Going b r.has_direct step) (or_false (has_decoder p c r)) h

  receive_closed-Going :
      (r : ReceiverSession p c)
      → Going (has_decoder p c r) r.has_direct (receive p c r relay_closed)
  unfolding receive has_decoder
  receive_closed-Going r = go r.decoder refl (r.relays_closed + 1 == r.n_relays)
    where
      closed : ReceiverSession p c
      closed = record r { relays_closed = r.relays_closed + 1 }

      go :
          (o : Option (FountainDecoder p))
          → r.decoder ≡ o
          → (b : Bool)
          → Going
              (elim o [ some d ↦ true | none ↦ false ])
              r.has_direct
              (if elim o [ some d ↦ true | none ↦ false ]
                then more closed
                else if b
                then failed
                else more closed)
      go (some d) e b = (rw e refl, refl)
      go none e true = tt
      go none e false = (rw e refl, refl)

  receive-Going :
      (r : ReceiverSession p c) (event : RecvPath p c)
      → Sent event
      → Going (has_decoder p c r || is_meta event) r.has_direct (receive p c r event)
  unfolding receive
  receive-Going r (relay (meta id filename size symbol_size k checksum)) sent =
      subst (λ b. Going b r.has_direct (handle_meta p c r filename size symbol_size k checksum))
        (or_true (has_decoder p c r)) (handle_meta-Going r filename size symbol_size k checksum)
  receive-Going r (relay (symbol id esi sealed)) sent =
      kept r (handle_symbol p c r esi sealed) (handle_symbol-Going r esi sealed)
  receive-Going r (relay (done id)) sent = tt
  receive-Going r (relay (hello id role)) sent = kept r (more r) (refl, refl)
  receive-Going r (relay (ready id)) sent = kept r (more r) (refl, refl)
  receive-Going r (relay (direct id addr)) sent = kept r (more r) (refl, refl)
  receive-Going r relay_closed sent = kept r (receive p c r relay_closed) (receive_closed-Going r)
  receive-Going r relays_gone sent = absurd sent
  receive-Going r (direct_message (symbol id esi sealed)) sent =
      kept r (handle_symbol p c r esi sealed) (handle_symbol-Going r esi sealed)
  receive-Going r (direct_message (meta id filename size symbol_size k checksum)) sent =
      kept r (more r) (refl, refl)
  receive-Going r (direct_message (done id)) sent = kept r (more r) (refl, refl)
  receive-Going r (direct_message (hello id role)) sent = kept r (more r) (refl, refl)
  receive-Going r (direct_message (ready id)) sent = kept r (more r) (refl, refl)
  receive-Going r (direct_message (direct id addr)) sent = kept r (more r) (refl, refl)
  receive-Going r direct_gone sent = absurd sent

  pub run-Going :
      (events : List (RecvPath p c)) (r : ReceiverSession p c)
      → All Sent events
      → Going (has_decoder p c r || has_meta events) r.has_direct (run p c events r)
  unfolding run
  run-Going [] r sent = kept r (more r) (refl, refl)
  run-Going (event ∷ events) r (sent, later) =
      go (receive p c r event) (receive-Going r event sent) (λ r'. run-Going events r' later)
    where
      go :
          (step : Step p c)
          → Going (has_decoder p c r || is_meta event) r.has_direct step
          → ((r' : ReceiverSession p c)
              → Going (has_decoder p c r' || has_meta events) r'.has_direct (run p c events r'))
          → Going (has_decoder p c r || has_meta (event ∷ events)) r.has_direct (elim step [
            | more r' ↦ run p c events r'
            | completed r' ↦ completed r'
            | failed ↦ failed
            | panicked ↦ panicked
          ])
      go (more r') (has, same) ih =
          let flags =
            ap (λ b. b || has_meta events) has
            ∙ or_assoc (has_decoder p c r) (is_meta event) (has_meta events) in
          subst (λ b. Going b r.has_direct (run p c events r')) flags
            (subst (λ b. Going (has_decoder p c r' || has_meta events) b (run p c events r')) same
              (ih r'))
      go (completed r') h ih = tt
      go failed h ih = tt
      go panicked h ih = tt
