-- ===== src/Session/Receiving.antt =====
-- `ReceiverSession` of crates/orbit-transport/src/session.rs: symbols that overtake their META.
use orbit_transfer.Prelude.{
  ℕ, Bool, true, false, ◌≡◌, refl, sym, ap, subst, ◌∙◌, List, [], ◌∷◌, ◌++◌, Option, none, some,
  map,
}
use mathlib.Core.List.{append_assoc, append-nil}
use orbit_transfer.Wire.{OrbitMessage, meta, symbol}
use orbit_transfer.Platform.{Platform}
use orbit_transfer.Decoder
use orbit_transfer.Decoder.{FountainDecoder, add_symbol}
use orbit_transfer.Crypto.{Primitives}
use orbit_transfer.Session.{
  ReceiverSession, Step, more, completed, failed, panicked, RecvPath, relay, opened, decoded,
  direct_message, give_plain, give, handle_symbol, drain_pending, handle_meta, receive, run,
}

module _ (p : Platform) (c : Primitives) where
  -- A message, from a relay or on the direct link.
  abbrev pub comes : Bool → OrbitMessage → RecvPath p c
  comes true m = direct_message m
  comes false m = relay m

  receive-comes :
      (is_direct : Bool) (session esi : ℕ) (sealed : List ℕ) (r : ReceiverSession p c)
      → receive p c r (comes is_direct (symbol session esi sealed)) ≡ handle_symbol p c r esi sealed
  unfolding receive
  receive-comes true session esi sealed r = refl
  receive-comes false session esi sealed r = refl

  -- Equal results; when decoding is complete, what is left in the queue is not compared.
  abbrev pub SameStep : Step p c → Step p c → Type 0
  SameStep (more r) (more r') = r ≡ r'
  SameStep (completed r) (completed r') = record r { pending = [] } ≡ record r' { pending = [] }
  SameStep failed failed = Unit {0}
  SameStep panicked panicked = Unit {0}
  SameStep _ _ = ⊥

  SameStep-refl : (a : Step p c) → SameStep a a
  SameStep-refl (more r) = refl
  SameStep-refl (completed r) = refl
  SameStep-refl failed = tt
  SameStep-refl panicked = tt

  -- The loop goes on with what comes later.
  unfoldable pub then_run : List (RecvPath p c) → Step p c → Step p c
  then_run events (more r) = run p c events r
  then_run events (completed r) = completed r
  then_run events failed = failed
  then_run events panicked = panicked

  SameStep-then_run :
      (events : List (RecvPath p c)) (a b : Step p c)
      → SameStep a b
      → SameStep (then_run events a) (then_run events b)
  unfolding then_run
  SameStep-then_run events (more r) (completed r') h = elim h [ ]
  SameStep-then_run events (more r) failed h = elim h [ ]
  SameStep-then_run events (more r) panicked h = elim h [ ]
  SameStep-then_run events (completed r) (more r') h = elim h [ ]
  SameStep-then_run events (completed r) failed h = elim h [ ]
  SameStep-then_run events (completed r) panicked h = elim h [ ]
  SameStep-then_run events failed (more r') h = elim h [ ]
  SameStep-then_run events failed (completed r') h = elim h [ ]
  SameStep-then_run events failed panicked h = elim h [ ]
  SameStep-then_run events panicked (more r') h = elim h [ ]
  SameStep-then_run events panicked (completed r') h = elim h [ ]
  SameStep-then_run events panicked failed h = elim h [ ]
  SameStep-then_run events (more r) (more r') h =
      subst (λ x. SameStep (run p c events r) (run p c events x)) h
        (SameStep-refl (run p c events r))
  SameStep-then_run events (completed r) (completed r') h = h
  SameStep-then_run events failed failed h = tt
  SameStep-then_run events panicked panicked h = tt

  pub run-append :
      (xs ys : List (RecvPath p c)) (r : ReceiverSession p c)
      → run p c (xs ++ ys) r ≡ then_run ys (run p c xs r)
  unfolding run then_run
  run-append [] ys r = refl
  run-append (x ∷ xs) ys r = go (λ r'. run-append xs ys r') (receive p c r x)
    where
      on_step : List (RecvPath p c) → Step p c → Step p c
      on_step events (more r') = run p c events r'
      on_step events (completed r') = completed r'
      on_step events failed = failed
      on_step events panicked = panicked

      go :
          ((r' : ReceiverSession p c) → run p c (xs ++ ys) r' ≡ then_run ys (run p c xs r'))
          → (step : Step p c) → on_step (xs ++ ys) step ≡ then_run ys (on_step xs step)
      go later (more r') = later r'
      go later (completed r') = refl
      go later failed = refl
      go later panicked = refl

  module _ (session : ℕ) where
    abbrev pub arrivals : List (Bool × ℕ × List ℕ) → List (RecvPath p c)
    arrivals symbols = map (λ s. comes s.0 (symbol session s.1 s.2)) symbols

    abbrev pub waiting : List (Bool × ℕ × List ℕ) → List (ℕ × List ℕ)
    waiting symbols = map (λ s. (s.1, s.2)) symbols

    -- Without a decoder, symbols are kept in their order.
    run-pending :
        (symbols : List (Bool × ℕ × List ℕ)) (rest : List (RecvPath p c)) (r : ReceiverSession p c)
        → run p c (arrivals symbols ++ rest) (record r { decoder = none })
          ≡ run p c rest (record r { decoder = none; pending = r.pending ++ waiting symbols })
    unfolding run receive handle_symbol
    run-pending [] rest r =
        ap (λ kept. run p c rest (record r { decoder = none; pending = kept }))
          (sym (append-nil r.pending))
    run-pending ((true, esi, sealed) ∷ symbols) rest r =
        run-pending symbols rest (record r { pending = r.pending ++ (esi, sealed) ∷ [] })
        ∙ ap (λ kept. run p c rest (record r { decoder = none; pending = kept }))
            (append_assoc r.pending ((esi, sealed) ∷ []) (waiting symbols))
    run-pending ((false, esi, sealed) ∷ symbols) rest r =
        run-pending symbols rest (record r { pending = r.pending ++ (esi, sealed) ∷ [] })
        ∙ ap (λ kept. run p c rest (record r { decoder = none; pending = kept }))
            (append_assoc r.pending ((esi, sealed) ∷ []) (waiting symbols))

    -- With one, the queue is decoded as symbols that arrive now are.
    drain_pending-run :
        (symbols : List (Bool × ℕ × List ℕ)) (r : ReceiverSession p c) (d : FountainDecoder p)
        → SameStep
            (drain_pending p c (waiting symbols) (record r { decoder = some d }))
            (run p c (arrivals symbols) (record r { decoder = some d; pending = [] }))
    unfolding drain_pending run handle_symbol give opened give_plain decoded
    drain_pending-run [] r d = refl
    drain_pending-run ((is_direct, esi, sealed) ∷ symbols) r d =
        subst (λ step. SameStep (on_drain (handle_symbol p c queued esi sealed)) (on_run step))
          (sym (receive-comes is_direct session esi sealed direct))
          (on_plain (λ d'. drain_pending-run symbols (record r { pending = waiting symbols }) d')
            (opened p c r esi sealed))
      where
        on_drain : Step p c → Step p c
        on_drain (more r') = drain_pending p c (waiting symbols) r'
        on_drain (completed r') = completed r'
        on_drain failed = failed
        on_drain panicked = panicked

        on_run : Step p c → Step p c
        on_run (more r') = run p c (arrivals symbols) r'
        on_run (completed r') = completed r'
        on_run failed = failed
        on_run panicked = panicked

        queued : ReceiverSession p c
        queued = record r { decoder = some d; pending = waiting symbols }

        direct : ReceiverSession p c
        direct = record r { decoder = some d; pending = [] }

        Later : Type 0
        Later =
            (d' : FountainDecoder p)
            → SameStep
                (drain_pending p c (waiting symbols)
                  (record r { decoder = some d'; pending = waiting symbols }))
                (run p c (arrivals symbols) (record r { decoder = some d'; pending = [] }))

        on_decoded :
            Later
            → (o : Option (FountainDecoder p × Bool))
            → SameStep (on_drain (decoded p c queued o)) (on_run (decoded p c direct o))
        on_decoded later none = tt
        on_decoded later (some (d', true)) = refl
        on_decoded later (some (d', false)) = later d'

        on_plain :
            Later
            → (o : Option (List ℕ))
            → SameStep
                (on_drain (give_plain p c queued d esi o))
                (on_run (give_plain p c direct d esi o))
        on_plain later none = tt
        on_plain later (some plain) =
            on_decoded later
              (add_symbol p d (record { esi = esi; symbol_size = d.symbol_size; block = plain }))

    -- Symbols that overtake their META, from a relay or on the direct link, are not lost: a receiver
    -- without a decoder that gets symbols and then the META comes, after whatever follows, to the same
    -- state or the same failure, or completes with all but the queue of waiting symbols the same, as
    -- when the META comes first.
    pub run-overtaken :
        (symbols : List (Bool × ℕ × List ℕ)) (rest : List (RecvPath p c)) (id : ℕ)
        (filename : List ℕ) (size symbol_size k checksum : ℕ) (r : ReceiverSession p c)
        → let announced : RecvPath p c = relay (meta id filename size symbol_size k checksum) in
          let start : ReceiverSession p c = record r { decoder = none; pending = [] } in
          SameStep
            (run p c (arrivals symbols ++ announced ∷ rest) start)
            (run p c (announced ∷ arrivals symbols ++ rest) start)
    unfolding run receive handle_meta drain_pending then_run
    run-overtaken symbols rest id filename size symbol_size k checksum r =
        subst (λ s. SameStep s (run p c (announced ∷ arrivals symbols ++ rest) start))
          (sym (run-pending symbols (announced ∷ rest) start))
          (opening (Decoder.new p size symbol_size k checksum))
      where
        announced : RecvPath p c
        announced = relay (meta id filename size symbol_size k checksum)

        start : ReceiverSession p c
        start = record r { decoder = none; pending = [] }

        first : List (ℕ × List ℕ) → Option (FountainDecoder p) → Step p c
        first kept none = panicked
        first kept (some d) =
            drain_pending p c kept
              (record r { filename = some filename; decoder = some d; pending = kept })

        on_run : Step p c → Step p c
        on_run (more r') = run p c (arrivals symbols ++ rest) r'
        on_run (completed r') = completed r'
        on_run failed = failed
        on_run panicked = panicked

        opening :
            (o : Option (FountainDecoder p))
            → SameStep (then_run rest (first (waiting symbols) o)) (on_run (first [] o))
        opening none = tt
        opening (some d) =
            let opened_r : ReceiverSession p c = record r {
              filename = some filename;
              decoder = some d;
              pending = [];
            } in
            subst (SameStep (then_run rest (first (waiting symbols) (some d))))
              (sym (run-append (arrivals symbols) rest opened_r))
              (SameStep-then_run rest _ _ (
                drain_pending-run symbols
                  (record r { filename = some filename; pending = waiting symbols }) d))
