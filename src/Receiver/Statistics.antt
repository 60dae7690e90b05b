-- ===== src/Receiver/Statistics.antt =====
-- The statistics of `ReceiverSession::run` of crates/orbit-transport/src/session.rs.
use orbit_transfer.Prelude.{
  ℕ, ◌+◌, ◌-◌, ◌^◌, ◌≤◌, ◌<◌, ◌≡◌, refl, ap, subst, ◌∙◌, Bool, true, false, not, List, [], ◌∷◌,
  ◌++◌, Option, none, some, arith, length, if◌then◌else◌,
}
use orbit_transfer.Platform.{Platform}
use orbit_transfer.Wire.{hello, meta, symbol, done, ready, direct}
use orbit_transfer.Crypto.{Primitives}
use orbit_transfer.Relay.{WsOut}
use orbit_transfer.Decoder
use orbit_transfer.Decoder.{FountainDecoder, Reconstructed, reconstruct}
use orbit_transfer.Client.{send, send_close}
use orbit_transfer.Session
use orbit_transfer.Session.{
  ReceiverSession, Step, more, completed, failed, panicked, RecvPath, relay, relay_closed,
  relays_gone, direct_message, direct_gone, receive,
}
use orbit_transfer.Receiver.{
  Counters, no_symbols, count, count_relay, count_direct, send_each, drain, Result, returned,
  send_failed, aborted, panic, unfinished, run_counted, acknowledge, on_payload, finish, run,
}

module _ (p : Platform) (c : Primitives) where
  -- A SYMBOL from a relay, and one from the direct link.
  abbrev pub of_relay : RecvPath p c → ℕ
  of_relay (relay (symbol id esi sealed)) = 1
  of_relay _ = 0

  abbrev pub of_direct : RecvPath p c → ℕ
  of_direct (direct_message (symbol id esi sealed)) = 1
  of_direct _ = 0

  abbrev pub total : (RecvPath p c → ℕ) → List (RecvPath p c) → ℕ
  total by [] = 0
  total by (event ∷ events) = by event + total by events

  -- The counters after events, from others.
  abbrev Counted : Counters → List (RecvPath p c) → Counters → Type 0
  Counted k used k' =
      (k'.via_relay ≡ k.via_relay + total of_relay used)
      × (k'.via_direct ≡ k.via_direct + total of_direct used)
      × (k'.symbols ≡ k.symbols + total of_relay used + total of_direct used)

  abbrev Fits : Counters → ℕ → Type 0
  Fits k n = (k.via_relay + n < 2 ^ 64) × (k.via_direct + n < 2 ^ 64) × (k.symbols + n < 2 ^ 64)

  count-Counted :
      (event : RecvPath p c) (k : Counters)
      → Fits k 1
      → ((count p c event k).via_relay ≡ k.via_relay + of_relay event)
        × ((count p c event k).via_direct ≡ k.via_direct + of_direct event)
        × ((count p c event k).symbols ≡ k.symbols + of_relay event + of_direct event)
        × (of_relay event + of_direct event ≤ 1)
  unfolding count count_relay count_direct
  count-Counted (relay (symbol id esi sealed)) k h =
      (omega arith, omega arith, omega arith, omega arith)
  count-Counted (relay (meta id filename size symbol_size n checksum)) k h =
      (omega arith, omega arith, omega arith, omega arith)
  count-Counted (relay (hello id role)) k h = (omega arith, omega arith, omega arith, omega arith)
  count-Counted (relay (done id)) k h = (omega arith, omega arith, omega arith, omega arith)
  count-Counted (relay (ready id)) k h = (omega arith, omega arith, omega arith, omega arith)
  count-Counted (relay (direct id addr)) k h = (omega arith, omega arith, omega arith, omega arith)
  count-Counted (direct_message (symbol id esi sealed)) k h =
      (omega arith, omega arith, omega arith, omega arith)
  count-Counted (direct_message (meta id filename size symbol_size n checksum)) k h =
      (omega arith, omega arith, omega arith, omega arith)
  count-Counted (direct_message (hello id role)) k h =
      (omega arith, omega arith, omega arith, omega arith)
  count-Counted (direct_message (done id)) k h =
      (omega arith, omega arith, omega arith, omega arith)
  count-Counted (direct_message (ready id)) k h =
      (omega arith, omega arith, omega arith, omega arith)
  count-Counted (direct_message (direct id addr)) k h =
      (omega arith, omega arith, omega arith, omega arith)
  count-Counted relay_closed k h = (omega arith, omega arith, omega arith, omega arith)
  count-Counted relays_gone k h = (omega arith, omega arith, omega arith, omega arith)
  count-Counted direct_gone k h = (omega arith, omega arith, omega arith, omega arith)

  -- The loop goes on before the last of these, and the last completes it.
  abbrev pub Completes : ReceiverSession p c → List (RecvPath p c) → ReceiverSession p c → Type 0
  Completes r used end =
      (before : List (RecvPath p c)) × (last : RecvPath p c) × (going : ReceiverSession p c) × (used
        ≡ before ++ last ∷ [])
      × (Session.run p c before r ≡ more going)
      × (receive p c going last ≡ completed end)

  abbrev Ends : ReceiverSession p c → List (RecvPath p c) → Step p c → Type 0
  Ends r used (completed end) = Completes r used end
  Ends r used (more r') = Unit {0}
  Ends r used failed = Unit {0}
  Ends r used panicked = Unit {0}

  Ends-more :
      (event : RecvPath p c) (used : List (RecvPath p c)) (r r' : ReceiverSession p c)
      (step : Step p c)
      → receive p c r event ≡ more r'
      → Ends r' used step
      → Ends r (event ∷ used) step
  unfolding Session.run
  Ends-more event used r r' (completed end) e (before, last, going, split, goes, ends) =
      (event ∷ before, last, going, ap (λ l. event ∷ l) split, rw (e, Session.run) goes, ends)
  Ends-more event used r r' (more r'') e h = tt
  Ends-more event used r r' failed e h = tt
  Ends-more event used r r' panicked e h = tt

  -- What the loop consumed, and what it counted.
  abbrev Tallied :
      ReceiverSession p c
      → Counters
      → List (RecvPath p c)
      → Step p c × Counters × List (RecvPath p c)
      → Type 0
  Tallied r k events x =
      (used : List (RecvPath p c)) × (used ++ x.2 ≡ events) × Ends r used x.0 × Counted k used x.1

  run_counted-Tallied :
      (events : List (RecvPath p c)) (r : ReceiverSession p c) (k : Counters)
      → Fits k (length events)
      → Tallied r k events (run_counted p c events r k)
  unfolding run_counted Session.run
  run_counted-Tallied [] r k h = ([], refl, tt, (omega arith, omega arith, omega arith))
  run_counted-Tallied (event ∷ events) r k h =
      let one = count-Counted event k (omega arith, omega arith, omega arith) in
      go
        (λ r'.
          run_counted-Tallied events r' (count p c event k) (omega arith, omega arith, omega arith))
        one (receive p c r event) refl
    where
      counted : Step p c → Step p c × Counters × List (RecvPath p c)
      counted (more r') = run_counted p c events r' (count p c event k)
      counted (completed r') = (completed r', count p c event k, events)
      counted failed = (failed, count p c event k, events)
      counted panicked = (panicked, count p c event k, events)

      One : Type 0
      One =
          ((count p c event k).via_relay ≡ k.via_relay + of_relay event)
          × ((count p c event k).via_direct ≡ k.via_direct + of_direct event)
          × ((count p c event k).symbols ≡ k.symbols + of_relay event + of_direct event)
          × (of_relay event + of_direct event ≤ 1)

      last : One → Counted k (event ∷ []) (count p c event k)
      last (a, b, d, e) = (omega arith, omega arith, omega arith)

      go :
          ((r' : ReceiverSession p c)
            → Tallied r' (count p c event k) events (run_counted p c events r' (count p c event k)))
          → One
          → (step : Step p c) → receive p c r event ≡ step
          → Tallied r k (event ∷ events) (counted step)
      go later one (more r') e =
          let (used, whole, ends, (a, b, d)) = later r' in
          (
            event ∷ used,
            ap (λ t. event ∷ t) whole,
            Ends-more event used r r' (counted (more r')).0 e ends,
            (omega arith, omega arith, omega arith),
          )
      go later one (completed r') e = (event ∷ [], refl, ([], event, r, refl, refl, e), last one)
      go later one failed e = (event ∷ [], refl, tt, last one)
      go later one panicked e = (event ∷ [], refl, tt, last one)

  -- A result that returns has these counters.
  abbrev Keeps : Counters → Result p c → Type 0
  Keeps k (returned payload k' sent still_open) = k' ≡ k
  Keeps k _ = Unit {0}

  acknowledge-Keeps :
      (r : ReceiverSession p c) (k : Counters) (takes takes_close : ℕ → Bool)
      (events : List (RecvPath p c)) (payload : List ℕ)
      → Keeps k (acknowledge p c r k takes takes_close events payload)
  unfolding acknowledge
  acknowledge-Keeps r k takes takes_close events payload =
      go (send_each r.n_relays 0 takes (send (ready r.session_id)))
        (send_each r.n_relays 0 takes_close send_close)
    where
      go :
          (readies closes : List (ℕ × WsOut) × Bool)
          → Keeps k (
              if not readies.1
              then send_failed readies.0
              else if not closes.1
              then send_failed (readies.0 ++ closes.0)
              else returned payload k
                  (readies.0 ++ closes.0)
                  (drain p c (r.n_relays - r.relays_closed) events))
      go (readies, false) closes = tt
      go (readies, true) (closes, false) = tt
      go (readies, true) (closes, true) = refl

  finish-Keeps :
      (r : ReceiverSession p c) (k : Counters) (takes takes_close : ℕ → Bool)
      (events : List (RecvPath p c))
      → Keeps k (finish p c r k takes takes_close events)
  unfolding finish on_payload
  finish-Keeps r k takes takes_close events = go r.decoder
    where
      on_reconstructed :
          (o : Option Reconstructed) → Keeps k (on_payload p c r k takes takes_close events o)
      on_reconstructed none = tt
      on_reconstructed (some (Decoder.ok payload)) =
          acknowledge-Keeps r k takes takes_close events payload
      on_reconstructed (some (Decoder.err e)) = tt

      go :
          (o : Option (FountainDecoder p))
          → Keeps k (elim o [
            | none ↦ panic
            | some d ↦ on_payload p c r k takes takes_close events (reconstruct p d)
          ])
      go none = tt
      go (some d) = on_reconstructed (reconstruct p d)

  -- When `run` returns, having been given fewer than 2 ^ 64 messages and ends, its statistics are
  -- those of the first part of them whose last one completes the decoder, after all before it left the
  -- loop going: the SYMBOLs from relays, those from the direct link, and their sum.
  pub run-Counted :
      (r : ReceiverSession p c) (takes takes_close : ℕ → Bool) (events : List (RecvPath p c))
      (payload : List ℕ) (k : Counters) (sent : List (ℕ × WsOut)) (still_open : ℕ)
      → length events < 2 ^ 64
      → run p c r takes takes_close events ≡ returned payload k sent still_open
      → (used rest : List (RecvPath p c)) × (end : ReceiverSession p c) × (used ++ rest ≡ events)
        × Completes r used end
        × (k.via_relay ≡ total of_relay used)
        × (k.via_direct ≡ total of_direct used)
        × (k.symbols ≡ k.via_relay + k.via_direct)
  unfolding run
  run-Counted r takes takes_close events payload k sent still_open few returns =
      let tallied =
        run_counted-Tallied events r no_symbols (omega arith, omega arith, omega arith) in
      go (run_counted p c events r no_symbols) tallied returns
    where
      on_end : Counters → List (RecvPath p c) → Step p c → Result p c
      on_end k rest (more r') = unfinished
      on_end k rest (completed r') = finish p c r' k takes takes_close rest
      on_end k rest failed = aborted
      on_end k rest panicked = panic

      on_end-Keeps :
          (k : Counters) (rest : List (RecvPath p c)) (step : Step p c)
          → Keeps k (on_end k rest step)
      on_end-Keeps k rest (more r') = tt
      on_end-Keeps k rest (completed r') = finish-Keeps r' k takes takes_close rest
      on_end-Keeps k rest failed = tt
      on_end-Keeps k rest panicked = tt

      go :
          (x : Step p c × Counters × List (RecvPath p c))
          → Tallied r no_symbols events x
          → on_end x.1 x.2 x.0 ≡ returned payload k sent still_open
          → (used rest : List (RecvPath p c)) × (end : ReceiverSession p c) × (used ++ rest
              ≡ events)
            × Completes r used end
            × (k.via_relay ≡ total of_relay used)
            × (k.via_direct ≡ total of_direct used)
            × (k.symbols ≡ k.via_relay + k.via_direct)
      go (completed end, k', rest) (used, whole, completes, (a, b, d)) e =
          let same : k ≡ k' = subst (Keeps k') e (on_end-Keeps k' rest (completed end)) in
          let relays = ap (λ n. n.via_relay) same ∙ a in
          let directs = ap (λ n. n.via_direct) same ∙ b in
          let symbols = ap (λ n. n.symbols) same ∙ d in
          (used, rest, end, whole, completes, omega arith, omega arith, omega arith)
      go (more r', k', rest) tally e = cc
      go (failed, k', rest) tally e = cc
      go (panicked, k', rest) tally e = cc
