-- ===== src/Receiver/Payload.antt =====
-- A transfer over crates/orbit-transport/src/session.rs: what `SenderSession::run` queues, given to
-- `ReceiverSession::run`.
use orbit_transfer.Prelude.{
  ℕ, zero, suc, ◌+◌, ◌-◌, ◌^◌, ◌<◌, ◌≡◌, refl, ap, ap₂, ◌∙◌, Bool, true, false, List, [], ◌∷◌, ◌++◌,
  Option, none, some, arith, map,
}
use native.Mathlib.Nat.{mod-eq_of_lt}
use orbit_transfer.Prelude.Le.{IsBytes}
use orbit_transfer.Prelude.Sorted.{contains}
use orbit_transfer.Platform.{Platform, DrawsInRange}
use orbit_transfer.Wire.{OrbitMessage, ready}
use orbit_transfer.Encoder
use orbit_transfer.Encoder.{EncodedSymbol, FountainEncoder, encode_symbol}
use orbit_transfer.Decoder
use orbit_transfer.Decoder.{FountainDecoder, is_complete, reconstruct}
use orbit_transfer.Crypto.{Primitives, Opens}
use orbit_transfer.Scheduler.{SchedulerFloat}
use orbit_transfer.Relay.{WsOut}
use orbit_transfer.Client.{send, send_close}
use orbit_transfer.Transfer.Lossless.{Encodes, opened, complete-reconstruct}
use orbit_transfer.Transfer.Complete.{ids_from, inputs, s_for_ge, feed_completes}
use orbit_transfer.Sender.{Route, SenderSession, announcement}
use orbit_transfer.Session
use orbit_transfer.Session.{
  ReceiverSession, Step, more, completed, failed, panicked, RecvPath, relay, drain_pending,
  handle_meta, receive,
}
use orbit_transfer.Receiver.Decoding.{arrives, Arrived, Joined, run-Arrived}
use orbit_transfer.Receiver.Loop.{run_counted-run}
use orbit_transfer.Receiver.{
  Counters, no_symbols, Result, returned, send_each, run_counted, drain, acknowledge, on_payload,
  finish, run, unfinished, aborted, panic,
}

-- The same for each of the first `n` relays.
abbrev pub each : ℕ → WsOut → List (ℕ × WsOut)
each n out = map (λ i. (i, out)) (ids_from n 0)

send_each-all :
    (n i : ℕ) (takes : ℕ → Bool) (out : WsOut)
    → ((j : ℕ) → j < i + n → takes j ≡ true)
    → send_each n i takes out ≡ (map (λ j. (j, out)) (ids_from n i), true)
unfolding send_each ids_from
send_each-all zero i takes out h = refl
send_each-all (suc n) i takes out h =
    rw (h i (omega arith), send_each-all n (i + 1) takes out (λ j inside. h j (omega arith))) refl

module _ (p : Platform) (in_range : DrawsInRange p) (c : Primitives) (opens : Opens c)
    (f : SchedulerFloat) (s : SenderSession p c f) (payload : List ℕ) (size : ℕ)
    (bytes : IsBytes payload) (made : Encoder.new p payload size ≡ some s.encoder) where
  -- A receiver that has received nothing, and has the sender's key and session.
  abbrev pub Fresh : ReceiverSession p c → Type 0
  Fresh r =
      (r.decoder ≡ none)
      × (r.pending ≡ [])
      × Joined p in_range c opens f s payload size bytes made r

  -- The sender's numbers fit in the fields of META.
  abbrev pub Announced : Type 0
  Announced = (s.encoder.symbol_size < 2 ^ 32) × (s.encoder.k < 2 ^ 32)

  receive-announcement :
      (r : ReceiverSession p c) (d : FountainDecoder p)
      → Fresh r
      → Announced
      → Decoder.new p s.encoder.payload_len s.encoder.symbol_size s.encoder.k s.encoder.checksum
        ≡ some d
      → receive p c r (relay (announcement p c f s))
        ≡ more (record r { filename = some s.filename; decoder = some d; pending = [] })
  unfolding receive announcement handle_meta drain_pending
  receive-announcement r d (unopened, unqueued, joined) (size_fits, k_fits) new_d =
      let size_kept = mod-eq_of_lt size_fits in
      let k_kept = mod-eq_of_lt k_fits in
      ap₂ (λ a b. handle_meta p c r s.filename s.encoder.payload_len a b s.encoder.checksum)
        size_kept k_kept
      ∙ ap₂
          (λ decoder pending.
            handle_meta p c (record r { decoder = decoder; pending = pending }) s.filename
              s.encoder.payload_len s.encoder.symbol_size s.encoder.k s.encoder.checksum)
          unopened unqueued
      ∙ ap on_new new_d
    where
      on_new : Option (FountainDecoder p) → Step p c
      on_new none = panicked
      on_new (some d) =
          more (record r { filename = some s.filename; decoder = some d; pending = [] })

  -- The loop ends with a complete decoder of the payload.
  pub run-payload :
      (r : ReceiverSession p c) (esis : List ℕ) (log : List (Route × OrbitMessage))
      (rest : List (RecvPath p c))
      → Fresh r
      → Announced
      → Encodes p s.encoder esis
      → ((i : ℕ) → i < inputs p in_range payload size s.encoder bytes made → contains i esis ≡ true)
      → Arrived p in_range c opens f s payload size bytes made esis log
      → (r' : ReceiverSession p c) × (d : FountainDecoder p) × (Session.run p c
            (relay (announcement p c f s) ∷ map (arrives p c) log ++ rest)
            r
          ≡ completed r')
        × (r'.decoder ≡ some d)
        × (reconstruct p d ≡ some (Decoder.ok payload))
        × (r'.session_id ≡ s.session_id)
        × (r'.n_relays ≡ r.n_relays)
  unfolding Session.run contains
  run-payload r [] log rest fresh fits h covers same =
      let first : false ≡ true = covers 0 (omega (arith, s_for_ge s.encoder.k)) in absurd cc
  run-payload r (esi ∷ esis) log rest fresh fits h covers same =
      let (d0, new_d, follows) = opened p in_range payload size s.encoder bytes made in
      let (d', fed, full, whole) =
        feed_completes p in_range payload size s.encoder bytes made d0 new_d (esi ∷ esis) h
          covers in
      let r1 : ReceiverSession p c = record r {
        filename = some s.filename;
        decoder = some d0;
        pending = [];
      } in
      let (d, ended, follows', full') =
        run-Arrived p in_range c opens f s payload size bytes made esi esis log rest r1 d0 d'
          fresh.2 same follows fed full in
      (
        record r1 { decoder = some d },
        d,
        ap
              (λ step. elim step as (λ x. Step p c) [
                | more r' ↦ Session.run p c (map (arrives p c) log ++ rest) r'
                | completed r' ↦ completed r'
                | failed ↦ failed
                | panicked ↦ panicked
              ])
              (receive-announcement r d0 fresh fits new_d)
            ∙ ended,
        refl,
        complete-reconstruct p in_range payload size s.encoder bytes made d follows' full',
        fresh.2.1,
        refl,
      )

  -- Every relay takes what is sent to it after the loop.
  abbrev pub Takes : ReceiverSession p c → (ℕ → Bool) → Type 0
  Takes r takes = (i : ℕ) → i < r.n_relays → takes i ≡ true

  -- The messages that `run` writes when it returns.
  abbrev pub acknowledged : ReceiverSession p c → List (ℕ × WsOut)
  acknowledged r = each r.n_relays (send (ready s.session_id)) ++ each r.n_relays send_close

  -- `run` returns the payload, after these messages.
  abbrev pub Returns : ReceiverSession p c → Result p c → Type 0
  Returns r result =
      (k : Counters) × (still_open : ℕ) × (result ≡ returned payload k (acknowledged r) still_open)

  finish-returned :
      (r : ReceiverSession p c) (d : FountainDecoder p) (k : Counters)
      (takes takes_close : ℕ → Bool) (events : List (RecvPath p c))
      → r.decoder ≡ some d
      → reconstruct p d ≡ some (Decoder.ok payload)
      → r.session_id ≡ s.session_id
      → Takes r takes
      → Takes r takes_close
      → finish p c r k takes takes_close events
        ≡ returned payload k (acknowledged r) (drain p c (r.n_relays - r.relays_closed) events)
  unfolding finish on_payload acknowledge
  finish-returned r d k takes takes_close events complete whole same h h_close =
      rw
        (
          complete,
          whole,
          same,
          send_each-all r.n_relays 0 takes (send (ready s.session_id))
              (λ j inside. h j (omega arith)),
          send_each-all r.n_relays 0 takes_close send_close (λ j inside. h_close j (omega arith)),
        )
        refl

  -- A loop that completes with the payload is followed by the acknowledgements.
  pub payload-Returns :
      (r r' : ReceiverSession p c) (d : FountainDecoder p) (takes takes_close : ℕ → Bool)
      (events : List (RecvPath p c))
      → Session.run p c events r ≡ completed r'
      → r'.decoder ≡ some d
      → reconstruct p d ≡ some (Decoder.ok payload)
      → r'.session_id ≡ s.session_id
      → r'.n_relays ≡ r.n_relays
      → Takes r takes
      → Takes r takes_close
      → Returns r (run p c r takes takes_close events)
  unfolding run
  payload-Returns r r' d takes takes_close events ended complete whole session relays t t_close =
      go (run_counted p c events r no_symbols) (run_counted-run p c events r no_symbols ∙ ended)
    where
      on_end : Counters → List (RecvPath p c) → Step p c → Result p c
      on_end k rest (more r') = unfinished
      on_end k rest (completed r') = finish p c r' k takes takes_close rest
      on_end k rest failed = aborted
      on_end k rest panicked = panic

      go :
          (x : Step p c × Counters × List (RecvPath p c))
          → x.0 ≡ completed r'
          → Returns r (on_end x.1 x.2 x.0)
      go (step, k, rest) e =
          let finished =
            finish-returned r' d k takes takes_close rest complete whole session
              (λ i inside. t i (omega arith)) (λ i inside. t_close i (omega arith)) in
          (
            k,
            _,
            ap (on_end k rest) e
                ∙ finished
                ∙ ap
                    (λ n.
                      returned payload k (each n (send (ready s.session_id)) ++ each n send_close)
                        (drain p c (r'.n_relays - r'.relays_closed) rest))
                    relays,
          )

  -- A receiver that has received nothing, with the sender's secret and session, gets the sender's
  -- META and then messages that the sender makes, among them those of every id below the
  -- `k + s + h` inputs, in any order, repeated or not, each from a relay or from the direct link, and
  -- then whatever else. Its `run` returns exactly the payload, after READY to every relay and a
  -- close of every relay, when each relay takes them, the numbers of the META fit in its fields, the
  -- cipher opens what it sealed, the listed symbols are encoded and the random draws are in range.
  pub run-Returns :
      (r : ReceiverSession p c) (esis : List ℕ) (log : List (Route × OrbitMessage))
      (rest : List (RecvPath p c)) (takes takes_close : ℕ → Bool)
      → Fresh r
      → Announced
      → Encodes p s.encoder esis
      → ((i : ℕ) → i < inputs p in_range payload size s.encoder bytes made → contains i esis ≡ true)
      → Arrived p in_range c opens f s payload size bytes made esis log
      → Takes r takes
      → Takes r takes_close
      → Returns r (
          run p c r takes takes_close
            (relay (announcement p c f s) ∷ map (arrives p c) log ++ rest))
  run-Returns r esis log rest takes takes_close fresh fits h covers same t t_close =
      let (r', d, ended, complete, whole, session, relays) =
        run-payload r esis log rest fresh fits h covers same in
      payload-Returns r r' d takes takes_close _ ended complete whole session relays t t_close
