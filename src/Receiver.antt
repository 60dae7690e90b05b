-- ===== src/Receiver.antt =====
-- crates/orbit-transport/src/session.rs: `ReceiverSession::run` as a whole. What one turn of its loop
-- does to the session is `receive` of Session; here are the statistics, and what follows the loop.
--
-- `relay_rx` and `direct_rx` are the list of what `select!` yields. A failed send to a relay is told
-- by a function, and the ten seconds that the relays have to close are the end of the list. The
-- code's `elapsed` and `overhead_ratio` are not modelled.
pub mod Loop
pub mod Statistics
pub mod Decoding
pub mod Payload
pub mod Shares
pub mod Late
pub mod FromSender
pub mod OverRelay
pub mod Streams
pub mod OverPaths
use orbit_transfer.Prelude.{
  ℕ, zero, suc, ◌+◌, ◌-◌, ◌%◌, ◌^◌, Bool, true, false, not, List, [], ◌∷◌, ◌++◌, Option, none, some,
  length, if◌then◌else◌,
}
use orbit_transfer.Wire.{OrbitMessage, hello, meta, symbol, done, ready, direct}
use orbit_transfer.Platform.{Platform}
use orbit_transfer.Decoder
use orbit_transfer.Decoder.{FountainDecoder, DecoderError, Reconstructed, reconstruct}
use orbit_transfer.Crypto.{Primitives}
use orbit_transfer.Relay.{WsOut}
use orbit_transfer.Client.{send, send_close}
use orbit_transfer.Session
use orbit_transfer.Session.{
  ReceiverSession, Step, more, completed, failed, panicked, RecvPath, relay, relay_closed,
  relays_gone, direct_message, direct_gone, receive,
}

-- The counters of the loop.
pub record Counters : Type 0 where
  pub symbols : ℕ
  pub bytes : ℕ
  pub via_direct : ℕ
  pub via_relay : ℕ

abbrev pub no_symbols : Counters
no_symbols = record { symbols = 0; bytes = 0; via_direct = 0; via_relay = 0 }

unfoldable pub count_relay : ℕ → Counters → Counters
count_relay n k = record k {
  symbols = (k.symbols + 1) % 2 ^ 64;
  bytes = (k.bytes + n) % 2 ^ 64;
  via_relay = (k.via_relay + 1) % 2 ^ 64;
}

unfoldable pub count_direct : ℕ → Counters → Counters
count_direct n k = record k {
  symbols = (k.symbols + 1) % 2 ^ 64;
  bytes = (k.bytes + n) % 2 ^ 64;
  via_direct = (k.via_direct + 1) % 2 ^ 64;
}

-- `sink.send(..).await?` for each sink, from sink `i` on: what is written, and whether none failed.
unfoldable pub send_each : ℕ → ℕ → (ℕ → Bool) → WsOut → List (ℕ × WsOut) × Bool
send_each zero i takes out = ([], true)
send_each (suc left) i takes out =
    let rest = send_each left (i + 1) takes out in
    if takes i then ((i, out) ∷ rest.0, rest.1) else ([], false)

module _ (p : Platform) (c : Primitives) where
  unfoldable pub count : RecvPath p c → Counters → Counters
  unfolding count_relay count_direct
  count (relay (symbol id esi sealed)) k = count_relay (length sealed) k
  count (relay (meta id filename size symbol_size n checksum)) k = k
  count (relay (hello id role)) k = k
  count (relay (done id)) k = k
  count (relay (ready id)) k = k
  count (relay (direct id addr)) k = k
  count (direct_message (symbol id esi sealed)) k = count_direct (length sealed) k
  count (direct_message (meta id filename size symbol_size n checksum)) k = k
  count (direct_message (hello id role)) k = k
  count (direct_message (done id)) k = k
  count (direct_message (ready id)) k = k
  count (direct_message (direct id addr)) k = k
  count relay_closed k = k
  count relays_gone k = k
  count direct_gone k = k

  -- The loop: what it comes to, the counters, and what is left in the queues.
  unfoldable pub run_counted :
      List (RecvPath p c)
      → ReceiverSession p c
      → Counters
      → Step p c × Counters × List (RecvPath p c)
  unfolding receive count
  run_counted [] r k = (more r, k, [])
  run_counted (event ∷ events) r k = elim (receive p c r event) [
    | more r' ↦ run_counted events r' (count event k)
    | completed r' ↦ (completed r', count event k, events)
    | failed ↦ (failed, count event k, events)
    | panicked ↦ (panicked, count event k, events)
  ]

  -- The relays that have not closed when the wait for them ends; only their queue is read.
  unfoldable pub drain : ℕ → List (RecvPath p c) → ℕ
  drain zero events = zero
  drain (suc remaining) [] = suc remaining
  drain (suc remaining) (relay m ∷ events) = drain (suc remaining) events
  drain (suc remaining) (relay_closed ∷ events) = drain remaining events
  drain (suc remaining) (relays_gone ∷ events) = suc remaining
  drain (suc remaining) (direct_message m ∷ events) = drain (suc remaining) events
  drain (suc remaining) (direct_gone ∷ events) = drain (suc remaining) events

  -- What `run` returns: the payload and the counters, what was written to the relays, and how many
  -- of them were still open.
  pub data Result : Type 0 where
    returned : List ℕ → Counters → List (ℕ × WsOut) → ℕ → Result
    refused : DecoderError → Result
    send_failed : List (ℕ × WsOut) → Result
    aborted : Result
    panic : Result
    unfinished : Result

  -- READY to every relay, then Close to every relay, then the wait.
  unfoldable pub acknowledge :
      ReceiverSession p c
      → Counters
      → (ℕ → Bool)
      → (ℕ → Bool)
      → List (RecvPath p c)
      → List ℕ
      → Result
  unfolding send_each drain send send_close
  acknowledge r k takes takes_close events payload =
      let (readies, ready_sent) = send_each r.n_relays 0 takes (send (ready r.session_id)) in
      let (closes, close_sent) = send_each r.n_relays 0 takes_close send_close in
      if not ready_sent
      then send_failed readies
      else if not close_sent
      then send_failed (readies ++ closes)
      else returned payload k (readies ++ closes) (drain (r.n_relays - r.relays_closed) events)

  unfoldable pub on_payload :
      ReceiverSession p c
      → Counters
      → (ℕ → Bool)
      → (ℕ → Bool)
      → List (RecvPath p c)
      → Option Reconstructed
      → Result
  unfolding acknowledge
  on_payload r k takes takes_close events none = panic
  on_payload r k takes takes_close events (some (Decoder.ok payload)) =
      acknowledge r k takes takes_close events payload
  on_payload r k takes takes_close events (some (Decoder.err e)) = refused e

  -- What follows the loop.
  unfoldable pub finish :
      ReceiverSession p c → Counters → (ℕ → Bool) → (ℕ → Bool) → List (RecvPath p c) → Result
  unfolding on_payload
  finish r k takes takes_close events = elim r.decoder [
    | none ↦ panic
    | some d ↦ on_payload r k takes takes_close events (reconstruct p d)
  ]

  unfoldable pub run : ReceiverSession p c → (ℕ → Bool) → (ℕ → Bool) → List (RecvPath p c) → Result
  unfolding run_counted finish
  run r takes takes_close events =
      let (step, k, rest) = run_counted events r no_symbols in
      elim step [
        | more r' ↦ unfinished
        | completed r' ↦ finish r' k takes takes_close rest
        | failed ↦ aborted
        | panicked ↦ panic
      ]
