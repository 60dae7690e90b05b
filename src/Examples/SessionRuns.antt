-- ===== src/Examples/SessionRuns.antt =====
-- A sender and a receiver of crates/orbit-transport on the payload of FountainRuns.
use orbit_transfer.Prelude.{
  ◌++◌, ℕ, ◌+◌, ◌≡◌, ◌<◌, ◌==◌, refl, true, false, List, [], ◌∷◌, none, some, arith, All, length,
  map, replicate,
}
use orbit_transfer.Prelude.Sorted.{contains}
use orbit_transfer.Wire.{OrbitMessage, symbol}
use orbit_transfer.Precode.{s_for, h_for}
use orbit_transfer.Encoder.{EncodedSymbol, encode_symbol}
use orbit_transfer.Crypto.{Opens, seal_symbol}
use orbit_transfer.Scheduler.{pick}
use orbit_transfer.Transfer.{feed}
use orbit_transfer.Decoder.{FountainDecoder, ok, is_complete, reconstruct}
use orbit_transfer.Transfer.Lossless.{Encodes}
use orbit_transfer.Transfer.Complete.{ids_from, feed_completes, systematic_encodes}
use orbit_transfer.Sender
use orbit_transfer.Sender.{
  Turn, Route, on_relay, on_direct, SenderSession, Loop, finished, stopped, all_unreachable,
  got_ready, got_direct, message_of, announcement, begin, stats, turn, any_path_alive, take_events,
  send_symbol, dispatch_or_wait, try_relays, try_direct,
}
use orbit_transfer.Sender.Emitted.{run-ids_from}
use orbit_transfer.Sender.Turns.{Live, run-Live}
use orbit_transfer.Sender.Stops.{turn-relays_dead}
use orbit_transfer.Session.{ReceiverSession, RecvPath, relay}
use orbit_transfer.Receiver.Decoding.{arrives, Arrived}
use orbit_transfer.Receiver.Payload.{Returns, acknowledged, run-Returns}
use orbit_transfer.Receiver.FromSender.{message_of-Makes}
use orbit_transfer.Receiver.Late.{run-Returns_late}
use orbit_transfer.Receiver.Statistics.{run-Counted, Completes, total, of_relay, of_direct}
use orbit_transfer.Receiver
use orbit_transfer.Examples.Platforms.{counting, counting-DrawsInRange}
use orbit_transfer.Examples.FountainRuns.{
  payload, payload-IsBytes, made, encoder-made, opened, decoder-opened,
}
use orbit_transfer.Examples.TransportRuns.{halves, clear}

pub clear-Opens : Opens clear
clear-Opens key nonce aad msg = refl

-- Two relays and a secret.
abbrev pub sender : SenderSession counting clear halves
sender = record {
  n_paths = 2;
  encoder = made;
  cipher = some (record { key = 5 ∷ [] });
  session_id = 7;
  filename = 97 ∷ [];
}

abbrev pub receiver : ReceiverSession counting clear
receiver = record {
  n_relays = 2;
  relays_closed = 0;
  has_direct = true;
  cipher = some (record { key = 5 ∷ [] });
  decoder = none;
  pending = [];
  session_id = 7;
  filename = none;
}

-- Only relay 1 lives, and no direct link.
abbrev pub quiet : Turn
quiet = record {
  events = [];
  alive_first = λ j. true;
  alive = λ j. j == 1;
  has_room = λ j. true;
  alive_then = λ j. true;
  writer = record { is_alive = false; has_room = false };
  writer_alive_then = false;
  stalled = false;
}

abbrev pub eight : List Turn
eight = replicate 8 quiet

quiet-Live : Live 2 quiet
quiet-Live = (tt, 1, omega arith, refl, refl)

pub eight-Live : All (Live 2) eight
eight-Live = (
  quiet-Live,
  (
    quiet-Live,
    (quiet-Live, (quiet-Live, (quiet-Live, (quiet-Live, (quiet-Live, (quiet-Live, tt)))))),
  ),
)

run-ids_from_example :
    let log =
      (Sender.run counting clear halves sender eight (begin counting clear halves sender)).0 in
    map (λ e. some e.1) log
    ≡ map (message_of counting clear halves sender) (ids_from (length log) 0)
run-ids_from_example = run-ids_from counting clear halves sender eight (omega arith)

run-Live_example :
    length ((Sender.run counting clear halves sender eight (begin counting clear halves sender)).0)
    ≡ 8
unfolding s_for h_for
run-Live_example =
    run-Live counting clear halves sender eight (omega arith) (omega arith)
      (message_of-Makes counting counting-DrawsInRange clear clear-Opens halves sender payload 2
        payload-IsBytes encoder-made)
      eight-Live

-- The relays are dead, the direct link is there and has room.
abbrev direct_only : Turn
direct_only = record {
  events = got_direct ∷ [];
  alive_first = λ j. false;
  alive = λ j. false;
  has_room = λ j. true;
  alive_then = λ j. false;
  writer = record { is_alive = true; has_room = true };
  writer_alive_then = true;
  stalled = false;
}

turn-relays_dead_example :
    turn counting clear halves sender direct_only (begin counting clear halves sender)
    ≡ stopped all_unreachable
unfolding begin message_of encode_symbol take_events seal_symbol pick
turn-relays_dead_example =
    turn-relays_dead counting clear halves sender direct_only (symbol 7 0 (1 ∷ 2 ∷ []))
      (begin counting clear halves sender) 0 refl (λ j inside. refl) (λ j inside. refl) refl refl
      (omega arith)

abbrev arrived : List (Route × OrbitMessage)
arrived =
    (on_relay 1, symbol 7 7 (0 ∷ 0 ∷ []))
    ∷ (on_direct, symbol 7 6 (0 ∷ 0 ∷ []))
    ∷ (on_direct, symbol 7 6 (0 ∷ 0 ∷ []))
    ∷ (on_direct, symbol 7 5 (0 ∷ 0 ∷ []))
    ∷ (on_relay 0, symbol 7 4 (0 ∷ 0 ∷ []))
    ∷ (on_relay 0, symbol 7 3 (2 ∷ 2 ∷ []))
    ∷ (on_relay 0, symbol 7 2 (2 ∷ 2 ∷ []))
    ∷ (on_relay 0, symbol 7 0 (1 ∷ 2 ∷ []))
    ∷ (on_direct, symbol 7 1 (3 ∷ 0 ∷ []))
    ∷ []

abbrev arrived_ids : List ℕ
arrived_ids = 7 ∷ 6 ∷ 6 ∷ 5 ∷ 4 ∷ 3 ∷ 2 ∷ 0 ∷ 1 ∷ []

arrived-Arrived :
    Arrived counting counting-DrawsInRange clear clear-Opens halves sender payload 2 payload-IsBytes
      encoder-made arrived_ids arrived
unfolding message_of encode_symbol seal_symbol
arrived-Arrived = refl

-- The inputs that the encoder makes are eight.
in_arrived : (i : ℕ) → i < 8 → contains i arrived_ids ≡ true
unfolding contains
in_arrived i inside = ground arith

abbrev incoming : List (RecvPath counting clear)
incoming =
    relay (announcement counting clear halves sender) ∷ map (arrives counting clear) arrived ++ []

below : (i : ℕ) → i < 8 → (sy : EncodedSymbol) × (encode_symbol counting made i ≡ some sy)
unfolding s_for h_for
below i inside =
    systematic_encodes counting counting-DrawsInRange payload 2 made payload-IsBytes encoder-made i
      inside

arrived_ids-Encodes : Encodes counting made arrived_ids
arrived_ids-Encodes =
    let at_1 = below 1 (omega arith) in
    let at_0 = below 0 (omega arith) in
    let at_2 = below 2 (omega arith) in
    let at_3 = below 3 (omega arith) in
    let at_4 = below 4 (omega arith) in
    let at_5 = below 5 (omega arith) in
    let at_6 = below 6 (omega arith) in
    let at_7 = below 7 (omega arith) in
    (at_7, (at_6, (at_6, (at_5, (at_4, (at_3, (at_2, (at_0, (at_1, tt)))))))))

feed_completes_example :
    (d : FountainDecoder counting) × (feed counting made arrived_ids opened ≡ some d)
    × (is_complete counting d ≡ true)
    × (reconstruct counting d ≡ some (ok payload))
unfolding s_for h_for
feed_completes_example =
    feed_completes counting counting-DrawsInRange payload 2 made payload-IsBytes encoder-made opened
      decoder-opened arrived_ids arrived_ids-Encodes in_arrived

returned_payload :
    Returns counting counting-DrawsInRange clear clear-Opens halves sender payload 2 payload-IsBytes
      encoder-made receiver
      (Receiver.run counting clear receiver (λ j. true) (λ j. true) incoming)
unfolding s_for h_for
returned_payload =
    run-Returns counting counting-DrawsInRange clear clear-Opens halves sender payload 2
      payload-IsBytes encoder-made receiver arrived_ids arrived [] (λ j. true) (λ j. true)
      (refl, refl, (refl, refl)) (omega arith, omega arith) arrived_ids-Encodes in_arrived
      arrived-Arrived (λ j inside. refl) (λ j inside. refl)

-- The META comes last of all.
run-Returns_late_example :
    Returns counting counting-DrawsInRange clear clear-Opens halves sender payload 2 payload-IsBytes
      encoder-made receiver
      (Receiver.run counting clear receiver
        (λ j. true)
        (λ j. true)
        (map (arrives counting clear) arrived
          ++ relay (announcement counting clear halves sender) ∷ ([] ++ [])))
unfolding s_for h_for
run-Returns_late_example =
    run-Returns_late counting counting-DrawsInRange clear clear-Opens halves sender payload 2
      payload-IsBytes encoder-made receiver arrived_ids arrived [] [] (λ j. true) (λ j. true)
      (refl, refl, (refl, refl)) (omega arith, omega arith) arrived_ids-Encodes in_arrived
      arrived-Arrived (λ j inside. refl) (λ j inside. refl)

run-Counted_example :
    (used rest : List (RecvPath counting clear)) × (end : ReceiverSession counting clear) × (used
        ++ rest
      ≡ incoming)
    × Completes counting clear receiver used end
    × (returned_payload.0.via_relay ≡ total counting clear (of_relay counting clear) used)
    × (returned_payload.0.via_direct ≡ total counting clear (of_direct counting clear) used)
    × (returned_payload.0.symbols ≡ returned_payload.0.via_relay + returned_payload.0.via_direct)
run-Counted_example =
    run-Counted counting clear receiver (λ j. true) (λ j. true) incoming payload returned_payload.0
      (acknowledged counting counting-DrawsInRange clear clear-Opens halves sender payload 2
        payload-IsBytes encoder-made receiver)
      returned_payload.1 (omega arith) returned_payload.2
