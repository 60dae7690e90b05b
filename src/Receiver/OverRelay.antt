-- ===== src/Receiver/OverRelay.antt =====
-- A transfer through one relay, byte for byte: `SenderSession::run` of
-- crates/orbit-transport/src/session.rs, `route` of crates/orbit-relay/src/lib.rs, `recv` of
-- crates/orbit-transport/src/client.rs and `ReceiverSession::run`.
use orbit_transfer.Prelude.{
  ℕ, ◌^◌, ◌<◌, ◌≡◌, refl, sym, ap, subst, ◌∙◌, Bool, List, [], ◌∷◌, ◌++◌, some, arith, map, length,
  All,
}
use mathlib.Core.List.{append-nil}
use orbit_transfer.Prelude.Le.{IsBytes}
use orbit_transfer.Platform.{Platform, DrawsInRange}
use orbit_transfer.Wire.{OrbitMessage, encode}
use orbit_transfer.Encoder
use orbit_transfer.Crypto.{Primitives, Opens}
use orbit_transfer.Scheduler.{SchedulerFloat}
use orbit_transfer.Relay.{Link, RelayCore, Sends, binary}
use orbit_transfer.Relay.Carry.{carry, Forwarded, Listens, carry-Listens}
use orbit_transfer.Client.{Incoming, recv_all, send}
use orbit_transfer.Client.Recv.{Sendable, arrival, recv_all-send}
use orbit_transfer.Transfer.Complete.{ids_from, ids_from-Encodes, contains-ids_from}
use orbit_transfer.Sender
use orbit_transfer.Sender.{
  Turn, Route, on_relay, SenderSession, message_of, sealed_block, announcement, begin,
}
use orbit_transfer.Sender.Emitted.{run-ids_from}
use orbit_transfer.Sender.Turns.{Live, Makes, run-Live}
use orbit_transfer.Session.{ReceiverSession, RecvPath, relay}
use orbit_transfer.Receiver.Decoding.{arrives, message_of-symbol}
use orbit_transfer.Receiver.Payload.{Fresh, Announced, Takes, Returns, run-Returns}
use orbit_transfer.Receiver.FromSender.{to_send, message_of-Makes}
use orbit_transfer.Receiver.{run}

-- What a receiver's connection yields of what a relay sends to it.
abbrev pub incoming : Sends → List Incoming
incoming sends = map (λ e. arrival e.1) sends

incoming-carry :
    (tx : ℕ) (ms : List OrbitMessage)
    → incoming (map (λ m. (tx, binary (encode m))) ms) ≡ map (λ m. arrival (send m)) ms
unfolding send
incoming-carry tx [] = refl
incoming-carry tx (m ∷ ms) = ap (λ t. arrival (send m) ∷ t) (incoming-carry tx ms)

-- The messages of a registered session, encoded, routed, sent and read, are the messages.
pub recv_all-carry :
    (core : RelayCore) (ms : List OrbitMessage) (id : ℕ) (link rx : Link)
    → Listens core id rx
    → All (Forwarded id) ms
    → All Sendable ms
    → recv_all (incoming (carry core link ms).1) ≡ ms
unfolding recv_all
recv_all-carry core ms id link rx listens forwarded sendable =
    ap (λ t. recv_all (incoming t)) (carry-Listens core ms id link rx listens forwarded)
    ∙ ap recv_all (incoming-carry rx.tx ms ∙ sym (append-nil (map (λ m. arrival (send m)) ms)))
    ∙ recv_all-send ms [] sendable
    ∙ append-nil ms

module _ (p : Platform) (in_range : DrawsInRange p) (c : Primitives) (opens : Opens c)
    (f : SchedulerFloat) (s : SenderSession p c f) (payload : List ℕ) (size : ℕ)
    (bytes : IsBytes payload) (made : Encoder.new p payload size ≡ some s.encoder) where
  messages-Forwarded :
      (esis : List ℕ) (ms : List OrbitMessage)
      → map some ms ≡ map (message_of p c f s) esis
      → All (Forwarded s.session_id) ms
  messages-Forwarded esis [] same = tt
  messages-Forwarded [] (m ∷ ms) same = cc
  messages-Forwarded (esi ∷ esis) (m ∷ ms) same =
      let head : some m ≡ message_of p c f s esi = cc in
      let tail : map some ms ≡ map (message_of p c f s) esis = cc in
      let (sy, encoded, is_symbol) = message_of-symbol p c f s esi m (sym head) in
      (subst (Forwarded s.session_id) (sym is_symbol) refl, messages-Forwarded esis ms tail)

  -- What one relay carries arrives from a relay.
  one_relay : List OrbitMessage → List (Route × OrbitMessage)
  one_relay ms = map (λ m. (on_relay 0, m)) ms

  one_relay-arrives :
      (ms : List OrbitMessage) → map (arrives p c) (one_relay ms) ≡ map (λ m. relay m) ms
  unfolding one_relay
  one_relay-arrives [] = refl
  one_relay-arrives (m ∷ ms) = ap (λ t. relay m ∷ t) (one_relay-arrives ms)

  one_relay-messages : (ms : List OrbitMessage) → map (λ e. some e.1) (one_relay ms) ≡ map some ms
  unfolding one_relay
  one_relay-messages [] = refl
  one_relay-messages (m ∷ ms) = ap (λ t. some m ∷ t) (one_relay-messages ms)

  some-messages :
      (log : List (Route × OrbitMessage)) → map some (map (λ e. e.1) log) ≡ map (λ e. some e.1) log
  some-messages [] = refl
  some-messages (e ∷ log) = ap (λ t. some e.1 ∷ t) (some-messages log)

  announcement-Forwarded : Forwarded s.session_id (announcement p c f s)
  unfolding announcement
  announcement-Forwarded = refl

  -- The META of the sender and the messages that its `run` queues in its first `k + s + h` turns that
  -- each find a path alive and with room, and no READY, routed one after the other by a relay at
  -- which the receiver is registered and has not said READY, sent there as frames and read by the
  -- receiver's connection, make the `run` of a receiver with the same secret return exactly the
  -- payload, whatever else arrives later. The wire format can carry the messages; there is a path,
  -- `k + s + h` is below 2 ^ 32 and the numbers of the META fit in its fields, every relay takes READY
  -- and Close, the cipher opens what it sealed, and the random draws are in range.
  run-Returns_relayed :
      (ts : List Turn) (r : ReceiverSession p c) (rest : List (RecvPath p c))
      (takes takes_close : ℕ → Bool) (core : RelayCore) (link rx : Link)
      → 0 < s.n_paths
      → to_send p in_range c opens f s payload size bytes made < 2 ^ 32
      → length ts ≡ to_send p in_range c opens f s payload size bytes made
      → All (Live s.n_paths) ts
      → Fresh p in_range c opens f s payload size bytes made r
      → Announced p in_range c opens f s payload size bytes made
      → Takes p in_range c opens f s payload size bytes made r takes
      → Takes p in_range c opens f s payload size bytes made r takes_close
      → Listens core s.session_id rx
      → All Sendable
          (announcement p c f s ∷ map (λ e. e.1) (Sender.run p c f s ts (begin p c f s)).0)
      → let log = (Sender.run p c f s ts (begin p c f s)).0 in
        let sends = (carry core link (announcement p c f s ∷ map (λ e. e.1) log)).1 in
        Returns p in_range c opens f s payload size bytes made r
          (run p c r takes takes_close (map (λ m. relay m) (recv_all (incoming sends)) ++ rest))
  run-Returns_relayed ts r rest takes takes_close core link rx paths few count live fresh fits t
        t_close listens sendable =
      let n = to_send p in_range c opens f s payload size bytes made in
      let log = (Sender.run p c f s ts (begin p c f s)).0 in
      let ms = map (λ e. e.1) log in
      let all_made : Makes p c f s (length ts) = λ i inside.
        message_of-Makes p in_range c opens f s payload size bytes made i (omega arith) in
      let sent : length log ≡ length ts = run-Live p c f s ts paths (omega arith) all_made live in
      let queued =
        some-messages log
        ∙ run-ids_from p c f s ts (omega arith)
        ∙ ap (λ l. map (message_of p c f s) (ids_from l 0)) (sent ∙ count) in
      let read =
        recv_all-carry core (announcement p c f s ∷ ms) s.session_id link rx listens
          (announcement-Forwarded, messages-Forwarded (ids_from n 0) ms queued) sendable in
      let same_events =
        ap (λ l. relay (announcement p c f s) ∷ l ++ rest) (one_relay-arrives ms)
        ∙ ap (λ l. map (λ m. relay m) l ++ rest) (sym read) in
      subst
        (λ events.
          Returns p in_range c opens f s payload size bytes made r
            (run p c r takes takes_close events))
        same_events
        (run-Returns p in_range c opens f s payload size bytes made r (ids_from n 0) (one_relay ms)
          rest takes takes_close fresh fits
          (ids_from-Encodes p in_range payload size s.encoder bytes made n 0 (omega arith))
          (λ i inside. contains-ids_from n 0 i (omega arith) (omega arith))
          (one_relay-messages ms ∙ queued) t t_close)
