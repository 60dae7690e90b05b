-- ===== src/Receiver/FromSender.antt =====
-- crates/orbit-transport/src/session.rs: `SenderSession::run` and `ReceiverSession::run` together.
use orbit_transfer.Prelude.{
  ℕ, ◌^◌, ◌<◌, ◌≡◌, refl, ap, ◌∙◌, Bool, List, ◌∷◌, ◌++◌, some, arith, map, length, All,
}
use orbit_transfer.Prelude.Le.{IsBytes}
use orbit_transfer.Platform.{Platform, DrawsInRange}
use orbit_transfer.Wire.{symbol}
use orbit_transfer.Encoder
use orbit_transfer.Crypto.{Primitives, Opens}
use orbit_transfer.Scheduler.{SchedulerFloat}
use orbit_transfer.Transfer.Complete.{
  ids_from, inputs, systematic_encodes, ids_from-Encodes, contains-ids_from,
}
use orbit_transfer.Sender
use orbit_transfer.Sender.{
  Turn, Route, SenderSession, message_of, sealed_block, announcement, begin,
}
use orbit_transfer.Sender.Emitted.{run-ids_from}
use orbit_transfer.Sender.Turns.{Live, Makes, run-Live}
use orbit_transfer.Session.{ReceiverSession, RecvPath, relay}
use orbit_transfer.Receiver.Decoding.{arrives}
use orbit_transfer.Receiver.Payload.{Fresh, Announced, Takes, Returns, run-Returns}
use orbit_transfer.Receiver.{run}

module _ (p : Platform) (in_range : DrawsInRange p) (c : Primitives) (opens : Opens c)
    (f : SchedulerFloat) (s : SenderSession p c f) (payload : List ℕ) (size : ℕ)
    (bytes : IsBytes payload) (made : Encoder.new p payload size ≡ some s.encoder) where
  abbrev pub to_send : ℕ
  to_send = inputs p in_range payload size s.encoder bytes made

  -- The first symbols need no draw.
  pub message_of-Makes : Makes p c f s to_send
  unfolding message_of
  message_of-Makes i inside =
      let (sy, encoded) =
        systematic_encodes p in_range payload size s.encoder bytes made i inside in
      (symbol s.session_id i (sealed_block p c f s i sy.block), rw encoded refl)

  -- What a sender's `run` queues in its first `k + s + h` turns that each find a path alive and with
  -- room, and no READY, is enough: a receiver that has received nothing, with the same secret and
  -- session, that gets the META and these messages from relays and the direct link returns
  -- exactly the payload, with or without a cipher. There is a path, `k + s + h` is below 2 ^ 32 and
  -- the numbers of the META fit in its fields, every relay takes READY and Close, the cipher opens
  -- what it sealed, and the random draws are in range.
  run-Returns_live :
      (ts : List Turn) (r : ReceiverSession p c) (rest : List (RecvPath p c))
      (takes takes_close : ℕ → Bool)
      → 0 < s.n_paths
      → to_send < 2 ^ 32
      → length ts ≡ to_send
      → All (Live s.n_paths) ts
      → Fresh p in_range c opens f s payload size bytes made r
      → Announced p in_range c opens f s payload size bytes made
      → Takes p in_range c opens f s payload size bytes made r takes
      → Takes p in_range c opens f s payload size bytes made r takes_close
      → let log = (Sender.run p c f s ts (begin p c f s)).0 in
        Returns p in_range c opens f s payload size bytes made r (
          run p c r takes takes_close
            (relay (announcement p c f s) ∷ map (arrives p c) log ++ rest))
  run-Returns_live ts r rest takes takes_close paths few count live fresh fits t t_close =
      let log = (Sender.run p c f s ts (begin p c f s)).0 in
      let all_made : Makes p c f s (length ts) = λ i inside. message_of-Makes i (omega arith) in
      let sent : length log ≡ length ts = run-Live p c f s ts paths (omega arith) all_made live in
      run-Returns p in_range c opens f s payload size bytes made r (ids_from to_send 0) log rest
        takes takes_close fresh fits
        (ids_from-Encodes p in_range payload size s.encoder bytes made to_send 0 (omega arith))
        (λ i inside. contains-ids_from to_send 0 i (omega arith) (omega arith))
        (run-ids_from p c f s ts (omega arith)
          ∙ ap (λ n. map (message_of p c f s) (ids_from n 0)) (sent ∙ count))
        t t_close
