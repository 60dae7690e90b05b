-- ===== src/Receiver/OverPaths.antt =====
-- A transfer over several relays and a direct link of crates/orbit-transport/src/session.rs, each with its
-- own queue and pace, through crates/orbit-relay/src/lib.rs.
use orbit_transfer.Prelude.{
  ℕ, ◌^◌, ◌<◌, ◌≡◌, sym, ap, subst, ◌∙◌, Bool, true, false, inl, inr, Bool-cases, List, ◌∷◌, ◌++◌,
  some, arith, map, length, All,
}
use orbit_transfer.Prelude.Le.{IsBytes}
use orbit_transfer.Prelude.Sorted.{contains}
use orbit_transfer.Platform.{Platform, DrawsInRange}
use orbit_transfer.Wire.{OrbitMessage}
use orbit_transfer.Encoder
use orbit_transfer.Crypto.{Primitives, Opens}
use orbit_transfer.Scheduler.{SchedulerFloat}
use orbit_transfer.Pipeline.{Action}
use orbit_transfer.Relay.{RelayCore, Link}
use orbit_transfer.Relay.Carry.{Listens}
use orbit_transfer.Client.Recv.{Sendable}
use orbit_transfer.Transfer.Complete.{ids_from, contains-ids_from}
use orbit_transfer.Sender
use orbit_transfer.Sender.{
  Turn, Route, on_relay, on_direct, SenderSession, message_of, announcement, begin,
}
use orbit_transfer.Sender.Emitted.{run-ids_from}
use orbit_transfer.Sender.Turns.{Live, Makes, run-Live}
use orbit_transfer.Session.{ReceiverSession, RecvPath}
use orbit_transfer.Receiver.Decoding.{arrives}
use orbit_transfer.Receiver.Payload.{Fresh, Announced, Takes, Returns}
use orbit_transfer.Receiver.Shares.{
  same_route, same_route_eq, later_relay, share, esis_of, share-first,
}
use orbit_transfer.Receiver.Late.{map_split, run-Returns_late}
use orbit_transfer.Receiver.FromSender.{to_send, message_of-Makes}
use orbit_transfer.Receiver.{run}
use orbit_transfer.Direct.Frames.{Framed, CanFrame, recv_stream-Framed}
use orbit_transfer.Receiver.Shares.{share-All}
use orbit_transfer.Receiver.Streams.{
  written_on, Mine, queued-Mine, Mine-Arrived, shares-esis, shares-Mine, Carries, Hears,
  Carries-written, read_from-share,
}

module _ (p : Platform) (in_range : DrawsInRange p) (c : Primitives) (opens : Opens c)
    (f : SchedulerFloat) (s : SenderSession p c f) (payload : List ℕ) (size : ℕ)
    (bytes : IsBytes payload) (made : Encoder.new p payload size ≡ some s.encoder) where
  shares_but_meta :
      (log arrived : List (Route × OrbitMessage)) (works : Route → List Action)
      (cores : ℕ → RelayCore) (links rxs : ℕ → Link) (pieces : List (List ℕ))
      → Carries p c f s log works
      → Hears p c f s arrived works cores links pieces
      → Framed (written_on p c f s works on_direct) pieces
      → ((j : ℕ) → Listens (cores j) s.session_id (rxs j))
      → All (λ e. Mine p c f s e.1) log
      → Sendable (announcement p c f s)
      → All (λ e. Sendable e.1) log
      → (early : List (Route × OrbitMessage)) × (late : List (Route × OrbitMessage)) × (arrived
          ≡ early ++ (on_relay 0, announcement p c f s) ∷ late)
        × ((route : Route) → share route (early ++ late) ≡ share route log)
  shares_but_meta log arrived works cores links rxs pieces carries hears framed listens mine
        fits_meta fits =
      let first =
        hears.0
        ∙ (read_from-share p c f s log works (cores 0) (links 0) (rxs 0) 0 carries (listens 0) mine
              fits).1
            fits_meta in
      let (early, late, split, on_first, others) =
        share-first (on_relay 0) (announcement p c f s) (share (on_relay 0) log) arrived first in
      (
        early,
        late,
        split,
        λ route. elim (Bool-cases (same_route route (on_relay 0))) [
          | inl here ↦
              let is_first = same_route_eq route (on_relay 0) here in
              subst (λ r. share r (early ++ late) ≡ share r log) (sym is_first) on_first
          | inr other ↦ others route other ∙ elsewhere route other
        ],
      )
    where
      elsewhere :
          (route : Route)
          → same_route route (on_relay 0) ≡ false
          → share route arrived ≡ share route log
      elsewhere (on_relay j) other =
          hears.1 j (later_relay j other)
          ∙ (read_from-share p c f s log works (cores j) (links j) (rxs j) j carries (listens j)
              mine fits).0
      elsewhere on_direct other =
          let written = Carries-written p c f s log works on_direct carries in
          let fit = subst (All CanFrame) (sym written) (share-All Sendable on_direct log fits) in
          hears.2
          ∙ recv_stream-Framed (written_on p c f s works on_direct) pieces fit framed
          ∙ written

  -- The messages that a sender's `run` queues in its first `k + s + h` turns that each find a path alive
  -- and with room, and no READY, each taken by the queue of its path, written by that path's task,
  -- carried by the path's relay, at which the receiver is registered and has not said READY, or by the
  -- direct link, none of whose reads returns bytes of two frames, and read by the receiver, which hears from every path in order but from the paths in
  -- any interleaving, the META of the first relay anywhere among the symbols of the others, make the
  -- `run` of a receiver with the same secret and session return exactly the payload, whatever else
  -- arrives later. No write fails and every queue is drained; the wire format can carry the messages;
  -- there is a path, `k + s + h` is below 2 ^ 32 and the numbers of the META fit in its fields, every
  -- relay takes READY and Close, the cipher opens what it sealed, and the random draws are in range.
  pub run-Returns_paths :
      (ts : List Turn) (r : ReceiverSession p c) (arrived : List (Route × OrbitMessage))
      (rest : List (RecvPath p c)) (takes takes_close : ℕ → Bool) (works : Route → List Action)
      (cores : ℕ → RelayCore) (links rxs : ℕ → Link) (pieces : List (List ℕ))
      → 0 < s.n_paths
      → to_send p in_range c opens f s payload size bytes made < 2 ^ 32
      → length ts ≡ to_send p in_range c opens f s payload size bytes made
      → All (Live s.n_paths) ts
      → Fresh p in_range c opens f s payload size bytes made r
      → Announced p in_range c opens f s payload size bytes made
      → Takes p in_range c opens f s payload size bytes made r takes
      → Takes p in_range c opens f s payload size bytes made r takes_close
      → Carries p c f s (Sender.run p c f s ts (begin p c f s)).0 works
      → Hears p c f s arrived works cores links pieces
      → Framed (written_on p c f s works on_direct) pieces
      → ((j : ℕ) → Listens (cores j) s.session_id (rxs j))
      → Sendable (announcement p c f s)
      → All (λ e. Sendable e.1) (Sender.run p c f s ts (begin p c f s)).0
      → Returns p in_range c opens f s payload size bytes made r
          (run p c r takes takes_close (map (arrives p c) arrived ++ rest))
  run-Returns_paths ts r arrived rest takes takes_close works cores links rxs pieces paths few count
        live fresh fits t t_close carries hears framed listens fits_meta sendable =
      let n = to_send p in_range c opens f s payload size bytes made in
      let log = (Sender.run p c f s ts (begin p c f s)).0 in
      let all_made : Makes p c f s (length ts) = λ i inside.
        message_of-Makes p in_range c opens f s payload size bytes made i (omega arith) in
      let sent : length log ≡ length ts = run-Live p c f s ts paths (omega arith) all_made live in
      let queued =
        run-ids_from p c f s ts (omega arith)
        ∙ ap (λ l. map (message_of p c f s) (ids_from l 0)) (sent ∙ count) in
      let (mine, ids) = queued-Mine p c f s (ids_from n 0) log queued in
      let (early, late, split, same) =
        shares_but_meta log arrived works cores links rxs pieces carries hears framed listens mine
          fits_meta sendable in
      let came = early ++ late in
      let (asked, encodes) = Mine-Arrived p c f s came (shares-Mine p c f s log came same mine) in
      let covers : (i : ℕ) → i < n → contains i (esis_of came) ≡ true = λ i inside.
        shares-esis p c f s log came same i (
          subst (λ l. contains i l ≡ true) (sym ids)
            (contains-ids_from n 0 i (omega arith) (omega arith))) in
      let events =
        ap (λ l. map (arrives p c) l ++ rest) split
        ∙ map_split p in_range c opens f s payload size bytes made early
            ((on_relay 0, announcement p c f s) ∷ late) rest in
      subst
        (λ l.
          Returns p in_range c opens f s payload size bytes made r (run p c r takes takes_close l))
        (sym events)
        (run-Returns_late p in_range c opens f s payload size bytes made r (esis_of came) early late
          rest takes takes_close fresh fits encodes covers asked t t_close)
