-- ===== src/Receiver/Streams.antt =====
-- What the paths of a transfer of crates/orbit-transport/src/session.rs carry, each with its own queue
-- and pace, through crates/orbit-relay/src/lib.rs.
use orbit_transfer.Prelude.{
  ℕ, ◌<◌, ◌≡◌, refl, sym, ap, ap₂, subst, ◌∙◌, true, false, List, [], ◌∷◌, ◌++◌, some, map, All,
}
use mathlib.Core.List.{append-nil}
use orbit_transfer.Prelude.Sorted.{contains}
use orbit_transfer.Platform.{Platform}
use orbit_transfer.Wire.{OrbitMessage}
use orbit_transfer.Crypto.{Primitives}
use orbit_transfer.Scheduler.{SchedulerFloat}
use orbit_transfer.Pipeline
use orbit_transfer.Pipeline.{Pipeline, Task, draining, leaving, returned, Action, idle}
use orbit_transfer.Pipeline.Order.{InOrder, run-idle}
use orbit_transfer.Relay.{RelayCore, Link}
use orbit_transfer.Relay.Carry.{carry, Listens, Forwarded}
use orbit_transfer.Client.Recv.{Sendable}
use orbit_transfer.Client.{recv_all}
use orbit_transfer.Transfer.Lossless.{Encodes}
use orbit_transfer.Direct.{recv_stream}
use orbit_transfer.Sender.{Route, on_relay, on_direct, SenderSession, message_of, announcement}
use orbit_transfer.Receiver.Decoding.{message_of-symbol}
use orbit_transfer.Receiver.Shares.{
  share, esi_of, esis_of, share-All, share-All_each, share-contains, contains-share,
}
use orbit_transfer.Receiver.OverRelay.{incoming, recv_all-carry}

-- A pipeline that has not failed and has nothing queued has written all that it took.
drained-written :
    (taken : List OrbitMessage) (q : Pipeline)
    → InOrder taken q
    → q.task ≡ draining
    → q.queue ≡ []
    → q.written ≡ taken
drained-written taken q ordered going empty = go q.task going ordered.1
  where
    go :
        (t : Task)
        → t ≡ draining
        → (elim t as (λ x. Type 0) [
          | draining ↦ (q.is_alive ≡ true) × (taken ≡ q.written ++ q.queue)
          | leaving ↦
              (q.is_alive ≡ false) × ((lost : List OrbitMessage) × (taken ≡ q.written ++ lost))
          | returned ↦
              (q.is_alive ≡ false) × ((lost : List OrbitMessage) × (taken ≡ q.written ++ lost))
        ])
        → q.written ≡ taken
    go draining e (up, same) = sym (same ∙ ap (λ l. q.written ++ l) empty ∙ append-nil q.written)
    go leaving e h = cc
    go returned e h = cc

module _ (p : Platform) (c : Primitives) (f : SchedulerFloat) (s : SenderSession p c f) where
  -- The message of the id that it names.
  abbrev pub Mine : OrbitMessage → Type 0
  Mine m = message_of p c f s (esi_of m) ≡ some m

  message_of-esi_of :
      (esi : ℕ) (m : OrbitMessage) → message_of p c f s esi ≡ some m → (esi_of m ≡ esi) × Mine m
  unfolding esi_of
  message_of-esi_of esi m e =
      let (sy, encoded, is_symbol) = message_of-symbol p c f s esi m e in
      let named : esi_of m ≡ esi = ap esi_of is_symbol in
      (named, subst (λ i. message_of p c f s i ≡ some m) (sym named) e)

  Mine-Forwarded : (m : OrbitMessage) → Mine m → Forwarded s.session_id m
  Mine-Forwarded m mine =
      let (sy, encoded, is_symbol) = message_of-symbol p c f s (esi_of m) m mine in
      subst (Forwarded s.session_id) (sym is_symbol) refl

  All-Forwarded : (ms : List OrbitMessage) → All Mine ms → All (Forwarded s.session_id) ms
  All-Forwarded [] h = tt
  All-Forwarded (m ∷ ms) h = (Mine-Forwarded m h.0, All-Forwarded ms h.1)

  -- What the loop queued are messages of the ids in order.
  pub queued-Mine :
      (esis : List ℕ) (log : List (Route × OrbitMessage))
      → map (λ e. some e.1) log ≡ map (message_of p c f s) esis
      → All (λ e. Mine e.1) log × (esis_of log ≡ esis)
  queued-Mine [] [] same = (tt, refl)
  queued-Mine [] (e ∷ log) same = cc
  queued-Mine (esi ∷ esis) [] same = cc
  queued-Mine (esi ∷ esis) (e ∷ log) same =
      let head : some e.1 ≡ message_of p c f s esi = cc in
      let tail : map (λ e. some e.1) log ≡ map (message_of p c f s) esis = cc in
      let (named, mine) = message_of-esi_of esi e.1 (sym head) in
      let (rest, ids) = queued-Mine esis log tail in ((mine, rest), ap₂ (◌∷◌) named ids)

  pub Mine-Arrived :
      (log : List (Route × OrbitMessage))
      → All (λ e. Mine e.1) log
      → (map (λ e. some e.1) log ≡ map (message_of p c f s) (esis_of log))
        × Encodes p s.encoder (esis_of log)
  Mine-Arrived [] h = (refl, tt)
  Mine-Arrived (e ∷ log) h =
      let (same, encodes) = Mine-Arrived log h.1 in
      let (sy, encoded, is_symbol) = message_of-symbol p c f s (esi_of e.1) e.1 h.0 in
      (ap₂ (◌∷◌) (sym h.0) same, ((sy, encoded), encodes))

  -- When every path hands over what it was given, the same ids arrive.
  pub shares-esis :
      (log arrived : List (Route × OrbitMessage))
      → ((route : Route) → share route arrived ≡ share route log)
      → (i : ℕ) → contains i (esis_of log) ≡ true
      → contains i (esis_of arrived) ≡ true
  shares-esis log arrived same i h =
      let (route, found) = share-contains i log h in
      contains-share i route arrived
        (subst (λ ms. contains i (map esi_of ms) ≡ true) (sym (same route)) found)

  pub shares-Mine :
      (log arrived : List (Route × OrbitMessage))
      → ((route : Route) → share route arrived ≡ share route log)
      → All (λ e. Mine e.1) log
      → All (λ e. Mine e.1) arrived
  shares-Mine log arrived same h =
      share-All_each Mine arrived
        (λ route. subst (All Mine) (sym (same route)) (share-All Mine route log h))

  -- The pipeline of each path takes what the loop queued for it, and its task writes all of it.
  abbrev pub Carries : List (Route × OrbitMessage) → (Route → List Action) → Type 0
  Carries log works =
      (route : Route)
      → ((Pipeline.run (works route) idle).0 ≡ share route log)
        × ((Pipeline.run (works route) idle).1.task ≡ draining)
        × ((Pipeline.run (works route) idle).1.queue ≡ [])

  abbrev pub written_on : (Route → List Action) → Route → List OrbitMessage
  written_on works route = (Pipeline.run (works route) idle).1.written

  -- What a receiver reads from a relay to which these messages are written.
  abbrev pub read_from : RelayCore → Link → List OrbitMessage → List OrbitMessage
  read_from core link ms = recv_all (incoming (carry core link ms).1)

  -- What arrives: from each relay its messages in their order, and on the direct link what its task
  -- reads from the pieces that its stream returns; nothing is said of the order between two paths. The
  -- first relay has the META before its symbols.
  abbrev pub Hears :
      List (Route × OrbitMessage)
      → (Route → List Action)
      → (ℕ → RelayCore)
      → (ℕ → Link)
      → List (List ℕ)
      → Type 0
  Hears arrived works cores links pieces =
      (share (on_relay 0) arrived
        ≡ read_from (cores 0) (links 0) (announcement p c f s ∷ written_on works (on_relay 0)))
      × ((j : ℕ)
          → 0 < j
          → share (on_relay j) arrived
            ≡ read_from (cores j) (links j) (written_on works (on_relay j)))
      × (share on_direct arrived ≡ recv_stream pieces)

  pub Carries-written :
      (log : List (Route × OrbitMessage)) (works : Route → List Action) (route : Route)
      → Carries log works
      → written_on works route ≡ share route log
  Carries-written log works route carries =
      let (took, going, empty) = carries route in
      drained-written _ (Pipeline.run (works route) idle).1 (run-idle (works route)) going empty
      ∙ took

  announcement-Forwarded : Forwarded s.session_id (announcement p c f s)
  unfolding announcement
  announcement-Forwarded = refl

  -- What is read from a relay that the receiver is registered at is what the path was given.
  pub read_from-share :
      (log : List (Route × OrbitMessage)) (works : Route → List Action) (core : RelayCore)
      (link rx : Link) (j : ℕ)
      → Carries log works
      → Listens core s.session_id rx
      → All (λ e. Mine e.1) log
      → All (λ e. Sendable e.1) log
      → (read_from core link (written_on works (on_relay j)) ≡ share (on_relay j) log)
        × (Sendable (announcement p c f s)
            → read_from core link (announcement p c f s ∷ written_on works (on_relay j))
              ≡ announcement p c f s ∷ share (on_relay j) log)
  read_from-share log works core link rx j carries listens mine sendable =
      let written = Carries-written log works (on_relay j) carries in
      let ms = share (on_relay j) log in
      let forwarded = All-Forwarded ms (share-All Mine (on_relay j) log mine) in
      let fits = share-All Sendable (on_relay j) log sendable in
      (
        ap (read_from core link) written
            ∙ recv_all-carry core ms s.session_id link rx listens forwarded fits,
        λ fits_meta.
            ap (λ l. read_from core link (announcement p c f s ∷ l)) written
            ∙ recv_all-carry core (announcement p c f s ∷ ms) s.session_id link rx listens
                (announcement-Forwarded, forwarded) (fits_meta, fits),
      )
