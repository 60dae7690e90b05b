-- ===== src/Sender/Emitted.antt =====
-- What the loop of `SenderSession::run` of crates/orbit-transport/src/session.rs emits.
use orbit_transfer.Prelude.{
  ℕ, suc, ◌+◌, ◌^◌, ◌<◌, ◌≡◌, refl, ap, subst, ◌∙◌, List, [], ◌∷◌, map, some, arith, length,
}
use native.Mathlib.Nat.{mod-eq_of_lt}
use orbit_transfer.Wire.{OrbitMessage}
use orbit_transfer.Platform.{Platform}
use orbit_transfer.Crypto.{Primitives}
use orbit_transfer.Scheduler.{SchedulerFloat}
use orbit_transfer.Transfer.Complete.{ids_from}
use orbit_transfer.Sender.{
  Turn, Route, on_relay, on_direct, SenderSession, Loop, Turned, finished, stopped, panicked,
  emitted, again, message_of, turn, run, begin, stats,
}
use orbit_transfer.Sender.Counters.{
  on_relays, on_directs, SameCounters, Counted, TurnMoved, turn-TurnMoved,
}

one_way : (route : Route) → on_directs route + on_relays route ≡ 1
one_way (on_relay j) = refl
one_way on_direct = refl

module _ (p : Platform) (c : Primitives) (f : SchedulerFloat) where
  abbrev Log : Type 0
  Log = List (Route × OrbitMessage)

  -- How many symbols of the log went a way.
  abbrev pub counted : (Route → ℕ) → Log → ℕ
  counted by [] = 0
  counted by (e ∷ log) = by e.0 + counted by log

  -- The counters when the loop ends.
  abbrev Ended : Loop p c f → Log → Turned p c f → Type 0
  Ended l log (finished l') =
      (l'.sent ≡ l.sent + length log)
      × (l'.via_direct ≡ l.via_direct + counted on_directs log)
      × (l'.via_relay ≡ l.via_relay + counted on_relays log)
  Ended l log _ = Unit {0}

  Room : Loop p c f → ℕ → Type 0
  Room l n =
      (l.esi + n < 2 ^ 32) × (l.sent + n < 2 ^ 64) × (l.via_direct + l.via_relay + n < 2 ^ 64)

  abbrev Logged : SenderSession p c f → Loop p c f → Log × Turned p c f → Type 0
  Logged s l (log, r) =
      (map (λ e. some e.1) log ≡ map (message_of p c f s) (ids_from (length log) l.esi))
      × Ended l log r

  resume :
      (s : SenderSession p c f) (l l' : Loop p c f)
      → SameCounters p c f l l'
      → (x : Log × Turned p c f) → Logged s l' x
      → Logged s l x
  resume s l l' same (log, r) (messages, ended) =
      (messages ∙ ap (λ i. map (message_of p c f s) (ids_from (length log) i)) same.esi, go r ended)
    where
      go : (r : Turned p c f) → Ended l' log r → Ended l log r
      go (finished l2) (a, b, d) = (
        a ∙ ap (λ n. n + length log) same.sent,
        b ∙ ap (λ n. n + counted on_directs log) same.via_direct,
        d ∙ ap (λ n. n + counted on_relays log) same.via_relay,
      )
      go (stopped e) h = tt
      go panicked h = tt
      go (emitted route m l2) h = tt
      go (again l2) h = tt

  extend :
      (s : SenderSession p c f) (l l' : Loop p c f) (route : Route) (m : OrbitMessage) (n : ℕ)
      → Room l (suc n)
      → message_of p c f s l.esi ≡ some m
      → Counted p c f route l l'
      → (x : Log × Turned p c f) → Logged s l' x
      → Logged s l ((route, m) ∷ x.0, x.1)
  unfolding ids_from Room
  extend s l l' route m n (ids, sends, ways) made more (log, r) (messages, ended) = (
    rw made (
        ap (λ t. some m ∷ t)
          (messages ∙ ap (λ i. map (message_of p c f s) (ids_from (length log) i)) next)),
    go r ended,
  )
    where
      next : l'.esi ≡ l.esi + 1
      next = more.esi ∙ mod-eq_of_lt (omega arith)

      go : (r : Turned p c f) → Ended l' log r → Ended l ((route, m) ∷ log) r
      go (finished l2) (a, b, d) =
          let sent = more.sent ∙ mod-eq_of_lt (omega arith) in
          let (directs, relays) = more.direct_and_relay (omega arith) in
          (omega arith, omega arith, omega arith)
      go (stopped e) h = tt
      go panicked h = tt
      go (emitted route' m' l2) h = tt
      go (again l2) h = tt

  run-Logged :
      (s : SenderSession p c f) (ts : List Turn) (l : Loop p c f)
      → Room l (length ts)
      → Logged s l (run p c f s ts l)
  unfolding run ids_from Room
  run-Logged s [] l room = (refl, tt)
  run-Logged s (t ∷ ts) l room =
      go (λ l'. run-Logged s ts l') (turn p c f s t l) (turn-TurnMoved p c f s t l)
    where
      go :
          ((l' : Loop p c f) → Room l' (length ts) → Logged s l' (run p c f s ts l'))
          → (r : Turned p c f) → TurnMoved p c f s l r
          → Logged s l (elim r [
            | finished l' ↦ ([], finished l')
            | stopped e ↦ ([], stopped e)
            | panicked ↦ ([], panicked)
            | again l' ↦ run p c f s ts l'
            | emitted route m l' ↦ let rest = run p c f s ts l' in ((route, m) ∷ rest.0, rest.1)
          ])
      go later (finished l') h =
          (refl, (h.sent ∙ omega arith, h.via_direct ∙ omega arith, h.via_relay ∙ omega arith))
      go later (stopped e) h = (refl, tt)
      go later panicked h = (refl, tt)
      go later (again l') h =
          let esi = h.esi in
          let sent = h.sent in
          let direct = h.via_direct in
          let relay = h.via_relay in
          resume s l l' h (run p c f s ts l') (later l' (omega arith, omega arith, omega arith))
      go later (emitted route m l') (made, more) =
          let (ids, sends, ways) = room in
          let next : l'.esi ≡ l.esi + 1 = more.esi ∙ mod-eq_of_lt (omega arith) in
          let sent : l'.sent ≡ l.sent + 1 = more.sent ∙ mod-eq_of_lt (omega arith) in
          let (directs, relays) = more.direct_and_relay (omega arith) in
          let one = one_way route in
          extend s l l' route m (length ts) room made more (run p c f s ts l')
            (later l' (omega arith, omega arith, omega arith))

  on_finished :
      (s : SenderSession p c f) (l l' : Loop p c f) (x : Log × Turned p c f)
      → Logged s l x
      → x.1 ≡ finished l'
      → Ended l x.0 (finished l')
  on_finished s l l' (log, r) h e = subst (Ended l log) e h.1

  counted_ways : (log : Log) → counted on_directs log + counted on_relays log ≡ length log
  counted_ways [] = refl
  counted_ways (e ∷ log) = let rest = counted_ways log in let one = one_way e.0 in omega arith

  -- In fewer than 2 ^ 32 turns of the loop of `run`, whatever the paths, the queues and the events
  -- are in each, the messages that are queued are the symbols 0, 1, 2 and so on of the encoder,
  -- sealed if there is a cipher: a symbol that found no path is tried again, and none is skipped,
  -- repeated or overtaken.
  pub run-ids_from :
      (s : SenderSession p c f) (ts : List Turn)
      → length ts < 2 ^ 32
      → let log = (run p c f s ts (begin p c f s)).0 in
        map (λ e. some e.1) log ≡ map (message_of p c f s) (ids_from (length log) 0)
  unfolding begin Room
  run-ids_from s ts h = (run-Logged s ts (begin p c f s) (omega arith, omega arith, omega arith)).0

  -- When the loop ends with READY in fewer than 2 ^ 32 turns, the statistics count the symbols that
  -- were queued: all of them, those on the direct link, and those on relays.
  run-stats :
      (s : SenderSession p c f) (ts : List Turn) (l : Loop p c f)
      → length ts < 2 ^ 32
      → (run p c f s ts (begin p c f s)).1 ≡ finished l
      → let log = (run p c f s ts (begin p c f s)).0 in
        let counts = stats p c f s l in
        (counts.symbols ≡ length log)
        × (counts.via_direct ≡ counted on_directs log)
        × (counts.via_relay ≡ counted on_relays log)
        × (counts.symbols ≡ counts.via_direct + counts.via_relay)
  unfolding stats begin Room
  run-stats s ts l h e =
      let log = (run p c f s ts (begin p c f s)).0 in
      let logged = run-Logged s ts (begin p c f s) (omega arith, omega arith, omega arith) in
      let (sent, direct, relay) =
        on_finished s (begin p c f s) l (run p c f s ts (begin p c f s)) logged e in
      let ways = counted_ways log in (omega arith, omega arith, omega arith, omega arith)
