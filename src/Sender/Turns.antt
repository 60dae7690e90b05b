-- ===== src/Sender/Turns.antt =====
-- When the loop of `SenderSession::run` of crates/orbit-transport/src/session.rs makes progress.
use orbit_transfer.Prelude.{
  ℕ, zero, suc, ◌+◌, ◌%◌, ◌^◌, ◌<◌, ◌≡◌, refl, ap, subst, ◌∙◌, inl, inr, Bool, true, false, not,
  ◌&&◌, List, [], ◌∷◌, All, Option, none, some, arith, Bool-cases, if◌then◌else◌, length, ◌==◌,
}
use native.Mathlib.Nat.{mod-eq_of_lt}
use orbit_transfer.Wire.{OrbitMessage}
use orbit_transfer.Platform.{Platform}
use orbit_transfer.Crypto.{Primitives}
use orbit_transfer.Scheduler
use orbit_transfer.Scheduler.{SchedulerFloat, MultiPathScheduler, with_relays, pick}
use orbit_transfer.Direct.{try_send}
use orbit_transfer.Session.{dispatch}
use orbit_transfer.Session.Dispatch.{Chosen, dispatch-Chosen}
use orbit_transfer.Sender.Counters.{TurnMoved, turn-TurnMoved}
use orbit_transfer.Sender.{
  SenderEvent, got_ready, got_direct, Turn, Route, on_relay, on_direct, SenderSession, Loop, Turned,
  finished, stopped, panicked, emitted, all_unreachable, sent_on, dispatch_or_wait, any_path_alive,
  take_events, message_of, advance, try_relays, try_direct, send_symbol, turn, run, begin,
}

-- No READY is among the events.
abbrev pub NoReady : List SenderEvent → Type 0
NoReady [] = Unit {0}
NoReady (got_ready ∷ events) = ⊥
NoReady (got_direct ∷ events) = NoReady events

take_events-NoReady :
    (events : List SenderEvent) (has_direct : Bool)
    → NoReady events
    → (take_events events false has_direct).0 ≡ false
unfolding take_events
take_events-NoReady [] has_direct h = refl
take_events-NoReady (got_ready ∷ events) has_direct h = absurd h
take_events-NoReady (got_direct ∷ events) has_direct h = take_events-NoReady events true h

any_path_alive-true :
    (n j : ℕ) (alive : ℕ → Bool) → j < n → alive j ≡ true → any_path_alive n alive ≡ true
unfolding any_path_alive
any_path_alive-true zero j alive inside e = absurd (omega arith)
any_path_alive-true (suc n) j alive inside e = elim (Bool-cases (j == n)) [
  | inl last ↦ ground arith
  | inr below ↦ let rest = any_path_alive-true n j alive (ground arith) e in ground arith
]

-- A turn without READY that finds one of the paths alive and with room.
abbrev pub Live : ℕ → Turn → Type 0
Live n t =
    NoReady t.events
    × (j : ℕ) × (j < n)
    × (t.alive_first j ≡ true)
    × ((t.alive j && t.has_room j) ≡ true)

dispatch_or_wait-Live :
    (n first : ℕ) (t : Turn)
    → Live n t
    → first < n
    → (j : ℕ) × (dispatch_or_wait n first t ≡ sent_on j)
unfolding dispatch_or_wait
dispatch_or_wait-Live n first t (quiet, i, inside, up, ready) h =
    go (dispatch n first t.alive t.has_room) refl
      (dispatch-Chosen first n t.alive t.has_room (omega arith) h)
  where
    go :
        (choice : Option ℕ)
        → dispatch n first t.alive t.has_room ≡ choice
        → Chosen n t.alive t.has_room choice
        → (j : ℕ) × (dispatch_or_wait n first t ≡ sent_on j)
    go (some j) e c = (j, rw (e, dispatch_or_wait) refl)
    go none e c = let no = c i inside in absurd cc

module _ (p : Platform) (c : Primitives) (f : SchedulerFloat) (s : SenderSession p c f) where
  -- The scheduler's next relay is one of the session's paths.
  abbrev pub Scheduled : MultiPathScheduler f → Type 0
  Scheduled scheduler = (scheduler.n_relays ≡ s.n_paths) × (scheduler.next_relay < s.n_paths)

  -- The message is queued, and the scheduler is left ready.
  abbrev Queued : OrbitMessage → Turned p c f → Type 0
  Queued m r =
      (route : Route) × (l' : Loop p c f) × (r ≡ emitted route m l') × Scheduled l'.scheduler

  try_relays-Queued :
      (first : ℕ) (t : Turn) (m : OrbitMessage) (l : Loop p c f)
      → Live s.n_paths t
      → first < s.n_paths
      → Scheduled l.scheduler
      → Queued m (try_relays p c f s first t m l)
  unfolding try_relays advance
  try_relays-Queued first t m l live inside ready =
      let (j, e) = dispatch_or_wait-Live s.n_paths first t live inside in
      rw (e, try_relays) (on_relay j, _, refl, ready)

  try_direct-Queued :
      (t : Turn) (m : OrbitMessage) (l : Loop p c f)
      → Live s.n_paths t
      → Scheduled l.scheduler
      → Queued m (try_direct p c f s t m l)
  unfolding try_direct advance
  try_direct-Queued t m l live ready = go l.has_direct (try_send t.writer) t.writer_alive_then
    where
      on_writer : Turned p c f
      on_writer =
          emitted on_direct m
            (advance p c f (record l { via_direct = (l.via_direct + 1) % 2 ^ 64 }))

      go :
          (linked took lives : Bool)
          → Queued m (
              if linked
              then (if took
                  then on_writer
                  else if lives
                  then try_relays p c f s 0 t m l
                  else try_relays p c f s 0 t m (record l { has_direct = false }))
              else try_relays p c f s 0 t m l)
      go false took lives = try_relays-Queued 0 t m l live (omega arith) ready
      go true true lives = (on_direct, _, refl, ready)
      go true false true = try_relays-Queued 0 t m l live (omega arith) ready
      go true false false =
          try_relays-Queued 0 t m (record l { has_direct = false }) live (omega arith) ready

  pick-Scheduled :
      (seq : ℕ) (scheduler : MultiPathScheduler f)
      → Scheduled scheduler
      → Scheduled (pick f seq scheduler).1
        × All (λ i. i < s.n_paths) (elim (pick f seq scheduler).0 [ some i ↦ i ∷ [] | none ↦ [] ])
  unfolding pick
  pick-Scheduled seq scheduler (count, next) =
      elim (Bool-cases
        (f.ltb (f.fract (f.mul (f.of_ℕ seq) scheduler.relay_ratio)) scheduler.relay_ratio)) [
          | inl relayed ↦ rw relayed ((count, omega arith), (next, tt))
          | inr stays ↦ rw stays ((count, next), tt)
        ]

  send_symbol-Queued :
      (t : Turn) (m : OrbitMessage) (l : Loop p c f)
      → Live s.n_paths t
      → Scheduled l.scheduler
      → Queued m (send_symbol p c f s t m l)
  unfolding send_symbol
  send_symbol-Queued t m l live ready =
      go (pick f l.esi l.scheduler) (pick-Scheduled l.esi l.scheduler ready)
    where
      go :
          (picked : Option ℕ × MultiPathScheduler f)
          → Scheduled picked.1
            × All (λ i. i < s.n_paths) (elim picked.0 [ some i ↦ i ∷ [] | none ↦ [] ])
          → Queued m (elim picked.0 [
            | some i ↦ try_relays p c f s i t m (record l { scheduler = picked.1 })
            | none ↦ try_direct p c f s t m (record l { scheduler = picked.1 })
          ])
      go (some i, scheduler) (next, inside) =
          try_relays-Queued i t m (record l { scheduler = scheduler }) live inside.0 next
      go (none, scheduler) (next, inside) =
          try_direct-Queued t m (record l { scheduler = scheduler }) live next

  turn-Queued :
      (t : Turn) (m : OrbitMessage) (l : Loop p c f)
      → Live s.n_paths t
      → Scheduled l.scheduler
      → message_of p c f s l.esi ≡ some m
      → Queued m (turn p c f s t l)
  unfolding turn
  turn-Queued t m l live ready made =
      let (quiet, j, inside, up, room) = live in
      go (take_events t.events false l.has_direct) (any_path_alive s.n_paths t.alive_first)
        (message_of p c f s l.esi) (take_events-NoReady t.events l.has_direct quiet)
        (any_path_alive-true s.n_paths j t.alive_first inside up) made
    where
      go :
          (seen : Bool × Bool) (alive : Bool) (found : Option OrbitMessage)
          → seen.0 ≡ false
          → alive ≡ true
          → found ≡ some m
          → Queued m (
              let l' = record l { has_direct = seen.1 } in
              if seen.0
              then finished l'
              else if not seen.1 && not alive
              then stopped all_unreachable
              else elim found [ none ↦ panicked | some m' ↦ send_symbol p c f s t m' l' ])
      go (true, linked) alive found no_ready up made = absurd cc
      go (false, linked) false found no_ready up made = absurd cc
      go (false, linked) true none no_ready up made = absurd cc
      go (false, false) true (some m') no_ready up made =
          let same : m ≡ m' = cc in
          subst (λ n. Queued m (send_symbol p c f s t n (record l { has_direct = false }))) same
            (send_symbol-Queued t m (record l { has_direct = false }) live ready)
      go (false, true) true (some m') no_ready up made =
          let same : m ≡ m' = cc in
          subst (λ n. Queued m (send_symbol p c f s t n (record l { has_direct = true }))) same
            (send_symbol-Queued t m (record l { has_direct = true }) live ready)

  -- The encoder makes the symbols with ids below `n`.
  abbrev pub Makes : ℕ → Type 0
  Makes n = (i : ℕ) → i < n → (m : OrbitMessage) × (message_of p c f s i ≡ some m)

  run-Live-from :
      (ts : List Turn) (l : Loop p c f)
      → Makes (l.esi + length ts)
      → l.esi + length ts < 2 ^ 32
      → Scheduled l.scheduler
      → All (Live s.n_paths) ts
      → length (run p c f s ts l).0 ≡ length ts
  unfolding run
  run-Live-from [] l makes few ready h = refl
  run-Live-from (t ∷ ts) l makes few ready (live, h) =
      let (m, made) = makes l.esi (omega arith) in
      let (route, l', e, next) = turn-Queued t m l live ready made in
      let moved = subst (TurnMoved p c f s l) e (turn-TurnMoved p c f s t l) in
      let esi : l'.esi ≡ l.esi + 1 = moved.1.esi ∙ mod-eq_of_lt (omega arith) in
      let later = run-Live-from ts l' (λ i inside. makes i (omega arith)) (omega arith) next h in
      rw (e, run) (ap suc later)

  -- In fewer than 2 ^ 32 turns that each find a path alive and with room, and no READY, the loop of
  -- `run` of a session with a path emits a symbol in every turn, when the encoder makes these
  -- symbols: it never waits, stops or panics, whatever the direct link does.
  pub run-Live :
      (ts : List Turn)
      → 0 < s.n_paths
      → length ts < 2 ^ 32
      → Makes (length ts)
      → All (Live s.n_paths) ts
      → length (run p c f s ts (begin p c f s)).0 ≡ length ts
  unfolding begin Scheduler.new with_relays
  run-Live ts paths few makes live =
      run-Live-from ts (begin p c f s) (λ i inside. makes i (omega arith)) (omega arith)
        (ground arith, paths) live
