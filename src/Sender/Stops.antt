-- ===== src/Sender/Stops.antt =====
-- When the loop of `SenderSession::run` of crates/orbit-transport/src/session.rs gives up.
use orbit_transfer.Prelude.{
  ℕ, zero, suc, ◌<◌, ◌≡◌, refl, Bool, true, false, not, ◌&&◌, Option, none, some, arith,
  if◌then◌else◌,
}
use orbit_transfer.Wire.{OrbitMessage}
use orbit_transfer.Platform.{Platform}
use orbit_transfer.Crypto.{Primitives}
use orbit_transfer.Scheduler.{SchedulerFloat, MultiPathScheduler, pick}
use orbit_transfer.Session.{dispatch}
use orbit_transfer.Session.Dispatch.{Chosen, dispatch-Chosen}
use orbit_transfer.Sender.{
  Turn, SenderSession, Loop, finished, stopped, panicked, all_unreachable, dispatch_or_wait,
  any_path_alive, take_events, message_of, try_relays, try_direct, send_symbol, turn,
}

any_path_alive-false :
    (n : ℕ) (alive : ℕ → Bool)
    → ((j : ℕ) → j < n → alive j ≡ false)
    → any_path_alive n alive ≡ false
unfolding any_path_alive
any_path_alive-false zero alive h = refl
any_path_alive-false (suc n) alive h =
    rw (h n (omega arith)) (any_path_alive-false n alive (λ j inside. h j (omega arith)))

module _ (p : Platform) (c : Primitives) (f : SchedulerFloat) (s : SenderSession p c f) where
  try_relays-stopped :
      (t : Turn) (m : OrbitMessage) (l : Loop p c f) (i : ℕ)
      → ((j : ℕ) → j < s.n_paths → t.alive j ≡ false)
      → ((j : ℕ) → j < s.n_paths → t.alive_then j ≡ false)
      → i < s.n_paths
      → try_relays p c f s i t m l ≡ stopped all_unreachable
  unfolding try_relays dispatch_or_wait
  try_relays-stopped t m l i dead still_dead inside =
      let gone = any_path_alive-false s.n_paths t.alive_then still_dead in
      let nowhere =
        no_dispatch (dispatch s.n_paths i t.alive t.has_room)
          (dispatch-Chosen i s.n_paths t.alive t.has_room (omega arith) inside) in
      rw (nowhere, gone, try_relays, dispatch_or_wait) refl
    where
      no_dispatch : (choice : Option ℕ) → Chosen s.n_paths t.alive t.has_room choice → choice ≡ none
      no_dispatch none h = refl
      no_dispatch (some j) h = let no = dead j h.0 in absurd cc

  send_symbol-stopped :
      (t : Turn) (m : OrbitMessage) (l : Loop p c f) (i : ℕ)
      → ((j : ℕ) → j < s.n_paths → t.alive j ≡ false)
      → ((j : ℕ) → j < s.n_paths → t.alive_then j ≡ false)
      → (pick f l.esi l.scheduler).0 ≡ some i
      → i < s.n_paths
      → send_symbol p c f s t m l ≡ stopped all_unreachable
  unfolding send_symbol
  send_symbol-stopped t m l i dead still_dead picked inside = go (pick f l.esi l.scheduler) picked
    where
      go :
          (chosen : Option ℕ × MultiPathScheduler f)
          → chosen.0 ≡ some i
          → elim chosen.0 [
            | some j ↦ try_relays p c f s j t m (record l { scheduler = chosen.1 })
            | none ↦ try_direct p c f s t m (record l { scheduler = chosen.1 })
          ]
            ≡ stopped all_unreachable
      go (none, scheduler) e = absurd cc
      go (some j, scheduler) e =
          let same : i ≡ j = cc in
          try_relays-stopped t m (record l { scheduler = scheduler }) j dead still_dead
            (omega arith)

  -- A direct link does not replace the relays: when no relay is alive, a symbol that the scheduler
  -- gives to a relay ends the session with an error if no READY waits, though the loop's guard has
  -- just found the direct link, and whatever room its queue has.
  pub turn-relays_dead :
      (t : Turn) (m : OrbitMessage) (l : Loop p c f) (i : ℕ)
      → take_events t.events false l.has_direct ≡ (false, true)
      → ((j : ℕ) → j < s.n_paths → t.alive j ≡ false)
      → ((j : ℕ) → j < s.n_paths → t.alive_then j ≡ false)
      → message_of p c f s l.esi ≡ some m
      → (pick f l.esi l.scheduler).0 ≡ some i
      → i < s.n_paths
      → turn p c f s t l ≡ stopped all_unreachable
  unfolding turn
  turn-relays_dead t m l i seen dead still_dead made picked inside =
      go (take_events t.events false l.has_direct) (message_of p c f s l.esi) seen made
    where
      go :
          (events : Bool × Bool) (found : Option OrbitMessage)
          → events ≡ (false, true)
          → found ≡ some m
          → (let l' = record l { has_direct = events.1 } in
              if events.0
              then finished l'
              else if not events.1 && not (any_path_alive s.n_paths t.alive_first)
              then stopped all_unreachable
              else elim found [ none ↦ panicked | some m' ↦ send_symbol p c f s t m' l' ])
            ≡ stopped all_unreachable
      go (true, linked) found e made = absurd cc
      go (false, false) found e made = absurd cc
      go (false, true) none e made = absurd cc
      go (false, true) (some m') e made =
          send_symbol-stopped t m' (record l { has_direct = true }) i dead still_dead picked inside
