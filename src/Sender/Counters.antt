-- ===== src/Sender/Counters.antt =====
-- What one turn of the loop of `SenderSession::run` does to its counters, of crates/orbit-transport/src/session.rs emits.
use orbit_transfer.Prelude.{
  ℕ, ◌+◌, ◌%◌, ◌^◌, ◌<◌, ◌≡◌, refl, sym, ap, ◌∙◌, Bool, true, false, not, ◌&&◌, Option, none, some,
  arith, if◌then◌else◌,
}
use native.Mathlib.Nat.{mod-eq_of_lt}
use orbit_transfer.Wire.{OrbitMessage}
use orbit_transfer.Platform.{Platform}
use orbit_transfer.Crypto.{Primitives}
use orbit_transfer.Scheduler.{SchedulerFloat, MultiPathScheduler, pick}
use orbit_transfer.Direct.{try_send}
use orbit_transfer.Sender.{
  Turn, Route, on_relay, on_direct, SenderSession, Loop, Turned, finished, stopped, panicked,
  emitted, again, all_unreachable, Attempt, sent_on, waited, failed, dispatch_or_wait,
  any_path_alive, take_events, message_of, advance, try_relays, try_direct, send_symbol, turn,
}

abbrev pub on_relays : Route → ℕ
on_relays (on_relay j) = 1
on_relays on_direct = 0

abbrev pub on_directs : Route → ℕ
on_directs (on_relay j) = 0
on_directs on_direct = 1

module _ (p : Platform) (c : Primitives) (f : SchedulerFloat) where
  -- Two states of the loop with the same counters.
  pub record SameCounters (l l' : Loop p c f) : Type 0 where
    pub esi : l'.esi ≡ l.esi
    pub sent : l'.sent ≡ l.sent
    pub via_direct : l'.via_direct ≡ l.via_direct
    pub via_relay : l'.via_relay ≡ l.via_relay

  -- One symbol more, on this route.
  pub record Counted (route : Route) (l l' : Loop p c f) : Type 0 where
    pub esi : l'.esi ≡ (l.esi + 1) % 2 ^ 32
    pub sent : l'.sent ≡ (l.sent + 1) % 2 ^ 64
    pub direct_and_relay :
        l.via_direct + l.via_relay + 1 < 2 ^ 64
        → (l'.via_direct ≡ l.via_direct + on_directs route)
          × (l'.via_relay ≡ l.via_relay + on_relays route)

  -- What a turn does to the counters, and the message that it emits.
  abbrev Moved : OrbitMessage → Loop p c f → Turned p c f → Type 0
  Moved m l (finished l') = SameCounters l l'
  Moved m l (stopped e) = Unit {0}
  Moved m l panicked = Unit {0}
  Moved m l (emitted route m' l') = (m' ≡ m) × Counted route l l'
  Moved m l (again l') = SameCounters l l'

  try_relays-Moved :
      (s : SenderSession p c f) (first : ℕ) (t : Turn) (m : OrbitMessage) (l l' : Loop p c f)
      → SameCounters l l'
      → Moved m l (try_relays p c f s first t m l')
  unfolding try_relays advance
  try_relays-Moved s first t m l l' h = go (dispatch_or_wait s.n_paths first t)
    where
      go :
          (a : Attempt)
          → Moved m l (elim a [
            | sent_on j ↦
                emitted
                  (on_relay j)
                  m
                  (advance p c f (record l' { via_relay = (l'.via_relay + 1) % 2 ^ 64 }))
            | waited ↦ again l'
            | failed e ↦ stopped e
          ])
      go (sent_on j) = (
        refl,
        record {
          esi = ap (λ i. (i + 1) % 2 ^ 32) h.esi;
          sent = ap (λ i. (i + 1) % 2 ^ 64) h.sent;
          direct_and_relay = λ room. (
            h.via_direct ∙ omega arith,
            ap (λ i. (i + 1) % 2 ^ 64) h.via_relay ∙ mod-eq_of_lt (omega arith),
          );
        },
      )
      go waited = h
      go (failed e) = tt

  try_direct-Moved :
      (s : SenderSession p c f) (t : Turn) (m : OrbitMessage) (l l' : Loop p c f)
      → SameCounters l l'
      → Moved m l (try_direct p c f s t m l')
  unfolding try_direct advance
  try_direct-Moved s t m l l' h = go l'.has_direct (try_send t.writer) t.writer_alive_then
    where
      on_writer : Turned p c f
      on_writer =
          emitted on_direct m
            (advance p c f (record l' { via_direct = (l'.via_direct + 1) % 2 ^ 64 }))

      go :
          (linked took lives : Bool)
          → Moved m l (
              if linked
              then (if took
                  then on_writer
                  else if lives
                  then try_relays p c f s 0 t m l'
                  else try_relays p c f s 0 t m (record l' { has_direct = false }))
              else try_relays p c f s 0 t m l')
      go false took lives = try_relays-Moved s 0 t m l l' h
      go true true lives = (
        refl,
        record {
          esi = ap (λ i. (i + 1) % 2 ^ 32) h.esi;
          sent = ap (λ i. (i + 1) % 2 ^ 64) h.sent;
          direct_and_relay = λ room. (
            ap (λ i. (i + 1) % 2 ^ 64) h.via_direct ∙ mod-eq_of_lt (omega arith),
            h.via_relay ∙ omega arith,
          );
        },
      )
      go true false true = try_relays-Moved s 0 t m l l' h
      go true false false =
          try_relays-Moved s 0 t m l (record l' { has_direct = false })
            (record {
              esi = h.esi;
              sent = h.sent;
              via_direct = h.via_direct;
              via_relay = h.via_relay;
            })

  send_symbol-Moved :
      (s : SenderSession p c f) (t : Turn) (m : OrbitMessage) (l l' : Loop p c f)
      → SameCounters l l'
      → Moved m l (send_symbol p c f s t m l')
  unfolding send_symbol
  send_symbol-Moved s t m l l' h = go (pick f l'.esi l'.scheduler)
    where
      go :
          (picked : Option ℕ × MultiPathScheduler f)
          → Moved m l (elim picked.0 [
            | some i ↦ try_relays p c f s i t m (record l' { scheduler = picked.1 })
            | none ↦ try_direct p c f s t m (record l' { scheduler = picked.1 })
          ])
      go (some i, scheduler) =
          try_relays-Moved s i t m l (record l' { scheduler = scheduler })
            (record {
              esi = h.esi;
              sent = h.sent;
              via_direct = h.via_direct;
              via_relay = h.via_relay;
            })
      go (none, scheduler) =
          try_direct-Moved s t m l (record l' { scheduler = scheduler })
            (record {
              esi = h.esi;
              sent = h.sent;
              via_direct = h.via_direct;
              via_relay = h.via_relay;
            })

  -- The same, with the message that the loop's state asks for.
  abbrev pub TurnMoved : SenderSession p c f → Loop p c f → Turned p c f → Type 0
  TurnMoved s l (finished l') = SameCounters l l'
  TurnMoved s l (stopped e) = Unit {0}
  TurnMoved s l panicked = Unit {0}
  TurnMoved s l (emitted route m l') = (message_of p c f s l.esi ≡ some m) × Counted route l l'
  TurnMoved s l (again l') = SameCounters l l'

  asked :
      (s : SenderSession p c f) (l : Loop p c f) (m : OrbitMessage) (r : Turned p c f)
      → message_of p c f s l.esi ≡ some m
      → Moved m l r
      → TurnMoved s l r
  asked s l m (finished l') e h = h
  asked s l m (stopped x) e h = tt
  asked s l m panicked e h = tt
  asked s l m (emitted route m' l') e h = (e ∙ ap some (sym h.0), h.1)
  asked s l m (again l') e h = h

  pub turn-TurnMoved :
      (s : SenderSession p c f) (t : Turn) (l : Loop p c f) → TurnMoved s l (turn p c f s t l)
  unfolding turn
  turn-TurnMoved s t l =
      go (take_events t.events false l.has_direct) (any_path_alive s.n_paths t.alive_first)
        (message_of p c f s l.esi) refl
    where
      go :
          (seen : Bool × Bool) (alive : Bool) (made : Option OrbitMessage)
          → message_of p c f s l.esi ≡ made
          → TurnMoved s l (
              let l' = record l { has_direct = seen.1 } in
              if seen.0
              then finished l'
              else if not seen.1 && not alive
              then stopped all_unreachable
              else elim made [ none ↦ panicked | some m ↦ send_symbol p c f s t m l' ])
      go (true, linked) alive made e = record {
        esi = refl;
        sent = refl;
        via_direct = refl;
        via_relay = refl;
      }
      go (false, false) false made e = tt
      go (false, false) true none e = tt
      go (false, true) alive none e = tt
      go (false, false) true (some m) e =
          asked s l m (send_symbol p c f s t m (record l { has_direct = false })) e (
            send_symbol-Moved s t m l (record l { has_direct = false })
              (record { esi = refl; sent = refl; via_direct = refl; via_relay = refl }))
      go (false, true) alive (some m) e =
          asked s l m (send_symbol p c f s t m (record l { has_direct = true })) e (
            send_symbol-Moved s t m l (record l { has_direct = true })
              (record { esi = refl; sent = refl; via_direct = refl; via_relay = refl }))
