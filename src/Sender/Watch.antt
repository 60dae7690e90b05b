-- ===== src/Sender/Watch.antt =====
-- crates/orbit-transport/src/session.rs: the tasks that `SenderSession::connect` starts, one for each
-- relay, which watch for READY and DIRECT and share the flag `direct_up`.
--
-- Their steps are interleaved in any order. A connection to the receiver is made in two steps, the
-- `swap` of the flag and the end of the attempt, since other tasks may run in between. A receiver of
-- events that is gone, which ends a task, is not modelled.
pub mod Links
use orbit_transfer.Prelude.{
  ℕ, zero, suc, ◌+◌, ◌≤◌, ◌<◌, ◌≡◌, refl, sym, ap, subst, ◌∙◌, inl, inr, Bool, true, false, List,
  [], ◌∷◌, ◌++◌, Option, none, some, arith, All, length, length-append, Bool-cases, ◌==◌, ◌||◌,
  if◌then◌else◌,
}
use orbit_transfer.Wire.{OrbitMessage, hello, meta, symbol, done, ready, direct}
use orbit_transfer.Client.{RecvResult, message, closed, refused, broken, panicked}
use orbit_transfer.Sender.{SenderEvent, got_ready, got_direct}

-- The flag, the task whose attempt to connect is under way, the tasks that have ended, and the events
-- that were sent.
pub record Watch : Type 0 where
  pub direct_up : Bool
  pub dialling : Option ℕ
  pub ended : ℕ → Bool
  pub events : List SenderEvent

-- A task's `recv` returned, or the attempt that is under way ended, with a connection or without.
pub data Observed : Type 0 where
  received : ℕ → RecvResult → Observed
  dialled : Bool → Observed

abbrev pub starting : Watch
starting = record { direct_up = false; dialling = none; ended = λ i. false; events = [] }

unfoldable pub end_task : ℕ → Watch → Watch
end_task i w = record w { ended = λ j. i == j || w.ended j }

unfoldable pub on_message : ℕ → OrbitMessage → Watch → Watch
unfolding end_task
on_message i (ready id) w = end_task i (record w { events = w.events ++ got_ready ∷ [] })
on_message i (direct id addr) w =
    if w.direct_up then w else record w { direct_up = true; dialling = some i }
on_message i (hello id role) w = w
on_message i (meta id filename size symbol_size k checksum) w = w
on_message i (symbol id esi payload) w = w
on_message i (done id) w = w

unfoldable pub on_result : ℕ → RecvResult → Watch → Watch
unfolding on_message end_task
on_result i (message m) w = on_message i m w
on_result i closed w = end_task i w
on_result i (refused e) w = end_task i w
on_result i broken w = end_task i w
on_result i panicked w = end_task i w

-- The task awaits its own attempt to connect.
abbrev pub is_dialling : ℕ → Option ℕ → Bool
is_dialling i none = false
is_dialling i (some j) = i == j

-- A task that has ended, or that awaits its attempt, does not receive.
unfoldable pub observe : Watch → Observed → Watch
unfolding on_result
observe w (received i r) = if w.ended i || is_dialling i w.dialling then w else on_result i r w
observe w (dialled up) = elim w.dialling [
  | none ↦ w
  | some i ↦
      if up
      then record w { dialling = none; events = w.events ++ got_direct ∷ [] }
      else record w { dialling = none; direct_up = false }
]

unfoldable pub observe_all : Watch → List Observed → Watch
unfolding observe
observe_all w [] = w
observe_all w (o ∷ os) = observe_all (observe w o) os
