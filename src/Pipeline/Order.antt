-- ===== src/Pipeline/Order.antt =====
-- What a pipeline promises: a bounded queue, in order, that loses messages only when a write fails.
use orbit_transfer.Prelude.{
  ◌≤◌, ◌≡◌, refl, sym, ap, subst, ◌∙◌, inl, inr, Bool, true, false, List, [], ◌∷◌, ◌++◌, arith,
  length, length-append, Bool-cases, if◌then◌else◌,
}
use mathlib.Core.List.{append_assoc, append-nil}
use orbit_transfer.Wire.{OrbitMessage}
use orbit_transfer.Pipeline.{
  queue_depth, Task, draining, leaving, returned, Pipeline, idle, is_open, has_room, push, drain,
  leave, Action, pushes, drains, leaves, run,
}

-- The messages taken so far against what was written and what is queued.
abbrev pub InOrder : List OrbitMessage → Pipeline → Type 0
InOrder taken q = (length q.queue ≤ queue_depth) × (elim q.task as (λ t. Type 0) [
  | draining ↦ (q.is_alive ≡ true) × (taken ≡ q.written ++ q.queue)
  | leaving ↦ (q.is_alive ≡ false) × ((lost : List OrbitMessage) × (taken ≡ q.written ++ lost))
  | returned ↦ (q.is_alive ≡ false) × ((lost : List OrbitMessage) × (taken ≡ q.written ++ lost))
])

module _ (taken : List OrbitMessage) where
  push-InOrder :
      (m : OrbitMessage) (queue written : List OrbitMessage) (alive : Bool) (task : Task)
      → let q : Pipeline = record {
        queue = queue;
        written = written;
        is_alive = alive;
        task = task;
      } in
        has_room q ≡ true
        → InOrder taken q
        → InOrder (taken ++ m ∷ []) (record q { queue = queue ++ m ∷ [] })
  unfolding has_room is_open
  push-InOrder m queue written alive draining room (short, (up, same)) = (
    ground (arith, length-append queue (m ∷ [])),
    (up, ap (λ t. t ++ m ∷ []) same ∙ append_assoc written queue (m ∷ [])),
  )
  push-InOrder m queue written alive leaving room (short, (down, (lost, same))) = (
    ground (arith, length-append queue (m ∷ [])),
    (down, (lost ++ m ∷ [], ap (λ t. t ++ m ∷ []) same ∙ append_assoc written lost (m ∷ []))),
  )
  push-InOrder m queue written alive returned room ordered = cc

  drain-InOrder :
      (sent : Bool) (queue written : List OrbitMessage) (alive : Bool) (task : Task)
      → let q : Pipeline = record {
        queue = queue;
        written = written;
        is_alive = alive;
        task = task;
      } in
        InOrder taken q → InOrder taken (drain sent q)
  unfolding drain
  drain-InOrder sent [] written alive draining ordered = ordered
  drain-InOrder true (m ∷ queue) written alive draining (short, (up, same)) =
      (omega arith, (up, same ∙ sym (append_assoc written (m ∷ []) queue)))
  drain-InOrder false (m ∷ queue) written alive draining (short, (up, same)) =
      (omega arith, (refl, (m ∷ queue, same)))
  drain-InOrder sent queue written alive leaving ordered = ordered
  drain-InOrder sent queue written alive returned ordered = ordered

  leave-InOrder :
      (queue written : List OrbitMessage) (alive : Bool) (task : Task)
      → let q : Pipeline = record {
        queue = queue;
        written = written;
        is_alive = alive;
        task = task;
      } in
        InOrder taken q → InOrder taken (leave q)
  unfolding leave
  leave-InOrder queue written alive draining ordered = ordered
  leave-InOrder queue written alive leaving (short, (down, (lost, same))) =
      (omega arith, (down, (lost, same)))
  leave-InOrder queue written alive returned ordered = ordered

push_result-InOrder :
    (taken : List OrbitMessage) (m : OrbitMessage) (q : Pipeline)
    → InOrder taken q
    → InOrder (if (push m q).0 then taken ++ m ∷ [] else taken) (push m q).1
unfolding push
push_result-InOrder taken m q ordered = elim (Bool-cases (has_room q)) [
  | inl room ↦
      let took : push m q ≡ (true, record q { queue = q.queue ++ m ∷ [] }) = rw room refl in
      subst after (sym took) (push-InOrder taken m q.queue q.written q.is_alive q.task room ordered)
  | inr full ↦ let left : push m q ≡ (false, q) = rw full refl in subst after (sym left) ordered
]
  where
    after : Bool × Pipeline → Type 0
    after r = InOrder (if r.0 then taken ++ m ∷ [] else taken) r.1

run-InOrder :
    (actions : List Action) (taken : List OrbitMessage) (q : Pipeline)
    → InOrder taken q
    → InOrder (taken ++ (run actions q).0) (run actions q).1
unfolding run
run-InOrder [] taken q ordered = subst (λ t. InOrder t q) (sym (append-nil taken)) ordered
run-InOrder (pushes m ∷ actions) taken q ordered =
    go (push m q) (push_result-InOrder taken m q ordered)
      (λ taken' q'. run-InOrder actions taken' q')
  where
    go :
        (r : Bool × Pipeline)
        → InOrder (if r.0 then taken ++ m ∷ [] else taken) r.1
        → ((taken' : List OrbitMessage) (q' : Pipeline)
            → InOrder taken' q'
            → InOrder (taken' ++ (run actions q').0) (run actions q').1)
        → InOrder
            (taken ++ (if r.0 then m ∷ (run actions r.1).0 else (run actions r.1).0))
            (run actions r.1).1
    go (true, q') next rest =
        subst (λ t. InOrder t (run actions q').1) (append_assoc taken (m ∷ []) (run actions q').0)
          (rest (taken ++ m ∷ []) q' next)
    go (false, q') next rest = rest taken q' next
run-InOrder (drains sent ∷ actions) taken q ordered =
    run-InOrder actions taken (drain sent q)
      (drain-InOrder taken sent q.queue q.written q.is_alive q.task ordered)
run-InOrder (leaves ∷ actions) taken q ordered =
    run-InOrder actions taken (leave q)
      (leave-InOrder taken q.queue q.written q.is_alive q.task ordered)

-- A pipeline that starts idle, whatever is pushed to it, written or refused by its link, in whatever
-- order: its queue never holds more than 1024 messages; while no write has failed, it is alive, and what
-- was written and what is queued together are exactly the messages that it took, in order; once one
-- has failed it is not alive, and what was written is the beginning of what it took.
pub run-idle : (actions : List Action) → InOrder (run actions idle).0 (run actions idle).1
run-idle actions = run-InOrder actions [] idle (omega arith, (refl, refl))
