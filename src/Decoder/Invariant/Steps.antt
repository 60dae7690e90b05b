-- ===== src/Decoder/Invariant/Steps.antt =====
-- The steps of the ripple keep the invariant.
use orbit_transfer.Prelude.{
  ℕ, zero, suc, ◌+◌, ◌≤◌, ◌≡◌, refl, sym, ap, subst, ◌∙◌, true, List, [], ◌∷◌, ◌++◌, Option, none,
  some, arith, length, All, All-set, All-get_elem?, All-append, length-append, Bool-cases, inl, inr,
  Option-cases, get_elem?, ◌==◌, ◌>>=◌,
}
use mathlib.Core.List.{append-nil}
use native.Mathlib.Nat.{le_refl}
use orbit_transfer.Prelude.Sorted.{contains, remove, remove-All}
use orbit_transfer.Simd.{xor_bytes}
use orbit_transfer.Simd.Blocks.{
  IsBlock, xor_all-IsBlock, xor_all-one, xor_all-remove, xor_inplace-IsBlock,
}
use orbit_transfer.Decoder.Unresolved.{unresolved, unresolved-insert, lookup-has}
use orbit_transfer.Decoder.Invariant.{EquationHolds, SlotHolds, GraphInv, Queued, Advanced}
use orbit_transfer.Decoder.{
  ActiveEquation, Graph, Resolved, lookup, has, settle, slot_at, process_equation, process_slot,
  process_slots, drop_key, ripple_step, ripple,
}

-- What is resolved stays resolved when one more is.
has-insert :
    (n : ℕ) (b : List ℕ) (m : Resolved) (queue : List ℕ)
    → All (λ i. has i m ≡ true) queue
    → All (λ i. has i ((n, b) ∷ m) ≡ true) queue
unfolding has
has-insert n b m [] h = tt
has-insert n b m (i ∷ queue) h = (ground (arith, h.0), has-insert n b m queue h.1)

pub has_self : (n : ℕ) (b : List ℕ) (m : Resolved) → has n ((n, b) ∷ m) ≡ true
unfolding has
has_self n b m = ground arith

pub lookup-IsTrue :
    (truth : ℕ → List ℕ) (i : ℕ) (m : Resolved) {b : List ℕ}
    → All (λ e. e.1 ≡ truth e.0) m
    → lookup i m ≡ some b
    → b ≡ truth i
unfolding lookup
lookup-IsTrue truth i [] h e = cc
lookup-IsTrue truth i ((j, c) ∷ m) {b} h e = elim (Bool-cases (j == i)) [
  | inl same ↦
      let ji : j ≡ i = ground arith in let bc : c ≡ b = ground arith in sym bc ∙ h.0 ∙ ap truth ji
  | inr other ↦ lookup-IsTrue truth i m h.1 (rw other at e)
]

module _ (size : ℕ) (truth : ℕ → List ℕ) (fits : (i : ℕ) → IsBlock size (truth i)) (l : ℕ) where
  slot_at-holds :
      {g : Graph} (slot : ℕ) {eq : ActiveEquation}
      → GraphInv size truth l g
      → slot_at g slot ≡ some eq
      → EquationHolds size truth l eq
  unfolding slot_at
  slot_at-holds {g} slot {eq} v e = elim (Option-cases (get_elem? g.active_equations slot)) [
    | inl absent ↦ absurd (ground arith)
    | inr (entry, found) ↦
        let same : entry ≡ some eq = ground arith in
        subst (SlotHolds size truth l) same
          (All-get_elem? _ slot g.active_equations v.equations found)
  ]

  settle-Advanced :
      (g : Graph) (slot : ℕ) (block : List ℕ) (ns queue : List ℕ)
      → GraphInv size truth l g
      → EquationHolds size truth l (record { block = block; neighbors = ns })
      → Queued g queue
      → Advanced size truth l g queue
          (settle g slot block ns).0
          (queue ++ (settle g slot block ns).1)
  unfolding settle
  settle-Advanced g slot block [] queue v h q = rw (append-nil queue) (
    record {
      solved = v.solved;
      equations = All-set _ slot none g.active_equations tt v.equations;
      counted = v.counted;
    },
    q,
    refl,
    le_refl _,
  )
  settle-Advanced g slot block (n ∷ []) queue v h q = elim (Bool-cases (has n g.resolved)) [
    | inl old ↦
        rw (old, append-nil queue)
          (
            record {
              solved = v.solved;
              equations =
                  All-set _ slot (some (record { block = block; neighbors = n ∷ [] }))
                    g.active_equations h v.equations;
              counted = v.counted;
            },
            q,
            refl,
            le_refl _,
          )
    | inr new ↦
        let one = unresolved-insert l n block g.resolved h.1.0 new in
        rw new (
          record {
            solved = (h.0 ∙ xor_all-one size truth fits n, v.solved);
            equations = All-set _ slot none g.active_equations tt v.equations;
            counted = omega (arith, v.counted, one);
          },
          All-append _ queue (n ∷ []) (has-insert n block g.resolved queue q)
              (has_self n block g.resolved, tt),
          omega (arith, one, length-append queue (n ∷ [])),
          omega (arith, one),
        )
  ]
  settle-Advanced g slot block (n ∷ m ∷ ns) queue v h q = rw (append-nil queue) (
    record {
      solved = v.solved;
      equations =
          All-set _ slot (some (record { block = block; neighbors = n ∷ m ∷ ns }))
            g.active_equations h v.equations;
      counted = v.counted;
    },
    q,
    refl,
    le_refl _,
  )

  -- What an equation becomes when a resolved input is cancelled out of it.
  cancelled-holds :
      (eq : ActiveEquation) (idx : ℕ)
      → EquationHolds size truth l eq
      → contains idx eq.neighbors ≡ true
      → EquationHolds size truth l
          (record { block = xor_bytes eq.block (truth idx); neighbors = remove idx eq.neighbors })
  cancelled-holds eq idx h e = (
    ap (λ t. xor_bytes t (truth idx)) h.0 ∙ xor_all-remove size truth fits idx eq.neighbors e,
    remove-All _ idx eq.neighbors h.1,
  )

  stay :
      {g : Graph} (queue : List ℕ)
      → GraphInv size truth l g
      → Queued g queue
      → Advanced size truth l g queue g (queue ++ [])
  stay queue v q = rw (append-nil queue) (v, q, refl, le_refl _)

  -- What a step returns, the queue being extended.
  abbrev pub Returns : Graph → List ℕ → Option (Graph × List ℕ) → Type 0
  Returns g queue none = ⊥
  Returns g queue (some (g', pushed)) = Advanced size truth l g queue g' (queue ++ pushed)

  process_equation-Returns :
      (g : Graph) (slot idx : ℕ) (block : List ℕ) (eq : ActiveEquation) (queue : List ℕ)
      → GraphInv size truth l g
      → Queued g queue
      → block ≡ truth idx
      → EquationHolds size truth l eq
      → Returns g queue (process_equation g slot idx block eq)
  unfolding process_equation
  process_equation-Returns g slot idx block eq queue v q e h =
      elim (Bool-cases (contains idx eq.neighbors)) [
        | inl here ↦
            let xor =
              xor_inplace-IsBlock size eq.block (truth idx)
                (subst (IsBlock size) (sym h.0) (xor_all-IsBlock size truth fits eq.neighbors))
                (fits idx) in
            rw (here, e, xor)
              (settle-Advanced g slot (xor_bytes eq.block (truth idx)) (remove idx eq.neighbors)
                queue v (cancelled-holds eq idx h here) q)
        | inr elsewhere ↦ rw elsewhere (stay queue v q)
      ]

  process_slot-Returns :
      (g : Graph) (slot idx : ℕ) (block : List ℕ) (queue : List ℕ)
      → GraphInv size truth l g
      → Queued g queue
      → block ≡ truth idx
      → Returns g queue (process_slot g slot idx block)
  unfolding process_slot
  process_slot-Returns g slot idx block queue v q e = elim (Option-cases (slot_at g slot)) [
    | inl free ↦ rw (free, Returns) (stay queue v q)
    | inr (eq, found) ↦
        rw (found, Returns)
          (process_equation-Returns g slot idx block eq queue v q e (slot_at-holds slot v found))
  ]

  -- What a loop returns: the new graph and the whole queue.
  abbrev pub Ends : Graph → List ℕ → Option (Graph × List ℕ) → Type 0
  Ends g queue none = ⊥
  Ends g queue (some (g', queue')) = Advanced size truth l g queue g' queue'

  Ends-trans :
      (g : Graph) (queue : List ℕ) (g' : Graph) (queue' : List ℕ) (r : Option (Graph × List ℕ))
      → Advanced size truth l g queue g' queue'
      → Ends g' queue' r
      → Ends g queue r
  Ends-trans g queue g' queue' none a e = e
  Ends-trans g queue g' queue' (some (g2, queue2)) a e =
      (e.0, e.1, e.2 ∙ a.2, omega (arith, e.3, a.3))

  process_slots-Ends :
      (g : Graph) (slots : List ℕ) (idx : ℕ) (block : List ℕ) (queue : List ℕ)
      → GraphInv size truth l g
      → Queued g queue
      → block ≡ truth idx
      → Ends g queue (process_slots g slots idx block queue)
  unfolding process_slots
  process_slots-Ends g [] idx block queue v q e = (v, q, refl, le_refl _)
  process_slots-Ends g (slot ∷ slots) idx block queue v q e =
      go (process_slot g slot idx block) (process_slot-Returns g slot idx block queue v q e)
        (λ g' queue' v' q'. process_slots-Ends g' slots idx block queue' v' q' e)
    where
      go :
          (r : Option (Graph × List ℕ))
          → Returns g queue r
          → ((g' : Graph) (queue' : List ℕ)
              → GraphInv size truth l g'
              → Queued g' queue'
              → Ends g' queue' (process_slots g' slots idx block queue'))
          → Ends g queue (r >>= λ (g', pushed). process_slots g' slots idx block (queue ++ pushed))
      go none a rest = a
      go (some (g', pushed)) a rest =
          Ends-trans g queue g' (queue ++ pushed) _ a (rest g' (queue ++ pushed) a.0 a.1)

  -- A round of the ripple for a resolved input returns, and leaves one less to do.
  ripple_step-Ends :
      (g : Graph) (idx : ℕ) (queue : List ℕ)
      → GraphInv size truth l g
      → Queued g (idx ∷ queue)
      → Ends g queue (ripple_step g idx queue)
  unfolding ripple_step
  ripple_step-Ends g idx queue v q =
      let (block, found) = lookup-has idx g.resolved q.0 in
      let dropped = record g { rev = drop_key idx g.rev } in
      let v' : GraphInv size truth l dropped = record {
        solved = v.solved;
        equations = v.equations;
        counted = v.counted;
      } in
      rw found (
        process_slots-Ends dropped (g.rev idx) idx block queue v' q.1
          (lookup-IsTrue truth idx g.resolved v.solved found))

  -- What the whole ripple returns: a graph that keeps the invariant and loses no input.
  abbrev pub Settled : Graph → Option Graph → Type 0
  Settled g none = ⊥
  Settled g (some g') =
      GraphInv size truth l g' × (unresolved l g'.resolved ≤ unresolved l g.resolved)

  pub Settled-weaken :
      (g g' : Graph) (r : Option Graph)
      → unresolved l g'.resolved ≤ unresolved l g.resolved
      → Settled g' r
      → Settled g r
  Settled-weaken g g' none h s = s
  Settled-weaken g g' (some g2) h s = (s.0, omega (arith, s.1))

  -- On a graph that tells the truth and a queue of resolved inputs, the ripple ends without a panic
  -- when its fuel is at least the length of the queue and the number of open inputs: the graph still
  -- tells the truth and no more inputs are open than before.
  pub ripple-Settled :
      (fuel : ℕ) (g : Graph) (queue : List ℕ)
      → GraphInv size truth l g
      → Queued g queue
      → length queue + unresolved l g.resolved ≤ fuel
      → Settled g (ripple fuel g queue)
  unfolding ripple
  ripple-Settled zero g [] v q fits = (v, le_refl _)
  ripple-Settled (suc fuel) g [] v q fits = (v, le_refl _)
  ripple-Settled zero g (idx ∷ queue) v q fits = absurd (omega arith)
  ripple-Settled (suc fuel) g (idx ∷ queue) v q fits =
      go (ripple_step g idx queue) (ripple_step-Ends g idx queue v q)
        (λ g' queue'. ripple-Settled fuel g' queue')
    where
      go :
          (r : Option (Graph × List ℕ))
          → Ends g queue r
          → ((g' : Graph) (queue' : List ℕ)
              → GraphInv size truth l g'
              → Queued g' queue'
              → length queue' + unresolved l g'.resolved ≤ fuel
              → Settled g' (ripple fuel g' queue'))
          → Settled g (r >>= λ (g', queue'). ripple fuel g' queue')
      go none a rest = a
      go (some (g', queue')) a rest =
          Settled-weaken g g' (ripple fuel g' queue') a.3
            (rest g' queue' a.0 a.1 (omega (arith, a.2, fits)))
