-- ===== src/Decoder/Peeling/Ripple.antt =====
-- The ripple keeps to what can be peeled, round by round, and leaves nothing that peels.
use orbit_transfer.Prelude.{
  ℕ, zero, suc, ◌≡◌, ◌⊎◌, inl, inr, true, false, List, [], ◌∷◌, ◌++◌, ◌||◌, Option, none, some,
  arith, ◌==◌, if◌then◌else◌, Bool-cases, subst, sym, ◌>>=◌, Option-cases,
}
use orbit_transfer.Prelude.Sorted.{contains, remove}
use orbit_transfer.Prelude.Members.{
  contains-append, contains-remove_inside, contains-remove_cases, contains-remove_self,
  remove-Distinct,
}
use orbit_transfer.Simd.{xor_inplace}
use orbit_transfer.Decoder.{
  ActiveEquation, Graph, has, lookup, slot_at, settle, process_equation, process_slot,
  process_slots, drop_key, ripple_step, ripple,
}
use orbit_transfer.Decoder.Progress.{settle-Extends, lookup-some-has}
use orbit_transfer.Decoder.Peeling.{Sound, Held, Stable}
use orbit_transfer.Decoder.Peeling.Settle.{live_at, Rest, Kept-move, settle-Held, settle-rev}
use orbit_transfer.Decoder.Peeling.Origin.{settle-Sound}

remove-Rest : (idx : ℕ) (ns : List ℕ) → Rest idx ns (remove idx ns)
remove-Rest idx ns = record {
  fewer = λ j h. contains-remove_inside idx j ns h;
  splits = λ j h. contains-remove_cases idx j ns h;
  apart = λ d. (contains-remove_self idx ns d, remove-Distinct idx ns d);
}

module _ (equations : List ℕ → Type 0) where
  -- While the slots of `idx` are processed: what a graph and a queue keep.
  abbrev Midway : ℕ → List ℕ → List ℕ → Graph → Type 0
  Midway idx slots queue g =
      Stable equations (live_at idx slots g.rev) (idx ∷ queue) g
      × Sound equations g
      × (has idx g.resolved ≡ true)

  abbrev Stepped : ℕ → List ℕ → List ℕ → Option (Graph × List ℕ) → Type 0
  Stepped idx slots queue none = Unit {0}
  Stepped idx slots queue (some (g', pushed)) = Midway idx slots (queue ++ pushed) g'

  settle-Midway :
      (g : Graph) (slot idx : ℕ) (slots queue block : List ℕ) (eq : ActiveEquation)
      → slot_at g slot ≡ some eq
      → Midway idx (slot ∷ slots) queue g
      → Midway idx slots
          (queue ++ (settle g slot block (remove idx eq.neighbors)).1)
          (settle g slot block (remove idx eq.neighbors)).0
  settle-Midway g slot idx slots queue block eq found (stable, sound, known) =
      let left = remove idx eq.neighbors in
      let rest = remove-Rest idx eq.neighbors in
      (
        λ ns e.
            subst
              (λ rev.
                Held (live_at idx slots rev) (idx ∷ (queue ++ (settle g slot block left).1))
                  (settle g slot block left).0 ns)
              (sym (settle-rev g slot block left))
              (settle-Held idx slot slots queue g eq known found ns block left rest (stable ns e)),
        settle-Sound equations idx slot g eq known found sound block left rest,
        settle-Extends g slot block left idx known,
      )

  live_at-skip :
      (g : Graph) (slot idx : ℕ) (slots : List ℕ) (eq : ActiveEquation) (slot' j : ℕ)
      → ((slot' == slot) ≡ false) ⊎ (contains idx eq.neighbors ≡ false)
      → contains j eq.neighbors ≡ true
      → contains slot' (live_at idx (slot ∷ slots) g.rev j) ≡ true
      → contains slot' (live_at idx slots g.rev j) ≡ true
  unfolding live_at contains
  live_at-skip g slot idx slots eq slot' j (inl other) h live = ground arith
  live_at-skip g slot idx slots eq slot' j (inr free) h live = elim (Bool-cases (idx == j)) [
    | inl same ↦
        let here : idx ≡ j = ground arith in
        let member : contains idx eq.neighbors ≡ true = rw here h in absurd (ground arith)
    | inr other ↦ ground arith
  ]

  -- A slot that does not hold `idx` is left alone.
  skip-Midway :
      (g : Graph) (slot idx : ℕ) (slots queue : List ℕ)
      → ((eq : ActiveEquation) → slot_at g slot ≡ some eq → contains idx eq.neighbors ≡ false)
      → Midway idx (slot ∷ slots) queue g
      → Midway idx slots (queue ++ []) g
  unfolding contains
  skip-Midway g slot idx slots queue free (stable, sound, known) = (
    λ ns e. elim (stable ns e) [
      | inl all ↦ inl all
      | inr (slot', eq, kept) ↦ inr (
        slot',
        eq,
        Kept-move (live_at idx (slot ∷ slots) g.rev) (live_at idx slots g.rev) (idx ∷ queue)
            (idx ∷ (queue ++ [])) g g ns slot' eq kept kept.found (λ j h. h) (λ j h. inl h)
            (λ j h live. (
              live_at-skip g slot idx slots eq slot' j (apart slot' eq kept.found) h live,
              λ waits. ground (arith, contains-append j queue []),
            )),
      )
    ],
    sound,
    known,
  )
    where
      apart :
          (slot' : ℕ) (eq : ActiveEquation)
          → slot_at g slot' ≡ some eq
          → ((slot' == slot) ≡ false) ⊎ (contains idx eq.neighbors ≡ false)
      apart slot' eq found = elim (Bool-cases (slot' == slot)) [
        | inl same ↦
            let here : slot' ≡ slot = ground arith in
            inr (free eq (subst (λ s. slot_at g s ≡ some eq) here found))
        | inr other ↦ inl other
      ]

  process_slot-Stepped :
      (g : Graph) (slot idx : ℕ) (slots queue block : List ℕ)
      → Midway idx (slot ∷ slots) queue g
      → Stepped idx slots queue (process_slot g slot idx block)
  unfolding process_slot process_equation
  process_slot-Stepped g slot idx slots queue block midway = elim (Option-cases (slot_at g slot)) [
    | inl free ↦ rw (free, Stepped) (skip-Midway g slot idx slots queue (λ eq h. cc) midway)
    | inr (eq, found) ↦ rw (found, Stepped) (on_equation eq found)
  ]
    where
      on_xor :
          (eq : ActiveEquation)
          → slot_at g slot ≡ some eq
          → (r : Option (List ℕ))
          → Stepped idx slots queue
              (r >>= λ combined. some (settle g slot combined (remove idx eq.neighbors)))
      on_xor eq found none = tt
      on_xor eq found (some combined) =
          settle-Midway g slot idx slots queue combined eq found midway

      on_equation :
          (eq : ActiveEquation)
          → slot_at g slot ≡ some eq
          → Stepped idx slots queue (
              if contains idx eq.neighbors
              then (xor_inplace eq.block block >>= λ combined.
                  some (settle g slot combined (remove idx eq.neighbors)))
              else some (g, []))
      on_equation eq found = elim (Bool-cases (contains idx eq.neighbors)) [
        | inl member ↦ rw member (on_xor eq found (xor_inplace eq.block block))
        | inr absent ↦ rw absent (
            skip-Midway g slot idx slots queue (λ eq' h. let one : eq' ≡ eq = cc in rw one absent)
              midway)
      ]

  -- All slots of `idx` are processed.
  abbrev Swept : ℕ → Option (Graph × List ℕ) → Type 0
  Swept idx none = Unit {0}
  Swept idx (some (g', queue')) = Midway idx [] queue' g'

  process_slots-Swept :
      (g : Graph) (slots : List ℕ) (idx : ℕ) (block queue : List ℕ)
      → Midway idx slots queue g
      → Swept idx (process_slots g slots idx block queue)
  unfolding process_slots
  process_slots-Swept g [] idx block queue midway = midway
  process_slots-Swept g (slot ∷ slots) idx block queue midway =
      go (process_slot g slot idx block) (process_slot-Stepped g slot idx slots queue block midway)
        (λ g' queue'. process_slots-Swept g' slots idx block queue')
    where
      go :
          (r : Option (Graph × List ℕ))
          → Stepped idx slots queue r
          → ((g' : Graph) (queue' : List ℕ)
              → Midway idx slots queue' g'
              → Swept idx (process_slots g' slots idx block queue'))
          → Swept idx (r >>= λ (g', pushed). process_slots g' slots idx block (queue ++ pushed))
      go none s rest = tt
      go (some (g', pushed)) s rest = rest g' (queue ++ pushed) s

  -- Between two rounds.
  abbrev pub Settled : List ℕ → Graph → Type 0
  Settled queue g = Stable equations g.rev queue g × Sound equations g

  abbrev Rippled : Option (Graph × List ℕ) → Type 0
  Rippled none = Unit {0}
  Rippled (some (g', queue')) = Settled queue' g'

  start-Midway :
      (g : Graph) (idx : ℕ) (queue : List ℕ)
      → has idx g.resolved ≡ true
      → Settled (idx ∷ queue) g
      → Midway idx (g.rev idx) queue (record g { rev = drop_key idx g.rev })
  unfolding live_at drop_key slot_at
  start-Midway g idx queue known (stable, sound) = (
    λ ns e. elim (stable ns e) [
      | inl all ↦ inl all
      | inr (slot, eq, kept) ↦ inr (
        slot,
        eq,
        Kept-move g.rev _ (idx ∷ queue) (idx ∷ queue) g _ ns slot eq kept kept.found (λ j h. h)
            (λ j h. inl h) (λ j h live. (start slot j live, λ waits. waits)),
      )
    ],
    record { resolved = sound.resolved; slots = sound.slots },
    known,
  )
    where
      start :
          (slot j : ℕ)
          → contains slot (g.rev j) ≡ true
          → contains slot (if idx == j then g.rev idx else if idx == j then [] else g.rev j) ≡ true
      start slot j live = elim (Bool-cases (idx == j)) [
        | inl same ↦ let here : idx ≡ j = ground arith in rw (same, here) live
        | inr other ↦ rw other live
      ]

  finish-Settled : (g : Graph) (idx : ℕ) (queue : List ℕ) → Midway idx [] queue g → Settled queue g
  unfolding live_at contains
  finish-Settled g idx queue (stable, sound, known) = (
    λ ns e. elim (stable ns e) [
      | inl all ↦ inl all
      | inr (slot, eq, kept) ↦ inr (
        slot,
        eq,
        Kept-move (live_at idx [] g.rev) g.rev (idx ∷ queue) queue g g ns slot eq kept kept.found
            (λ j h. h) (λ j h. inl h) (λ j h live. last slot j live),
      )
    ],
    sound,
  )
    where
      last :
          (slot j : ℕ)
          → contains slot (if idx == j then [] else g.rev j) ≡ true
          → (contains slot (g.rev j) ≡ true)
            × ((idx == j) || contains j queue ≡ true → contains j queue ≡ true)
      last slot j live = elim (Bool-cases (idx == j)) [
        | inl same ↦ absurd (ground arith)
        | inr other ↦ rw other (ground arith, λ waits. waits)
      ]

  ripple_step-Rippled :
      (g : Graph) (idx : ℕ) (queue : List ℕ)
      → Settled (idx ∷ queue) g
      → Rippled (ripple_step g idx queue)
  unfolding ripple_step
  ripple_step-Rippled g idx queue settled = elim (Option-cases (lookup idx g.resolved)) [
    | inl absent ↦ rw (absent, Rippled) tt
    | inr (block, found) ↦
        let known = lookup-some-has idx g.resolved block found in
        rw (found, Rippled)
          (go _ (
            process_slots-Swept (record g { rev = drop_key idx g.rev }) (g.rev idx) idx block queue
              (start-Midway g idx queue known settled)))
  ]
    where
      go : (r : Option (Graph × List ℕ)) → Swept idx r → Rippled r
      go none s = tt
      go (some (g', queue')) s = finish-Settled g' idx queue' s

  -- When the ripple ends.
  abbrev pub Ended : Option Graph → Type 0
  Ended none = Unit {0}
  Ended (some g) = Settled [] g

  pub ripple-Ended :
      (fuel : ℕ) (g : Graph) (queue : List ℕ) → Settled queue g → Ended (ripple fuel g queue)
  unfolding ripple
  ripple-Ended zero g [] settled = settled
  ripple-Ended (suc fuel) g [] settled = settled
  ripple-Ended zero g (idx ∷ queue) settled = tt
  ripple-Ended (suc fuel) g (idx ∷ queue) settled =
      go (ripple_step g idx queue) (ripple_step-Rippled g idx queue settled)
        (λ g' queue'. ripple-Ended fuel g' queue')
    where
      go :
          (r : Option (Graph × List ℕ))
          → Rippled r
          → ((g' : Graph) (queue' : List ℕ) → Settled queue' g' → Ended (ripple fuel g' queue'))
          → Ended (r >>= λ (g', queue'). ripple fuel g' queue')
      go none s rest = tt
      go (some (g', queue')) s rest = rest g' queue' s
