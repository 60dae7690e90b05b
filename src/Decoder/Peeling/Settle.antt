-- ===== src/Decoder/Peeling/Settle.antt =====
-- One slot of the ripple, `settle`, keeps to what can be peeled.
use orbit_transfer.Prelude.{
  ℕ, zero, suc, ◌≡◌, ◌⊎◌, ◌≢◌, inl, inr, true, false, List, [], ◌∷◌, ◌++◌, Option, none, some,
  arith, ◌==◌, if◌then◌else◌, Bool-cases, set, get_elem?, get_elem?-set_ne, subst, refl, ◌∙◌,
}
use orbit_transfer.Prelude.Sorted.{contains, Distinct}
use orbit_transfer.Prelude.Members.{contains-append}
use orbit_transfer.Decoder.{ActiveEquation, Graph, has, slot_at, settle}
use orbit_transfer.Decoder.Progress.{Extends, settle-Extends}
use orbit_transfer.Decoder.Peeling.{Two, Kept, Held}

-- The index while the slots of `idx` are processed: those that are left, and the index of the others.
unfoldable pub live_at : ℕ → List ℕ → (ℕ → List ℕ) → ℕ → List ℕ
live_at idx slots rev j = if idx == j then slots else rev j

-- What is left of the inputs `ns` without `idx`.
pub record Rest (idx : ℕ) (ns left : List ℕ) : Type 0 where
  pub fewer : (j : ℕ) → contains j left ≡ true → contains j ns ≡ true
  pub splits : (j : ℕ) → contains j ns ≡ true → ((idx == j) ≡ true) ⊎ (contains j left ≡ true)
  pub apart : Distinct ns → (contains idx left ≡ false) × Distinct left

slot_at-set_ne :
    (g : Graph) (slot slot' : ℕ) (v : Option ActiveEquation)
    → (slot' == slot) ≡ false
    → slot_at (record g { active_equations = set g.active_equations slot v }) slot'
      ≡ slot_at g slot'
unfolding slot_at
slot_at-set_ne g slot slot' v ne =
    let differ : slot ≢ slot' = λ e. ground arith in
    rw (slot_at, get_elem?-set_ne g.active_equations v differ) refl

slot_at-set_self :
    (g : Graph) (slot : ℕ) (eq eq' : ActiveEquation)
    → slot_at g slot ≡ some eq
    → slot_at (record g { active_equations = set g.active_equations slot (some eq') }) slot
      ≡ some eq'
unfolding slot_at
slot_at-set_self g slot eq eq' = go g.active_equations slot
  where
    go :
        (es : List (Option ActiveEquation)) (i : ℕ)
        → (elim (get_elem? es i) [ none ↦ none | some e ↦ e ]) ≡ some eq
        → (elim (get_elem? (set es i (some eq')) i) [ none ↦ none | some e ↦ e ]) ≡ some eq'
    go [] i h = cc
    go (x ∷ es) zero h = refl
    go (x ∷ es) (suc i) h = go es i h

-- What a slot keeps, after a step that leaves the slot alone.
pub Kept-move :
    (live live' : ℕ → List ℕ) (queue queue' : List ℕ) (g g' : Graph) (ns : List ℕ) (slot : ℕ)
    (eq : ActiveEquation)
    → Kept live queue g ns slot eq
    → slot_at g' slot ≡ some eq
    → Extends g.resolved g'.resolved
    → ((j : ℕ) → has j g'.resolved ≡ true → (has j g.resolved ≡ true) ⊎ (contains j queue' ≡ true))
    → ((j : ℕ)
        → contains j eq.neighbors ≡ true
        → contains slot (live j) ≡ true
        → (contains slot (live' j) ≡ true) × (contains j queue ≡ true → contains j queue' ≡ true))
    → Kept live' queue' g' ns slot eq
Kept-move live live' queue queue' g g' ns slot eq kept found extends back keeps = record {
  found = found;
  distinct = kept.distinct;
  inside = kept.inside;
  covers = λ j member. elim (kept.covers j member) [
    | inl here ↦ inl here
    | inr resolved ↦ inr (extends j resolved)
  ];
  indexed = λ j member. (keeps j member (kept.indexed j member)).0;
  queued = λ j member resolved. elim (back j resolved) [
    | inl before ↦ (keeps j member (kept.indexed j member)).1 (kept.queued j member before)
    | inr now ↦ now
  ];
  wide = elim kept.wide [
    | inl two ↦ inl two
    | inr (a, member, waits) ↦ inr (a, member, (keeps a member (kept.indexed a member)).1 waits)
  ];
}

pub settle-rev :
    (g : Graph) (slot : ℕ) (block left : List ℕ) → (settle g slot block left).0.rev ≡ g.rev
unfolding settle
settle-rev g slot block [] = refl
settle-rev g slot block (n ∷ []) = ground arith
settle-rev g slot block (n ∷ m ∷ left) = refl

module _ (idx : ℕ) (slot : ℕ) (slots : List ℕ) (queue : List ℕ) (g : Graph) (eq : ActiveEquation)
    (known : has idx g.resolved ≡ true) (at_slot : slot_at g slot ≡ some eq) where
  abbrev before : ℕ → List ℕ
  before = live_at idx (slot ∷ slots) g.rev

  abbrev afterwards : ℕ → List ℕ
  afterwards = live_at idx slots g.rev

  live_at-step :
      (slot' j : ℕ)
      → (slot' == slot) ≡ false
      → contains slot' (before j) ≡ true
      → contains slot' (afterwards j) ≡ true
  unfolding live_at contains
  live_at-step slot' j apart h = ground arith

  live_at-other :
      (j : ℕ)
      → (idx == j) ≡ false
      → contains slot (before j) ≡ true
      → contains slot (afterwards j) ≡ true
  unfolding live_at contains
  live_at-other j apart h = ground arith

  -- An equation that keeps inputs besides `idx`.
  Kept-narrow :
      (ns left pushed : List ℕ) (es : List (Option ActiveEquation)) (block : List ℕ)
      → Kept before (idx ∷ queue) g ns slot eq
      → Rest idx eq.neighbors left
      → slot_at (record g { active_equations = es }) slot
        ≡ some (record { block = block; neighbors = left })
      → (Two left ⊎ ((a : ℕ) × (contains a left ≡ true) × (contains a queue ≡ true)))
      → Kept afterwards
          (idx ∷ (queue ++ pushed))
          (record g { active_equations = es })
          ns
          slot
          (record { block = block; neighbors = left })
  unfolding contains
  Kept-narrow ns left pushed es block kept rest found wide = record {
    found = found;
    distinct = (rest.apart kept.distinct).1;
    inside = λ j h. kept.inside j (rest.fewer j h);
    covers = λ j h. elim (kept.covers j h) [
      | inl here ↦ elim (rest.splits j here) [
        | inl same ↦ let at_idx : idx ≡ j = ground arith in inr (rw⁻¹ at_idx known)
        | inr stays ↦ inl stays
      ]
      | inr resolved ↦ inr resolved
    ];
    indexed = λ j h. live_at-other j (differs j h) (kept.indexed j (rest.fewer j h));
    queued = λ j h resolved.
        ground (arith, contains-append j queue pushed, kept.queued j (rest.fewer j h) resolved);
    wide = elim wide [
      | inl two ↦ inl two
      | inr (a, h, waits) ↦ inr (a, h, ground (arith, contains-append a queue pushed))
    ];
  }
    where
      differs : (j : ℕ) → contains j left ≡ true → (idx == j) ≡ false
      differs j h = elim (Bool-cases (idx == j)) [
        | inl same ↦
            let at_idx : idx ≡ j = ground arith in
            let gone = (rest.apart kept.distinct).0 in
            let there : contains idx left ≡ true = rw at_idx h in absurd (ground arith)
        | inr other ↦ other
      ]

  settle-slot_at :
      (block left : List ℕ) (slot' : ℕ)
      → (slot' == slot) ≡ false
      → slot_at (settle g slot block left).0 slot' ≡ slot_at g slot'
  unfolding settle slot_at
  settle-slot_at block [] slot' ne = slot_at-set_ne g slot slot' none ne
  settle-slot_at block (n ∷ []) slot' ne = elim (Bool-cases (has n g.resolved)) [
    | inl old ↦ rw old (slot_at-set_ne g slot slot' _ ne)
    | inr new ↦ rw new (slot_at-set_ne g slot slot' none ne)
  ]
  settle-slot_at block (n ∷ m ∷ left) slot' ne = slot_at-set_ne g slot slot' _ ne

  settle-back :
      (block left : List ℕ) (j : ℕ)
      → has j (settle g slot block left).0.resolved ≡ true
      → (has j g.resolved ≡ true)
        ⊎ (contains j (idx ∷ (queue ++ (settle g slot block left).1)) ≡ true)
  unfolding settle has contains
  settle-back block [] j h = inl h
  settle-back block (n ∷ []) j h = elim (Bool-cases (has j g.resolved)) [
    | inl old ↦ inl old
    | inr new ↦ inr (ground (arith, contains-append j queue (n ∷ [])))
  ]
  settle-back block (n ∷ m ∷ left) j h = inl h

  -- The slot itself.
  settle-here :
      (ns block left : List ℕ)
      → Rest idx eq.neighbors left
      → Kept before (idx ∷ queue) g ns slot eq
      → Held afterwards
          (idx ∷ (queue ++ (settle g slot block left).1))
          (settle g slot block left).0
          ns
  unfolding settle contains has
  settle-here ns block [] rest kept = inl (λ j h. elim (kept.covers j h) [
    | inl here ↦ elim (rest.splits j here) [
      | inl same ↦ let at_idx : idx ≡ j = ground arith in rw⁻¹ at_idx known
      | inr stays ↦ cc
    ]
    | inr resolved ↦ resolved
  ])
  settle-here ns block (n ∷ []) rest kept = elim (Bool-cases (has n g.resolved)) [
    | inl old ↦
        let waits = kept.queued n (rest.fewer n (ground arith)) old in
        let gone = (rest.apart kept.distinct).0 in
        rw old (
          inr (
            slot,
            record { block = block; neighbors = n ∷ [] },
            Kept-narrow ns (n ∷ []) [] _ block kept rest (slot_at-set_self g slot eq _ at_slot)
                (inr (n, ground arith, ground arith)),
          ))
    | inr new ↦ rw new (
        inl (λ j h. elim (kept.covers j h) [
          | inl here ↦ elim (rest.splits j here) [
            | inl same ↦
                let at_idx : idx ≡ j = ground arith in
                let both : has j g.resolved ≡ true = rw⁻¹ at_idx known in ground arith
            | inr stays ↦ ground arith
          ]
          | inr resolved ↦ ground arith
        ]))
  ]
  settle-here ns block (n ∷ m ∷ left) rest kept =
      let once = ((rest.apart kept.distinct).1).0 in
      inr (
        slot,
        record { block = block; neighbors = n ∷ m ∷ left },
        Kept-narrow ns (n ∷ m ∷ left) [] _ block kept rest (slot_at-set_self g slot eq _ at_slot)
            (inl (n, m, ground arith, ground arith, ground arith)),
      )

  same_slot :
      (ns : List ℕ) (slot' : ℕ) (eq' : ActiveEquation)
      → slot' ≡ slot
      → Kept before (idx ∷ queue) g ns slot' eq'
      → Kept before (idx ∷ queue) g ns slot eq
  same_slot ns slot' eq' same kept =
      let here = subst (λ s. Kept before (idx ∷ queue) g ns s eq') same kept in
      let found = here.found in
      let one : eq' ≡ eq = cc in subst (λ e. Kept before (idx ∷ queue) g ns slot e) one here

  -- Any slot.
  pub settle-Held :
      (ns block left : List ℕ)
      → Rest idx eq.neighbors left
      → Held before (idx ∷ queue) g ns
      → Held afterwards
          (idx ∷ (queue ++ (settle g slot block left).1))
          (settle g slot block left).0
          ns
  unfolding contains
  settle-Held ns block left rest held = elim held [
    | inl all ↦ inl (λ j h. settle-Extends g slot block left j (all j h))
    | inr (slot', eq', kept) ↦ elim (Bool-cases (slot' == slot)) [
      | inl same ↦ settle-here ns block left rest (same_slot ns slot' eq' (ground arith) kept)
      | inr other ↦ inr (
        slot',
        eq',
        Kept-move before afterwards (idx ∷ queue) _ g _ ns slot' eq' kept
            (settle-slot_at block left slot' other ∙ kept.found) (settle-Extends g slot block left)
            (settle-back block left)
            (λ j h live. (
              live_at-step slot' j other live,
              λ waits. ground (arith, contains-append j queue (settle g slot block left).1),
            )),
      )
    ]
  ]
