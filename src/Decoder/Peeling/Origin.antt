-- ===== src/Decoder/Peeling/Origin.antt =====
-- One slot of the ripple, `settle`, resolves what peels only.
use orbit_transfer.Prelude.{
  ℕ, zero, suc, ◌≡◌, inl, inr, true, List, [], ◌∷◌, Option, none, some, arith, Bool-cases, All,
  All-set, get_elem?, subst,
}
use orbit_transfer.Prelude.Sorted.{contains}
use orbit_transfer.Decoder.{ActiveEquation, Graph, has, slot_at, settle}
use orbit_transfer.Decoder.Peeling.{Peels, peel, SlotFrom, Sound, has-Peels}
use orbit_transfer.Decoder.Peeling.Settle.{Rest}

module _ (equations : List ℕ → Type 0) (idx : ℕ) (slot : ℕ) (g : Graph) (eq : ActiveEquation)
    (known : has idx g.resolved ≡ true) (at_slot : slot_at g slot ≡ some eq)
    (sound : Sound equations g) where
  slot_at-SlotFrom : SlotFrom equations (some eq)
  unfolding slot_at
  slot_at-SlotFrom = go g.active_equations slot sound.slots at_slot
    where
      go :
          (es : List (Option ActiveEquation)) (i : ℕ)
          → All (SlotFrom equations) es
          → (elim (get_elem? es i) [ none ↦ none | some e ↦ e ]) ≡ some eq
          → SlotFrom equations (some eq)
      go [] i a h = cc
      go (x ∷ es) zero a h = subst (SlotFrom equations) h a.0
      go (x ∷ es) (suc i) a h = go es i a.1 h

  -- What is left of the equation comes from the same equation.
  Rest-SlotFrom :
      (block left : List ℕ)
      → Rest idx eq.neighbors left
      → SlotFrom equations (some (record { block = block; neighbors = left }))
  Rest-SlotFrom block left rest =
      let (ns, e, inside, covers) = slot_at-SlotFrom in
      (
        ns,
        e,
        (λ j h. inside j (rest.fewer j h)),
        λ j h. elim (covers j h) [
          | inl here ↦ elim (rest.splits j here) [
            | inl same ↦
                let at_idx : idx ≡ j = ground arith in
                inr (has-Peels equations j g.resolved sound.resolved (rw⁻¹ at_idx known))
            | inr stays ↦ inl stays
          ]
          | inr peels ↦ inr peels
        ],
      )

  pub settle-Sound :
      (block left : List ℕ)
      → Rest idx eq.neighbors left
      → Sound equations (settle g slot block left).0
  unfolding settle contains
  settle-Sound block [] rest = record {
    resolved = sound.resolved;
    slots = All-set _ slot none g.active_equations tt sound.slots;
  }
  settle-Sound block (n ∷ []) rest = elim (Bool-cases (has n g.resolved)) [
    | inl old ↦ rw old (record {
      resolved = sound.resolved;
      slots = All-set _ slot _ g.active_equations (Rest-SlotFrom block (n ∷ []) rest) sound.slots;
    })
    | inr new ↦
        let (ns, e, inside, covers) = Rest-SlotFrom block (n ∷ []) rest in
        let solved : Peels equations n =
          peel ns n e (inside n (ground arith)) (λ j h ne. elim (covers j h) [
            | inl here ↦ absurd (ground arith)
            | inr peels ↦ peels
          ]) in
        rw new (record {
          resolved = (solved, sound.resolved);
          slots = All-set _ slot none g.active_equations tt sound.slots;
        })
  ]
  settle-Sound block (n ∷ m ∷ left) rest = record {
    resolved = sound.resolved;
    slots =
        All-set _ slot _ g.active_equations (Rest-SlotFrom block (n ∷ m ∷ left) rest) sound.slots;
  }
