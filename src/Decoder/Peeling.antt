-- ===== src/Decoder/Peeling.antt =====
-- What a peeling decoder can resolve at all: the abstract view of the decoder of
-- crates/orbit-fountain/src/decoder.rs, in which only the neighbours of the equations matter.
pub mod Settle
pub mod Origin
pub mod Ripple
pub mod Cancel
pub mod Arrival
pub mod Opened
use orbit_transfer.Prelude.{
  ℕ, ◌≡◌, ◌⊎◌, inl, inr, true, false, List, [], ◌∷◌, Option, none, some, arith, ◌==◌, All,
  Bool-cases,
}
use orbit_transfer.Prelude.Sorted.{contains, Distinct}
use orbit_transfer.Decoder.{ActiveEquation, Graph, Resolved, has, slot_at}

-- The inputs that can be resolved from some equations, one after the other: an equation gives an input
-- when all its other inputs are given.
pub data Peels (equations : List ℕ → Type 0) : ℕ → Type 0 where
  peel :
      (ns : List ℕ) (i : ℕ)
      → equations ns
      → contains i ns ≡ true
      → ((j : ℕ) → contains j ns ≡ true → (j == i) ≡ false → Peels equations j)
      → Peels equations i

-- More equations give no less.
pub Peels-mono :
    (old new : List ℕ → Type 0)
    → ((m : List ℕ) → old m → new m)
    → {i : ℕ} → Peels old i
    → Peels new i
Peels-mono old new grow (peel m i e here others) =
    peel m i (grow m e) here (λ j h ne. Peels-mono old new grow (others j h ne))

-- Two different inputs.
abbrev pub Two : List ℕ → Type 0
Two ns = (a b : ℕ) × (contains a ns ≡ true) × (contains b ns ≡ true) × ((a == b) ≡ false)

module _ (equations : List ℕ → Type 0) where
  -- What is left of an equation when inputs that peel are taken out of it.
  abbrev pub SlotFrom : Option ActiveEquation → Type 0
  SlotFrom none = Unit {0}
  SlotFrom (some eq) =
      (ns : List ℕ) × equations ns
      × ((j : ℕ) → contains j eq.neighbors ≡ true → contains j ns ≡ true)
      × ((j : ℕ) → contains j ns ≡ true → (contains j eq.neighbors ≡ true) ⊎ Peels equations j)

  -- What is resolved peels, and the equations that are kept are what is left of equations.
  pub record Sound (g : Graph) : Type 0 where
    pub resolved : All (λ e. Peels equations e.0) g.resolved
    pub slots : All SlotFrom g.active_equations

-- A slot keeps what is left of an equation: it is found from each of its inputs, its resolved inputs
-- are still queued, and it has two inputs or a queued one.
pub record Kept (live : ℕ → List ℕ) (queue : List ℕ) (g : Graph) (ns : List ℕ) (slot : ℕ)
    (eq : ActiveEquation) : Type 0 where
  pub found : slot_at g slot ≡ some eq
  pub distinct : Distinct eq.neighbors
  pub inside : (j : ℕ) → contains j eq.neighbors ≡ true → contains j ns ≡ true
  pub covers :
      (j : ℕ) → contains j ns ≡ true → (contains j eq.neighbors ≡ true) ⊎ (has j g.resolved ≡ true)
  pub indexed : (j : ℕ) → contains j eq.neighbors ≡ true → contains slot (live j) ≡ true
  pub queued :
      (j : ℕ) → contains j eq.neighbors ≡ true → has j g.resolved ≡ true → contains j queue ≡ true
  pub wide :
      Two eq.neighbors ⊎ ((a : ℕ) × (contains a eq.neighbors ≡ true) × (contains a queue ≡ true))

-- All inputs of an equation are resolved, or a slot keeps what is left of it.
abbrev pub Held : (ℕ → List ℕ) → List ℕ → Graph → List ℕ → Type 0
Held live queue g ns =
    ((j : ℕ) → contains j ns ≡ true → has j g.resolved ≡ true)
    ⊎ ((slot : ℕ) × (eq : ActiveEquation) × Kept live queue g ns slot eq)

module _ (equations : List ℕ → Type 0) where
  abbrev pub Stable : (ℕ → List ℕ) → List ℕ → Graph → Type 0
  Stable live queue g = (ns : List ℕ) → equations ns → Held live queue g ns

  pub has-Peels :
      (i : ℕ) (m : Resolved) → All (λ e. Peels equations e.0) m → has i m ≡ true → Peels equations i
  unfolding has
  has-Peels i [] h e = cc
  has-Peels i ((j, b) ∷ m) h e = elim (Bool-cases (j == i)) [
    | inl same ↦ let here : j ≡ i = ground arith in rw⁻¹ here h.0
    | inr other ↦ has-Peels i m h.1 (ground arith)
  ]

  -- When nothing is queued, no equation gives an input that is not resolved.
  pub Peels-has :
      (live : ℕ → List ℕ) (g : Graph) {i : ℕ}
      → Stable live [] g
      → Peels equations i
      → has i g.resolved ≡ true
  unfolding contains
  Peels-has live g stable (peel ns i e here others) = elim (stable ns e) [
    | inl all ↦ all i here
    | inr (slot, eq, kept) ↦ elim kept.wide [
      | inl (a, b, at_a, at_b, ne) ↦ elim (Bool-cases (a == i)) [
        | inl same ↦
            let other : (b == i) ≡ false = ground arith in
            let resolved = Peels-has live g stable (others b (kept.inside b at_b) other) in
            let waits = kept.queued b at_b resolved in cc
        | inr other ↦
            let resolved = Peels-has live g stable (others a (kept.inside a at_a) other) in
            let waits = kept.queued a at_a resolved in cc
      ]
      | inr (a, at_a, waits) ↦ cc
    ]
  ]
