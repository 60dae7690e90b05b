-- ===== src/Decoder/Peeling/Cancel.antt =====
-- `cancel` leaves the inputs of an equation that are not resolved.
use orbit_transfer.Prelude.{
  ℕ, ◌≡◌, ◌⊎◌, inl, inr, true, false, List, [], ◌∷◌, ◌||◌, ◌&&◌, not, Option, none, some, arith,
  ◌==◌, Bool-cases, ◌>>=◌, Option-cases,
}
use orbit_transfer.Prelude.Sorted.{contains, add, Distinct, contains-add}
use orbit_transfer.Prelude.Members.{add-Distinct}
use orbit_transfer.Simd.{xor_inplace}
use orbit_transfer.Decoder.{Resolved, has, lookup, cancel}
use orbit_transfer.Decoder.Unresolved.{lookup-has-none}
use orbit_transfer.Decoder.Progress.{lookup-some-has}

-- What `cancel` leaves of the inputs `ns`: those that are not resolved.
pub record Remains (resolved : Resolved) (ns unknown : List ℕ) : Type 0 where
  pub distinct : Distinct unknown
  pub inside : (j : ℕ) → contains j unknown ≡ true → contains j ns ≡ true
  pub open_ : (j : ℕ) → contains j unknown ≡ true → has j resolved ≡ false
  pub covers :
      (j : ℕ) → contains j ns ≡ true → (contains j unknown ≡ true) ⊎ (has j resolved ≡ true)

module _ (resolved : Resolved) where
  -- The open inputs of `ns` join those that are collected.
  abbrev pub Joins : List ℕ → List ℕ → Option (List ℕ × List ℕ) → Type 0
  Joins ns unknown none = Unit {0}
  Joins ns unknown (some (block, left)) =
      Distinct left
      × ((j : ℕ) → contains j left ≡ contains j unknown || (contains j ns && not (has j resolved)))

  Joins-add :
      (n : ℕ) (ns unknown : List ℕ) (r : Option (List ℕ × List ℕ))
      → has n resolved ≡ false
      → Joins ns (add n unknown) r
      → Joins (n ∷ ns) unknown r
  unfolding contains
  Joins-add n ns unknown none free joins = tt
  Joins-add n ns unknown (some (block, left)) free (d, same) = (
    d,
    λ j. elim (Bool-cases (n == j)) [
      | inl here ↦
          let at_n : n ≡ j = ground arith in
          let open_ : has j resolved ≡ false = rw⁻¹ at_n free in
          ground (arith, same j, contains-add n j unknown)
      | inr other ↦ ground (arith, same j, contains-add n j unknown)
    ],
  )

  Joins-known :
      (n : ℕ) (ns unknown : List ℕ) (r : Option (List ℕ × List ℕ))
      → has n resolved ≡ true
      → Joins ns unknown r
      → Joins (n ∷ ns) unknown r
  unfolding contains
  Joins-known n ns unknown none known joins = tt
  Joins-known n ns unknown (some (block, left)) known (d, same) = (
    d,
    λ j. elim (Bool-cases (n == j)) [
      | inl here ↦
          let at_n : n ≡ j = ground arith in
          let held : has j resolved ≡ true = rw⁻¹ at_n known in ground (arith, same j)
      | inr other ↦ ground (arith, same j)
    ],
  )

  pub cancel-Joins :
      (ns block unknown : List ℕ)
      → Distinct unknown
      → Joins ns unknown (cancel resolved ns block unknown)
  unfolding cancel contains
  cancel-Joins [] block unknown d = (d, λ j. ground arith)
  cancel-Joins (n ∷ ns) block unknown d = elim (Option-cases (lookup n resolved)) [
    | inl absent ↦
        rw (absent, Joins)
          (Joins-add n ns unknown _ (lookup-has-none n resolved absent)
            (cancel-Joins ns block (add n unknown) (add-Distinct n unknown d)))
    | inr (known, found) ↦
        rw (found, Joins)
          (on_xor (lookup-some-has n resolved known found) (xor_inplace block known)
            (λ next. cancel-Joins ns next unknown d))
  ]
    where
      on_xor :
          has n resolved ≡ true
          → (r : Option (List ℕ))
          → ((next : List ℕ) → Joins ns unknown (cancel resolved ns next unknown))
          → Joins (n ∷ ns) unknown (r >>= λ next. cancel resolved ns next unknown)
      on_xor known none rest = tt
      on_xor known (some next) rest = Joins-known n ns unknown _ known (rest next)

  pub Joins-Remains :
      (ns block left unknown : List ℕ)
      → Joins ns [] (some (left, unknown))
      → Remains resolved ns unknown
  unfolding contains
  Joins-Remains ns block left unknown (d, same) = record {
    distinct = d;
    inside = λ j h. ground (arith, same j);
    open_ = λ j h. ground (arith, same j);
    covers = λ j h. elim (Bool-cases (has j resolved)) [
      | inl known ↦ inr known
      | inr free ↦ inl (ground (arith, same j))
    ];
  }
