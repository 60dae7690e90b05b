-- ===== src/Prelude/Members.antt =====
-- What `HashSet::remove` and `HashSet::insert` do to the elements of a set kept as a list.
use orbit_transfer.Prelude.Tests.{◌==◌, Bool-cases}
use orbit_transfer.Prelude.Sorted.{contains, remove, add, Distinct, contains-add}
use Prim.Native.Nat.{ℕ}
use mathlib.Core.Bool.{true, false, ◌||◌}
use mathlib.Core.Path.{◌≡◌, refl}
use mathlib.Core.List.{List, [], ◌∷◌, ◌++◌}
use mathlib.Core.Logic.{◌⊎◌, inl, inr}
use native.Mathlib.Omega.{arith}

pub contains-append :
    (j : ℕ) (xs ys : List ℕ) → contains j (xs ++ ys) ≡ contains j xs || contains j ys
unfolding contains
contains-append j [] ys = refl
contains-append j (x ∷ xs) ys = ground (arith, contains-append j xs ys)

pub contains-remove_inside :
    (i j : ℕ) (xs : List ℕ) → contains j (remove i xs) ≡ true → contains j xs ≡ true
unfolding contains remove
contains-remove_inside i j [] h = h
contains-remove_inside i j (x ∷ xs) h = ground (arith, contains-remove_inside i j xs)

pub contains-remove_other :
    (i j : ℕ) (xs : List ℕ)
    → (i == j) ≡ false
    → contains j xs ≡ true
    → contains j (remove i xs) ≡ true
unfolding contains remove
contains-remove_other i j [] ne h = h
contains-remove_other i j (x ∷ xs) ne h = ground (arith, contains-remove_other i j xs ne)

pub contains-remove_self : (i : ℕ) (xs : List ℕ) → Distinct xs → contains i (remove i xs) ≡ false
unfolding contains remove
contains-remove_self i [] d = refl
contains-remove_self i (x ∷ xs) d = elim (Bool-cases (x == i)) [
  | inl same ↦ let here : x ≡ i = ground arith in rw same (rw⁻¹ here d.0)
  | inr other ↦ ground (arith, contains-remove_self i xs d.1)
]

not-contains-remove :
    (i j : ℕ) (xs : List ℕ) → contains j xs ≡ false → contains j (remove i xs) ≡ false
unfolding contains remove
not-contains-remove i j [] h = h
not-contains-remove i j (x ∷ xs) h = ground (arith, not-contains-remove i j xs)

pub remove-Distinct : (i : ℕ) (xs : List ℕ) → Distinct xs → Distinct (remove i xs)
unfolding remove
remove-Distinct i [] d = tt
remove-Distinct i (x ∷ xs) d = elim (Bool-cases (x == i)) [
  | inl same ↦ rw same d.1
  | inr other ↦ rw other (not-contains-remove i x xs d.0, remove-Distinct i xs d.1)
]

pub add-Distinct : (i : ℕ) (xs : List ℕ) → Distinct xs → Distinct (add i xs)
unfolding add contains
add-Distinct i [] d = (refl, tt)
add-Distinct i (x ∷ xs) d = elim (Bool-cases (x == i)) [
  | inl same ↦ rw same d
  | inr other ↦ rw other (ground (arith, contains-add i x xs, d.0), add-Distinct i xs d.1)
]

-- An element is the one that is taken out, or is left.
pub contains-remove_cases :
    (i j : ℕ) (xs : List ℕ)
    → contains j xs ≡ true
    → ((i == j) ≡ true) ⊎ (contains j (remove i xs) ≡ true)
contains-remove_cases i j xs h = elim (Bool-cases (i == j)) [
  | inl same ↦ inl same
  | inr other ↦ inr (contains-remove_other i j xs other h)
]
