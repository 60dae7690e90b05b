-- ===== src/Prelude/Sorted.antt =====
-- `sort_unstable` and `dedup` of a `Vec<usize>`, and sets of indices as lists.
use orbit_transfer.Prelude.Tests.{leb, ◌==◌, if◌then◌else◌, Bool-cases}
use orbit_transfer.Prelude.Lists.{All, length}
use Prim.Native.Nat.{ℕ, suc, ◌≤◌, ◌<◌}
use mathlib.Core.Bool.{Bool, false, ◌||◌}
use mathlib.Core.Path.{◌≡◌, refl, ◌∙◌, subst}
use mathlib.Core.List.{List, [], ◌∷◌, ◌++◌}
use mathlib.Core.Logic.{inl, inr}
use native.Mathlib.Omega.{arith}

unfoldable pub insert_sorted : ℕ → List ℕ → List ℕ
insert_sorted x [] = x ∷ []
insert_sorted x (y ∷ ys) = if leb x y then x ∷ y ∷ ys else y ∷ insert_sorted x ys

unfoldable pub sort : List ℕ → List ℕ
unfolding insert_sorted
sort [] = []
sort (x ∷ xs) = insert_sorted x (sort xs)

-- Drops what repeats the element before it.
unfoldable pub dedup_after : ℕ → List ℕ → List ℕ
dedup_after x [] = []
dedup_after x (y ∷ ys) = let rest = dedup_after y ys in if x == y then rest else y ∷ rest

unfoldable pub dedup : List ℕ → List ℕ
unfolding dedup_after
dedup [] = []
dedup (x ∷ xs) = x ∷ dedup_after x xs

unfoldable pub contains : ℕ → List ℕ → Bool
contains i [] = false
contains i (x ∷ xs) = x == i || contains i xs

-- `HashSet::remove` on a set kept as a list.
unfoldable pub remove : ℕ → List ℕ → List ℕ
remove i [] = []
remove i (x ∷ xs) = if x == i then xs else x ∷ remove i xs

-- `HashSet::insert`: a new element goes to the end.
unfoldable pub add : ℕ → List ℕ → List ℕ
add i [] = i ∷ []
add i (x ∷ xs) = if x == i then x ∷ xs else x ∷ add i xs

abbrev pub SortedFrom : ℕ → List ℕ → Type 0
SortedFrom lo [] = Unit {0}
SortedFrom lo (x ∷ xs) = (lo ≤ x) × SortedFrom x xs

abbrev pub StrictFrom : ℕ → List ℕ → Type 0
StrictFrom lo [] = Unit {0}
StrictFrom lo (x ∷ xs) = (lo < x) × StrictFrom x xs

-- Strictly increasing: sorted, and without repetition.
abbrev pub IsStrict : List ℕ → Type 0
IsStrict [] = Unit {0}
IsStrict (x ∷ xs) = StrictFrom x xs

abbrev pub IsSorted : List ℕ → Type 0
IsSorted = SortedFrom 0

SortedFrom-weaken : (a b : ℕ) (xs : List ℕ) → a ≤ b → SortedFrom b xs → SortedFrom a xs
SortedFrom-weaken a b [] h s = tt
SortedFrom-weaken a b (x ∷ xs) h s = (omega (arith, s.0), s.1)

insert_sorted-SortedFrom :
    (lo x : ℕ) (ys : List ℕ) → lo ≤ x → SortedFrom lo ys → SortedFrom lo (insert_sorted x ys)
unfolding insert_sorted
insert_sorted-SortedFrom lo x [] h s = (h, tt)
insert_sorted-SortedFrom lo x (y ∷ ys) h s =
    ground (arith, insert_sorted-SortedFrom y x ys, SortedFrom-weaken lo y ys)

pub sort-IsSorted : (xs : List ℕ) → IsSorted (sort xs)
unfolding sort
sort-IsSorted [] = tt
sort-IsSorted (x ∷ xs) = insert_sorted-SortedFrom 0 x (sort xs) (omega arith) (sort-IsSorted xs)

StrictFrom-dedup_after : (x : ℕ) (ys : List ℕ) → SortedFrom x ys → StrictFrom x (dedup_after x ys)
unfolding dedup_after
StrictFrom-dedup_after x [] s = tt
StrictFrom-dedup_after x (y ∷ ys) s = ground (arith, StrictFrom-dedup_after y ys s.1)

pub dedup-IsStrict : (xs : List ℕ) → IsSorted xs → IsStrict (dedup xs)
unfolding dedup
dedup-IsStrict [] s = tt
dedup-IsStrict (x ∷ xs) s = StrictFrom-dedup_after x xs s.1

module _ (P : ℕ → Type 0) where
  insert_sorted-All : (x : ℕ) (ys : List ℕ) → P x → All P ys → All P (insert_sorted x ys)
  unfolding insert_sorted
  insert_sorted-All x [] h s = (h, tt)
  insert_sorted-All x (y ∷ ys) h s = elim (Bool-cases (leb x y)) [
    | inl e ↦ rw e (h, s)
    | inr e ↦ rw e (s.0, insert_sorted-All x ys h s.1)
  ]

  pub sort-All : (xs : List ℕ) → All P xs → All P (sort xs)
  unfolding sort
  sort-All [] h = tt
  sort-All (x ∷ xs) h = insert_sorted-All x (sort xs) h.0 (sort-All xs h.1)

  dedup_after-All : (x : ℕ) (ys : List ℕ) → All P ys → All P (dedup_after x ys)
  unfolding dedup_after
  dedup_after-All x [] h = tt
  dedup_after-All x (y ∷ ys) h = elim (Bool-cases (x == y)) [
    | inl e ↦ rw e (dedup_after-All y ys h.1)
    | inr e ↦ rw e (h.0, dedup_after-All y ys h.1)
  ]

  pub dedup-All : (xs : List ℕ) → All P xs → All P (dedup xs)
  unfolding dedup
  dedup-All [] h = tt
  dedup-All (x ∷ xs) h = (h.0, dedup_after-All x xs h.1)

  pub remove-All : (i : ℕ) (xs : List ℕ) → All P xs → All P (remove i xs)
  unfolding remove
  remove-All i [] h = tt
  remove-All i (x ∷ xs) h = elim (Bool-cases (x == i)) [
    | inl e ↦ rw e h.1
    | inr e ↦ rw e (h.0, remove-All i xs h.1)
  ]

  pub add-All : (i : ℕ) (xs : List ℕ) → P i → All P xs → All P (add i xs)
  unfolding add
  add-All i [] p h = (p, tt)
  add-All i (x ∷ xs) p h = elim (Bool-cases (x == i)) [
    | inl e ↦ rw e h
    | inr e ↦ rw e (h.0, add-All i xs p h.1)
  ]

length-insert_sorted : (x : ℕ) (ys : List ℕ) → length (insert_sorted x ys) ≡ suc (length ys)
unfolding insert_sorted
length-insert_sorted x [] = refl
length-insert_sorted x (y ∷ ys) = ground (arith, length-insert_sorted x ys)

pub length-sort : (xs : List ℕ) → length (sort xs) ≡ length xs
unfolding sort
length-sort [] = refl
length-sort (x ∷ xs) = omega (arith, length-insert_sorted x (sort xs), length-sort xs)

-- No element twice.
abbrev pub Distinct : List ℕ → Type 0
Distinct [] = Unit {0}
Distinct (x ∷ xs) = (contains x xs ≡ false) × Distinct xs

not-contains-StrictFrom :
    (x lo : ℕ) (xs : List ℕ) → x ≤ lo → StrictFrom lo xs → contains x xs ≡ false
unfolding contains
not-contains-StrictFrom x lo [] h s = refl
not-contains-StrictFrom x lo (y ∷ ys) h s =
    ground (arith, s.0, not-contains-StrictFrom x y ys (omega (arith, s.0)) s.1)

StrictFrom-Distinct : (lo : ℕ) (xs : List ℕ) → StrictFrom lo xs → Distinct xs
StrictFrom-Distinct lo [] s = tt
StrictFrom-Distinct lo (x ∷ xs) s =
    (not-contains-StrictFrom x x xs (omega arith) s.1, StrictFrom-Distinct x xs s.1)

pub IsStrict-Distinct : (xs : List ℕ) → IsStrict xs → Distinct xs
IsStrict-Distinct [] s = tt
IsStrict-Distinct (x ∷ xs) s =
    (not-contains-StrictFrom x x xs (omega arith) s, StrictFrom-Distinct x xs s)

pub contains-add : (n m : ℕ) (xs : List ℕ) → contains m (add n xs) ≡ (n == m) || contains m xs
unfolding contains add
contains-add n m [] = refl
contains-add n m (x ∷ xs) = ground (arith, contains-add n m xs)

contains-insert_sorted :
    (m x : ℕ) (ys : List ℕ) → contains m (insert_sorted x ys) ≡ (x == m) || contains m ys
unfolding contains insert_sorted
contains-insert_sorted m x [] = refl
contains-insert_sorted m x (y ∷ ys) = ground (arith, contains-insert_sorted m x ys)

contains-sort : (m : ℕ) (xs : List ℕ) → contains m (sort xs) ≡ contains m xs
unfolding contains sort
contains-sort m [] = refl
contains-sort m (x ∷ xs) = ground (arith, contains-insert_sorted m x (sort xs), contains-sort m xs)

Distinct-insert_sorted :
    (x : ℕ) (ys : List ℕ) → contains x ys ≡ false → Distinct ys → Distinct (insert_sorted x ys)
unfolding contains insert_sorted
Distinct-insert_sorted x [] h d = (refl, tt)
Distinct-insert_sorted x (y ∷ ys) h d =
    ground (arith, contains-insert_sorted y x ys, Distinct-insert_sorted x ys (ground arith) d.1)

pub sort-Distinct : (xs : List ℕ) → Distinct xs → Distinct (sort xs)
unfolding sort
sort-Distinct [] d = tt
sort-Distinct (x ∷ xs) d =
    Distinct-insert_sorted x (sort xs) (contains-sort x xs ∙ d.0) (sort-Distinct xs d.1)

pub Distinct-snoc :
    (x : ℕ) (xs : List ℕ) → contains x xs ≡ false → Distinct xs → Distinct (xs ++ x ∷ [])
unfolding contains
Distinct-snoc x [] h d = (refl, tt)
Distinct-snoc x (y ∷ ys) h d =
    (ground (arith, contains-snoc y ys, h, d.0), Distinct-snoc x ys (ground arith) d.1)
  where
    contains-snoc : (m : ℕ) (zs : List ℕ) → contains m (zs ++ x ∷ []) ≡ contains m zs || (x == m)
    contains-snoc m [] = ground arith
    contains-snoc m (z ∷ zs) = ground (arith, contains-snoc m zs)

pub not-contains-All :
    (P : ℕ → Type 0) (x : ℕ) (xs : List ℕ) → All P xs → ¬ P x → contains x xs ≡ false
unfolding contains
not-contains-All P x [] h n = refl
not-contains-All P x (y ∷ ys) h n = elim (Bool-cases (y == x)) [
  | inl e ↦ let same : y ≡ x = ground arith in absurd (n (subst P same h.0))
  | inr e ↦ rw e (not-contains-All P x ys h.1 n)
]
