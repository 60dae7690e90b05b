-- ===== src/Decoder/Unresolved.antt =====
-- The map of resolved inputs, and the count of the inputs that are still to be resolved.
use orbit_transfer.Prelude.{
  ℕ, zero, suc, ◌+◌, ◌≤◌, ◌<◌, ◌≡◌, refl, true, false, List, [], ◌∷◌, some, none, arith, ◌==◌,
  if◌then◌else◌, Bool-cases, inl, inr,
}
use orbit_transfer.Decoder.{Resolved, lookup, has}

-- How many of the inputs below `l` are not resolved.
unfoldable pub unresolved : ℕ → Resolved → ℕ
unresolved zero m = 0
unresolved (suc l) m = (if has l m then 0 else 1) + unresolved l m

pub unresolved-nil : (l : ℕ) → unresolved l [] ≡ l
unfolding unresolved has
unresolved-nil zero = refl
unresolved-nil (suc l) = omega (arith, unresolved-nil l)

unresolved-insert_above :
    (l n : ℕ) (b : List ℕ) (m : Resolved) → l ≤ n → unresolved l ((n, b) ∷ m) ≡ unresolved l m
unfolding unresolved has
unresolved-insert_above zero n b m h = refl
unresolved-insert_above (suc l) n b m h = ground (arith, unresolved-insert_above l n b m)

-- Resolving an open input leaves one fewer.
pub unresolved-insert :
    (l n : ℕ) (b : List ℕ) (m : Resolved)
    → n < l
    → has n m ≡ false
    → suc (unresolved l ((n, b) ∷ m)) ≡ unresolved l m
unfolding unresolved has
unresolved-insert zero n b m h e = absurd (omega arith)
unresolved-insert (suc l) n b m h e =
    ground (arith, unresolved-insert l n b m, unresolved-insert_above l n b m)

-- When none is open, every input has its block.
pub unresolved_none : (l i : ℕ) (m : Resolved) → unresolved l m ≡ 0 → i < l → has i m ≡ true
unfolding unresolved
unresolved_none zero i m e h = absurd (omega arith)
unresolved_none (suc l) i m e h = ground (arith, unresolved_none l i m)

pub lookup-has : (i : ℕ) (m : Resolved) → has i m ≡ true → (b : List ℕ) × (lookup i m ≡ some b)
unfolding lookup has
lookup-has i [] h = cc
lookup-has i ((j, b) ∷ m) h = elim (Bool-cases (j == i)) [
  | inl e ↦ (b, rw e refl)
  | inr e ↦ let (c, found) = lookup-has i m (ground arith) in (c, rw e found)
]

pub lookup-has-none : (i : ℕ) (m : Resolved) → lookup i m ≡ none → has i m ≡ false
unfolding lookup has
lookup-has-none i [] h = refl
lookup-has-none i ((j, b) ∷ m) h = ground (arith, lookup-has-none i m)
