-- ===== src/Simd/Blocks.antt =====
-- The exclusive or of the inputs in a set, the meaning of an equation.
use orbit_transfer.Prelude.{
  ℕ, zero, suc, ◌≡◌, refl, sym, ap, ◌∙◌, true, false, List, [], ◌∷◌, some, arith, length, ◌==◌,
  Bool-cases, inl, inr, All, get_elem?,
}
use orbit_transfer.Prelude.Le.{IsBytes}
use orbit_transfer.Prelude.Sorted.{contains, remove, add}
use orbit_transfer.Simd.{xor_bytes, xor_inplace}
use orbit_transfer.Simd.Laws.{
  zeros, length-xor_bytes, xor_bytes_comm, xor_bytes_assoc, xor_bytes_self, xor_bytes_zero,
  xor_bytes-IsBytes, xor_inplace-xor_bytes,
}

-- A block of `size` bytes.
abbrev pub IsBlock : ℕ → List ℕ → Type 0
IsBlock size b = (length b ≡ size) × IsBytes b

pub zeros-IsBlock : (n : ℕ) → IsBlock n (zeros n)
zeros-IsBlock zero = (refl, tt)
zeros-IsBlock (suc n) = let (e, h) = zeros-IsBlock n in (ap suc e, (omega arith, h))

module _ (size : ℕ) where
  pub xor_bytes-IsBlock :
      (a b : List ℕ) → IsBlock size a → IsBlock size b → IsBlock size (xor_bytes a b)
  xor_bytes-IsBlock a b h k =
      (length-xor_bytes a b (h.0 ∙ sym k.0) ∙ h.0, xor_bytes-IsBytes a b h.1 k.1)

  pub xor_inplace-IsBlock :
      (a b : List ℕ) → IsBlock size a → IsBlock size b → xor_inplace a b ≡ some (xor_bytes a b)
  xor_inplace-IsBlock a b h k = xor_inplace-xor_bytes a b (h.0 ∙ sym k.0) h.1 k.1

  pub xor_zero_right : (a : List ℕ) → IsBlock size a → xor_bytes a (zeros size) ≡ a
  xor_zero_right a h = ap (λ n. xor_bytes a (zeros n)) (sym h.0) ∙ xor_bytes_zero a

  -- Adding a block twice is adding nothing.
  pub xor_cancel :
      (a b : List ℕ) → IsBlock size a → IsBlock size b → xor_bytes (xor_bytes a b) b ≡ a
  xor_cancel a b h k =
      xor_bytes_assoc a b b
      ∙ ap (xor_bytes a) (xor_bytes_self b ∙ ap zeros k.0)
      ∙ xor_zero_right a h

-- The exclusive or of the blocks of a list of inputs.
unfoldable pub xor_all : ℕ → (ℕ → List ℕ) → List ℕ → List ℕ
xor_all size truth [] = zeros size
xor_all size truth (n ∷ ns) = xor_bytes (truth n) (xor_all size truth ns)

module _ (size : ℕ) (truth : ℕ → List ℕ) (fits : (i : ℕ) → IsBlock size (truth i)) where
  pub xor_all-IsBlock : (ns : List ℕ) → IsBlock size (xor_all size truth ns)
  unfolding xor_all
  xor_all-IsBlock [] = zeros-IsBlock size
  xor_all-IsBlock (n ∷ ns) =
      xor_bytes-IsBlock size (truth n) (xor_all size truth ns) (fits n) (xor_all-IsBlock ns)

  pub xor_all-one : (n : ℕ) → xor_all size truth (n ∷ []) ≡ truth n
  unfolding xor_all
  xor_all-one n = xor_zero_right size (truth n) (fits n)

  pub xor_all-remove :
      (i : ℕ) (ns : List ℕ)
      → contains i ns ≡ true
      → xor_bytes (xor_all size truth ns) (truth i) ≡ xor_all size truth (remove i ns)
  unfolding xor_all contains remove
  xor_all-remove i [] h = cc
  xor_all-remove i (n ∷ ns) h = elim (Bool-cases (n == i)) [
    | inl e ↦
        let same : n ≡ i = ground arith in
        rw e (
          ap (λ t. xor_bytes t (truth i)) (xor_bytes_comm (truth n) (xor_all size truth ns))
          ∙ ap (λ t. xor_bytes (xor_bytes (xor_all size truth ns) (truth t)) (truth i)) same
          ∙ xor_cancel size (xor_all size truth ns) (truth i) (xor_all-IsBlock ns) (fits i))
    | inr e ↦ rw e (
        xor_bytes_assoc (truth n) (xor_all size truth ns) (truth i)
        ∙ ap (xor_bytes (truth n)) (xor_all-remove i ns (ground arith)))
  ]

  pub xor_all-add :
      (n : ℕ) (ns : List ℕ)
      → contains n ns ≡ false
      → xor_all size truth (add n ns) ≡ xor_bytes (xor_all size truth ns) (truth n)
  unfolding xor_all contains add
  xor_all-add n [] h = xor_bytes_comm (truth n) (zeros size)
  xor_all-add n (m ∷ ns) h = elim (Bool-cases (m == n)) [
    | inl e ↦ absurd (ground arith)
    | inr e ↦ rw e (
        ap (xor_bytes (truth m)) (xor_all-add n ns (ground arith))
        ∙ sym (xor_bytes_assoc (truth m) (xor_all size truth ns) (truth n)))
  ]

-- The `n`-th block of a list, and zeros past its end.
abbrev pub block_at : ℕ → List (List ℕ) → ℕ → List ℕ
block_at size [] n = zeros size
block_at size (b ∷ bs) zero = b
block_at size (b ∷ bs) (suc n) = block_at size bs n

pub block_at-IsBlock :
    (size : ℕ) (bs : List (List ℕ)) (n : ℕ)
    → All (IsBlock size) bs
    → IsBlock size (block_at size bs n)
block_at-IsBlock size [] n h = zeros-IsBlock size
block_at-IsBlock size (b ∷ bs) zero h = h.0
block_at-IsBlock size (b ∷ bs) (suc n) h = block_at-IsBlock size bs n h.1

pub block_at-get_elem? :
    (size : ℕ) (bs : List (List ℕ)) (n : ℕ) {b : List ℕ}
    → get_elem? bs n ≡ some b
    → block_at size bs n ≡ b
block_at-get_elem? size [] n e = cc
block_at-get_elem? size (c ∷ bs) zero e = ground arith
block_at-get_elem? size (c ∷ bs) (suc n) e = block_at-get_elem? size bs n e
