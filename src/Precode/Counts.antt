-- ===== src/Precode/Counts.antt =====
-- The number of HDPC checks, `h_for` of crates/orbit-fountain/src/precode.rs.
use orbit_transfer.Prelude.{
  ℕ, zero, suc, ◌+◌, ◌/◌, ◌≤◌, ◌<◌, ◌≡◌, refl, true, false, ap, ◌∙◌, subst, ◌⊎◌, inl, inr, leb,
  leb→le, arith, Bool-cases,
}
use orbit_transfer.Precode.Choose.{choose, binomial-choose}
use orbit_transfer.Precode.{binomial, h_loop, h_for, s_for}

-- `h` checks are enough for `l` inputs by the rule `C(h, h / 2) >= l`, or as many as there may be, and
-- no smaller number from `low` on is enough.
abbrev pub LeastFrom : ℕ → ℕ → ℕ → Type 0
LeastFrom low l h =
    ((j : ℕ) → low ≤ j → j < h → choose j (j / 2) < l) × ((l ≤ choose h (h / 2)) ⊎ (h ≡ 256))

enough-choose : (l h : ℕ) → leb l (binomial h (h / 2)) ≡ leb l (choose h (h / 2))
enough-choose l h = ap (leb l) (binomial-choose h)

h_loop-LeastFrom : (left h l : ℕ) → h + left ≡ 257 → LeastFrom h l (h_loop left h l)
unfolding h_loop
h_loop-LeastFrom zero h l e = ((λ j low high. absurd (omega arith)), inr refl)
h_loop-LeastFrom (suc left) h l e = elim (Bool-cases (leb l (choose h (h / 2)))) [
  | inl enough ↦
      let stops : leb l (binomial h (h / 2)) ≡ true = enough-choose l h ∙ enough in
      rw (stops, h_loop) ((λ j low high. absurd (omega arith)), inl (leb→le _ _ enough))
  | inr few ↦
      let goes_on : leb l (binomial h (h / 2)) ≡ false = enough-choose l h ∙ few in
      let (later, result) = h_loop-LeastFrom left (h + 1) l (omega arith) in
      rw (goes_on, h_loop)
        (
          (λ j low high. elim (Bool-cases (leb j h)) [
            | inl here ↦
                let same : h ≡ j = omega (arith, leb→le j h here) in
                subst (λ i. choose i (i / 2) < l) same (ground arith)
            | inr after ↦ later j (ground arith) high
          ]),
          result,
        )
]

-- `h_for` returns the least `h` from 1 on with `C(h, h / 2)`, the binomial coefficient of Pascal's
-- triangle, at least `k + s_for k`, or 256 when no number below 256 is enough.
pub h_for-LeastFrom : (k : ℕ) → LeastFrom 1 (k + s_for k) (h_for k)
unfolding h_for
h_for-LeastFrom k = h_loop-LeastFrom 256 1 (k + s_for k) (omega arith)
