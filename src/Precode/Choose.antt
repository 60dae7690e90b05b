-- ===== src/Precode/Choose.antt =====
-- `binomial` of crates/orbit-fountain/src/precode.rs computes binomial coefficients.
use orbit_transfer.Prelude.{
  ℕ, zero, suc, ◌+◌, ◌-◌, ◌*◌, ◌/◌, ◌≤◌, ◌<◌, ◌≡◌, refl, sym, ap, ◌∙◌, min, arith,
}
use native.Mathlib.Nat.{mul-div_cancel}
use orbit_transfer.Precode.{binomial_loop, binomial}

-- Pascal's triangle.
unfoldable pub choose : ℕ → ℕ → ℕ
choose n zero = 1
choose zero (suc k) = 0
choose (suc n) (suc k) = choose n k + choose n (suc k)

choose_above : (n k : ℕ) → n < k → choose n k ≡ 0
unfolding choose
choose_above n zero h = absurd (omega arith)
choose_above zero (suc k) h = refl
choose_above (suc n) (suc k) h =
    let left = choose_above n k (omega arith) in
    let right = choose_above n (suc k) (omega arith) in omega arith

-- The step from one entry of a row to the next.
choose_step : (n k d : ℕ) → k + d ≡ n → choose n (suc k) * suc k ≡ choose n k * d
unfolding choose
choose_step zero zero d e = let none_ : d ≡ 0 = omega arith in rw none_ refl
choose_step zero (suc k) d e = absurd (omega arith)
choose_step (suc n) zero d e = let row = choose_step n zero n (omega arith) in omega arith
choose_step (suc n) (suc k) zero e =
    let left = choose_above n (suc k) (omega arith) in
    let right = choose_above n (suc (suc k)) (omega arith) in rw (left, right) (omega arith)
choose_step (suc n) (suc k) (suc d) e =
    let left = choose_step n k (suc d) (omega arith) in
    let right = choose_step n (suc k) d (omega arith) in omega arith

binomial_loop-choose :
    (left i n c : ℕ)
    → i + left ≤ n
    → c ≡ choose n i
    → binomial_loop left i n c ≡ choose n (i + left)
unfolding binomial_loop
binomial_loop-choose zero i n c fits e =
    let same : i ≡ i + 0 = omega arith in e ∙ ap (choose n) same
binomial_loop-choose (suc left) i n c fits e =
    let up : choose n (suc i) * suc i ≡ choose n i * (n - i) =
      choose_step n i (n - i) (omega arith) in
    let next : c * (n - i) / (i + 1) ≡ choose n (i + 1) =
      let after : suc i ≡ i + 1 = omega arith in
      let product : c * (n - i) ≡ choose n (i + 1) * (i + 1) =
        ap (λ x. x * (n - i)) e ∙ sym up ∙ ap (λ x. choose n x * x) after in
      ap (λ x. x / (i + 1)) product ∙ mul-div_cancel (choose n (i + 1)) (omega arith) in
    let same : (i + 1) + left ≡ i + suc left = omega arith in
    binomial_loop-choose left (i + 1) n (c * (n - i) / (i + 1)) (omega arith) next
    ∙ ap (choose n) same

-- `binomial` at the middle of a row is the entry of Pascal's triangle.
pub binomial-choose : (n : ℕ) → binomial n (n / 2) ≡ choose n (n / 2)
unfolding binomial choose
binomial-choose n =
    let half : min (n / 2) (n - n / 2) ≡ n / 2 = omega arith in
    let same : 0 + n / 2 ≡ n / 2 = omega arith in
    rw half (binomial_loop-choose (n / 2) 0 n 1 (omega arith) refl ∙ ap (choose n) same)
