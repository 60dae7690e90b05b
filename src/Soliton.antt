-- ===== src/Soliton.antt =====
-- crates/orbit-fountain/src/soliton.rs: the robust soliton table and the neighbours of an encoding
-- symbol id. The floating point operations are those of `Platform`. `none` is a panic, or draws
-- past `rounds`.
pub mod Neighbors
use orbit_transfer.Prelude.{
  ℕ, zero, suc, ◌+◌, ◌-◌, ◌*◌, ◌≤◌, bit_xor, Bool, true, false, List, [], ◌∷◌, ◌++◌, Option, none,
  some, leb, ltb, ◌==◌, if◌then◌else◌, length, get_elem?, set, replicate, ◌>>=◌,
}
use orbit_transfer.Prelude.Sorted.{sort}
use orbit_transfer.Platform.{Platform}

module _ (p : Platform) where
  open p use {Float, of_ℕ, ratio, mul, div, ln, sqrt, round}

  -- Ideal soliton plus the robust modifier `tau`, at degree `d` from 1 on.
  unfoldable pub pdf_at : ℕ → Float → Float → ℕ → ℕ → Float
  pdf_at k s delta pivot d = p.add ideal tau
    where
      ideal : Float
      ideal = if d == 1 then div (of_ℕ 1) (of_ℕ k) else div (of_ℕ 1) (of_ℕ (d * (d - 1)))

      tau : Float
      tau =
          if ltb d pivot
          then div s (mul (of_ℕ d) (of_ℕ k))
          else if d == pivot
          then div (mul s (ln (div s delta))) (of_ℕ k)
          else of_ℕ 0

  -- `for d in d..d+left { z += pdf[d]; }`.
  unfoldable pub sum_loop : ℕ → ℕ → (ℕ → Float) → Float → Float
  sum_loop zero d pdf z = z
  sum_loop (suc left) d pdf z = sum_loop left (d + 1) pdf (p.add z (pdf d))

  -- The entries `cdf[d]` to `cdf[d + left - 1]`.
  unfoldable pub cdf_loop : ℕ → ℕ → (ℕ → Float) → Float → Float → List Float
  cdf_loop zero d pdf z cumulative = []
  cdf_loop (suc left) d pdf z cumulative =
      let next = p.add cumulative (div (pdf d) z) in next ∷ cdf_loop left (d + 1) pdf z next

  unfoldable pub build_robust_soliton_cdf : ℕ → Float → Float → List Float
  unfolding pdf_at sum_loop cdf_loop
  build_robust_soliton_cdf k c delta =
      let s = mul (mul c (ln (div (of_ℕ k) delta))) (sqrt (of_ℕ k)) in
      let pivot = round (div (of_ℕ k) s) in
      let pdf = λ (d : ℕ). pdf_at k s delta pivot d in
      let z = sum_loop k 1 pdf (of_ℕ 0) in
      if leb k 1 then of_ℕ 1 ∷ [] else set (of_ℕ 0 ∷ cdf_loop k 1 pdf z (of_ℕ 0)) k (of_ℕ 1)

-- The table is kept with its size.
pub record SolitonSampler (p : Platform) : Type 0 where
  pub k : ℕ
  pub cdf : List p.Float

module _ (p : Platform) where
  unfoldable pub new : ℕ → SolitonSampler p
  unfolding build_robust_soliton_cdf
  new k = record { k = k; cdf = build_robust_soliton_cdf p k (p.ratio 1 10) (p.ratio 5 100) }

  -- `for d in 1..=k { if u <= cdf[d] { degree = d; break; } }`, from `d` on; an index past the
  -- table is a panic.
  unfoldable pub degree_loop : ℕ → ℕ → List p.Float → p.Float → Option ℕ
  degree_loop zero d cdf u = some 1
  degree_loop (suc left) d cdf u =
      let rest = degree_loop left (d + 1) cdf u in
      elim (get_elem? cdf d) [ none ↦ none | some x ↦ if p.leb u x then some d else rest ]

  -- `while neighbors.len() < degree`, from the `n`-th draw on.
  unfoldable pub sample_loop : ℕ → ℕ → ℕ → ℕ → ℕ → List Bool → List ℕ → Option (List ℕ)
  sample_loop zero seed n k degree selected neighbors =
      if leb degree (length neighbors) then some neighbors else none
  sample_loop (suc fuel) seed n k degree selected neighbors =
      let idx = p.gen_range seed n k in
      let again = sample_loop fuel seed (n + 1) k degree selected neighbors in
      let taken =
        sample_loop fuel seed (n + 1) k degree (set selected idx true) (neighbors ++ idx ∷ []) in
      if leb degree (length neighbors)
      then some neighbors
      else elim (get_elem? selected idx) [ none ↦ none | some old ↦ if old then again else taken ]

  unfoldable pub random_neighbors : SolitonSampler p → ℕ → Option (ℕ × List ℕ)
  unfolding degree_loop sample_loop sort
  random_neighbors sampler seed = do
    degree ← degree_loop sampler.k 1 sampler.cdf (p.gen_unit seed)
    neighbors ← sample_loop p.rounds seed 0 sampler.k degree (replicate sampler.k false) []
    some (degree, sort neighbors)

  unfoldable pub get_neighbors : SolitonSampler p → ℕ → Option (ℕ × List ℕ)
  unfolding random_neighbors
  get_neighbors sampler esi =
      if leb sampler.k 1
      then some (1, 0 ∷ [])
      else if ltb esi sampler.k
      then some (1, esi ∷ [])
      else random_neighbors sampler (bit_xor esi 0x9E3779B97F4A7C15)
