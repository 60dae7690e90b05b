-- ===== src/Examples/Platforms.antt =====
-- A concrete platform, and a sampler on it.
use orbit_transfer.Prelude.{ℕ, ◌+◌, ◌%◌, [], ◌∷◌, arith, leb, length}
use orbit_transfer.Platform.{Platform, DrawsInRange}
use orbit_transfer.Soliton.{SolitonSampler}

-- A platform whose generator counts and whose floating point is that of whole numbers.
abbrev pub counting : Platform
counting = record {
  Float = ℕ;
  of_ℕ = λ n. n;
  ratio = λ a b. a;
  add = ◌+◌;
  mul = λ a b. a;
  div = λ a b. a;
  ln = λ a. a;
  sqrt = λ a. a;
  round = λ a. a;
  leb = leb;
  gen_unit = λ seed. 1;
  gen_range = λ seed n bound. n % bound;
  xxh3_64 = λ bytes. length bytes;
  rounds = 50;
}

pub counting-DrawsInRange : DrawsInRange counting
counting-DrawsInRange seed n bound h = omega arith

abbrev pub sampler : SolitonSampler counting
sampler = record { k = 8; cdf = 0 ∷ 2 ∷ 4 ∷ 6 ∷ 8 ∷ 10 ∷ 12 ∷ 14 ∷ 1 ∷ [] }
