-- ===== src/Platform.antt =====
-- Third-party code that the fountain crate calls, as parameters: the `rand_chacha` generator, the
-- `xxh3` hash, and IEEE floating point, which antt has not.
use orbit_transfer.Prelude.{ℕ, ◌<◌, Bool, List}

-- `gen_unit seed` is the first `f64` of the stream with that seed, and `gen_range seed n b` the
-- index below `b` that the `n`-th call of `gen_range(0..b)` gives. `rounds` bounds the draws that
-- the model follows: where the code draws for longer, the model gives `none`.
pub record Platform : Type 1 where
  pub Float : Type 0
  pub of_ℕ : ℕ → Float
  -- The quotient of two whole numbers, for the constants.
  pub ratio : ℕ → ℕ → Float
  pub add : Float → Float → Float
  pub mul : Float → Float → Float
  pub div : Float → Float → Float
  pub ln : Float → Float
  pub sqrt : Float → Float
  pub round : Float → ℕ
  pub leb : Float → Float → Bool
  pub gen_unit : ℕ → Float
  pub gen_range : ℕ → ℕ → ℕ → ℕ
  pub xxh3_64 : List ℕ → ℕ
  pub rounds : ℕ

-- The documented range of `Rng::gen_range`.
abbrev pub DrawsInRange : Platform → Type 0
DrawsInRange p = (seed n bound : ℕ) → 0 < bound → p.gen_range seed n bound < bound
