-- ===== src/Examples/CodeRuns.antt =====
-- The parts of the fountain crate on small inputs.
use orbit_transfer.Prelude.{ℕ, ◌+◌, ◌≡◌, refl, List, [], ◌∷◌, some, arith}
use orbit_transfer.Prelude.Le.{IsBytes}
use orbit_transfer.Simd.{xor_bytes, xor_inplace, xor_loop}
use orbit_transfer.Simd.Laws.{xor_inplace-xor_bytes}
use orbit_transfer.Precode.{build_precoded, s_for, h_for}
use orbit_transfer.Precode.Counts.{LeastFrom, h_for-LeastFrom}
use orbit_transfer.Precode.Build.{IsPrecoded, build_precoded-IsPrecoded}
use orbit_transfer.Soliton.{get_neighbors}
use orbit_transfer.Soliton.Neighbors.{GoodNeighbors, get_neighbors_result}
use orbit_transfer.Examples.Platforms.{counting, counting-DrawsInRange, sampler}

abbrev nine_bytes : List ℕ
nine_bytes = 1 ∷ 2 ∷ 3 ∷ 4 ∷ 5 ∷ 6 ∷ 7 ∷ 8 ∷ 9 ∷ []

nine_bytes-IsBytes : IsBytes nine_bytes
nine_bytes-IsBytes = omega arith

xor_inplace-xor_bytes_example :
    xor_inplace nine_bytes nine_bytes ≡ some (xor_bytes nine_bytes nine_bytes)
xor_inplace-xor_bytes_example =
    xor_inplace-xor_bytes nine_bytes nine_bytes refl nine_bytes-IsBytes nine_bytes-IsBytes

abbrev source : List (List ℕ)
source = (1 ∷ 2 ∷ []) ∷ (3 ∷ 0 ∷ []) ∷ []

abbrev built : List (List ℕ)
built =
    (1 ∷ 2 ∷ [])
    ∷ (3 ∷ 0 ∷ [])
    ∷ (2 ∷ 2 ∷ [])
    ∷ (2 ∷ 2 ∷ [])
    ∷ (0 ∷ 0 ∷ [])
    ∷ (0 ∷ 0 ∷ [])
    ∷ (0 ∷ 0 ∷ [])
    ∷ (0 ∷ 0 ∷ [])
    ∷ []

build_precoded-IsPrecoded_example : IsPrecoded 2 counting source 2 4 built
unfolding build_precoded xor_loop
build_precoded-IsPrecoded_example =
    build_precoded-IsPrecoded 2 counting source 2 4 built (omega arith) refl

get_neighbors_result_example : GoodNeighbors counting 8 1 (3 ∷ [])
unfolding get_neighbors
get_neighbors_result_example =
    get_neighbors_result counting counting-DrawsInRange sampler 3 1 (3 ∷ []) (omega arith) refl

h_for-LeastFrom_example : LeastFrom 1 (100 + s_for 100) (h_for 100)
h_for-LeastFrom_example = h_for-LeastFrom 100
