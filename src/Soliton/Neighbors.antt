-- ===== src/Soliton/Neighbors.antt =====
-- What `get_neighbors` returns.
use orbit_transfer.Prelude.{
  ℕ, zero, suc, ◌+◌, ◌≤◌, ◌<◌, ◌≡◌, refl, Bool, true, false, List, [], ◌∷◌, ◌++◌, some, arith, leb,
  ltb, length, get_elem?, set, replicate, length-append, All, All-append, >>=-eq-some, Bool-cases,
  inl, inr, bit_xor, ◌∙◌,
}
use orbit_transfer.Prelude.Sorted.{
  sort, IsSorted, sort-IsSorted, sort-All, length-sort, Distinct, sort-Distinct, Distinct-snoc,
  not-contains-All, contains,
}
use orbit_transfer.Platform.{Platform, DrawsInRange}
use orbit_transfer.Soliton.{
  SolitonSampler, degree_loop, sample_loop, random_neighbors, get_neighbors,
}

abbrev pub Below : ℕ → List ℕ → Type 0
Below k = All (λ i. i < k)

-- Every neighbour drawn so far is marked in the table.
abbrev pub Marked : List Bool → List ℕ → Type 0
Marked selected = All (λ i. get_elem? selected i ≡ some true)

get-set-true :
    (selected : List Bool) (i j : ℕ)
    → get_elem? selected i ≡ some true
    → get_elem? (set selected j true) i ≡ some true
get-set-true [] i j e = e
get-set-true (b ∷ bs) zero zero e = refl
get-set-true (b ∷ bs) zero (suc j) e = e
get-set-true (b ∷ bs) (suc i) zero e = e
get-set-true (b ∷ bs) (suc i) (suc j) e = get-set-true bs i j e

get-set_self :
    (selected : List Bool) (i : ℕ) {b : Bool}
    → get_elem? selected i ≡ some b
    → get_elem? (set selected i true) i ≡ some true
get-set_self [] i e = cc
get-set_self (b ∷ bs) zero e = refl
get-set_self (b ∷ bs) (suc i) e = get-set_self bs i e

Marked-set :
    (selected : List Bool) (idx : ℕ) (neighbors : List ℕ)
    → get_elem? selected idx ≡ some false
    → Marked selected neighbors
    → Marked (set selected idx true) (neighbors ++ idx ∷ [])
Marked-set selected idx [] e m = (get-set_self selected idx e, tt)
Marked-set selected idx (n ∷ ns) e m =
    (get-set-true selected n idx m.0, Marked-set selected idx ns e m.1)

Distinct-draw :
    (selected : List Bool) (idx : ℕ) (neighbors : List ℕ)
    → get_elem? selected idx ≡ some false
    → Marked selected neighbors
    → Distinct neighbors
    → Distinct (neighbors ++ idx ∷ [])
Distinct-draw selected idx neighbors e m d =
    Distinct-snoc idx neighbors (not-contains-All _ idx neighbors m (λ h. cc)) d

module _ (p : Platform) where
  degree_loop_bounds :
      (left d : ℕ) (cdf : List p.Float) (u : p.Float) (degree : ℕ)
      → 1 ≤ d
      → degree_loop p left d cdf u ≡ some degree
      → 1 ≤ degree
  unfolding degree_loop
  degree_loop_bounds zero d cdf u degree h e = ground arith
  degree_loop_bounds (suc left) d cdf u degree h e =
      ground (arith, degree_loop_bounds left (d + 1) cdf u degree)

  module _ (in_range : DrawsInRange p) (k : ℕ) (pos : 0 < k) where
    sample_loop_result :
        (fuel seed n degree : ℕ) (selected : List Bool) (neighbors out : List ℕ)
        → Below k neighbors
        → Marked selected neighbors
        → Distinct neighbors
        → length neighbors ≤ degree
        → sample_loop p fuel seed n k degree selected neighbors ≡ some out
        → Below k out × (length out ≡ degree) × Distinct out
    unfolding sample_loop
    sample_loop_result zero seed n degree selected neighbors out h m d le e = ground arith
    sample_loop_result (suc fuel) seed n degree selected neighbors out h m d le e =
        let idx = p.gen_range seed n k in
        ground (
          arith,
          in_range seed n k pos,
          length-append neighbors (idx ∷ []),
          Marked-set selected idx neighbors,
          Distinct-draw selected idx neighbors,
          All-append _ neighbors (idx ∷ []) h (in_range seed n k pos, tt),
          sample_loop_result fuel seed (n + 1) degree selected neighbors out,
          sample_loop_result fuel seed (n + 1) degree (set selected idx true)
              (neighbors ++ idx ∷ []) out,
        )

  abbrev pub GoodNeighbors : ℕ → ℕ → List ℕ → Type 0
  GoodNeighbors k degree neighbors =
      Below k neighbors
      × IsSorted neighbors
      × Distinct neighbors
      × (length neighbors ≡ degree)
      × (1 ≤ degree)

  random_neighbors_result :
      DrawsInRange p
      → (sampler : SolitonSampler p) (seed degree : ℕ) (neighbors : List ℕ) → 0 < sampler.k
      → random_neighbors p sampler seed ≡ some (degree, neighbors)
      → GoodNeighbors sampler.k degree neighbors
  unfolding random_neighbors
  random_neighbors_result in_range sampler seed degree neighbors pos e =
      let (d, found, e1) =
        >>=-eq-some (degree_loop p sampler.k 1 sampler.cdf (p.gen_unit seed)) _ e in
      let (ns, drawn, e2) =
        >>=-eq-some (sample_loop p p.rounds seed 0 sampler.k d (replicate sampler.k false) []) _
          e1 in
      let result =
        sample_loop_result in_range sampler.k pos p.rounds seed 0 d (replicate sampler.k false) []
          ns tt tt tt (omega arith) drawn in
      let same : (d ≡ degree) × (sort ns ≡ neighbors) = (cc, cc) in
      let ed = same.0 in
      let en = same.1 in
      rw (← ed, ← en)
        (
          sort-All _ ns result.0,
          sort-IsSorted ns,
          sort-Distinct ns result.2,
          length-sort ns ∙ result.1,
          degree_loop_bounds sampler.k 1 sampler.cdf (p.gen_unit seed) d (omega arith) found,
        )

  -- Whatever the draws in range, the neighbours that `get_neighbors` returns are inputs of the
  -- sampler, in ascending order without repetition, at least one, and as many as the degree
  -- returned with them.
  pub get_neighbors_result :
      DrawsInRange p
      → (sampler : SolitonSampler p) (esi degree : ℕ) (neighbors : List ℕ) → 0 < sampler.k
      → get_neighbors p sampler esi ≡ some (degree, neighbors)
      → GoodNeighbors sampler.k degree neighbors
  unfolding get_neighbors
  get_neighbors_result in_range sampler esi degree neighbors pos e =
      elim (Bool-cases (leb sampler.k 1)) [
        | inl one ↦ unfold contains in ground arith
        | inr more ↦ elim (Bool-cases (ltb esi sampler.k)) [
          | inl systematic ↦ unfold contains in ground arith
          | inr drawn ↦
              random_neighbors_result in_range sampler (bit_xor esi 0x9E3779B97F4A7C15) degree
                neighbors pos (ground arith)
        ]
      ]

  -- An id below the number of inputs stands for that input alone.
  pub get_neighbors_systematic :
      (sampler : SolitonSampler p) (esi : ℕ)
      → 1 < sampler.k
      → esi < sampler.k
      → get_neighbors p sampler esi ≡ some (1, esi ∷ [])
  unfolding get_neighbors
  get_neighbors_systematic sampler esi many inside =
      let big : leb sampler.k 1 ≡ false = ground arith in
      let small : ltb esi sampler.k ≡ true = ground arith in rw (big, small) refl
