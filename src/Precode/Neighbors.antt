-- ===== src/Precode/Neighbors.antt =====
-- The inputs that a check covers: in range, ascending and without repetition.
use orbit_transfer.Prelude.{
  ℕ, zero, suc, ◌+◌, ◌/◌, ◌%◌, ◌≤◌, ◌<◌, ◌≡◌, refl, ◌∙◌, Bool, true, false, List, [], ◌∷◌, ◌++◌,
  some, arith, length, set, get_elem?, replicate, length-set, length-replicate, All, All-append,
  if◌then◌else◌, >>=-eq-some,
}
use orbit_transfer.Prelude.Sorted.{
  sort, dedup, sort-All, dedup-All, sort-IsSorted, dedup-IsStrict, IsStrict, StrictFrom,
}
use orbit_transfer.Platform.{Platform}
use orbit_transfer.Precode.{
  strided, precode_neighbors, select_loop, chosen, hdpc_seed, hdpc_neighbors,
}

-- Sorted, without repetition and below `k`: what the tests of the source call "in range and
-- deduped".
abbrev pub IsCover : ℕ → List ℕ → Type 0
IsCover k ns = IsStrict ns × All (λ n. n < k) ns

strided-All : (fuel k s j : ℕ) → All (λ n. n < k) (strided fuel k s j)
unfolding strided
strided-All zero k s j = tt
strided-All (suc fuel) k s j = ground (arith, strided-All fuel k s (j + s))

-- For every check of a transfer with at least one source symbol, `precode_neighbors` returns
-- source indices in strictly ascending order.
pub precode_neighbors-IsCover :
    (k s i : ℕ) → 0 < k → (ns : List ℕ) × (precode_neighbors k s i ≡ some ns) × IsCover k ns
unfolding precode_neighbors
precode_neighbors-IsCover k s i pos =
    let raw = strided k k s i ++ (i % k ∷ (i + 1) % k ∷ []) in
    (
      dedup (sort raw),
      ground arith,
      (
        dedup-IsStrict (sort raw) (sort-IsSorted raw),
        dedup-All _ (sort raw) (
            sort-All _ raw (
              All-append _ (strided k k s i) _ (strided-All k k s i)
                (omega arith, (omega arith, tt)))),
      ),
    )

chosen-StrictFrom : (j : ℕ) (bs : List Bool) → StrictFrom j (chosen (j + 1) bs)
unfolding chosen
chosen-StrictFrom j [] = tt
chosen-StrictFrom j (true ∷ bs) = (omega arith, chosen-StrictFrom (j + 1) bs)
chosen-StrictFrom j (false ∷ bs) =
    StrictFrom-weaken j (j + 1) (chosen (j + 1 + 1) bs) (omega arith) (chosen-StrictFrom (j + 1) bs)
  where
    StrictFrom-weaken : (a b : ℕ) (xs : List ℕ) → a ≤ b → StrictFrom b xs → StrictFrom a xs
    StrictFrom-weaken a b [] h s = tt
    StrictFrom-weaken a b (x ∷ xs) h s = (omega (arith, s.0), s.1)

chosen-IsStrict : (j : ℕ) (bs : List Bool) → IsStrict (chosen j bs)
unfolding chosen
chosen-IsStrict j [] = tt
chosen-IsStrict j (true ∷ bs) = chosen-StrictFrom j bs
chosen-IsStrict j (false ∷ bs) = chosen-IsStrict (j + 1) bs

chosen-All : (j l : ℕ) (bs : List Bool) → j + length bs ≤ l → All (λ n. n < l) (chosen j bs)
unfolding chosen
chosen-All j l [] h = tt
chosen-All j l (true ∷ bs) h = (omega arith, chosen-All (j + 1) l bs (omega arith))
chosen-All j l (false ∷ bs) h = chosen-All (j + 1) l bs (omega arith)

-- How many entries are marked.
abbrev marks : List Bool → ℕ
marks [] = 0
marks (b ∷ bs) = (if b then 1 else 0) + marks bs

length-chosen : (j : ℕ) (bs : List Bool) → length (chosen j bs) ≡ marks bs
unfolding chosen
length-chosen j [] = refl
length-chosen j (true ∷ bs) = omega (arith, length-chosen (j + 1) bs)
length-chosen j (false ∷ bs) = omega (arith, length-chosen (j + 1) bs)

marks-set :
    (bs : List Bool) (i : ℕ) → get_elem? bs i ≡ some false → marks (set bs i true) ≡ suc (marks bs)
marks-set [] i e = cc
marks-set (b ∷ bs) zero e = ground arith
marks-set (b ∷ bs) (suc i) e = omega (arith, marks-set bs i e)

marks-replicate : (n : ℕ) → marks (replicate n false) ≡ 0
marks-replicate zero = refl
marks-replicate (suc n) = omega (arith, marks-replicate n)

module _ (p : Platform) where
  select_loop_result :
      (fuel seed n l target : ℕ) (selected : List Bool) (count : ℕ) (out : List Bool)
      → marks selected ≡ count
      → count ≤ target
      → select_loop p fuel seed n l target selected count ≡ some out
      → (length out ≡ length selected) × (marks out ≡ target)
  unfolding select_loop
  select_loop_result zero seed n l target selected count out m le e = ground arith
  select_loop_result (suc fuel) seed n l target selected count out m le e =
      let idx = p.gen_range seed n l in
      ground (
        arith,
        marks-set selected idx,
        length-set selected idx true,
        select_loop_result fuel seed (n + 1) l target selected count out,
        select_loop_result fuel seed (n + 1) l target (set selected idx true) (count + 1) out,
      )

  -- An HDPC check covers exactly `(k + s) / 2 + 1` inputs, in strictly ascending order and all of
  -- them below `k + s`, when its draws end.
  pub hdpc_neighbors-IsCover :
      (k s h i : ℕ) (ns : List ℕ)
      → hdpc_neighbors p k s h i ≡ some ns
      → IsCover (k + s) ns × (length ns ≡ (k + s) / 2 + 1)
  unfolding hdpc_neighbors
  hdpc_neighbors-IsCover k s h i ns e =
      let l = k + s in
      let (selected, drawn, found) =
        >>=-eq-some (select_loop p p.rounds (hdpc_seed l i) 0 l (l / 2 + 1) (replicate l false) 0) _
          e in
      let result =
        select_loop_result p.rounds (hdpc_seed l i) 0 l (l / 2 + 1) (replicate l false) 0 selected
          (marks-replicate l) (omega arith) drawn in
      let same : chosen 0 selected ≡ ns = cc in
      rw (← same) (
        (
          chosen-IsStrict 0 selected,
          chosen-All 0 l selected (omega (arith, result.0, length-replicate l false)),
        ),
        length-chosen 0 selected ∙ result.1,
      )
