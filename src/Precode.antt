-- ===== src/Precode.antt =====
-- crates/orbit-fountain/src/precode.rs: how many LDPC and HDPC check symbols there are, which
-- inputs each covers, and the list of source and check symbols. `none` is a panic, or draws past
-- `rounds`.
pub mod Neighbors
pub mod Checks
pub mod Build
pub mod Choose
pub mod Counts
use orbit_transfer.Prelude.{
  ℕ, zero, suc, ◌+◌, ◌-◌, ◌*◌, ◌/◌, ◌%◌, ◌^◌, min, bit_xor, Bool, true, false, List, [], ◌∷◌, ◌++◌,
  Option, none, some, leb, ltb, ◌==◌, if◌then◌else◌, length, get_elem?, set, replicate, ◌>>=◌,
}
use Prim.Native.Nat.{max}
use orbit_transfer.Prelude.Sorted.{sort, dedup}
use orbit_transfer.Platform.{Platform}
use orbit_transfer.Simd.{xor_inplace}

unfoldable pub s_for : ℕ → ℕ
s_for k = if leb k 2 then 2 else max (k / 100 + 10) 2

-- The loop of `binomial` at `i`, with `left` rounds to go.
unfoldable pub binomial_loop : ℕ → ℕ → ℕ → ℕ → ℕ
binomial_loop zero i n c = c
binomial_loop (suc left) i n c = binomial_loop left (i + 1) n (c * (n - i) / (i + 1))

unfoldable pub binomial : ℕ → ℕ → ℕ
unfolding binomial_loop
binomial n k = binomial_loop (min k (n - k)) 0 n 1

-- `while h <= 256`, with `left` rounds to go.
unfoldable pub h_loop : ℕ → ℕ → ℕ → ℕ
unfolding binomial
h_loop zero h l = 256
h_loop (suc left) h l =
    let rest = h_loop left (h + 1) l in if leb l (binomial h (h / 2)) then h else rest

unfoldable pub h_for : ℕ → ℕ
unfolding s_for h_loop
h_for k = h_loop 256 1 (k + s_for k)

-- `while j < k { n.push(j); j += s; }`. With `0 < s` at most `k` rounds are made.
unfoldable pub strided : ℕ → ℕ → ℕ → ℕ → List ℕ
strided zero k s j = []
strided (suc fuel) k s j = let rest = strided fuel k s (j + s) in if ltb j k then j ∷ rest else []

-- A remainder by zero panics.
unfoldable pub precode_neighbors : ℕ → ℕ → ℕ → Option (List ℕ)
unfolding strided sort dedup
precode_neighbors k s i =
    if k == 0 then none else some (dedup (sort (strided k k s i ++ (i % k ∷ (i + 1) % k ∷ []))))

-- `while count < target`, from the `n`-th draw on.
unfoldable pub select_loop : Platform → ℕ → ℕ → ℕ → ℕ → ℕ → List Bool → ℕ → Option (List Bool)
select_loop p zero seed n l target selected count = if leb target count then some selected else none
select_loop p (suc fuel) seed n l target selected count =
    let idx = p.gen_range seed n l in
    let again = select_loop p fuel seed (n + 1) l target selected count in
    let taken = select_loop p fuel seed (n + 1) l target (set selected idx true) (count + 1) in
    if leb target count
    then some selected
    else elim (get_elem? selected idx) [ none ↦ none | some old ↦ if old then again else taken ]

-- `(0..l).filter(|&j| selected[j])`, from `j` on.
unfoldable pub chosen : ℕ → List Bool → List ℕ
chosen j [] = []
chosen j (b ∷ bs) = let rest = chosen (j + 1) bs in if b then j ∷ rest else rest

unfoldable pub hdpc_seed : ℕ → ℕ → ℕ
hdpc_seed l i = bit_xor (bit_xor (i % 2 ^ 64) 0x9E3779B97F4A7C15) (l % 2 ^ 64 * 0x85EBCA6B % 2 ^ 64)

-- `(l as f64 * 0.5) as usize + 1` is `l / 2 + 1` for `l` below 2 ^ 53.
unfoldable pub hdpc_neighbors : Platform → ℕ → ℕ → ℕ → ℕ → Option (List ℕ)
unfolding select_loop chosen hdpc_seed
hdpc_neighbors p k s h i = do
  let l = k + s
  selected ← select_loop p p.rounds (hdpc_seed l i) 0 l (l / 2 + 1) (replicate l false) 0
  some (chosen 0 selected)

-- `for &n in &neighbors { xor_inplace(&mut data, &blocks[n]); }`.
unfoldable pub xor_over : List (List ℕ) → List ℕ → List ℕ → Option (List ℕ)
unfolding xor_inplace
xor_over blocks acc [] = some acc
xor_over blocks acc (n ∷ ns) = do
  block ← get_elem? blocks n
  next ← xor_inplace acc block
  xor_over blocks next ns

-- The LDPC checks from check `i` on, pushed behind `precoded`.
unfoldable pub push_ldpc : ℕ → ℕ → ℕ → ℕ → List (List ℕ) → List (List ℕ) → Option (List (List ℕ))
unfolding precode_neighbors xor_over
push_ldpc zero i s size source precoded = some precoded
push_ldpc (suc left) i s size source precoded = do
  neighbors ← precode_neighbors (length source) s i
  block ← xor_over source (replicate size 0) neighbors
  push_ldpc left (i + 1) s size source (precoded ++ block ∷ [])

-- The HDPC checks from check `i` on; each covers what is there when it is computed.
unfoldable pub push_hdpc : Platform → ℕ → ℕ → ℕ → ℕ → ℕ → ℕ → List (List ℕ) → Option (List (List ℕ))
unfolding hdpc_neighbors xor_over
push_hdpc p zero i k s h size precoded = some precoded
push_hdpc p (suc left) i k s h size precoded = do
  neighbors ← hdpc_neighbors p k s h i
  block ← xor_over precoded (replicate size 0) neighbors
  push_hdpc p left (i + 1) k s h size (precoded ++ block ∷ [])

unfoldable pub build_precoded : Platform → List (List ℕ) → ℕ → ℕ → ℕ → Option (List (List ℕ))
unfolding push_ldpc push_hdpc
build_precoded p source s h size = do
  with_ldpc ← push_ldpc s 0 s size source source
  push_hdpc p h 0 (length source) s h size with_ldpc
