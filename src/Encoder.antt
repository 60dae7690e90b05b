-- ===== src/Encoder.antt =====
-- crates/orbit-fountain/src/encoder.rs: the payload cut into symbols, the precoded list, and the
-- symbol of an encoding symbol id. `none` is a panic, or draws past `rounds`.
pub mod Symbols
use orbit_transfer.Prelude.{
  ℕ, zero, suc, ◌+◌, ◌-◌, ◌*◌, ◌/◌, min, List, [], ◌∷◌, ◌++◌, Option, none, some, ltb, ◌==◌,
  if◌then◌else◌, length, get_elem?, take, drop, replicate, ◌>>=◌,
}
use orbit_transfer.Platform.{Platform}
use orbit_transfer.Simd.{xor_into}
use orbit_transfer.Precode.{s_for, h_for, xor_over, build_precoded}
use orbit_transfer.Soliton
use orbit_transfer.Soliton.{SolitonSampler, get_neighbors}

pub record EncodedSymbol : Type 0 where
  pub esi : ℕ
  pub symbol_size : ℕ
  pub block : List ℕ

pub record FountainEncoder (p : Platform) : Type 0 where
  pub payload_len : ℕ
  pub symbol_size : ℕ
  pub k : ℕ
  pub l : ℕ
  pub precoded : List (List ℕ)
  pub sampler : SolitonSampler p
  pub checksum : ℕ

-- The number of source symbols; an empty payload has one.
unfoldable pub symbol_count : ℕ → ℕ → ℕ
symbol_count payload_len size = let k = (payload_len + size - 1) / size in if k == 0 then 1 else k

-- The `i`-th source symbol, filled up with zeros.
unfoldable pub source_symbol : List ℕ → ℕ → ℕ → List ℕ
source_symbol payload size i =
    let start = i * size in
    let end = min (start + size) (length payload) in
    if ltb start (length payload)
    then take (end - start) (drop start payload) ++ replicate (size - (end - start)) 0
    else replicate size 0

unfoldable pub source_symbols : List ℕ → ℕ → ℕ → ℕ → List (List ℕ)
unfolding source_symbol
source_symbols payload size zero i = []
source_symbols payload size (suc left) i =
    source_symbol payload size i ∷ source_symbols payload size left (i + 1)

module _ (p : Platform) where
  unfoldable pub new : List ℕ → ℕ → Option (FountainEncoder p)
  unfolding symbol_count source_symbols
  new payload size =
      let k = symbol_count (length payload) size in
      let s = s_for k in
      let h = h_for k in
      let source = source_symbols payload size k 0 in
      let fountain = build_precoded p source s h size >>= λ precoded. some (record {
        payload_len = length payload;
        symbol_size = size;
        k = k;
        l = k + s + h;
        precoded = precoded;
        sampler = Soliton.new p (k + s + h);
        checksum = p.xxh3_64 payload;
      }) in
      if size == 0 then none else fountain

  -- `copy_from_slice` panics where the lengths differ.
  unfoldable pub copy_from_slice : ℕ → List ℕ → Option (List ℕ)
  copy_from_slice size block = if size == length block then some block else none

  -- The three branches on the number of neighbours; with none, the last one panics.
  unfoldable pub combine : ℕ → List (List ℕ) → List ℕ → Option (List ℕ)
  unfolding copy_from_slice xor_over xor_into
  combine size precoded [] = none
  combine size precoded (a ∷ []) = get_elem? precoded a >>= λ block. copy_from_slice size block
  combine size precoded (a ∷ b ∷ rest) = do
    block_a ← get_elem? precoded a
    block_b ← get_elem? precoded b
    both ← xor_into (replicate size 0) block_a block_b
    xor_over precoded both rest

  unfoldable pub encode_symbol : FountainEncoder p → ℕ → Option EncodedSymbol
  unfolding combine get_neighbors
  encode_symbol enc esi = do
    (degree, neighbors) ← get_neighbors p enc.sampler esi
    block ← combine enc.symbol_size enc.precoded neighbors
    some (record { esi = esi; symbol_size = enc.symbol_size; block = block })
