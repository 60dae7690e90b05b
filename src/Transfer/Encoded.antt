-- ===== src/Transfer/Encoded.antt =====
-- What the encoder keeps of a payload, and what its symbols are.
use orbit_transfer.Prelude.{
  ℕ, ◌+◌, ◌<◌, ◌≡◌, refl, sym, ap, subst, ◌∙◌, List, [], ◌∷◌, some, arith, length, get_elem?,
  replicate, All, All-get_elem?, ◌>>=◌, >>=-eq-some, ◌==◌, Bool-cases, inl, inr,
}
use orbit_transfer.Prelude.Le.{IsBytes}
use orbit_transfer.Simd.{xor_bytes, xor_into}
use orbit_transfer.Simd.Laws.{zeros, xor_into-xor_bytes, xor_bytes_assoc}
use orbit_transfer.Simd.Blocks.{
  IsBlock, zeros-IsBlock, xor_bytes-IsBlock, xor_all, xor_all-one, block_at, block_at-IsBlock,
  block_at-get_elem?,
}
use orbit_transfer.Platform.{Platform}
use orbit_transfer.Precode.{s_for, h_for, build_precoded}
use orbit_transfer.Precode.Checks.{Agrees, xor_over-xor_all}
use orbit_transfer.Precode.Build.{IsPrecoded, build_precoded-IsPrecoded, length-build_precoded}
use orbit_transfer.Soliton.{SolitonSampler, get_neighbors}
use orbit_transfer.Encoder
use orbit_transfer.Soliton
use orbit_transfer.Encoder.{
  EncodedSymbol, FountainEncoder, copy_from_slice, combine, encode_symbol, symbol_count,
  source_symbols,
}
use orbit_transfer.Encoder.Symbols.{source_symbols-IsBlock, length-source_symbols}

module _ (size : ℕ) (blocks : List (List ℕ)) (sized : All (IsBlock size) blocks) where
  abbrev pub truth : ℕ → List ℕ
  truth = block_at size blocks

  pub truth-IsBlock : (i : ℕ) → IsBlock size (truth i)
  truth-IsBlock i = block_at-IsBlock size blocks i sized

  blocks-Agrees : Agrees truth blocks
  blocks-Agrees n b e = sym (block_at-get_elem? size blocks n e)

  -- The three branches of `encode_symbol` all give the exclusive or of the neighbours.
  pub combine-xor_all :
      (p : Platform) (ns : List ℕ) (out : List ℕ)
      → combine p size blocks ns ≡ some out
      → out ≡ xor_all size truth ns
  unfolding combine xor_all
  combine-xor_all p [] out e = cc
  combine-xor_all p (a ∷ []) out e =
      let (block, found, e1) = >>=-eq-some (get_elem? blocks a) _ e in
      let copied : block ≡ out = unfold copy_from_slice in ground arith in
      sym copied ∙ blocks-Agrees a block found ∙ sym (xor_all-one size truth truth-IsBlock a)
  combine-xor_all p (a ∷ b ∷ rest) out e =
      let (block_a, found_a, e1) = >>=-eq-some (get_elem? blocks a) _ e in
      let (block_b, found_b, e2) = >>=-eq-some (get_elem? blocks b) _ e1 in
      let (both, xored, e3) = >>=-eq-some (xor_into (replicate size 0) block_a block_b) _ e2 in
      let ha = All-get_elem? _ a blocks sized found_a in
      let hb = All-get_elem? _ b blocks sized found_b in
      let fact =
        xor_into-xor_bytes (zeros size) block_a block_b ((zeros-IsBlock size).0 ∙ sym ha.0)
          ((zeros-IsBlock size).0 ∙ sym hb.0) ha.1 hb.1 in
      let is_both : xor_bytes block_a block_b ≡ both = cc in
      let long = subst (IsBlock size) is_both (xor_bytes-IsBlock size block_a block_b ha hb) in
      xor_over-xor_all size truth truth-IsBlock blocks both rest out blocks-Agrees long e3
      ∙ ap (λ t. xor_bytes t (xor_all size truth rest)) (sym is_both)
      ∙ xor_bytes_assoc block_a block_b (xor_all size truth rest)
      ∙ ap (λ t. xor_bytes t (xor_bytes block_b (xor_all size truth rest)))
          (blocks-Agrees a block_a found_a)
      ∙ ap (λ t. xor_bytes (truth a) (xor_bytes t (xor_all size truth rest)))
          (blocks-Agrees b block_b found_b)

-- What `FountainEncoder::new` keeps of a payload.
pub record Encoded (p : Platform) (payload : List ℕ) (size : ℕ) (enc : FountainEncoder p)
    : Type 0 where
  pub some_size : 0 < size
  pub precoded :
      IsPrecoded size p
        (source_symbols payload size enc.k 0)
        (s_for enc.k)
        (h_for enc.k)
        enc.precoded
  pub total : length enc.precoded ≡ enc.k + s_for enc.k + h_for enc.k
  pub count : enc.k ≡ symbol_count (length payload) size
  pub symbol_size : enc.symbol_size ≡ size
  pub payload_len : enc.payload_len ≡ length payload
  pub checksum : enc.checksum ≡ p.xxh3_64 payload
  pub sampler : enc.sampler ≡ Soliton.new p (enc.k + s_for enc.k + h_for enc.k)

pub new-Encoded :
    (p : Platform) (payload : List ℕ) (size : ℕ) (enc : FountainEncoder p)
    → IsBytes payload
    → Encoder.new p payload size ≡ some enc
    → Encoded p payload size enc
unfolding Encoder.new
new-Encoded p payload size enc h e = elim (Bool-cases (size == 0)) [
  | inl zero_size ↦ absurd (ground arith)
  | inr some_size ↦
      let k = symbol_count (length payload) size in
      let s = s_for k in
      let source = source_symbols payload size k 0 in
      let e' : (build_precoded p source s (h_for k) size >>= λ precoded. some (made precoded))
          ≡ some enc =
        rw some_size at e in
      let (precoded, built, e1) = >>=-eq-some (build_precoded p source s (h_for k) size) _ e' in
      let same : made precoded ≡ enc = cc in
      subst (Encoded p payload size) same (record {
        some_size = ground arith;
        precoded =
            build_precoded-IsPrecoded size p source s (h_for k) precoded
              (source_symbols-IsBlock payload size k 0 h) built;
        total =
            length-build_precoded p source s (h_for k) size precoded built
            ∙ ap (λ n. n + s + h_for k) (length-source_symbols payload size k 0);
        count = refl;
        symbol_size = refl;
        payload_len = refl;
        checksum = refl;
        sampler = refl;
      })
]
  where
    made : List (List ℕ) → FountainEncoder p
    made precoded =
        let k = symbol_count (length payload) size in
        record {
          payload_len = length payload;
          symbol_size = size;
          k = k;
          l = k + s_for k + h_for k;
          precoded = precoded;
          sampler = Soliton.new p (k + s_for k + h_for k);
          checksum = p.xxh3_64 payload;
        }
