-- ===== src/Transfer/Lossless.antt =====
-- What the decoder makes of the encoder's symbols.
use orbit_transfer.Prelude.{
  ℕ, suc, ◌+◌, ◌<◌, ◌≡◌, refl, sym, ap, subst, ◌∙◌, Bool, true, List, [], ◌∷◌, Option, none, some,
  arith, length, take, get_elem?, All, >>=-eq-some,
}
use orbit_transfer.Prelude.Le.{IsBytes}
use orbit_transfer.Simd.Blocks.{IsBlock, xor_all, block_at, block_at-IsBlock}
use orbit_transfer.Platform.{Platform, DrawsInRange}
use orbit_transfer.Precode.{s_for, h_for}
use orbit_transfer.Precode.Checks.{LdpcChecks, HdpcChecks}
use orbit_transfer.Soliton.{get_neighbors}
use orbit_transfer.Encoder
use orbit_transfer.Encoder.{
  EncodedSymbol, FountainEncoder, copy_from_slice, combine, encode_symbol, symbol_count,
  source_symbols,
}
use orbit_transfer.Encoder.Symbols.{
  FromSource, take-joined, length-source_symbols, symbol_count-covers,
}
use orbit_transfer.Decoder
use orbit_transfer.Decoder.{
  FountainDecoder, Reconstructed, ok, add_symbol, is_complete, reconstruct, verify,
}
use orbit_transfer.Decoder.Sound.{DecoderInv, Accepts, add_symbol-Accepts}
use orbit_transfer.Decoder.Payload.{joined, reconstruct-joined}
use orbit_transfer.Decoder.Start.{Opened, new-Opened}
use orbit_transfer.Transfer.Encoded.{Encoded, new-Encoded, combine-xor_all}
use orbit_transfer.Transfer.{feed}

-- An encoder for `payload`, a decoder for what it announced, and truth taken from the encoder.

-- Agreement index by index is agreement block by block.
Agrees-FromSource :
    (truth : ℕ → List ℕ) (xs : List (List ℕ)) (i : ℕ)
    → ((n : ℕ) (b : List ℕ) → get_elem? xs n ≡ some b → b ≡ truth (i + n))
    → FromSource truth xs i
Agrees-FromSource truth [] i h = tt
Agrees-FromSource truth (x ∷ xs) i h = (
  h 0 x refl ∙ ap truth (omega arith),
  Agrees-FromSource truth xs (i + 1) (λ n b e. h (suc n) b e ∙ ap truth (omega arith)),
)

-- Every id of the list is encoded: its draws end.
abbrev pub Encodes : (p : Platform) → FountainEncoder p → List ℕ → Type 0
Encodes p enc = All (λ esi. (symbol : EncodedSymbol) × (encode_symbol p enc esi ≡ some symbol))

module _ (p : Platform) (in_range : DrawsInRange p) (payload : List ℕ) (size : ℕ)
    (enc : FountainEncoder p) (bytes : IsBytes payload)
    (made : Encoder.new p payload size ≡ some enc) where
  pub kept : Encoded p payload size enc
  kept = new-Encoded p payload size enc bytes made

  abbrev pub input : ℕ → List ℕ
  input = block_at size enc.precoded

  pub input-IsBlock : (i : ℕ) → IsBlock size (input i)
  input-IsBlock i = block_at-IsBlock size enc.precoded i kept.precoded.blocks

  -- A decoder of this transfer, at any moment.
  pub record Follows (d : FountainDecoder p) : Type 0 where
    pub inv : DecoderInv p size input input-IsBlock d
    pub sampler : d.sampler ≡ enc.sampler
    pub payload_len : d.payload_len ≡ length payload
    pub k : d.k ≡ enc.k
    pub l : d.l ≡ enc.k + s_for enc.k + h_for enc.k
    pub checksum : d.expected_checksum ≡ p.xxh3_64 payload

  -- An encoded symbol is the exclusive or of the inputs that its id stands for.
  encode_symbol-input :
      (esi : ℕ) (symbol : EncodedSymbol)
      → encode_symbol p enc esi ≡ some symbol
      → (degree : ℕ) × (ns : List ℕ) × (get_neighbors p enc.sampler symbol.esi ≡ some (degree, ns))
        × (symbol.block ≡ xor_all size input ns)
  unfolding encode_symbol
  encode_symbol-input esi symbol e =
      let ((degree, ns), drawn, e1) = >>=-eq-some (get_neighbors p enc.sampler esi) _ e in
      let (block, combined, e2) = >>=-eq-some (combine p enc.symbol_size enc.precoded ns) _ e1 in
      let same_esi : esi ≡ symbol.esi = ground arith in
      let same_block : block ≡ symbol.block = ground arith in
      let combined' : combine p size enc.precoded ns ≡ some block =
        ap (λ n. combine p n enc.precoded ns) (sym kept.symbol_size) ∙ combined in
      (
        degree,
        ns,
        ap (get_neighbors p enc.sampler) (sym same_esi) ∙ drawn,
        sym same_block
            ∙ combine-xor_all size enc.precoded kept.precoded.blocks p ns block combined',
      )

  pub opened :
      (d : FountainDecoder p) × (Decoder.new p enc.payload_len enc.symbol_size enc.k enc.checksum
        ≡ some d)
      × Follows d
  opened =
      let made_of_k = length-source_symbols payload size enc.k 0 in
      go (Decoder.new p enc.payload_len enc.symbol_size enc.k enc.checksum) refl (
        subst
          (λ n.
            Opened size input input-IsBlock p enc.payload_len enc.k enc.checksum
              (Decoder.new p enc.payload_len n enc.k enc.checksum))
          (sym kept.symbol_size)
          (new-Opened size input input-IsBlock p enc.payload_len enc.k enc.checksum
            (subst (λ n. 0 < n) (sym kept.count)
              (symbol_count-covers (length payload) size kept.some_size).1)
            (subst (λ n. LdpcChecks size input input-IsBlock n (s_for enc.k) (s_for enc.k) 0)
              made_of_k kept.precoded.ldpc)
            (subst
              (λ n.
                HdpcChecks size input input-IsBlock p n (s_for enc.k) (h_for enc.k) (h_for enc.k) 0)
              made_of_k kept.precoded.hdpc)))
    where
      go :
          (r : Option (FountainDecoder p))
          → Decoder.new p enc.payload_len enc.symbol_size enc.k enc.checksum ≡ r
          → Opened size input input-IsBlock p enc.payload_len enc.k enc.checksum r
          → (d : FountainDecoder p) × (Decoder.new p enc.payload_len enc.symbol_size enc.k
                enc.checksum
              ≡ some d)
            × Follows d
      go none e o = absurd o
      go (some d) e o = (
        d,
        e,
        record {
          inv = o.0;
          sampler = o.5 ∙ sym kept.sampler;
          payload_len = o.1 ∙ kept.payload_len;
          k = o.2;
          l = o.3;
          checksum = o.4 ∙ kept.checksum;
        },
      )

  pub add-Follows :
      (d : FountainDecoder p) (esi : ℕ) (symbol : EncodedSymbol)
      → Follows d
      → encode_symbol p enc esi ≡ some symbol
      → (d' : FountainDecoder p) × (done : Bool) × (add_symbol p d symbol ≡ some (d', done))
        × Follows d'
  add-Follows d esi symbol f e =
      let (degree, ns, drawn, holds) = encode_symbol-input esi symbol e in
      go (add_symbol p d symbol) refl (
        add_symbol-Accepts p size input input-IsBlock in_range d f.inv symbol degree ns
          (ap (λ s. get_neighbors p s symbol.esi) f.sampler ∙ drawn) holds)
    where
      go :
          (r : Option (FountainDecoder p × Bool))
          → add_symbol p d symbol ≡ r
          → Accepts p size input input-IsBlock d r
          → (d' : FountainDecoder p) × (done : Bool) × (add_symbol p d symbol ≡ some (d', done))
            × Follows d'
      go none eq a = absurd a
      go (some (d', done)) eq a = (
        d',
        done,
        eq,
        record {
          inv = a.0;
          sampler = a.3.5 ∙ f.sampler;
          payload_len = a.3.0 ∙ f.payload_len;
          k = a.3.2 ∙ f.k;
          l = a.3.3 ∙ f.l;
          checksum = a.3.4 ∙ f.checksum;
        },
      )

  pub feed-Follows :
      (esis : List ℕ) (d : FountainDecoder p)
      → Follows d
      → Encodes p enc esis
      → (d' : FountainDecoder p) × (feed p enc esis d ≡ some d') × Follows d'
  unfolding feed
  feed-Follows [] d f h = (d, refl, f)
  feed-Follows (esi ∷ esis) d f h =
      let (symbol, encoded) = h.0 in
      let (d1, done, added, f1) = add-Follows d esi symbol f encoded in
      let (d2, fed, f2) = feed-Follows esis d1 f1 h.1 in (d2, rw (encoded, added) fed, f2)

  pub complete-reconstruct :
      (d : FountainDecoder p)
      → Follows d
      → is_complete p d ≡ true
      → reconstruct p d ≡ some (ok payload)
  complete-reconstruct d f done =
      let count = f.k ∙ kept.count in
      let whole : take d.payload_len (joined input d.k 0) ≡ payload =
        ap (λ n. take n (joined input d.k 0)) f.payload_len
        ∙ ap (λ n. take (length payload) (joined input n 0)) count
        ∙ take-joined input payload size kept.some_size bytes (
            subst (λ n. FromSource input (source_symbols payload size n 0) 0) kept.count
              (Agrees-FromSource input (source_symbols payload size enc.k 0) 0
                (λ n b e. kept.precoded.keeps_source n b e ∙ ap input (omega arith)))) in
      reconstruct-joined p size input input-IsBlock d f.inv done (omega (arith, f.k, f.l))
      ∙ ap (λ t. some (verify p d.expected_checksum t)) whole
      ∙ ap (λ c. some (verify p c payload)) f.checksum
      ∙ (unfold verify in ground arith)

  -- `FountainDecoder::new`, given what an encoder made of a payload of bytes announces, returns a
  -- decoder.
  new_opens :
      (d : FountainDecoder p) × (Decoder.new p enc.payload_len enc.symbol_size enc.k enc.checksum
        ≡ some d)
  new_opens = let (d, new_d, f) = opened in (d, new_d)

  module _ (d : FountainDecoder p)
      (new_d : Decoder.new p enc.payload_len enc.symbol_size enc.k enc.checksum ≡ some d)
      (esis : List ℕ) where
    pub start : Follows d
    start = let (d0, new_d0, f) = opened in let same : d0 ≡ d = cc in subst Follows same f

    -- A decoder that was opened from what the encoder of a payload of bytes announces takes the
    -- symbols of any list of ids that the encoder encodes, in any order, with any loss and any
    -- repetition: no slice has the wrong length, every ripple ends, and a decoder is left.
    pub feed_total : Encodes p enc esis → (d' : FountainDecoder p) × (feed p enc esis d ≡ some d')
    feed_total h = let (d', fed, f) = feed-Follows esis d start h in (d', fed)

    -- When a decoder that was opened from what the encoder of a payload of bytes announces is
    -- complete after the encoder's symbols of a list of ids, in any order, with any loss and any
    -- repetition, it reconstructs exactly the payload and the checksum agrees. The random draws are
    -- in range and those of the listed ids end.
    pub feed_lossless :
        (d' : FountainDecoder p)
        → Encodes p enc esis
        → feed p enc esis d ≡ some d'
        → is_complete p d' ≡ true
        → reconstruct p d' ≡ some (ok payload)
    feed_lossless d' h fed done =
        let (d2, fed2, f) = feed-Follows esis d start h in
        let same : d2 ≡ d' = cc in complete-reconstruct d' (subst Follows same f) done
