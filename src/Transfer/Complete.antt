-- ===== src/Transfer/Complete.antt =====
-- Every input's own symbol completes the decoder: transfers that end.
use orbit_transfer.Prelude.{
  ℕ, zero, suc, ◌+◌, ◌≤◌, ◌<◌, ◌≡◌, refl, sym, ap, subst, ◌∙◌, inl, inr, true, List, [], ◌∷◌, some,
  arith, ◌==◌, length, get_elem?-lt, All-get_elem?, Bool-cases, >>=-eq-some,
}
use orbit_transfer.Prelude.Le.{IsBytes}
use orbit_transfer.Prelude.Sorted.{contains}
use orbit_transfer.Platform.{Platform, DrawsInRange}
use orbit_transfer.Precode.{s_for, h_for}
use orbit_transfer.Simd.Blocks.{IsBlock}
use orbit_transfer.Soliton
use orbit_transfer.Soliton.{get_neighbors}
use orbit_transfer.Soliton.Neighbors.{get_neighbors_systematic}
use orbit_transfer.Encoder
use orbit_transfer.Encoder.{EncodedSymbol, FountainEncoder, encode_symbol, combine, copy_from_slice}
use orbit_transfer.Decoder
use orbit_transfer.Decoder.{
  FountainDecoder, Reconstructed, ok, add_symbol, add_fresh, is_complete, reconstruct,
  ldpc_equations, hdpc_equations, empty_graph,
}
use orbit_transfer.Decoder.Progress.Complete.{Done, Known, Moves, add_symbol-Moves, is_complete_all}
use orbit_transfer.Transfer.Lossless.{
  Encodes, Follows, kept, start, add-Follows, complete-reconstruct,
}
use orbit_transfer.Transfer.{feed}

-- The ids `from`, `from + 1` and so on, `n` of them.
unfoldable pub ids_from : ℕ → ℕ → List ℕ
ids_from zero from = []
ids_from (suc n) from = from ∷ ids_from n (from + 1)

pub contains-ids_from :
    (n from i : ℕ) → from ≤ i → i < from + n → contains i (ids_from n from) ≡ true
unfolding contains ids_from
contains-ids_from zero from i low high = absurd (omega arith)
contains-ids_from (suc n) from i low high = elim (Bool-cases (from == i)) [
  | inl here ↦ rw here refl
  | inr later ↦
      let rest = contains-ids_from n (from + 1) i (ground arith) (omega arith) in ground arith
]

pub s_for_ge : (k : ℕ) → 2 ≤ s_for k
unfolding s_for
s_for_ge k = ground arith

pub encode_symbol-esi :
    (p : Platform) (enc : FountainEncoder p) (esi : ℕ) (symbol : EncodedSymbol)
    → encode_symbol p enc esi ≡ some symbol
    → symbol.esi ≡ esi
unfolding encode_symbol
encode_symbol-esi p enc esi symbol e =
    let (drawn, found, e1) = >>=-eq-some (get_neighbors p enc.sampler esi) _ e in
    let (block, combined, e2) = >>=-eq-some (combine p enc.symbol_size enc.precoded drawn.1) _ e1 in
    ground arith

-- The size that a symbol names is not used.
pub add_symbol-same :
    (p : Platform) (d : FountainDecoder p) (sy : EncodedSymbol) (esi size : ℕ)
    → sy.esi ≡ esi
    → add_symbol p d (record { esi = esi; symbol_size = size; block = sy.block })
      ≡ add_symbol p d sy
unfolding add_symbol add_fresh
add_symbol-same p d sy esi size e =
    ap (λ i. add_symbol p d (record { esi = i; symbol_size = size; block = sy.block })) (sym e)

pub new-received :
    (p : Platform) (payload_len size k checksum : ℕ) (d : FountainDecoder p)
    → Decoder.new p payload_len size k checksum ≡ some d
    → d.received_esis ≡ []
unfolding Decoder.new
new-received p payload_len size k checksum d e =
    let (lower, ldpc, e1) =
      >>=-eq-some (ldpc_equations (s_for k) 0 k (s_for k) size empty_graph) _ e in
    let (upper, hdpc, e2) =
      >>=-eq-some (hdpc_equations p (h_for k) 0 k (s_for k) (h_for k) size lower) _ e1 in
    ground arith

module _ (p : Platform) (in_range : DrawsInRange p) (payload : List ℕ) (size : ℕ)
    (enc : FountainEncoder p) (bytes : IsBytes payload)
    (made : Encoder.new p payload size ≡ some enc) where
  abbrev pub inputs : ℕ
  inputs = enc.k + s_for enc.k + h_for enc.k

  -- The symbol of an id below the number of inputs needs no draw.
  pub systematic_encodes :
      (esi : ℕ) → esi < inputs → (symbol : EncodedSymbol) × (encode_symbol p enc esi ≡ some symbol)
  unfolding encode_symbol Soliton.new
  systematic_encodes esi inside =
      let known = kept p in_range payload size enc bytes made in
      let same : enc.sampler.k ≡ inputs = ap (λ s. s.k) known.sampler in
      let drawn =
        get_neighbors_systematic p enc.sampler esi (omega (arith, s_for_ge enc.k)) (omega arith) in
      let (block, found) = get_elem?-lt enc.precoded esi (omega (arith, known.total)) in
      let long = All-get_elem? (IsBlock size) esi enc.precoded known.precoded.blocks found in
      let fits : (enc.symbol_size == length block) ≡ true =
        let e = known.symbol_size in let e2 = long.0 in ground arith in
      (
        record { esi = esi; symbol_size = enc.symbol_size; block = block },
        unfold combine copy_from_slice in rw (drawn, found, fits) refl,
      )

  pub ids_from-Encodes : (n from : ℕ) → from + n ≤ inputs → Encodes p enc (ids_from n from)
  unfolding ids_from
  ids_from-Encodes zero from h = tt
  ids_from-Encodes (suc n) from h =
      (systematic_encodes from (omega arith), ids_from-Encodes n (from + 1) (omega arith))

  -- What is known of a decoder of this transfer.
  feed-Done :
      (esis : List ℕ) (d : FountainDecoder p)
      → Follows p in_range payload size enc bytes made d
      → Known p d
      → Encodes p enc esis
      → (d' : FountainDecoder p) × (feed p enc esis d ≡ some d')
        × Follows p in_range payload size enc bytes made d'
        × ((i : ℕ) → Done p d i → Done p d' i)
        × ((i : ℕ) → contains i esis ≡ true → i < inputs → Done p d' i)
  unfolding feed contains
  feed-Done [] d f known h = (d, refl, f, (λ i done. done), (λ i member inside. cc))
  feed-Done (esi ∷ esis) d f known h =
      let (symbol, encoded) = h.0 in
      let (d1, done, added, f1) =
        add-Follows p in_range payload size enc bytes made d esi symbol f encoded in
      let same : symbol.esi ≡ esi = encode_symbol-esi p enc esi symbol encoded in
      let moves = subst (Moves p d symbol.esi) added (
        add_symbol-Moves p d symbol f.inv.same_inputs (omega (arith, f.l, s_for_ge enc.k)) known) in
      let (d2, fed, f2, kept2, every) = feed-Done esis d1 f1 moves.2 h.1 in
      (
        d2,
        rw (encoded, added) fed,
        f2,
        (λ i done_i. kept2 i (moves.0 i done_i)),
        (λ i member inside. elim (Bool-cases (esi == i)) [
          | inl here ↦
              let is_here : esi ≡ i = ground arith in
              kept2 i (subst (Done p d1) (same ∙ is_here) (moves.1 (omega (arith, f.l))))
          | inr elsewhere ↦ every i (ground arith) inside
        ]),
      )

  module _ (d : FountainDecoder p)
      (new_d : Decoder.new p enc.payload_len enc.symbol_size enc.k enc.checksum ≡ some d) where
    new-Known : Known p d
    unfolding contains
    new-Known i member inside =
        let none_yet = new-received p enc.payload_len enc.symbol_size enc.k enc.checksum d new_d in
        let in_none : contains i [] ≡ true = subst (λ r. contains i r ≡ true) none_yet member in cc

    -- Symbols of every id below the number `k + s + h` of inputs, in any order, mixed with any others
    -- and with any repetition, complete a decoder that was opened from what the encoder announced:
    -- all are taken, and the decoder is complete and reconstructs the payload. The random draws are in
    -- range and those of the listed ids end.
    pub feed_completes :
        (esis : List ℕ)
        → Encodes p enc esis
        → ((i : ℕ) → i < inputs → contains i esis ≡ true)
        → (d' : FountainDecoder p) × (feed p enc esis d ≡ some d')
          × (is_complete p d' ≡ true)
          × (reconstruct p d' ≡ some (ok payload))
    feed_completes esis h covers =
        let f = start p in_range payload size enc bytes made d new_d esis in
        let (d', fed, f', old, every) = feed-Done esis d f new-Known h in
        let done =
          is_complete_all p d' f'.inv.graph_inv.counted
            (λ i inside. every i (covers i (omega (arith, f'.l))) (omega (arith, f'.l))) in
        (d', fed, done, complete-reconstruct p in_range payload size enc bytes made d' f' done)
