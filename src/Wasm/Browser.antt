-- ===== src/Wasm/Browser.antt =====
-- A transfer between two pages, of crates/orbit-wasm/src/lib.rs.
use orbit_transfer.Prelude.{
  ℕ, ◌+◌, ◌%◌, ◌^◌, ◌<◌, ◌≡◌, refl, sym, ap, subst, ◌∙◌, true, List, [], ◌∷◌, Option, some, ◌>>=◌,
  >>=-eq-some,
}
use native.Mathlib.Nat.{mod-eq_of_lt}
use orbit_transfer.Prelude.Le.{IsBytes}
use orbit_transfer.Prelude.Sorted.{contains}
use orbit_transfer.Platform.{Platform, DrawsInRange}
use orbit_transfer.Encoder
use orbit_transfer.Encoder.{EncodedSymbol}
use orbit_transfer.Decoder as Peeling
use orbit_transfer.Decoder.{FountainDecoder, add_fresh}
use orbit_transfer.Transfer.{feed}
use orbit_transfer.Transfer.Lossless.{Encodes, kept, opened}
use orbit_transfer.Transfer.Complete.{inputs, feed_completes, encode_symbol-esi, add_symbol-same}
use orbit_transfer.Wasm.Hex.{from_str_radix-hex_digits}
use orbit_transfer.Wasm.{
  Fountain, Decoder, k, payload_len, symbol_size, checksum_hex, encode_symbol, new_fountain,
  new_decoder, add_symbol, is_complete, reconstruct,
}

-- The decoder that a page makes of what another page's encoder shows.
unfoldable pub joined_decoder : (p : Platform) → Fountain p → Option (Decoder p)
unfolding new_decoder
joined_decoder p fountain =
    new_decoder p (payload_len p fountain) (symbol_size p fountain) (k p fountain)
      (checksum_hex p fountain)

-- The page's loop: the symbols of the ids, one after the other.
unfoldable pub add_all : (p : Platform) → Fountain p → List ℕ → Decoder p → Option (Decoder p)
unfolding encode_symbol add_symbol
add_all p fountain [] d = some d
add_all p fountain (esi ∷ esis) d = do
  bytes ← encode_symbol p fountain esi
  (d', complete) ← add_symbol p d esi bytes
  add_all p fountain esis d'

module _ (p : Platform) (in_range : DrawsInRange p) (payload : List ℕ) (size : ℕ)
    (fountain : Fountain p) (bytes : IsBytes payload)
    (made : new_fountain p payload size ≡ some fountain) where
  pub inner_made : Encoder.new p payload size ≡ some fountain.encoder
  unfolding new_fountain
  inner_made =
      let (encoder, found, e1) = >>=-eq-some (Encoder.new p payload size) _ made in
      let same : record { encoder = encoder } ≡ fountain = cc in
      found ∙ ap (λ t. some t.encoder) same

  -- Adding through the wrapper adds to the decoder inside.
  add_all-feed :
      (esis : List ℕ) (d : Decoder p) (d' : FountainDecoder p)
      → feed p fountain.encoder esis d.decoder ≡ some d'
      → (e : Decoder p) × (add_all p fountain esis d ≡ some e) × (e.decoder ≡ d')
  unfolding add_all feed encode_symbol add_symbol Peeling.add_symbol add_fresh
  add_all-feed [] d d' fed = (d, refl, cc)
  add_all-feed (esi ∷ esis) d d' fed =
      let (sy, encoded, e1) = >>=-eq-some (Encoder.encode_symbol p fountain.encoder esi) _ fed in
      let (next, added, e2) = >>=-eq-some (Peeling.add_symbol p d.decoder sy) _ e1 in
      let here =
        add_symbol-same p d.decoder sy esi d.decoder.symbol_size
          (encode_symbol-esi p fountain.encoder esi sy encoded)
        ∙ added in
      let shown : encode_symbol p fountain esi ≡ some sy.block =
        unfold encode_symbol in rw encoded refl in
      let after : Decoder p = record { decoder = next.0; received = (d.received + 1) % 2 ^ 32 } in
      let taken : add_symbol p d esi sy.block ≡ some (after, next.1) =
        unfold add_symbol in rw here refl in
      let (e, rest, same) = add_all-feed esis after d' e2 in (e, rw (shown, taken) rest, same)

  joined_decoder-new :
      (d : FountainDecoder p)
      → fountain.encoder.k < 2 ^ 32
      → fountain.encoder.checksum < 2 ^ 64
      → Peeling.new p fountain.encoder.payload_len fountain.encoder.symbol_size fountain.encoder.k
          fountain.encoder.checksum
        ≡ some d
      → joined_decoder p fountain ≡ some (record { decoder = d; received = 0 })
  unfolding joined_decoder new_decoder payload_len symbol_size k checksum_hex
  joined_decoder-new d small fits new_d =
      let k_kept = mod-eq_of_lt small in
      rw (from_str_radix-hex_digits fountain.encoder.checksum fits, k_kept, new_d) refl

  -- A page that makes a decoder of the length, the symbol size, the count and the hexadecimal
  -- checksum that another page's encoder shows, and adds symbols of that encoder, among them those
  -- of every id below the `k + s + h` inputs, in any order and repeated or not, has a complete
  -- decoder, whose payload is exactly the encoder's. The count is below 2 ^ 32, the checksum below
  -- 2 ^ 64, and the random draws are in range.
  pub joined_decoder-add_all :
      (esis : List ℕ)
      → fountain.encoder.k < 2 ^ 32
      → p.xxh3_64 payload < 2 ^ 64
      → Encodes p fountain.encoder esis
      → ((i : ℕ)
          → i < inputs p in_range payload size fountain.encoder bytes inner_made
          → contains i esis ≡ true)
      → (d d' : Decoder p) × (joined_decoder p fountain ≡ some d)
        × (add_all p fountain esis d ≡ some d')
        × (is_complete p d' ≡ true)
        × (reconstruct p d' ≡ some (Peeling.ok payload))
  unfolding is_complete reconstruct
  joined_decoder-add_all esis small fits h covers =
      let known = kept p in_range payload size fountain.encoder bytes inner_made in
      let (d0, new_d, follows) = opened p in_range payload size fountain.encoder bytes inner_made in
      let (fed_d, fed, full, whole) =
        feed_completes p in_range payload size fountain.encoder bytes inner_made d0 new_d esis h
          covers in
      let (e, added, same) = add_all-feed esis (record { decoder = d0; received = 0 }) fed_d fed in
      (
        record { decoder = d0; received = 0 },
        e,
        joined_decoder-new d0 small (subst (λ n. n < 2 ^ 64) (sym known.checksum) fits) new_d,
        added,
        ap (Peeling.is_complete p) same ∙ full,
        ap (Peeling.reconstruct p) same ∙ whole,
      )
