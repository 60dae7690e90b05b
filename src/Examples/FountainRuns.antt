-- ===== src/Examples/FountainRuns.antt =====
-- The fountain crate on a payload of three bytes, cut into symbols of two.
use orbit_transfer.Prelude.{ℕ, ◌≡◌, refl, true, List, [], ◌∷◌, Option, some, none, arith}
use orbit_transfer.Prelude.Le.{IsBytes}
use orbit_transfer.Prelude.Sorted.{contains, remove}
use orbit_transfer.Examples.Platforms.{counting, counting-DrawsInRange, sampler}
use orbit_transfer.Simd.{xor_loop}
use orbit_transfer.Precode.{precode_neighbors, hdpc_neighbors, s_for, h_for, build_precoded}
use orbit_transfer.Soliton
use orbit_transfer.Soliton.{SolitonSampler}
use orbit_transfer.Encoder
use orbit_transfer.Encoder.{FountainEncoder, encode_symbol, EncodedSymbol}
use orbit_transfer.Decoder
use orbit_transfer.Decoder.{
  FountainDecoder, ok, empty_graph, add_symbol, index_slot, process_slot, has, reconstruct,
  is_complete,
}
use orbit_transfer.Transfer.{feed}
use orbit_transfer.Transfer.Lossless.{Encodes, feed_total, feed_lossless}

abbrev pub payload : List ℕ
payload = 1 ∷ 2 ∷ 3 ∷ []

pub payload-IsBytes : IsBytes payload
payload-IsBytes = omega arith

abbrev pub made : FountainEncoder counting
made = record {
  payload_len = 3;
  symbol_size = 2;
  k = 2;
  l = 8;
  precoded =
      (1 ∷ 2 ∷ [])
      ∷ (3 ∷ 0 ∷ [])
      ∷ (2 ∷ 2 ∷ [])
      ∷ (2 ∷ 2 ∷ [])
      ∷ (0 ∷ 0 ∷ [])
      ∷ (0 ∷ 0 ∷ [])
      ∷ (0 ∷ 0 ∷ [])
      ∷ (0 ∷ 0 ∷ [])
      ∷ [];
  sampler = sampler;
  checksum = 3;
}

pub encoder-made : Encoder.new counting payload 2 ≡ some made
unfolding Encoder.new s_for h_for build_precoded Soliton.new xor_loop
encoder-made = refl

abbrev blank : FountainDecoder counting
blank = record {
  payload_len = 0;
  symbol_size = 0;
  k = 0;
  l = 0;
  expected_checksum = 0;
  sampler = sampler;
  graph = empty_graph;
  received_esis = [];
}

abbrev got : Option (FountainDecoder counting) → FountainDecoder counting
got none = blank
got (some d) = d

abbrev pub opened : FountainDecoder counting
unfolding Decoder.new s_for h_for Soliton.new
opened = got (Decoder.new counting 3 2 2 3)

pub decoder-opened : Decoder.new counting 3 2 2 3 ≡ some opened
unfolding Decoder.new s_for h_for Soliton.new opened precode_neighbors hdpc_neighbors
decoder-opened = refl

-- Every id once but 0, and id 3 twice.
abbrev ids : List ℕ
ids = 3 ∷ 1 ∷ 3 ∷ 2 ∷ 4 ∷ 5 ∷ 6 ∷ 7 ∷ []

abbrev pub symbol_of : ℕ → List ℕ → EncodedSymbol
symbol_of esi block = record { esi = esi; symbol_size = 2; block = block }

ids-Encodes : Encodes counting made ids
unfolding encode_symbol
ids-Encodes = (
  (symbol_of 3 (2 ∷ 2 ∷ []), refl),
  (
    (symbol_of 1 (3 ∷ 0 ∷ []), refl),
    (
      (symbol_of 3 (2 ∷ 2 ∷ []), refl),
      (
        (symbol_of 2 (2 ∷ 2 ∷ []), refl),
        (
          (symbol_of 4 (0 ∷ 0 ∷ []), refl),
          (
            (symbol_of 5 (0 ∷ 0 ∷ []), refl),
            ((symbol_of 6 (0 ∷ 0 ∷ []), refl), ((symbol_of 7 (0 ∷ 0 ∷ []), refl), tt)),
          ),
        ),
      ),
    ),
  ),
)

abbrev fed : FountainDecoder counting
unfolding feed encode_symbol add_symbol opened
fed = got (feed counting made ids opened)

feed-fed : feed counting made ids opened ≡ some fed
unfolding feed encode_symbol add_symbol opened fed precode_neighbors hdpc_neighbors contains
    index_slot process_slot remove xor_loop has
feed-fed = refl

fed_complete : is_complete counting fed ≡ true
unfolding is_complete fed feed encode_symbol add_symbol opened precode_neighbors hdpc_neighbors
    contains index_slot process_slot remove xor_loop has
fed_complete = refl

feed_total_example : (d : FountainDecoder counting) × (feed counting made ids opened ≡ some d)
feed_total_example =
    feed_total counting counting-DrawsInRange payload 2 made payload-IsBytes encoder-made opened
      decoder-opened ids ids-Encodes

feed_lossless_example : reconstruct counting fed ≡ some (ok payload)
feed_lossless_example =
    feed_lossless counting counting-DrawsInRange payload 2 made payload-IsBytes encoder-made opened
      decoder-opened ids fed ids-Encodes feed-fed fed_complete
