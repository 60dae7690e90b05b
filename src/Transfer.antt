-- ===== src/Transfer.antt =====
-- The fountain end to end: crates/orbit-fountain's encoder and decoder on one transfer.
pub mod Encoded
pub mod Lossless
pub mod Complete
pub mod Peeled
use orbit_transfer.Prelude.{Bool, List, [], ◌∷◌, Option, none, some, ◌>>=◌, ℕ}
use orbit_transfer.Platform.{Platform}
use orbit_transfer.Encoder.{EncodedSymbol, FountainEncoder, encode_symbol}
use orbit_transfer.Decoder.{FountainDecoder, add_symbol}

-- The symbols of the ids `esis`, encoded and added in that order: any loss, duplication or
-- reordering of the stream is a list of ids.
unfoldable pub feed :
    (p : Platform) → FountainEncoder p → List ℕ → FountainDecoder p → Option (FountainDecoder p)
feed p enc [] d = some d
feed p enc (esi ∷ esis) d = do
  symbol ← encode_symbol p enc esi
  (d', complete) ← add_symbol p d symbol
  feed p enc esis d'
