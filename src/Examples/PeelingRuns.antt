-- ===== src/Examples/PeelingRuns.antt =====
-- What two symbols give a decoder of eight inputs, and the same symbols in another order.
use orbit_transfer.Prelude.{ℕ, ◌<◌, ◌≡◌, ◌↔◌, refl, true, List, [], ◌∷◌, some, arith}
use orbit_transfer.Prelude.Sorted.{contains}
use orbit_transfer.Examples.Platforms.{counting, counting-DrawsInRange}
use orbit_transfer.Examples.FountainRuns.{
  payload, payload-IsBytes, made, encoder-made, opened, decoder-opened, symbol_of,
}
use orbit_transfer.Encoder.{encode_symbol}
use orbit_transfer.Decoder.{FountainDecoder, has, is_complete, reconstruct}
use orbit_transfer.Decoder.Peeling.{Peels}
use orbit_transfer.Transfer.{feed}
use orbit_transfer.Transfer.Lossless.{Encodes}
use orbit_transfer.Transfer.Peeled.{Equation}
use orbit_transfer.Transfer.Peeled.Exact.{feed_peels, feed_same}

abbrev two_ids : List ℕ
two_ids = 1 ∷ 2 ∷ []

abbrev other_order : List ℕ
other_order = 2 ∷ 1 ∷ 2 ∷ []

two_ids-Encodes : Encodes counting made two_ids
unfolding encode_symbol
two_ids-Encodes = ((symbol_of 1 (3 ∷ 0 ∷ []), refl), ((symbol_of 2 (2 ∷ 2 ∷ []), refl), tt))

other_order-Encodes : Encodes counting made other_order
unfolding encode_symbol
other_order-Encodes = (two_ids-Encodes.1.0, two_ids-Encodes)

same_ids : (esi : ℕ) → contains esi two_ids ≡ contains esi other_order
unfolding contains
same_ids esi = ground arith

feed_peels_example :
    (d : FountainDecoder counting) × (feed counting made two_ids opened ≡ some d)
    × ((i : ℕ)
        → i < opened.l
        → (has i d.graph.resolved ≡ true) ↔ Peels (Equation counting 2 made.sampler two_ids) i)
feed_peels_example =
    feed_peels counting counting-DrawsInRange payload 2 made payload-IsBytes encoder-made opened
      decoder-opened two_ids two_ids-Encodes

feed_same_example :
    (d1 : FountainDecoder counting) × (d2 : FountainDecoder counting) × (feed counting made two_ids
        opened
      ≡ some d1)
    × (feed counting made other_order opened ≡ some d2)
    × ((i : ℕ) → i < opened.l → has i d1.graph.resolved ≡ has i d2.graph.resolved)
    × (is_complete counting d1 ≡ is_complete counting d2)
    × (reconstruct counting d1 ≡ reconstruct counting d2)
feed_same_example =
    feed_same counting counting-DrawsInRange payload 2 made payload-IsBytes encoder-made opened
      decoder-opened two_ids other_order two_ids-Encodes other_order-Encodes same_ids
