-- ===== src/Examples/DecoderRuns.antt =====
-- crates/orbit-fountain/src/decoder.rs on a graph of two inputs and on a new decoder.
use orbit_transfer.Prelude.{ℕ, refl, List, [], ◌∷◌, arith}
use orbit_transfer.Simd.{xor_bytes}
use orbit_transfer.Simd.Blocks.{IsBlock, xor_all}
use orbit_transfer.Soliton.{get_neighbors}
use orbit_transfer.Encoder.{EncodedSymbol}
use orbit_transfer.Decoder.{FountainDecoder, empty_graph, add_symbol, has}
use orbit_transfer.Decoder.Unresolved.{unresolved}
use orbit_transfer.Decoder.Sound.{DecoderInv, Accepts, add_symbol-Accepts}
use orbit_transfer.Examples.Platforms.{counting, counting-DrawsInRange, sampler}

abbrev truth : ℕ → List ℕ
truth i = 5 ∷ []

truth-IsBlock : (i : ℕ) → IsBlock 1 (truth i)
truth-IsBlock i = (refl, omega arith)

abbrev fresh : FountainDecoder counting
fresh = record {
  payload_len = 8;
  symbol_size = 1;
  k = 2;
  l = 8;
  expected_checksum = 8;
  sampler = sampler;
  graph = empty_graph;
  received_esis = [];
}

fresh-DecoderInv : DecoderInv counting 1 truth truth-IsBlock fresh
unfolding unresolved has
fresh-DecoderInv = record {
  graph_inv = record { solved = tt; equations = tt; counted = refl };
  same_inputs = refl;
  some_input = omega arith;
  same_size = refl;
}

abbrev arrived : EncodedSymbol
arrived = record { esi = 3; symbol_size = 1; block = 5 ∷ [] }

add_symbol-Accepts_example :
    Accepts counting 1 truth truth-IsBlock fresh (add_symbol counting fresh arrived)
unfolding get_neighbors xor_bytes xor_all
add_symbol-Accepts_example =
    add_symbol-Accepts counting 1 truth truth-IsBlock counting-DrawsInRange fresh fresh-DecoderInv
      arrived 1 (3 ∷ []) refl refl
