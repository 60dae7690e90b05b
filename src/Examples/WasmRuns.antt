-- ===== src/Examples/WasmRuns.antt =====
-- crates/orbit-wasm on the payload of FountainRuns.
use orbit_transfer.Prelude.{◌≡◌, refl, true, some, arith}
use orbit_transfer.Precode.{s_for, h_for, build_precoded}
use orbit_transfer.Simd.{xor_loop}
use orbit_transfer.Soliton
use orbit_transfer.Encoder
use orbit_transfer.Decoder.{ok}
use orbit_transfer.Transfer.Complete.{ids_from, ids_from-Encodes, contains-ids_from}
use orbit_transfer.Wasm.{Fountain, Decoder, new_fountain, is_complete, reconstruct}
use orbit_transfer.Wasm.Browser.{joined_decoder, add_all, joined_decoder-add_all}
use orbit_transfer.Examples.Platforms.{counting, counting-DrawsInRange}
use orbit_transfer.Examples.FountainRuns.{payload, payload-IsBytes, made, encoder-made}

abbrev page : Fountain counting
page = record { encoder = made }

joined_decoder-add_all_example :
    (d d' : Decoder counting) × (joined_decoder counting page ≡ some d)
    × (add_all counting page (ids_from 8 0) d ≡ some d')
    × (is_complete counting d' ≡ true)
    × (reconstruct counting d' ≡ some (ok payload))
unfolding s_for h_for new_fountain Encoder.new build_precoded Soliton.new xor_loop
joined_decoder-add_all_example =
    joined_decoder-add_all counting counting-DrawsInRange payload 2 page payload-IsBytes refl
      (ids_from 8 0) (omega arith) (omega arith)
      (ids_from-Encodes counting counting-DrawsInRange payload 2 made payload-IsBytes encoder-made 8
        0 (omega arith))
      (λ i inside. contains-ids_from 8 0 i (omega arith) (omega arith))
