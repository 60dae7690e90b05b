-- ===== src/Examples/WireRuns.antt =====
-- crates/orbit-protocol/src/wire.rs on the messages of its own tests.
use orbit_transfer.Prelude.{
  ℕ, ◌≡◌, refl, List, [], ◌∷◌, ◌++◌, some, none, arith, replicate, ◌%◌, ◌^◌, length,
}
use orbit_transfer.Prelude.Le.{le_bytes, le_value}
use orbit_transfer.Wire.Utf8.{is_utf8}
use orbit_transfer.Wire.Fields.{IsMessage}
use orbit_transfer.Wire.RoundTrip.{decode-encode}
use orbit_transfer.Wire.Frames.{parse_frame-encode, parse_frame-prefix}
use orbit_transfer.Wire.Bounds.{Decoded, decode-Decoded}
use orbit_transfer.Wire.ShortMeta.{meta_payload, decode_meta_panics}
use orbit_transfer.Wire.{
  OrbitMessage, hello, meta, symbol, ok, panic, encode, decode, parse_frame, encode_parts, index,
  role_sender, type_meta,
}

-- "a.mp4"
abbrev name : List ℕ
name = 0x61 ∷ 0x2e ∷ 0x6d ∷ 0x70 ∷ 0x34 ∷ []

abbrev announcement : OrbitMessage
announcement = meta 42 name 1_000_000_000 65536 15259 0xDEADBEEF

announcement-IsMessage : IsMessage announcement
unfolding is_utf8
announcement-IsMessage =
    (omega arith, refl, omega arith, omega arith, omega arith, omega arith, omega arith)

decode-encode_example : decode (encode announcement) ≡ ok announcement
unfolding encode_parts le_bytes
decode-encode_example =
    decode-encode announcement announcement-IsMessage (omega arith) (omega arith)

abbrev piece : OrbitMessage
piece = symbol 1 2 (replicate 10 7)

parse_frame-encode_example : parse_frame (encode piece ++ 9 ∷ []) ≡ (ok (some piece), 9 ∷ [])
unfolding encode_parts le_bytes
parse_frame-encode_example = parse_frame-encode piece (omega arith) (omega arith) tt (9 ∷ [])

abbrev greeting : OrbitMessage
greeting = hello 7 role_sender

abbrev greeting_front : List ℕ
greeting_front = 1 ∷ 9 ∷ 0 ∷ 0 ∷ 0 ∷ 7 ∷ 0 ∷ []

parse_frame-prefix_example : parse_frame greeting_front ≡ (ok none, greeting_front)
unfolding encode encode_parts le_bytes
parse_frame-prefix_example =
    parse_frame-prefix greeting (omega arith) greeting_front (0 ∷ 0 ∷ 0 ∷ 0 ∷ 0 ∷ 1 ∷ []) 0 refl

-- A META of 34 bytes and its name.
abbrev meta_frame : List ℕ
unfolding encode encode_parts le_bytes
meta_frame = encode announcement

decode-Decoded_example : Decoded (decode meta_frame)
unfolding meta_frame index le_value
decode-Decoded_example = decode-Decoded meta_frame (omega arith) (λ e. omega arith)

decode_meta_panics_example :
    decode (
      type_meta
      ∷ (le_bytes 4 (length (meta_payload 42 name (replicate 20 0)) % 2 ^ 32)
          ++ meta_payload 42 name (replicate 20 0)))
    ≡ panic
unfolding is_utf8
decode_meta_panics_example =
    decode_meta_panics 42 name (replicate 20 0) (omega arith) (omega arith) refl (omega arith)
      (omega arith)
