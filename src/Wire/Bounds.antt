-- ===== src/Wire/Bounds.antt =====
-- `decode` and `parse_frame` on arbitrary bytes: they return, and what they return is in range.
use orbit_transfer.Prelude.{
  ℕ, ◌+◌, ◌^◌, ◌≤◌, ◌<◌, ◌≡◌, ap, List, [], ◌∷◌, arith, length, true, All-take, All-drop,
  length-take, length-drop, take, drop,
}
use orbit_transfer.Prelude.Le.{IsBytes, le_value}
use orbit_transfer.Wire.Fields.{IsMessage, TextFits, get_uint-ok, split_to-ok, le_value-take-lt}
use orbit_transfer.Wire.Utf8.{is_utf8}
use orbit_transfer.Wire.{
  type_meta, OrbitMessage, Outcome, ok, err, panic, index, from_utf8, decode, decode_body,
  decode_hello, decode_meta, decode_meta_numbers, decode_symbol, decode_done, decode_ready,
  decode_direct,
}

-- What a result must satisfy: no panic, and a message in range.
abbrev pub Decoded : Outcome OrbitMessage → Type 0
Decoded (ok m) = IsMessage m × TextFits m
Decoded (err e) = Unit {0}
Decoded panic = ⊥

decode_symbol-Decoded : (b : List ℕ) → IsBytes b → Decoded (decode_symbol b)
unfolding decode_symbol
decode_symbol-Decoded b h = ground (
  arith,
  get_uint-ok 8 b,
  get_uint-ok 4 (drop 8 b),
  length-drop 8 b,
  le_value-take-lt 8 b h,
  le_value-take-lt 4 (drop 8 b) (All-drop _ 8 b h),
  All-drop _ 4 (drop 8 b) (All-drop _ 8 b h),
)

decode_hello-Decoded : (b : List ℕ) → IsBytes b → Decoded (decode_hello b)
unfolding decode_hello
decode_hello-Decoded b h = ground (
  arith,
  get_uint-ok 8 b,
  get_uint-ok 1 (drop 8 b),
  length-drop 8 b,
  le_value-take-lt 8 b h,
  le_value-take-lt 1 (drop 8 b) (All-drop _ 8 b h),
)

decode_done-Decoded : (b : List ℕ) → IsBytes b → Decoded (decode_done b)
unfolding decode_done
decode_done-Decoded b h = ground (arith, get_uint-ok 8 b, le_value-take-lt 8 b h)

decode_ready-Decoded : (b : List ℕ) → IsBytes b → Decoded (decode_ready b)
unfolding decode_ready
decode_ready-Decoded b h = ground (arith, get_uint-ok 8 b, le_value-take-lt 8 b h)

decode_direct-Decoded : (b : List ℕ) → IsBytes b → Decoded (decode_direct b)
unfolding decode_direct from_utf8
decode_direct-Decoded b h =
    let b2 = drop 8 b in
    let n = le_value (take 2 b2) in
    let b3 = drop 2 b2 in
    ground (
      arith,
      get_uint-ok 8 b,
      get_uint-ok 2 b2,
      split_to-ok n b3,
      length-drop 8 b,
      length-drop 2 b2,
      length-take n b3,
      le_value-take-lt 8 b h,
      le_value-take-lt 2 b2 (All-drop _ 8 b h),
      All-take _ n b3 (All-drop _ 2 b2 (All-drop _ 8 b h)),
    )

-- META carries 24 bytes behind the name; the code asks for 20 of them.
decode_meta_numbers-Decoded :
    (s : ℕ) (name b : List ℕ)
    → IsBytes b
    → 24 ≤ length b
    → s < 2 ^ 64
    → (is_utf8 name ≡ true) × IsBytes name × (length name < 2 ^ 16)
    → Decoded (decode_meta_numbers s name b)
unfolding decode_meta_numbers
decode_meta_numbers-Decoded s name b h long hs hn =
    let b2 = drop 8 b in
    let b3 = drop 4 b2 in
    let b4 = drop 4 b3 in
    ground (
      arith,
      get_uint-ok 8 b,
      get_uint-ok 4 b2,
      get_uint-ok 4 b3,
      get_uint-ok 8 b4,
      length-drop 8 b,
      length-drop 4 b2,
      length-drop 4 b3,
      le_value-take-lt 8 b h,
      le_value-take-lt 4 b2 (All-drop _ 8 b h),
      le_value-take-lt 4 b3 (All-drop _ 4 b2 (All-drop _ 8 b h)),
      le_value-take-lt 8 b4 (All-drop _ 4 b3 (All-drop _ 4 b2 (All-drop _ 8 b h))),
    )

-- Where the name of a META ends, 24 bytes are left. The code asks for 20 of them.
abbrev pub MetaHasRoom : List ℕ → Type 0
MetaHasRoom b = le_value (take 2 (drop 8 b)) + 34 ≤ length b

decode_meta-Decoded : (b : List ℕ) → IsBytes b → MetaHasRoom b → Decoded (decode_meta b)
unfolding decode_meta from_utf8
decode_meta-Decoded b h room =
    let b2 = drop 8 b in
    let n = le_value (take 2 b2) in
    let b3 = drop 2 b2 in
    let h3 = All-drop _ 2 b2 (All-drop _ 8 b h) in
    ground (
      arith,
      get_uint-ok 8 b,
      get_uint-ok 2 b2,
      split_to-ok n b3,
      length-drop 8 b,
      length-drop 2 b2,
      length-drop n b3,
      length-take n b3,
      le_value-take-lt 8 b h,
      le_value-take-lt 2 b2 (All-drop _ 8 b h),
      All-take _ n b3 h3,
      decode_meta_numbers-Decoded (le_value (take 8 b)) (take n b3) (drop n b3)
          (All-drop _ n b3 h3),
    )

decode_body-Decoded :
    (ty : ℕ) (b : List ℕ)
    → IsBytes b
    → (ty ≡ type_meta → MetaHasRoom b)
    → Decoded (decode_body ty b)
unfolding decode_body
decode_body-Decoded ty b h room = ground (
  arith,
  decode_hello-Decoded b h,
  decode_meta-Decoded b h,
  decode_symbol-Decoded b h,
  decode_done-Decoded b h,
  decode_ready-Decoded b h,
  decode_direct-Decoded b h,
)

decode-Decoded_header :
    (ty b1 b2 b3 b4 : ℕ) (b : List ℕ)
    → Decoded (decode_body ty b)
    → Decoded (decode (ty ∷ b1 ∷ b2 ∷ b3 ∷ b4 ∷ b))
unfolding decode
decode-Decoded_header ty b1 b2 b3 b4 b h = ground arith

-- On any bytes `decode` returns without a panic, and a message that it returns has every field
-- in the range of its Rust type and a text of at most 65535 bytes. For META frames this is
-- stated under the condition that 24 bytes follow the name.
pub decode-Decoded :
    (frame : List ℕ)
    → IsBytes frame
    → (index frame 0 ≡ ok type_meta → MetaHasRoom (drop 5 frame))
    → Decoded (decode frame)
unfolding decode
decode-Decoded [] h room = tt
decode-Decoded (ty ∷ []) h room = tt
decode-Decoded (ty ∷ b1 ∷ []) h room = tt
decode-Decoded (ty ∷ b1 ∷ b2 ∷ []) h room = tt
decode-Decoded (ty ∷ b1 ∷ b2 ∷ b3 ∷ []) h room = tt
decode-Decoded (ty ∷ b1 ∷ b2 ∷ b3 ∷ b4 ∷ b) h room =
    decode-Decoded_header ty b1 b2 b3 b4 b
      (decode_body-Decoded ty b h.1.1.1.1.1 (λ e. room (ap ok e)))
