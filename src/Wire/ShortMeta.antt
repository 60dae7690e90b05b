-- ===== src/Wire/ShortMeta.antt =====
-- The length check of `decode` on META frames, which is four bytes short of the fields it guards.
use orbit_transfer.Prelude.{
  ℕ, ◌+◌, ◌%◌, ◌^◌, ◌≤◌, ◌<◌, ◌≡◌, true, List, ◌∷◌, ◌++◌, arith, length, length-append, length-drop,
  drop, ◌∙◌,
}
use orbit_transfer.Prelude.Le.{le_bytes, length-le_bytes}
use orbit_transfer.Wire.Utf8.{is_utf8}
use orbit_transfer.Wire.Fields.{get_uint-le_bytes, split_to-append, get_uint-ok}
use orbit_transfer.Wire.RoundTrip.{decode-frame}
use orbit_transfer.Wire.{
  panic, type_meta, get_uint, from_utf8, decode, decode_body, decode_meta, decode_meta_numbers,
}

abbrev pub meta_payload : ℕ → List ℕ → List ℕ → List ℕ
meta_payload s name rest = le_bytes 8 s ++ (le_bytes 2 (length name) ++ (name ++ rest))

length-meta_payload :
    (s : ℕ) (name rest : List ℕ)
    → length (meta_payload s name rest) ≡ 10 + length name + length rest
length-meta_payload s name rest = omega (
  arith,
  length-append (le_bytes 8 s) (le_bytes 2 (length name) ++ (name ++ rest)),
  length-append (le_bytes 2 (length name)) (name ++ rest),
  length-append name rest,
  length-le_bytes 8 s,
  length-le_bytes 2 (length name),
)

get_uint_short : (n : ℕ) (b : List ℕ) → length b < n → get_uint n b ≡ panic
unfolding get_uint
get_uint_short n b h = ground arith

decode_meta_numbers_short :
    (s : ℕ) (name b : List ℕ) → 16 ≤ length b → length b < 24 → decode_meta_numbers s name b ≡ panic
unfolding decode_meta_numbers
decode_meta_numbers_short s name b h k =
    let b2 = drop 8 b in
    let b3 = drop 4 b2 in
    let b4 = drop 4 b3 in
    ground (
      arith,
      get_uint-ok 8 b,
      get_uint-ok 4 b2,
      get_uint-ok 4 b3,
      get_uint_short 8 b4,
      length-drop 8 b,
      length-drop 4 b2,
      length-drop 4 b3,
    )

module _ (s : ℕ) (name rest : List ℕ) (session_fits : s < 2 ^ 64) (name_fits : length name < 2 ^ 16)
    (utf8 : is_utf8 name ≡ true) (long : 20 ≤ length rest) (short : length rest < 24) where
  decode_meta_short : decode_meta (meta_payload s name rest) ≡ panic
  unfolding decode_meta from_utf8
  decode_meta_short = ground (
    arith,
    length-meta_payload s name rest,
    length-append (le_bytes 2 (length name)) (name ++ rest),
    length-append name rest,
    length-le_bytes 2 (length name),
    get_uint-le_bytes 8 s (le_bytes 2 (length name) ++ (name ++ rest)),
    get_uint-le_bytes 2 (length name) (name ++ rest),
    split_to-append name rest,
    decode_meta_numbers_short s name rest,
  )

  -- A META frame with a name that is UTF-8 and shorter than 2 ^ 16 bytes makes `decode` panic when
  -- the name is followed by 20 to 23 bytes: the frame passes both length checks, and the read of
  -- the checksum runs past its end.
  pub decode_meta_panics :
      decode (
        type_meta
        ∷ (le_bytes 4 (length (meta_payload s name rest) % 2 ^ 32) ++ meta_payload s name rest))
      ≡ panic
  decode_meta_panics =
      decode-frame type_meta (meta_payload s name rest)
        (omega (arith, length-meta_payload s name rest))
      ∙ is_meta
    where
      is_meta : decode_body type_meta (meta_payload s name rest) ≡ panic
      is_meta = unfold decode_body in decode_meta_short
