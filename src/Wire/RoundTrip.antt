-- ===== src/Wire/RoundTrip.antt =====
-- `decode` after `encode`.
use orbit_transfer.Prelude.{
  ℕ, ◌%◌, ◌^◌, ◌<◌, ◌≡◌, refl, true, List, [], ◌∷◌, ◌++◌, arith, length, length-append, ◌∙◌,
}
use orbit_transfer.Prelude.Le.{le_bytes, le_value, length-le_bytes, le_value-le_bytes}
use orbit_transfer.Wire.Utf8.{is_utf8}
use mathlib.Core.List.{append-nil}
use orbit_transfer.Wire.Fields.{
  IsMessage, TextFits, payload_len, get_uint-append, get_uint-le_bytes, split_to-append,
}
use orbit_transfer.Wire.{
  OrbitMessage, hello, meta, symbol, done, ready, direct, ok, index, get_uint, split_to, from_utf8,
  frame_len, encode_parts, encode, decode, decode_body, decode_hello, decode_meta,
  decode_meta_numbers, decode_symbol, decode_done, decode_ready, decode_direct,
}

le_value_one : (b : ℕ) → le_value (b ∷ []) ≡ b
unfolding le_value
le_value_one b = omega arith

decode_hello-encode :
    (s role : ℕ) → s < 2 ^ 64 → decode_hello (le_bytes 8 s ++ role ∷ []) ≡ ok (hello s role)
unfolding decode_hello
decode_hello-encode s role h = ground (
  arith,
  length-append (le_bytes 8 s) (role ∷ []),
  length-le_bytes 8 s,
  get_uint-le_bytes 8 s (role ∷ []),
  get_uint-append 1 (role ∷ []) [] refl,
  le_value_one role,
)

decode_symbol-encode :
    (s esi : ℕ) (payload : List ℕ)
    → s < 2 ^ 64
    → esi < 2 ^ 32
    → decode_symbol (le_bytes 8 s ++ (le_bytes 4 esi ++ payload)) ≡ ok (symbol s esi payload)
unfolding decode_symbol
decode_symbol-encode s esi payload hs he = ground (
  arith,
  length-append (le_bytes 8 s) (le_bytes 4 esi ++ payload),
  length-append (le_bytes 4 esi) payload,
  length-le_bytes 8 s,
  length-le_bytes 4 esi,
  get_uint-le_bytes 8 s (le_bytes 4 esi ++ payload),
  get_uint-le_bytes 4 esi payload,
)

-- A field that ends the payload.
get_uint_last : (n v : ℕ) → v < 256 ^ n → get_uint n (le_bytes n v) ≡ ok (v, [])
get_uint_last n v h = rw (← append-nil (le_bytes n v)) (get_uint-le_bytes n v [] h)

decode_done-encode : (s : ℕ) → s < 2 ^ 64 → decode_done (le_bytes 8 s) ≡ ok (done s)
unfolding decode_done
decode_done-encode s h = ground (arith, length-le_bytes 8 s, get_uint_last 8 s)

decode_ready-encode : (s : ℕ) → s < 2 ^ 64 → decode_ready (le_bytes 8 s) ≡ ok (ready s)
unfolding decode_ready
decode_ready-encode s h = ground (arith, length-le_bytes 8 s, get_uint_last 8 s)

decode_direct-encode :
    (s : ℕ) (addr : List ℕ)
    → s < 2 ^ 64
    → length addr < 2 ^ 16
    → is_utf8 addr ≡ true
    → decode_direct (le_bytes 8 s ++ (le_bytes 2 (length addr % 2 ^ 16) ++ addr))
      ≡ ok (direct s addr)
unfolding decode_direct from_utf8
decode_direct-encode s addr hs hl hu =
    let fits : length addr % 2 ^ 16 ≡ length addr = omega arith in
    rw fits (
      ground (
        arith,
        length-append (le_bytes 8 s) (le_bytes 2 (length addr) ++ addr),
        length-append (le_bytes 2 (length addr)) addr,
        length-le_bytes 8 s,
        length-le_bytes 2 (length addr),
        get_uint-le_bytes 8 s (le_bytes 2 (length addr) ++ addr),
        get_uint-le_bytes 2 (length addr) addr,
        split_to_whole addr,
      ))
  where
    split_to_whole : (xs : List ℕ) → split_to (length xs) xs ≡ ok (xs, [])
    split_to_whole xs = rw (append-nil xs) at (split_to-append xs [])

module _ (size symbol_size k checksum : ℕ) where
  abbrev meta_tail : List ℕ
  meta_tail = le_bytes 8 size ++ (le_bytes 4 symbol_size ++ (le_bytes 4 k ++ le_bytes 8 checksum))

  length-meta_tail : length meta_tail ≡ 24
  length-meta_tail = omega (
    arith,
    length-append (le_bytes 8 size)
        (le_bytes 4 symbol_size ++ (le_bytes 4 k ++ le_bytes 8 checksum)),
    length-append (le_bytes 4 symbol_size) (le_bytes 4 k ++ le_bytes 8 checksum),
    length-append (le_bytes 4 k) (le_bytes 8 checksum),
    length-le_bytes 8 size,
    length-le_bytes 4 symbol_size,
    length-le_bytes 4 k,
    length-le_bytes 8 checksum,
  )

  decode_meta-encode :
      (s : ℕ) (name : List ℕ)
      → s < 2 ^ 64
      → length name < 2 ^ 16
      → is_utf8 name ≡ true
      → size < 2 ^ 64
      → symbol_size < 2 ^ 32
      → k < 2 ^ 32
      → checksum < 2 ^ 64
      → decode_meta (le_bytes 8 s ++ (le_bytes 2 (length name % 2 ^ 16) ++ (name ++ meta_tail)))
        ≡ ok (meta s name size symbol_size k checksum)
  unfolding decode_meta decode_meta_numbers from_utf8
  decode_meta-encode s name hs hl hu h1 h2 h3 h4 =
      let fits : length name % 2 ^ 16 ≡ length name = omega arith in
      rw fits (
        ground (
          arith,
          length-append (le_bytes 8 s) (le_bytes 2 (length name) ++ (name ++ meta_tail)),
          length-append (le_bytes 2 (length name)) (name ++ meta_tail),
          length-append name meta_tail,
          length-meta_tail,
          length-le_bytes 8 s,
          length-le_bytes 2 (length name),
          get_uint-le_bytes 8 s (le_bytes 2 (length name) ++ (name ++ meta_tail)),
          get_uint-le_bytes 2 (length name) (name ++ meta_tail),
          split_to-append name meta_tail,
          get_uint-le_bytes 8 size
              (le_bytes 4 symbol_size ++ (le_bytes 4 k ++ le_bytes 8 checksum)),
          get_uint-le_bytes 4 symbol_size (le_bytes 4 k ++ le_bytes 8 checksum),
          get_uint-le_bytes 4 k (le_bytes 8 checksum),
          get_uint_last 8 checksum,
        ))

-- `decode` of a frame with the right length field goes on to its payload.
decode-header :
    (ty b1 b2 b3 b4 : ℕ) (payload : List ℕ)
    → le_value (b1 ∷ b2 ∷ b3 ∷ b4 ∷ []) ≡ length payload
    → decode (ty ∷ b1 ∷ b2 ∷ b3 ∷ b4 ∷ payload) ≡ decode_body ty payload
unfolding decode frame_len index split_to
decode-header ty b1 b2 b3 b4 payload e = ground arith

pub decode-frame :
    (ty : ℕ) (payload : List ℕ)
    → length payload < 2 ^ 32
    → decode (ty ∷ (le_bytes 4 (length payload % 2 ^ 32) ++ payload)) ≡ decode_body ty payload
unfolding le_bytes
decode-frame ty payload h =
    decode-header ty _ _ _ _ payload (le_value-le_bytes 4 _ (omega arith) ∙ omega arith)

decode_body-encode :
    (m : OrbitMessage)
    → IsMessage m
    → TextFits m
    → decode_body (encode_parts m).0 (encode_parts m).1 ≡ ok m
unfolding decode_body encode_parts
decode_body-encode (hello s role) h fits = decode_hello-encode s role h.0
decode_body-encode (meta s name size symbol_size k checksum) h fits =
    decode_meta-encode size symbol_size k checksum s name h.0 fits h.1 h.3 h.4 h.5 h.6
decode_body-encode (symbol s esi payload) h fits = decode_symbol-encode s esi payload h.0 h.1
decode_body-encode (done s) h fits = decode_done-encode s h
decode_body-encode (ready s) h fits = decode_ready-encode s h
decode_body-encode (direct s addr) h fits = decode_direct-encode s addr h.0 fits h.1

-- Decoding an encoded message gives the message back, for every message type: when the fields
-- are in the ranges of their Rust types, a text field is shorter than 2 ^ 16 bytes and the
-- payload shorter than 2 ^ 32.
pub decode-encode :
    (m : OrbitMessage)
    → IsMessage m
    → TextFits m
    → payload_len m < 2 ^ 32
    → decode (encode m) ≡ ok m
unfolding encode
decode-encode m h fits short =
    decode-frame (encode_parts m).0 (encode_parts m).1 short ∙ decode_body-encode m h fits
