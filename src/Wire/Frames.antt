-- ===== src/Wire/Frames.antt =====
-- `parse_frame` on a stream of encoded messages, as it arrives.
use orbit_transfer.Prelude.{
  ℕ, zero, suc, ◌+◌, ◌%◌, ◌^◌, ◌≤◌, ◌<◌, ◌≡◌, refl, sym, ap, List, [], ◌∷◌, ◌++◌, arith, length,
  length-append, ◌∙◌, some, none,
}
use orbit_transfer.Prelude.Le.{le_bytes, length-le_bytes, le_value-le_bytes}
use orbit_transfer.Wire.Fields.{IsMessage, TextFits, payload_len, split_to-append}
use native.Mathlib.Decide.{dec_lt}
use orbit_transfer.Wire.RoundTrip.{decode-encode}
use orbit_transfer.Wire.{
  OrbitMessage, ok, err, frame_too_large, index, split_to, frame_len, encode_parts, encode, decode,
  parse_frame, parse_sized, parse_complete, max_frame,
}

pub length-encode : (m : OrbitMessage) → length (encode m) ≡ 5 + payload_len m
unfolding encode
length-encode m = omega (
  arith,
  length-append (le_bytes 4 (payload_len m % 2 ^ 32)) (encode_parts m).1,
  length-le_bytes 4 (payload_len m % 2 ^ 32),
)

index-append : (xs ys : List ℕ) (i : ℕ) → i < length xs → index (xs ++ ys) i ≡ index xs i
unfolding index
index-append [] ys i h = absurd (omega arith)
index-append (x ∷ xs) ys zero h = refl
index-append (x ∷ xs) ys (suc i) h = index-append xs ys i (omega arith)

-- The length field stands in the first five bytes.
frame_len-append : (xs ys : List ℕ) → 5 ≤ length xs → frame_len (xs ++ ys) ≡ frame_len xs
unfolding frame_len
frame_len-append xs ys h =
    rw
      (
        index-append xs ys 1 (omega arith),
        index-append xs ys 2 (omega arith),
        index-append xs ys 3 (omega arith),
        index-append xs ys 4 (omega arith),
      )
      refl

frame_len-encode :
    (m : OrbitMessage) → payload_len m < 2 ^ 32 → frame_len (encode m) ≡ ok (payload_len m)
unfolding frame_len index encode le_bytes
frame_len-encode m h = ap ok (le_value-le_bytes 4 _ (omega arith) ∙ omega arith)

parse_frame-sized :
    (buf : List ℕ) (len : ℕ)
    → 5 ≤ length buf
    → frame_len buf ≡ ok len
    → parse_frame buf ≡ parse_sized len buf
unfolding parse_frame
parse_frame-sized buf len h e = ground arith

parse_sized-fits :
    (len : ℕ) (buf : List ℕ)
    → len ≤ max_frame
    → 5 + len ≤ length buf
    → parse_sized len buf ≡ parse_complete len buf
unfolding parse_sized
parse_sized-fits len buf h k = ground arith

parse_complete-append :
    (frame rest : List ℕ) (len : ℕ) (m : OrbitMessage)
    → length frame ≡ 5 + len
    → decode frame ≡ ok m
    → parse_complete len (frame ++ rest) ≡ (ok (some m), rest)
unfolding parse_complete
parse_complete-append frame rest len m e d =
    let cut : split_to (5 + len) (frame ++ rest) ≡ ok (frame, rest) =
      rw (← e) (split_to-append frame rest) in
    ground arith

module _ (m : OrbitMessage) (short : payload_len m ≤ max_frame) where
  encode_len : (rest : List ℕ) → frame_len (encode m ++ rest) ≡ ok (payload_len m)
  encode_len rest =
      frame_len-append (encode m) rest (omega (arith, length-encode m))
      ∙ frame_len-encode m (omega arith)

  -- A buffer that begins with the frame of a message parses to that message and keeps what
  -- follows the frame, when the message is in range, its text fits and its payload is at most
  -- `MAX_FRAME` bytes.
  pub parse_frame-encode :
      IsMessage m
      → TextFits m
      → (rest : List ℕ) → parse_frame (encode m ++ rest) ≡ (ok (some m), rest)
  parse_frame-encode h fits rest =
      parse_frame-sized (encode m ++ rest) (payload_len m) (omega (arith, long)) (encode_len rest)
      ∙ parse_sized-fits (payload_len m) (encode m ++ rest) short (omega (arith, long))
      ∙ parse_complete-append (encode m) rest (payload_len m) m (length-encode m)
          (decode-encode m h fits (omega arith))
    where
      long : length (encode m ++ rest) ≡ 5 + payload_len m + length rest
      long = omega (arith, length-append (encode m) rest, length-encode m)

  -- A proper prefix of a frame of at most `MAX_FRAME` payload bytes asks for more bytes and
  -- leaves the buffer as it is.
  pub parse_frame-prefix :
      (front back : List ℕ) (x : ℕ)
      → front ++ (x ∷ back) ≡ encode m
      → parse_frame front ≡ (ok none, front)
  parse_frame-prefix front back x e = elim (dec_lt (length front) 5) [
    | yes few ↦ few_bytes front few
    | no enough ↦
        parse_frame-sized front (payload_len m) (omega arith) (
          sym (frame_len-append front (x ∷ back) (omega arith))
          ∙ ap frame_len e
          ∙ frame_len-encode m (omega arith))
        ∙ waits front (payload_len m) short
            (omega (arith, length-append front (x ∷ back), ap length e, length-encode m))
  ]
    where
      few_bytes : (buf : List ℕ) → length buf < 5 → parse_frame buf ≡ (ok none, buf)
      few_bytes buf h = unfold parse_frame in ground arith

      waits :
          (buf : List ℕ) (len : ℕ)
          → len ≤ max_frame
          → length buf < 5 + len
          → parse_sized len buf ≡ (ok none, buf)
      waits buf len h k = unfold parse_sized in ground arith

-- A length field above `MAX_FRAME` is refused with that length, and nothing is consumed.
pub parse_frame_too_large :
    (ty len : ℕ) (rest : List ℕ)
    → max_frame < len
    → len < 2 ^ 32
    → parse_frame (ty ∷ (le_bytes 4 len ++ rest))
      ≡ (err (frame_too_large len), ty ∷ (le_bytes 4 len ++ rest))
unfolding le_bytes frame_len
parse_frame_too_large ty len rest h k =
    parse_frame-sized _ len (omega arith) (ap ok (le_value-le_bytes 4 len (omega arith)))
    ∙ (unfold parse_sized in ground arith)
