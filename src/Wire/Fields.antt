-- ===== src/Wire/Fields.antt =====
-- What a message of the Rust type holds, and the reads of single fields: `Buf::get_*_le` after
-- `BufMut::put_*_le`, and `split_to` at the end of a part.
use orbit_transfer.Prelude.{
  ℕ, ◌^◌, ◌≤◌, ◌<◌, ◌≡◌, refl, subst, true, List, ◌++◌, arith, length, take, drop, length-append,
  take-append, drop-append, All-take, length-take,
}
use orbit_transfer.Prelude.Le.{
  IsBytes, le_bytes, le_value, length-le_bytes, le_value-le_bytes, le_value-lt,
}
use orbit_transfer.Wire.Utf8.{is_utf8}
use orbit_transfer.Wire.{
  OrbitMessage, hello, meta, symbol, done, ready, direct, ok, get_uint, split_to, encode_parts,
}

-- The ranges that the field types `u64`, `u32`, `u8`, `String` and `Bytes` give.
abbrev pub IsMessage : OrbitMessage → Type 0
IsMessage (hello s role) = (s < 2 ^ 64) × (role < 256)
IsMessage (meta s filename size symbol_size k checksum) =
    (s < 2 ^ 64)
    × (is_utf8 filename ≡ true)
    × IsBytes filename
    × (size < 2 ^ 64)
    × (symbol_size < 2 ^ 32)
    × (k < 2 ^ 32)
    × (checksum < 2 ^ 64)
IsMessage (symbol s esi payload) = (s < 2 ^ 64) × (esi < 2 ^ 32) × IsBytes payload
IsMessage (done s) = s < 2 ^ 64
IsMessage (ready s) = s < 2 ^ 64
IsMessage (direct s addr) = (s < 2 ^ 64) × (is_utf8 addr ≡ true) × IsBytes addr

-- The length of a text fits its `u16` field.
abbrev pub TextFits : OrbitMessage → Type 0
TextFits (meta s filename size symbol_size k checksum) = length filename < 2 ^ 16
TextFits (direct s addr) = length addr < 2 ^ 16
TextFits m = Unit {0}

abbrev pub payload_len : OrbitMessage → ℕ
payload_len m = length (encode_parts m).1

pub get_uint-append :
    (n : ℕ) (xs ys : List ℕ) → length xs ≡ n → get_uint n (xs ++ ys) ≡ ok (le_value xs, ys)
unfolding get_uint
get_uint-append n xs ys e =
    rw (← e) (ground (arith, length-append xs ys, take-append xs ys, drop-append xs ys))

pub get_uint-le_bytes :
    (n v : ℕ) (ys : List ℕ) → v < 256 ^ n → get_uint n (le_bytes n v ++ ys) ≡ ok (v, ys)
get_uint-le_bytes n v ys h =
    rw (get_uint-append n (le_bytes n v) ys (length-le_bytes n v), le_value-le_bytes n v h) refl

pub split_to-append : (xs ys : List ℕ) → split_to (length xs) (xs ++ ys) ≡ ok (xs, ys)
unfolding split_to
split_to-append xs ys = ground (arith, length-append xs ys, take-append xs ys, drop-append xs ys)

-- A read that has its bytes gives them and the rest.
pub get_uint-ok :
    (n : ℕ) (b : List ℕ) → n ≤ length b → get_uint n b ≡ ok (le_value (take n b), drop n b)
unfolding get_uint
get_uint-ok n b h = ground arith

pub split_to-ok : (n : ℕ) (b : List ℕ) → n ≤ length b → split_to n b ≡ ok (take n b, drop n b)
unfolding split_to
split_to-ok n b h = ground arith

pub le_value-take-lt :
    (n : ℕ) (b : List ℕ) → IsBytes b → n ≤ length b → le_value (take n b) < 256 ^ n
le_value-take-lt n b h fits =
    let e : length (take n b) ≡ n = omega (arith, length-take n b) in
    subst (λ l. le_value (take n b) < 256 ^ l) e (le_value-lt (take n b) (All-take _ n b h))
