-- ===== src/Wire.antt =====
-- The binary framing of crates/orbit-protocol/src/wire.rs: message types, `encode`, `decode` and
-- `parse_frame`. Bytes are numbers below 256, integers are numbers below 2 ^ width, and a `String`
-- is the list of its UTF-8 bytes. `Outcome.panic` stands for a Rust panic (a slice or a `Buf::get_*`
-- that runs past the end), so that its absence is a theorem.
pub mod Utf8
pub mod Fields
pub mod RoundTrip
pub mod Frames
pub mod Bounds
pub mod ShortMeta
use orbit_transfer.Prelude.{
  ℕ, zero, suc, not, ◌+◌, ◌%◌, ◌^◌, ◌*◌, Bool, true, false, List, [], ◌∷◌, ◌++◌, Option, none, some,
  ltb, ◌==◌, if◌then◌else◌, length, take, drop,
}
use orbit_transfer.Prelude.Le.{le_bytes, le_value}
use Utf8.{is_utf8}

abbrev pub type_hello : ℕ
type_hello = 0x01

abbrev pub type_meta : ℕ
type_meta = 0x02

abbrev pub type_symbol : ℕ
type_symbol = 0x03

abbrev pub type_done : ℕ
type_done = 0x04

abbrev pub type_ready : ℕ
type_ready = 0x05

abbrev pub type_direct : ℕ
type_direct = 0x06

abbrev pub role_sender : ℕ
role_sender = 0x01

abbrev pub role_receiver : ℕ
role_receiver = 0x02

abbrev pub max_frame : ℕ
max_frame = 512 * 1024 * 1024

pub data ProtocolError : Type 0 where
  invalid_type : ℕ → ProtocolError
  frame_too_large : ℕ → ProtocolError
  truncated : ProtocolError
  invalid_filename : ProtocolError

pub data OrbitMessage : Type 0 where
  hello : (session_id role : ℕ) → OrbitMessage
  meta : (session_id : ℕ) (filename : List ℕ) (size symbol_size k checksum : ℕ) → OrbitMessage
  symbol : (session_id esi : ℕ) (payload : List ℕ) → OrbitMessage
  done : (session_id : ℕ) → OrbitMessage
  ready : (session_id : ℕ) → OrbitMessage
  direct : (session_id : ℕ) (addr : List ℕ) → OrbitMessage

-- What fallible code returns: a value, an error, or a panic.
pub data Outcome {ℓ} (A : Type ℓ) : Type ℓ where
  ok : A → Outcome A
  err : ProtocolError → Outcome A
  panic : Outcome A

infixl 5 ◌>>=◌ ◌>>◌
abbrev pub ◌>>=◌ {ℓ κ} : {A : Type ℓ} {B : Type κ} → Outcome A → (A → Outcome B) → Outcome B
ok a >>= f = f a
err e >>= f = err e
panic >>= f = panic

abbrev pub ◌>>◌ {ℓ} : {B : Type ℓ} → Outcome (Unit {0}) → Outcome B → Outcome B
m >> k = m >>= λ _. k

-- `if test { return Err(e) }`.
abbrev pub reject : Bool → ProtocolError → Outcome (Unit {0})
reject true e = err e
reject false e = ok tt

unfoldable pub session_id : OrbitMessage → ℕ
session_id (hello s role) = s
session_id (meta s filename size symbol_size k checksum) = s
session_id (symbol s esi payload) = s
session_id (done s) = s
session_id (ready s) = s
session_id (direct s addr) = s

-- The type byte and the payload that `encode` builds.
unfoldable pub encode_parts : OrbitMessage → ℕ × List ℕ
encode_parts (hello s role) = (type_hello, le_bytes 8 s ++ role ∷ [])
encode_parts (meta s filename size symbol_size k checksum) = (
  type_meta,
  le_bytes 8 s
      ++ (le_bytes 2 (length filename % 2 ^ 16)
          ++ (filename
              ++ (le_bytes 8 size
                  ++ (le_bytes 4 symbol_size ++ (le_bytes 4 k ++ le_bytes 8 checksum))))),
)
encode_parts (symbol s esi payload) = (type_symbol, le_bytes 8 s ++ (le_bytes 4 esi ++ payload))
encode_parts (done s) = (type_done, le_bytes 8 s)
encode_parts (ready s) = (type_ready, le_bytes 8 s)
encode_parts (direct s addr) =
    (type_direct, le_bytes 8 s ++ (le_bytes 2 (length addr % 2 ^ 16) ++ addr))

unfoldable pub encode : OrbitMessage → List ℕ
unfolding encode_parts
encode m =
    let (ty, payload) = encode_parts m in ty ∷ (le_bytes 4 (length payload % 2 ^ 32) ++ payload)

-- `frame[i]`.
unfoldable pub index : List ℕ → ℕ → Outcome ℕ
index [] i = panic
index (x ∷ xs) zero = ok x
index (x ∷ xs) (suc i) = index xs i

-- `Buf::get_u8`, `get_u16_le`, `get_u32_le` and `get_u64_le`, for `n` bytes.
pub get_uint : ℕ → List ℕ → Outcome (ℕ × List ℕ)
get_uint n b = if ltb (length b) n then panic else ok (le_value (take n b), drop n b)

-- `Bytes::split_to`, and `&frame[n..]` is its second part.
pub split_to : ℕ → List ℕ → Outcome (List ℕ × List ℕ)
split_to n b = if ltb (length b) n then panic else ok (take n b, drop n b)

pub from_utf8 : List ℕ → Outcome (List ℕ)
from_utf8 bs = if is_utf8 bs then ok bs else err invalid_filename

-- `u32::from_le_bytes([frame[1], frame[2], frame[3], frame[4]])`.
pub frame_len : List ℕ → Outcome ℕ
unfolding index
frame_len frame = do
  b1 ← index frame 1
  b2 ← index frame 2
  b3 ← index frame 3
  b4 ← index frame 4
  ok (le_value (b1 ∷ b2 ∷ b3 ∷ b4 ∷ []))

pub decode_hello : List ℕ → Outcome OrbitMessage
unfolding get_uint
decode_hello b = do
  reject (ltb (length b) 9) truncated
  (s, b) ← get_uint 8 b
  (role, b) ← get_uint 1 b
  ok (hello s role)

-- The fixed-size fields of a META after the file name.
pub decode_meta_numbers : ℕ → List ℕ → List ℕ → Outcome OrbitMessage
unfolding get_uint
decode_meta_numbers s filename b = do
  (size, b) ← get_uint 8 b
  (symbol_size, b) ← get_uint 4 b
  (k, b) ← get_uint 4 b
  (checksum, b) ← get_uint 8 b
  ok (meta s filename size symbol_size k checksum)

pub decode_meta : List ℕ → Outcome OrbitMessage
unfolding get_uint split_to from_utf8
decode_meta b = do
  reject (ltb (length b) 10) truncated
  (s, b) ← get_uint 8 b
  (name_len, b) ← get_uint 2 b
  reject (ltb (length b) (name_len + 20)) truncated
  (name, b) ← split_to name_len b
  filename ← from_utf8 name
  decode_meta_numbers s filename b

pub decode_symbol : List ℕ → Outcome OrbitMessage
unfolding get_uint
decode_symbol b = do
  reject (ltb (length b) 12) truncated
  (s, b) ← get_uint 8 b
  (esi, b) ← get_uint 4 b
  ok (symbol s esi b)

pub decode_done : List ℕ → Outcome OrbitMessage
unfolding get_uint
decode_done b = do reject (ltb (length b) 8) truncated; (s, b) ← get_uint 8 b; ok (done s)

pub decode_ready : List ℕ → Outcome OrbitMessage
unfolding get_uint
decode_ready b = do reject (ltb (length b) 8) truncated; (s, b) ← get_uint 8 b; ok (ready s)

pub decode_direct : List ℕ → Outcome OrbitMessage
unfolding get_uint split_to from_utf8
decode_direct b = do
  reject (ltb (length b) 10) truncated
  (s, b) ← get_uint 8 b
  (addr_len, b) ← get_uint 2 b
  reject (ltb (length b) addr_len) truncated
  (name, b) ← split_to addr_len b
  addr ← from_utf8 name
  ok (direct s addr)

pub decode_body : ℕ → List ℕ → Outcome OrbitMessage
decode_body ty b =
    if ty == type_hello
    then decode_hello b
    else if ty == type_meta
    then decode_meta b
    else if ty == type_symbol
    then decode_symbol b
    else if ty == type_done
    then decode_done b
    else if ty == type_ready
    then decode_ready b
    else if ty == type_direct
    then decode_direct b
    else err (invalid_type ty)

unfoldable pub decode : List ℕ → Outcome OrbitMessage
unfolding index frame_len split_to
decode frame = do
  reject (ltb (length frame) 5) truncated
  ty ← index frame 0
  len ← frame_len frame
  reject (not (length frame == 5 + len)) truncated
  (header, b) ← split_to 5 frame
  decode_body ty b

abbrev some_message : OrbitMessage → Outcome (Option OrbitMessage)
some_message m = ok (some m)

-- A complete frame is cut off `buf` before it is decoded.
pub parse_complete : ℕ → List ℕ → Outcome (Option OrbitMessage) × List ℕ
unfolding split_to
parse_complete len buf = elim (split_to (5 + len) buf) [
  | ok (frame, rest) ↦ (decode frame >>= some_message, rest)
  | err e ↦ (err e, buf)
  | panic ↦ (panic, buf)
]

pub parse_sized : ℕ → List ℕ → Outcome (Option OrbitMessage) × List ℕ
unfolding parse_complete
parse_sized len buf =
    if ltb max_frame len
    then (err (frame_too_large (len % 2 ^ 32)), buf)
    else if ltb (length buf) (5 + len)
    then (ok none, buf)
    else parse_complete len buf

-- The result, and the buffer that is left.
unfoldable pub parse_frame : List ℕ → Outcome (Option OrbitMessage) × List ℕ
unfolding frame_len parse_sized
parse_frame buf = if ltb (length buf) 5 then (ok none, buf) else elim (frame_len buf) [
  | ok len ↦ parse_sized len buf
  | err e ↦ (err e, buf)
  | panic ↦ (panic, buf)
]
