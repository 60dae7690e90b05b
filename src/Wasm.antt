-- ===== src/Wasm.antt =====
-- crates/orbit-wasm/src/lib.rs: the encoder and the decoder as JavaScript sees them. A `Uint8Array` is
-- the list of its bytes, and a text the list of its ASCII codes.
pub mod Hex
pub mod Browser
use orbit_transfer.Prelude.{
  ℕ, zero, suc, ◌+◌, ◌-◌, ◌*◌, ◌/◌, ◌%◌, ◌^◌, Bool, List, [], ◌∷◌, ◌++◌, Option, none, some, ltb,
  leb, ◌==◌, ◌&&◌, if◌then◌else◌, ◌>>=◌,
}
use orbit_transfer.Platform.{Platform}
use orbit_transfer.Encoder
use orbit_transfer.Encoder.{FountainEncoder}
use orbit_transfer.Decoder as Peeling
use orbit_transfer.Decoder.{FountainDecoder, DecoderError, Reconstructed}

unfoldable pub hex_digit : ℕ → ℕ
hex_digit d = if ltb d 10 then 48 + d else 87 + d

-- `{:0wx}` of a number that has at most `w` digits.
unfoldable pub hex_digits : ℕ → ℕ → List ℕ
unfolding hex_digit
hex_digits zero n = []
hex_digits (suc w) n = hex_digits w (n / 16) ++ hex_digit (n % 16) ∷ []

-- `char::to_digit(16)`.
unfoldable pub to_digit : ℕ → Option ℕ
to_digit c =
    if leb 48 c && leb c 57
    then some (c - 48)
    else if leb 97 c && leb c 102
    then some (c - 87)
    else if leb 65 c && leb c 70
    then some (c - 55)
    else none

-- A digit more, unless the number leaves `u64`.
unfoldable pub push_digit : ℕ → ℕ → Option ℕ
unfolding to_digit
push_digit value c = do
  d ← to_digit c
  if ltb (value * 16 + d) (2 ^ 64) then some (value * 16 + d) else none

unfoldable pub digits_value : ℕ → List ℕ → Option ℕ
unfolding push_digit
digits_value value [] = some value
digits_value value (c ∷ cs) = push_digit value c >>= λ next. digits_value next cs

-- `u64::from_str_radix(text, 16)`: a sign `+` may stand before the digits, of which there is one.
unfoldable pub from_str_radix : List ℕ → Option ℕ
unfolding digits_value
from_str_radix [] = none
from_str_radix (c ∷ []) = digits_value 0 (c ∷ [])
from_str_radix (c ∷ c2 ∷ cs) =
    if c == 43 then digits_value 0 (c2 ∷ cs) else digits_value 0 (c ∷ c2 ∷ cs)

module _ (p : Platform) where
  pub record Fountain : Type 0 where
    pub encoder : FountainEncoder p

  unfoldable pub new_fountain : List ℕ → ℕ → Option Fountain
  unfolding Encoder.new
  new_fountain payload symbol_size = do
    encoder ← Encoder.new p payload symbol_size
    some (record { encoder = encoder })

  unfoldable pub k : Fountain → ℕ
  k fountain = fountain.encoder.k % 2 ^ 32

  unfoldable pub l : Fountain → ℕ
  l fountain = fountain.encoder.l % 2 ^ 32

  unfoldable pub payload_len : Fountain → ℕ
  payload_len fountain = fountain.encoder.payload_len

  unfoldable pub symbol_size : Fountain → ℕ
  symbol_size fountain = fountain.encoder.symbol_size

  unfoldable pub checksum_hex : Fountain → List ℕ
  unfolding hex_digits
  checksum_hex fountain = hex_digits 16 fountain.encoder.checksum

  unfoldable pub encode_symbol : Fountain → ℕ → Option (List ℕ)
  unfolding Encoder.encode_symbol
  encode_symbol fountain esi = do sym ← Encoder.encode_symbol p fountain.encoder esi; some sym.block

  pub record Decoder : Type 0 where
    pub decoder : FountainDecoder p
    pub received : ℕ

  unfoldable pub new_decoder : ℕ → ℕ → ℕ → List ℕ → Option Decoder
  unfolding from_str_radix Peeling.new
  new_decoder len size n hex = do
    checksum ← from_str_radix hex
    decoder ← Peeling.new p len size n checksum
    some (record { decoder = decoder; received = 0 })

  unfoldable pub add_symbol : Decoder → ℕ → List ℕ → Option (Decoder × Bool)
  unfolding Peeling.add_symbol
  add_symbol d esi bytes = do
    (decoder, complete) ←
        Peeling.add_symbol p d.decoder
          (record { esi = esi; symbol_size = d.decoder.symbol_size; block = bytes })
    some (record { decoder = decoder; received = (d.received + 1) % 2 ^ 32 }, complete)

  unfoldable pub is_complete : Decoder → Bool
  unfolding Peeling.is_complete
  is_complete d = Peeling.is_complete p d.decoder

  -- A thrown error is the decoder's.
  unfoldable pub reconstruct : Decoder → Option Reconstructed
  unfolding Peeling.reconstruct
  reconstruct d = Peeling.reconstruct p d.decoder
