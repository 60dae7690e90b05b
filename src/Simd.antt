-- ===== src/Simd.antt =====
-- crates/orbit-fountain/src/simd.rs: `xor_inplace` and `xor_into`, eight bytes at a time and the
-- rest byte by byte. `none` is the panic of `assert_eq!` on the lengths.
--
-- The loops walk both slices from the front, so they recur on what is left of the slices; the
-- fuel is the length, one round of a word each. A `u64` is read and written by
-- `le_value` and `le_bytes`; the byte order makes no difference to an exclusive or.
pub mod Laws
pub mod Blocks
use orbit_transfer.Prelude.{
  ℕ, zero, suc, Bool, true, false, ◌&&◌, List, [], ◌∷◌, ◌++◌, Option, none, some, leb, ◌==◌,
  if◌then◌else◌, length, take, drop, bit_xor,
}
use orbit_transfer.Prelude.Le.{le_bytes, le_value}

-- The trailing bytes: `dst[i] = a[i] ^ b[i]`, to the end of the shorter slice.
unfoldable pub xor_bytes : List ℕ → List ℕ → List ℕ
xor_bytes [] b = []
xor_bytes (x ∷ a) [] = []
xor_bytes (x ∷ a) (y ∷ b) = bit_xor x y ∷ xor_bytes a b

-- One word: eight bytes read, combined and written.
unfoldable pub xor_word : List ℕ → List ℕ → List ℕ
xor_word a b = le_bytes 8 (bit_xor (le_value (take 8 a)) (le_value (take 8 b)))

unfoldable pub xor_loop : ℕ → List ℕ → List ℕ → List ℕ
unfolding xor_word xor_bytes
xor_loop zero a b = []
xor_loop (suc fuel) a b =
    let rest = xor_loop fuel (drop 8 a) (drop 8 b) in
    if leb 8 (length a) then xor_word a b ++ rest else xor_bytes a b

unfoldable pub xor_inplace : List ℕ → List ℕ → Option (List ℕ)
xor_inplace dst src =
    if length dst == length src then some (xor_loop (length dst) dst src) else none

unfoldable pub xor_into : List ℕ → List ℕ → List ℕ → Option (List ℕ)
xor_into dst a b =
    if length dst == length a && length dst == length b
    then some (xor_loop (length dst) a b)
    else none
