-- ===== src/Simd/Laws.antt =====
-- The word loops combine byte by byte, and blocks under exclusive or are a commutative group in
-- which each block is its own inverse.
use native.Mathlib.Nat.{le_refl}
use orbit_transfer.Prelude.{
  ℕ, zero, suc, ◌+◌, ◌*◌, ◌≤◌, ◌≡◌, refl, sym, ap, ap₂, ◌∙◌, List, [], ◌∷◌, ◌++◌, some, arith,
  length, take, drop, replicate, bit_xor, All-take, All-drop, length-drop, length-take,
}
use orbit_transfer.Prelude.Le.{IsBytes, le_bytes, le_value, le_bytes-le_value}
use orbit_transfer.Prelude.Xor.{xor_byte, xor-lt, xor_comm, xor_assoc, xor_self, xor_zero}
use orbit_transfer.Simd.{xor_bytes, xor_word, xor_loop, xor_inplace, xor_into}

abbrev pub zeros : ℕ → List ℕ
zeros n = replicate n 0

pub length-xor_bytes : (a b : List ℕ) → length a ≡ length b → length (xor_bytes a b) ≡ length a
unfolding xor_bytes
length-xor_bytes [] b e = refl
length-xor_bytes (x ∷ a) [] e = absurd (omega arith)
length-xor_bytes (x ∷ a) (y ∷ b) e = ap suc (length-xor_bytes a b (omega arith))

pub xor_bytes_comm : (a b : List ℕ) → xor_bytes a b ≡ xor_bytes b a
unfolding xor_bytes
xor_bytes_comm [] [] = refl
xor_bytes_comm [] (y ∷ b) = refl
xor_bytes_comm (x ∷ a) [] = refl
xor_bytes_comm (x ∷ a) (y ∷ b) = ap₂ ◌∷◌ (xor_comm x y) (xor_bytes_comm a b)

pub xor_bytes_assoc : (a b c : List ℕ) → xor_bytes (xor_bytes a b) c ≡ xor_bytes a (xor_bytes b c)
unfolding xor_bytes
xor_bytes_assoc [] b c = refl
xor_bytes_assoc (x ∷ a) [] c = refl
xor_bytes_assoc (x ∷ a) (y ∷ b) [] = refl
xor_bytes_assoc (x ∷ a) (y ∷ b) (z ∷ c) = ap₂ ◌∷◌ (xor_assoc x y z) (xor_bytes_assoc a b c)

pub xor_bytes_self : (a : List ℕ) → xor_bytes a a ≡ zeros (length a)
unfolding xor_bytes
xor_bytes_self [] = refl
xor_bytes_self (x ∷ a) = ap₂ ◌∷◌ (xor_self x) (xor_bytes_self a)

pub xor_bytes_zero : (a : List ℕ) → xor_bytes a (zeros (length a)) ≡ a
unfolding xor_bytes
xor_bytes_zero [] = refl
xor_bytes_zero (x ∷ a) = ap₂ ◌∷◌ (xor_zero x) (xor_bytes_zero a)

pub xor_bytes-IsBytes : (a b : List ℕ) → IsBytes a → IsBytes b → IsBytes (xor_bytes a b)
unfolding xor_bytes
xor_bytes-IsBytes [] b h k = tt
xor_bytes-IsBytes (x ∷ a) [] h k = tt
xor_bytes-IsBytes (x ∷ a) (y ∷ b) h k = (xor-lt 8 x y h.0 k.0, xor_bytes-IsBytes a b h.1 k.1)

-- The exclusive or of two words is that of their bytes.
le_value-xor :
    (a b : List ℕ)
    → length a ≡ length b
    → IsBytes a
    → IsBytes b
    → bit_xor (le_value a) (le_value b) ≡ le_value (xor_bytes a b)
unfolding le_value xor_bytes
le_value-xor [] [] e h k = xor_zero 0
le_value-xor [] (y ∷ b) e h k = absurd (omega arith)
le_value-xor (x ∷ a) [] e h k = absurd (omega arith)
le_value-xor (x ∷ a) (y ∷ b) e h k =
    xor_byte x y (le_value a) (le_value b) h.0 k.0
    ∙ ap (λ t. bit_xor x y + 256 * t) (le_value-xor a b (omega arith) h.1 k.1)

xor_bytes-take-drop :
    (n : ℕ) (a b : List ℕ)
    → length a ≡ length b
    → xor_bytes (take n a) (take n b) ++ xor_bytes (drop n a) (drop n b) ≡ xor_bytes a b
unfolding xor_bytes
xor_bytes-take-drop zero a b e = refl
xor_bytes-take-drop (suc n) [] [] e = refl
xor_bytes-take-drop (suc n) [] (y ∷ b) e = absurd (omega arith)
xor_bytes-take-drop (suc n) (x ∷ a) [] e = absurd (omega arith)
xor_bytes-take-drop (suc n) (x ∷ a) (y ∷ b) e =
    ap (◌∷◌ (bit_xor x y)) (xor_bytes-take-drop n a b (omega arith))

xor_word-xor_bytes :
    (a b : List ℕ)
    → 8 ≤ length a
    → length a ≡ length b
    → IsBytes a
    → IsBytes b
    → xor_word a b ≡ xor_bytes (take 8 a) (take 8 b)
unfolding xor_word
xor_word-xor_bytes a b long e h k =
    let w = xor_bytes (take 8 a) (take 8 b) in
    let la : length (take 8 a) ≡ 8 = omega (arith, length-take 8 a) in
    let lb : length (take 8 b) ≡ 8 = omega (arith, length-take 8 b) in
    let lw : length w ≡ 8 = length-xor_bytes (take 8 a) (take 8 b) (la ∙ sym lb) ∙ la in
    let back : le_bytes (length w) (le_value w) ≡ w =
      le_bytes-le_value w
        (xor_bytes-IsBytes (take 8 a) (take 8 b) (All-take _ 8 a h) (All-take _ 8 b k)) in
    ap (le_bytes 8)
      (le_value-xor (take 8 a) (take 8 b) (la ∙ sym lb) (All-take _ 8 a h) (All-take _ 8 b k))
    ∙ ap (λ n. le_bytes n (le_value w)) (sym lw)
    ∙ back

xor_loop-xor_bytes :
    (fuel : ℕ) (a b : List ℕ)
    → length a ≤ fuel
    → length a ≡ length b
    → IsBytes a
    → IsBytes b
    → xor_loop fuel a b ≡ xor_bytes a b
unfolding xor_loop
xor_loop-xor_bytes zero [] b fits e h k = unfold xor_bytes in refl
xor_loop-xor_bytes zero (x ∷ a) b fits e h k = absurd (omega arith)
xor_loop-xor_bytes (suc fuel) a b fits e h k = ground (
  arith,
  xor_word-xor_bytes a b,
  xor_bytes-take-drop 8 a b e,
  length-drop 8 a,
  length-drop 8 b,
  xor_loop-xor_bytes fuel (drop 8 a) (drop 8 b),
  All-drop _ 8 a h,
  All-drop _ 8 b k,
)

-- On two lists of bytes of one length, the word-at-a-time loop of `xor_inplace` returns their
-- exclusive or byte by byte.
pub xor_inplace-xor_bytes :
    (dst src : List ℕ)
    → length dst ≡ length src
    → IsBytes dst
    → IsBytes src
    → xor_inplace dst src ≡ some (xor_bytes dst src)
unfolding xor_inplace
xor_inplace-xor_bytes dst src e h k =
    ground (arith, xor_loop-xor_bytes (length dst) dst src (le_refl _) e h k)

-- On two lists of bytes as long as the destination, `xor_into` returns their exclusive or byte by
-- byte, whatever the destination held.
pub xor_into-xor_bytes :
    (dst a b : List ℕ)
    → length dst ≡ length a
    → length dst ≡ length b
    → IsBytes a
    → IsBytes b
    → xor_into dst a b ≡ some (xor_bytes a b)
unfolding xor_into
xor_into-xor_bytes dst a b ea eb h k =
    ground (arith, xor_loop-xor_bytes (length dst) a b (omega arith) (sym ea ∙ eb) h k)
