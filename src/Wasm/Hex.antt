-- ===== src/Wasm/Hex.antt =====
-- The checksum as text, of crates/orbit-wasm/src/lib.rs.
use orbit_transfer.Prelude.{
  ℕ, zero, suc, ◌+◌, ◌*◌, ◌/◌, ◌%◌, ◌^◌, ◌<◌, ◌≡◌, refl, ap, ◌∙◌, false, List, [], ◌∷◌, ◌++◌,
  Option, none, some, arith, All, All-append, ◌>>=◌, ◌==◌, length, length-append,
}
use native.Mathlib.Nat.{pow-succ'}
use orbit_transfer.Wasm.{hex_digit, hex_digits, to_digit, push_digit, digits_value, from_str_radix}

to_digit-hex_digit : (d : ℕ) → d < 16 → to_digit (hex_digit d) ≡ some d
unfolding to_digit hex_digit
to_digit-hex_digit d small = ground arith

push_digit-hex_digit :
    (v d : ℕ) → d < 16 → v * 16 + d < 2 ^ 64 → push_digit v (hex_digit d) ≡ some (v * 16 + d)
unfolding push_digit
push_digit-hex_digit v d small fits = rw (to_digit-hex_digit d small) (ground arith)

digits_value-append :
    (v c : ℕ) (cs : List ℕ)
    → digits_value v (cs ++ c ∷ []) ≡ (digits_value v cs >>= λ next. push_digit next c)
unfolding digits_value
digits_value-append v c [] = go (push_digit v c)
  where
    go : (o : Option ℕ) → (o >>= λ next. some next) ≡ o
    go none = refl
    go (some n) = refl
digits_value-append v c (c2 ∷ cs) = go (λ next. digits_value-append next c cs) (push_digit v c2)
  where
    go :
        ((next : ℕ)
          → digits_value next (cs ++ c ∷ []) ≡ (digits_value next cs >>= λ last. push_digit last c))
        → (o : Option ℕ)
        → (o >>= λ next. digits_value next (cs ++ c ∷ []))
          ≡ ((o >>= λ next. digits_value next cs) >>= λ last. push_digit last c)
    go later none = refl
    go later (some next) = later next

digits_value-hex_digits :
    (w n : ℕ) → n < 16 ^ w → n < 2 ^ 64 → digits_value 0 (hex_digits w n) ≡ some n
unfolding digits_value hex_digits
digits_value-hex_digits zero n h fits = ap some (omega arith)
digits_value-hex_digits (suc w) n h fits =
    let front = digits_value-hex_digits w (n / 16) (omega (arith, pow-succ' 16 w)) (omega arith) in
    digits_value-append 0 (hex_digit (n % 16)) (hex_digits w (n / 16))
    ∙ ap (λ o. o >>= λ next. push_digit next (hex_digit (n % 16))) front
    ∙ push_digit-hex_digit (n / 16) (n % 16) (omega arith) (omega arith)
    ∙ ap some (omega arith)

hex_digits_long : (w n : ℕ) → 0 < length (hex_digits (suc w) n)
unfolding hex_digits
hex_digits_long w n = omega (arith, length-append (hex_digits w (n / 16)) (hex_digit (n % 16) ∷ []))

hex_digit_plus : (d : ℕ) → (hex_digit d == 43) ≡ false
unfolding hex_digit
hex_digit_plus d = ground arith

hex_digits_plus : (w n : ℕ) → All (λ c. (c == 43) ≡ false) (hex_digits w n)
unfolding hex_digits
hex_digits_plus zero n = tt
hex_digits_plus (suc w) n =
    All-append (λ c. (c == 43) ≡ false) (hex_digits w (n / 16)) (hex_digit (n % 16) ∷ [])
      (hex_digits_plus w (n / 16)) (hex_digit_plus (n % 16), tt)

from_str_radix-digits_value :
    (c : ℕ) (cs : List ℕ) → (c == 43) ≡ false → from_str_radix (c ∷ cs) ≡ digits_value 0 (c ∷ cs)
unfolding from_str_radix
from_str_radix-digits_value c [] h = refl
from_str_radix-digits_value c (c2 ∷ cs) h = rw h refl

-- A checksum that is written as sixteen hexadecimal digits is read back, leading zeros and all.
pub from_str_radix-hex_digits : (n : ℕ) → n < 2 ^ 64 → from_str_radix (hex_digits 16 n) ≡ some n
from_str_radix-hex_digits n fits =
    go (hex_digits 16 n) (hex_digits_plus 16 n) (digits_value-hex_digits 16 n (omega arith) fits)
      (hex_digits_long 15 n)
  where
    go :
        (cs : List ℕ)
        → All (λ c. (c == 43) ≡ false) cs
        → digits_value 0 cs ≡ some n
        → 0 < length cs
        → from_str_radix cs ≡ some n
    go [] plus value long = absurd (omega arith)
    go (c ∷ cs) plus value long = from_str_radix-digits_value c cs plus.0 ∙ value
