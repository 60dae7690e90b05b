-- ===== src/Prelude/Xor.antt =====
-- The laws of `^` on machine integers of any width, from the lowest binary digit up.
use Prim.Native.Nat.{
  ℕ, zero, suc, ◌+◌, ◌*◌, ◌/◌, ◌%◌, ◌^◌, ◌≤◌, ◌<◌, bit_xor, digits, differ, bit_xor-bitwise,
}
use mathlib.Core.Path.{◌≡◌, refl, ap}
use native.Mathlib.Nat.{le_refl, pow-suc}
use native.Mathlib.Omega.{arith}

abbrev xor_digits : ℕ → ℕ → ℕ → ℕ
xor_digits n a b = digits (λ y. y) differ n a b

xor_digits_fuel : (n m a b : ℕ) → a ≤ n → a ≤ m → xor_digits n a b ≡ xor_digits m a b
xor_digits_fuel zero zero a b p q = refl
xor_digits_fuel zero (suc m) zero b p q = refl
xor_digits_fuel zero (suc m) (suc a) b p q = absurd (omega arith)
xor_digits_fuel (suc n) zero zero b p q = refl
xor_digits_fuel (suc n) zero (suc a) b p q = absurd (omega arith)
xor_digits_fuel (suc n) (suc m) zero b p q = refl
xor_digits_fuel (suc n) (suc m) (suc a) b p q =
    omega (arith, xor_digits_fuel n m (suc a / 2) (b / 2) (omega arith) (omega arith))

differ_bits : (x y : ℕ) → x < 2 → y < 2 → differ x y ≡ (x + y) % 2
differ_bits zero y h k = omega arith
differ_bits (suc zero) zero h k = refl
differ_bits (suc zero) (suc zero) h k = refl
differ_bits (suc zero) (suc (suc y)) h k = absurd (omega arith)
differ_bits (suc (suc x)) y h k = absurd (omega arith)

xor_zero_left : (b : ℕ) → bit_xor 0 b ≡ b
xor_zero_left b = bit_xor-bitwise 0 b

-- One equation for the lowest digit.
pub xor_step : (a b : ℕ) → bit_xor a b ≡ bit_xor (a / 2) (b / 2) * 2 + (a + b) % 2
xor_step zero b = omega (arith, xor_zero_left b, xor_zero_left (b / 2))
xor_step (suc a) b = omega (
  arith,
  bit_xor-bitwise (suc a) b,
  bit_xor-bitwise (suc a / 2) (b / 2),
  differ_bits (suc a % 2) (b % 2) (omega arith) (omega arith),
  xor_digits_fuel a (suc a / 2) (suc a / 2) (b / 2) (omega arith) (omega arith),
)

xor_zero_fuel : (n a : ℕ) → a ≤ n → bit_xor a 0 ≡ a
xor_zero_fuel n zero h = xor_zero_left 0
xor_zero_fuel zero (suc a) h = absurd (omega arith)
xor_zero_fuel (suc n) (suc a) h =
    omega (arith, xor_step (suc a) 0, xor_zero_fuel n (suc a / 2) (omega arith))

pub xor_zero : (a : ℕ) → bit_xor a 0 ≡ a
xor_zero a = xor_zero_fuel a a (le_refl a)

xor_self_fuel : (n a : ℕ) → a ≤ n → bit_xor a a ≡ 0
xor_self_fuel n zero h = xor_zero_left 0
xor_self_fuel zero (suc a) h = absurd (omega arith)
xor_self_fuel (suc n) (suc a) h =
    omega (arith, xor_step (suc a) (suc a), xor_self_fuel n (suc a / 2) (omega arith))

pub xor_self : (a : ℕ) → bit_xor a a ≡ 0
xor_self a = xor_self_fuel a a (le_refl a)

xor_comm_fuel : (n a b : ℕ) → a + b ≤ n → bit_xor a b ≡ bit_xor b a
xor_comm_fuel n zero b h = omega (arith, xor_zero b, xor_zero_left b)
xor_comm_fuel zero (suc a) b h = absurd (omega arith)
xor_comm_fuel (suc n) (suc a) b h = omega (
  arith,
  xor_step (suc a) b,
  xor_step b (suc a),
  xor_comm_fuel n (suc a / 2) (b / 2) (omega arith),
)

pub xor_comm : (a b : ℕ) → bit_xor a b ≡ bit_xor b a
xor_comm a b = xor_comm_fuel (a + b) a b (le_refl (a + b))

xor_half : (a b : ℕ) → bit_xor a b / 2 ≡ bit_xor (a / 2) (b / 2)
xor_half a b = omega (arith, xor_step a b)

xor_parity : (a b : ℕ) → bit_xor a b % 2 ≡ (a + b) % 2
xor_parity a b = omega (arith, xor_step a b)

xor_assoc_fuel : (n a b c : ℕ) → a + b + c ≤ n → bit_xor (bit_xor a b) c ≡ bit_xor a (bit_xor b c)
xor_assoc_fuel zero a b c h =
    let ea : a ≡ 0 = omega arith in
    let eb : b ≡ 0 = omega arith in let ec : c ≡ 0 = omega arith in rw (ea, eb, ec) refl
xor_assoc_fuel (suc n) zero b c h = rw (xor_zero_left b, xor_zero_left (bit_xor b c)) refl
xor_assoc_fuel (suc n) (suc a) zero c h = rw (xor_zero (suc a), xor_zero_left c) refl
xor_assoc_fuel (suc n) (suc a) (suc b) c h = ground (
  arith,
  xor_step (bit_xor (suc a) (suc b)) c,
  xor_step (suc a) (bit_xor (suc b) c),
  xor_half (suc a) (suc b),
  xor_half (suc b) c,
  xor_parity (suc a) (suc b),
  xor_parity (suc b) c,
  xor_assoc_fuel n (suc a / 2) (suc b / 2) (c / 2) (omega arith),
)

pub xor_assoc : (a b c : ℕ) → bit_xor (bit_xor a b) c ≡ bit_xor a (bit_xor b c)
xor_assoc a b c = xor_assoc_fuel (a + b + c) a b c (le_refl (a + b + c))

-- Words of low fields below `2 ^ k` and high fields are combined field by field.
pub xor_fields :
    (k r s p q : ℕ)
    → r < 2 ^ k
    → s < 2 ^ k
    → bit_xor (r + p * 2 ^ k) (s + q * 2 ^ k) ≡ bit_xor r s + bit_xor p q * 2 ^ k
xor_fields zero r s p q hr hs =
    let er : r ≡ 0 = omega arith in
    let es : s ≡ 0 = omega arith in
    let ep : r + p * 2 ^ 0 ≡ p = omega arith in
    let eq : s + q * 2 ^ 0 ≡ q = omega arith in rw (ep, eq, er, es) (omega (arith, xor_zero 0))
xor_fields (suc k) r s p q hr hs = ground (
  arith,
  pow-suc 2 k,
  doubled p,
  doubled q,
  doubled (bit_xor p q),
  xor_step (r + p * 2 ^ suc k) (s + q * 2 ^ suc k),
  xor_step r s,
  xor_fields k (r / 2) (s / 2) p q (omega (arith, pow-suc 2 k)) (omega (arith, pow-suc 2 k)),
)
  where
    doubled : (x : ℕ) → x * 2 ^ suc k ≡ 2 * (x * 2 ^ k)
    doubled x = omega (arith, ap (λ (t : ℕ). x * t) (pow-suc 2 k))

pub xor-lt : (k a b : ℕ) → a < 2 ^ k → b < 2 ^ k → bit_xor a b < 2 ^ k
xor-lt zero a b ha hb =
    let ea : a ≡ 0 = omega arith in
    let eb : b ≡ 0 = omega arith in rw (ea, eb) (omega (arith, xor_zero 0))
xor-lt (suc k) a b ha hb = omega (
  arith,
  pow-suc 2 k,
  xor_step a b,
  xor-lt k (a / 2) (b / 2) (omega (arith, pow-suc 2 k)) (omega (arith, pow-suc 2 k)),
)

-- The lowest byte and the rest.
pub xor_byte :
    (r s p q : ℕ)
    → r < 256
    → s < 256
    → bit_xor (r + 256 * p) (s + 256 * q) ≡ bit_xor r s + 256 * bit_xor p q
xor_byte r s p q hr hs =
    let ep : r + 256 * p ≡ r + p * 2 ^ 8 = omega arith in
    let eq : s + 256 * q ≡ s + q * 2 ^ 8 = omega arith in
    rw (ep, eq) (omega (arith, xor_fields 8 r s p q hr hs))
