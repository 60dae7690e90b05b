-- ===== src/Wire/Utf8.antt =====
-- `String::from_utf8`, which the decoder of crates/orbit-protocol/src/wire.rs calls: the
-- well-formed byte sequences of the Unicode standard, as an automaton over the bytes.
use orbit_transfer.Prelude.{
  ℕ, ◌-◌, Bool, false, ◌&&◌, List, [], ◌∷◌, Option, none, some, leb, ltb, ◌==◌, if◌then◌else◌,
}

-- `left` continuation bytes are due, and the next one lies in `lo..=hi`.
pub record Utf8State : Type 0 where
  pub left : ℕ
  pub lo : ℕ
  pub hi : ℕ

abbrev pub utf8_due : ℕ → ℕ → ℕ → Option Utf8State
utf8_due n lo hi = some (record { left = n; lo = lo; hi = hi })

abbrev pub utf8_start : Utf8State
utf8_start = record { left = 0; lo = 0x80; hi = 0xbf }

unfoldable pub utf8_lead : ℕ → Option Utf8State
utf8_lead b =
    if ltb b 0x80
    then utf8_due 0 0x80 0xbf
    else if ltb b 0xc2
    then none
    else if ltb b 0xe0
    then utf8_due 1 0x80 0xbf
    else if b == 0xe0
    then utf8_due 2 0xa0 0xbf
    else if b == 0xed
    then utf8_due 2 0x80 0x9f
    else if ltb b 0xf0
    then utf8_due 2 0x80 0xbf
    else if b == 0xf0
    then utf8_due 3 0x90 0xbf
    else if ltb b 0xf4
    then utf8_due 3 0x80 0xbf
    else if b == 0xf4
    then utf8_due 3 0x80 0x8f
    else none

unfoldable pub utf8_step : Utf8State → ℕ → Option Utf8State
unfolding utf8_lead
utf8_step s b =
    if s.left == 0
    then utf8_lead b
    else if leb s.lo b && leb b s.hi
    then utf8_due (s.left - 1) 0x80 0xbf
    else none

unfoldable pub utf8_scan : Utf8State → List ℕ → Bool
unfolding utf8_step
utf8_scan s [] = s.left == 0
utf8_scan s (b ∷ bs) = elim (utf8_step s b) [ none ↦ false | some s' ↦ utf8_scan s' bs ]

unfoldable pub is_utf8 : List ℕ → Bool
unfolding utf8_scan
is_utf8 bs = utf8_scan utf8_start bs
