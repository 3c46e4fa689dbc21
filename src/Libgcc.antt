-- ===== src/Libgcc.antt =====
-- The 64-bit division routines that the compiler calls on a 32-bit machine, libs/libgcc.cpp. A
-- uint64_t is a number below 2 ^ 64, and an int64_t is its bit pattern.
pub mod Unsigned
pub mod Signed
mod Tests
use palmyra_os.Prelude.{
  ℕ, zero, suc, ◌+◌, ◌-◌, ◌*◌, ◌/◌, ◌%◌, ◌^◌, Bool, bit_and, bit_or, leb, ltb, ◌==◌, if◌then◌else◌,
  Option, none, some,
}
use mathlib.Core.Bool.{xor}

-- The loop over the bits of the dividend, with `n` rounds left: it handles bit `n - 1` next.
-- Answers the quotient and the remainder.
pub divide_bits : ℕ → ℕ → ℕ → ℕ → ℕ → ℕ × ℕ
divide_bits dividend divisor zero quotient remainder = (quotient, remainder)
divide_bits dividend divisor (suc i) quotient remainder =
    let shifted = bit_or (remainder * 2 % 2 ^ 64) (bit_and (dividend / 2 ^ i) 1) in
    let low = divide_bits dividend divisor i quotient shifted in
    let high = divide_bits dividend divisor i (bit_or quotient (2 ^ i)) (shifted - divisor) in
    if leb divisor shifted then high else low

pub udivdi3 : ℕ → ℕ → ℕ
udivdi3 dividend divisor = if divisor == 0 then 0 else (divide_bits dividend divisor 64 0 0).0

pub umoddi3 : ℕ → ℕ → ℕ
umoddi3 dividend divisor = if divisor == 0 then 0 else (divide_bits dividend divisor 64 0 0).1

-- `x < 0` and `-x` on the bit pattern of an int64_t
abbrev pub is_negative : ℕ → Bool
is_negative x = leb (2 ^ 63) x

abbrev pub negate : ℕ → ℕ
negate x = (2 ^ 64 - x) % 2 ^ 64

abbrev pub magnitude : ℕ → ℕ
magnitude x = if is_negative x then negate x else x

pub divdi3 : ℕ → ℕ → ℕ
divdi3 dividend divisor =
    let quotient = udivdi3 (magnitude dividend) (magnitude divisor) in
    if divisor == 0
    then 0
    else if xor (is_negative dividend) (is_negative divisor)
    then negate quotient
    else quotient

pub moddi3 : ℕ → ℕ → ℕ
moddi3 dividend divisor =
    let remainder = umoddi3 (magnitude dividend) (magnitude divisor) in
    if divisor == 0 then 0 else if is_negative dividend then negate remainder else remainder

-- The last argument says whether the caller passes a place for the remainder. Answers the
-- quotient, and what is written to that place.
pub divmoddi4 : ℕ → ℕ → Bool → ℕ × Option ℕ
divmoddi4 dividend divisor wants_remainder =
    if divisor == 0
    then (0, if wants_remainder then some 0 else none)
    else (divdi3 dividend divisor, if wants_remainder then some (moddi3 dividend divisor) else none)

pub udivmoddi4 : ℕ → ℕ → Bool → ℕ × Option ℕ
udivmoddi4 dividend divisor wants_remainder =
    if divisor == 0 then (0, if wants_remainder then some 0 else none) else (
      udivdi3 dividend divisor,
      if wants_remainder then some (umoddi3 dividend divisor) else none,
    )
