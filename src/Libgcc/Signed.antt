-- ===== src/Libgcc/Signed.antt =====
-- Division of int64_t: truncated towards 0, with the sign of the dividend on the remainder.
use palmyra_os.Prelude.{
  ℕ, suc, ◌-◌, ◌/◌, ◌%◌, ◌^◌, ◌≤◌, ◌<◌, ◌≡◌, ◌≢◌, refl, ap, ◌∙◌, Bool, ◌==◌, if◌then◌else◌, arith,
  Bool-cases, inl, inr, true, false, ne→==, ==_iff,
}
use mathlib.Core.Bool.{xor}
use native.Mathlib.Nat.{div-le_self, mod-le, zero-div, div-one, div-lt_self}
use palmyra_os.Libgcc.{divdi3, moddi3, udivdi3, umoddi3, magnitude, negate, is_negative}
use palmyra_os.Libgcc.Unsigned.{udivdi3-div}
use palmyra_os.Prelude.Int.{ℤ, pos, negsuc}

-- The integer that a bit pattern stands for.
abbrev pub signed64 : ℕ → ℤ
signed64 x = if is_negative x then negsuc (2 ^ 64 - x - 1) else pos x

abbrev pub neg : ℕ → ℤ
neg n = if n == 0 then pos 0 else negsuc (n - 1)

-- Division that drops the fraction, and the remainder that belongs to it.
abbrev pub quot : ℤ → ℤ → ℤ
quot (pos a) (pos b) = pos (a / b)
quot (pos a) (negsuc b) = neg (a / suc b)
quot (negsuc a) (pos b) = neg (suc a / b)
quot (negsuc a) (negsuc b) = pos (suc a / suc b)

abbrev pub rem : ℤ → ℤ → ℤ
rem (pos a) (pos b) = pos (a % b)
rem (pos a) (negsuc b) = pos (a % suc b)
rem (negsuc a) (pos b) = neg (suc a % b)
rem (negsuc a) (negsuc b) = neg (suc a % suc b)

-- A sign and a magnitude, and the integer they stand for.
data Stands : Bool → ℕ → ℤ → Type 0 where
  nonneg : {m : ℕ} → m < 2 ^ 63 → Stands false m (pos m)
  negative : {k : ℕ} → k < 2 ^ 63 → Stands true (suc k) (negsuc k)

signed64-pos : (n : ℕ) → n < 2 ^ 63 → signed64 n ≡ pos n
signed64-pos n h = ground arith

signed64-negate : (n : ℕ) → n ≤ 2 ^ 63 → signed64 (negate n) ≡ neg n
signed64-negate n h = ground arith

parts-Stands : (x : ℕ) → x < 2 ^ 64 → Stands (is_negative x) (magnitude x) (signed64 x)
parts-Stands x h = elim (Bool-cases (is_negative x)) [
  | inl n ↦
      rw n
        (rw (let e : negate x ≡ suc (2 ^ 64 - x - 1) = ground arith in e) (negative (ground arith)))
  | inr p ↦ rw p (nonneg (ground arith))
]

quot_lem :
    {s t : Bool} {a b : ℕ} {x y : ℤ}
    → Stands s a x
    → Stands t b y
    → b ≢ 0
    → (s ≡ true → t ≡ true → a / b < 2 ^ 63)
    → signed64 (if xor s t then negate (a / b) else a / b) ≡ quot x y
unfolding xor
quot_lem (nonneg {m = a} h) (nonneg {m = b} l) nz fits =
    signed64-pos (a / b) (omega (arith, div-le_self a b))
quot_lem (nonneg {m = a} h) (negative {k = b} l) nz fits =
    signed64-negate (a / suc b) (omega (arith, div-le_self a (suc b)))
quot_lem (negative {k = a} h) (nonneg {m = b} l) nz fits =
    signed64-negate (suc a / b) (omega (arith, div-le_self (suc a) b))
quot_lem (negative {k = a} h) (negative {k = b} l) nz fits =
    signed64-pos (suc a / suc b) (fits refl refl)

rem_lem :
    {s t : Bool} {a b : ℕ} {x y : ℤ}
    → Stands s a x
    → Stands t b y
    → b ≢ 0
    → signed64 (if s then negate (a % b) else a % b) ≡ rem x y
rem_lem (nonneg {m = a} h) (nonneg {m = b} l) nz = signed64-pos (a % b) (omega (arith, mod-le a b))
rem_lem (nonneg {m = a} h) (negative {k = b} l) nz =
    signed64-pos (a % suc b) (omega (arith, mod-le a (suc b)))
rem_lem (negative {k = a} h) (nonneg {m = b} l) nz =
    signed64-negate (suc a % b) (omega (arith, mod-le (suc a) b))
rem_lem (negative {k = a} h) (negative {k = b} l) nz =
    signed64-negate (suc a % suc b) (omega (arith, mod-le (suc a) (suc b)))

quotient_fits : (a b : ℕ) → a ≤ 2 ^ 63 → b ≢ 0 → ¬ ((a ≡ 2 ^ 63) × (b ≡ 1)) → a / b < 2 ^ 63
quotient_fits a b h nz not_min = elim (Bool-cases (b == 1)) [
  | inl one ↦ rw ((==_iff _ _).0 one) (ground (arith, div-one a))
  | inr many ↦ elim (Bool-cases (a == 0)) [
    | inl z ↦ rw ((==_iff _ _).0 z, zero-div) (omega arith)
    | inr pos_a ↦ ground (arith, div-lt_self {n = a} {k = b})
  ]
]

module _ (dividend divisor : ℕ) (small : dividend < 2 ^ 64) (small' : divisor < 2 ^ 64)
    (nz : divisor ≢ 0) where
  magnitude_ne : magnitude divisor ≢ 0
  magnitude_ne = ground arith

  magnitudes :
      (udivdi3 (magnitude dividend) (magnitude divisor) ≡ magnitude dividend / magnitude divisor)
      × (umoddi3 (magnitude dividend) (magnitude divisor) ≡ magnitude dividend % magnitude divisor)
  magnitudes = (udivdi3-div (magnitude dividend) (magnitude divisor) (ground arith)).0 magnitude_ne

  divdi3_eq : divdi3 dividend divisor ≡ (
      if xor (is_negative dividend) (is_negative divisor)
      then negate (magnitude dividend / magnitude divisor)
      else magnitude dividend / magnitude divisor)
  unfolding divdi3
  divdi3_eq = rw (ne→== divisor 0 nz, magnitudes.0)

  moddi3_eq : moddi3 dividend divisor ≡ (
      if is_negative dividend
      then negate (magnitude dividend % magnitude divisor)
      else magnitude dividend % magnitude divisor)
  unfolding moddi3
  moddi3_eq = rw (ne→== divisor 0 nz, magnitudes.1)

  -- For a divisor other than 0 `__divdi3` and `__moddi3` are the truncated quotient and remainder
  -- of the integers. The one exception is -2 ^ 63 by -1, whose quotient does not fit.
  pub divdi3-quot :
      ¬ ((dividend ≡ 2 ^ 63) × (divisor ≡ 2 ^ 64 - 1))
      → (signed64 (divdi3 dividend divisor) ≡ quot (signed64 dividend) (signed64 divisor))
        × (signed64 (moddi3 dividend divisor) ≡ rem (signed64 dividend) (signed64 divisor))
  divdi3-quot fits = (
    ap signed64 divdi3_eq
        ∙ quot_lem (parts-Stands dividend small) (parts-Stands divisor small') magnitude_ne
            (λ n n'. quotient_fits _ _ (ground arith) magnitude_ne (λ e. fits (ground arith))),
    ap signed64 moddi3_eq
        ∙ rem_lem (parts-Stands dividend small) (parts-Stands divisor small') magnitude_ne,
  )
