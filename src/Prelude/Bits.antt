-- ===== src/Prelude/Bits.antt =====
-- The binary digits of a machine word, and what `&`, `|` and `~` do to them.
mod Step
use Step.{and_halves, or_halves}
use Prim.Native.Nat.{
  ℕ, zero, suc, ◌+◌, ◌-◌, ◌*◌, ◌/◌, ◌%◌, ◌^◌, ◌≤◌, ◌<◌, bit_and, bit_or, bit_and-bitwise,
  bit_or-bitwise,
}
use mathlib.Core.Path.{◌≡◌, refl, ap, ap₂, ◌∙◌}
use mathlib.Core.Logic.{◌⊎◌, inl, inr}
use mathlib.Core.Bool.{Bool, true, false, not, ◌&&◌, ◌||◌}
use native.Mathlib.Nat.{pow-suc, one-le-pow}
use native.Mathlib.Omega.{arith}
use palmyra_os.Prelude.Tests.{◌==◌, if◌then◌else◌}

-- Digit `j` of `w`, by halving.
abbrev pub digit : ℕ → ℕ → ℕ
digit w zero = w % 2
digit w (suc j) = digit (w / 2) j

-- `~w` on 32 bits
abbrev pub not32 : ℕ → ℕ
not32 w = 2 ^ 32 - 1 - w

pub digit_le : (w j : ℕ) → digit w j ≤ 1
digit_le w zero = omega arith
digit_le w (suc j) = digit_le (w / 2) j

pub digit-bit_or : (a b j : ℕ) → digit (bit_or a b) j ≡ (if digit a j == 1 then 1 else digit b j)
digit-bit_or a b zero = ground (arith, or_halves a b)
digit-bit_or a b (suc j) =
    ap (λ x. digit x j) (omega (arith, or_halves a b)) ∙ digit-bit_or (a / 2) (b / 2) j

pub digit-bit_and : (a b j : ℕ) → digit (bit_and a b) j ≡ (if digit a j == 1 then digit b j else 0)
digit-bit_and a b zero = ground (arith, and_halves a b)
digit-bit_and a b (suc j) =
    ap (λ x. digit x j) (omega (arith, and_halves a b)) ∙ digit-bit_and (a / 2) (b / 2) j

pub digit-zero : (j : ℕ) → digit 0 j ≡ 0
digit-zero zero = refl
digit-zero (suc j) = digit-zero j

-- `1 << i` has the one digit `i`.
pub digit-pow : (i j : ℕ) → digit (2 ^ i) j ≡ (if i == j then 1 else 0)
digit-pow zero zero = refl
digit-pow zero (suc j) = digit-zero j ∙ ground arith
digit-pow (suc i) zero = ground (arith, pow-suc 2 i)
digit-pow (suc i) (suc j) =
    ap (λ x. digit x j) (omega (arith, pow-suc 2 i)) ∙ digit-pow i j ∙ ground arith

-- The complement in `k` bits turns each of the `k` digits.
pub digit-complement : (k w j : ℕ) → w < 2 ^ k → j < k → digit (2 ^ k - 1 - w) j ≡ 1 - digit w j
digit-complement zero w j h l = absurd (omega arith)
digit-complement (suc k) w zero h l = omega (arith, pow-suc 2 k, one-le-pow k 2)
digit-complement (suc k) w (suc j) h l =
    ap (λ x. digit x j) (omega (arith, pow-suc 2 k, one-le-pow k 2))
    ∙ digit-complement k (w / 2) j (omega (arith, pow-suc 2 k)) (omega arith)

and-zero : (n a : ℕ) → a ≤ n → bit_and a 0 ≡ 0
and-zero n zero h = omega (arith, bit_and-bitwise 0 0)
and-zero zero (suc a) h = absurd (omega arith)
and-zero (suc n) (suc a) h =
    omega (arith, and_halves (suc a) 0, and-zero n (suc a / 2) (omega arith))

bit_and-pow : (w j : ℕ) → bit_and w (2 ^ j) ≡ digit w j * 2 ^ j
bit_and-pow w zero = omega (arith, and_halves w 1, and-zero (w / 2) (w / 2) (omega arith))
bit_and-pow w (suc j) = omega (
  arith,
  pow-suc 2 j,
  ap (λ (t : ℕ). digit (w / 2) j * t) (pow-suc 2 j),
  and_halves w (2 ^ suc j),
  ap (λ x. bit_and (w / 2) x) (let e : 2 ^ suc j / 2 ≡ 2 ^ j = omega (arith, pow-suc 2 j) in e),
  bit_and-pow (w / 2) j,
)

-- The test `w & (1 << j)` reads digit `j`.
pub test-bit_and : (w j : ℕ) → (bit_and w (2 ^ j) == 0) ≡ (digit w j == 0)
test-bit_and w j = elim (le_one (digit w j) (digit_le w j)) [
  | inl z ↦ rw (bit_and-pow w j, z) (ground (arith))
  | inr o ↦ rw (bit_and-pow w j, o) (ground (arith, one-le-pow j 2))
]
  where
    le_one : (d : ℕ) → d ≤ 1 → (d ≡ 0) ⊎ (d ≡ 1)
    le_one d h = ground arith

pub bit_or-lt : (k a b : ℕ) → a < 2 ^ k → b < 2 ^ k → bit_or a b < 2 ^ k
bit_or-lt zero a b h l = omega (
  arith,
  or_halves a b,
  ap₂ bit_or (let e : a ≡ 0 = omega arith in e) (let e : b ≡ 0 = omega arith in e),
)
bit_or-lt (suc k) a b h l = omega (
  arith,
  pow-suc 2 k,
  or_halves a b,
  bit_or-lt k (a / 2) (b / 2) (omega (arith, pow-suc 2 k)) (omega (arith, pow-suc 2 k)),
)

and-le : (n a b : ℕ) → a ≤ n → bit_and a b ≤ a
and-le n zero b h = omega (arith, bit_and-bitwise 0 b)
and-le zero (suc a) b h = absurd (omega arith)
and-le (suc n) (suc a) b h =
    omega (arith, and_halves (suc a) b, and-le n (suc a / 2) (b / 2) (omega arith))

pub bit_and-le : (a b : ℕ) → bit_and a b ≤ a
bit_and-le a b = and-le a a b (omega arith)

or-zero : (n a : ℕ) → a ≤ n → bit_or a 0 ≡ a
or-zero n zero h = omega (arith, bit_or-bitwise 0 0)
or-zero zero (suc a) h = absurd (omega arith)
or-zero (suc n) (suc a) h = omega (arith, or_halves (suc a) 0, or-zero n (suc a / 2) (omega arith))

pub bit_or-zero : (a : ℕ) → bit_or a 0 ≡ a
bit_or-zero a = or-zero a a (omega arith)

-- Above the lowest `k` digits `|` with a number of `k` digits is a sum.
pub bit_or_low : (k q r : ℕ) → r < 2 ^ k → bit_or (q * 2 ^ k) r ≡ q * 2 ^ k + r
bit_or_low zero q r h = omega (
  arith,
  bit_or-zero q,
  ap₂ bit_or (let e : q * 2 ^ 0 ≡ q = omega arith in e) (let e : r ≡ 0 = omega arith in e),
)
bit_or_low (suc k) q r h = omega (
  arith,
  pow-suc 2 k,
  ap (λ (t : ℕ). q * t) (pow-suc 2 k),
  or_halves (q * 2 ^ suc k) r,
  ap (λ x. bit_or x (r / 2))
      (let e : q * 2 ^ suc k / 2 ≡ q * 2 ^ k = omega (arith, ap (λ (t : ℕ). q * t) (pow-suc 2 k)) in
        e),
  bit_or_low k q (r / 2) (omega (arith, pow-suc 2 k)),
)

pub bit_and-one : (a : ℕ) → bit_and a 1 ≡ a % 2
bit_and-one a = omega (arith, bit_and-pow a 0)
