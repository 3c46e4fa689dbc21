-- ===== src/Prelude/Bits/Step.antt =====
-- `bit_and` and `bit_or` from the halves of their arguments. The library states both by a
-- recursion on digits with a count of rounds; the count is dropped here.
use Prim.Native.Nat.{
  ℕ, zero, suc, ◌+◌, ◌*◌, ◌/◌, ◌%◌, ◌≤◌, min, max, bit_and, bit_or, digits, bit_and-bitwise,
  bit_or-bitwise,
}
use mathlib.Core.Path.{◌≡◌, refl}
use native.Mathlib.Omega.{arith}

module _ (rest : ℕ → ℕ) (join : ℕ → ℕ → ℕ) where
  -- More rounds than `a` needs change nothing.
  rounds_enough :
      (a b n : ℕ) (m : ℕ) → a ≤ m → m ≤ n → digits rest join n a b ≡ digits rest join m a b
  rounds_enough zero b zero zero p q = refl
  rounds_enough zero b (suc n) zero p q = refl
  rounds_enough zero b zero (suc m) p q = refl
  rounds_enough zero b (suc n) (suc m) p q = refl
  rounds_enough (suc a) b n zero p q = absurd (omega arith)
  rounds_enough (suc a) b zero (suc m) p q = absurd (omega arith)
  rounds_enough (suc a) b (suc n) (suc m) p q =
      rw (rounds_enough (suc a / 2) (b / 2) n m (omega arith) (omega arith))

pub or_halves : (a b : ℕ) → bit_or a b ≡ bit_or (a / 2) (b / 2) * 2 + max (a % 2) (b % 2)
or_halves zero b = omega (arith, bit_or-bitwise 0 b, bit_or-bitwise 0 (b / 2))
or_halves (suc a) b = omega (
  arith,
  bit_or-bitwise (suc a) b,
  bit_or-bitwise (suc a / 2) (b / 2),
  rounds_enough (λ y. y) max (suc a / 2) (b / 2) a (suc a / 2) (omega arith) (omega arith),
)

pub and_halves : (a b : ℕ) → bit_and a b ≡ bit_and (a / 2) (b / 2) * 2 + min (a % 2) (b % 2)
and_halves zero b = omega (arith, bit_and-bitwise 0 b, bit_and-bitwise 0 (b / 2))
and_halves (suc a) b = omega (
  arith,
  bit_and-bitwise (suc a) b,
  bit_and-bitwise (suc a / 2) (b / 2),
  rounds_enough (λ y. 0) min (suc a / 2) (b / 2) a (suc a / 2) (omega arith) (omega arith),
)
