-- ===== src/Libgcc/Unsigned.antt =====
-- The shift-and-subtract loop computes the quotient and the remainder, with no bit lost.
use palmyra_os.Prelude.{
  ℕ, zero, suc, ◌+◌, ◌-◌, ◌*◌, ◌/◌, ◌%◌, ◌^◌, ◌<◌, ◌≡◌, ◌≢◌, refl, sym, ap, ◌∙◌, bit_and, bit_or,
  leb, arith, Bool-cases, inl, inr, leb→le, ne→==,
}
use palmyra_os.Prelude.Bits.{bit_or_low, bit_and-one}
use native.Mathlib.Nat.{
  pow-suc, one-le-pow, div-div-eq-div-mul, div-le_self, div-eq_of_lt-le, div-one, div-eq_of_lt,
  div-add-mod',
}
use palmyra_os.Libgcc.{divide_bits, udivdi3, umoddi3}

-- `q` times the divisor and `r` make up the dividend.
abbrev pub IsDivision : ℕ → ℕ → ℕ × ℕ → Type 0
IsDivision dividend divisor (q, r) = (dividend ≡ q * divisor + r) × (r < divisor)

-- One round, as arithmetic: the bits read so far are `a`, and the next is `b`.
shifted_lem : (r b : ℕ) → r < 2 ^ 63 → b < 2 → bit_or (r * 2 % 2 ^ 64) b ≡ r * 2 + b
shifted_lem r b h l = ap (λ x. bit_or x b) (omega arith) ∙ bit_or_low 1 r b l

quotient_lem : (i q : ℕ) → bit_or (q * 2 ^ suc i) (2 ^ i) ≡ (q * 2 + 1) * 2 ^ i
quotient_lem i q =
    bit_or_low (suc i) q (2 ^ i) (omega (arith, pow-suc 2 i, one-le-pow i 2))
    ∙ omega (arith, ap (λ (t : ℕ). q * t) (pow-suc 2 i))

double_quotient : (i q : ℕ) → q * 2 ^ suc i ≡ q * 2 * 2 ^ i
double_quotient i q = omega (arith, ap (λ (t : ℕ). q * t) (pow-suc 2 i))

next_bit : (dividend i : ℕ) → dividend / 2 ^ i ≡ dividend / 2 ^ suc i * 2 + dividend / 2 ^ i % 2
next_bit dividend i =
    let e : dividend / 2 ^ suc i ≡ dividend / 2 ^ i / 2 =
      ap (λ t. dividend / t) (pow-suc 2 i) ∙ sym (div-div-eq-div-mul dividend (2 ^ i) 2) in
    omega (arith, e)

divide_bits-IsDivision :
    (dividend divisor : ℕ)
    → dividend < 2 ^ 64
    → (n q r : ℕ) → r < divisor
    → dividend / 2 ^ n ≡ q * divisor + r
    → IsDivision dividend divisor (divide_bits dividend divisor n (q * 2 ^ n) r)
unfolding divide_bits
divide_bits-IsDivision dividend divisor small zero q r h e = (omega (arith, e, div-one dividend), h)
divide_bits-IsDivision dividend divisor small (suc i) q r h e =
    let bit = dividend / 2 ^ i % 2 in
    let small_r : r < 2 ^ 63 =
      omega (arith, e, next_bit dividend i, div-le_self dividend (2 ^ i)) in
    let read : bit_or (r * 2 % 2 ^ 64) (bit_and (dividend / 2 ^ i) 1) ≡ r * 2 + bit =
      ap (bit_or (r * 2 % 2 ^ 64)) (bit_and-one (dividend / 2 ^ i))
      ∙ shifted_lem r bit small_r (omega arith) in
    elim (Bool-cases (leb divisor (r * 2 + bit))) [
      | inl ge ↦
          rw (read, ge, quotient_lem i q)
            (divide_bits-IsDivision dividend divisor small i (q * 2 + 1) (r * 2 + bit - divisor)
              (omega arith) (omega (arith, e, next_bit dividend i, leb→le _ _ ge)))
      | inr lt ↦
          rw (read, lt, double_quotient i q)
            (divide_bits-IsDivision dividend divisor small i (q * 2) (r * 2 + bit) (ground arith)
              (omega (arith, e, next_bit dividend i)))
    ]

divide_IsDivision :
    (dividend divisor : ℕ)
    → dividend < 2 ^ 64
    → divisor ≢ 0
    → IsDivision dividend divisor (divide_bits dividend divisor 64 0 0)
divide_IsDivision dividend divisor small nz =
    divide_bits-IsDivision dividend divisor small 64 0 0 (omega arith)
      (omega (arith, div-eq_of_lt small))

quotient_unique :
    (dividend divisor q r : ℕ)
    → dividend ≡ q * divisor + r
    → r < divisor
    → (q ≡ dividend / divisor) × (r ≡ dividend % divisor)
quotient_unique dividend divisor q r e h =
    let q' : dividend / divisor ≡ q =
      div-eq_of_lt-le divisor (omega (arith, e)) (omega (arith, e)) in
    (sym q', omega (arith, e, div-add-mod' dividend divisor, ap (λ (t : ℕ). t * divisor) q'))

-- For a 64-bit dividend and any divisor but 0, `__udivdi3` and `__umoddi3` are the quotient and
-- the remainder. No bit is lost, even where the divisor has its top bit set. For the divisor 0
-- both answer 0.
pub udivdi3-div :
    (dividend divisor : ℕ)
    → dividend < 2 ^ 64
    → (divisor ≢ 0
        → (udivdi3 dividend divisor ≡ dividend / divisor)
          × (umoddi3 dividend divisor ≡ dividend % divisor))
      × (udivdi3 dividend 0 ≡ 0)
      × (umoddi3 dividend 0 ≡ 0)
unfolding udivdi3 umoddi3
udivdi3-div dividend divisor small = (
  λ nz.
      let d = divide_IsDivision dividend divisor small nz in
      let u = quotient_unique dividend divisor _ _ d.0 d.1 in rw (ne→== divisor 0 nz) u,
  refl,
  refl,
)
