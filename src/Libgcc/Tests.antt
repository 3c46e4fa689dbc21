-- ===== src/Libgcc/Tests.antt =====
-- The division routines at numbers that use all 64 bits.
use palmyra_os.Prelude.{ℕ, ◌+◌, ◌-◌, ◌/◌, ◌%◌, ◌^◌, ◌≡◌, ◌≢◌, refl, arith, true, some}
use palmyra_os.Libgcc.{divide_bits, udivdi3, umoddi3, divdi3, moddi3, divmoddi4}
use palmyra_os.Libgcc.Unsigned.{udivdi3-div}
use palmyra_os.Libgcc.Signed.{signed64, quot, rem, divdi3-quot}

-- 2 ^ 64 - 1 by 2 ^ 63 + 1
top_bits :
    (udivdi3 (2 ^ 64 - 1) (2 ^ 63 + 1) ≡ 1) × (umoddi3 (2 ^ 64 - 1) (2 ^ 63 + 1) ≡ 2 ^ 63 - 2)
unfolding udivdi3 umoddi3 divide_bits
top_bits = (refl, refl)

-- -7 by 2
minus_seven : divmoddi4 (2 ^ 64 - 7) 2 true ≡ (2 ^ 64 - 3, some (2 ^ 64 - 1))
unfolding divmoddi4 divdi3 moddi3 udivdi3 umoddi3 divide_bits mathlib.Core.Bool.xor
minus_seven = refl

udivdi3_example :
    (◌≢◌ {A = ℕ} 1000 0
      → (udivdi3 (2 ^ 64 - 1) 1000 ≡ (2 ^ 64 - 1) / 1000)
        × (umoddi3 (2 ^ 64 - 1) 1000 ≡ (2 ^ 64 - 1) % 1000))
    × (udivdi3 (2 ^ 64 - 1) 0 ≡ 0)
    × (umoddi3 (2 ^ 64 - 1) 0 ≡ 0)
udivdi3_example = udivdi3-div (2 ^ 64 - 1) 1000 (omega arith)

divdi3_example :
    (signed64 (divdi3 (2 ^ 64 - 7) 2) ≡ quot (signed64 (2 ^ 64 - 7)) (signed64 2))
    × (signed64 (moddi3 (2 ^ 64 - 7) 2) ≡ rem (signed64 (2 ^ 64 - 7)) (signed64 2))
divdi3_example =
    divdi3-quot (2 ^ 64 - 7) 2 (omega arith) (omega arith) (omega arith) (λ e. omega arith)
