-- ===== src/Network/Checksum.antt =====
-- The Internet checksum that `IPv4::calculateChecksum` and
-- `UDP::calculateChecksumWithPseudoHeader` compute: 16-bit words are added in a uint32_t, the
-- carries are folded in, and the one's complement is taken.
use palmyra_os.Prelude.{
  ℕ, zero, suc, ◌+◌, ◌-◌, ◌*◌, ◌/◌, ◌%◌, ◌^◌, ◌≤◌, ◌<◌, ◌≡◌, refl, ◌∙◌, List, [], ◌∷◌, arith,
  bit_or, ◌==◌, if◌then◌else◌, length,
}
use palmyra_os.Prelude.Bits.{bit_or_low}

-- `sum += (uint16_t) ((b[i] << 8) | b[i + 1])` over the bytes, in pairs. A last byte without
-- a partner counts as the high byte of its word.
unfoldable pub add_words : ℕ → List ℕ → ℕ
add_words sum [] = sum
add_words sum (hi ∷ []) = (sum + hi * 2 ^ 8 % 2 ^ 16) % 2 ^ 32
add_words sum (hi ∷ lo ∷ rest) = add_words ((sum + bit_or (hi * 2 ^ 8) lo % 2 ^ 16) % 2 ^ 32) rest

-- `while (sum >> 16) sum = (sum & 0xFFFF) + (sum >> 16);` with fuel.
unfoldable pub fold_carries : ℕ → ℕ → ℕ
fold_carries zero sum = sum
fold_carries (suc fuel) sum =
    let rest = fold_carries fuel (sum % 2 ^ 16 + sum / 2 ^ 16) in
    if sum / 2 ^ 16 == 0 then sum else rest

-- Three rounds are enough for any uint32_t: `fold_carries-lt`.
abbrev pub fold_rounds : ℕ
fold_rounds = 3

-- `static_cast<uint16_t>(~sum)`
abbrev pub complement16 : ℕ → ℕ
complement16 sum = 2 ^ 16 - 1 - sum % 2 ^ 16

-- Folding ends by its test, keeps the sum modulo 2 ^ 16 - 1, and is 0 for 0 only.
pub fold_carries-lt :
    (sum : ℕ)
    → sum < 2 ^ 32
    → (fold_carries fold_rounds sum < 2 ^ 16)
      × (fold_carries fold_rounds sum % (2 ^ 16 - 1) ≡ sum % (2 ^ 16 - 1))
      × (fold_carries fold_rounds sum ≡ 0 → sum ≡ 0)
unfolding fold_carries
fold_carries-lt sum h = ground arith

abbrev pub AllBytes : List ℕ → Type 0
AllBytes [] = Unit
AllBytes (b ∷ bs) = (b < 2 ^ 8) × AllBytes bs

-- The sum of the big-endian words, as a number.
unfoldable pub word_total : List ℕ → ℕ
word_total [] = 0
word_total (hi ∷ []) = hi * 2 ^ 8
word_total (hi ∷ lo ∷ rest) = hi * 2 ^ 8 + lo + word_total rest

pub word_total-le :
    (bytes : List ℕ) → AllBytes bytes → word_total bytes ≤ (2 ^ 16 - 1) * length bytes
unfolding word_total
word_total-le [] h = omega arith
word_total-le (hi ∷ []) h = omega arith
word_total-le (hi ∷ lo ∷ rest) h = omega (arith, word_total-le rest h.1.1)

-- As long as the uint32_t does not overflow, the accumulator holds the sum.
pub add_words-word_total :
    (sum : ℕ) (bytes : List ℕ)
    → AllBytes bytes
    → sum + word_total bytes < 2 ^ 32
    → add_words sum bytes ≡ sum + word_total bytes
unfolding add_words word_total
add_words-word_total sum [] h small = omega arith
add_words-word_total sum (hi ∷ []) h small = omega arith
add_words-word_total sum (hi ∷ lo ∷ rest) h small =
    let word : bit_or (hi * 2 ^ 8) lo ≡ hi * 2 ^ 8 + lo = bit_or_low 8 hi lo h.1.0 in
    let next : (sum + bit_or (hi * 2 ^ 8) lo % 2 ^ 16) % 2 ^ 32 ≡ sum + (hi * 2 ^ 8 + lo) =
      omega (arith, word) in
    rw next (add_words-word_total (sum + (hi * 2 ^ 8 + lo)) rest h.1.1 (omega arith) ∙ omega arith)

-- The checksum of a sum, and the sum that has the checksum added: a receiver that adds up all the
-- words, the checksum among them, gets all ones.
fold_carries-zero : fold_carries fold_rounds 0 ≡ 0
unfolding fold_carries
fold_carries-zero = refl

pub complement16-cancel :
    (total : ℕ)
    → total < 2 ^ 31
    → complement16
        (fold_carries fold_rounds (total + complement16 (fold_carries fold_rounds total)))
      ≡ 0
complement16-cancel total h = ground (
  arith,
  fold_carries-zero,
  fold_carries-lt total (omega arith),
  fold_carries-lt (total + complement16 (fold_carries fold_rounds total)) (omega arith),
)
