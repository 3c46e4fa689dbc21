-- ===== src/PhysicalMemory/Marks.antt =====
-- What the bit operations of the frame bitmap do to the mark of each frame.
use palmyra_os.Prelude.{ℕ, ◌/◌, ◌%◌, ◌^◌, ◌<◌, ◌≡◌, not, ◌&&◌, ◌||◌, arith, ◌==◌}
use palmyra_os.Prelude.Bits.{
  digit, not32, digit_le, digit-bit_or, digit-bit_and, digit-pow, digit-complement, test-bit_and,
  bit_or-lt, bit_and-le,
}
use native.Mathlib.Nat.{pow-le-pow_right}
use palmyra_os.PhysicalMemory.{PhysicalMemory, mark_frame, unmark_frame, get_frame_mark}

-- The mark of a frame is a digit of its word.
pub mark-digit :
    (n : ℕ) (s : PhysicalMemory)
    → get_frame_mark n s ≡ (digit (s.frame_bits (n / 32)) (n % 32) == 1)
unfolding get_frame_mark
mark-digit n s = ground (
  arith,
  test-bit_and (s.frame_bits (n / 32)) (n % 32),
  digit_le (s.frame_bits (n / 32)) (n % 32),
)

pub pow_lt_word : (k : ℕ) → k < 32 → 2 ^ k < 2 ^ 32
pow_lt_word k h =
    omega (arith, pow-le-pow_right {n = 2} (omega arith) {i = k} {j = 31} (omega arith))

-- Marking a frame marks that frame and no other.
pub mark-mark_frame :
    (n m : ℕ) (s : PhysicalMemory)
    → get_frame_mark m (mark_frame n s) ≡ ((n == m) || get_frame_mark m s)
unfolding mark_frame
mark-mark_frame n m s = ground (
  arith,
  mark-digit m (mark_frame n s),
  mark-digit m s,
  digit-bit_or (s.frame_bits (n / 32)) (2 ^ (n % 32)) (m % 32),
  digit-pow (n % 32) (m % 32),
)

-- Unmarking a frame frees that frame and no other.
pub mark-unmark_frame :
    (n m : ℕ) (s : PhysicalMemory)
    → get_frame_mark m (unmark_frame n s) ≡ (not (n == m) && get_frame_mark m s)
unfolding unmark_frame
mark-unmark_frame n m s = ground (
  arith,
  mark-digit m (unmark_frame n s),
  mark-digit m s,
  digit-bit_and (s.frame_bits (n / 32)) (not32 (2 ^ (n % 32))) (m % 32),
  digit-complement 32 (2 ^ (n % 32)) (m % 32) (pow_lt_word (n % 32) (omega arith)) (omega arith),
  digit-pow (n % 32) (m % 32),
)

-- The words stay words of 32 bits.
pub record IsWords (s : PhysicalMemory) : Type 0 where
  pub small : (k : ℕ) → s.frame_bits k < 2 ^ 32

pub mark_frame-IsWords : (n : ℕ) {s : PhysicalMemory} → IsWords s → IsWords (mark_frame n s)
unfolding mark_frame
mark_frame-IsWords n {s} v = record {
  small = λ k. ground (
    arith,
    v.small k,
    bit_or-lt 32 (s.frame_bits (n / 32)) (2 ^ (n % 32)) (v.small (n / 32))
        (pow_lt_word (n % 32) (omega arith)),
  );
}

pub unmark_frame-IsWords : (n : ℕ) {s : PhysicalMemory} → IsWords s → IsWords (unmark_frame n s)
unfolding unmark_frame
unmark_frame-IsWords n {s} v = record {
  small = λ k. ground (
    arith,
    v.small k,
    v.small (n / 32),
    bit_and-le (s.frame_bits (n / 32)) (not32 (2 ^ (n % 32))),
  );
}
