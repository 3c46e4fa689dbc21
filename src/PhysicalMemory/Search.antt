-- ===== src/PhysicalMemory/Search.antt =====
-- The search for one frame, `findFirstFreeFrame`, against the marks that it reads.
use palmyra_os.Prelude.{
  ℕ, zero, suc, ◌+◌, ◌-◌, ◌*◌, ◌/◌, ◌%◌, ◌≤◌, ◌<◌, ◌≡◌, ◌⊎◌, inl, inr, refl, ap, ◌∙◌, true, false,
  Option, none, some, arith, ◌==◌, ==_iff, Bool-cases,
}
use palmyra_os.Prelude.Bits.{digit, digit-zero, digit-complement, digit_le, test-bit_and}
use palmyra_os.PhysicalMemory.{
  PhysicalMemory, get_frame_mark, scan_bits, scan_words, find_first_free_frame,
}
use palmyra_os.PhysicalMemory.Marks.{mark-digit}

abbrev pub IsUsed : PhysicalMemory → ℕ → Type 0
IsUsed s m = get_frame_mark m s ≡ true

abbrev pub IsUnused : PhysicalMemory → ℕ → Type 0
IsUnused s m = get_frame_mark m s ≡ false

-- What `scan_bits` finds from digit `j` on.
abbrev Scanned : ℕ → ℕ → ℕ → Option ℕ → Type 0
Scanned w j n none = (k : ℕ) → j ≤ k → k < j + n → digit w k ≡ 1
Scanned w j n (some r) =
    (j ≤ r) × (r < j + n) × (digit w r ≡ 0) × ((k : ℕ) → j ≤ k → k < r → digit w k ≡ 1)

Scanned-next :
    (w j n : ℕ) (o : Option ℕ) → digit w j ≡ 1 → Scanned w (j + 1) n o → Scanned w j (suc n) o
Scanned-next w j n none e h = λ k p q. ground (arith, h k)
Scanned-next w j n (some r) e h = (omega arith, omega arith, h.2, λ k p q. ground (arith, h.3 k))

scan_bits-Scanned : (w n j : ℕ) → Scanned w j n (scan_bits w n j)
unfolding scan_bits
scan_bits-Scanned w zero j = λ k h l. absurd (omega arith)
scan_bits-Scanned w (suc n) j = elim (Bool-cases (digit w j == 0)) [
  | inl hit ↦
      rw (test-bit_and w j, hit)
        (omega arith, omega arith, ground arith, λ k h l. absurd (omega arith))
  | inr miss ↦
      rw (test-bit_and w j, miss)
        (Scanned-next w j n (scan_bits w n (j + 1)) (ground (arith, digit_le w j))
          (scan_bits-Scanned w n (j + 1)))
]

module _ (s : PhysicalMemory) where
  -- The frames of a word.
  mark_of_digit :
      (i j : ℕ) → j < 32 → get_frame_mark (i * 32 + j) s ≡ (digit (s.frame_bits i) j == 1)
  mark_of_digit i j h =
      mark-digit (i * 32 + j) s
      ∙ rw (
        (let e : (i * 32 + j) / 32 ≡ i = omega arith in e),
        (let e : (i * 32 + j) % 32 ≡ j = omega arith in e),
      )

  -- What `scan_words` answers from word `i` on, with `n` words left: the first unused frame, or
  -- 0.
  abbrev pub FirstFree : ℕ → ℕ → ℕ → Type 0
  FirstFree lo hi f =
      ((lo ≤ f) × (f < hi) × IsUnused s f × ((m : ℕ) → lo ≤ m → m < f → IsUsed s m))
      ⊎ ((f ≡ 0) × ((m : ℕ) → lo ≤ m → m < hi → IsUsed s m))

  FirstFree-next :
      (lo mid hi f : ℕ)
      → ((m : ℕ) → lo ≤ m → m < mid → IsUsed s m)
      → lo ≤ mid
      → FirstFree mid hi f
      → FirstFree lo hi f
  FirstFree-next lo mid hi f used le (inl (p, q, e, before)) =
      inl (omega arith, q, e, λ m a b. ground (arith, used m, before m))
  FirstFree-next lo mid hi f used le (inr (e, all)) =
      inr (e, λ m a b. ground (arith, used m, all m))

  word-IsUsed :
      (i : ℕ)
      → ((j : ℕ) → 0 ≤ j → j < 0 + 32 → digit (s.frame_bits i) j ≡ 1)
      → (m : ℕ) → i * 32 ≤ m
      → m < (i + 1) * 32
      → IsUsed s m
  word-IsUsed i ones m a b = ground (
    arith,
    mark_of_digit i (m - i * 32) (omega arith),
    ones (m - i * 32) (omega arith) (omega arith),
    ap (λ k. get_frame_mark k s) (let e : i * 32 + (m - i * 32) ≡ m = omega arith in e),
  )

  digit_ones : (w j : ℕ) → w ≡ 0xffff_ffff → j < 32 → digit w j ≡ 1
  digit_ones w j e h = rw e (omega (arith, digit-complement 32 0 j (omega arith) h, digit-zero j))

  word_free :
      (i j : ℕ)
      → j < 32
      → digit (s.frame_bits i) j ≡ 0
      → ((k : ℕ) → 0 ≤ k → k < j → digit (s.frame_bits i) k ≡ 1)
      → (hi : ℕ) → (i + 1) * 32 ≤ hi
      → FirstFree (i * 32) hi (i * 32 + j)
  word_free i j h z ones hi le = inl (
    omega arith,
    omega arith,
    ground (arith, mark_of_digit i j h),
    λ m a b. ground (
      arith,
      mark_of_digit i (m - i * 32) (omega arith),
      ones (m - i * 32) (omega arith) (omega arith),
      ap (λ k. get_frame_mark k s) (let e : i * 32 + (m - i * 32) ≡ m = omega arith in e),
    ),
  )

  word-Scanned :
      (i hi r : ℕ) (o : Option ℕ)
      → (i + 1) * 32 ≤ hi
      → FirstFree ((i + 1) * 32) hi r
      → Scanned (s.frame_bits i) 0 32 o
      → FirstFree (i * 32) hi (elim o [ some j ↦ i * 32 + j | none ↦ r ])
  word-Scanned i hi r none le later ones =
      FirstFree-next (i * 32) ((i + 1) * 32) hi r (word-IsUsed i ones) (omega arith) later
  word-Scanned i hi r (some j) le later (a, b, z, ones) = word_free i j (omega arith) z ones hi le

  scan_words-FirstFree :
      (n i hi : ℕ) → (i + n) * 32 ≡ hi → FirstFree (i * 32) hi (scan_words s.frame_bits n i)
  unfolding scan_words
  scan_words-FirstFree zero i hi e = inr (refl, λ m a b. absurd (omega arith))
  scan_words-FirstFree (suc n) i hi e =
      let later = scan_words-FirstFree n (i + 1) hi (omega arith) in
      elim (Bool-cases (s.frame_bits i == 0xffff_ffff)) [
        | inl full ↦ rw full (
            FirstFree-next (i * 32) ((i + 1) * 32) hi _
              (word-IsUsed i (λ j a b. digit_ones _ j ((==_iff _ _).0 full) (omega arith)))
              (omega arith) later)
        | inr part ↦
            rw part
              (word-Scanned i hi _ _ (omega arith) later (scan_bits-Scanned (s.frame_bits i) 32 0))
      ]

  -- `findFirstFreeFrame` answers the first unused frame of the whole words of the bitmap. When
  -- all of those frames are used it answers 0.
  pub find_first_free_frame-FirstFree :
      FirstFree 0 (s.frames_count / 32 * 32) (find_first_free_frame s)
  unfolding find_first_free_frame
  find_first_free_frame-FirstFree = scan_words-FirstFree (s.frames_count / 32) 0 _ (omega arith)
