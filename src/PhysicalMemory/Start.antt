-- ===== src/PhysicalMemory/Start.antt =====
-- The state that `initialize` leaves.
use palmyra_os.Prelude.{
  ℕ, ◌+◌, ◌*◌, ◌/◌, ◌%◌, ◌^◌, ◌≤◌, ◌<◌, ◌≡◌, refl, ◌∙◌, false, arith, ltb, ◌==◌, if◌then◌else◌,
}
use palmyra_os.Prelude.Bits.{digit-zero}
use palmyra_os.PhysicalMemory.{
  PhysicalMemory, get_frame_mark, unmark_all, unmark_words, add32, kmalloc, memset_zero,
  place_bitmap, initialize, page_size,
}
use palmyra_os.PhysicalMemory.Marks.{mark-digit}
use palmyra_os.PhysicalMemory.Ranges.{mark-reserve_from}
use palmyra_os.PhysicalMemory.Validity.{IsValid, reserve_from-IsValid}

memset_zero-le : (bits : ℕ → ℕ) (num k : ℕ) → memset_zero bits num k ≤ bits k
unfolding memset_zero
memset_zero-le bits num k = ground arith

pub record SameCounters (s t : PhysicalMemory) : Type 0 where
  frames : t.frames_count ≡ s.frames_count
  free : t.free_frames_count ≡ s.free_frames_count
  allocated : t.allocated_frames ≡ s.allocated_frames

kmalloc-SameCounters : (n : ℕ) (s : PhysicalMemory) → SameCounters s (kmalloc n s).1
unfolding kmalloc
kmalloc-SameCounters n s = ground arith

-- Where the free space for the kernel starts: behind the bytes given to the bitmap.
abbrev pub bitmap_end : PhysicalMemory → ℕ
bitmap_end s =
    if s.frames_count / 32 == 0
    then s.placement_address
    else add32 s.placement_address (s.frames_count / 32)

module _ (memory : ℕ → ℕ → ℕ) (s : PhysicalMemory) where
  placement-place_bitmap : (unmark_all (place_bitmap memory s)).placement_address ≡ bitmap_end s
  unfolding unmark_all place_bitmap kmalloc
  placement-place_bitmap = ground arith

  frames_count-place_bitmap : (unmark_all (place_bitmap memory s)).frames_count ≡ s.frames_count
  unfolding unmark_all place_bitmap
  frames_count-place_bitmap = ground (arith, kmalloc-SameCounters (s.frames_count / 32) s)

  place_bitmap-IsValid :
      ((p k : ℕ) → memory p k < 2 ^ 32)
      → s.allocated_frames ≡ 0
      → s.frames_count < 2 ^ 20
      → s.free_frames_count ≡ s.frames_count
      → IsValid (unmark_all (place_bitmap memory s))
  unfolding unmark_all unmark_words place_bitmap
  place_bitmap-IsValid small z few e =
      let same = kmalloc-SameCounters (s.frames_count / 32) s in
      let p = (kmalloc (s.frames_count / 32) s).0 in
      record {
        words = record {
          small = λ k. ground (arith, memset_zero-le (memory p) (s.frames_count / 32) k, small p k);
        };
        addressable = omega (arith, same.frames);
        allocated_small = omega (arith, same.allocated);
        free_small = omega (arith, same.free);
        balanced = omega (arith, same.frames, same.allocated, same.free);
      }

  word-place_bitmap :
      (k : ℕ) → k < s.frames_count / 32 → (unmark_all (place_bitmap memory s)).frame_bits k ≡ 0
  unfolding unmark_all unmark_words place_bitmap
  word-place_bitmap k h = ground (arith, kmalloc-SameCounters (s.frames_count / 32) s)

  mark-place_bitmap :
      (m : ℕ)
      → m < s.frames_count / 32 * 32
      → get_frame_mark m (unmark_all (place_bitmap memory s)) ≡ false
  mark-place_bitmap m h =
      mark-digit m (unmark_all (place_bitmap memory s))
      ∙ rw (word-place_bitmap (m / 32) (omega arith)) (ground (arith, digit-zero (m % 32)))

-- The record that `initialize` starts from.
abbrev pub counted : ℕ → PhysicalMemory → PhysicalMemory
counted memory_size s = record s {
  frames_count = memory_size / page_size;
  free_frames_count = memory_size / page_size;
}

-- The frames below this one are reserved: up to and with the one that the placement address plus
-- the safe space falls into. For the bitmap, framesCount_ / 32 words, kmalloc has counted only as
-- many bytes, a quarter of it.
abbrev pub reserved_frames : ℕ → ℕ → PhysicalMemory → ℕ
reserved_frames safe_space memory_size s =
    add32 (bitmap_end (counted memory_size s)) safe_space / page_size + 1

module _ (memory : ℕ → ℕ → ℕ) (safe_space memory_size : ℕ) (s : PhysicalMemory) where
  -- `initialize`, whatever stood in memory before, leaves a valid state. Of the whole words of
  -- the bitmap exactly the bits of the frames are set up to and with the one that the placement
  -- address plus the safe space falls into; of the bitmap a quarter of its bytes is counted
  -- there. It supposes that no frame was counted as allocated before.
  pub initialize_lem :
      ((p k : ℕ) → memory p k < 2 ^ 32)
      → memory_size < 2 ^ 32
      → s.allocated_frames ≡ 0
      → IsValid (initialize memory safe_space memory_size s)
        × ((m : ℕ)
            → m < memory_size / page_size / 32 * 32
            → get_frame_mark m (initialize memory safe_space memory_size s)
              ≡ ltb m (reserved_frames safe_space memory_size s))
  unfolding initialize
  initialize_lem small size z =
      let cleared = unmark_all (place_bitmap memory (counted memory_size s)) in
      let upper = add32 cleared.placement_address safe_space / page_size + 1 in
      (
        reserve_from-IsValid upper 0
            (place_bitmap-IsValid memory (counted memory_size s) small z (omega arith) refl),
        λ m h.
            mark-reserve_from upper 0 m cleared
            ∙ ground (
              arith,
              mark-place_bitmap memory (counted memory_size s) m h,
              placement-place_bitmap memory (counted memory_size s),
            ),
      )
