-- ===== src/PhysicalMemory/Ranges.antt =====
-- The loops of the frame allocator that mark or unmark a range of frames.
use palmyra_os.Prelude.{
  ℕ, zero, suc, ◌+◌, ◌^◌, ◌<◌, ◌≡◌, refl, Bool, not, ◌&&◌, ◌||◌, arith, ltb, leb,
}
use palmyra_os.PhysicalMemory.{
  PhysicalMemory, mark_frame, unmark_frame, get_frame_mark, mark_frames, unmark_frames,
  reserve_from, count_allocated, count_freed, add32,
}
use palmyra_os.PhysicalMemory.Marks.{
  IsWords, mark-mark_frame, mark-unmark_frame, mark_frame-IsWords, unmark_frame-IsWords,
}

abbrev pub within : ℕ → ℕ → ℕ → Bool
within f n m = leb f m && ltb m (f + n)

-- `markFrame` over `num` frames from `f` on marks those frames and no other.
pub mark-mark_frames :
    (n f m : ℕ) (s : PhysicalMemory)
    → f + n < 2 ^ 32
    → get_frame_mark m (mark_frames n f s) ≡ (within f n m || get_frame_mark m s)
unfolding mark_frames
mark-mark_frames zero f m s h = ground arith
mark-mark_frames (suc n) f m s h =
    ground (
      arith,
      mark-mark_frames n (add32 f 1) m (mark_frame f s) (omega arith),
      mark-mark_frame f m s,
    )

pub mark-unmark_frames :
    (n f m : ℕ) (s : PhysicalMemory)
    → f + n < 2 ^ 32
    → get_frame_mark m (unmark_frames n f s) ≡ (not (within f n m) && get_frame_mark m s)
unfolding unmark_frames
mark-unmark_frames zero f m s h = ground arith
mark-unmark_frames (suc n) f m s h = ground (
  arith,
  mark-unmark_frames n (add32 f 1) m (unmark_frame f s) (omega arith),
  mark-unmark_frame f m s,
)

-- The counters are no marks.
pub mark-count_allocated :
    (n m : ℕ) (s : PhysicalMemory) → get_frame_mark m (count_allocated n s) ≡ get_frame_mark m s
unfolding count_allocated get_frame_mark
mark-count_allocated n m s = refl

pub mark-count_freed :
    (n m : ℕ) (s : PhysicalMemory) → get_frame_mark m (count_freed n s) ≡ get_frame_mark m s
unfolding count_freed get_frame_mark
mark-count_freed n m s = refl

pub mark-reserve_from :
    (n i m : ℕ) (s : PhysicalMemory)
    → get_frame_mark m (reserve_from n i s) ≡ (within i n m || get_frame_mark m s)
unfolding reserve_from
mark-reserve_from zero i m s = ground arith
mark-reserve_from (suc n) i m s = ground (
  arith,
  mark-reserve_from n (i + 1) m (count_allocated 1 (mark_frame i s)),
  mark-mark_frame i m s,
  mark-count_allocated 1 m (mark_frame i s),
)

pub mark_frames-IsWords : (n f : ℕ) {s : PhysicalMemory} → IsWords s → IsWords (mark_frames n f s)
unfolding mark_frames
mark_frames-IsWords zero f v = v
mark_frames-IsWords (suc n) f v = mark_frames-IsWords n (add32 f 1) (mark_frame-IsWords f v)

pub unmark_frames-IsWords :
    (n f : ℕ) {s : PhysicalMemory} → IsWords s → IsWords (unmark_frames n f s)
unfolding unmark_frames
unmark_frames-IsWords zero f v = v
unmark_frames-IsWords (suc n) f v = unmark_frames-IsWords n (add32 f 1) (unmark_frame-IsWords f v)

-- What the loops leave alone.
pub record SameCounts (s t : PhysicalMemory) : Type 0 where
  pub frames : t.frames_count ≡ s.frames_count
  pub free : t.free_frames_count ≡ s.free_frames_count
  pub allocated : t.allocated_frames ≡ s.allocated_frames
  pub placement : t.placement_address ≡ s.placement_address

pub mark_frames-SameCounts : (n f : ℕ) (s : PhysicalMemory) → SameCounts s (mark_frames n f s)
unfolding mark_frames mark_frame
mark_frames-SameCounts zero f s = ground arith
mark_frames-SameCounts (suc n) f s =
    ground (arith, mark_frames-SameCounts n (add32 f 1) (mark_frame f s))

pub unmark_frames-SameCounts : (n f : ℕ) (s : PhysicalMemory) → SameCounts s (unmark_frames n f s)
unfolding unmark_frames unmark_frame
unmark_frames-SameCounts zero f s = ground arith
unmark_frames-SameCounts (suc n) f s =
    ground (arith, unmark_frames-SameCounts n (add32 f 1) (unmark_frame f s))
