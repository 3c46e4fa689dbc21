-- ===== src/PhysicalMemory/Allocation.antt =====
-- What allocating and freeing do to the marks and to the counters.
use palmyra_os.Prelude.{
  ℕ, ◌+◌, ◌*◌, ◌/◌, ◌^◌, ◌≤◌, ◌<◌, ◌≡◌, ◌≢◌, ◌⊎◌, inl, inr, refl, true, false, not, ◌&&◌, ◌||◌,
  arith, ◌==◌, Bool-cases, ==_iff,
}
use palmyra_os.PhysicalMemory.{
  PhysicalMemory, mark_frame, unmark_frame, get_frame_mark, mark_frames, unmark_frames,
  count_allocated, count_freed, add32, sub32, page_size, allocate_frame, allocate_frames,
  free_frame, free_frames, is_frame_free, reserve_frame, frame_of, address_of,
  find_first_free_frame, find_first_free_frames,
}
use palmyra_os.PhysicalMemory.Marks.{mark-mark_frame, mark-unmark_frame}
use palmyra_os.PhysicalMemory.Search.{IsUsed, IsUnused, find_first_free_frame-FirstFree, FirstFree}
use palmyra_os.PhysicalMemory.Runs.{FreeRun, FirstRun, find_first_free_frames-FirstRun}
use palmyra_os.PhysicalMemory.Ranges.{
  within, mark-mark_frames, mark-unmark_frames, mark-count_allocated, mark-count_freed,
  mark_frames-SameCounts,
}
use palmyra_os.PhysicalMemory.Validity.{IsValid}

-- Address `a` is that of frame `f`, and in `t` the `n` frames from `f` on are newly marked: no
-- frame else changes, and the counters move by `n`.
pub record Taken (s t : PhysicalMemory) (a f n : ℕ) : Type 0 where
  pub at : a ≡ f * page_size
  pub not_first : f ≢ 0
  pub exist : f + n ≤ s.frames_count
  pub were_unused : (m : ℕ) → f ≤ m → m < f + n → IsUnused s m
  pub marks : (m : ℕ) → get_frame_mark m t ≡ (within f n m || get_frame_mark m s)
  pub allocated : t.allocated_frames ≡ add32 s.allocated_frames n
  pub free : t.free_frames_count ≡ sub32 s.free_frames_count n

module _ {s : PhysicalMemory} (v : IsValid s) where
  Taken-one :
      (f : ℕ)
      → f ≢ 0
      → FirstFree s 0 (s.frames_count / 32 * 32) f
      → Taken s (count_allocated 1 (mark_frame f s)) (address_of f) f 1
  unfolding mark_frame count_allocated
  Taken-one f nz (inr (z, all)) = absurd (nz z)
  Taken-one f nz (inl (a, b, u, before)) = record {
    at = omega (arith, v.addressable);
    not_first = nz;
    exist = omega arith;
    were_unused = λ m p q. rw (let e : m ≡ f = omega arith in e) u;
    marks = λ m. ground (arith, mark-count_allocated 1 m (mark_frame f s), mark-mark_frame f m s);
    allocated = refl;
    free = refl;
  }

  Taken-run :
      (num f : ℕ)
      → f ≢ 0
      → FirstRun s num s.frames_count f
      → Taken s (count_allocated num (mark_frames num f s)) (address_of f) f num
  unfolding count_allocated
  Taken-run num f nz (inr (z, all)) = absurd (nz z)
  Taken-run num f nz (inl (b, run, before)) = record {
    at = omega (arith, v.addressable);
    not_first = nz;
    exist = b;
    were_unused = run;
    marks = λ m. ground (
      arith,
      mark-count_allocated num m (mark_frames num f s),
      mark-mark_frames num f m s (omega (arith, v.addressable)),
    );
    allocated = ground (arith, mark_frames-SameCounts num f s);
    free = ground (arith, mark_frames-SameCounts num f s);
  }

  -- Why a search answers 0: what it would take starts at frame 0, or nothing can be taken.
  none_free :
      FirstFree s 0 (s.frames_count / 32 * 32) 0
      → IsUnused s 0 ⊎ ((m : ℕ) → m < s.frames_count / 32 * 32 → IsUsed s m)
  none_free (inl (a, b, u, before)) = inl u
  none_free (inr (z, all)) = inr (λ m h. all m (omega arith) h)

  no_run :
      (num : ℕ)
      → FirstRun s num s.frames_count 0
      → FreeRun s num 0 ⊎ ((f : ℕ) → f + num ≤ s.frames_count → ¬ FreeRun s num f)
  no_run num (inl (b, run, before)) = inl run
  no_run num (inr (z, all)) = inr all

  -- `allocateFrame` in a valid state takes one unused frame, or it answers null and changes
  -- nothing: that is when frame 0 is unused, or every frame of the bitmap's whole words is
  -- used.
  pub allocate_frame_lem :
      ((allocate_frame s ≡ (0, s))
        × (IsUnused s 0 ⊎ ((m : ℕ) → m < s.frames_count / 32 * 32 → IsUsed s m)))
      ⊎ Taken s (allocate_frame s).1 (allocate_frame s).0 (find_first_free_frame s) 1
  unfolding allocate_frame
  allocate_frame_lem =
      let found = find_first_free_frame-FirstFree s in
      elim (Bool-cases (find_first_free_frame s == 0)) [
        | inl z ↦ inl (rw z, none_free (rw ((==_iff _ _).0 z) at found))
        | inr nz ↦ inr (rw nz (Taken-one (find_first_free_frame s) (ground arith) found))
      ]

  -- `allocateFrames` in a valid state, for a number above 0, takes that many unused frames in a
  -- row, or it answers null and changes nothing: that is when the row would start at frame 0,
  -- or there is no such row.
  pub allocate_frames_lem :
      (num : ℕ)
      → 0 < num
      → ((allocate_frames num s ≡ (0, s))
          × (FreeRun s num 0 ⊎ ((f : ℕ) → f + num ≤ s.frames_count → ¬ FreeRun s num f)))
        ⊎ Taken s
            (allocate_frames num s).1
            (allocate_frames num s).0
            (find_first_free_frames num s)
            num
  unfolding allocate_frames
  allocate_frames_lem num pos =
      let found = find_first_free_frames-FirstRun s num pos in
      elim (Bool-cases (find_first_free_frames num s == 0)) [
        | inl z ↦ inl (rw z, no_run num (rw ((==_iff _ _).0 z) at found))
        | inr nz ↦ inr (rw nz (Taken-run num (find_first_free_frames num s) (ground arith) found))
      ]

-- Freeing a frame or a run of frames by its address unmarks exactly those frames.
pub mark-free_frame :
    (f m : ℕ) (s : PhysicalMemory)
    → f ≢ 0
    → get_frame_mark m (free_frame (f * page_size) s) ≡ (not (within f 1 m) && get_frame_mark m s)
unfolding free_frame
mark-free_frame f m s nz = ground (
  arith,
  mark-count_freed 1 m (unmark_frame (f * page_size / page_size) s),
  mark-unmark_frame (f * page_size / page_size) m s,
)

pub mark-free_frames :
    (f num m : ℕ) (s : PhysicalMemory)
    → f + num < 2 ^ 32
    → get_frame_mark m (free_frames (f * page_size) num s)
      ≡ (not (within f num m) && get_frame_mark m s)
unfolding free_frames
mark-free_frames f num m s small = ground (
  arith,
  mark-count_freed num m (unmark_frames num (f * page_size / page_size) s),
  mark-unmark_frames num (f * page_size / page_size) m s,
)

counters-free_frame :
    (f : ℕ) (s : PhysicalMemory)
    → f ≢ 0
    → ((free_frame (f * page_size) s).allocated_frames ≡ sub32 s.allocated_frames 1)
      × ((free_frame (f * page_size) s).free_frames_count ≡ add32 s.free_frames_count 1)
unfolding free_frame count_freed unmark_frame
counters-free_frame f s nz = ground arith

Taken-free_frame :
    {s t : PhysicalMemory} (a f : ℕ)
    → IsValid s
    → Taken s t a f 1
    → ((m : ℕ) → get_frame_mark m (free_frame a t) ≡ get_frame_mark m s)
      × ((free_frame a t).allocated_frames ≡ s.allocated_frames)
      × ((free_frame a t).free_frames_count ≡ s.free_frames_count)
Taken-free_frame {t} a f v k = rw k.at (
  λ m. ground (arith, mark-free_frame f m t k.not_first, k.marks m, k.were_unused m),
  omega (arith, counters-free_frame f t k.not_first, k.allocated, v.allocated_small),
  omega (arith, counters-free_frame f t k.not_first, k.free, v.free_small),
)

-- In a valid state `freeFrame` undoes an `allocateFrame` that answered a frame: each mark and
-- both counters are as before.
pub free_frame-allocate_frame :
    (s : PhysicalMemory)
    → IsValid s
    → (allocate_frame s).0 ≢ 0
    → let (a, t) = allocate_frame s in
      ((m : ℕ) → get_frame_mark m (free_frame a t) ≡ get_frame_mark m s)
      × ((free_frame a t).allocated_frames ≡ s.allocated_frames)
      × ((free_frame a t).free_frames_count ≡ s.free_frames_count)
free_frame-allocate_frame s v answered = elim (allocate_frame_lem v) [
  | inl (e, why) ↦ absurd (answered (rw e))
  | inr k ↦ Taken-free_frame _ _ v k
]

-- `isFrameFree` answers true for a frame that was just reserved, and false for one just freed
-- by an address of frame 1 or above.
is_frame_free-reserve_frame :
    (a : ℕ) (s : PhysicalMemory)
    → (is_frame_free a (reserve_frame a s) ≡ true)
      × (frame_of a ≢ 0 → is_frame_free a (free_frame a s) ≡ false)
unfolding is_frame_free reserve_frame free_frame
is_frame_free-reserve_frame a s = (
  ground (
    arith,
    mark-count_allocated 1 (frame_of a) (mark_frame (frame_of a) s),
    mark-mark_frame (frame_of a) (frame_of a) s,
  ),
  λ nz. ground (
    arith,
    mark-count_freed 1 (frame_of a) (unmark_frame (frame_of a) s),
    mark-unmark_frame (frame_of a) (frame_of a) s,
  ),
)
