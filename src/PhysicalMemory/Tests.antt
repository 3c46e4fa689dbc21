-- ===== src/PhysicalMemory/Tests.antt =====
-- A small machine: 64 frames, of which `initialize` reserves the first three.
use palmyra_os.Prelude.{
  ℕ, ◌+◌, ◌*◌, ◌/◌, ◌≤◌, ◌<◌, ◌≡◌, ◌≢◌, ◌⊎◌, refl, true, false, ◌||◌, arith, ltb,
}
use palmyra_os.PhysicalMemory.{
  PhysicalMemory, get_frame_mark, page_size, initialize, allocate_frame, allocate_frames,
  free_frame, frame_of, find_first_free_frame, find_first_free_frames,
}
use palmyra_os.PhysicalMemory.Search.{IsUsed, IsUnused, FirstFree, find_first_free_frame-FirstFree}
use palmyra_os.PhysicalMemory.Runs.{FreeRun, FirstRun, find_first_free_frames-FirstRun}
use palmyra_os.PhysicalMemory.Ranges.{within}
use palmyra_os.PhysicalMemory.Validity.{IsValid, allocate, call, call-IsValid}
use palmyra_os.PhysicalMemory.Start.{reserved_frames, initialize_lem}
use palmyra_os.PhysicalMemory.Allocation.{
  Taken, allocate_frame_lem, allocate_frames_lem, free_frame-allocate_frame,
}
use palmyra_os.PhysicalMemory.Ownership.{Lent, lent, here, next, take_one, Reach-not_held}

-- Before `initialize`: the kernel ends at 5000.
abbrev off : PhysicalMemory
off = record {
  frame_bits_at = 0;
  frame_bits = λ k. 0;
  frames_count = 0;
  free_frames_count = 0;
  allocated_frames = 0;
  placement_address = 5000;
}

abbrev garbage : ℕ → ℕ → ℕ
garbage p k = 0xdead_beef

abbrev machine : ℕ
machine = 64 * page_size

abbrev booted : PhysicalMemory
unfolding initialize
booted = initialize garbage page_size machine off

initialize_example :
    IsValid (initialize garbage page_size machine off)
    × ((m : ℕ)
        → m < machine / page_size / 32 * 32
        → get_frame_mark m (initialize garbage page_size machine off)
          ≡ ltb m (reserved_frames page_size machine off))
initialize_example =
    initialize_lem garbage page_size machine off (λ p k. omega arith) (omega arith) refl

booted-IsValid : IsValid (initialize garbage page_size machine off)
booted-IsValid =
    (initialize_lem garbage page_size machine off (λ p k. omega arith) (omega arith) refl).0

first_free : find_first_free_frame (initialize garbage page_size machine off) ≡ 3
unfolding initialize find_first_free_frame
first_free = refl

first_address : (allocate_frame (initialize garbage page_size machine off)).0 ≡ 0x3000
unfolding initialize allocate_frame
first_address = refl

answered : (allocate_frame (initialize garbage page_size machine off)).0 ≢ 0
answered = omega (arith, first_address)

call_example : IsValid (call allocate (initialize garbage page_size machine off))
call_example = call-IsValid allocate tt booted-IsValid

first_free_example :
    FirstFree
      (initialize garbage page_size machine off)
      0
      ((initialize garbage page_size machine off).frames_count / 32 * 32)
      (find_first_free_frame (initialize garbage page_size machine off))
first_free_example = find_first_free_frame-FirstFree (initialize garbage page_size machine off)

consecutive_example :
    FirstRun
      (initialize garbage page_size machine off)
      5
      (initialize garbage page_size machine off).frames_count
      (find_first_free_frames 5 (initialize garbage page_size machine off))
consecutive_example =
    find_first_free_frames-FirstRun (initialize garbage page_size machine off) 5 (omega arith)

allocate_frame_example :
    ((allocate_frame booted ≡ (0, booted))
      × (IsUnused booted 0 ⊎ ((m : ℕ) → m < booted.frames_count / 32 * 32 → IsUsed booted m)))
    ⊎ Taken booted
        (allocate_frame booted).1
        (allocate_frame booted).0
        (find_first_free_frame booted)
        1
unfolding initialize
allocate_frame_example = allocate_frame_lem booted-IsValid

allocate_frames_example :
    ((allocate_frames 5 booted ≡ (0, booted))
      × (FreeRun booted 5 0 ⊎ ((f : ℕ) → f + 5 ≤ booted.frames_count → ¬ FreeRun booted 5 f)))
    ⊎ Taken booted
        (allocate_frames 5 booted).1
        (allocate_frames 5 booted).0
        (find_first_free_frames 5 booted)
        5
unfolding initialize
allocate_frames_example = allocate_frames_lem booted-IsValid 5 (omega arith)

free_allocate_example :
    let (a, t) = allocate_frame (initialize garbage page_size machine off) in
    ((m : ℕ)
      → get_frame_mark m (free_frame a t)
        ≡ get_frame_mark m (initialize garbage page_size machine off))
    × ((free_frame a t).allocated_frames
        ≡ (initialize garbage page_size machine off).allocated_frames)
    × ((free_frame a t).free_frames_count
        ≡ (initialize garbage page_size machine off).free_frames_count)
free_allocate_example =
    free_frame-allocate_frame (initialize garbage page_size machine off) booted-IsValid answered

-- One client holds frame 3.
abbrev one_held : Lent
one_held = lent (allocate_frame (initialize garbage page_size machine off)).1 (λ m.
    within (frame_of (allocate_frame (initialize garbage page_size machine off)).0) 1 m || false)

not_held_example :
    ((allocate_frame one_held.memory).0 ≢ 0
      → (one_held.held (frame_of (allocate_frame one_held.memory).0) ≡ false)
        × (frame_of (allocate_frame one_held.memory).0 ≢ 0))
    × ((num m : ℕ)
        → 0 < num
        → (allocate_frames num one_held.memory).0 ≢ 0
        → within (frame_of (allocate_frames num one_held.memory).0) num m ≡ true
        → (one_held.held m ≡ false) × (m ≢ 0))
not_held_example = Reach-not_held booted-IsValid (next here (take_one answered))
