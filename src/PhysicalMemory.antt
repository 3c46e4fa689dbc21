-- ===== src/PhysicalMemory.antt =====
-- The physical frame allocator, `kernel::PhysicalMemory` of core/memory/PhysicalMemory.cpp: a
-- bitmap with one bit for each frame of 4 KiB, two counters, and the placement address that
-- `kmalloc` moves. The bitmap is what stands in memory from `frameBits_` on, word by word; the
-- code checks no bounds on it, and neither does the model.
pub mod Marks
pub mod Allocation
pub mod Ownership
pub mod Ranges
pub mod Runs
pub mod Search
pub mod Start
mod Tests
pub mod Validity
use palmyra_os.Prelude.{
  ℕ, zero, suc, ◌+◌, ◌-◌, ◌*◌, ◌/◌, ◌%◌, ◌^◌, Bool, not, Option, none, some, bit_and, bit_or, ltb,
  leb, ◌==◌, if◌then◌else◌,
}
use palmyra_os.Prelude.Bits.{not32}

pub record PhysicalMemory : Type 0 where
  pub frame_bits_at : ℕ
  pub frame_bits : ℕ → ℕ
  pub frames_count : ℕ
  pub free_frames_count : ℕ
  pub allocated_frames : ℕ
  pub placement_address : ℕ

abbrev pub page_size : ℕ
page_size = 2 ^ 12

-- `x += n`, `x -= n` and `++x` on uint32_t
abbrev pub add32 : ℕ → ℕ → ℕ
add32 a b = (a + b) % 2 ^ 32

abbrev pub sub32 : ℕ → ℕ → ℕ
sub32 a b = (a + 2 ^ 32 - b) % 2 ^ 32

abbrev pub word_index : ℕ → ℕ
word_index n = n / 32

abbrev pub bit_index : ℕ → ℕ
bit_index n = n % 32

-- `bits[i] = v`
abbrev pub write_word : (ℕ → ℕ) → ℕ → ℕ → ℕ → ℕ
write_word bits i v k = if k == i then v else bits k

-- The null pointer is 0.
pub kmalloc : ℕ → PhysicalMemory → ℕ × PhysicalMemory
kmalloc size s =
    if size == 0
    then (0, s)
    else (s.placement_address, record s { placement_address = add32 s.placement_address size })

-- `memset(p, 0, num)` on little-endian words: of word `num / 4` the low `num % 4` bytes go.
pub memset_zero : (ℕ → ℕ) → ℕ → ℕ → ℕ
memset_zero bits num k =
    if leb (4 * k + 4) num
    then 0
    else if leb num (4 * k)
    then bits k
    else bits k / 2 ^ (8 * (num - 4 * k)) * 2 ^ (8 * (num - 4 * k))

pub unmark_words : ℕ → (ℕ → ℕ) → ℕ → ℕ
unmark_words n bits k = if ltb k n then 0 else bits k

pub unmark_all : PhysicalMemory → PhysicalMemory
unfolding unmark_words
unmark_all s = record s { frame_bits = unmark_words (word_index s.frames_count) s.frame_bits }

pub mark_frame : ℕ → PhysicalMemory → PhysicalMemory
mark_frame num s = record s {
  frame_bits =
      write_word s.frame_bits (word_index num)
        (bit_or (s.frame_bits (word_index num)) (2 ^ bit_index num));
}

pub unmark_frame : ℕ → PhysicalMemory → PhysicalMemory
unmark_frame num s = record s {
  frame_bits =
      write_word s.frame_bits (word_index num)
        (bit_and (s.frame_bits (word_index num)) (not32 (2 ^ bit_index num)));
}

pub get_frame_mark : ℕ → PhysicalMemory → Bool
get_frame_mark num s = not (bit_and (s.frame_bits (word_index num)) (2 ^ bit_index num) == 0)

-- `allocatedFrames_ += n; freeFramesCount_ -= n`, and the other way round
pub count_allocated : ℕ → PhysicalMemory → PhysicalMemory
count_allocated n s = record s {
  allocated_frames = add32 s.allocated_frames n;
  free_frames_count = sub32 s.free_frames_count n;
}

pub count_freed : ℕ → PhysicalMemory → PhysicalMemory
count_freed n s = record s {
  allocated_frames = sub32 s.allocated_frames n;
  free_frames_count = add32 s.free_frames_count n;
}

-- The loop of `initialize` over the reserved frames: `n` rounds from `i` on.
pub reserve_from : ℕ → ℕ → PhysicalMemory → PhysicalMemory
unfolding mark_frame count_allocated
reserve_from zero i s = s
reserve_from (suc n) i s = reserve_from n (i + 1) (count_allocated 1 (mark_frame i s))

-- The pointer of the bitmap, and the bitmap before it is cleared: `memory` gives the words that
-- stand from an address on.
pub place_bitmap : (ℕ → ℕ → ℕ) → PhysicalMemory → PhysicalMemory
unfolding kmalloc memset_zero
place_bitmap memory s =
    let (p, s') = kmalloc (word_index s.frames_count) s in
    record s' { frame_bits_at = p; frame_bits = memset_zero (memory p) (word_index s.frames_count) }

pub initialize : (ℕ → ℕ → ℕ) → ℕ → ℕ → PhysicalMemory → PhysicalMemory
unfolding place_bitmap unmark_all reserve_from
initialize memory safe_space memory_size s =
    let counted = record s {
      frames_count = memory_size / page_size;
      free_frames_count = memory_size / page_size;
    } in
    let cleared = unmark_all (place_bitmap memory counted) in
    let reserved = add32 cleared.placement_address safe_space in
    reserve_from (reserved / page_size + 1) 0 cleared

-- `for (j ...) if (!(word & (1 << j))) return j`, with `n` rounds left
pub scan_bits : ℕ → ℕ → ℕ → Option ℕ
scan_bits word zero j = none
scan_bits word (suc n) j =
    let rest = scan_bits word n (j + 1) in if bit_and word (2 ^ j) == 0 then some j else rest

pub scan_words : (ℕ → ℕ) → ℕ → ℕ → ℕ
unfolding scan_bits
scan_words bits zero i = 0
scan_words bits (suc n) i =
    let rest = scan_words bits n (i + 1) in
    if bits i == 0xffff_ffff
    then rest
    else elim (scan_bits (bits i) 32 0) [ some j ↦ i * 32 + j | none ↦ rest ]

pub find_first_free_frame : PhysicalMemory → ℕ
unfolding scan_words
find_first_free_frame s = scan_words s.frame_bits (word_index s.frames_count) 0

-- The address of a frame, `frame << PAGE_BITS`, and the frame of an address.
abbrev pub address_of : ℕ → ℕ
address_of frame = frame * page_size % 2 ^ 32

abbrev pub frame_of : ℕ → ℕ
frame_of address = address / page_size

pub allocate_frame : PhysicalMemory → ℕ × PhysicalMemory
unfolding find_first_free_frame mark_frame count_allocated
allocate_frame s =
    let frame = find_first_free_frame s in
    if frame == 0 then (0, s) else (address_of frame, count_allocated 1 (mark_frame frame s))

pub free_frame : ℕ → PhysicalMemory → PhysicalMemory
unfolding unmark_frame count_freed
free_frame frame s = if frame == 0 then s else count_freed 1 (unmark_frame (frame_of frame) s)

-- The loop of `findFirstFreeFrames`, with `n` rounds left at frame `i`.
pub scan_run : ℕ → PhysicalMemory → ℕ → ℕ → ℕ → ℕ → ℕ
unfolding get_frame_mark
scan_run num s zero i consecutive first = 0
scan_run num s (suc n) i consecutive first =
    let first' = if consecutive == 0 then i else first in
    let more = scan_run num s n (i + 1) (consecutive + 1) first' in
    let again = scan_run num s n (i + 1) 0 first in
    if get_frame_mark i s then again else if consecutive + 1 == num then first' else more

pub find_first_free_frames : ℕ → PhysicalMemory → ℕ
unfolding scan_run
find_first_free_frames num s = scan_run num s s.frames_count 0 0 0

pub mark_frames : ℕ → ℕ → PhysicalMemory → PhysicalMemory
unfolding mark_frame
mark_frames zero frame s = s
mark_frames (suc n) frame s = mark_frames n (add32 frame 1) (mark_frame frame s)

pub unmark_frames : ℕ → ℕ → PhysicalMemory → PhysicalMemory
unfolding unmark_frame
unmark_frames zero frame s = s
unmark_frames (suc n) frame s = unmark_frames n (add32 frame 1) (unmark_frame frame s)

pub allocate_frames : ℕ → PhysicalMemory → ℕ × PhysicalMemory
unfolding find_first_free_frames mark_frames count_allocated
allocate_frames num s =
    let first = find_first_free_frames num s in
    if first == 0 then (0, s) else (address_of first, count_allocated num (mark_frames num first s))

pub free_frames : ℕ → ℕ → PhysicalMemory → PhysicalMemory
unfolding unmark_frames count_freed
free_frames frame num s = count_freed num (unmark_frames num (frame_of frame) s)

pub reserve_frame : ℕ → PhysicalMemory → PhysicalMemory
unfolding mark_frame count_allocated
reserve_frame frame s = count_allocated 1 (mark_frame (frame_of frame) s)

pub is_frame_free : ℕ → PhysicalMemory → Bool
unfolding get_frame_mark
is_frame_free frame s = get_frame_mark (frame_of frame) s
