-- ===== src/PhysicalMemory/Validity.antt =====
-- The invariant of the frame allocator: modulo 2 ^ 32 its two counters add up to the number of
-- frames.
use palmyra_os.Prelude.{ℕ, zero, suc, ◌+◌, ◌^◌, ◌<◌, ◌≡◌, Bool, true, false, arith, if◌then◌else◌}
use palmyra_os.PhysicalMemory.{
  PhysicalMemory, mark_frame, unmark_frame, mark_frames, unmark_frames, reserve_from,
  count_allocated, count_freed, add32, allocate_frame, allocate_frames, free_frame, free_frames,
  reserve_frame,
}
use palmyra_os.PhysicalMemory.Marks.{IsWords, mark_frame-IsWords, unmark_frame-IsWords}

pub record IsValid (s : PhysicalMemory) : Type 0 where
  pub words : IsWords s
  pub addressable : s.frames_count < 2 ^ 20
  pub allocated_small : s.allocated_frames < 2 ^ 32
  pub free_small : s.free_frames_count < 2 ^ 32
  pub balanced : add32 s.allocated_frames s.free_frames_count ≡ s.frames_count

-- Any change of the bitmap that leaves the counters, then a change of the counters by `n`.
pub count_allocated-IsValid :
    (n : ℕ) {s : PhysicalMemory} → n < 2 ^ 32 → IsValid s → IsValid (count_allocated n s)
unfolding count_allocated
count_allocated-IsValid n h v = record {
  words = record { small = v.words.small };
  addressable = v.addressable;
  allocated_small = omega arith;
  free_small = omega arith;
  balanced = omega (arith, v.balanced, v.allocated_small, v.free_small);
}

pub count_freed-IsValid :
    (n : ℕ) {s : PhysicalMemory} → n < 2 ^ 32 → IsValid s → IsValid (count_freed n s)
unfolding count_freed
count_freed-IsValid n h v = record {
  words = record { small = v.words.small };
  addressable = v.addressable;
  allocated_small = omega arith;
  free_small = omega arith;
  balanced = omega (arith, v.balanced, v.allocated_small, v.free_small);
}

pub mark_frame-IsValid : (n : ℕ) {s : PhysicalMemory} → IsValid s → IsValid (mark_frame n s)
unfolding mark_frame
mark_frame-IsValid n v = record {
  words = mark_frame-IsWords n v.words;
  addressable = v.addressable;
  allocated_small = v.allocated_small;
  free_small = v.free_small;
  balanced = v.balanced;
}

pub unmark_frame-IsValid : (n : ℕ) {s : PhysicalMemory} → IsValid s → IsValid (unmark_frame n s)
unfolding unmark_frame
unmark_frame-IsValid n v = record {
  words = unmark_frame-IsWords n v.words;
  addressable = v.addressable;
  allocated_small = v.allocated_small;
  free_small = v.free_small;
  balanced = v.balanced;
}

mark_frames-IsValid : (n f : ℕ) {s : PhysicalMemory} → IsValid s → IsValid (mark_frames n f s)
unfolding mark_frames
mark_frames-IsValid zero f v = v
mark_frames-IsValid (suc n) f v = mark_frames-IsValid n (add32 f 1) (mark_frame-IsValid f v)

unmark_frames-IsValid : (n f : ℕ) {s : PhysicalMemory} → IsValid s → IsValid (unmark_frames n f s)
unfolding unmark_frames
unmark_frames-IsValid zero f v = v
unmark_frames-IsValid (suc n) f v = unmark_frames-IsValid n (add32 f 1) (unmark_frame-IsValid f v)

pub reserve_from-IsValid : (n i : ℕ) {s : PhysicalMemory} → IsValid s → IsValid (reserve_from n i s)
unfolding reserve_from
reserve_from-IsValid zero i v = v
reserve_from-IsValid (suc n) i v =
    reserve_from-IsValid n (i + 1)
      (count_allocated-IsValid 1 (omega arith) (mark_frame-IsValid i v))

-- The operations a client calls.
pub data Call : Type 0 where
  allocate : Call
  allocate_run : ℕ → Call
  free : ℕ → Call
  free_run : ℕ → ℕ → Call
  reserve : ℕ → Call

-- The state after a call.
abbrev pub call : Call → PhysicalMemory → PhysicalMemory
call allocate s = (allocate_frame s).1
call (allocate_run num) s = (allocate_frames num s).1
call (free frame) s = free_frame frame s
call (free_run frame num) s = free_frames frame num s
call (reserve frame) s = reserve_frame frame s

-- The numbers that a call passes are of type uint32_t.
abbrev pub IsCall : Call → Type 0
IsCall allocate = Unit {0}
IsCall (allocate_run num) = num < 2 ^ 32
IsCall (free frame) = frame < 2 ^ 32
IsCall (free_run frame num) = (frame < 2 ^ 32) × (num < 2 ^ 32)
IsCall (reserve frame) = frame < 2 ^ 32

IsValid-if :
    (b : Bool) (s t : PhysicalMemory) → IsValid s → IsValid t → IsValid (if b then s else t)
IsValid-if true s t v w = v
IsValid-if false s t v w = w

IsValid-if_pair :
    (b : Bool) (x y : ℕ × PhysicalMemory)
    → IsValid x.1
    → IsValid y.1
    → IsValid (if b then x else y).1
IsValid-if_pair true x y v w = v
IsValid-if_pair false x y v w = w

-- Every call of the allocator keeps the bitmap's words and both counters in 32 bits, and the
-- sum of the counters modulo 2 ^ 32, not the sum itself, at the number of frames, which is
-- below 2 ^ 20.
pub call-IsValid : (c : Call) {s : PhysicalMemory} → IsCall c → IsValid s → IsValid (call c s)
unfolding allocate_frame allocate_frames free_frame free_frames reserve_frame
call-IsValid allocate h v =
    IsValid-if_pair _ _ _ v (count_allocated-IsValid 1 (omega arith) (mark_frame-IsValid _ v))
call-IsValid (allocate_run num) h v =
    IsValid-if_pair _ _ _ v (count_allocated-IsValid num h (mark_frames-IsValid num _ v))
call-IsValid (free frame) h v =
    IsValid-if _ _ _ v (count_freed-IsValid 1 (omega arith) (unmark_frame-IsValid _ v))
call-IsValid (free_run frame num) h v = count_freed-IsValid num h.1 (unmark_frames-IsValid num _ v)
call-IsValid (reserve frame) h v = count_allocated-IsValid 1 (omega arith) (mark_frame-IsValid _ v)
