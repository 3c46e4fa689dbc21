-- ===== src/PhysicalMemory/Ownership.antt =====
-- Clients of the frame allocator as a step relation: each holds the frames that it was answered
-- until it gives them back.
use palmyra_os.Prelude.{
  ℕ, ◌*◌, ◌^◌, ◌≤◌, ◌<◌, ◌≡◌, ◌≢◌, inl, inr, ◌∙◌, Bool, true, false, not, ◌&&◌, ◌||◌, arith, ◌==◌,
  Bool-cases,
}
use palmyra_os.PhysicalMemory.{
  PhysicalMemory, get_frame_mark, page_size, allocate_frame, allocate_frames, free_frame,
  free_frames, frame_of, reserve_frame, mark_frame,
}
use palmyra_os.PhysicalMemory.Marks.{mark-mark_frame}
use palmyra_os.PhysicalMemory.Search.{IsUsed}
use palmyra_os.PhysicalMemory.Ranges.{within, mark-count_allocated}
use palmyra_os.PhysicalMemory.Validity.{
  IsValid, allocate, allocate_run, free, free_run, reserve, call-IsValid,
}
use palmyra_os.PhysicalMemory.Allocation.{
  Taken, allocate_frame_lem, allocate_frames_lem, mark-free_frame, mark-free_frames,
}

-- The allocator and the frames that clients hold.
pub record Lent : Type 0 where
  pub memory : PhysicalMemory
  pub held : ℕ → Bool

abbrev pub lent : PhysicalMemory → (ℕ → Bool) → Lent
lent s h = record { memory = s; held = h }

-- A client takes frames, and gives back only frames that are held, by the address of the first.
pub data Step : Lent → Lent → Type 0 where
  take_one :
      {l : Lent}
      → (allocate_frame l.memory).0 ≢ 0
      → Step l (
          lent
            (allocate_frame l.memory).1
            (λ m. within (frame_of (allocate_frame l.memory).0) 1 m || l.held m))
  take_run :
      {l : Lent} (num : ℕ)
      → 0 < num
      → num < 2 ^ 32
      → (allocate_frames num l.memory).0 ≢ 0
      → Step l (
          lent
            (allocate_frames num l.memory).1
            (λ m. within (frame_of (allocate_frames num l.memory).0) num m || l.held m))
  give_one :
      {l : Lent} (f : ℕ)
      → f ≢ 0
      → f < 2 ^ 20
      → Step l (lent (free_frame (f * page_size) l.memory) (λ m. not (within f 1 m) && l.held m))
  give_run :
      {l : Lent} (f num : ℕ)
      → f < 2 ^ 20
      → num ≤ 2 ^ 20
      → Step l
          (lent (free_frames (f * page_size) num l.memory) (λ m. not (within f num m) && l.held m))
  keep_out : {l : Lent} (a : ℕ) → a < 2 ^ 32 → Step l (lent (reserve_frame a l.memory) l.held)

pub data Reach (l : Lent) : Lent → Type 0 where
  here : Reach l l
  next : {k m : Lent} → Reach l k → Step k m → Reach l m

-- Whatever is held is marked.
pub record IsSafe (l : Lent) : Type 0 where
  pub valid : IsValid l.memory
  pub marked : (m : ℕ) → l.held m ≡ true → IsUsed l.memory m

frame_of-page : {a f : ℕ} → a ≡ f * page_size → frame_of a ≡ f
frame_of-page e = omega arith

-- Frames taken were marked by no one, so no one held them.
Taken-IsSafe :
    {s t : PhysicalMemory} {h : ℕ → Bool} {a f n : ℕ}
    → Taken s t a f n
    → IsValid t
    → ((m : ℕ) → h m ≡ true → IsUsed s m)
    → IsSafe (lent t (λ m. within (frame_of a) n m || h m))
Taken-IsSafe {a} {f} {n} k v marked = record {
  valid = v;
  marked = λ m held. ground (arith, k.marks m, marked m, frame_of-page k.at);
}

mark-reserve_frame :
    (a m : ℕ) (s : PhysicalMemory)
    → get_frame_mark m (reserve_frame a s) ≡ ((frame_of a == m) || get_frame_mark m s)
unfolding reserve_frame
mark-reserve_frame a m s =
    mark-count_allocated 1 m (mark_frame (frame_of a) s) ∙ mark-mark_frame (frame_of a) m s

Step-IsSafe : {l k : Lent} → Step l k → IsSafe l → IsSafe k
Step-IsSafe (take_one {l} some_frame) s = elim (allocate_frame_lem s.valid) [
  | inl (e, why) ↦ absurd (some_frame (rw e))
  | inr k ↦ Taken-IsSafe k (call-IsValid allocate tt s.valid) s.marked
]
Step-IsSafe (take_run {l} num pos small some_frame) s = elim (allocate_frames_lem s.valid num pos) [
  | inl (e, why) ↦ absurd (some_frame (rw e))
  | inr k ↦ Taken-IsSafe k (call-IsValid (allocate_run num) small s.valid) s.marked
]
Step-IsSafe (give_one {l} f nz small) s = record {
  valid = call-IsValid (free (f * page_size)) (omega arith) s.valid;
  marked = λ m held. ground (arith, mark-free_frame f m l.memory nz, s.marked m);
}
Step-IsSafe (give_run {l} f num small few) s = record {
  valid = call-IsValid (free_run (f * page_size) num) (omega arith, omega arith) s.valid;
  marked = λ m held. ground (arith, mark-free_frames f num m l.memory (omega arith), s.marked m);
}
Step-IsSafe (keep_out {l} a small) s = record {
  valid = call-IsValid (reserve a) small s.valid;
  marked = λ m held. ground (arith, mark-reserve_frame a m l.memory, s.marked m);
}

Reach-IsSafe : {l k : Lent} → IsSafe l → Reach l k → IsSafe k
Reach-IsSafe s here = s
Reach-IsSafe s (next r st) = Step-IsSafe st (Reach-IsSafe s r)

Taken-not_held :
    {l : Lent} {t : PhysicalMemory} {a f n : ℕ} (m : ℕ)
    → IsSafe l
    → Taken l.memory t a f n
    → within (frame_of a) n m ≡ true
    → (l.held m ≡ false) × (m ≢ 0)
Taken-not_held {l} m s k inside = (
  ground (arith, k.were_unused m, s.marked m, frame_of-page k.at, Bool-cases (l.held m)),
  ground (arith, frame_of-page k.at, k.not_first),
)

-- No frame is handed out while it is held: after any sequence of calls from a valid state in
-- which nobody holds a frame, each frame that `allocateFrame` or `allocateFrames` (for a number
-- above 0) answers is held by nobody, and is not frame 0.
pub Reach-not_held :
    {s : PhysicalMemory} {l : Lent}
    → IsValid s
    → Reach (lent s (λ m. false)) l
    → ((allocate_frame l.memory).0 ≢ 0
        → (l.held (frame_of (allocate_frame l.memory).0) ≡ false)
          × (frame_of (allocate_frame l.memory).0 ≢ 0))
      × ((num m : ℕ)
          → 0 < num
          → (allocate_frames num l.memory).0 ≢ 0
          → within (frame_of (allocate_frames num l.memory).0) num m ≡ true
          → (l.held m ≡ false) × (m ≢ 0))
Reach-not_held {l} v r =
    let s = Reach-IsSafe (record { valid = v; marked = λ m h. cc }) r in
    (
      λ some_frame. elim (allocate_frame_lem s.valid) [
        | inl (e, why) ↦ absurd (some_frame (rw e))
        | inr k ↦ Taken-not_held _ s k (ground arith)
      ],
      λ num m pos some_frame inside. elim (allocate_frames_lem s.valid num pos) [
        | inl (e, why) ↦ absurd (some_frame (rw e))
        | inr k ↦ Taken-not_held m s k inside
      ],
    )
