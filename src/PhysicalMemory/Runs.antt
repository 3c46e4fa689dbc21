-- ===== src/PhysicalMemory/Runs.antt =====
-- The search for a run of frames, `findFirstFreeFrames`, against the marks that it reads.
use palmyra_os.Prelude.{
  ℕ, zero, suc, ◌+◌, ◌-◌, ◌≤◌, ◌<◌, ◌≡◌, ◌⊎◌, inl, inr, refl, ap, arith, ◌==◌, if◌then◌else◌,
  ==_iff, Bool-cases,
}
use palmyra_os.PhysicalMemory.{PhysicalMemory, get_frame_mark, scan_run, find_first_free_frames}
use native.Mathlib.Decide.{dec_le, dec_lt}
use palmyra_os.PhysicalMemory.Search.{IsUsed, IsUnused}

module _ (s : PhysicalMemory) where
  -- `num` unused frames in a row, from `f` on
  abbrev pub FreeRun : ℕ → ℕ → Type 0
  FreeRun num f = (m : ℕ) → f ≤ m → m < f + num → IsUnused s m

  -- The state of the loop of `findFirstFreeFrames` at frame `i`: the run that ends there, and no
  -- run of `num` frames so far.
  record InRun (num i consecutive first : ℕ) : Type 0 where
    short : consecutive < num
    starts : (consecutive ≡ 0) ⊎ (first + consecutive ≡ i)
    within : consecutive ≤ i
    free : (m : ℕ) → i ≤ m + consecutive → m < i → IsUnused s m
    used : (consecutive ≡ i) ⊎ ((m : ℕ) → m + consecutive + 1 ≡ i → IsUsed s m)
    none_before : (f : ℕ) → f + num ≤ i → ¬ FreeRun num f

  abbrev pub FirstRun : ℕ → ℕ → ℕ → Type 0
  FirstRun num hi f =
      ((f + num ≤ hi) × FreeRun num f × ((k : ℕ) → k < f → ¬ FreeRun num k))
      ⊎ ((f ≡ 0) × ((k : ℕ) → k + num ≤ hi → ¬ FreeRun num k))

  InRun-used :
      (num i c first : ℕ) → InRun num i c first → 0 < num → IsUsed s i → InRun num (i + 1) 0 first
  InRun-used num i c first v pos u = record {
    short = pos;
    starts = inl refl;
    within = omega arith;
    free = λ m a b. absurd (omega arith);
    used =
        inr (λ m e.
          ground (arith, ap (λ k. get_frame_mark k s) (let e' : m ≡ i = omega arith in e')));
    none_before = λ f le run. elim (dec_le (f + num) i) [
      | yes p ↦ v.none_before f p run
      | no p ↦ ground (arith, run i (omega arith) (omega arith))
    ];
  }

  ends_run :
      (num i c first : ℕ)
      → InRun num i c first
      → IsUnused s i
      → (m : ℕ) → i ≤ m + c
      → m < i + 1
      → IsUnused s m
  ends_run num i c first v u m a b = elim (dec_lt m i) [
    | yes p ↦ v.free m a p
    | no p ↦ rw (let e : m ≡ i = omega arith in e) u
  ]

  no_longer_run :
      (num i c first : ℕ)
      → InRun num i c first
      → c + 1 < num
      → (f : ℕ) → f + num ≤ i + 1
      → ¬ FreeRun num f
  no_longer_run num i c first v l f le run = elim (dec_le (f + num) i) [
    | yes p ↦ v.none_before f p run
    | no p ↦ elim v.used [
      | inl e ↦ absurd (omega (arith, v.short))
      | inr u ↦
          ground (arith, u (i - c - 1) (omega arith), run (i - c - 1) (omega arith) (omega arith))
    ]
  ]

  InRun-free :
      (num i c first : ℕ)
      → InRun num i c first
      → c + 1 < num
      → IsUnused s i
      → InRun num (i + 1) (c + 1) (if c == 0 then i else first)
  InRun-free num i c first v l u = record {
    short = l;
    starts = inr (ground (arith, v.starts));
    within = omega (arith, v.within);
    free = λ m a b. ends_run num i c first v u m (omega arith) b;
    used = elim v.used [ inl e ↦ inl (omega arith) | inr h ↦ inr (λ m e. h m (omega arith)) ];
    none_before = no_longer_run num i c first v l;
  }

  InRun-done :
      (num i c first hi : ℕ)
      → InRun num i c first
      → c + 1 ≡ num
      → IsUnused s i
      → i + 1 ≤ hi
      → FirstRun num hi (if c == 0 then i else first)
  InRun-done num i c first hi v e u le =
      let at : (if c == 0 then i else first) + num ≡ i + 1 = ground (arith, v.starts) in
      inl (
        omega (arith, at),
        λ m a b. ends_run num i c first v u m (omega (arith, at)) (omega (arith, at)),
        λ k l. v.none_before k (omega (arith, at)),
      )

  scan_run-FirstRun :
      (num n i c first hi : ℕ)
      → 0 < num
      → InRun num i c first
      → i + n ≡ hi
      → FirstRun num hi (scan_run num s n i c first)
  unfolding scan_run
  scan_run-FirstRun num zero i c first hi pos v e =
      inr (refl, λ k le. v.none_before k (omega arith))
  scan_run-FirstRun num (suc n) i c first hi pos v e = elim (Bool-cases (get_frame_mark i s)) [
    | inl u ↦ rw u (
        scan_run-FirstRun num n (i + 1) 0 first hi pos (InRun-used num i c first v pos u)
          (omega arith))
    | inr u ↦ elim (Bool-cases (c + 1 == num)) [
      | inl done ↦
          rw (u, done) (InRun-done num i c first hi v ((==_iff _ _).0 done) u (omega arith))
      | inr more ↦
          rw (u, more)
            (scan_run-FirstRun num n (i + 1) (c + 1) _ hi pos
              (InRun-free num i c first v (ground (arith, v.short)) u) (omega arith))
    ]
  ]

  InRun-start : (num : ℕ) → 0 < num → InRun num 0 0 0
  InRun-start num pos = record {
    short = pos;
    starts = inl refl;
    within = omega arith;
    free = λ m a b. absurd (omega arith);
    used = inl refl;
    none_before = λ f le run. absurd (omega arith);
  }

  -- For `num` above 0 `findFirstFreeFrames` answers the first frame from which `num` frames in
  -- a row are unused, all of them below the count of frames. When there is no such row it
  -- answers 0.
  pub find_first_free_frames-FirstRun :
      (num : ℕ) → 0 < num → FirstRun num s.frames_count (find_first_free_frames num s)
  unfolding find_first_free_frames
  find_first_free_frames-FirstRun num pos =
      scan_run-FirstRun num s.frames_count 0 0 0 _ pos (InRun-start num pos) (omega arith)
