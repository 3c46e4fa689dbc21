-- ===== src/Heap/Settled.antt =====
-- `coalesceFreeBlocks` leaves no chunk that could take in the one behind it.
use palmyra_os.Prelude.{
  ℕ, zero, suc, ◌≤◌, ◌≡◌, inl, inr, Bool, true, false, not, ◌&&◌, List, [], ◌∷◌, length, arith,
  Bool-cases, if-false, if-true,
}
use palmyra_os.Heap.{
  Chunk, place, put_back, is_physically_contiguous, grown, absorbs, merge_next, merge_prev,
  try_merge, coalesce_round, coalesce_from, coalesce_free_blocks,
}

abbrev pub is_mergeable : Chunk → Chunk → Bool
is_mergeable c n = not c.is_allocated && absorbs c n

abbrev pub IsSettled : List Chunk → Type 0
IsSettled [] = Unit
IsSettled (c ∷ []) = Unit
IsSettled (c ∷ n ∷ cs) = (is_mergeable c n ≡ false) × IsSettled (n ∷ cs)

-- The same of chunks from the last on
abbrev IsSettledBack : List Chunk → Type 0
IsSettledBack [] = Unit
IsSettledBack (c ∷ []) = Unit
IsSettledBack (c ∷ p ∷ ps) = (is_mergeable p c ≡ false) × IsSettledBack (p ∷ ps)

IsSettled-put_back :
    (c : Chunk) (before after : List Chunk)
    → IsSettledBack (c ∷ before)
    → IsSettled (c ∷ after)
    → IsSettled (put_back before (c ∷ after))
unfolding put_back
IsSettled-put_back c [] after b s = s
IsSettled-put_back c (p ∷ ps) after b s = IsSettled-put_back p ps (c ∷ after) b.1 (b.0, s)

IsSettled-put_back_all :
    (before : List Chunk) → IsSettledBack before → IsSettled (put_back before [])
unfolding put_back
IsSettled-put_back_all [] b = tt
IsSettled-put_back_all (c ∷ before) b = IsSettled-put_back c before [] b tt

merge_next-free :
    (c : Chunk) (after : List Chunk)
    → c.is_allocated ≡ false
    → (merge_next c after).0.is_allocated ≡ false
unfolding merge_next
merge_next-free c [] free = free
merge_next-free c (n ∷ ns) free = elim (Bool-cases (absorbs c n)) [
  | inl h ↦ rw h free
  | inr h ↦ rw h free
]

merge_next-length : (c : Chunk) (after : List Chunk) → length (merge_next c after).1 ≤ length after
unfolding merge_next
merge_next-length c [] = omega arith
merge_next-length c (n ∷ ns) = elim (Bool-cases (absorbs c n)) [
  | inl h ↦ rw h (omega arith)
  | inr h ↦ rw h (omega arith)
]

merge_prev-IsSettledBack :
    (before : List Chunk) (c : Chunk)
    → IsSettledBack before
    → c.is_allocated ≡ false
    → IsSettledBack (merge_prev before c)
unfolding merge_prev
merge_prev-IsSettledBack [] c b free = tt
merge_prev-IsSettledBack (p ∷ ps) c b free =
    elim (Bool-cases (not p.is_allocated && is_physically_contiguous p c)) [
      | inl h ↦ rw h (grown_last ps b)
      | inr h ↦ rw h (ground (arith, free, h), b)
    ]
  where
    grown_last : (qs : List Chunk) → IsSettledBack (p ∷ qs) → IsSettledBack (grown p c ∷ qs)
    grown_last [] s = tt
    grown_last (q ∷ qs) s = s

round-busy :
    (before : List Chunk) (c : Chunk) (cs : List Chunk)
    → c.is_allocated ≡ true
    → coalesce_round (place before c cs) ≡ (c ∷ before, cs)
unfolding coalesce_round
round-busy before c cs h = if-true (c ∷ before, cs) (try_merge (place before c cs)) h

round-free :
    (before : List Chunk) (c : Chunk) (cs : List Chunk)
    → c.is_allocated ≡ false
    → coalesce_round (place before c cs)
      ≡ (merge_prev before (merge_next c cs).0, (merge_next c cs).1)
unfolding coalesce_round try_merge
round-free before c cs h = if-false (c ∷ before, cs) _ h

IsSettledBack-busy :
    (c : Chunk) (before : List Chunk)
    → c.is_allocated ≡ true
    → IsSettledBack before
    → IsSettledBack (c ∷ before)
IsSettledBack-busy c [] h b = tt
IsSettledBack-busy c (p ∷ ps) h b = (ground (arith, h), b)

coalesce_round-IsSettledBack :
    (before : List Chunk) (c : Chunk) (cs : List Chunk)
    → IsSettledBack before
    → IsSettledBack (coalesce_round (place before c cs)).0
      × (length (coalesce_round (place before c cs)).1 ≤ length cs)
coalesce_round-IsSettledBack before c cs b = elim (Bool-cases c.is_allocated) [
  | inl h ↦ rw (round-busy before c cs h) (IsSettledBack-busy c before h b, omega arith)
  | inr h ↦ rw (round-free before c cs h) (
    merge_prev-IsSettledBack before (merge_next c cs).0 b (merge_next-free c cs h),
    merge_next-length c cs,
  )
]

coalesce_from-IsSettled :
    (k : ℕ) (before after : List Chunk)
    → IsSettledBack before
    → length after ≤ k
    → IsSettled (coalesce_from k before after)
unfolding coalesce_from
coalesce_from-IsSettled k before [] b l = IsSettled-put_back_all before b
coalesce_from-IsSettled zero before (c ∷ cs) b l = absurd (omega arith)
coalesce_from-IsSettled (suc k) before (c ∷ cs) b l =
    let r = coalesce_round-IsSettledBack before c cs b in
    coalesce_from-IsSettled k _ _ r.0 (omega (arith, r.1))

pub coalesce_free_blocks-IsSettled : (cs : List Chunk) → IsSettled (coalesce_free_blocks cs)
unfolding coalesce_free_blocks
coalesce_free_blocks-IsSettled cs = coalesce_from-IsSettled (length cs) [] cs tt (omega arith)
