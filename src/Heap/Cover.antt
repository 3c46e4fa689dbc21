-- ===== src/Heap/Cover.antt =====
-- Sums over the chunks, which splitting and merging keep: what the chunks cover, and what they
-- hand out.
use palmyra_os.Prelude.{
  ℕ, zero, suc, ◌+◌, ◌^◌, ◌<◌, ◌≡◌, inl, inr, refl, ap, ◌∙◌, true, false, not, ◌&&◌, List, [], ◌∷◌,
  ◌++◌, length, arith, ltb, leb, ◌==◌, if◌then◌else◌, Bool-cases, if-false,
}
use palmyra_os.Heap.{
  Chunk, Place, place, header_size, put_back, rest_chunk, is_physically_contiguous, grown, absorbs,
  merge_next, merge_prev, try_merge, coalesce_round, coalesce_from, coalesce_free_blocks,
}

abbrev pub total : (Chunk → ℕ) → List Chunk → ℕ
total f [] = 0
total f (c ∷ cs) = f c + total f cs

-- 1 for a chunk that does not lie within 32 bits behind address 0
abbrev pub misplaced : Chunk → ℕ
misplaced c = if ltb 0 c.address && ltb (c.address + header_size + c.size) (2 ^ 32) then 0 else 1

-- The bytes of a chunk, its header included
abbrev pub extent : Chunk → ℕ
extent c = c.size + header_size

-- 1 where a chunk covers the address `x`
abbrev pub covers : ℕ → Chunk → ℕ
covers x c = if leb c.address x && ltb x (c.address + header_size + c.size) then 1 else 0

-- 1 where the block of an allocated chunk has the address `x`
abbrev pub hands_out : ℕ → Chunk → ℕ
hands_out x c =
    if c.is_allocated
      && (leb (c.address + header_size) x && ltb x (c.address + header_size + c.size))
    then 1
    else 0

-- 1 for the allocated chunk whose block has the address `p` and the size `n`
abbrev pub is_block : ℕ → ℕ → Chunk → ℕ
is_block p n c = if c.is_allocated && (c.address + header_size == p && c.size == n) then 1 else 0

-- The size of an allocated chunk
abbrev pub taken : Chunk → ℕ
taken c = if c.is_allocated then c.size else 0

-- What a sum keeps when a free chunk takes in the free one behind it, and when one is split
pub record IsAdditive (f : Chunk → ℕ) : Type 0 where
  pub on_merge :
      (c n : Chunk)
      → misplaced c ≡ 0
      → misplaced n ≡ 0
      → c.is_allocated ≡ false
      → absorbs c n ≡ true
      → f (grown c n) ≡ f c + f n
  pub on_split :
      (c : Chunk) (size : ℕ)
      → misplaced c ≡ 0
      → c.is_allocated ≡ false
      → size + header_size < c.size
      → f (record c { size = size }) + f (rest_chunk size c) ≡ f c

pub misplaced-IsAdditive : IsAdditive misplaced
misplaced-IsAdditive = record {
  on_merge = λ c n a b e h. ground arith;
  on_split = λ c s a e h. ground arith;
}

pub extent-IsAdditive : IsAdditive extent
extent-IsAdditive = record {
  on_merge = λ c n a b e h. ground arith;
  on_split = λ c s a e h. ground arith;
}

pub covers-IsAdditive : (x : ℕ) → IsAdditive (covers x)
covers-IsAdditive x = record {
  on_merge = λ c n a b e h. ground arith;
  on_split = λ c s a e h. ground arith;
}

pub hands_out-IsAdditive : (x : ℕ) → IsAdditive (hands_out x)
hands_out-IsAdditive x = record {
  on_merge = λ c n a b e h. ground arith;
  on_split = λ c s a e h. ground arith;
}

pub is_block-IsAdditive : (p n : ℕ) → IsAdditive (is_block p n)
is_block-IsAdditive p n = record {
  on_merge = λ c m a b e h. ground arith;
  on_split = λ c s a e h. ground arith;
}

pub taken-IsAdditive : IsAdditive taken
taken-IsAdditive = record {
  on_merge = λ c n a b e h. ground arith;
  on_split = λ c s a e h. ground arith;
}

pub total-append :
    (f : Chunk → ℕ) (cs ds : List Chunk) → total f (cs ++ ds) ≡ total f cs + total f ds
total-append f [] ds = omega arith
total-append f (c ∷ cs) ds = omega (arith, total-append f cs ds)

pub total-put_back :
    (f : Chunk → ℕ) (before after : List Chunk)
    → total f (put_back before after) ≡ total f before + total f after
unfolding put_back
total-put_back f [] after = omega arith
total-put_back f (c ∷ before) after = omega (arith, total-put_back f before (c ∷ after))

-- What a place sums to
abbrev pub sum_of : (Chunk → ℕ) → Place → ℕ
sum_of f z = total f z.before + (f z.chunk + total f z.after)

abbrev pub sum_after : (Chunk → ℕ) → List Chunk × List Chunk → ℕ
sum_after f r = total f r.0 + total f r.1

merge_next-free :
    (c : Chunk) (after : List Chunk)
    → c.is_allocated ≡ false
    → (merge_next c after).0.is_allocated ≡ false
unfolding merge_next
merge_next-free c [] free = free
merge_next-free c (n ∷ ns) free = elim (Bool-cases (absorbs c n)) [
  | inl h ↦ rw h free
  | inr h ↦ rw h free
]

module _ {f : Chunk → ℕ} (a : IsAdditive f) where
  merge_next-sum :
      (c : Chunk) (after : List Chunk)
      → misplaced c ≡ 0
      → total misplaced after ≡ 0
      → c.is_allocated ≡ false
      → f (merge_next c after).0 + total f (merge_next c after).1 ≡ f c + total f after
  unfolding merge_next
  merge_next-sum c [] m ms free = refl
  merge_next-sum c (n ∷ ns) m ms free = elim (Bool-cases (absorbs c n)) [
    | inl h ↦ rw h (omega (arith, a.on_merge c n m (omega (arith, ms)) free h))
    | inr h ↦ rw h refl
  ]

  merge_prev-sum :
      (before : List Chunk) (c : Chunk)
      → misplaced c ≡ 0
      → total misplaced before ≡ 0
      → c.is_allocated ≡ false
      → total f (merge_prev before c) ≡ total f before + f c
  unfolding merge_prev
  merge_prev-sum [] c m ms free = omega arith
  merge_prev-sum (p ∷ ps) c m ms free =
      elim (Bool-cases (not p.is_allocated && is_physically_contiguous p c)) [
        | inl h ↦ rw h (
            omega (
              arith,
              a.on_merge p c (omega (arith, ms)) m (ground (arith, h)) (ground (arith, h, free)),
            ))
        | inr h ↦ rw h (omega arith)
      ]

module _ {f : Chunk → ℕ} (a : IsAdditive f) where
  try_merge-sum :
      (z : Place)
      → sum_of misplaced z ≡ 0
      → z.chunk.is_allocated ≡ false
      → sum_after f (try_merge z) ≡ sum_of f z
  unfolding try_merge
  try_merge-sum z m free =
      let here : misplaced z.chunk ≡ 0 = omega (arith, m) in
      let behind : total misplaced z.after ≡ 0 = omega (arith, m) in
      let front : total misplaced z.before ≡ 0 = omega (arith, m) in
      let next = merge_next-sum a z.chunk z.after here behind free in
      let placed = merge_next-sum misplaced-IsAdditive z.chunk z.after here behind free in
      omega (
        arith,
        next,
        merge_prev-sum a z.before (merge_next z.chunk z.after).0
            (omega (arith, placed, here, behind)) front (merge_next-free z.chunk z.after free),
      )

  coalesce_round-sum :
      (z : Place) → sum_of misplaced z ≡ 0 → sum_after f (coalesce_round z) ≡ sum_of f z
  unfolding coalesce_round
  coalesce_round-sum z m = elim (Bool-cases z.chunk.is_allocated) [
    | inl h ↦ rw h (omega arith)
    | inr h ↦
        ap (sum_after f) (if-false (z.chunk ∷ z.before, z.after) (try_merge z) h)
        ∙ try_merge-sum z m h
  ]

module _ {f : Chunk → ℕ} (a : IsAdditive f) where
  coalesce_from-sum :
      (k : ℕ) (before after : List Chunk)
      → total misplaced before + total misplaced after ≡ 0
      → total f (coalesce_from k before after) ≡ total f before + total f after
  unfolding coalesce_from
  coalesce_from-sum k before [] m = total-put_back f before []
  coalesce_from-sum zero before (c ∷ cs) m = total-put_back f before (c ∷ cs)
  coalesce_from-sum (suc k) before (c ∷ cs) m =
      let r = coalesce_round (place before c cs) in
      omega (
        arith,
        coalesce_from-sum k r.0 r.1 (
            omega (
              arith,
              m,
              coalesce_round-sum misplaced-IsAdditive (place before c cs) (omega (arith, m)),
            )),
        coalesce_round-sum a (place before c cs) (omega (arith, m)),
      )

  -- `tryMerge` at a free chunk, and `coalesceFreeBlocks` of what results
  pub merged-sum :
      (z : Place)
      → sum_of misplaced z ≡ 0
      → z.chunk.is_allocated ≡ false
      → total f (coalesce_free_blocks (put_back (try_merge z).0 (try_merge z).1)) ≡ sum_of f z
  unfolding coalesce_free_blocks
  merged-sum z m free =
      let cs = put_back (try_merge z).0 (try_merge z).1 in
      let placed : total misplaced cs ≡ 0 = omega (
        arith,
        total-put_back misplaced (try_merge z).0 (try_merge z).1,
        try_merge-sum misplaced-IsAdditive z m free,
        m,
      ) in
      coalesce_from-sum (length cs) [] cs (omega (arith, placed))
      ∙ omega (arith, total-put_back f (try_merge z).0 (try_merge z).1, try_merge-sum a z m free)
