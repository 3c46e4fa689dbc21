-- ===== src/Heap/Taking.antt =====
-- Taking a hole of a valid heap: the part of `HeapManagerBase::alloc` once a hole is found.
use palmyra_os.Prelude.{
  ℕ, ◌+◌, ◌%◌, ◌^◌, ◌≤◌, ◌<◌, ◌≡◌, ◌≢◌, refl, ◌∙◌, Bool, true, false, ◌&&◌, some, List, [], ◌∷◌,
  arith, ◌==◌, if◌then◌else◌,
}
use palmyra_os.Heap.{Chunk, Heap, Place, header_size, chunks_of, split, mark_allocated, take_hole}
use palmyra_os.Heap.Cover.{
  total, misplaced, extent, covers, hands_out, is_block, taken, IsAdditive, misplaced-IsAdditive,
  extent-IsAdditive, covers-IsAdditive, hands_out-IsAdditive, is_block-IsAdditive, taken-IsAdditive,
  total-put_back, sum_of,
}
use palmyra_os.Heap.Release.{IsValid, blocks, taken-le}
use palmyra_os.Heap.Hole.{IsHoleOf, split-sum, split-chunk}

-- What `alloc` of at least `n` bytes at `p` does
pub record Allocated (n p : ℕ) (page_align : Bool) (h h' : Heap) : Type 0 where
  pub valid : IsValid h'
  pub size : ℕ
  pub enough : n ≤ size
  pub others : (q m : ℕ) → blocks q m h' ≡ blocks q m h + (if p == q && size == m then 1 else 0)
  pub unused : (x : ℕ) → p ≤ x → x < p + size → total (hands_out x) h.heap_list ≡ 0
  pub not_null : p ≢ 0
  pub aligned : page_align ≡ true → p % 2 ^ 12 ≡ 0

hands_out-le : (x : ℕ) (cs : List Chunk) → total (hands_out x) cs ≤ total (covers x) cs
hands_out-le x [] = omega arith
hands_out-le x (c ∷ cs) = ground (arith, hands_out-le x cs)

-- What is in reach of a hole of a valid heap
module _ (h : Heap) (v : IsValid h) (size : ℕ) (page_align : Bool) (z : Place)
    (hole : IsHoleOf size page_align h.heap_list z) where
  abbrev cut : Place
  cut = split size z

  hole-free : z.chunk.is_allocated ≡ false
  hole-free = ground (arith, hole.0)

  hole-enough : size ≤ z.chunk.size
  hole-enough = ground (arith, hole.0)

  cut-sum : {f : Chunk → ℕ} → IsAdditive f → sum_of f cut ≡ total f h.heap_list
  cut-sum {f} a =
      split-sum a size z (omega (arith, hole.1 misplaced, v.placed)) hole-free hole-enough
      ∙ hole.1 f

  cut-chunk :
      (cut.chunk.is_allocated ≡ false)
      × (size ≤ cut.chunk.size)
      × (cut.chunk.address ≡ z.chunk.address)
  cut-chunk = split-chunk size z hole-enough hole-free

  cut-placed : misplaced cut.chunk ≡ 0
  cut-placed = omega (arith, cut-sum misplaced-IsAdditive, v.placed)

  abbrev marked : Place
  marked = mark_allocated cut

  marked-total : (f : Chunk → ℕ) → total f (chunks_of marked) ≡ sum_of f marked
  marked-total f = total-put_back f cut.before (marked.chunk ∷ cut.after)

  abbrev pub block : ℕ
  block = (cut.chunk.address + header_size) % 2 ^ 32

  block_lem : block ≡ cut.chunk.address + header_size
  block_lem = ground (arith, cut-placed)

  abbrev pub after_alloc : Heap
  after_alloc = record h {
    heap_list = chunks_of marked;
    total_allocated_memory = (h.total_allocated_memory + cut.chunk.size) % 2 ^ 32;
  }

  after_alloc-IsValid : IsValid after_alloc
  after_alloc-IsValid = record {
    placed = omega (arith, marked-total misplaced, cut-sum misplaced-IsAdditive, v.placed);
    apart = λ x. omega (arith, marked-total (covers x), cut-sum (covers-IsAdditive x), v.apart x);
    sized = omega (arith, marked-total extent, cut-sum extent-IsAdditive, v.sized);
    small = v.small;
    accounted =
        let none_before : taken cut.chunk ≡ 0 = ground (arith, cut-chunk.0) in
        let sized_after : total extent (chunks_of marked) ≡ h.total_memory =
          omega (arith, marked-total extent, cut-sum extent-IsAdditive, v.sized) in
        omega (
          arith,
          marked-total taken,
          cut-sum taken-IsAdditive,
          none_before,
          v.accounted,
          v.small,
          sized_after,
          taken-le (chunks_of marked),
        );
  }

  pub after_alloc-Allocated : Allocated size block page_align h after_alloc
  after_alloc-Allocated = record {
    valid = after_alloc-IsValid;
    size = cut.chunk.size;
    enough = cut-chunk.1;
    others = λ q m.
        let none_before : is_block q m cut.chunk ≡ 0 = ground (arith, cut-chunk.0) in
        ground (
          arith,
          marked-total (is_block q m),
          cut-sum (is_block-IsAdditive q m),
          none_before,
          block_lem,
        );
    unused = λ x lo hi.
        let here : covers x cut.chunk ≡ 1 = ground (arith, block_lem, lo, hi) in
        let not_here : hands_out x cut.chunk ≡ 0 = ground (arith, cut-chunk.0) in
        omega (
          arith,
          here,
          not_here,
          cut-sum (covers-IsAdditive x),
          cut-sum (hands_out-IsAdditive x),
          v.apart x,
          hands_out-le x cut.before,
          hands_out-le x cut.after,
        );
    not_null = omega (arith, block_lem);
    aligned = λ a. ground (arith, hole.0, a, block_lem, cut-chunk.2);
  }

  take_hole-Allocated : take_hole (some z) size h ≡ (some block, after_alloc)
  unfolding take_hole
  take_hole-Allocated = refl
