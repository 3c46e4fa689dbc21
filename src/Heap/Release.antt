-- ===== src/Heap/Release.antt =====
-- `HeapManagerBase::free` on a valid heap.
use palmyra_os.Prelude.{
  ℕ, ◌+◌, ◌-◌, ◌%◌, ◌^◌, ◌≤◌, ◌<◌, ◌≡◌, inl, inr, refl, ◌∙◌, true, false, ◌&&◌, some, List, [], ◌∷◌,
  arith, ◌==◌, if◌then◌else◌, Bool-cases, if-false, if-true,
}
use palmyra_os.Heap.{Chunk, Heap, Place, place, header_size, locate, free, released}
use palmyra_os.Heap.Settled.{IsSettled, coalesce_free_blocks-IsSettled}
use palmyra_os.Heap.Cover.{
  total, misplaced, extent, covers, is_block, taken, IsAdditive, misplaced-IsAdditive,
  extent-IsAdditive, covers-IsAdditive, is_block-IsAdditive, taken-IsAdditive, sum_of, merged-sum,
}

-- The chunks lie in 32 bits, apart from each other, and the totals are their sums.
pub record IsValid (h : Heap) : Type 0 where
  pub placed : total misplaced h.heap_list ≡ 0
  pub apart : (x : ℕ) → total (covers x) h.heap_list ≤ 1
  pub sized : total extent h.heap_list ≡ h.total_memory
  pub small : h.total_memory < 2 ^ 32
  pub accounted : total taken h.heap_list ≡ h.total_allocated_memory

-- How often the block of `n` bytes at `p` is handed out
abbrev pub blocks : ℕ → ℕ → Heap → ℕ
blocks p n h = total (is_block p n) h.heap_list

-- A covered address, where a block is
covered-block :
    (p n : ℕ) (cs : List Chunk)
    → total misplaced cs ≡ 0
    → total (is_block p n) cs ≤ total (covers (p - header_size)) cs
covered-block p n [] m = omega arith
covered-block p n (c ∷ cs) m =
    let one : is_block p n c ≤ covers (p - header_size) c = ground arith in
    omega (arith, one, covered-block p n cs (omega (arith, m)))

-- The chunk in front of a block is found.
locate-block :
    (p n : ℕ) (before cs : List Chunk)
    → header_size ≤ p
    → total misplaced cs ≡ 0
    → total (covers (p - header_size)) cs ≤ 1
    → 1 ≤ total (is_block p n) cs
    → (z : Place) × (locate (p - header_size) before cs ≡ some z)
      × (z.chunk.is_allocated ≡ true)
      × (z.chunk.size ≡ n)
      × (z.chunk.address ≡ p - header_size)
      × ((f : Chunk → ℕ) → sum_of f z ≡ total f before + total f cs)
unfolding locate
locate-block p n before [] b m one held = absurd (omega arith)
locate-block p n before (c ∷ cs) b m one held = elim (Bool-cases (c.address == p - header_size)) [
  | inl h ↦
      let alone : 1 ≤ is_block p n c =
        ground (arith, h, one, held, covered-block p n cs (omega (arith, m))) in
      (
        place before c cs,
        if-true (some (place before c cs)) _ h,
        ground (arith, alone),
        ground (arith, alone),
        ground (arith, h),
        λ f. refl,
      )
  | inr h ↦
      let absent : is_block p n c ≡ 0 = ground (arith, h, b) in
      let rest =
        locate-block p n (c ∷ before) cs b (omega (arith, m)) (omega (arith, one))
          (omega (arith, absent, held)) in
      (
        rest.0,
        if-false (some (place before c cs)) _ h ∙ rest.1,
        rest.2,
        rest.3,
        rest.4,
        λ f. rest.5 f ∙ omega arith,
      )
]

pub taken-le : (cs : List Chunk) → total taken cs ≤ total extent cs
taken-le [] = omega arith
taken-le (c ∷ cs) = ground (arith, taken-le cs)

-- A block lies behind a header and within 32 bits.
block-placed :
    (p n : ℕ) (cs : List Chunk)
    → total misplaced cs ≡ 0
    → 1 ≤ total (is_block p n) cs
    → (header_size < p) × (p + n < 2 ^ 32)
block-placed p n [] m held = absurd (omega arith)
block-placed p n (c ∷ cs) m held = elim (Bool-cases (is_block p n c == 0)) [
  | inl h ↦ block-placed p n cs (omega (arith, m)) (ground (arith, h, held))
  | inr h ↦ (ground (arith, h, m), ground (arith, h, m))
]

-- What `free` of the block of `n` bytes at `p` leaves
pub record Freed (p n : ℕ) (h h' : Heap) : Type 0 where
  pub valid : IsValid h'
  pub others : (q m : ℕ) → blocks q m h ≡ blocks q m h' + (if p == q && n == m then 1 else 0)
  pub same_cover : (x : ℕ) → total (covers x) h'.heap_list ≡ total (covers x) h.heap_list
  pub settled : IsSettled h'.heap_list

-- The place with its chunk free
abbrev unmarked : Place → Place
unmarked z = place z.before (record z.chunk { is_allocated = false }) z.after

module _ (h : Heap) (v : IsValid h) (p n : ℕ) (z : Place) (busy : z.chunk.is_allocated ≡ true)
    (sized : z.chunk.size ≡ n) (at : z.chunk.address ≡ p - header_size)
    (sums : (f : Chunk → ℕ) → sum_of f z ≡ total f h.heap_list) where
  released-total :
      {f : Chunk → ℕ} → IsAdditive f → total f (released z h).heap_list ≡ sum_of f (unmarked z)
  unfolding released
  released-total a = merged-sum a (unmarked z) (omega (arith, sums misplaced, v.placed)) refl

  released-IsValid : IsValid (released z h)
  unfolding released
  released-IsValid = record {
    placed = omega (arith, released-total misplaced-IsAdditive, sums misplaced, v.placed);
    apart = λ x. omega (arith, released-total (covers-IsAdditive x), sums (covers x), v.apart x);
    sized = omega (arith, released-total extent-IsAdditive, sums extent, v.sized);
    small = v.small;
    accounted =
        let whole : taken z.chunk ≡ z.chunk.size = rw busy refl in
        omega (
          arith,
          released-total taken-IsAdditive,
          sums taken,
          whole,
          v.accounted,
          v.sized,
          v.small,
          taken-le h.heap_list,
        );
  }

  released-Freed : header_size < p → Freed p n h (released z h)
  unfolding released
  released-Freed b = record {
    valid = released-IsValid;
    others = λ q m.
        ground
          (arith, released-total (is_block-IsAdditive q m), sums (is_block q m), busy, sized, at);
    same_cover = λ x. omega (arith, released-total (covers-IsAdditive x), sums (covers x));
    settled = coalesce_free_blocks-IsSettled _;
  }

-- `free` of a block that a valid heap hands out takes this block from those handed out and no
-- other, keeps what the chunks cover and the heap valid, and leaves no free chunk in front of a
-- free one that follows it in memory.
pub free_lem : (h : Heap) (p n : ℕ) → IsValid h → 1 ≤ blocks p n h → Freed p n h (free p h)
unfolding free
free_lem h p n v held =
    let b = block-placed p n h.heap_list v.placed held in
    let l = locate-block p n [] h.heap_list (omega (arith, b.0)) v.placed (v.apart _) held in
    let header : (p + 2 ^ 32 - header_size) % 2 ^ 32 ≡ p - header_size = omega (arith, b.0, b.1) in
    let there : (p == 0) ≡ false = ground (arith, b.0) in
    rw there
      (rw header (rw l.1 (released-Freed h v p n l.0 l.2 l.3 l.4 (λ f. l.5 f ∙ omega arith) b.0)))
