-- ===== src/Heap/Alloc.antt =====
-- `HeapManagerBase::alloc` on a valid heap.
use palmyra_os.Prelude.{
  ℕ, ◌+◌, ◌-◌, ◌%◌, ◌^◌, ◌≤◌, ◌<◌, ◌≡◌, ◌⊎◌, inl, inr, refl, sym, subst, ◌∙◌, Bool, true, false,
  Option, none, some, [], ◌∷◌, ◌++◌, arith, ◌==◌, Bool-cases, Option-cases,
}
use palmyra_os.Heap.{
  Chunk, Heap, Place, header_size, is_hole, find_smallest_hole, requested, granted_chunk,
  add_granted, request_more_memory, actual_size, take_hole, search_again, alloc,
}
use palmyra_os.Heap.Cover.{
  total, misplaced, extent, covers, hands_out, is_block, taken, total-append,
}
use palmyra_os.Heap.Release.{IsValid, blocks}
use palmyra_os.Heap.Hole.{find_smallest_hole-IsHoleOf, find_smallest_hole-last}
use palmyra_os.Heap.Taking.{Allocated, block, after_alloc-Allocated}

-- What the memory that allocateMemory answers is relied on for: it lies in 32 bits behind address
-- 0, and no chunk covers any of it.
pub record IsGranted (grant : ℕ → Option ℕ) (size : ℕ) (h : Heap) : Type 0 where
  pub fresh :
      (a x : ℕ)
      → grant (requested size) ≡ some a
      → a ≤ x
      → x < a + requested size
      → total (covers x) h.heap_list ≡ 0
  pub inside : (a : ℕ) → grant (requested size) ≡ some a → (0 < a) × (a + requested size < 2 ^ 32)
  pub room : h.total_memory + requested size < 2 ^ 32

requested_lem :
    (size : ℕ)
    → size + header_size + 2 ^ 12 < 2 ^ 32
    → (size + header_size ≤ requested size) × (requested size < 2 ^ 32)
requested_lem size h = (omega arith, omega arith)

request_more_memory-refused :
    (grant : ℕ → Option ℕ) (size : ℕ) (h : Heap)
    → grant (requested size) ≡ none
    → request_more_memory grant size h ≡ h
unfolding request_more_memory add_granted
request_more_memory-refused grant size h e = rw (e, request_more_memory) refl

module _ (grant : ℕ → Option ℕ) (size : ℕ) (h : Heap) (v : IsValid h)
    (few : size + header_size + 2 ^ 12 < 2 ^ 32) (g : IsGranted grant size h) where
  abbrev grown_by : ℕ → Heap
  grown_by a = record h {
    heap_list = h.heap_list ++ (granted_chunk (requested size) a ∷ []);
    total_memory = (h.total_memory + requested size) % 2 ^ 32;
  }

  request_more_memory-granted :
      (a : ℕ) → grant (requested size) ≡ some a → request_more_memory grant size h ≡ grown_by a
  unfolding request_more_memory add_granted
  request_more_memory-granted a e = rw (e, request_more_memory) refl

  grown_by-total :
      (f : Chunk → ℕ) (a : ℕ)
      → total f (grown_by a).heap_list ≡ total f h.heap_list + f (granted_chunk (requested size) a)
  grown_by-total f a =
      total-append f h.heap_list (granted_chunk (requested size) a ∷ []) ∙ omega arith

  granted-size : (requested size + 2 ^ 32 - header_size) % 2 ^ 32 ≡ requested size - header_size
  granted-size = omega (arith, requested_lem size few)

  grown_by-IsValid : (a : ℕ) → grant (requested size) ≡ some a → IsValid (grown_by a)
  grown_by-IsValid a e = record {
    placed = ground (
      arith,
      grown_by-total misplaced a,
      v.placed,
      granted-size,
      g.inside a e,
      requested_lem size few,
    );
    apart = λ x. ground (
      arith,
      grown_by-total (covers x) a,
      v.apart x,
      granted-size,
      g.fresh a x e,
      requested_lem size few,
    );
    sized =
        omega
          (arith, grown_by-total extent a, v.sized, granted-size, g.room, requested_lem size few);
    small = omega arith;
    accounted = omega (arith, grown_by-total taken a, v.accounted);
  }

  -- The memory granted is a hole for the request.
  granted-is_hole : (a : ℕ) → is_hole size false (granted_chunk (requested size) a) ≡ true
  granted-is_hole a = ground (arith, granted-size, requested_lem size few)

-- Why `alloc` answers null: nothing was asked for, there was no memory, or a page boundary was
-- asked for
abbrev pub IsRefused : (ℕ → Option ℕ) → ℕ → Bool → Type 0
IsRefused grant n page_align = (n ≡ 0) ⊎ ((grant (requested n) ≡ none) ⊎ (page_align ≡ true))

-- What `alloc` answers: a block, or null and then no block changed
abbrev pub AllocOutcome : (ℕ → Option ℕ) → ℕ → Bool → Heap → Option ℕ × Heap → Type 0
AllocOutcome grant n page_align h r =
    ((p : ℕ) × (r.0 ≡ some p) × Allocated n p page_align h r.1)
    ⊎ ((r.0 ≡ none)
        × IsRefused grant n page_align
        × IsValid r.1
        × ((q m : ℕ) → blocks q m r.1 ≡ blocks q m h))

module _ (grant : ℕ → Option ℕ) (size : ℕ) (page_align : Bool) (h : Heap) (v : IsValid h)
    (few : size + header_size + 2 ^ 12 < 2 ^ 32) (g : IsGranted grant size h) where
  -- The block counts of the heap with the memory granted are those of the heap.
  Allocated-grown :
      (a p : ℕ) {h' : Heap}
      → Allocated size p page_align (grown_by grant size h v few g a) h'
      → Allocated size p page_align h h'
  Allocated-grown a p k = record {
    valid = k.valid;
    size = k.size;
    enough = k.enough;
    others =
        λ q m. k.others q m ∙ omega (arith, grown_by-total grant size h v few g (is_block q m) a);
    unused = λ x lo hi.
        omega (arith, k.unused x lo hi, grown_by-total grant size h v few g (hands_out x) a);
    not_null = k.not_null;
    aligned = k.aligned;
  }

  take_found :
      (o : Option Place) (a : ℕ)
      → grant (requested size) ≡ some a
      → find_smallest_hole size page_align (grown_by grant size h v few g a).heap_list ≡ o
      → AllocOutcome grant size page_align h (take_hole o size (grown_by grant size h v few g a))
  unfolding take_hole
  take_found (some z) a e found =
      let b = grown_by grant size h v few g a in
      let w = grown_by-IsValid grant size h v few g a e in
      let hole = find_smallest_hole-IsHoleOf size page_align b.heap_list z found in
      inl (
        block b w size page_align z hole,
        refl,
        Allocated-grown a _ (after_alloc-Allocated b w size page_align z hole),
      )
  take_found none a e found = inr (
    refl,
    refused,
    grown_by-IsValid grant size h v few g a e,
    λ q m. grown_by-total grant size h v few g (is_block q m) a ∙ omega arith,
  )
    where
      refused : IsRefused grant size page_align
      refused = elim (Bool-cases page_align) [
        | inl t ↦ inr (inr t)
        | inr t ↦ absurd (
            find_smallest_hole-last size page_align (granted_chunk (requested size) a) h.heap_list
              (subst (λ b. is_hole size b (granted_chunk (requested size) a) ≡ true) (sym t)
                (granted-is_hole grant size h v few g a))
              found)
      ]

  search_again-Outcome :
      (o : Option Place)
      → find_smallest_hole size page_align h.heap_list ≡ o
      → AllocOutcome grant size page_align h (search_again o grant size page_align h)
  unfolding search_again take_hole
  search_again-Outcome (some z) found =
      let hole = find_smallest_hole-IsHoleOf size page_align h.heap_list z found in
      inl (block h v size page_align z hole, refl, after_alloc-Allocated h v size page_align z hole)
  search_again-Outcome none found = elim (Option-cases (grant (requested size))) [
    | inl e ↦
        rw (request_more_memory-refused grant size h e)
          (rw found (inr (refl, inr (inl e), v, λ q m. refl)))
    | inr (a, e) ↦ rw (request_more_memory-granted grant size h v few g a e) (take_found _ a e refl)
  ]

-- `alloc` on a valid heap either answers a block of at least the size asked for (a multiple of
-- the page's size if page alignment is), at a page boundary if asked, whose bytes no block had,
-- and hands out this block more and no other, the heap staying valid; or it answers null and
-- then no block changed, the heap is valid, and the size was 0, the memory was refused or page
-- alignment was asked for. The size is at most 4 GB less two pages, and memory granted is not
-- covered yet.
pub alloc_lem :
    (grant : ℕ → Option ℕ) (size : ℕ) (page_align : Bool) (h : Heap)
    → IsValid h
    → actual_size size page_align + header_size + 2 ^ 12 < 2 ^ 32
    → IsGranted grant (actual_size size page_align) h
    → AllocOutcome grant (actual_size size page_align) page_align h (alloc grant size page_align h)
unfolding alloc
alloc_lem grant size page_align h v few g = elim (Bool-cases (actual_size size page_align == 0)) [
  | inl e ↦ rw e (inr (refl, inl (ground arith), v, λ q m. refl))
  | inr e ↦
      rw e (search_again-Outcome grant (actual_size size page_align) page_align h v few g _ refl)
]
