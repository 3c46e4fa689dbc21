-- ===== src/Heap/Tests.antt =====
-- An empty heap that is granted a page, and one with a block of 100 bytes.
use palmyra_os.Prelude.{ℕ, ◌≡◌, refl, true, false, Option, none, some, [], ◌∷◌, arith, some_inj}
use palmyra_os.Heap.{
  Chunk, Heap, find_smallest_hole, search_hole, split, put_back, request_more_memory, add_granted,
  take_hole, search_again, alloc, merge_next, merge_prev, try_merge, coalesce_round, coalesce_from,
  coalesce_free_blocks, locate, released, free,
}
use palmyra_os.Heap.Release.{IsValid, Freed, free_lem}
use palmyra_os.Heap.Alloc.{IsGranted, AllocOutcome, alloc_lem}

abbrev chunk : ℕ → ℕ → Chunk
chunk address size = record { address = address; size = size; is_allocated = false }

abbrev used_chunk : ℕ → ℕ → Chunk
used_chunk address size = record { address = address; size = size; is_allocated = true }

abbrev empty : Heap
empty = record { total_memory = 0; total_allocated_memory = 0; heap_list = [] }

abbrev one_block : Heap
one_block = record {
  total_memory = 4096;
  total_allocated_memory = 100;
  heap_list = used_chunk 0x10000 100 ∷ chunk 0x10074 3964 ∷ [];
}

abbrev a_page : ℕ → Option ℕ
a_page n = some 0x10000

first_block : alloc a_page 100 false empty ≡ (some 0x10010, one_block)
unfolding alloc search_again find_smallest_hole search_hole request_more_memory add_granted
    take_hole split put_back
first_block = refl

-- Behind the header of a page that was just granted there is no page boundary.
no_aligned_block : (alloc a_page 4096 true empty).0 ≡ none
unfolding alloc search_again find_smallest_hole search_hole request_more_memory add_granted
    take_hole split put_back
no_aligned_block = refl

one_page_again : free 0x10010 one_block ≡ record {
  total_memory = 4096;
  total_allocated_memory = 0;
  heap_list = chunk 0x10000 4080 ∷ [];
}
unfolding free locate released try_merge merge_next merge_prev put_back coalesce_free_blocks
    coalesce_from coalesce_round
one_page_again = refl

empty-IsValid : IsValid empty
empty-IsValid = record {
  placed = refl;
  apart = λ x. omega arith;
  sized = refl;
  small = omega arith;
  accounted = refl;
}

one_block-IsValid : IsValid one_block
one_block-IsValid = record {
  placed = refl;
  apart = λ x. ground arith;
  sized = refl;
  small = omega arith;
  accounted = refl;
}

a_page-IsGranted : IsGranted a_page 100 empty
a_page-IsGranted = record {
  fresh = λ a x e l m. refl;
  inside = λ a e. (omega (arith, some_inj e), omega (arith, some_inj e));
  room = omega arith;
}

alloc_example : AllocOutcome a_page 100 false empty (alloc a_page 100 false empty)
alloc_example = alloc_lem a_page 100 false empty empty-IsValid (omega arith) a_page-IsGranted

release_example : Freed 0x10010 100 one_block (free 0x10010 one_block)
release_example = free_lem one_block 0x10010 100 one_block-IsValid (omega arith)
