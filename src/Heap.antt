-- ===== src/Heap.antt =====
-- palmyraOS/shared/memory/Heap.cpp: chunks in a doubly linked list. The list is the chunks in
-- the order of `next_`; a pointer into it is a place: the chunks before it, the nearest first,
-- the chunk itself, and those behind it. A null pointer is none. `grant` is what
-- allocateMemory, which the derived classes define, answers for a number of bytes.
pub mod Cover
pub mod Hole
pub mod Taking
pub mod Alloc
pub mod Settled
pub mod Release
mod Tests
use palmyra_os.Prelude.{
  ℕ, zero, suc, ◌+◌, ◌-◌, ◌*◌, ◌/◌, ◌%◌, ◌^◌, Bool, true, false, not, ◌&&◌, ◌||◌, Option, none,
  some, List, [], ◌∷◌, ◌++◌, length, ltb, leb, ◌==◌, if◌then◌else◌,
}

pub record Chunk : Type 0 where
  pub address : ℕ
  pub size : ℕ
  pub is_allocated : Bool

pub record Heap : Type 0 where
  pub total_memory : ℕ
  pub total_allocated_memory : ℕ
  pub heap_list : List Chunk

pub record Place : Type 0 where
  pub before : List Chunk
  pub chunk : Chunk
  pub after : List Chunk

abbrev pub place : List Chunk → Chunk → List Chunk → Place
place before chunk after = record { before = before; chunk = chunk; after = after }

-- sizeof(HeapChunk) and PAGE_SIZE
abbrev pub header_size : ℕ
header_size = 16

abbrev pub page_size : ℕ
page_size = 2 ^ 12

pub put_back : List Chunk → List Chunk → List Chunk
put_back [] after = after
put_back (c ∷ before) after = put_back before (c ∷ after)

-- The list around a place
abbrev pub chunks_of : Place → List Chunk
chunks_of z = put_back z.before (z.chunk ∷ z.after)

abbrev pub rest_chunk : ℕ → Chunk → Chunk
rest_chunk size c = record {
  address = (c.address + header_size + size) % 2 ^ 32;
  size = (c.size + 2 ^ 32 + 2 ^ 32 - size - header_size) % 2 ^ 32;
  is_allocated = false;
}

pub split : ℕ → Place → Place
split size z =
    if leb z.chunk.size ((size + header_size) % 2 ^ 32)
    then z
    else place z.before (record z.chunk { size = size }) (rest_chunk size z.chunk ∷ z.after)

abbrev pub is_physically_contiguous : Chunk → Chunk → Bool
is_physically_contiguous c other = (c.address + c.size + header_size) % 2 ^ 32 == other.address

abbrev pub grown : Chunk → Chunk → Chunk
grown c other = record c { size = (c.size + (other.size + header_size)) % 2 ^ 32 }

abbrev pub absorbs : Chunk → Chunk → Bool
absorbs c other = not other.is_allocated && is_physically_contiguous c other

-- The first half of `tryMerge`: the chunk takes in the one behind it.
pub merge_next : Chunk → List Chunk → Chunk × List Chunk
merge_next c [] = (c, [])
merge_next c (n ∷ ns) = if absorbs c n then (grown c n, ns) else (c, n ∷ ns)

-- The second half: the chunk is taken in by the one before it. What is answered is what stands
-- before the chunks behind it then.
pub merge_prev : List Chunk → Chunk → List Chunk
merge_prev [] c = c ∷ []
merge_prev (p ∷ ps) c =
    if not p.is_allocated && is_physically_contiguous p c then grown p c ∷ ps else c ∷ p ∷ ps

-- The chunks up to the merged one, the nearest first, and those behind it
pub try_merge : Place → List Chunk × List Chunk
try_merge z = let (c, behind) = merge_next z.chunk z.after in (merge_prev z.before c, behind)

-- One round of `coalesceFreeBlocks`
pub coalesce_round : Place → List Chunk × List Chunk
coalesce_round z = if z.chunk.is_allocated then (z.chunk ∷ z.before, z.after) else try_merge z

pub coalesce_from : ℕ → List Chunk → List Chunk → List Chunk
coalesce_from k before [] = put_back before []
coalesce_from zero before (c ∷ cs) = put_back before (c ∷ cs)
coalesce_from (suc k) before (c ∷ cs) =
    let r = coalesce_round (place before c cs) in coalesce_from k r.0 r.1

pub coalesce_free_blocks : List Chunk → List Chunk
coalesce_free_blocks cs = coalesce_from (length cs) [] cs

abbrev pub is_hole : ℕ → Bool → Chunk → Bool
is_hole size page_align c =
    not c.is_allocated
    && leb size c.size
    && not (page_align && not ((c.address + header_size) % 2 ^ 12 == 0))

abbrev pub is_better : Option Place → Chunk → Bool
is_better none c = true
is_better (some b) c = ltb c.size b.chunk.size

pub search_hole : ℕ → Bool → Option Place → List Chunk → List Chunk → Option Place
search_hole size page_align best before [] = best
search_hole size page_align best before (c ∷ cs) =
    search_hole size page_align
      (if is_hole size page_align c && is_better best c then some (place before c cs) else best)
      (c ∷ before) cs

pub find_smallest_hole : ℕ → Bool → List Chunk → Option Place
find_smallest_hole size page_align cs = search_hole size page_align none [] cs

abbrev pub requested : ℕ → ℕ
requested size = (size + header_size + page_size - 1) % 2 ^ 32 / 2 ^ 12 * 2 ^ 12

-- The granted memory as one chunk
abbrev pub granted_chunk : ℕ → ℕ → Chunk
granted_chunk size address = record {
  address = address;
  size = (size + 2 ^ 32 - header_size) % 2 ^ 32;
  is_allocated = false;
}

add_granted : Option ℕ → ℕ → Heap → Heap
add_granted none size h = h
add_granted (some address) size h = record h {
  heap_list = h.heap_list ++ (granted_chunk size address ∷ []);
  total_memory = (h.total_memory + size) % 2 ^ 32;
}

pub request_more_memory : (ℕ → Option ℕ) → ℕ → Heap → Heap
request_more_memory grant size h = add_granted (grant (requested size)) (requested size) h

abbrev pub actual_size : ℕ → Bool → ℕ
actual_size size page_align = if page_align then (size + 0xFFF) % 2 ^ 32 / 2 ^ 12 * 2 ^ 12 else size

abbrev pub mark_allocated : Place → Place
mark_allocated z = place z.before (record z.chunk { is_allocated = true }) z.after

-- The hole split and marked: the address behind its header
take_hole : Option Place → ℕ → Heap → Option ℕ × Heap
take_hole none size h = (none, h)
take_hole (some z) size h =
    let s = split size z in
    (
      some ((s.chunk.address + header_size) % 2 ^ 32),
      record h {
        heap_list = chunks_of (mark_allocated s);
        total_allocated_memory = (h.total_allocated_memory + s.chunk.size) % 2 ^ 32;
      },
    )

search_again : Option Place → (ℕ → Option ℕ) → ℕ → Bool → Heap → Option ℕ × Heap
search_again (some z) grant size page_align h = take_hole (some z) size h
search_again none grant size page_align h =
    let g = request_more_memory grant size h in
    take_hole (find_smallest_hole size page_align g.heap_list) size g

pub alloc : (ℕ → Option ℕ) → ℕ → Bool → Heap → Option ℕ × Heap
alloc grant size page_align h =
    let actual = actual_size size page_align in
    if actual == 0
    then (none, h)
    else search_again (find_smallest_hole actual page_align h.heap_list) grant actual page_align h

-- The place of the chunk whose header is at an address
pub locate : ℕ → List Chunk → List Chunk → Option Place
locate a before [] = none
locate a before (c ∷ cs) =
    if c.address == a then some (place before c cs) else locate a (c ∷ before) cs

released : Place → Heap → Heap
released z h =
    let r = try_merge (place z.before (record z.chunk { is_allocated = false }) z.after) in
    record h {
      heap_list = coalesce_free_blocks (put_back r.0 r.1);
      total_allocated_memory = (h.total_allocated_memory + 2 ^ 32 - z.chunk.size) % 2 ^ 32;
    }

-- `p` is 0 for null. Where no chunk is in front of `p` the source writes outside of its list.
pub free : ℕ → Heap → Heap
free p h =
    if p == 0 then h else elim (locate ((p + 2 ^ 32 - header_size) % 2 ^ 32) [] h.heap_list) [
      | none ↦ h
      | some z ↦ released z h
    ]

pub expand : (ℕ → Option ℕ) → ℕ → Heap → Heap
expand grant new_size h =
    if leb new_size h.total_memory
    then h
    else record (request_more_memory grant (new_size - h.total_memory) h) {
      total_memory = new_size;
    }

pub contract : ℕ → Heap → ℕ × Heap
contract new_size h =
    if leb h.total_memory new_size
    then (h.total_memory, h)
    else (new_size, record h { total_memory = new_size })
