-- ===== src/Heap/Hole.antt =====
-- `findSmallestHole` and `split`: the hole found, and what splitting it keeps.
use palmyra_os.Prelude.{
  ℕ, ◌+◌, ◌%◌, ◌^◌, ◌≤◌, ◌≡◌, ◌≢◌, inl, inr, refl, ap, sym, subst, ◌∙◌, Bool, true, false, ◌&&◌,
  Option, none, some, List, [], ◌∷◌, ◌++◌, arith, leb, if◌then◌else◌, Bool-cases, if-false, if-true,
  some_inj,
}
use palmyra_os.Heap.{
  Chunk, Place, place, header_size, rest_chunk, split, is_hole, is_better, search_hole,
  find_smallest_hole,
}
use palmyra_os.Heap.Cover.{total, misplaced, IsAdditive, sum_of}

-- A place of the list `cs` at which a hole is
abbrev pub IsHoleOf : ℕ → Bool → List Chunk → Place → Type 0
IsHoleOf size page_align cs z =
    (is_hole size page_align z.chunk ≡ true) × ((f : Chunk → ℕ) → sum_of f z ≡ total f cs)

and_left : (a b : Bool) → (a && b) ≡ true → a ≡ true
and_left true b h = refl
and_left false b h = h

search_hole-IsHoleOf :
    (size : ℕ) (page_align : Bool) (cs after : List Chunk) (best : Option Place)
    (before : List Chunk)
    → ((f : Chunk → ℕ) → total f before + total f after ≡ total f cs)
    → ((b : Place) → best ≡ some b → IsHoleOf size page_align cs b)
    → (z : Place) → search_hole size page_align best before after ≡ some z
    → IsHoleOf size page_align cs z
unfolding search_hole
search_hole-IsHoleOf size page_align cs [] best before sums ok z h = ok z h
search_hole-IsHoleOf size page_align cs (c ∷ after) best before sums ok z h =
    search_hole-IsHoleOf size page_align cs after _ (c ∷ before) (λ f. omega (arith, sums f)) better
      z h
  where
    better :
        (b : Place)
        → (if is_hole size page_align c && is_better best c
            then some (place before c after)
            else best)
          ≡ some b
        → IsHoleOf size page_align cs b
    better b e = elim (Bool-cases (is_hole size page_align c && is_better best c)) [
      | inl t ↦
          subst (IsHoleOf size page_align cs)
            (some_inj (sym (if-true (some (place before c after)) best t) ∙ e))
            (and_left _ _ t, sums)
      | inr t ↦ ok b (sym (if-false (some (place before c after)) best t) ∙ e)
    ]

pub find_smallest_hole-IsHoleOf :
    (size : ℕ) (page_align : Bool) (cs : List Chunk) (z : Place)
    → find_smallest_hole size page_align cs ≡ some z
    → IsHoleOf size page_align cs z
unfolding find_smallest_hole
find_smallest_hole-IsHoleOf size page_align cs z h =
    search_hole-IsHoleOf size page_align cs cs none [] (λ f. omega arith) (λ b e. cc) z h

-- What splitting at a hole keeps
pub split-sum :
    {f : Chunk → ℕ}
    → IsAdditive f
    → (size : ℕ) (z : Place) → misplaced z.chunk ≡ 0
    → z.chunk.is_allocated ≡ false
    → size ≤ z.chunk.size
    → sum_of f (split size z) ≡ sum_of f z
unfolding split
split-sum {f} a size z m free enough =
    elim (Bool-cases (leb z.chunk.size ((size + header_size) % 2 ^ 32))) [
      | inl h ↦ ap (sum_of f) (if-true z _ h)
      | inr h ↦
          ap (sum_of f) (if-false z _ h)
          ∙ omega (arith, a.on_split z.chunk size m free (ground (arith, h, m, enough)))
    ]

pub split-chunk :
    (size : ℕ) (z : Place)
    → size ≤ z.chunk.size
    → z.chunk.is_allocated ≡ false
    → ((split size z).chunk.is_allocated ≡ false)
      × (size ≤ (split size z).chunk.size)
      × ((split size z).chunk.address ≡ z.chunk.address)
unfolding split
split-chunk size z enough free =
    elim (Bool-cases (leb z.chunk.size ((size + header_size) % 2 ^ 32))) [
      | inl h ↦
          rw
            (if-true z
              (place z.before (record z.chunk { size = size }) (rest_chunk size z.chunk ∷ z.after))
              h)
            (free, enough, refl)
      | inr h ↦
          rw
            (if-false z
              (place z.before (record z.chunk { size = size }) (rest_chunk size z.chunk ∷ z.after))
              h)
            (free, omega arith, refl)
    ]

found_one : {z : Place} → some z ≢ none
found_one e = cc

and_true : (b : Bool) → b ≡ true → (b && true) ≡ true
and_true b h = rw h refl

if-some : (t : Bool) (z : Place) {o : Option Place} → o ≢ none → (if t then some z else o) ≢ none
if-some true z n e = cc
if-some false z n e = n e

-- A hole in the list is not overlooked.
search_hole-found :
    (size : ℕ) (page_align : Bool) (after : List Chunk) (best : Option Place) (before : List Chunk)
    → best ≢ none
    → search_hole size page_align best before after ≢ none
unfolding search_hole
search_hole-found size page_align [] best before b = b
search_hole-found size page_align (c ∷ after) best before b =
    search_hole-found size page_align after _ (c ∷ before)
      (if-some (is_hole size page_align c && is_better best c) (place before c after) b)

search_hole-last :
    (size : ℕ) (page_align : Bool) (c : Chunk)
    → is_hole size page_align c ≡ true
    → (cs : List Chunk) (best : Option Place) (before : List Chunk)
    → search_hole size page_align best before (cs ++ (c ∷ [])) ≢ none
unfolding search_hole
search_hole-last size page_align c hole [] best before =
    search_hole-found size page_align [] _ (c ∷ before) (chosen best)
  where
    chosen :
        (o : Option Place)
        → (if is_hole size page_align c && is_better o c then some (place before c []) else o)
          ≢ none
    chosen none e = found_one (
        sym (if-true (some (place before c [])) none (and_true (is_hole size page_align c) hole))
        ∙ e)
    chosen (some b) e =
        if-some (is_hole size page_align c && is_better (some b) c) (place before c []) found_one e
search_hole-last size page_align c hole (d ∷ cs) best before =
    search_hole-last size page_align c hole cs _ (d ∷ before)

pub find_smallest_hole-last :
    (size : ℕ) (page_align : Bool) (c : Chunk) (cs : List Chunk)
    → is_hole size page_align c ≡ true
    → find_smallest_hole size page_align (cs ++ (c ∷ [])) ≢ none
unfolding find_smallest_hole
find_smallest_hole-last size page_align c cs hole =
    search_hole-last size page_align c hole cs none []
