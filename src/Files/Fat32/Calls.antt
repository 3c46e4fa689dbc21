-- ===== src/Files/Fat32/Calls.antt =====
-- Sequences of calls on the table, on a disk and on a map.
use palmyra_os.Prelude.{
  ℕ, ◌-◌, ◌%◌, ◌^◌, inl, inr, Bool, ◌||◌, Option, none, some, List, [], ◌∷◌, arith, ltb, leb,
  if◌then◌else◌, Bool-cases, leb→le,
}
use palmyra_os.Files.VirtualDisk.{Disk}
use palmyra_os.Files.Partition.{Partition}
use palmyra_os.Files.Fat32.{
  chain_end, standardise, get_next_cluster, set_next_cluster, allocate_cluster,
}
use palmyra_os.Files.Fat32.Entries.{IsFat}
use palmyra_os.Files.Fat32.Table.{update, Represents}
use palmyra_os.Files.Fat32.Refine.{
  first_free_cluster, taken, get_next_cluster-Represents, get_next_cluster-out,
  set_next_cluster-Represents, set_next_cluster-out, allocate_cluster-Represents,
}

-- The calls of the table, on a disk and on a map. A number answered stands for success where the
-- source answers true.
pub data Call : Type 0 where
  next_of : ℕ → Call
  link : ℕ → ℕ → Call
  take : Call

answer_of : Option (Bool × Disk) → Option (Option ℕ × Disk)
answer_of none = none
answer_of (some (ok, d)) = some (if ok then some 1 else none, d)

number_of : Option ℕ → Disk → Option (Option ℕ × Disk)
number_of none d = none
number_of (some v) d = some (some v, d)

pub run_call : Call → Partition → Disk → Option (Option ℕ × Disk)
run_call (next_of c) p d = number_of (get_next_cluster c p d) d
run_call (link c v) p d = answer_of (set_next_cluster c v p d)
run_call take p d = allocate_cluster p d

pub map_call : Call → Partition → (ℕ → ℕ) → Option (Option ℕ × (ℕ → ℕ))
map_call (next_of c) p t =
    if leb p.count_clusters c then none else some (some (standardise chain_end (t c)), t)
map_call (link c v) p t =
    if ltb c 2 || leb p.count_clusters c then none else some (some 1, update c (v % 2 ^ 28) t)
map_call take p t =
    let found = first_free_cluster (p.count_clusters - p.root_cluster) p.root_cluster t in
    some (found, taken found t)

-- The same answer, or a panic of both
pub data Agrees (p : Partition) {A : Type 0}
    : Option (A × (ℕ → ℕ)) → Option (A × Disk) → Type 0 where
  both_panic : Agrees p none none
  both_answer :
      {a : A} {t : ℕ → ℕ} {d : Disk} → Represents p t d → Agrees p (some (a, t)) (some (a, d))

module _ {p : Partition} (f : IsFat p) where
  run_call-Agrees :
      (k : Call) {t : ℕ → ℕ} {d : Disk}
      → Represents p t d
      → Agrees p (map_call k p t) (run_call k p d)
  unfolding run_call map_call number_of answer_of
  run_call-Agrees (next_of c) {t} {d} r = elim (Bool-cases (leb p.count_clusters c)) [
    | inl h ↦ rw h (rw (get_next_cluster-out f d c (leb→le _ _ h)) both_panic)
    | inr h ↦ rw h (rw (get_next_cluster-Represents f r c (ground arith)) (both_answer r))
  ]
  run_call-Agrees (link c v) {t} {d} r = elim (Bool-cases (ltb c 2 || leb p.count_clusters c)) [
    | inl h ↦ rw h (rw (set_next_cluster-out f d c v (ground arith)) both_panic)
    | inr h ↦
        let w = set_next_cluster-Represents f c v r (ground arith) (ground arith) in
        rw h (rw w.1 (both_answer w.2))
  ]
  run_call-Agrees take r = let w = allocate_cluster-Represents f r in rw w.1 (both_answer w.2)

abbrev and_then : {A B S : Type 0} → Option (A × S) → (A → S → Option (B × S)) → Option (B × S)
and_then none g = none
and_then (some (a, s)) g = g a s

prepend : {A S : Type 0} → A → Option (List A × S) → Option (List A × S)
prepend a none = none
prepend a (some (xs, s)) = some (a ∷ xs, s)

-- The answers of calls, one after the other, and what is left
pub run_calls : List Call → Partition → Disk → Option (List (Option ℕ) × Disk)
run_calls [] p d = some ([], d)
run_calls (k ∷ ks) p d = and_then (run_call k p d) (λ a d'. prepend a (run_calls ks p d'))

pub map_calls : List Call → Partition → (ℕ → ℕ) → Option (List (Option ℕ) × (ℕ → ℕ))
map_calls [] p t = some ([], t)
map_calls (k ∷ ks) p t = and_then (map_call k p t) (λ a u. prepend a (map_calls ks p u))

Agrees-and_then :
    {p : Partition} {A B : Type 0} {o : Option (A × (ℕ → ℕ))} {q : Option (A × Disk)}
    {g : A → (ℕ → ℕ) → Option (B × (ℕ → ℕ))} {h : A → Disk → Option (B × Disk)}
    → Agrees p o q
    → ((a : A) (t : ℕ → ℕ) (d : Disk) → Represents p t d → Agrees p (g a t) (h a d))
    → Agrees p (and_then o g) (and_then q h)
Agrees-and_then both_panic w = both_panic
Agrees-and_then (both_answer {a} {t} {d} r) w = w a t d r

Agrees-prepend :
    {p : Partition} {A : Type 0} (a : A) {o : Option (List A × (ℕ → ℕ))}
    {q : Option (List A × Disk)}
    → Agrees p o q
    → Agrees p (prepend a o) (prepend a q)
unfolding prepend
Agrees-prepend a both_panic = both_panic
Agrees-prepend a (both_answer r) = both_answer r

module _ {p : Partition} (f : IsFat p) where
  -- Any sequence of `getNextCluster`, `setNextCluster` and `allocateCluster` on a disk whose
  -- tables hold a map, for a FAT32 partition whose tables the drive reads and writes: the calls
  -- answer what they answer on the map, where a store changes one entry and an allocation takes
  -- the first free cluster from the root's on, all copies of the table hold the map that
  -- results, and the source panics exactly if a cluster is out of range.
  pub run_calls-map_calls :
      (ks : List Call) {t : ℕ → ℕ} {d : Disk}
      → Represents p t d
      → Agrees p (map_calls ks p t) (run_calls ks p d)
  unfolding run_calls map_calls
  run_calls-map_calls [] r = both_answer r
  run_calls-map_calls (k ∷ ks) r =
      Agrees-and_then (run_call-Agrees f k r)
        (λ a t d s. Agrees-prepend a (run_calls-map_calls ks s))
