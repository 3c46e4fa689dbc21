-- ===== src/Files/Fat32.antt =====
-- The file allocation table of core/files/partitions/Fat32.cpp: entries, chains of clusters and
-- their allocation. Where the source panics a function answers none, or `panicked` if it may also
-- go on forever.
pub mod Entries
pub mod Table
pub mod Refine
pub mod Calls
pub mod Free
pub mod Chain
mod Tests
use palmyra_os.Prelude.{
  ℕ, zero, suc, ◌+◌, ◌-◌, ◌*◌, ◌/◌, ◌%◌, ◌^◌, Bool, true, false, ◌||◌, Option, none, some, List, [],
  ◌∷◌, ◌++◌, ltb, leb, ◌==◌, if◌then◌else◌,
}
use palmyra_os.Files.VirtualDisk.{
  Sector, Disk, read_sector, write_sector, get_uint16, get_uint32, put_uint16, put_uint32,
}
use palmyra_os.Files.Partition.{Partition, FatType, invalid, fat12, fat16, fat32}

abbrev pub chain_end : ℕ
chain_end = 0x0FFFFFF8

-- What stands for the end of a chain in the answers
abbrev pub end_marker : ℕ
end_marker = 2 ^ 32 - 1

abbrev pub fat_sector : ℕ → Partition → ℕ
fat_sector cluster p =
    ((p.count_reserved_sectors + p.fat_offset_mult * cluster % 2 ^ 32 / p.sector_size) % 2 ^ 32
      + p.start_sector)
    % 2 ^ 32

abbrev pub entry_offset : ℕ → Partition → ℕ
entry_offset cluster p = p.fat_offset_mult * cluster % 2 ^ 32 % p.sector_size

pub calculate_fat_offset : ℕ → Partition → ℕ × ℕ
calculate_fat_offset cluster p = (fat_sector cluster p, entry_offset cluster p)

-- A value from the least that marks an end on is the end marker.
abbrev pub standardise : ℕ → ℕ → ℕ
standardise first v = if leb first v then end_marker else v

pub parse_entry : FatType → Sector → ℕ → ℕ → ℕ
parse_entry fat32 bytes offset cluster = standardise chain_end (get_uint32 bytes offset % 2 ^ 28)
parse_entry fat16 bytes offset cluster = standardise 0xFFF8 (get_uint16 bytes offset)
parse_entry fat12 bytes offset cluster =
    standardise 0xFF8 (
      if cluster % 2 == 1
      then get_uint16 bytes offset / 2 ^ 4
      else get_uint16 bytes offset % 2 ^ 12)
parse_entry invalid bytes offset cluster = end_marker

pub parse_next_cluster : Sector → ℕ → ℕ → Partition → ℕ
parse_next_cluster bytes offset cluster p = parse_entry p.fat_type bytes offset cluster

parse_read : Option Sector → ℕ → ℕ → Partition → ℕ
parse_read none offset cluster p = 0
parse_read (some bytes) offset cluster p = parse_next_cluster bytes offset cluster p

pub get_next_cluster : ℕ → Partition → Disk → Option ℕ
get_next_cluster cluster p d =
    if leb p.count_clusters cluster
    then none
    else (let (sector, offset) = calculate_fat_offset cluster p in
        some (parse_read (read_sector sector d) offset cluster p))

pub get_first_sector_of_cluster : ℕ → Partition → Option ℕ
get_first_sector_of_cluster cluster p =
    if ltb cluster p.root_cluster || leb p.count_clusters cluster
    then none
    else some ((p.first_data_sector + (cluster + 2 ^ 32 - 2) * p.cluster_size) % 2 ^ 32)

pub store_entry : FatType → ℕ → ℕ → Sector → Option Sector
store_entry fat32 offset next s = some (put_uint32 offset (next % 2 ^ 28) s)
store_entry fat16 offset next s = some (put_uint16 offset (next % 2 ^ 16) s)
store_entry fat12 offset next s = none
store_entry invalid offset next s = none

-- The sector written to copy `k` of the table and the `m - 1` behind it
pub write_copies : ℕ → ℕ → ℕ → Sector → Partition → Disk → Bool × Disk
write_copies zero k sector s p d = (true, d)
write_copies (suc m) k sector s p d = elim (write_sector ((sector + k * p.fat_size) % 2 ^ 32) s d) [
  | none ↦ (false, d)
  | some d' ↦ write_copies m (k + 1) sector s p d'
]

write_stored : Option Sector → ℕ → Partition → Disk → Bool × Disk
write_stored none sector p d = (false, d)
write_stored (some s) sector p d = write_copies p.count_fats 0 sector s p d

write_entry : Option Sector → ℕ → ℕ → ℕ → Partition → Disk → Bool × Disk
write_entry none sector offset next p d = (false, d)
write_entry (some s) sector offset next p d =
    write_stored (store_entry p.fat_type offset next s) sector p d

pub set_next_cluster : ℕ → ℕ → Partition → Disk → Option (Bool × Disk)
set_next_cluster cluster next p d =
    if ltb cluster 2 || leb p.count_clusters cluster
    then none
    else (let (sector, offset) = calculate_fat_offset cluster p in
        some (write_entry (read_sector sector d) sector offset next p d))

-- Whether an allocation marked its cluster
allocated : ℕ → Option (Bool × Disk) → Option (Option ℕ × Disk)
allocated cluster none = none
allocated cluster (some (true, d)) = some (some cluster, d)
allocated cluster (some (false, d)) = some (none, d)

-- The search from a cluster on, `n` clusters long
pub scan_clusters : ℕ → ℕ → Partition → Disk → Option (Option ℕ × Disk)
scan_clusters zero cluster p d = some (none, d)
scan_clusters (suc n) cluster p d = elim (get_next_cluster cluster p d) [
  | none ↦ none
  | some zero ↦ allocated cluster (set_next_cluster cluster 0x0FFFFFFF p d)
  | some (suc k) ↦ scan_clusters n (cluster + 1) p d
]

pub allocate_cluster : Partition → Disk → Option (Option ℕ × Disk)
allocate_cluster p d = scan_clusters (p.count_clusters - p.root_cluster) p.root_cluster p d

-- How a loop with fuel ends
pub data Run {ℓ} (A : Type ℓ) : Type ℓ where
  finished : A → Run A
  panicked : Run A
  out_of_fuel : Run A

-- One round of `freeClusterChain`: where it goes on, if it does, and the disk
pub free_round : ℕ → Partition → Disk → Option (Option ℕ × Disk)
free_round cluster p d = elim (get_next_cluster cluster p d) [
  | none ↦ none
  | some next ↦ elim (set_next_cluster cluster 0 p d) [
    | none ↦ none
    | some (ok, d') ↦ some (if next == 0 || ltb 0x0FFFFFF7 next then none else some next, d')
  ]
]

pub free_loop : ℕ → ℕ → Partition → Disk → Run Disk
free_loop zero cluster p d = out_of_fuel
free_loop (suc n) cluster p d = elim (ltb cluster chain_end) [
  | false ↦ finished d
  | true ↦ elim (free_round cluster p d) [
    | none ↦ panicked
    | some (none, d') ↦ finished d'
    | some (some next, d') ↦ free_loop n next p d'
  ]
]

pub free_cluster_chain : ℕ → Partition → Disk → Run Disk
free_cluster_chain start p d =
    if leb p.count_clusters start then panicked else free_loop (p.count_clusters + 1) start p d

-- The walk along a chain: where it is, the clusters met, and the sector of the table that is kept
pub record Walk : Type 0 where
  pub current : ℕ
  pub clusters : List ℕ
  pub cached_sector : ℕ
  pub sector_data : Sector

pub data Turn : Type 0 where
  leave : List ℕ → Turn
  go_on : Walk → Turn

abbrev pub find : List ℕ → ℕ → Bool
find [] c = false
find (x ∷ xs) c = x == c || find xs c

-- The sector of the table, read if it is not the one kept
cached : ℕ → Walk → Disk → Option Sector
cached sector w d = if sector == w.cached_sector then some w.sector_data else read_sector sector d

turn_with : Option Sector → ℕ → ℕ → List ℕ → Walk → Partition → Turn
turn_with none sector offset cs w p = leave cs
turn_with (some bytes) sector offset cs w p =
    let next = parse_next_cluster bytes offset w.current p in
    if next == end_marker
    then leave cs
    else go_on
        (record { current = next; clusters = cs; cached_sector = sector; sector_data = bytes })

pub chain_turn : Walk → Partition → Disk → Turn
chain_turn w p d =
    if find w.clusters w.current || w.current == 0
    then leave w.clusters
    else (let (sector, offset) = calculate_fat_offset w.current p in
        turn_with (cached sector w d) sector offset (w.clusters ++ (w.current ∷ [])) w p)

pub chain_loop : ℕ → Walk → Partition → Disk → List ℕ
chain_loop zero w p d = w.clusters
chain_loop (suc n) w p d = elim (ltb w.current chain_end) [
  | false ↦ w.clusters
  | true ↦ elim (chain_turn w p d) [ leave cs ↦ cs | go_on w' ↦ chain_loop n w' p d ]
]

abbrev pub max_iterations : ℕ
max_iterations = 1024 * 1024

-- `unread` is what stands in the buffer before the first sector is read.
pub read_cluster_chain : Sector → ℕ → Partition → Disk → Option (List ℕ)
read_cluster_chain unread start p d =
    if leb p.count_clusters start
    then none
    else some (
        chain_loop max_iterations
          (record {
            current = start;
            clusters = [];
            cached_sector = 2 ^ 32 - 1;
            sector_data = unread;
          })
          p d)
