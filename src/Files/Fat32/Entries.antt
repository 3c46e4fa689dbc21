-- ===== src/Files/Fat32/Entries.antt =====
-- Where the entries of a table of 32-bit entries stand, and what a store does to them.
use palmyra_os.Prelude.{ℕ, zero, suc, ◌+◌, ◌-◌, ◌*◌, ◌/◌, ◌%◌, ◌^◌, ◌≤◌, ◌<◌, ◌≡◌, ◌⊎◌, arith}
use palmyra_os.Files.VirtualDisk.{Sector, get_uint32, put_uint32}
use palmyra_os.Files.Partition.{Partition, fat32}
use palmyra_os.Files.Fat32.{fat_sector, entry_offset}

pub bytes_of :
    (v : ℕ)
    → v < 2 ^ 32
    → v % 2 ^ 8
        + 2 ^ 8 * (v / 2 ^ 8 % 2 ^ 8)
        + 2 ^ 16 * (v / 2 ^ 16 % 2 ^ 8)
        + 2 ^ 24 * (v / 2 ^ 24 % 2 ^ 8)
      ≡ v
bytes_of v h = omega arith

pub get-put : (o v : ℕ) (s : Sector) → v < 2 ^ 32 → get_uint32 (put_uint32 o v s) o ≡ v
get-put o v s h = ground (arith, bytes_of v h)

pub get-put_elsewhere :
    (o o' v : ℕ) (s : Sector)
    → (o + 4 ≤ o') ⊎ (o' + 4 ≤ o)
    → get_uint32 (put_uint32 o v s) o' ≡ get_uint32 s o'
get-put_elsewhere o o' v s h = ground arith

-- A FAT32 partition with sectors of 512 bytes whose tables hold its clusters and end below 2^32
pub record IsFat (p : Partition) : Type 0 where
  pub of_fat32 : p.fat_type ≡ fat32
  pub of_four_bytes : p.fat_offset_mult ≡ 4
  pub of_512 : p.sector_size ≡ 512
  pub enough : p.count_clusters * 4 ≤ p.fat_size * 512
  pub few : p.count_clusters ≤ 0x0FFFFFF7
  pub root_in_data : 2 ≤ p.root_cluster
  pub some_copy : 0 < p.count_fats
  pub below : p.start_sector + p.count_reserved_sectors + p.count_fats * p.fat_size < 2 ^ 32 - 1

-- The first sector of the first copy
abbrev pub table_start : Partition → ℕ
table_start p = p.start_sector + p.count_reserved_sectors

pub row-lt : (p : Partition) (f : IsFat p) (c : ℕ) → c < p.count_clusters → c / 128 < p.fat_size
row-lt p f c l = omega (arith, f.enough)

pub copy-lt : (m k q s : ℕ) → k < m → q < s → k * s + q < m * s
copy-lt zero k q s l h = absurd (omega arith)
copy-lt (suc m) zero q s l h = omega arith
copy-lt (suc m) (suc k) q s l h = omega (arith, copy-lt m k q s (omega arith) h)

pub copies-le : (k j s : ℕ) → k < j → k * s + s ≤ j * s
copies-le k zero s l = absurd (omega arith)
copies-le zero (suc j) s l = omega arith
copies-le (suc k) (suc j) s l = omega (arith, copies-le k j s (omega arith))

pub fat_sector_lem :
    (p : Partition) (f : IsFat p) (c : ℕ)
    → c < p.count_clusters
    → fat_sector c p ≡ table_start p + c / 128
fat_sector_lem p f c l = rw (f.of_four_bytes) (
    rw (f.of_512) (
      omega (
        arith,
        f.below,
        f.few,
        row-lt p f c l,
        copy-lt p.count_fats 0 (c / 128) p.fat_size f.some_copy (row-lt p f c l),
      )))

pub entry_offset_lem :
    (p : Partition) (f : IsFat p) (c : ℕ) → c < p.count_clusters → entry_offset c p ≡ 4 * (c % 128)
entry_offset_lem p f c l = rw (f.of_four_bytes) (rw (f.of_512) (omega (arith, f.few)))

-- Sectors of different rows are different in all copies.
pub same_row : (k j q r s : ℕ) → q < s → r < s → k * s + q ≡ j * s + r → q ≡ r
same_row zero zero q r s h l e = omega arith
same_row zero (suc j) q r s h l e = absurd (omega arith)
same_row (suc k) zero q r s h l e = absurd (omega arith)
same_row (suc k) (suc j) q r s h l e = same_row k j q r s h l (omega arith)
