-- ===== src/Files/Fat32/Tests.antt =====
-- A FAT32 partition of 70000 clusters with two copies of the table, and a disk that holds a map.
use palmyra_os.Prelude.{
  ℕ, zero, suc, ◌+◌, ◌-◌, ◌*◌, ◌/◌, ◌%◌, ◌^◌, ◌≤◌, ◌<◌, ◌≡◌, ◌⊎◌, inl, inr, refl, ap, ap₂, sym, ◌∙◌,
  true, false, none, some, [], ◌∷◌, arith, leb, ◌==◌, if◌then◌else◌, Bool-cases, leb→le, some_inj,
  replicate,
}
use palmyra_os.Files.VirtualDisk.{Sector, Disk, is_valid_sector, read_sector, get_uint32}
use palmyra_os.Files.Partition.{
  Partition, fat32, open_partition, parse_bios_parameter_block, checked_fields, boot_fields,
  initialize_additional_fields,
}
use palmyra_os.Files.Fat32.{
  chain_end, standardise, get_next_cluster, Run, finished, free_cluster_chain, read_cluster_chain,
}
use palmyra_os.Files.Fat32.Entries.{IsFat, table_start, bytes_of}
use palmyra_os.Files.Fat32.Table.{entry_at, Works, Represents}
use palmyra_os.Files.Fat32.Refine.{get_next_cluster-Represents, get_next_cluster-out}
use palmyra_os.Files.Fat32.Calls.{
  next_of, link, take, map_calls, run_calls, Agrees, run_calls-map_calls,
}
use palmyra_os.Files.Fat32.Free.{IsClosedTable, Freed, free_cluster_chain_lem}
use palmyra_os.Files.Fat32.Chain.{IsClosed, plain_chain, read_cluster_chain-plain_chain}

abbrev partition : Partition
partition = record {
  start_sector = 63;
  count_sectors = 100000;
  cluster_size_bytes = 512;
  sector_size = 512;
  cluster_size = 1;
  count_reserved_sectors = 32;
  count_fats = 2;
  count_root_entries = 0;
  count_sectors16 = 0;
  fat_size16 = 0;
  hidden_sectors = 0;
  total_sectors32 = 71126;
  fat_size32 = 547;
  extended_flags = 0;
  file_system_version = 0;
  root_cluster = 2;
  fs_info_sector = 0;
  backup_boot_sector = 0;
  drive_number = 0;
  boot_signature = 0;
  volume_id = 0;
  volume_label = replicate 11 0;
  file_system_type = replicate 8 0;
  root_dir_sectors = 0;
  fat_size = 547;
  total_sectors = 71126;
  first_data_sector = 1189;
  reserved_and_fat_sectors_count = 1126;
  data_sector_count = 70000;
  count_clusters = 70000;
  fat_type = fat32;
  fat_offset_mult = 4;
}

abbrev boot_sector : Sector
boot_sector i =
    if i == 12
    then 2
    else if i == 13
    then 1
    else if i == 14
    then 32
    else if i == 16
    then 2
    else if i == 32
    then 214
    else if i == 33
    then 21
    else if i == 34
    then 1
    else if i == 36
    then 35
    else if i == 37
    then 2
    else if i == 44
    then 2
    else 0

-- Byte `j` of a number
abbrev byte_of : ℕ → ℕ → ℕ
byte_of v zero = v % 2 ^ 8
byte_of v (suc zero) = v / 2 ^ 8 % 2 ^ 8
byte_of v (suc (suc zero)) = v / 2 ^ 16 % 2 ^ 8
byte_of v (suc (suc (suc j))) = v / 2 ^ 24 % 2 ^ 8

-- Both copies hold the map, behind the boot sector.
abbrev disk : (ℕ → ℕ) → Disk
disk t = record {
  sectors =
      λ l. if l == 63 then boot_sector else λ i. byte_of (t ((l - 95) % 547 * 128 + i / 4)) (i % 4);
  reads = λ l. true;
  writes = λ l. true;
  start_sector = 0;
  count_sectors = 100000;
}

opened : (t : ℕ → ℕ) → open_partition (disk t) 63 100000 7 ≡ partition
unfolding open_partition parse_bios_parameter_block read_sector is_valid_sector checked_fields
    boot_fields initialize_additional_fields
opened t = refl

partition-IsFat : IsFat partition
partition-IsFat = record {
  of_fat32 = refl;
  of_four_bytes = refl;
  of_512 = refl;
  enough = omega arith;
  few = omega arith;
  root_in_data = omega arith;
  some_copy = omega arith;
  below = omega arith;
}

disk-Works : (t : ℕ → ℕ) → Works partition (disk t)
unfolding is_valid_sector
disk-Works t = record { reads = λ i l. ground arith; writes = λ i l. ground arith }

byte-disk :
    (t : ℕ → ℕ) (k c j o : ℕ)
    → k < 2
    → c < 70000
    → j < 4
    → o ≡ 4 * (c % 128) + j
    → (disk t).sectors (table_start partition + (k * 547 + c / 128)) o ≡ byte_of (t c) j
byte-disk t k c j o kl cl jl at =
    rw (let e : (95 + (k * 547 + c / 128) == 63) ≡ false = ground arith in e) (
      ap₂ (λ x y. byte_of (t x) y)
        (let e : (95 + (k * 547 + c / 128) - 95) % 547 * 128 + o / 4 ≡ c = omega arith in e)
        (let e : o % 4 ≡ j = omega arith in e))

entry-disk :
    (t : ℕ → ℕ) (k c : ℕ) → k < 2 → c < 70000 → t c < 2 ^ 28 → entry_at partition (disk t) k c ≡ t c
entry-disk t k c kl cl h =
    let s = (disk t).sectors (table_start partition + (k * 547 + c / 128)) in
    let o = 4 * (c % 128) in
    let b0 : s o ≡ t c % 2 ^ 8 = byte-disk t k c 0 o kl cl (omega arith) (omega arith) in
    let b1 : s (o + 1) ≡ t c / 2 ^ 8 % 2 ^ 8 = byte-disk t k c 1 (o + 1) kl cl (omega arith) refl in
    let b2 : s (o + 2) ≡ t c / 2 ^ 16 % 2 ^ 8 =
      byte-disk t k c 2 (o + 2) kl cl (omega arith) refl in
    let b3 : s (o + 3) ≡ t c / 2 ^ 24 % 2 ^ 8 =
      byte-disk t k c 3 (o + 3) kl cl (omega arith) refl in
    let whole : get_uint32 s o ≡ t c = omega (arith, bytes_of (t c) (omega (arith, h))) in
    ap (λ v. v % 2 ^ 28) whole ∙ omega (arith, h)

disk-Represents : (t : ℕ → ℕ) → ((c : ℕ) → t c < 2 ^ 28) → Represents partition t (disk t)
disk-Represents t h = record {
  works = disk-Works t;
  entries = λ k c kl cl. entry-disk t k c kl cl (h c);
}

-- The chain 2, 5, 9
abbrev fat : ℕ → ℕ
fat c = if c == 2 then 5 else if c == 5 then 9 else if c == 9 then 0x0FFFFFFF else 0

fat-Represents : Represents partition fat (disk fat)
fat-Represents = disk-Represents fat (λ c. ground arith)

fat-IsClosedTable : IsClosedTable partition fat
fat-IsClosedTable x l = ground arith

fat-IsClosed : IsClosed partition (disk fat)
fat-IsClosed c n e = elim (Bool-cases (leb 70000 c)) [
  | inl h ↦
      absurd
        (none_some (sym (get_next_cluster-out partition-IsFat (disk fat) c (leb→le _ _ h)) ∙ e))
  | inr h ↦ entries_closed c n (
      some_inj
        (sym (get_next_cluster-Represents partition-IsFat fat-Represents c (ground arith)) ∙ e))
]
  where
    none_some : ¬ (none ≡ some n)
    none_some h = cc

    entries_closed : (c n : ℕ) → standardise chain_end (fat c) ≡ n → (n < 70000) ⊎ (chain_end ≤ n)
    entries_closed c n e = ground arith

calls_example :
    Agrees partition
      (map_calls (link 9 20 ∷ take ∷ next_of 9 ∷ []) partition fat)
      (run_calls (link 9 20 ∷ take ∷ next_of 9 ∷ []) partition (disk fat))
calls_example =
    run_calls-map_calls partition-IsFat (link 9 20 ∷ take ∷ next_of 9 ∷ []) fat-Represents

free_chain_example :
    (d' : Disk) × (t' : ℕ → ℕ) × (free_cluster_chain 5 partition (disk fat) ≡ finished d')
    × Represents partition t' d'
    × Freed fat t' 5
free_chain_example =
    free_cluster_chain_lem partition-IsFat 5 fat-Represents fat-IsClosedTable (omega arith)
      (omega arith)

chain_example :
    read_cluster_chain (λ i. 0) 2 partition (disk fat) ≡ plain_chain 2 partition (disk fat)
chain_example =
    read_cluster_chain-plain_chain partition (disk fat) partition-IsFat fat-IsClosed (λ i. 0) 2

whole_chain : read_cluster_chain (λ i. 0) 2 partition (disk fat) ≡ some (2 ∷ 5 ∷ 9 ∷ [])
unfolding get_next_cluster palmyra_os.Files.Fat32.parse_read read_sector is_valid_sector
    palmyra_os.Files.Fat32.calculate_fat_offset palmyra_os.Files.Fat32.parse_next_cluster
    palmyra_os.Files.Fat32.parse_entry
whole_chain = chain_example ∙ refl
