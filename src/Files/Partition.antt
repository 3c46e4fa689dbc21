-- ===== src/Files/Partition.antt =====
-- The fields of a FAT partition, and how the constructor of core/files/partitions/Fat32.cpp reads
-- them from the boot sector.
use palmyra_os.Prelude.{
  ℕ, zero, suc, ◌+◌, ◌-◌, ◌*◌, ◌/◌, ◌%◌, ◌^◌, Bool, true, false, not, ◌||◌, none, some, List, [],
  ◌∷◌, ltb, ◌==◌, if◌then◌else◌,
}
use palmyra_os.Files.VirtualDisk.{Sector, Disk, read_sector, get_uint8, get_uint16, get_uint32}

pub data FatType : Type 0 where
  invalid : FatType
  fat12 : FatType
  fat16 : FatType
  fat32 : FatType

pub record Partition : Type 0 where
  pub start_sector : ℕ
  pub count_sectors : ℕ
  pub cluster_size_bytes : ℕ
  pub sector_size : ℕ
  pub cluster_size : ℕ
  pub count_reserved_sectors : ℕ
  pub count_fats : ℕ
  pub count_root_entries : ℕ
  pub count_sectors16 : ℕ
  pub fat_size16 : ℕ
  pub hidden_sectors : ℕ
  pub total_sectors32 : ℕ
  pub fat_size32 : ℕ
  pub extended_flags : ℕ
  pub file_system_version : ℕ
  pub root_cluster : ℕ
  pub fs_info_sector : ℕ
  pub backup_boot_sector : ℕ
  pub drive_number : ℕ
  pub boot_signature : ℕ
  pub volume_id : ℕ
  pub volume_label : List ℕ
  pub file_system_type : List ℕ
  pub root_dir_sectors : ℕ
  pub fat_size : ℕ
  pub total_sectors : ℕ
  pub first_data_sector : ℕ
  pub reserved_and_fat_sectors_count : ℕ
  pub data_sector_count : ℕ
  pub count_clusters : ℕ
  pub fat_type : FatType
  pub fat_offset_mult : ℕ

abbrev bytes_from : Sector → ℕ → ℕ → List ℕ
bytes_from s o zero = []
bytes_from s o (suc n) = s o ∷ bytes_from s (o + 1) n

unfoldable pub boot_fields : Sector → Partition → Partition
boot_fields boot p = record p {
  sector_size = get_uint16 boot 11;
  cluster_size = get_uint8 boot 13;
  count_reserved_sectors = get_uint16 boot 14;
  count_fats = get_uint8 boot 16;
  count_root_entries = get_uint16 boot 17;
  count_sectors16 = get_uint16 boot 19;
  fat_size16 = get_uint16 boot 22;
  hidden_sectors = get_uint32 boot 28;
  total_sectors32 = get_uint32 boot 32;
  fat_size32 = get_uint32 boot 36;
  extended_flags = get_uint16 boot 40;
  file_system_version = get_uint16 boot 42;
  root_cluster = get_uint32 boot 44;
  fs_info_sector = get_uint16 boot 48;
  backup_boot_sector = get_uint16 boot 50;
  drive_number = get_uint8 boot 64;
  boot_signature = get_uint8 boot 66;
  volume_id = get_uint32 boot 67;
  volume_label = bytes_from boot 71 11;
  file_system_type = bytes_from boot 82 8;
}

unfoldable pub checked_fields : Partition → Bool × Partition
checked_fields p = (not (p.sector_size == 0 || p.cluster_size == 0), p)

unfoldable pub parse_bios_parameter_block : Disk → Partition → Bool × Partition
parse_bios_parameter_block d p = elim (read_sector p.start_sector d) [
  | none ↦ (false, p)
  | some boot ↦ checked_fields (boot_fields boot p)
]

abbrev pub fat_type_of : ℕ → FatType
fat_type_of clusters =
    if ltb clusters 3
    then invalid
    else if ltb clusters 4085
    then fat12
    else if ltb clusters 65525
    then fat16
    else fat32

abbrev pub offset_mult_of : FatType → ℕ → ℕ
offset_mult_of fat16 before = 2
offset_mult_of fat32 before = 4
offset_mult_of fat12 before = before
offset_mult_of invalid before = before

abbrev is_fat32 : FatType → Bool
is_fat32 fat32 = true
is_fat32 fat16 = false
is_fat32 fat12 = false
is_fat32 invalid = false

unfoldable pub initialize_additional_fields : Partition → Bool × Partition
initialize_additional_fields p =
    let root_dirs = (p.count_root_entries * 32 + (p.sector_size - 1)) / p.sector_size in
    let size = if p.fat_size16 == 0 then p.fat_size32 else p.fat_size16 in
    let total = if p.count_sectors16 == 0 then p.total_sectors32 else p.count_sectors16 in
    let reserved = (p.count_reserved_sectors + p.count_fats * size % 2 ^ 32 + root_dirs) % 2 ^ 32 in
    let data_sectors = (total + 2 ^ 32 - reserved) % 2 ^ 32 in
    let clusters = data_sectors / p.cluster_size in
    let type = fat_type_of clusters in
    (
      is_fat32 type,
      record p {
        root_dir_sectors = root_dirs;
        fat_size = size;
        total_sectors = total;
        first_data_sector = (p.start_sector + reserved) % 2 ^ 32;
        reserved_and_fat_sectors_count = reserved;
        data_sector_count = data_sectors;
        count_clusters = clusters;
        fat_type = type;
        fat_offset_mult = offset_mult_of type p.fat_offset_mult;
      },
    )

-- The fields before the constructor's body; it leaves the cluster's size to the end.
abbrev pub fresh : ℕ → ℕ → ℕ → Partition
fresh start count unset = record {
  start_sector = start;
  count_sectors = count;
  cluster_size_bytes = unset;
  sector_size = 0;
  cluster_size = 0;
  count_reserved_sectors = 0;
  count_fats = 0;
  count_root_entries = 0;
  count_sectors16 = 0;
  fat_size16 = 0;
  hidden_sectors = 0;
  total_sectors32 = 0;
  fat_size32 = 0;
  extended_flags = 0;
  file_system_version = 0;
  root_cluster = 0;
  fs_info_sector = 0;
  backup_boot_sector = 0;
  drive_number = 0;
  boot_signature = 0;
  volume_id = 0;
  volume_label = [];
  file_system_type = [];
  root_dir_sectors = 0;
  fat_size = 0;
  total_sectors = 0;
  first_data_sector = 0;
  reserved_and_fat_sectors_count = 0;
  data_sector_count = 0;
  count_clusters = 0;
  fat_type = invalid;
  fat_offset_mult = 0;
}

-- The constructor. `unset` is what `clusterSizeBytes_` holds when it is not written.
unfoldable pub open_partition : Disk → ℕ → ℕ → ℕ → Partition
open_partition d start count unset =
    let (parsed, p) = parse_bios_parameter_block d (fresh start count unset) in
    if not parsed
    then p
    else (let (complete, q) = initialize_additional_fields p in
        if not complete
        then q
        else record q { cluster_size_bytes = q.cluster_size * q.sector_size % 2 ^ 32 })
