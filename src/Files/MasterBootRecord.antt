-- ===== src/Files/MasterBootRecord.antt =====
-- core/files/partitions/MasterBootRecord.cpp: the partition table in a disk's first sector.
use palmyra_os.Prelude.{
  ℕ, zero, suc, ◌+◌, ◌/◌, ◌%◌, ◌^◌, Bool, true, false, not, ◌||◌, List, [], ◌∷◌, leb, ◌==◌,
  if◌then◌else◌, get_or,
}
use palmyra_os.Files.VirtualDisk.{Sector, get_uint8, get_uint32}
pub mod Table
mod Tests

pub data PartitionType : Type 0 where
  invalid : PartitionType
  fat16 : PartitionType
  fat16_lba : PartitionType
  fat32 : PartitionType
  fat32_lba : PartitionType
  ntfs : PartitionType

pub record Entry : Type 0 where
  pub is_bootable : Bool
  pub type : PartitionType
  pub lba_start : ℕ
  pub lba_count : ℕ

abbrev pub no_entry : Entry
no_entry = record { is_bootable = false; type = invalid; lba_start = 0; lba_count = 0 }

pub record MasterBootRecord : Type 0 where
  pub entries : List Entry
  pub is_valid : Bool

-- The number that stands for a type
abbrev pub value_of : PartitionType → ℕ
value_of invalid = 0x00
value_of fat16 = 0x04
value_of fat16_lba = 0x0E
value_of fat32 = 0x0B
value_of fat32_lba = 0x0C
value_of ntfs = 0x07

unfoldable pub cast_to_partition_type : ℕ → PartitionType
cast_to_partition_type v =
    if v == 0x04
    then fat16
    else if v == 0x0E
    then fat16_lba
    else if v == 0x0B
    then fat32
    else if v == 0x0C
    then fat32_lba
    else if v == 0x07
    then ntfs
    else invalid

-- One turn of the loop; an entry whose type is not known keeps its default values.
abbrev pub decoded : PartitionType → Sector → ℕ → Entry
decoded invalid s o = no_entry
decoded t s o = record {
  is_bootable = not (s o / 2 ^ 7 % 2 == 0);
  type = t;
  lba_start = get_uint32 s (o + 0x8);
  lba_count = get_uint32 s (o + 0xC);
}

unfoldable pub decode_entry : Sector → ℕ → Entry
decode_entry s o = decoded (cast_to_partition_type (s (o + 0x4))) s o

unfoldable pub decode_entries : Sector → ℕ → ℕ → List Entry
decode_entries s o zero = []
decode_entries s o (suc n) = decode_entry s o ∷ decode_entries s (o + 16) n

-- Whether the last two bytes are the signature
abbrev pub is_signed : Sector → Bool
is_signed s = not (not (s 0x1FE == 0x55) || not (s 0x1FF == 0xAA))

-- The constructor: the signature's check sets `isValid_`, which the last line overwrites.
unfoldable pub master_boot_record : Sector → MasterBootRecord
master_boot_record s =
    let m : MasterBootRecord = record { entries = []; is_valid = is_signed s } in
    record m { entries = decode_entries s 0x1BE 4; is_valid = true }

unfoldable pub get_entry : ℕ → MasterBootRecord → Entry
get_entry n m = if leb 4 n then no_entry else get_or m.entries n no_entry
