-- ===== src/Files/MasterBootRecord/Tests.antt =====
-- A partition stored in the third place of an empty sector's table.
use palmyra_os.Prelude.{ℕ, ◌≡◌, ◌≢◌, refl, true, false, arith}
use palmyra_os.Files.VirtualDisk.{Sector}
use palmyra_os.Files.MasterBootRecord.{
  fat32_lba, Entry, is_signed, no_entry, decode_entry, decode_entries, cast_to_partition_type,
  master_boot_record, get_entry,
}
use palmyra_os.Files.MasterBootRecord.Table.{store_at, slot, get_entry-store_at}

abbrev blank : Sector
blank i = 0

abbrev partition : Entry
partition = record {
  is_bootable = true;
  type = fat32_lba;
  lba_start = 2048;
  lba_count = 0x12345678;
}

-- A sector without the signature
unsigned : is_signed blank ≡ false
unsigned = refl

-- counts as valid.
unsigned-valid : (master_boot_record blank).is_valid ≡ true
unfolding master_boot_record
unsigned-valid = refl

fifth : get_entry 4 (master_boot_record blank) ≡ no_entry
unfolding get_entry
fifth = refl

stored : get_entry 2 (master_boot_record (store_at (slot 2) partition blank)) ≡ partition
unfolding get_entry master_boot_record decode_entries decode_entry cast_to_partition_type
stored = refl

store_example :
    (get_entry 2 (master_boot_record (store_at (slot 2) partition blank)) ≡ partition)
    × ((k : ℕ)
        → k ≢ 2
        → get_entry k (master_boot_record (store_at (slot 2) partition blank))
          ≡ get_entry k (master_boot_record blank))
store_example =
    get_entry-store_at blank 2 partition (omega arith) (λ h. cc) (omega arith) (omega arith)
