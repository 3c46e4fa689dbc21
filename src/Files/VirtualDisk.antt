-- ===== src/Files/VirtualDisk.antt =====
-- core/files/partitions/VirtualDisk.h, and the reading of numbers in libs/utils.cpp. The drive
-- behind it is given by what stands in its sectors and by which sectors it reads and writes; a
-- write that the drive does not complete changes nothing.
use palmyra_os.Prelude.{
  ℕ, ◌+◌, ◌*◌, ◌/◌, ◌%◌, ◌^◌, Bool, ◌&&◌, Option, none, some, ltb, leb, ◌==◌, if◌then◌else◌,
}

-- A buffer of bytes, by their offsets
abbrev pub Sector : Type 0
Sector = ℕ → ℕ

pub record Disk : Type 0 where
  pub sectors : ℕ → Sector
  pub reads : ℕ → Bool
  pub writes : ℕ → Bool
  pub start_sector : ℕ
  pub count_sectors : ℕ

unfoldable pub is_valid_sector : ℕ → Disk → Bool
is_valid_sector lba d = leb d.start_sector lba && ltb lba d.count_sectors

unfoldable pub read_sector : ℕ → Disk → Option Sector
read_sector lba d = if is_valid_sector lba d && d.reads lba then some (d.sectors lba) else none

-- What the disk is after the sector was written
abbrev pub written : ℕ → Sector → Disk → Disk
written lba s d = record d { sectors = λ l. if lba == l then s else d.sectors l }

unfoldable pub write_sector : ℕ → Sector → Disk → Option Disk
write_sector lba s d =
    if is_valid_sector lba d && d.writes lba then some (written lba s d) else none

abbrev pub get_uint8 : Sector → ℕ → ℕ
get_uint8 s o = s o

abbrev pub get_uint16 : Sector → ℕ → ℕ
get_uint16 s o = s o + 2 ^ 8 * s (o + 1)

abbrev pub get_uint32 : Sector → ℕ → ℕ
get_uint32 s o = s o + 2 ^ 8 * s (o + 1) + 2 ^ 16 * s (o + 2) + 2 ^ 24 * s (o + 3)

-- A number stored at an offset by a pointer to uint16_t or uint32_t
abbrev pub put_uint16 : ℕ → ℕ → Sector → Sector
put_uint16 o v s = λ i. if i == o then v % 2 ^ 8 else if i == o + 1 then v / 2 ^ 8 % 2 ^ 8 else s i

abbrev pub put_uint32 : ℕ → ℕ → Sector → Sector
put_uint32 o v s = λ i.
    if i == o
    then v % 2 ^ 8
    else if i == o + 1
    then v / 2 ^ 8 % 2 ^ 8
    else if i == o + 2
    then v / 2 ^ 16 % 2 ^ 8
    else if i == o + 3
    then v / 2 ^ 24 % 2 ^ 8
    else s i
