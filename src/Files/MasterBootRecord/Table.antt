-- ===== src/Files/MasterBootRecord/Table.antt =====
-- What the constructor and `getEntry` read of a partition table that was written.
use palmyra_os.Prelude.{
  ℕ, zero, suc, ◌+◌, ◌*◌, ◌/◌, ◌%◌, ◌^◌, ◌≤◌, ◌<◌, ◌≡◌, ◌≢◌, ◌⊎◌, inl, inr, refl, ap, sym, ◌∙◌,
  Bool, true, false, not, arith, ltb, leb, ◌==◌, Bool-cases, if◌then◌else◌, get_or,
}
use palmyra_os.Files.VirtualDisk.{Sector, get_uint32, put_uint32}
use palmyra_os.Files.Fat32.Entries.{get-put, get-put_elsewhere}
use palmyra_os.Files.MasterBootRecord.{
  PartitionType, invalid, fat16, fat16_lba, fat32, fat32_lba, ntfs, Entry, no_entry, value_of,
  cast_to_partition_type, decoded, decode_entry, decode_entries, master_boot_record, get_entry,
}

-- A byte stored at an offset
abbrev pub put_uint8 : ℕ → ℕ → Sector → Sector
put_uint8 o v s = λ i. if i == o then v else s i

-- An entry stored from an offset on; the addresses by cylinder, head and sector stay.
abbrev pub store_at : ℕ → Entry → Sector → Sector
store_at o e s = put_uint8 o (if e.is_bootable then 0x80 else 0) (
    put_uint8 (o + 0x4) (value_of e.type)
      (put_uint32 (o + 0x8) e.lba_start (put_uint32 (o + 0xC) e.lba_count s)))

-- The offset of an entry of the table
abbrev pub slot : ℕ → ℕ
slot n = 0x1BE + 16 * n

cast-value_of : (t : PartitionType) → cast_to_partition_type (value_of t) ≡ t
unfolding cast_to_partition_type
cast-value_of invalid = refl
cast-value_of fat16 = refl
cast-value_of fat16_lba = refl
cast-value_of fat32 = refl
cast-value_of fat32_lba = refl
cast-value_of ntfs = refl

boot_flag : (b : Bool) → not ((if b then 0x80 else 0) / 2 ^ 7 % 2 == 0) ≡ b
boot_flag true = refl
boot_flag false = refl

-- A number beside a byte that is stored is not changed.
get-put_uint8 :
    (o o' v : ℕ) (s : Sector)
    → (o + 1 ≤ o') ⊎ (o' + 4 ≤ o)
    → get_uint32 (put_uint8 o v s) o' ≡ get_uint32 s o'
get-put_uint8 o o' v s h = ground arith

module _ (o : ℕ) (e : Entry) (s : Sector) where
  store_at-type : store_at o e s (o + 0x4) ≡ value_of e.type
  store_at-type = ground arith

  store_at-boot : store_at o e s o ≡ (if e.is_bootable then 0x80 else 0)
  store_at-boot = ground arith

  abbrev counted : Sector
  counted = put_uint32 (o + 0xC) e.lba_count s

  abbrev sized : Sector
  sized = put_uint32 (o + 0x8) e.lba_start counted

  abbrev typed : Sector
  typed = put_uint8 (o + 0x4) (value_of e.type) sized

  -- The numbers of an entry stand behind the bytes of its flag and of its type.
  store_at-number : (o' : ℕ) → o + 8 ≤ o' → get_uint32 (store_at o e s) o' ≡ get_uint32 sized o'
  store_at-number o' h =
      get-put_uint8 o o' (if e.is_bootable then 0x80 else 0) typed (inl (omega (arith, h)))
      ∙ get-put_uint8 (o + 0x4) o' (value_of e.type) sized (inl (omega (arith, h)))

  store_at-start : e.lba_start < 2 ^ 32 → get_uint32 (store_at o e s) (o + 0x8) ≡ e.lba_start
  store_at-start h =
      store_at-number (o + 0x8) (omega arith) ∙ get-put (o + 0x8) e.lba_start counted h

  store_at-count : e.lba_count < 2 ^ 32 → get_uint32 (store_at o e s) (o + 0xC) ≡ e.lba_count
  store_at-count h =
      store_at-number (o + 0xC) (omega arith)
      ∙ get-put_elsewhere (o + 0x8) (o + 0xC) e.lba_start counted (inl (omega arith))
      ∙ get-put (o + 0xC) e.lba_count s h

  store_at-elsewhere : (i : ℕ) → (i < o) ⊎ (o + 16 ≤ i) → store_at o e s i ≡ s i
  store_at-elsewhere i h = ground arith

-- What an entry of a known type is
abbrev entry_of : PartitionType → ℕ → ℕ → ℕ → Entry
entry_of t b start count = record {
  is_bootable = not (b / 2 ^ 7 % 2 == 0);
  type = t;
  lba_start = start;
  lba_count = count;
}

abbrev fields : PartitionType → Sector → ℕ → Entry
fields t s o = entry_of t (s o) (get_uint32 s (o + 0x8)) (get_uint32 s (o + 0xC))

entry_of-same :
    (t : PartitionType) {b b' x x' y y' : ℕ}
    → b ≡ b'
    → x ≡ x'
    → y ≡ y'
    → entry_of t b x y ≡ entry_of t b' x' y'
entry_of-same t {b} {b'} {x} {x'} {y} {y'} e f g =
    ap (λ z. entry_of t z x y) e ∙ ap (λ z. entry_of t b' z y) f ∙ ap (λ z. entry_of t b' x' z) g

decoded-known :
    (t : PartitionType) (s : Sector) (o : ℕ) → t ≢ invalid → decoded t s o ≡ fields t s o
decoded-known invalid s o n = absurd (n refl)
decoded-known fat16 s o n = refl
decoded-known fat16_lba s o n = refl
decoded-known fat32 s o n = refl
decoded-known fat32_lba s o n = refl
decoded-known ntfs s o n = refl

-- An entry is read back from where it was stored.
decode_entry-store_at :
    (o : ℕ) (e : Entry) (s : Sector)
    → e.type ≢ invalid
    → e.lba_start < 2 ^ 32
    → e.lba_count < 2 ^ 32
    → decode_entry (store_at o e s) o ≡ e
unfolding decode_entry
decode_entry-store_at o e s n a b =
    ap (λ v. decoded (cast_to_partition_type v) (store_at o e s) o) (store_at-type o e s)
    ∙ ap (λ t. decoded t (store_at o e s) o) (cast-value_of e.type)
    ∙ decoded-known e.type (store_at o e s) o n
    ∙ entry_of-same e.type (store_at-boot o e s) (store_at-start o e s a) (store_at-count o e s b)
    ∙ ap (λ (x : Bool). record e { is_bootable = x }) (boot_flag e.is_bootable)

get_uint32-same :
    (s t : Sector) (o : ℕ)
    → ((i : ℕ) → o ≤ i → i < o + 4 → s i ≡ t i)
    → get_uint32 s o ≡ get_uint32 t o
get_uint32-same s t o h = omega (
  arith,
  h o (omega arith) (omega arith),
  h (o + 1) (omega arith) (omega arith),
  h (o + 2) (omega arith) (omega arith),
  h (o + 3) (omega arith) (omega arith),
)

fields-same :
    (t : PartitionType) (s s' : Sector) (o : ℕ)
    → ((i : ℕ) → o ≤ i → i < o + 16 → s i ≡ s' i)
    → fields t s o ≡ fields t s' o
fields-same t s s' o h =
    entry_of-same t (h o (omega arith) (omega arith))
      (get_uint32-same s s' (o + 0x8) (λ i a b. h i (omega (arith, a)) (omega (arith, b))))
      (get_uint32-same s s' (o + 0xC) (λ i a b. h i (omega (arith, a)) (omega (arith, b))))

-- Two sectors with the same bytes of an entry have the same entry.
decoded-same :
    (t : PartitionType) (s s' : Sector) (o : ℕ)
    → ((i : ℕ) → o ≤ i → i < o + 16 → s i ≡ s' i)
    → decoded t s o ≡ decoded t s' o
decoded-same invalid s s' o h = refl
decoded-same fat16 s s' o h = fields-same fat16 s s' o h
decoded-same fat16_lba s s' o h = fields-same fat16_lba s s' o h
decoded-same fat32 s s' o h = fields-same fat32 s s' o h
decoded-same fat32_lba s s' o h = fields-same fat32_lba s s' o h
decoded-same ntfs s s' o h = fields-same ntfs s s' o h

decode_entry-same :
    (s s' : Sector) (o : ℕ)
    → ((i : ℕ) → o ≤ i → i < o + 16 → s i ≡ s' i)
    → decode_entry s o ≡ decode_entry s' o
unfolding decode_entry
decode_entry-same s s' o h =
    ap (λ v. decoded (cast_to_partition_type v) s o) (h (o + 0x4) (omega arith) (omega arith))
    ∙ decoded-same (cast_to_partition_type (s' (o + 0x4))) s s' o h

get_or-decode_entries :
    (s : Sector) (o k n : ℕ)
    → k < n
    → get_or (decode_entries s o n) k no_entry ≡ decode_entry s (o + 16 * k)
unfolding decode_entries
get_or-decode_entries s o k zero h = absurd (omega arith)
get_or-decode_entries s o zero (suc n) h = ap (decode_entry s) (omega arith)
get_or-decode_entries s o (suc k) (suc n) h =
    get_or-decode_entries s (o + 16) k n (omega arith) ∙ ap (decode_entry s) (omega arith)

-- `getEntry` of the master boot record of a sector is the entry of the table, or the default
-- entry.
get_entry_lem :
    (s : Sector) (k : ℕ)
    → get_entry k (master_boot_record s) ≡ (if leb 4 k then no_entry else decode_entry s (slot k))
unfolding get_entry master_boot_record
get_entry_lem s k = elim (Bool-cases (leb 4 k)) [
  | inl h ↦ rw h refl
  | inr h ↦ rw h (get_or-decode_entries s 0x1BE k 4 (ground (arith, h)))
]

-- The entry of a known type that is stored in one of the four places of a sector's table is what
-- getEntry answers there from the record made of the sector, and for every other number getEntry
-- answers what it answered before, if the entry's numbers fit 32 bits.
pub get_entry-store_at :
    (s : Sector) (n : ℕ) (e : Entry)
    → n < 4
    → e.type ≢ invalid
    → e.lba_start < 2 ^ 32
    → e.lba_count < 2 ^ 32
    → (get_entry n (master_boot_record (store_at (slot n) e s)) ≡ e)
      × ((k : ℕ)
          → k ≢ n
          → get_entry k (master_boot_record (store_at (slot n) e s))
            ≡ get_entry k (master_boot_record s))
get_entry-store_at s n e l known a b = (
  get_entry_lem (store_at (slot n) e s) n ∙ here,
  λ k other. get_entry_lem (store_at (slot n) e s) k ∙ there k other ∙ sym (get_entry_lem s k),
)
  where
    here : (if leb 4 n then no_entry else decode_entry (store_at (slot n) e s) (slot n)) ≡ e
    here = elim (Bool-cases (leb 4 n)) [
      | inl h ↦ absurd (ground (arith, h, l))
      | inr h ↦ rw h (decode_entry-store_at (slot n) e s known a b)
    ]

    there :
        (k : ℕ)
        → k ≢ n
        → (if leb 4 k then no_entry else decode_entry (store_at (slot n) e s) (slot k))
          ≡ (if leb 4 k then no_entry else decode_entry s (slot k))
    there k other =
        ap (λ (x : Entry). if leb 4 k then no_entry else x)
          (decode_entry-same (store_at (slot n) e s) s (slot k) (λ i x y.
            store_at-elsewhere (slot n) e s i (elim (Bool-cases (ltb k n)) [
              | inl h ↦ inl (ground (arith, h, y))
              | inr h ↦ inr (ground (arith, h, other, x))
            ])))
