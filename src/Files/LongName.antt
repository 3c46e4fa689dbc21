-- ===== src/Files/LongName.antt =====
-- Long names in the directories of core/files/partitions/Fat32.cpp: how createLFNEntries writes
-- a name into entries of 32 bytes, and how getDirectoryEntries reads the entries of a
-- directory; and the conversion to UTF-8 of core/encodings.cpp. A directory is the list of its
-- entries of 32 bytes; the cluster it starts in, which each entry also notes, is left out.
-- `sort` is std::sort by the order of the parts.
pub mod Utf8
pub mod Parts
pub mod RoundTrip
mod Tests
use palmyra_os.Prelude.{
  ℕ, zero, suc, ◌+◌, ◌-◌, ◌*◌, ◌/◌, ◌%◌, ◌^◌, bit_or, Bool, true, false, ◌&&◌, ◌||◌, Option, none,
  some, List, [], ◌∷◌, ◌++◌, length, get_or, take, drop, ltb, leb, ◌==◌, if◌then◌else◌,
}

-- The checksum of a short name, over `n` of its bytes
pub checksum_from : ℕ → List ℕ → ℕ → ℕ
checksum_from zero name sum = sum
checksum_from (suc n) [] sum = sum
checksum_from (suc n) (b ∷ bs) sum =
    checksum_from n bs (((if sum % 2 == 1 then 0x80 else 0) + sum / 2 + b) % 2 ^ 8)

pub calculate_short_name_checksum : List ℕ → ℕ
calculate_short_name_checksum name = checksum_from 11 name 0

-- What a UTF-8 sequence starts with: the bits of the first byte, and how many bytes follow
pub data Lead : Type 0 where
  lead : ℕ → ℕ → Lead
  no_lead : Lead

abbrev pub lead_of : ℕ → Lead
lead_of b =
    if leb b 0x7F
    then lead b 0
    else if b / 2 ^ 5 == 6
    then lead (b % 2 ^ 5) 1
    else if b / 2 ^ 4 == 14
    then lead (b % 2 ^ 4) 2
    else if b / 2 ^ 3 == 30
    then lead (b % 2 ^ 3) 3
    else no_lead

-- The code point with the bytes that follow, and how far a wrong byte moves the index on
pub follow : ℕ → ℕ → ℕ → List ℕ → ℕ × ℕ
follow zero j codepoint bs = (codepoint, 0)
follow (suc n) j codepoint [] = (codepoint, 0)
follow (suc n) j codepoint (b ∷ bs) =
    if b / 2 ^ 6 == 2 then follow n (j + 1) (codepoint * 2 ^ 6 + b % 2 ^ 6) bs else (codepoint, j)

abbrev pub push_units : ℕ → List ℕ
push_units codepoint =
    if leb codepoint 0xFFFF
    then (if leb 0xD800 codepoint && leb codepoint 0xDFFF then [] else codepoint ∷ [])
    else if leb codepoint 0x10FFFF
    then (0xD800 + (codepoint - 0x10000) / 2 ^ 10 % 2 ^ 10)
      ∷ (0xDC00 + (codepoint - 0x10000) % 2 ^ 10)
      ∷ []
    else []

-- The conversion of a name to UTF-16; each round takes at least a byte.
pub to_utf16 : ℕ → List ℕ → List ℕ
to_utf16 zero name = []
to_utf16 (suc n) [] = []
to_utf16 (suc n) (b ∷ bs) = elim (lead_of b) [
  | no_lead ↦ to_utf16 n bs
  | lead bits extra ↦ elim (ltb (length bs) extra) [
    | true ↦ []
    | false ↦
        let (codepoint, moved) = follow extra 1 bits bs in
        push_units codepoint ++ to_utf16 n (drop (moved + extra) bs)
  ]
]

abbrev pub low : ℕ → ℕ
low v = v % 2 ^ 8

abbrev pub high : ℕ → ℕ
high v = v / 2 ^ 8 % 2 ^ 8

-- The `k` values of an entry from what is left of the name; the flag is `terminated`.
pub values : ℕ → List ℕ → Bool → List ℕ
values zero us terminated = []
values (suc k) (u ∷ us) terminated = u ∷ values k us terminated
values (suc k) [] false = 0 ∷ values k [] true
values (suc k) [] true = 0xFFFF ∷ values k [] true

abbrev pub unit_bytes : List ℕ → List ℕ
unit_bytes [] = []
unit_bytes (v ∷ vs) = low v ∷ high v ∷ unit_bytes vs

-- An entry of 13 values
abbrev pub entry_bytes : ℕ → ℕ → List ℕ → List ℕ
entry_bytes order checksum vs =
    order ∷ unit_bytes (take 5 vs)
    ++ (0x0F ∷ 0x00 ∷ checksum ∷ unit_bytes (take 6 (drop 5 vs))
        ++ (0x00 ∷ 0x00 ∷ unit_bytes (take 2 (drop 11 vs))))

-- The sequence number of an entry, of `n` in all, with `m` from it to the end
abbrev pub sequence_number : ℕ → ℕ → ℕ
sequence_number n m = if m == n then bit_or 0x40 (m % 2 ^ 8) else m % 2 ^ 8

-- The last `m` of the `n` entries: the parts of the name from its part `m` down to the first
pub entries_from : ℕ → ℕ → ℕ → List ℕ → List (List ℕ)
entries_from zero n checksum us = []
entries_from (suc m) n checksum us =
    entry_bytes (sequence_number n (suc m)) checksum (values 13 (drop (m * 13) us) false)
    ∷ entries_from m n checksum us

abbrev pub count_entries : List ℕ → ℕ
count_entries us = (length us + 12) / 13

pub create_lfn_entries : List ℕ → ℕ → List (List ℕ)
create_lfn_entries long_name checksum =
    let us = to_utf16 (length long_name) long_name in
    entries_from (count_entries us) (count_entries us) checksum us

-- Reading

abbrev pub without : ℕ → List ℕ → List ℕ
without v [] = []
without v (u ∷ us) = if u == v then without v us else u ∷ without v us

-- The 16-bit number at a byte
abbrev pub unit_at : List ℕ → ℕ → ℕ
unit_at e j = get_or e j 0 + 2 ^ 8 * get_or e (1 + j) 0

abbrev pub units_of : List ℕ → List ℕ
units_of e =
    unit_at e 1
    ∷ unit_at e 3
    ∷ unit_at e 5
    ∷ unit_at e 7
    ∷ unit_at e 9
    ∷ unit_at e 14
    ∷ unit_at e 16
    ∷ unit_at e 18
    ∷ unit_at e 20
    ∷ unit_at e 22
    ∷ unit_at e 24
    ∷ unit_at e 28
    ∷ unit_at e 30
    ∷ []

abbrev pub part_of : List ℕ → List ℕ
part_of e = without 0 (without 0xFFFF (units_of e))

-- The parts gathered so far, with their orders, and their checksum
pub record Gathered : Type 0 where
  pub long_name_parts : List (ℕ × List ℕ)
  pub lfn_checksum : ℕ

abbrev pub nothing_gathered : Gathered
nothing_gathered = record { long_name_parts = []; lfn_checksum = 0 }

-- What a 16-bit unit is in UTF-8
abbrev pub utf8_bytes : ℕ → List ℕ
utf8_bytes u =
    if ltb u 0x80
    then u ∷ []
    else if ltb u 0x800
    then bit_or 0xC0 (u / 2 ^ 6) ∷ bit_or 0x80 (u % 2 ^ 6) ∷ []
    else bit_or 0xE0 (u / 2 ^ 12) ∷ bit_or 0x80 (u / 2 ^ 6 % 2 ^ 6) ∷ bit_or 0x80 (u % 2 ^ 6) ∷ []

-- The conversion of 16-bit units one by one, also of those that stand for a code point in pairs
pub utf16le_to_utf8 : List ℕ → List ℕ
utf16le_to_utf8 [] = []
utf16le_to_utf8 (u ∷ us) = utf8_bytes u ++ utf16le_to_utf8 us

-- An entry of the directory: its offset in bytes, its long name if it has one, and its bytes
pub record Entry : Type 0 where
  pub offset : ℕ
  pub long_name : Option (List ℕ)
  pub dentry : List ℕ

abbrev pub join : List (ℕ × List ℕ) → List ℕ
join [] = []
join ((o, us) ∷ ps) = us ++ join ps

abbrev pub long_name_of :
    (List (ℕ × List ℕ) → List (ℕ × List ℕ)) → Gathered → List ℕ → Option (List ℕ)
long_name_of sort g e = elim g.long_name_parts [
  | [] ↦ none
  | p ∷ ps ↦
      if g.lfn_checksum == calculate_short_name_checksum (take 11 e)
      then some (utf16le_to_utf8 (join (sort (p ∷ ps))))
      else none
]

pub data Step : Type 0 where
  end_of_directory : Step
  next_entry : Gathered → Step
  an_entry : Option (List ℕ) → Step

pub read_step : (List (ℕ × List ℕ) → List (ℕ × List ℕ)) → Gathered → List ℕ → Step
read_step sort g e =
    if get_or e 0 0 == 0x00
    then end_of_directory
    else if get_or e 0 0 == 0xE5
    then next_entry nothing_gathered
    else if get_or e 11 0 % 2 ^ 6 == 0x0F
    then next_entry (record {
      long_name_parts = (get_or e 0 0 % 2 ^ 5, part_of e) ∷ g.long_name_parts;
      lfn_checksum = get_or e 13 0;
    })
    else an_entry (long_name_of sort g e)

-- The loop over the entries; `i` is the offset of the first.
pub read_from : (List (ℕ × List ℕ) → List (ℕ × List ℕ)) → ℕ → Gathered → List (List ℕ) → List Entry
read_from sort i g [] = []
read_from sort i g (e ∷ es) = elim (read_step sort g e) [
  | end_of_directory ↦ []
  | next_entry g' ↦ read_from sort (i + 32) g' es
  | an_entry name ↦
      record { offset = i; long_name = name; dentry = e }
      ∷ read_from sort (i + 32) nothing_gathered es
]

pub get_directory_entries : (List (ℕ × List ℕ) → List (ℕ × List ℕ)) → List (List ℕ) → List Entry
get_directory_entries sort es = read_from sort 0 nothing_gathered es
