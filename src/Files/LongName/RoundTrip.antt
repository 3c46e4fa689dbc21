-- ===== src/Files/LongName/RoundTrip.antt =====
-- A long name that createLFNEntries writes is the one that getDirectoryEntries reads.
use palmyra_os.Prelude.{
  ℕ, zero, suc, ◌+◌, ◌-◌, ◌*◌, ◌%◌, ◌^◌, bit_or, ◌≤◌, ◌<◌, ◌≡◌, ◌≢◌, refl, ap, ◌∙◌, true, false,
  some, List, [], ◌∷◌, ◌++◌, length, get_or, take, drop, arith, ◌==◌, if-true, if-false, ne→==,
}
use palmyra_os.Prelude.Bits.{bit_or_low}
use palmyra_os.Files.LongName.{
  calculate_short_name_checksum, values, entry_bytes, sequence_number, entries_from, count_entries,
  create_lfn_entries, part_of, Gathered, nothing_gathered, join, utf16le_to_utf8, long_name_of,
  next_entry, an_entry, read_step, read_from, get_directory_entries,
}
use palmyra_os.Files.LongName.Utf8.{AllBasic, utf8, utf16le_to_utf8-utf8, to_utf16-utf8}
use palmyra_os.Files.LongName.Parts.{
  AllUnits, AllUnits-drop, part_of-entry_bytes, entry_fields, parts, join-parts,
}

AllUnits-AllBasic : (us : List ℕ) → AllBasic us → AllUnits us
AllUnits-AllBasic [] a = tt
AllUnits-AllBasic (u ∷ us) a = ((a.0.0, a.0.1), AllUnits-AllBasic us a.1)

sequence_number_lem :
    (n m : ℕ)
    → 0 < m
    → m ≤ n
    → n < 32
    → (sequence_number n m % 2 ^ 5 ≡ m) × (sequence_number n m ≢ 0) × (sequence_number n m ≢ 0xE5)
sequence_number_lem n m pos le few =
    let with_flag : bit_or 0x40 (m % 2 ^ 8) ≡ 0x40 + m =
      ap (bit_or 0x40) (let e : m % 2 ^ 8 ≡ m = omega arith in e)
      ∙ bit_or_low 6 1 m (omega arith) in
    ground (arith, with_flag)

module _ (sort : List (ℕ × List ℕ) → List (ℕ × List ℕ)) (us : List ℕ) (all : AllUnits us)
    (checksum n : ℕ) (few : n < 32) where
  abbrev gathered : ℕ → ℕ → Gathered
  gathered m sum = record { long_name_parts = parts us m (n - m); lfn_checksum = sum }

  -- An entry is gathered in front of those behind it.
  gather_one :
      (m sum : ℕ)
      → suc m ≤ n
      → read_step sort
          (gathered (suc m) sum)
          (entry_bytes (sequence_number n (suc m)) checksum (values 13 (drop (m * 13) us) false))
        ≡ next_entry (gathered m checksum)
  unfolding read_step
  gather_one m sum le =
      let ds = drop (m * 13) us in
      let order = sequence_number n (suc m) in
      let e = entry_bytes order checksum (values 13 ds false) in
      let f = entry_fields order checksum ds in
      let o = sequence_number_lem n (suc m) (omega arith) le few in
      let is_there : (get_or e 0 0 == 0x00) ≡ false = ap (λ x. x == 0x00) f.0 ∙ ne→== _ _ o.1 in
      let not_deleted : (get_or e 0 0 == 0xE5) ≡ false = ap (λ x. x == 0xE5) f.0 ∙ ne→== _ _ o.2 in
      let is_long : (get_or e 11 0 % 2 ^ 6 == 0x0F) ≡ true = ap (λ x. x % 2 ^ 6 == 0x0F) f.1 in
      let made = λ (x : ℕ) (y : List ℕ) (z : ℕ).
        next_entry
          (record { long_name_parts = (x, y) ∷ parts us (suc m) (n - suc m); lfn_checksum = z }) in
      if-false _ _ is_there
      ∙ if-false _ _ not_deleted
      ∙ if-true _ _ is_long
      ∙ ap (λ x. made x (part_of e) (get_or e 13 0)) (ap (λ x. x % 2 ^ 5) f.0 ∙ o.0)
      ∙ ap (λ y. made (suc m) y (get_or e 13 0))
          (part_of-entry_bytes order checksum ds (AllUnits-drop (m * 13) us all))
      ∙ ap (λ z. made (suc m) (take 13 ds) z) f.2
      ∙ ap (λ k. next_entry (record { long_name_parts = parts us m k; lfn_checksum = checksum }))
          (let s : suc (n - suc m) ≡ n - m = omega arith in s)

  gather_first :
      (m i sum : ℕ) (rest : List (List ℕ))
      → suc m ≤ n
      → read_from sort i (gathered (suc m) sum) (entries_from (suc m) n checksum us ++ rest)
        ≡ read_from sort (i + 32) (gathered m checksum) (entries_from m n checksum us ++ rest)
  unfolding read_from entries_from
  gather_first m i sum rest le = rw (gather_one m sum le, read_from) refl

  gather :
      (m i : ℕ) (rest : List (List ℕ))
      → m ≤ n
      → read_from sort i (gathered m checksum) (entries_from m n checksum us ++ rest)
        ≡ read_from sort (i + 32 * m) (gathered 0 checksum) rest
  unfolding entries_from
  gather zero i rest le = ap (λ x. read_from sort x (gathered 0 checksum) rest) (omega arith)
  gather (suc m) i rest le =
      gather_first m i checksum rest le
      ∙ gather m (i + 32) rest (omega arith)
      ∙ ap (λ x. read_from sort x (gathered 0 checksum) rest) (omega arith)

-- The orders grow along the parts.
abbrev pub IsIncreasing : List (ℕ × List ℕ) → Type 0
IsIncreasing [] = Unit
IsIncreasing (p ∷ []) = Unit
IsIncreasing (p ∷ q ∷ ps) = (p.0 < q.0) × IsIncreasing (q ∷ ps)

parts-IsIncreasing : (us : List ℕ) (k m : ℕ) → IsIncreasing (parts us k m)
parts-IsIncreasing us k zero = tt
parts-IsIncreasing us k (suc zero) = tt
parts-IsIncreasing us k (suc (suc m)) = (omega arith, parts-IsIncreasing us (suc k) (suc m))

-- The entry of a file: not the end of the directory, not deleted, and not a part of a name
pub record IsShortEntry (d : List ℕ) : Type 0 where
  pub is_there : get_or d 0 0 ≢ 0x00
  pub not_deleted : get_or d 0 0 ≢ 0xE5
  pub not_long : get_or d 11 0 % 2 ^ 6 ≢ 0x0F

module _ (sort : List (ℕ × List ℕ) → List (ℕ × List ℕ))
    (sort-IsIncreasing : (ps : List (ℕ × List ℕ)) → IsIncreasing ps → sort ps ≡ ps) (d : List ℕ)
    (short : IsShortEntry d) where
  read_step_short : (g : Gathered) → read_step sort g d ≡ an_entry (long_name_of sort g d)
  unfolding read_step
  read_step_short g =
      if-false _ _ (ne→== _ _ short.is_there)
      ∙ if-false _ _ (ne→== _ _ short.not_deleted)
      ∙ if-false _ _ (ne→== _ _ short.not_long)

  -- The long name from the parts of a name
  long_name_of-parts :
      (us : List ℕ) (m : ℕ)
      → length us ≤ suc m * 13
      → long_name_of sort
          (record {
            long_name_parts = parts us 0 (suc m);
            lfn_checksum = calculate_short_name_checksum (take 11 d);
          })
          d
        ≡ some (utf16le_to_utf8 us)
  long_name_of-parts us m few =
      if-true _ _ (
        let e : (calculate_short_name_checksum (take 11 d)
              == calculate_short_name_checksum (take 11 d))
            ≡ true =
          ground arith in
        e)
      ∙ ap (λ ps. some (utf16le_to_utf8 (join ps)))
          (sort-IsIncreasing (parts us 0 (suc m)) (parts-IsIncreasing us 0 (suc m)))
      ∙ ap (λ x. some (utf16le_to_utf8 x)) (join-parts us 0 (suc m) (omega arith))

  read_short :
      (i : ℕ) (g : Gathered) (name : List ℕ) (es : List (List ℕ))
      → long_name_of sort g d ≡ some name
      → read_from sort i g (d ∷ es)
        ≡ record { offset = i; long_name = some name; dentry = d }
          ∷ read_from sort (i + 32) nothing_gathered es
  unfolding read_from
  read_short i g name es e = rw (read_step_short g, read_from) (rw e refl)

  read_all :
      (n : ℕ) (us : List ℕ) (es : List (List ℕ))
      → AllUnits us
      → 0 < n
      → n < 32
      → length us ≤ n * 13
      → read_from sort 0 nothing_gathered
          (entries_from n n (calculate_short_name_checksum (take 11 d)) us ++ (d ∷ es))
        ≡ record { offset = 32 * n; long_name = some (utf16le_to_utf8 us); dentry = d }
          ∷ read_from sort (32 * n + 32) nothing_gathered es
  read_all zero us es a pos few l = absurd (omega arith)
  read_all (suc m) us es a pos few l =
      let c = calculate_short_name_checksum (take 11 d) in
      let rest = d ∷ es in
      ap
        (λ k.
          read_from sort 0 (record { long_name_parts = parts us (suc m) k; lfn_checksum = 0 })
            (entries_from (suc m) (suc m) c us ++ rest))
        (let e : 0 ≡ suc m - suc m = omega arith in e)
      ∙ gather_first sort us a c (suc m) few m 0 0 rest (omega arith)
      ∙ gather sort us a c (suc m) few m (0 + 32) rest (omega arith)
      ∙ ap
          (λ k.
            read_from sort (0 + 32 + 32 * m)
              (record { long_name_parts = parts us 0 k; lfn_checksum = c }) rest)
          (let e : suc m - 0 ≡ suc m = omega arith in e)
      ∙ read_short (0 + 32 + 32 * m) _ _ es (long_name_of-parts us m l)
      ∙ ap
          (λ k.
            record { offset = k; long_name = some (utf16le_to_utf8 us); dentry = d }
            ∷ read_from sort (k + 32) nothing_gathered es)
          (let e : 0 + 32 + 32 * m ≡ 32 * suc m = omega arith in e)

  -- A name in UTF-8, of 1 to 403 code points below 65535 that are neither null nor surrogates,
  -- which createLFNEntries writes before the entry of its file is the long name that
  -- getDirectoryEntries answers with that entry, at the offset behind the parts, whatever
  -- follows. Sorting leaves parts that are in order as they are, and the entry is not deleted,
  -- not the directory's end and not marked as part of a long name.
  pub get_directory_entries-create_lfn_entries :
      (us : List ℕ) (es : List (List ℕ))
      → AllBasic us
      → 0 < length us
      → length us ≤ 31 * 13
      → get_directory_entries sort
          (create_lfn_entries (utf8 us) (calculate_short_name_checksum (take 11 d)) ++ (d ∷ es))
        ≡ record { offset = 32 * count_entries us; long_name = some (utf8 us); dentry = d }
          ∷ read_from sort (32 * count_entries us + 32) nothing_gathered es
  unfolding get_directory_entries create_lfn_entries
  get_directory_entries-create_lfn_entries us es a pos few =
      let c = calculate_short_name_checksum (take 11 d) in
      let n = count_entries us in
      ap
        (λ vs.
          read_from sort 0 nothing_gathered
            (entries_from (count_entries vs) (count_entries vs) c vs ++ (d ∷ es)))
        (to_utf16-utf8 us a)
      ∙ read_all n us es (AllUnits-AllBasic us a) (omega arith) (omega arith) (omega arith)
      ∙ ap
          (λ x.
            record { offset = 32 * n; long_name = some x; dentry = d }
            ∷ read_from sort (32 * n + 32) nothing_gathered es)
          (utf16le_to_utf8-utf8 us a)
