-- ===== src/Files/LongName/Tests.antt =====
-- A name of 15 characters before the entry of its file.
use palmyra_os.Prelude.{
  ℕ, ◌+◌, ◌*◌, Bool, ◌&&◌, ◌||◌, ltb, Bool-cases, inl, inr, ◌≡◌, refl, ap, ◌∙◌, true, some, List,
  [], ◌∷◌, ◌++◌, length, take, replicate, arith, leb, if◌then◌else◌, if-true,
}
use palmyra_os.Files.LongName.{
  calculate_short_name_checksum, create_lfn_entries, entries_from, to_utf16, follow, count_entries,
  utf16le_to_utf8, read_from, nothing_gathered, get_directory_entries,
}
use palmyra_os.Files.LongName.Utf8.{IsBasic, AllBasic, utf8}
use palmyra_os.Files.LongName.RoundTrip.{
  IsIncreasing, IsShortEntry, get_directory_entries-create_lfn_entries,
}

abbrev insert : ℕ × List ℕ → List (ℕ × List ℕ) → List (ℕ × List ℕ)
insert p [] = p ∷ []
insert p (q ∷ ps) = if leb p.0 q.0 then p ∷ q ∷ ps else q ∷ insert p ps

abbrev insertion_sort : List (ℕ × List ℕ) → List (ℕ × List ℕ)
insertion_sort [] = []
insertion_sort (p ∷ ps) = insert p (insertion_sort ps)

insertion_sort-IsIncreasing : (ps : List (ℕ × List ℕ)) → IsIncreasing ps → insertion_sort ps ≡ ps
insertion_sort-IsIncreasing [] h = refl
insertion_sort-IsIncreasing (p ∷ []) h = refl
insertion_sort-IsIncreasing (p ∷ q ∷ ps) h =
    ap (insert p) (insertion_sort-IsIncreasing (q ∷ ps) h.1)
    ∙ if-true (p ∷ q ∷ ps) _ (let e : leb p.0 q.0 ≡ true = ground (arith, h.0) in e)

-- "LONGFI~1TXT", an archive
abbrev file : List ℕ
file = 76 ∷ 79 ∷ 78 ∷ 71 ∷ 70 ∷ 73 ∷ 126 ∷ 49 ∷ 84 ∷ 88 ∷ 84 ∷ 0x20 ∷ replicate 20 0

file-IsShortEntry : IsShortEntry file
file-IsShortEntry = record {
  is_there = omega arith;
  not_deleted = omega arith;
  not_long = omega arith;
}

-- "größe 3 €.txt.b": characters of one, two and three bytes
abbrev name : List ℕ
name = 103 ∷ 114 ∷ 0xF6 ∷ 0xDF ∷ 101 ∷ 32 ∷ 51 ∷ 32 ∷ 0x20AC ∷ 46 ∷ 116 ∷ 120 ∷ 116 ∷ 46 ∷ 98 ∷ []

abbrev is_basic : ℕ → Bool
is_basic u = ltb 0 u && ltb u 0xFFFF && (ltb u 0xD800 || ltb 0xDFFF u)

abbrev all_basic : List ℕ → Bool
all_basic [] = true
all_basic (u ∷ us) = is_basic u && all_basic us

is_basic-IsBasic : (u : ℕ) → is_basic u ≡ true → IsBasic u
is_basic-IsBasic u h = ground (arith, h)

all_basic-AllBasic : (us : List ℕ) → all_basic us ≡ true → AllBasic us
all_basic-AllBasic [] h = tt
all_basic-AllBasic (u ∷ us) h = elim (Bool-cases (is_basic u)) [
  | inl t ↦ (is_basic-IsBasic u t, all_basic-AllBasic us (ground (arith, t, h)))
  | inr f ↦ absurd (ground (arith, f, h))
]

two_entries : length (create_lfn_entries (utf8 name) 0) ≡ 2
unfolding create_lfn_entries entries_from to_utf16 follow
two_entries = refl

-- U+1F600 is written as two units, each of which is read as a character of three bytes.
beyond :
    utf16le_to_utf8 (to_utf16 4 (0xF0 ∷ 0x9F ∷ 0x98 ∷ 0x80 ∷ []))
    ≡ 0xED ∷ 0xA0 ∷ 0xBD ∷ 0xED ∷ 0xB8 ∷ 0x80 ∷ []
unfolding to_utf16 follow utf16le_to_utf8
beyond = refl

long_name_example :
    get_directory_entries insertion_sort
      (create_lfn_entries (utf8 name) (calculate_short_name_checksum (take 11 file)) ++ (file ∷ []))
    ≡ record { offset = 32 * count_entries name; long_name = some (utf8 name); dentry = file }
      ∷ read_from insertion_sort (32 * count_entries name + 32) nothing_gathered []
long_name_example =
    get_directory_entries-create_lfn_entries insertion_sort insertion_sort-IsIncreasing file
      file-IsShortEntry name [] (all_basic-AllBasic name refl) (omega arith) (omega arith)
