-- ===== src/Files/LongName/Parts.antt =====
-- The parts of a name: what an entry holds of it, and their sum.
use palmyra_os.Prelude.{
  ℕ, zero, suc, ◌+◌, ◌*◌, ◌^◌, ◌≤◌, ◌<◌, ◌≡◌, refl, ap, ap₂, sym, ◌∙◌, Bool, true, false, List, [],
  ◌∷◌, ◌++◌, length, get_or, take, drop, arith, ◌==◌, if-false,
}
use palmyra_os.Files.LongName.{low, high, values, entry_bytes, without, units_of, part_of, join}

-- Units that a name may have: neither 0 nor the padding
abbrev pub AllUnits : List ℕ → Type 0
AllUnits [] = Unit
AllUnits (u ∷ us) = ((0 < u) × (u < 0xFFFF)) × AllUnits us

pub AllUnits-drop : (n : ℕ) (us : List ℕ) → AllUnits us → AllUnits (drop n us)
AllUnits-drop zero us a = a
AllUnits-drop (suc n) [] a = tt
AllUnits-drop (suc n) (u ∷ us) a = AllUnits-drop n us a.1

-- A value is read as it was written.
abbrev word : ℕ → ℕ
word v = low v + 2 ^ 8 * high v

word_lem : (v : ℕ) → v < 2 ^ 16 → word v ≡ v
word_lem v h = omega arith

abbrev words : List ℕ → List ℕ
words [] = []
words (v ∷ vs) = word v ∷ words vs

words-values :
    (k : ℕ) (us : List ℕ) (t : Bool) → AllUnits us → words (values k us t) ≡ values k us t
unfolding values
words-values zero us t a = refl
words-values (suc k) (u ∷ us) t a =
    ap₂ (λ x y. x ∷ y) (word_lem u (omega (arith, a.0.1))) (words-values k us t a.1)
words-values (suc k) [] false a = ap (λ y. 0 ∷ y) (words-values k [] true a)
words-values (suc k) [] true a = ap (λ y. 0xFFFF ∷ y) (words-values k [] true a)

take_nil : (k : ℕ) → take {A = ℕ} k [] ≡ []
take_nil zero = refl
take_nil (suc k) = refl

-- Without the end of the name and the padding, the values are the units.
trimmed :
    (k : ℕ) (us : List ℕ) (t : Bool)
    → AllUnits us
    → without 0 (without 0xFFFF (values k us t)) ≡ take k us
unfolding values
trimmed zero us t a = refl
trimmed (suc k) (u ∷ us) t a =
    let e : (u == 0xFFFF) ≡ false = ground (arith, a.0.1) in
    let z : (u == 0) ≡ false = ground (arith, a.0.0) in
    ap (without 0)
      (if-false (without 0xFFFF (values k us t)) (u ∷ without 0xFFFF (values k us t)) e)
    ∙ if-false (without 0 (without 0xFFFF (values k us t)))
        (u ∷ without 0 (without 0xFFFF (values k us t))) z
    ∙ ap (λ y. u ∷ y) (trimmed k us t a.1)
trimmed (suc k) [] false a = trimmed k [] true a ∙ take_nil k
trimmed (suc k) [] true a = trimmed k [] true a ∙ take_nil k

-- A property of all lists of `k` numbers, number by number
abbrev ForLists : ℕ → (List ℕ → Type 0) → Type 0
ForLists zero P = P []
ForLists (suc k) P = (v : ℕ) → ForLists k (λ vs. P (v ∷ vs))

for_values :
    (k : ℕ) (us : List ℕ) (t : Bool) (P : List ℕ → Type 0) → ForLists k P → P (values k us t)
unfolding values
for_values zero us t P h = h
for_values (suc k) (u ∷ us) t P h = for_values k us t (λ vs. P (u ∷ vs)) (h u)
for_values (suc k) [] false P h = for_values k [] true (λ vs. P (0 ∷ vs)) (h 0)
for_values (suc k) [] true P h = for_values k [] true (λ vs. P (0xFFFF ∷ vs)) (h 0xFFFF)

units_of-entry_bytes :
    (order checksum : ℕ) (us : List ℕ)
    → units_of (entry_bytes order checksum (values 13 us false)) ≡ words (values 13 us false)
units_of-entry_bytes order checksum us =
    for_values 13 us false (λ vs. units_of (entry_bytes order checksum vs) ≡ words vs)
      (λ a b c d e f g h i j k l m. refl)

pub part_of-entry_bytes :
    (order checksum : ℕ) (us : List ℕ)
    → AllUnits us
    → part_of (entry_bytes order checksum (values 13 us false)) ≡ take 13 us
part_of-entry_bytes order checksum us a =
    ap (λ vs. without 0 (without 0xFFFF vs))
      (units_of-entry_bytes order checksum us ∙ words-values 13 us false a)
    ∙ trimmed 13 us false a

-- The fields of an entry that are not its values
pub entry_fields :
    (order checksum : ℕ) (us : List ℕ)
    → let e = entry_bytes order checksum (values 13 us false) in
      (get_or e 0 0 ≡ order) × (get_or e 11 0 ≡ 0x0F) × (get_or e 13 0 ≡ checksum)
entry_fields order checksum us =
    for_values 13 us false
      (λ vs.
        let e = entry_bytes order checksum vs in
        (get_or e 0 0 ≡ order) × (get_or e 11 0 ≡ 0x0F) × (get_or e 13 0 ≡ checksum))
      (λ a b c d e f g h i j k l m. (refl, refl, refl))

-- The parts from number `k` on, `m` of them, in order
abbrev pub parts : List ℕ → ℕ → ℕ → List (ℕ × List ℕ)
parts us k zero = []
parts us k (suc m) = (suc k, take 13 (drop (k * 13) us)) ∷ parts us (suc k) m

take-drop : (n : ℕ) (us : List ℕ) → take n us ++ drop n us ≡ us
take-drop zero us = refl
take-drop (suc n) [] = refl
take-drop (suc n) (u ∷ us) = ap (λ y. u ∷ y) (take-drop n us)

drop_nil : (k : ℕ) → drop {A = ℕ} k [] ≡ []
drop_nil zero = refl
drop_nil (suc k) = refl

drop-drop : (a b : ℕ) (us : List ℕ) → drop a (drop b us) ≡ drop (b + a) us
drop-drop a zero us = ap (λ x. drop x us) (omega arith)
drop-drop a (suc b) [] = drop_nil a ∙ sym (drop_nil (suc b + a))
drop-drop a (suc b) (u ∷ us) =
    drop-drop a b us
    ∙ ap (λ x. drop x (u ∷ us)) (let e : suc (b + a) ≡ suc b + a = omega arith in e)

drop-all : (n : ℕ) (us : List ℕ) → length us ≤ n → drop n us ≡ []
drop-all zero [] h = refl
drop-all zero (u ∷ us) h = absurd (omega arith)
drop-all (suc n) [] h = refl
drop-all (suc n) (u ∷ us) h = drop-all n us (omega arith)

pub join-parts :
    (us : List ℕ) (k m : ℕ) → length us ≤ (k + m) * 13 → join (parts us k m) ≡ drop (k * 13) us
join-parts us k zero h = sym (drop-all (k * 13) us (omega arith))
join-parts us k (suc m) h =
    ap (λ y. take 13 (drop (k * 13) us) ++ y)
      (join-parts us (suc k) m (omega arith)
        ∙ ap (λ x. drop x us) (let e : suc k * 13 ≡ k * 13 + 13 = omega arith in e)
        ∙ sym (drop-drop 13 (k * 13) us))
    ∙ take-drop 13 (drop (k * 13) us)
