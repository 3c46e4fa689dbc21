-- ===== src/Files/LongName/Utf8.antt =====
-- Names in UTF-8: what `createLFNEntries` takes for one, and what `utf16le_to_utf8` makes of the
-- 16-bit units.
use palmyra_os.Prelude.{
  ℕ, zero, suc, ◌+◌, ◌*◌, ◌/◌, ◌%◌, ◌^◌, bit_or, ◌≤◌, ◌<◌, ◌≡◌, ◌⊎◌, inl, inr, refl, ap, ap₂, ◌∙◌,
  true, false, ◌&&◌, List, [], ◌∷◌, ◌++◌, length, drop, arith, ltb, leb, ◌==◌, if◌then◌else◌,
  if-true, if-false, Bool-cases,
}
use palmyra_os.Prelude.Bits.{bit_or_low}
use palmyra_os.Files.LongName.{
  lead, lead_of, push_units, follow, to_utf16, utf8_bytes, utf16le_to_utf8,
}

-- The code points 1 to 65534 but for the surrogates, which stand for no character.
abbrev pub IsBasic : ℕ → Type 0
IsBasic u = (0 < u) × (u < 0xFFFF) × ((u < 0xD800) ⊎ (0xDFFF < u))

abbrev pub AllBasic : List ℕ → Type 0
AllBasic [] = Unit
AllBasic (u ∷ us) = IsBasic u × AllBasic us

-- The UTF-8 encoding of a code point of 16 bits: 7 bits in a byte, 5 and 6 in two bytes, or 4, 6
-- and 6 in three
abbrev pub utf8_of : ℕ → List ℕ
utf8_of u =
    if ltb u 0x80
    then u ∷ []
    else if ltb u 0x800
    then (0xC0 + u / 64) ∷ (0x80 + u % 64) ∷ []
    else (0xE0 + u / 4096) ∷ (0x80 + u / 64 % 64) ∷ (0x80 + u % 64) ∷ []

abbrev pub utf8 : List ℕ → List ℕ
utf8 [] = []
utf8 (u ∷ us) = utf8_of u ++ utf8 us

second_byte : (r : ℕ) → r < 64 → bit_or 0x80 r ≡ 0x80 + r
second_byte r h = bit_or_low 6 2 r h

utf8_bytes-utf8_of : (u : ℕ) → u < 2 ^ 16 → utf8_bytes u ≡ utf8_of u
utf8_bytes-utf8_of u h = elim (Bool-cases (ltb u 0x80)) [
  | inl one ↦ if-true _ _ one ∙ rw one refl
  | inr more ↦ elim (Bool-cases (ltb u 0x800)) [
    | inl two ↦ rw more (
        rw two (
          ap₂ (λ x y. x ∷ y ∷ []) (bit_or_low 6 3 (u / 2 ^ 6) (ground (arith, two)))
            (second_byte (u % 2 ^ 6) (omega arith))))
    | inr three ↦ rw more (
        rw three (
          ap₂ (λ x ys. x ∷ ys) (bit_or_low 5 7 (u / 2 ^ 12) (omega (arith, h)))
            (ap₂ (λ x y. x ∷ y ∷ []) (second_byte (u / 2 ^ 6 % 2 ^ 6) (omega arith))
              (second_byte (u % 2 ^ 6) (omega arith)))))
  ]
]

pub utf16le_to_utf8-utf8 : (us : List ℕ) → AllBasic us → utf16le_to_utf8 us ≡ utf8 us
unfolding utf16le_to_utf8
utf16le_to_utf8-utf8 [] a = refl
utf16le_to_utf8-utf8 (u ∷ us) a =
    ap₂ (λ x y. x ++ y) (utf8_bytes-utf8_of u (omega (arith, a.0))) (utf16le_to_utf8-utf8 us a.1)

push_units-IsBasic : (u : ℕ) → IsBasic u → push_units u ≡ u ∷ []
push_units-IsBasic u h =
    let small : leb u 0xFFFF ≡ true = ground (arith, h) in
    let no_surrogate : (leb 0xD800 u && leb u 0xDFFF) ≡ false = ground (arith, h) in
    if-true _ _ small ∙ if-false [] (u ∷ []) no_surrogate

-- A round of the conversion whose first byte starts `extra` more
to_utf16-lead :
    (n b bits extra u : ℕ) (bs rest : List ℕ)
    → lead_of b ≡ lead bits extra
    → ltb (length bs) extra ≡ false
    → follow extra 1 bits bs ≡ (u, 0)
    → drop (0 + extra) bs ≡ rest
    → IsBasic u
    → to_utf16 (suc n) (b ∷ bs) ≡ u ∷ to_utf16 n rest
unfolding to_utf16
to_utf16-lead n b bits extra u bs rest first there code behind basic =
    rw (first, to_utf16)
      (rw there
        (rw code (ap₂ (λ x y. x ++ y) (push_units-IsBasic u basic) (ap (to_utf16 n) behind))))

lead_of-two : (u : ℕ) → ltb u 0x800 ≡ true → lead_of (0xC0 + u / 64) ≡ lead (u / 64) 1
lead_of-two u h =
    let no_one : leb (0xC0 + u / 64) 0x7F ≡ false = ground arith in
    let two : ((0xC0 + u / 64) / 2 ^ 5 == 6) ≡ true = ground (arith, h) in
    let bits : (0xC0 + u / 64) % 2 ^ 5 ≡ u / 64 = ground (arith, h) in
    if-false _ _ no_one ∙ if-true _ _ two ∙ ap (λ x. lead x 1) bits

lead_of-three : (u : ℕ) → u < 2 ^ 16 → lead_of (0xE0 + u / 4096) ≡ lead (u / 4096) 2
lead_of-three u h =
    let no_one : leb (0xE0 + u / 4096) 0x7F ≡ false = ground arith in
    let no_two : ((0xE0 + u / 4096) / 2 ^ 5 == 6) ≡ false = ground (arith, h) in
    let three : ((0xE0 + u / 4096) / 2 ^ 4 == 14) ≡ true = ground (arith, h) in
    let bits : (0xE0 + u / 4096) % 2 ^ 4 ≡ u / 4096 = ground (arith, h) in
    if-false _ _ no_one ∙ if-false _ _ no_two ∙ if-true _ _ three ∙ ap (λ x. lead x 2) bits

-- A byte that follows puts its 6 bits behind those that there are.
follow-one :
    (n j c r : ℕ) (bs : List ℕ)
    → r < 64
    → follow (suc n) j c ((0x80 + r) ∷ bs) ≡ follow n (j + 1) (c * 64 + r) bs
unfolding follow
follow-one n j c r bs h =
    let follows : ((0x80 + r) / 2 ^ 6 == 2) ≡ true = ground (arith, h) in
    let bits : (0x80 + r) % 2 ^ 6 ≡ r = omega (arith, h) in
    rw follows (ap (λ x. follow n (j + 1) (c * 64 + x) bs) bits)

follow-none : (u : ℕ) (bs : List ℕ) → follow 0 1 u bs ≡ (u, 0)
unfolding follow
follow-none u bs = refl

follow-two : (u : ℕ) (bs : List ℕ) → follow 1 1 (u / 64) ((0x80 + u % 64) ∷ bs) ≡ (u, 0)
unfolding follow
follow-two u bs =
    follow-one 0 1 (u / 64) (u % 64) bs (omega arith)
    ∙ ap (λ x. (x, 0)) (let e : u / 64 * 64 + u % 64 ≡ u = omega arith in e)

follow-three :
    (u : ℕ) (bs : List ℕ)
    → follow 2 1 (u / 4096) ((0x80 + u / 64 % 64) ∷ (0x80 + u % 64) ∷ bs) ≡ (u, 0)
unfolding follow
follow-three u bs =
    follow-one 1 1 (u / 4096) (u / 64 % 64) ((0x80 + u % 64) ∷ bs) (omega arith)
    ∙ follow-one 0 2 (u / 4096 * 64 + u / 64 % 64) (u % 64) bs (omega arith)
    ∙ ap (λ x. (x, 0)) (let e : (u / 4096 * 64 + u / 64 % 64) * 64 + u % 64 ≡ u = omega arith in e)

-- A round takes the bytes of one code point.
to_utf16-utf8_of :
    (n u : ℕ) (rest : List ℕ)
    → IsBasic u
    → to_utf16 (suc n) (utf8_of u ++ rest) ≡ u ∷ to_utf16 n rest
to_utf16-utf8_of n u rest h = elim (Bool-cases (ltb u 0x80)) [
  | inl one ↦ rw one (
      to_utf16-lead n u u 0 u rest rest
        (if-true (lead u 0) _ (let e : leb u 0x7F ≡ true = ground (arith, one) in e)) (ground arith)
        (follow-none u rest) refl h)
  | inr more ↦ elim (Bool-cases (ltb u 0x800)) [
    | inl two ↦ rw more (
        rw two (
          to_utf16-lead n (0xC0 + u / 64) (u / 64) 1 u ((0x80 + u % 64) ∷ rest) rest
            (lead_of-two u two) (ground arith) (follow-two u rest) refl h))
    | inr three ↦ rw more (
        rw three (
          to_utf16-lead n (0xE0 + u / 4096) (u / 4096) 2 u
            ((0x80 + u / 64 % 64) ∷ (0x80 + u % 64) ∷ rest) rest
            (lead_of-three u (omega (arith, h))) (ground arith) (follow-three u rest) refl h))
  ]
]

length-utf8 : (us : List ℕ) → length us ≤ length (utf8 us)
length-utf8 [] = omega arith
length-utf8 (u ∷ us) = ground (arith, length-utf8 us)

to_utf16-enough : (n : ℕ) (us : List ℕ) → AllBasic us → length us ≤ n → to_utf16 n (utf8 us) ≡ us
unfolding to_utf16
to_utf16-enough zero [] a l = refl
to_utf16-enough zero (u ∷ us) a l = absurd (omega (arith, l))
to_utf16-enough (suc n) [] a l = refl
to_utf16-enough (suc n) (u ∷ us) a l =
    to_utf16-utf8_of n u (utf8 us) a.0
    ∙ ap (λ x. u ∷ x) (to_utf16-enough n us a.1 (omega (arith, l)))

-- A name in UTF-8 has enough bytes for the rounds that the conversion takes.
pub to_utf16-utf8 : (us : List ℕ) → AllBasic us → to_utf16 (length (utf8 us)) (utf8 us) ≡ us
to_utf16-utf8 us a = to_utf16-enough (length (utf8 us)) us a (length-utf8 us)
