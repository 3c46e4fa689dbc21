-- ===== src/Network/Interfaces/Shift.antt =====
-- The loop of `unregisterInterface` that closes the gap, as removal from the list of the slots in
-- use.
use palmyra_os.Prelude.{
  ℕ, zero, suc, ◌+◌, ◌-◌, ◌≤◌, ◌<◌, ◌≡◌, refl, sym, ap, ◌∙◌, List, [], ◌∷◌, ◌++◌, get_or, set, take,
  length, arith, length-set,
}
use native.Mathlib.Numerals.{add-one}
use palmyra_os.Network.Interfaces.{shift_from}

-- The list without its entry at an index.
unfoldable pub remove_at : ℕ → List ℕ → List ℕ
remove_at i [] = []
remove_at zero (p ∷ ps) = ps
remove_at (suc i) (p ∷ ps) = p ∷ remove_at i ps

pub length-shift_from : (n i : ℕ) (slots : List ℕ) → length (shift_from n i slots) ≡ length slots
unfolding shift_from
length-shift_from zero i slots = refl
length-shift_from (suc n) i slots =
    length-shift_from n (i + 1) (set slots i (get_or slots (i + 1) 0))
    ∙ length-set slots i (get_or slots (i + 1) 0)

pub take-set : (n : ℕ) (slots : List ℕ) (v : ℕ) → take n (set slots n v) ≡ take n slots
take-set zero slots v = refl
take-set (suc n) [] v = refl
take-set (suc n) (p ∷ ps) v = ap (λ qs. p ∷ qs) (take-set n ps v)

pub take-set_end :
    (n : ℕ) (slots : List ℕ) (v : ℕ)
    → n < length slots
    → take (n + 1) (set slots n v) ≡ take n slots ++ v ∷ []
take-set_end n [] v h = absurd (omega arith)
take-set_end zero (p ∷ ps) v h = refl
take-set_end (suc n) (p ∷ ps) v h = rw add-one (
    ap (λ qs. p ∷ qs)
      (ap (λ k. take k (set ps n v)) (sym (add-one n)) ∙ take-set_end n ps v (omega arith)))

shift_from-suc :
    (n i p : ℕ) (slots : List ℕ) → shift_from n (suc i) (p ∷ slots) ≡ p ∷ shift_from n i slots
unfolding shift_from
shift_from-suc zero i p slots = refl
shift_from-suc (suc n) i p slots =
    let next : suc i + 1 ≡ suc (i + 1) = omega arith in
    rw next (shift_from-suc n (i + 1) p (set slots i (get_or slots (i + 1) 0)))

shift_from-zero :
    (n p : ℕ) (slots : List ℕ)
    → n ≤ length slots
    → take n (shift_from n 0 (p ∷ slots)) ≡ take n slots
unfolding shift_from
shift_from-zero zero p slots h = refl
shift_from-zero (suc n) p [] h = absurd (omega arith)
shift_from-zero (suc n) p (q ∷ slots) h =
    rw (shift_from-suc n 0 q (q ∷ slots))
      (ap (λ qs. q ∷ qs) (shift_from-zero n q slots (omega arith)))

pub take-shift_from :
    (count i : ℕ) (slots : List ℕ)
    → i ≤ count
    → count < length slots
    → take count (shift_from (count - i) i slots) ≡ remove_at i (take (suc count) slots)
unfolding remove_at
take-shift_from count i [] hi hl = absurd (omega arith)
take-shift_from count zero (p ∷ ps) hi hl =
    let all : count - 0 ≡ count = omega arith in rw all (shift_from-zero count p ps (omega arith))
take-shift_from zero (suc i) (p ∷ ps) hi hl = absurd (omega arith)
take-shift_from (suc count) (suc i) (p ∷ ps) hi hl =
    let less : suc count - suc i ≡ count - i = omega arith in
    rw less (
      rw (shift_from-suc (count - i) i p ps)
        (ap (λ qs. p ∷ qs) (take-shift_from count i ps (omega arith) (omega arith))))
