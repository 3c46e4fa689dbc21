-- ===== src/CircularBuffer/Cells.antt =====
-- Cells in a row, around the end of the buffer.
use palmyra_os.Prelude.{
  inl, inr, ℕ, zero, suc, ◌+◌, ◌-◌, ◌%◌, ◌≤◌, ◌<◌, ◌≡◌, ◌≢◌, refl, ap, ◌∙◌, List, [], ◌∷◌, ◌++◌,
  leb, ◌==◌, if◌then◌else◌, length, arith, Bool-cases, ne→==, ==→ne, ==_iff,
}
use native.Mathlib.Nat.{mod-eq_of_lt, mod_self}
use palmyra_os.CircularBuffer.{CircularBuffer, write, advance, get_from}

-- How far it is from a cell to another.
abbrev pub distance : ℕ → ℕ → ℕ → ℕ
distance buffer_size i j = if leb i j then j - i else buffer_size - i + j

module _ (buffer_size : ℕ) where
  -- `n` cells in a row, and the cell `n` cells on.
  unfoldable pub cells : ℕ → ℕ → (ℕ → ℕ) → List ℕ
  cells zero i back = []
  cells (suc n) i back = back i ∷ cells n (advance buffer_size i) back

  unfoldable pub cell_after : ℕ → ℕ → ℕ
  cell_after zero i = i
  cell_after (suc n) i = cell_after n (advance buffer_size i)

  pub advance_lem :
      (i : ℕ)
      → i < buffer_size
      → advance buffer_size i ≡ (if i + 1 == buffer_size then 0 else i + 1)
  advance_lem i h = elim (Bool-cases (i + 1 == buffer_size)) [
    | inl e ↦ rw e (ap (λ n. n % buffer_size) ((==_iff _ _).0 e) ∙ mod_self buffer_size)
    | inr ne ↦ rw ne (mod-eq_of_lt (omega (arith, ==→ne _ _ ne)))
  ]

  pub distance-advance :
      (i j : ℕ)
      → i < buffer_size
      → j < buffer_size
      → i ≢ j
      → (advance buffer_size i < buffer_size)
        × (distance buffer_size i j ≡ suc (distance buffer_size (advance buffer_size i) j))
  distance-advance i j hi hj ne = rw (advance_lem i hi) (ground arith)

  pub length-cells : (n i : ℕ) (back : ℕ → ℕ) → length (cells n i back) ≡ n
  unfolding cells
  length-cells zero i back = refl
  length-cells (suc n) i back = ap suc (length-cells n (advance buffer_size i) back)

  pub cells-snoc :
      (n i : ℕ) (back : ℕ → ℕ) → cells (suc n) i back ≡ cells n i back ++ back (cell_after n i) ∷ []
  unfolding cells cell_after
  cells-snoc zero i back = refl
  cells-snoc (suc n) i back = ap (λ cs. back i ∷ cs) (cells-snoc n (advance buffer_size i) back)

  -- The cell as far on as another is that one.
  pub cell_after-distance :
      (n i j : ℕ)
      → i < buffer_size
      → j < buffer_size
      → distance buffer_size i j ≡ n
      → cell_after n i ≡ j
  unfolding cell_after
  cell_after-distance zero i j hi hj d = ground arith
  cell_after-distance (suc n) i j hi hj d =
      let s = distance-advance i j hi hj (ground arith) in
      cell_after-distance n (advance buffer_size i) j s.0 hj (omega (arith, s.1))

  -- A write does not reach the cells before it.
  pub cells-write :
      (n i j : ℕ) (v : ℕ) (back : ℕ → ℕ)
      → i < buffer_size
      → j < buffer_size
      → n ≤ distance buffer_size i j
      → cells n i (write back j v) ≡ cells n i back
  unfolding cells
  cells-write zero i j v back hi hj d = refl
  cells-write (suc n) i j v back hi hj d =
      let ne : i ≢ j = λ e. ground arith in
      let s = distance-advance i j hi hj ne in
      rw (ne→== i j ne) (
        ap (λ cs. back i ∷ cs)
          (cells-write n (advance buffer_size i) j v back s.0 hj (omega (arith, s.1))))

  -- The loop of `get` reads the cells up to the last one.
  pub get_from-cells :
      (fuel n i : ℕ) (b : CircularBuffer)
      → i < buffer_size
      → b.last < buffer_size
      → distance buffer_size i b.last ≡ n
      → n < fuel + 1
      → get_from buffer_size fuel i b ≡ cells n i b.back_buffer
  unfolding get_from cells
  get_from-cells zero zero i b hi hl d f = refl
  get_from-cells zero (suc n) i b hi hl d f = absurd (omega arith)
  get_from-cells (suc fuel) zero i b hi hl d f = ground arith
  get_from-cells (suc fuel) (suc n) i b hi hl d f =
      let ne : i ≢ b.last = λ e. ground arith in
      let s = distance-advance i b.last hi hl ne in
      rw (ne→== i b.last ne) (
        ap (λ cs. b.back_buffer i ∷ cs)
          (get_from-cells fuel n (advance buffer_size i) b s.0 hl (omega (arith, s.1))
            (omega arith)))
