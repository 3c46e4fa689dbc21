-- ===== src/CircularBuffer/Contents.antt =====
-- The buffer as the string that `get` answers.
use palmyra_os.Prelude.{
  ℕ, zero, suc, ◌+◌, ◌-◌, ◌≤◌, ◌<◌, ◌≡◌, ◌≢◌, ◌⊎◌, inl, inr, refl, sym, ap, ◌∙◌, true, false, List,
  [], ◌∷◌, ◌++◌, ltb, ◌==◌, if◌then◌else◌, length, drop, arith, Bool-cases, ne→==, ==→ne, ==_iff,
  length-append, length-drop, append_assoc, append_nil,
}
use palmyra_os.CircularBuffer.{
  CircularBuffer, write, advance, append_one, append_chars, append, backspace, get, size,
}
use palmyra_os.CircularBuffer.Cells.{
  distance, cells, advance_lem, length-cells, cells-snoc, cell_after-distance, cells-write,
  get_from-cells,
}

-- The last `n` entries of a list, and the entries before the first 0.
abbrev pub last_of : ℕ → List ℕ → List ℕ
last_of n xs = drop (length xs - n) xs

abbrev pub before_null : List ℕ → List ℕ
before_null [] = []
before_null (c ∷ cs) = if c == 0 then [] else c ∷ before_null cs

abbrev pub without_last : List ℕ → List ℕ
without_last [] = []
without_last (x ∷ []) = []
without_last (x ∷ y ∷ xs) = x ∷ without_last (y ∷ xs)

drop-append : (k : ℕ) (xs ys : List ℕ) → k ≤ length xs → drop k (xs ++ ys) ≡ drop k xs ++ ys
drop-append zero xs ys h = refl
drop-append (suc k) [] ys h = absurd (omega arith)
drop-append (suc k) (x ∷ xs) ys h = drop-append k xs ys (omega arith)

drop-nil : (k : ℕ) → drop k (◌++◌ {A = ℕ} [] []) ≡ []
drop-nil zero = refl
drop-nil (suc k) = refl

drop-drop : (k j : ℕ) (xs : List ℕ) → drop k (drop j xs) ≡ drop (j + k) xs
drop-drop k zero xs = ap (λ n. drop n xs) (omega arith)
drop-drop k (suc j) [] = drop-nil k ∙ sym (drop-nil (suc j + k))
drop-drop k (suc j) (x ∷ xs) =
    let more : suc j + k ≡ suc (j + k) = omega arith in rw more (drop-drop k j xs)

last_of-append : (n : ℕ) (xs ys : List ℕ) → last_of n (last_of n xs ++ ys) ≡ last_of n (xs ++ ys)
last_of-append n xs ys =
    let m = length xs - n in
    let d : drop m xs ++ ys ≡ drop m (xs ++ ys) = sym (drop-append m xs ys (omega arith)) in
    rw d (
      drop-drop (length (drop m (xs ++ ys)) - n) m (xs ++ ys)
      ∙ ap (λ k. drop k (xs ++ ys)) (omega (arith, length-drop m (xs ++ ys), length-append xs ys)))

last_of-short : (n : ℕ) (xs : List ℕ) → length xs ≤ n → last_of n xs ≡ xs
last_of-short n xs h = let none_dropped : length xs - n ≡ 0 = omega arith in rw none_dropped refl

without_last-append : (xs : List ℕ) (x : ℕ) → without_last (xs ++ x ∷ []) ≡ xs
without_last-append [] x = refl
without_last-append (y ∷ []) x = refl
without_last-append (y ∷ z ∷ xs) x = ap (λ ys. y ∷ ys) (without_last-append (z ∷ xs) x)

module _ (buffer_size : ℕ) where
  pub record IsValid (b : CircularBuffer) : Type 0 where
    pub first_in : b.first < buffer_size
    pub last_in : b.last < buffer_size

  get-cells :
      (b : CircularBuffer)
      → IsValid b
      → get buffer_size b
        ≡ cells buffer_size (distance buffer_size b.first b.last) b.first b.back_buffer
  unfolding get
  get-cells b v =
      get_from-cells buffer_size buffer_size (distance buffer_size b.first b.last) b.first b
        v.first_in v.last_in refl (ground (arith, v.first_in, v.last_in))

  -- `get` answers as many characters as `size` counts, fewer than the buffer has cells.
  pub length-get :
      (b : CircularBuffer)
      → IsValid b
      → (length (get buffer_size b) ≡ size buffer_size b) × (size buffer_size b < buffer_size)
  unfolding size
  length-get b v = (
    rw (get-cells b v)
        (length-cells buffer_size (distance buffer_size b.first b.last) b.first b.back_buffer),
    ground (arith, v.first_in, v.last_in),
  )

  module _ (big : 2 ≤ buffer_size) (ch : ℕ) (b : CircularBuffer) (v : IsValid b) where
    abbrev n : ℕ
    n = distance buffer_size b.first b.last

    abbrev b' : CircularBuffer
    b' = append_one buffer_size ch b

    append_one-IsValid : IsValid b'
    unfolding append_one
    append_one-IsValid = record {
      first_in =
          rw (advance_lem buffer_size b.first v.first_in, advance_lem buffer_size b.last v.last_in)
            (ground (arith, v.first_in));
      last_in = rw (advance_lem buffer_size b.last v.last_in) (ground (arith, v.last_in));
    }

    -- The cells up to the new one.
    written :
        cells buffer_size (suc n) b.first (write b.back_buffer b.last ch)
        ≡ get buffer_size b ++ ch ∷ []
    written =
        cells-snoc buffer_size n b.first (write b.back_buffer b.last ch)
        ∙ rw
            (cells-write buffer_size n b.first b.last ch b.back_buffer v.first_in v.last_in
              (omega arith))
            (rw (cell_after-distance buffer_size n b.first b.last v.first_in v.last_in refl) (
              rw (get-cells b v)
                (let same : (b.last == b.last) ≡ true = ground arith in rw same refl)))

    -- Where the cells of the new buffer lie: the one that was first is lost when the buffer was
    -- full.
    placed :
        ((advance buffer_size b.last == b.first) ≡ true)
          × (n + 1 ≡ buffer_size)
          × (distance buffer_size (advance buffer_size b.first) (advance buffer_size b.last) ≡ n)
        ⊎ ((advance buffer_size b.last == b.first) ≡ false)
          × (n + 1 < buffer_size)
          × (distance buffer_size b.first (advance buffer_size b.last) ≡ suc n)
    placed =
        rw (advance_lem buffer_size b.first v.first_in, advance_lem buffer_size b.last v.last_in)
          (ground (arith, v.first_in, v.last_in))

    last_of-written :
        (k : ℕ)
        → suc n - (buffer_size - 1) ≡ k
        → last_of (buffer_size - 1) (get buffer_size b ++ ch ∷ [])
          ≡ drop k (cells buffer_size (suc n) b.first (write b.back_buffer b.last ch))
    last_of-written k e =
        let new = cells buffer_size (suc n) b.first (write b.back_buffer b.last ch) in
        ap (last_of (buffer_size - 1)) (sym written)
        ∙ ap (λ i. drop i new)
            (omega
              (arith, e, length-cells buffer_size (suc n) b.first (write b.back_buffer b.last ch)))

    get-append_one : get buffer_size b' ≡ last_of (buffer_size - 1) (get buffer_size b ++ ch ∷ [])
    unfolding append_one cells
    get-append_one = elim placed [
      | inl (e, full, d) ↦
          get-cells b' append_one-IsValid ∙ rw e (rw d (sym (last_of-written 1 (omega arith))))
      | inr (e, room, d) ↦
          get-cells b' append_one-IsValid ∙ rw e (rw d (sym (last_of-written 0 (omega arith))))
    ]

  get-whole :
      (b : CircularBuffer)
      → IsValid b
      → get buffer_size b ≡ last_of (buffer_size - 1) (get buffer_size b ++ [])
  get-whole b v =
      let l = length-get b v in
      rw (append_nil (get buffer_size b))
        (sym (last_of-short (buffer_size - 1) (get buffer_size b) (omega (arith, l.0, l.1))))

  get-append_chars :
      (str : List ℕ) (b : CircularBuffer)
      → 2 ≤ buffer_size
      → IsValid b
      → IsValid (append_chars buffer_size str b)
        × (get buffer_size (append_chars buffer_size str b)
            ≡ last_of (buffer_size - 1) (get buffer_size b ++ before_null str))
  unfolding append_chars
  get-append_chars [] b big v = (v, get-whole b v)
  get-append_chars (ch ∷ str) b big v = elim (Bool-cases (ch == 0)) [
    | inl e ↦ rw e (v, get-whole b v)
    | inr ne ↦
        let rest =
          get-append_chars str (append_one buffer_size ch b) big (append_one-IsValid big ch b v) in
        rw ne (
          rest.0,
          rest.1
              ∙ rw (get-append_one big ch b v) (
                  last_of-append (buffer_size - 1) (get buffer_size b ++ ch ∷ []) (before_null str)
                  ∙ rw (append_assoc (get buffer_size b) (ch ∷ []) (before_null str)) refl),
        )
  ]

  -- Appending a string keeps the last BUFFER_SIZE - 1 characters of what the buffer held and of
  -- the part of the string before its first null character, of which at most the last
  -- BUFFER_SIZE characters are looked at. It supposes a buffer of at least 2 cells.
  pub get-append :
      (str : List ℕ) (b : CircularBuffer)
      → 2 ≤ buffer_size
      → IsValid b
      → IsValid (append buffer_size str b)
        × (get buffer_size (append buffer_size str b)
            ≡ last_of
                (buffer_size - 1)
                (get buffer_size b ++ before_null (last_of buffer_size str)))
  unfolding append
  get-append str b big v = elim (Bool-cases (ltb buffer_size (length str))) [
    | inl long ↦ rw long (get-append_chars (last_of buffer_size str) b big v)
    | inr short ↦
        rw short (rw (last_of-short buffer_size str (ground arith)) (get-append_chars str b big v))
  ]

  module _ (b : CircularBuffer) (v : IsValid b) where
    abbrev before : ℕ
    before = if b.last == 0 then buffer_size - 1 else b.last - 1

    backspace-some :
        b.first ≢ b.last
        → backspace buffer_size b
          ≡ record b { last = before; back_buffer = write b.back_buffer before 0 }
    unfolding backspace
    backspace-some ne = rw (ne→== b.first b.last ne) refl

    backspace-none : b.first ≡ b.last → backspace buffer_size b ≡ b
    unfolding backspace
    backspace-none e = let same : (b.first == b.last) ≡ true = ground arith in rw same refl

    nearer :
        (k : ℕ)
        → distance buffer_size b.first b.last ≡ suc k
        → (before < buffer_size) × (distance buffer_size b.first before ≡ k)
    nearer k d = ground (arith, v.first_in, v.last_in)

    shorter :
        (k : ℕ)
        → distance buffer_size b.first b.last ≡ suc k
        → let b' = record b { last = before; back_buffer = write b.back_buffer before 0 } in
          IsValid b' × (get buffer_size b' ≡ without_last (get buffer_size b))
    shorter k d =
        let near = nearer k d in
        let b' : CircularBuffer = record b {
          last = before;
          back_buffer = write b.back_buffer before 0;
        } in
        let v' : IsValid b' = record { first_in = v.first_in; last_in = near.0 } in
        (
          v',
          get-cells b' v'
              ∙ rw near.1 (
                  cells-write buffer_size k b.first before 0 b.back_buffer v.first_in near.0
                    (omega (arith, near.1))
                  ∙ sym (without_last-append (cells buffer_size k b.first b.back_buffer) _)
                  ∙ ap without_last (
                      sym (cells-snoc buffer_size k b.first b.back_buffer)
                      ∙ ap (λ n. cells buffer_size n b.first b.back_buffer) (sym d)
                      ∙ sym (get-cells b v))),
        )

    -- `backspace` takes the last character, if there is one.
    get-backspace :
        IsValid (backspace buffer_size b)
        × (get buffer_size (backspace buffer_size b) ≡ without_last (get buffer_size b))
    unfolding cells
    get-backspace = elim (Bool-cases (b.first == b.last)) [
      | inl e ↦
          let nothing : get buffer_size b ≡ [] =
            let d : distance buffer_size b.first b.last ≡ 0 = ground arith in
            get-cells b v ∙ ap (λ n. cells buffer_size n b.first b.back_buffer) d in
          rw (backspace-none ((==_iff _ _).0 e)) (v, rw nothing refl)
      | inr ne ↦ rw (backspace-some (==→ne _ _ ne)) (
          shorter (distance buffer_size b.first b.last - 1) (ground (arith, v.first_in, v.last_in)))
    ]
