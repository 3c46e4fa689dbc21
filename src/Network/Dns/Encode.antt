-- ===== src/Network/Dns/Encode.antt =====
-- `encodeDomainName` of a name that is made of labels.
use palmyra_os.Prelude.{
  ℕ, suc, ◌+◌, ◌≤◌, ◌<◌, ◌≡◌, ◌≢◌, refl, sym, ap, ◌∙◌, false, some, List, [], ◌∷◌, ◌++◌, ltb, leb,
  ◌==◌, length, arith, ne→==, length-append, append_nil, append_assoc,
}
use palmyra_os.Network.Dns.{
  max_domain_length, dot, lower, write_label, encode_labels, encode_domain_name,
}

-- Without a dot or a null character.
abbrev pub NoDots : List ℕ → Type 0
NoDots [] = Unit
NoDots (c ∷ cs) = (c ≢ dot) × NoDots cs

pub record IsLabel (label : List ℕ) : Type 0 where
  pub some_length : 1 ≤ length label
  pub length_fits : length label ≤ 63
  pub no_dots : NoDots label

abbrev pub AllLabels : List (List ℕ) → Type 0
AllLabels [] = Unit
AllLabels (l ∷ ls) = IsLabel l × AllLabels ls

-- The name with a dot between its labels, of which `l` is the first.
unfoldable pub dotted : List ℕ → List (List ℕ) → List ℕ
dotted l [] = l
dotted l (m ∷ ms) = l ++ dot ∷ dotted m ms

-- Each label behind its length.
unfoldable pub prefixed : List (List ℕ) → List ℕ
prefixed [] = []
prefixed (l ∷ ls) = length l ∷ lower l ++ prefixed ls

pub length-lower : (cs : List ℕ) → length (lower cs) ≡ length cs
length-lower [] = refl
length-lower (c ∷ cs) = ap suc (length-lower cs)

module _ (buffer_size : ℕ) where
  -- Passing a character that is not a dot makes the label longer.
  encode_labels-char :
      (c : ℕ) (cs label out : List ℕ)
      → c ≢ dot
      → encode_labels buffer_size (c ∷ cs) label out
        ≡ encode_labels buffer_size cs (label ++ c ∷ []) out
  unfolding encode_labels
  encode_labels-char c cs [] out h = refl
  encode_labels-char c cs (l ∷ ls) out h = rw (ne→== c dot h) refl

  encode_labels-label :
      (l cs label out : List ℕ)
      → NoDots l
      → encode_labels buffer_size (l ++ cs) label out
        ≡ encode_labels buffer_size cs (label ++ l) out
  encode_labels-label [] cs label out h = rw (append_nil label) refl
  encode_labels-label (c ∷ l) cs label out h =
      encode_labels-char c (l ++ cs) label out h.0
      ∙ encode_labels-label l cs (label ++ c ∷ []) out h.1
      ∙ rw (append_assoc label (c ∷ []) l) refl

  -- At the end of the name the characters passed are the last label.
  encode_labels-last :
      (l label out : List ℕ)
      → NoDots l
      → encode_labels buffer_size l label out ≡ encode_labels buffer_size [] (label ++ l) out
  encode_labels-last l label out h =
      ap (λ cs. encode_labels buffer_size cs label out) (sym (append_nil l))
      ∙ encode_labels-label l [] label out h

  -- A dot right behind a dot stays.
  encode_labels-empty :
      (cs out : List ℕ)
      → encode_labels buffer_size (dot ∷ cs) [] out ≡ encode_labels buffer_size cs (dot ∷ []) out
  unfolding encode_labels
  encode_labels-empty cs out = refl

  write_label-fits :
      (l out : List ℕ)
      → length l ≤ 63
      → length out + 1 + length l < buffer_size
      → write_label buffer_size l out ≡ some (out ++ length l ∷ lower l)
  unfolding write_label
  write_label-fits l out h f = ground (arith, h, f)

  encode_labels-end :
      (l out : List ℕ)
      → 1 ≤ length l
      → encode_labels buffer_size [] l out ≡ write_label buffer_size l out
  unfolding encode_labels
  encode_labels-end [] out h = absurd (omega arith)
  encode_labels-end (c ∷ l) out h = refl

  encode_labels-dot :
      (cs l out out' : List ℕ)
      → 1 ≤ length l
      → write_label buffer_size l out ≡ some out'
      → encode_labels buffer_size (dot ∷ cs) l out ≡ encode_labels buffer_size cs [] out'
  unfolding encode_labels
  encode_labels-dot cs [] out out' h w = absurd (omega arith)
  encode_labels-dot cs (c ∷ l) out out' h w = rw w refl

  encode_labels-dotted :
      (l : List ℕ) (ls : List (List ℕ)) (out : List ℕ)
      → IsLabel l
      → AllLabels ls
      → length out + length (prefixed (l ∷ ls)) < buffer_size
      → encode_labels buffer_size (dotted l ls) [] out ≡ some (out ++ prefixed (l ∷ ls))
  unfolding dotted prefixed
  encode_labels-dotted l [] out h hs f =
      let n = length-append (lower l) [] in
      encode_labels-last l [] out h.no_dots
      ∙ encode_labels-end l out h.some_length
      ∙ write_label-fits l out h.length_fits (omega (arith, f, n, length-lower l))
      ∙ rw (append_nil (lower l)) refl
  encode_labels-dotted l (m ∷ ms) out h hs f =
      let n = length-append (lower l) (prefixed (m ∷ ms)) in
      let k = length-append out (length l ∷ lower l) in
      encode_labels-label l (dot ∷ dotted m ms) [] out h.no_dots
      ∙ encode_labels-dot (dotted m ms) l out (out ++ length l ∷ lower l) h.some_length
          (write_label-fits l out h.length_fits (omega (arith, f, n, length-lower l)))
      ∙ encode_labels-dotted m ms (out ++ length l ∷ lower l) hs.0 hs.1
          (omega (arith, f, n, k, length-lower l))
      ∙ ap some (append_assoc out (length l ∷ lower l) (prefixed (m ∷ ms)))

length-prefixed : (l : List ℕ) (ls : List (List ℕ)) → IsLabel l → 2 ≤ length (prefixed (l ∷ ls))
unfolding prefixed
length-prefixed l ls h =
    omega (arith, length-append (lower l) (prefixed ls), length-lower l, h.some_length)

length-dotted : (l : List ℕ) (ls : List (List ℕ)) → length l ≤ length (dotted l ls)
unfolding dotted
length-dotted l [] = omega arith
length-dotted l (m ∷ ms) = omega (arith, length-append l (dot ∷ dotted m ms))

-- A name of labels with dots between them is encoded as each label in lower case behind its
-- length, and a 0 at the end. It supposes labels of 1 to 63 characters without a dot, a name of
-- fewer than 255 characters, and a buffer with room for the result.
pub encode_domain_name-dotted :
    (l : List ℕ) (ls : List (List ℕ)) (buffer_size : ℕ)
    → IsLabel l
    → AllLabels ls
    → length (dotted l ls) < max_domain_length
    → length (prefixed (l ∷ ls)) < buffer_size
    → encode_domain_name (dotted l ls) buffer_size ≡ some (prefixed (l ∷ ls) ++ 0 ∷ [])
unfolding encode_domain_name
encode_domain_name-dotted l ls buffer_size h hs small room =
    let e = encode_labels-dotted buffer_size l ls [] h hs (omega arith) in
    let n : ltb buffer_size 2 ≡ false = ground (arith, length-prefixed l ls h) in
    let nz : (length (dotted l ls) == 0) ≡ false =
      ground (arith, length-dotted l ls, h.some_length) in
    let le : leb max_domain_length (length (dotted l ls)) ≡ false = ground arith in
    let r : leb buffer_size (length (prefixed (l ∷ ls))) ≡ false = ground arith in
    simp (n, nz, le, e, r)

-- An empty label is not left out: the dot behind it becomes the first character of the next
-- label, which a name without the empty label would not have. It supposes a first label and a
-- rest that are labels, the rest of at most 62 characters, a name of fewer than 255, and a
-- buffer with room for the result.
pub encode_domain_name-empty_label :
    (l m : List ℕ) (buffer_size : ℕ)
    → IsLabel l
    → IsLabel m
    → length m ≤ 62
    → length l + length m < 253
    → length l + length m + 3 < buffer_size
    → encode_domain_name (l ++ dot ∷ dot ∷ m) buffer_size
      ≡ some (length l ∷ lower l ++ suc (length m) ∷ dot ∷ lower m ++ 0 ∷ [])
unfolding encode_domain_name
encode_domain_name-empty_label l m buffer_size h k short small room =
    let size = length-append l (dot ∷ dot ∷ m) in
    let out = length l ∷ lower l in
    let n : ltb buffer_size 2 ≡ false = ground arith in
    let nz : (length (l ++ dot ∷ dot ∷ m) == 0) ≡ false = ground (arith, size) in
    let le : leb max_domain_length (length (l ++ dot ∷ dot ∷ m)) ≡ false = ground (arith, size) in
    let rest : length (out ++ suc (length m) ∷ dot ∷ lower m) ≡ length l + length m + 3 =
      omega (
        arith,
        length-append out (suc (length m) ∷ dot ∷ lower m),
        length-lower l,
        length-lower m,
      ) in
    let e =
      encode_labels-label buffer_size l (dot ∷ dot ∷ m) [] [] h.no_dots
      ∙ encode_labels-dot buffer_size (dot ∷ m) l [] out h.some_length
          (write_label-fits buffer_size l [] h.length_fits (omega arith))
      ∙ encode_labels-empty buffer_size m out
      ∙ encode_labels-last buffer_size m (dot ∷ []) out k.no_dots
      ∙ encode_labels-end buffer_size (dot ∷ m) out (omega arith)
      ∙ write_label-fits buffer_size (dot ∷ m) out (omega arith) (omega (arith, length-lower l)) in
    let r : leb buffer_size (length (out ++ suc (length m) ∷ dot ∷ lower m)) ≡ false =
      ground (arith, rest) in
    simp (n, nz, le, e, r)
