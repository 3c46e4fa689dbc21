-- ===== src/Network/Dns.antt =====
-- Domain names in queries, `encodeDomainName` and `decodeDomainName` of core/network/DNS.cpp. A
-- string is the list of its characters before the null character; no pointer is null.
pub mod Encode
pub mod Decode
mod Tests
use palmyra_os.Prelude.{
  ℕ, zero, suc, ◌+◌, ◌-◌, ◌/◌, ◌%◌, min, Bool, true, false, ◌&&◌, ◌||◌, Option, none, some, List,
  [], ◌∷◌, ◌++◌, ltb, leb, ◌==◌, if◌then◌else◌, length, take, drop,
}

abbrev pub max_domain_length : ℕ
max_domain_length = 255

abbrev pub dot : ℕ
dot = 46

abbrev pub to_lower : ℕ → ℕ
to_lower c = if leb 65 c && leb c 90 then c + 32 else c

abbrev pub lower : List ℕ → List ℕ
lower [] = []
lower (c ∷ cs) = to_lower c ∷ lower cs

-- A label that is not empty, written behind what the buffer holds; none where the code answers 0.
pub write_label : ℕ → List ℕ → List ℕ → Option (List ℕ)
write_label buffer_size label out =
    if ltb 63 (length label)
    then none
    else if leb buffer_size (length out + 1 + length label)
    then none
    else some (out ++ length label ∷ lower label)

-- The loop of `encodeDomainName` over the characters that are left. `label` are those from
-- `labelStart` on that were passed: behind an empty label `labelStart` stays, so the dot is
-- among them.
pub encode_labels : ℕ → List ℕ → List ℕ → List ℕ → Option (List ℕ)
encode_labels buffer_size [] [] out = some out
encode_labels buffer_size [] (l ∷ ls) out = write_label buffer_size (l ∷ ls) out
encode_labels buffer_size (c ∷ cs) [] out = encode_labels buffer_size cs (c ∷ []) out
encode_labels buffer_size (c ∷ cs) (l ∷ ls) out =
    let longer = encode_labels buffer_size cs ((l ∷ ls) ++ c ∷ []) out in
    if c == dot
    then elim (write_label buffer_size (l ∷ ls) out) [
      | none ↦ none
      | some out' ↦ encode_labels buffer_size cs [] out'
    ]
    else longer

-- The bytes that are written; none where the code answers 0.
pub encode_domain_name : List ℕ → ℕ → Option (List ℕ)
encode_domain_name domain_name buffer_size =
    if ltb buffer_size 2
    then none
    else if length domain_name == 0 || leb max_domain_length (length domain_name)
    then none
    else elim (encode_labels buffer_size domain_name [] []) [
      | none ↦ none
      | some out ↦ if leb buffer_size (length out) then none else some (out ++ 0 ∷ [])
    ]

-- `if (outputOffset > 0 && outDomainName[outputOffset - 1] == '.') outputOffset--`
pub strip_dot : List ℕ → List ℕ
strip_dot [] = []
strip_dot (c ∷ []) = if c == dot then [] else c ∷ []
strip_dot (c ∷ d ∷ cs) = c ∷ strip_dot (d ∷ cs)

pub separate : ℕ → List ℕ → List ℕ
separate out_max out =
    if ltb 0 (length out) && ltb (length out) (out_max - 1) then out ++ dot ∷ [] else out

-- The loop of `decodeDomainName` over the bytes that are left, with fuel. The name, if the code
-- answers true. A label that does not fit is cut, and the loop goes on behind what was copied.
pub decode_labels : ℕ → List ℕ → ℕ → List ℕ → Option (List ℕ)
decode_labels zero bytes out_max out = none
decode_labels (suc fuel) [] out_max out = none
decode_labels (suc fuel) (len ∷ bytes) out_max out =
    let out' = separate out_max out in
    let copied = min len (out_max - 1 - length out') in
    let rest = decode_labels fuel (drop copied bytes) out_max (out' ++ take copied bytes) in
    if len == 0
    then some (strip_dot out)
    else if len / 64 % 4 == 3
    then none
    else if ltb 63 len || ltb (length bytes) len
    then none
    else rest

-- Each round takes a byte, so a round more than there are bytes is enough.
pub decode_domain_name : List ℕ → ℕ → Option (List ℕ)
decode_domain_name buffer out_max =
    if out_max == 0 then none else decode_labels (length buffer + 1) buffer out_max []
