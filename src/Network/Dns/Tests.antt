-- ===== src/Network/Dns/Tests.antt =====
-- The names "A.b" and "a..b", in ASCII codes.
use palmyra_os.Prelude.{ℕ, ◌≡◌, ◌≢◌, refl, some, [], ◌∷◌, arith}
use palmyra_os.Network.Dns.{encode_domain_name, encode_labels, write_label}
use palmyra_os.Network.Dns.Encode.{IsLabel, encode_domain_name-empty_label}

short_name : encode_domain_name (65 ∷ 46 ∷ 98 ∷ []) 500 ≡ some (1 ∷ 97 ∷ 1 ∷ 98 ∷ 0 ∷ [])
unfolding encode_domain_name encode_labels write_label
short_name = refl

-- Behind an empty label the dot becomes part of the next one.
empty_label : encode_domain_name (97 ∷ 46 ∷ 46 ∷ 98 ∷ []) 500 ≡ some (1 ∷ 97 ∷ 2 ∷ 46 ∷ 98 ∷ 0 ∷ [])
unfolding encode_domain_name encode_labels write_label
empty_label = refl

one_character : (c : ℕ) → c ≢ 46 → IsLabel (c ∷ [])
one_character c h = record {
  some_length = omega arith;
  length_fits = omega arith;
  no_dots = (h, tt);
}

empty_label_example :
    encode_domain_name (97 ∷ 46 ∷ 46 ∷ 98 ∷ []) 500 ≡ some (1 ∷ 97 ∷ 2 ∷ 46 ∷ 98 ∷ 0 ∷ [])
empty_label_example =
    encode_domain_name-empty_label (97 ∷ []) (98 ∷ []) 500 (one_character 97 (λ e. omega arith))
      (one_character 98 (λ e. omega arith)) (omega arith) (omega arith) (omega arith)
