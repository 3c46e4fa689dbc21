-- ===== src/Network/Dns/Decode.antt =====
-- `decodeDomainName` of what `encodeDomainName` writes.
use palmyra_os.Prelude.{ℕ, List, [], ◌∷◌, ◌++◌}
use palmyra_os.Network.Dns.{dot, lower}

-- The output once a label was copied, and once all were.
abbrev with_dot : List ℕ → List ℕ
with_dot [] = []
with_dot (x ∷ xs) = (x ∷ xs) ++ dot ∷ []

unfoldable joined : List ℕ → List (List ℕ) → List ℕ
joined out [] = out
joined out (l ∷ ls) = joined (with_dot out ++ lower l) ls
