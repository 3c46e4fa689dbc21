-- ===== src/Network/Interfaces/Removal.antt =====
-- `unregisterInterface` on the list of registered interfaces, and the choice of a default.
use palmyra_os.Prelude.{
  ℕ, zero, suc, ◌-◌, ◌<◌, ◌≡◌, ◌≢◌, ◌⊎◌, inl, inr, refl, ap, ◌∙◌, true, false, none, some, List, [],
  ◌∷◌, ◌==◌, if◌then◌else◌, set, take, arith, length-set, Bool-cases, Option-cases, ==→ne, ==_iff,
}
use palmyra_os.Network.Interfaces.{
  Interfaces, find_index, find_interface_index, shift_from, unregister_interface,
}
use palmyra_os.Network.Interfaces.Shift.{remove_at, length-shift_from, take-set, take-shift_from}
use palmyra_os.Network.Interfaces.Table.{listed, IsListed, IsValid, AllDistinct-remove_at}

-- The list without the first entry that is `p`.
unfoldable pub without : ℕ → List ℕ → List ℕ
without p [] = []
without p (q ∷ qs) = if q == p then qs else q ∷ without p qs

-- What an index that was found stands for.
find_index-some :
    (n : ℕ) (slots : List ℕ) (p i : ℕ)
    → find_index n slots p ≡ some i
    → (i < n) × (remove_at i (take n slots) ≡ without p (take n slots)) × IsListed p (take n slots)
unfolding find_index remove_at without IsListed
find_index-some zero slots p i h = cc
find_index-some (suc n) [] p i h = cc
find_index-some (suc n) (q ∷ qs) p i h = elim (Bool-cases (q == p)) [
  | inl e ↦
      let z : i ≡ 0 = ground (arith, h) in rw z (omega arith, rw e refl, inl ((==_iff q p).0 e))
  | inr ne ↦ elim (Option-cases (find_index n qs p)) [
    | inl none' ↦ absurd (ground (arith, h))
    | inr (k, found) ↦
        let z : i ≡ suc k = ground (arith, h) in
        let rest = find_index-some n qs p k found in
        rw z (omega (arith, rest.0), rw ne (ap (λ rs. q ∷ rs) rest.1), inr rest.2)
  ]
]

find_index-none :
    (n : ℕ) (slots : List ℕ) (p : ℕ) → find_index n slots p ≡ none → ¬ IsListed p (take n slots)
unfolding find_index IsListed
find_index-none zero slots p h l = l
find_index-none (suc n) [] p h l = l
find_index-none (suc n) (q ∷ qs) p h (inl e) = ground (arith, h)
find_index-none (suc n) (q ∷ qs) p h (inr l) = find_index-none n qs p (ground (arith, h)) l

IsListed-without : (p d : ℕ) (ps : List ℕ) → d ≢ p → IsListed d ps → IsListed d (without p ps)
unfolding IsListed without
IsListed-without p d [] ne h = h
IsListed-without p d (q ∷ qs) ne h = elim (Bool-cases (q == p)) [
  | inl e ↦ rw e (elim h [ inl hd ↦ absurd (ground (arith, e)) | inr tl ↦ tl ])
  | inr nq ↦ rw nq (elim h [ inl hd ↦ inl hd | inr tl ↦ inr (IsListed-without p d qs ne tl) ])
]

module _ (name : ℕ → List ℕ) where
  -- What `unregisterInterface` did when it answered true.
  pub record Unregistered (interface : ℕ) (t t' : Interfaces) : Type 0 where
    pub valid : IsValid name t'
    pub removed : listed t' ≡ without interface (listed t)
    pub default_kept :
        t'.default_interface ≡ (if t.default_interface == interface then 0 else t.default_interface)

  module _ (interface : ℕ) (t : Interfaces) (v : IsValid name t) where
    abbrev unregistered : ℕ → Interfaces
    unregistered i = record t {
      default_interface = if t.default_interface == interface then 0 else t.default_interface;
      interfaces =
          set (shift_from (t.interface_count - 1 - i) i t.interfaces) (t.interface_count - 1) 0;
      interface_count = t.interface_count - 1;
    }

    listed-unregistered :
        (i : ℕ) → i < t.interface_count → listed (unregistered i) ≡ remove_at i (listed t)
    listed-unregistered i h =
        let all : suc (t.interface_count - 1) ≡ t.interface_count = omega arith in
        take-set (t.interface_count - 1) (shift_from (t.interface_count - 1 - i) i t.interfaces) 0
        ∙ take-shift_from (t.interface_count - 1) i t.interfaces (omega arith)
            (omega (arith, v.capacity, v.count_in))
        ∙ ap (λ n. remove_at i (take n t.interfaces)) all

    default_after :
        (unregistered 0).default_interface ≡ 0
        ⊎ IsListed (unregistered 0).default_interface (without interface (listed t))
    default_after = elim (Bool-cases (t.default_interface == interface)) [
      | inl e ↦ rw e (inl refl)
      | inr ne ↦ rw ne (elim v.default_listed [
        | inl z ↦ inl z
        | inr l ↦ inr (IsListed-without interface t.default_interface (listed t) (==→ne _ _ ne) l)
      ])
    ]

    unregistered-Unregistered :
        (i : ℕ)
        → find_interface_index interface t ≡ some i
        → Unregistered interface t (unregistered i)
    unfolding find_interface_index
    unregistered-Unregistered i h =
        let found = find_index-some t.interface_count t.interfaces interface i h in
        let rest = listed-unregistered i found.0 in
        record {
          valid = record {
            capacity =
                length-set (shift_from (t.interface_count - 1 - i) i t.interfaces)
                  (t.interface_count - 1) 0
                ∙ length-shift_from (t.interface_count - 1 - i) i t.interfaces
                ∙ v.capacity;
            count_in = omega (arith, v.count_in);
            distinct = rw rest (AllDistinct-remove_at name i (listed t) v.distinct);
            default_listed = rw rest (rw found.1 default_after);
          };
          removed = rest ∙ found.1;
          default_kept = refl;
        }

    -- `unregisterInterface` of a valid table: it answers true and then only this interface has
    -- left the list, the others keep their order, and the default is null if it was this one;
    -- or it answers false and changes nothing, which happens exactly when the module is not
    -- initialised or the interface is null or not registered.
    pub unregister_interface_lem :
        (((unregister_interface interface t).0 ≡ true)
          × Unregistered interface t (unregister_interface interface t).1
          × IsListed interface (listed t))
        ⊎ ((unregister_interface interface t ≡ (false, t))
            × ((t.initialized ≡ false) ⊎ (interface ≡ 0) ⊎ ¬ IsListed interface (listed t)))
    unfolding unregister_interface find_interface_index
    unregister_interface_lem = elim (Bool-cases t.initialized) [
      | inr h ↦ inr (simp h, inl h)
      | inl on ↦ elim (Bool-cases (interface == 0)) [
        | inl h ↦ inr (simp (on, h), inr (inl ((==_iff _ _).0 h)))
        | inr nz ↦ elim (Option-cases (find_interface_index interface t)) [
          | inl h ↦ inr (simp (on, nz, h), inr (inr (find_index-none _ _ _ h)))
          | inr (i, h) ↦
              let e : unregister_interface interface t ≡ (true, unregistered i) =
                simp (on, nz, h) in
              inl (rw e (refl, unregistered-Unregistered i h, (find_index-some _ _ _ _ h).2))
        ]
      ]
    ]
