-- ===== src/Network/Interfaces/Table.antt =====
-- The operations of `NetworkManager` on the list of registered interfaces.
use palmyra_os.Prelude.{
  ℕ, zero, suc, ◌+◌, ◌≤◌, ◌<◌, ◌≡◌, ◌≢◌, ◌⊎◌, inl, inr, refl, ◌∙◌, true, false, not, ◌&&◌, List, [],
  ◌∷◌, ◌++◌, leb, ◌==◌, if◌then◌else◌, set, take, length, arith, length-set, Bool-cases, ==→ne,
  ==_iff, leb→le,
}
use palmyra_os.Network.Interfaces.{
  Interfaces, max_interfaces, same_name, find_named, register_interface,
}
use palmyra_os.Network.Interfaces.Shift.{remove_at, take-set_end}

-- The registered interfaces, in order.
abbrev pub listed : Interfaces → List ℕ
listed t = take t.interface_count t.interfaces

unfoldable pub IsListed : ℕ → List ℕ → Type 0
IsListed p [] = ⊥
IsListed p (q ∷ qs) = (q ≡ p) ⊎ IsListed p qs

module _ (name : ℕ → List ℕ) where
  abbrev pub named : List ℕ → List ℕ → ℕ
  named ps wanted = find_named name (length ps) ps wanted

  -- None is null, and no two have one name.
  unfoldable pub AllDistinct : List ℕ → Type 0
  AllDistinct [] = Unit
  AllDistinct (p ∷ ps) = (p ≢ 0) × (named ps (name p) ≡ 0) × AllDistinct ps

  pub record IsValid (t : Interfaces) : Type 0 where
    pub capacity : length t.interfaces ≡ max_interfaces
    pub count_in : t.interface_count ≤ max_interfaces
    pub distinct : AllDistinct (listed t)
    pub default_listed : (t.default_interface ≡ 0) ⊎ IsListed t.default_interface (listed t)

  -- The search of the slots is one of the list.
  named-take :
      (n : ℕ) (slots : List ℕ) (wanted : List ℕ)
      → find_named name n slots wanted ≡ named (take n slots) wanted
  unfolding find_named
  named-take zero slots wanted = refl
  named-take (suc n) [] wanted = refl
  named-take (suc n) (p ∷ ps) wanted = rw (named-take n ps wanted)

  same_name_self : (s : List ℕ) → same_name s s ≡ true
  unfolding same_name
  same_name_self [] = refl
  same_name_self (x ∷ xs) = ground (arith, same_name_self xs)

  same_name_sym : (s u : List ℕ) → same_name s u ≡ same_name u s
  unfolding same_name
  same_name_sym [] [] = refl
  same_name_sym [] (y ∷ ys) = refl
  same_name_sym (x ∷ xs) [] = refl
  same_name_sym (x ∷ xs) (y ∷ ys) = ground (arith, same_name_sym xs ys)

  named-append :
      (ps : List ℕ) (p : ℕ) (wanted : List ℕ)
      → named ps wanted ≡ 0
      → named (ps ++ p ∷ []) wanted ≡ (if not (p == 0) && same_name (name p) wanted then p else 0)
  unfolding find_named
  named-append [] p wanted h = refl
  named-append (q ∷ ps) p wanted h = ground (arith, named-append ps p wanted)

  named-remove_at :
      (i : ℕ) (ps : List ℕ) (wanted : List ℕ)
      → AllDistinct ps
      → named ps wanted ≡ 0
      → named (remove_at i ps) wanted ≡ 0
  unfolding find_named remove_at AllDistinct
  named-remove_at i [] wanted d h = refl
  named-remove_at zero (q ∷ ps) wanted d h = ground (arith, h, d.0)
  named-remove_at (suc i) (q ∷ ps) wanted d h =
      ground (arith, h, d.0, named-remove_at i ps wanted d.2)

  AllDistinct-append :
      (ps : List ℕ) (p : ℕ)
      → AllDistinct ps
      → p ≢ 0
      → named ps (name p) ≡ 0
      → AllDistinct (ps ++ p ∷ [])
  unfolding find_named AllDistinct
  AllDistinct-append [] p d nz h = (nz, refl, d)
  AllDistinct-append (q ∷ ps) p d nz h = (
    d.0,
    ground (arith, named-append ps p (name q) d.1, h, d.0, nz, same_name_sym (name p) (name q)),
    AllDistinct-append ps p d.2 nz (ground (arith, h, d.0)),
  )

  pub AllDistinct-remove_at : (i : ℕ) (ps : List ℕ) → AllDistinct ps → AllDistinct (remove_at i ps)
  unfolding AllDistinct remove_at
  AllDistinct-remove_at i [] d = d
  AllDistinct-remove_at zero (q ∷ ps) d = d.2
  AllDistinct-remove_at (suc i) (q ∷ ps) d =
      (d.0, named-remove_at i ps (name q) d.2 d.1, AllDistinct-remove_at i ps d.2)

  -- What `registerInterface` did when it answered true.
  pub record Registered (interface : ℕ) (t t' : Interfaces) : Type 0 where
    pub valid : IsValid t'
    pub appended : listed t' ≡ listed t ++ interface ∷ []
    pub default_kept :
        t'.default_interface ≡ (if t.interface_count == 0 then interface else t.default_interface)

  -- Why it answers false.
  pub data Refused (interface : ℕ) (t : Interfaces) : Type 0 where
    off : t.initialized ≡ false → Refused interface t
    null : interface ≡ 0 → Refused interface t
    full : t.interface_count ≡ max_interfaces → Refused interface t
    taken : named (listed t) (name interface) ≢ 0 → Refused interface t

  IsListed-end : (ps : List ℕ) (p : ℕ) → IsListed p (ps ++ p ∷ [])
  unfolding IsListed
  IsListed-end [] p = inl refl
  IsListed-end (q ∷ ps) p = inr (IsListed-end ps p)

  IsListed-append : (ps : List ℕ) (p r : ℕ) → IsListed p ps → IsListed p (ps ++ r ∷ [])
  unfolding IsListed
  IsListed-append [] p r h = absurd h
  IsListed-append (q ∷ ps) p r (inl h) = inl h
  IsListed-append (q ∷ ps) p r (inr h) = inr (IsListed-append ps p r h)

  module _ (interface : ℕ) (t : Interfaces) (v : IsValid t) where
    abbrev registered : Interfaces
    registered = record t {
      interfaces = set t.interfaces t.interface_count interface;
      interface_count = t.interface_count + 1;
      default_interface = if t.interface_count + 1 == 1 then interface else t.default_interface;
    }

    default_after :
        (registered.default_interface ≡ 0)
        ⊎ IsListed registered.default_interface (listed t ++ interface ∷ [])
    default_after = elim (Bool-cases (t.interface_count + 1 == 1)) [
      | inl first ↦ rw first (inr (IsListed-end (listed t) interface))
      | inr later ↦ rw later (elim v.default_listed [
        | inl z ↦ inl z
        | inr l ↦ inr (IsListed-append (listed t) t.default_interface interface l)
      ])
    ]

    not_refused :
        t.initialized ≡ true
        → (interface == 0) ≡ false
        → leb max_interfaces t.interface_count ≡ false
        → named (listed t) (name interface) ≡ 0
        → ¬ Refused interface t
    not_refused on nz room free (off h) = cc
    not_refused on nz room free (null h) = ==→ne _ _ nz h
    not_refused on nz room free (full h) = ground arith
    not_refused on nz room free (taken h) = h free

    registered-Registered :
        interface ≢ 0
        → t.interface_count < max_interfaces
        → named (listed t) (name interface) ≡ 0
        → Registered interface t registered
    registered-Registered nz room free =
        let grown =
          take-set_end t.interface_count t.interfaces interface (omega (arith, v.capacity)) in
        record {
          valid = record {
            capacity = length-set t.interfaces t.interface_count interface ∙ v.capacity;
            count_in = omega arith;
            distinct = rw grown (AllDistinct-append (listed t) interface v.distinct nz free);
            default_listed = rw grown default_after;
          };
          appended = grown;
          default_kept = ground arith;
        }

    -- `registerInterface` of a valid table: it answers true and then the interface stands
    -- behind the others, and is the default if it is the first; or it answers false and changes
    -- nothing, which happens exactly when the module is not initialised, the interface is null,
    -- 8 are registered, or its name is taken.
    pub register_interface_lem :
        (((register_interface name interface t).0 ≡ true)
          × Registered interface t (register_interface name interface t).1
          × ¬ Refused interface t)
        ⊎ ((register_interface name interface t ≡ (false, t)) × Refused interface t)
    unfolding register_interface
    register_interface_lem = elim (Bool-cases t.initialized) [
      | inr h ↦ inr (simp h, off h)
      | inl on ↦ elim (Bool-cases (interface == 0)) [
        | inl h ↦ inr (simp (on, h), null (ground (arith, h)))
        | inr nz ↦ elim (Bool-cases (leb max_interfaces t.interface_count)) [
          | inl h ↦ inr (simp (on, nz, h), full (omega (arith, leb→le _ _ h, v.count_in)))
          | inr room ↦
              let same = named-take t.interface_count t.interfaces (name interface) in
              elim (Bool-cases (named (listed t) (name interface) == 0)) [
                | inr h ↦ inr (simp (on, nz, room, same, h), taken (==→ne _ _ h))
                | inl h ↦
                    let free = (==_iff _ _).0 h in
                    let e : register_interface name interface t ≡ (true, registered) =
                      simp (on, nz, room, same, h) in
                    inl (
                      rw e (
                        refl,
                        registered-Registered (==→ne _ _ nz) (ground arith) free,
                        not_refused on nz room free,
                      ))
              ]
        ]
      ]
    ]
