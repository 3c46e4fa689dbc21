-- ===== src/Network/Udp/Ports.antt =====
-- The port table as a map from ports to handlers, and the ephemeral ports.
use palmyra_os.Prelude.{
  ℕ, suc, ◌+◌, ◌≤◌, ◌≡◌, ◌≢◌, inl, inr, refl, ap, true, false, ◌&&◌, none, some, List, [], ◌∷◌,
  ◌==◌, if◌then◌else◌, length, arith, Bool-cases, Option-cases,
}
use palmyra_os.Network.Udp.{Udp, PortBinding, max_bound_ports, find_binding, fill_slot, empty_slot}

abbrev pub active_count : List PortBinding → ℕ
active_count [] = 0
active_count (b ∷ bs) = (if b.active then 1 else 0) + active_count bs

-- No port is bound twice.
abbrev pub Unique : List PortBinding → Type 0
Unique [] = Unit
Unique (b ∷ bs) = (b.active ≡ true → find_binding b.port bs ≡ none) × Unique bs

pub record IsValid (u : Udp) : Type 0 where
  pub slots : length u.port_bindings ≡ max_bound_ports
  pub counted : active_count u.port_bindings ≡ u.bound_port_count
  pub unique : Unique u.port_bindings

pub active_count-le : (bs : List PortBinding) → active_count bs ≤ length bs
active_count-le [] = omega arith
active_count-le (b ∷ bs) = ground (arith, active_count-le bs)

module _ (port handler : ℕ) where
  abbrev pub new_binding : PortBinding
  new_binding = record { port = port; handler = handler; active = true }

  pub fill_slot-none :
      (bs : List PortBinding) → fill_slot port handler bs ≡ none → active_count bs ≡ length bs
  unfolding fill_slot
  fill_slot-none [] h = refl
  fill_slot-none (b ∷ bs) h = ground (arith, fill_slot-none bs)

  -- What a table looks like when a slot was filled.
  pub record Filled (bs bs' : List PortBinding) : Type 0 where
    pub same_length : length bs' ≡ length bs
    pub one_more : active_count bs' ≡ active_count bs + 1
    pub found :
        (q : ℕ) → find_binding q bs' ≡ (if port == q then some new_binding else find_binding q bs)

  Filled-here :
      (b : PortBinding) (bs : List PortBinding)
      → b.active ≡ false
      → find_binding port (b ∷ bs) ≡ none
      → Filled (b ∷ bs) (new_binding ∷ bs)
  unfolding find_binding
  Filled-here b bs off free = record {
    same_length = refl;
    one_more = ground arith;
    found = λ q. ground arith;
  }

  Filled-later :
      (b : PortBinding) (bs cs : List PortBinding)
      → b.active ≡ true
      → b.port ≢ port
      → Filled bs cs
      → Filled (b ∷ bs) (b ∷ cs)
  unfolding find_binding
  Filled-later b bs cs on other f = record {
    same_length = ap suc f.same_length;
    one_more = ground (arith, f.one_more);
    found = λ q. ground (arith, f.found q);
  }

  pub fill_slot-Filled :
      (bs bs' : List PortBinding)
      → find_binding port bs ≡ none
      → fill_slot port handler bs ≡ some bs'
      → Filled bs bs'
  unfolding fill_slot find_binding
  fill_slot-Filled [] bs' free h = cc
  fill_slot-Filled (b ∷ bs) bs' free h = elim (Bool-cases b.active) [
    | inr off ↦
        let same : bs' ≡ new_binding ∷ bs = ground arith in rw same (Filled-here b bs off free)
    | inl on ↦ elim (Option-cases (fill_slot port handler bs)) [
      | inl full ↦ absurd (ground arith)
      | inr (cs, e) ↦
          let same : bs' ≡ b ∷ cs = ground arith in
          rw same (Filled-later b bs cs on (ground arith) (fill_slot-Filled bs cs (ground arith) e))
    ]
  ]

  pub fill_slot-Unique :
      (bs bs' : List PortBinding)
      → find_binding port bs ≡ none
      → fill_slot port handler bs ≡ some bs'
      → Unique bs
      → Unique bs'
  unfolding fill_slot find_binding
  fill_slot-Unique [] bs' free h u = cc
  fill_slot-Unique (b ∷ bs) bs' free h u = elim (Bool-cases b.active) [
    | inr off ↦
        let same : bs' ≡ new_binding ∷ bs = ground arith in rw same (λ on. ground arith, u.1)
    | inl on ↦ elim (Option-cases (fill_slot port handler bs)) [
      | inl full ↦ absurd (ground arith)
      | inr (cs, e) ↦
          let same : bs' ≡ b ∷ cs = ground arith in
          let free' : find_binding port bs ≡ none = ground arith in
          rw same (
            λ on'. ground (arith, (fill_slot-Filled bs cs free' e).found b.port, u.0 on),
            fill_slot-Unique bs cs free' e u.1,
          )
    ]
  ]

-- What a table looks like when the binding of `port` was cleared.
pub record Emptied (port : ℕ) (bs bs' : List PortBinding) : Type 0 where
  pub same_length : length bs' ≡ length bs
  pub one_less : active_count bs' + 1 ≡ active_count bs
  pub found : (q : ℕ) → find_binding q bs' ≡ (if port == q then none else find_binding q bs)

pub empty_slot-Emptied :
    (port : ℕ) (bs : List PortBinding)
    → Unique bs
    → find_binding port bs ≢ none
    → Emptied port bs (empty_slot port bs)
unfolding empty_slot find_binding
empty_slot-Emptied port [] u bound = absurd (bound refl)
empty_slot-Emptied port (b ∷ bs) u bound = elim (Bool-cases (b.active && b.port == port)) [
  | inl hit ↦ rw hit (record {
    same_length = refl;
    one_less = ground arith;
    found = λ q. ground (arith, u.0 (ground arith));
  })
  | inr miss ↦
      let rest = empty_slot-Emptied port bs u.1 (ground arith) in
      rw miss (record {
        same_length = ap suc rest.same_length;
        one_less = omega (arith, rest.one_less);
        found = λ q. ground (arith, rest.found q);
      })
]

pub empty_slot-Unique :
    (port : ℕ) (bs : List PortBinding)
    → Unique bs
    → find_binding port bs ≢ none
    → Unique (empty_slot port bs)
unfolding empty_slot find_binding
empty_slot-Unique port [] u bound = u
empty_slot-Unique port (b ∷ bs) u bound = elim (Bool-cases (b.active && b.port == port)) [
  | inl hit ↦ rw hit (λ on. cc, u.1)
  | inr miss ↦ rw miss (
    λ on. ground (arith, (empty_slot-Emptied port bs u.1 (ground arith)).found b.port, u.0 on),
    empty_slot-Unique port bs u.1 (ground arith),
  )
]
