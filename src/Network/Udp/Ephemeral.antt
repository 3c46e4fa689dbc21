-- ===== src/Network/Udp/Ephemeral.antt =====
-- `allocateEphemeralPort` of core/network/UDP.cpp: the first unbound port from the next one on,
-- and the wrap of the counter.
use palmyra_os.Prelude.{
  ℕ, zero, suc, ◌+◌, ◌%◌, ◌^◌, ◌≤◌, ◌<◌, ◌≡◌, ◌≢◌, ◌⊎◌, inl, inr, refl, sym, ap, ◌∙◌, none, some,
  List, ◌==◌, arith, Bool-cases, Option-cases,
}
use palmyra_os.Network.Udp.{
  Udp, PortBinding, dynamic_port_end, find_binding, find_port_binding, empty_slot, advance_port,
  attempt_port, allocate_ephemeral_port,
}
use palmyra_os.Network.Udp.Ports.{
  active_count, active_count-le, Unique, IsValid, empty_slot-Emptied, empty_slot-Unique,
}

-- The port `k` places behind `p`, in the order of the uint16_t counter
abbrev pub port_at : ℕ → ℕ → ℕ
port_at p k = (p + k) % 2 ^ 16

-- The `n` ports from `p` on are all bound.
abbrev pub AllBound : ℕ → ℕ → List PortBinding → Type 0
AllBound n p bs = (k : ℕ) → k < n → find_binding (port_at p k) bs ≢ none

find_binding-eq : {p q : ℕ} (bs : List PortBinding) → p ≡ q → find_binding p bs ≡ find_binding q bs
find_binding-eq bs e = ap (λ i. find_binding i bs) e

port_at-tail : (p k : ℕ) → port_at (port_at p 1) k ≡ port_at p (suc k)
port_at-tail p k = omega arith

AllBound-tail :
    (n p : ℕ) (bs bs' : List PortBinding)
    → ((k : ℕ) → k < n → find_binding (port_at p (suc k)) bs' ≡ find_binding (port_at p (suc k)) bs)
    → AllBound (suc n) p bs
    → AllBound n (port_at p 1) bs'
AllBound-tail n p bs bs' same h k l none' =
    h (suc k) (omega arith) (sym (same k l) ∙ find_binding-eq bs' (sym (port_at-tail p k)) ∙ none')

-- `n` bound ports, which differ if they do not go round, need `n` slots.
AllBound-le :
    (n p : ℕ) (bs : List PortBinding)
    → n ≤ 2 ^ 16
    → Unique bs
    → AllBound n p bs
    → n ≤ active_count bs
AllBound-le zero p bs few u h = omega arith
AllBound-le (suc n) p bs few u h =
    let first = port_at p 0 in
    let bound : find_binding first bs ≢ none = h 0 (omega arith) in
    let e = empty_slot-Emptied first bs u bound in
    let rest =
      AllBound-tail n p bs (empty_slot first bs)
        (λ k l. ground (arith, e.found (port_at p (suc k)))) h in
    omega (
      arith,
      e.one_less,
      AllBound-le n (port_at p 1) (empty_slot first bs) (omega arith)
          (empty_slot-Unique first bs u bound) rest,
    )

-- The first unbound port from `p` on, among `n`, or none.
first_unbound :
    (n p : ℕ) (bs : List PortBinding)
    → ((k : ℕ) × (k < n) × AllBound k p bs × (find_binding (port_at p k) bs ≡ none))
      ⊎ AllBound n p bs
first_unbound zero p bs = inr (λ k l. absurd (omega arith))
first_unbound (suc n) p bs = elim (first_unbound n p bs) [
  | inl (k, l, before, free) ↦ inl (k, omega arith, before, free)
  | inr before ↦ elim (Option-cases (find_binding (port_at p n) bs)) [
    | inl free ↦ inl (n, omega arith, before, free)
    | inr (b, h) ↦ inr (λ k l free. elim (Bool-cases (k == n)) [
      | inl e ↦
          let same : n ≡ k = ground arith in
          let f : find_binding (port_at p n) bs ≡ none =
            ap (λ i. find_binding (port_at p i) bs) same ∙ free in
          cc
      | inr ne ↦ before k (ground arith) free
    ])
  ]
]

-- The test behind the increment never holds of a uint16_t.
advance_port_lem : (p : ℕ) → advance_port p ≡ (p + 1) % 2 ^ 16
unfolding advance_port
advance_port_lem p = ground arith

abbrev advanced : Udp → ℕ → Udp
advanced u p = record u { next_ephemeral_port = p }

attempt-here :
    (m : ℕ) (u : Udp)
    → find_binding u.next_ephemeral_port u.port_bindings ≡ none
    → attempt_port (suc m) u
      ≡ (u.next_ephemeral_port, advanced u ((u.next_ephemeral_port + 1) % 2 ^ 16))
unfolding attempt_port find_port_binding
attempt-here m u free = ground (arith, advance_port_lem u.next_ephemeral_port)

attempt-later :
    (m : ℕ) (u : Udp) (b : PortBinding)
    → find_binding u.next_ephemeral_port u.port_bindings ≡ some b
    → attempt_port (suc m) u ≡ attempt_port m (advanced u ((u.next_ephemeral_port + 1) % 2 ^ 16))
unfolding attempt_port find_port_binding
attempt-later m u b bound = ground (arith, bound, advance_port_lem u.next_ephemeral_port)

-- The attempts end at the first unbound port, also when the counter wraps before.
attempt_port-first :
    (k n : ℕ) (u : Udp) (p : ℕ)
    → k ≤ n
    → u.next_ephemeral_port < 2 ^ 16
    → port_at u.next_ephemeral_port k ≡ p
    → AllBound k u.next_ephemeral_port u.port_bindings
    → find_binding p u.port_bindings ≡ none
    → attempt_port (suc n) u ≡ (p, advanced u ((p + 1) % 2 ^ 16))
attempt_port-first zero n u p le l at before free =
    let same : u.next_ephemeral_port ≡ p = omega arith in
    attempt-here n u (find_binding-eq u.port_bindings same ∙ free) ∙ rw same
attempt_port-first (suc k) zero u p le l at before free = absurd (omega arith)
attempt_port-first (suc k) (suc n) u p le l at before free =
    elim (Option-cases (find_binding u.next_ephemeral_port u.port_bindings)) [
      | inl none' ↦
          absurd (before 0 (omega arith) (find_binding-eq u.port_bindings (omega arith) ∙ none'))
      | inr (b, bound) ↦
          attempt-later (suc n) u b bound
          ∙ attempt_port-first k n (advanced u (port_at u.next_ephemeral_port 1)) p (omega arith)
              (omega arith) (port_at-tail u.next_ephemeral_port k ∙ at)
              (AllBound-tail k u.next_ephemeral_port u.port_bindings u.port_bindings (λ i i<. refl)
                before)
              free
    ]

-- In a valid port table allocateEphemeralPort answers the first unbound port in the order of the
-- uint16_t counter, from wherever the counter stands, which wraps from 65535 to 0: it is found at
-- most 16 places on, within 17 of the 100 attempts, the counter goes on from there, and nothing
-- else changes.
pub allocate_ephemeral_port_lem :
    (u : Udp)
    → IsValid u
    → u.next_ephemeral_port < 2 ^ 16
    → (k : ℕ) × (k ≤ 16)
      × (find_port_binding (port_at u.next_ephemeral_port k) u ≡ none)
      × ((i : ℕ) → i < k → find_port_binding (port_at u.next_ephemeral_port i) u ≢ none)
      × (allocate_ephemeral_port u ≡ (
        port_at u.next_ephemeral_port k,
        record u { next_ephemeral_port = port_at u.next_ephemeral_port (k + 1) },
      ))
unfolding allocate_ephemeral_port find_port_binding
allocate_ephemeral_port_lem u v l = elim (first_unbound 17 u.next_ephemeral_port u.port_bindings) [
  | inr all ↦ absurd (
      omega (
        arith,
        AllBound-le 17 u.next_ephemeral_port u.port_bindings (omega arith) v.unique all,
        active_count-le u.port_bindings,
        v.slots,
      ))
  | inl (k, k<, before, free) ↦
      let wraps : (port_at u.next_ephemeral_port k + 1) % 2 ^ 16
          ≡ port_at u.next_ephemeral_port (k + 1) =
        omega arith in
      (
        k,
        omega arith,
        free,
        before,
        attempt_port-first k 99 u (port_at u.next_ephemeral_port k) (omega arith) l refl before free
            ∙ ap (λ x. (port_at u.next_ephemeral_port k, advanced u x)) wraps,
      )
]

-- From port 65535 on the uint16_t counter wraps to 0, which is also the answer for a failure:
-- if neither 65535 nor 0 is bound, the first allocation answers 65535 and the one behind it 0,
-- and then the counter goes on below the dynamic range, at 1. The test for the end of the range
-- never holds.
pub allocate_ephemeral_port-wrap :
    (u : Udp)
    → u.next_ephemeral_port ≡ dynamic_port_end
    → find_port_binding dynamic_port_end u ≡ none
    → find_port_binding 0 u ≡ none
    → (allocate_ephemeral_port u ≡ (dynamic_port_end, record u { next_ephemeral_port = 0 }))
      × (allocate_ephemeral_port (allocate_ephemeral_port u).1
          ≡ (0, record u { next_ephemeral_port = 1 }))
unfolding allocate_ephemeral_port find_port_binding
allocate_ephemeral_port-wrap u at free free0 =
    let first : attempt_port 100 u ≡ (dynamic_port_end, record u { next_ephemeral_port = 0 }) =
      attempt_port-first 0 99 u dynamic_port_end (omega arith) (omega arith) (omega arith)
        (λ k l. absurd (omega arith)) free in
    let u' = record u { next_ephemeral_port = 0 } in
    (
      first,
      rw first (
          attempt_port-first 0 99 u' 0 (omega arith) (omega arith) refl
            (λ k l. absurd (omega arith)) free0),
    )
