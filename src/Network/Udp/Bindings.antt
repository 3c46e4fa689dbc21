-- ===== src/Network/Udp/Bindings.antt =====
-- `bindPort` and `unbindPort` of core/network/UDP.cpp on a valid port table.
use palmyra_os.Prelude.{
  ℕ, ◌+◌, ◌-◌, ◌%◌, ◌^◌, ◌≤◌, ◌≡◌, ◌≢◌, ◌⊎◌, inl, inr, refl, ◌∙◌, true, false, ◌||◌, none, some,
  List, leb, ◌==◌, if◌then◌else◌, arith, Bool-cases, Option-cases, leb→le,
}
use palmyra_os.Network.Udp.{
  Udp, PortBinding, max_bound_ports, find_port_binding, fill_slot, bind_port, empty_slot,
  unbind_port,
}
use palmyra_os.Network.Udp.Ports.{
  active_count-le, IsValid, new_binding, fill_slot-none, fill_slot-Filled, fill_slot-Unique,
  empty_slot-Emptied, empty_slot-Unique,
}

-- The state after a port was bound, and after it was unbound.
pub record Bound (port handler : ℕ) (u u' : Udp) : Type 0 where
  pub valid : IsValid u'
  pub found :
      (q : ℕ)
      → find_port_binding q u'
        ≡ (if port == q then some (new_binding port handler) else find_port_binding q u)

pub record Unbound (port : ℕ) (u u' : Udp) : Type 0 where
  pub valid : IsValid u'
  pub found : (q : ℕ) → find_port_binding q u' ≡ (if port == q then none else find_port_binding q u)

-- Why `bindPort` answers false.
pub data Refused (port handler : ℕ) (u : Udp) : Type 0 where
  off : u.initialized ≡ false → Refused port handler u
  null_argument : (port == 0 || handler == 0) ≡ true → Refused port handler u
  already : find_port_binding port u ≢ none → Refused port handler u
  full : u.bound_port_count ≡ max_bound_ports → Refused port handler u

module _ (port handler : ℕ) (u : Udp) (v : IsValid u) where
  room : u.bound_port_count ≤ max_bound_ports
  room = omega (arith, active_count-le u.port_bindings, v.slots, v.counted)

  abbrev filled : List PortBinding → Udp
  filled bs = record u { port_bindings = bs; bound_port_count = (u.bound_port_count + 1) % 2 ^ 8 }

  filled-Bound :
      (bs : List PortBinding)
      → find_port_binding port u ≡ none
      → fill_slot port handler u.port_bindings ≡ some bs
      → leb max_bound_ports u.bound_port_count ≡ false
      → Bound port handler u (filled bs)
  unfolding find_port_binding
  filled-Bound bs free h l =
      let f = fill_slot-Filled port handler u.port_bindings bs free h in
      record {
        valid = record {
          slots = f.same_length ∙ v.slots;
          counted = ground (arith, f.one_more, v.counted);
          unique = fill_slot-Unique port handler u.port_bindings bs free h v.unique;
        };
        found = f.found;
      }

  no_slot : fill_slot port handler u.port_bindings ≡ none → u.bound_port_count ≡ max_bound_ports
  no_slot h = omega (arith, fill_slot-none port handler u.port_bindings h, v.slots, v.counted)

  bind_filled :
      (bs : List PortBinding)
      → u.initialized ≡ true
      → (port == 0 || handler == 0) ≡ false
      → find_port_binding port u ≡ none
      → leb max_bound_ports u.bound_port_count ≡ false
      → fill_slot port handler u.port_bindings ≡ some bs
      → bind_port port handler u ≡ (true, filled bs)
  unfolding bind_port
  bind_filled bs on ok free l h = simp (on, ok, free, l, h)

  bind_full :
      u.initialized ≡ true
      → (port == 0 || handler == 0) ≡ false
      → find_port_binding port u ≡ none
      → u.bound_port_count ≡ max_bound_ports
      → bind_port port handler u ≡ (false, u)
  unfolding bind_port
  bind_full on ok free l = simp (on, ok, free, l)

  not_refused :
      u.initialized ≡ true
      → (port == 0 || handler == 0) ≡ false
      → find_port_binding port u ≡ none
      → leb max_bound_ports u.bound_port_count ≡ false
      → ¬ Refused port handler u
  not_refused on ok free l (off h) = cc
  not_refused on ok free l (null_argument h) = cc
  not_refused on ok free l (already h) = h free
  not_refused on ok free l (full h) = ground arith

  bind_refused : Refused port handler u → bind_port port handler u ≡ (false, u)
  unfolding bind_port find_port_binding
  bind_refused (off h) = simp h
  bind_refused (null_argument h) = ground (arith, h)
  bind_refused (already h) = ground (arith, h)
  bind_refused (full h) = ground (arith, h)

  -- `bindPort` in a valid port table: it answers true, and then the port stands for the handler
  -- and every other port for what it stood for before; or it answers false and changes nothing,
  -- which happens exactly when the module is not initialised, the port or the handler is 0, the
  -- port is bound already, or all 16 slots are in use.
  pub bind_port_lem :
      (((bind_port port handler u).0 ≡ true)
        × Bound port handler u (bind_port port handler u).1
        × ¬ Refused port handler u)
      ⊎ ((bind_port port handler u ≡ (false, u)) × Refused port handler u)
  bind_port_lem = elim (Bool-cases u.initialized) [
    | inr h ↦ inr (bind_refused (off h), off h)
    | inl on ↦ elim (Bool-cases (port == 0 || handler == 0)) [
      | inl h ↦ inr (bind_refused (null_argument h), null_argument h)
      | inr ok ↦ elim (Option-cases (find_port_binding port u)) [
        | inr (b, h) ↦
            let n : find_port_binding port u ≢ none = cc in
            inr (bind_refused (already n), already n)
        | inl free ↦ elim (Bool-cases (leb max_bound_ports u.bound_port_count)) [
          | inl l ↦
              let e : u.bound_port_count ≡ max_bound_ports = omega (arith, room, leb→le _ _ l) in
              inr (bind_refused (full e), full e)
          | inr l ↦ elim (Option-cases (fill_slot port handler u.port_bindings)) [
            | inl h ↦ absurd (ground (arith, no_slot h))
            | inr (bs, h) ↦ inl (
                rw (bind_filled bs on ok free l h)
                  (refl, filled-Bound bs free h l, not_refused on ok free l))
          ]
        ]
      ]
    ]
  ]

module _ (port : ℕ) (u : Udp) (v : IsValid u) where
  abbrev emptied : Udp
  emptied = record u {
    port_bindings = empty_slot port u.port_bindings;
    bound_port_count = (u.bound_port_count + 2 ^ 8 - 1) % 2 ^ 8;
  }

  emptied-Unbound : find_port_binding port u ≢ none → Unbound port u emptied
  unfolding find_port_binding
  emptied-Unbound bound =
      let e = empty_slot-Emptied port u.port_bindings v.unique bound in
      record {
        valid = record {
          slots = e.same_length ∙ v.slots;
          counted = omega (arith, e.one_less, v.counted, v.slots, active_count-le u.port_bindings);
          unique = empty_slot-Unique port u.port_bindings v.unique bound;
        };
        found = e.found;
      }

  -- `unbindPort` in a valid port table: it answers true and then only this port has lost its
  -- handler; or it answers false and changes nothing, which happens exactly when the module is
  -- not initialised or the port is not bound.
  pub unbind_port_lem :
      (((unbind_port port u).0 ≡ true)
        × Unbound port u (unbind_port port u).1
        × (u.initialized ≡ true)
        × (find_port_binding port u ≢ none))
      ⊎ ((unbind_port port u ≡ (false, u))
          × ((u.initialized ≡ false) ⊎ (find_port_binding port u ≡ none)))
  unfolding unbind_port
  unbind_port_lem = elim (Bool-cases u.initialized) [
    | inr h ↦ inr (simp h, inl h)
    | inl on ↦ elim (Option-cases (find_port_binding port u)) [
      | inl h ↦ inr (simp (on, h), inr h)
      | inr (b, h) ↦
          let n : find_port_binding port u ≢ none = cc in
          let e : unbind_port port u ≡ (true, emptied) = simp (on, h) in
          inl (rw e (refl, emptied-Unbound n, on, n))
    ]
  ]
