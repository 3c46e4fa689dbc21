-- ===== src/Network/Udp/Tests.antt =====
-- A port table with two bindings, and datagrams to port 53.
use palmyra_os.Prelude.{
  ℕ, ◌+◌, ◌≤◌, ◌<◌, ◌≡◌, ◌≢◌, ◌⊎◌, refl, true, false, none, some, [], ◌∷◌, replicate, arith,
}
use palmyra_os.Network.Udp.{
  Udp, unbound, find_binding, find_port_binding, fill_slot, bind_port, unbind_port,
  allocate_ephemeral_port, build_datagram, handle_udp_packet,
}
use palmyra_os.Network.Udp.Ports.{IsValid, new_binding}
use palmyra_os.Network.Udp.Bindings.{Bound, Unbound, Refused, bind_port_lem, unbind_port_lem}
use palmyra_os.Network.Udp.Ephemeral.{
  port_at, allocate_ephemeral_port_lem, allocate_ephemeral_port-wrap,
}
use palmyra_os.Network.Udp.Datagram.{handle_udp_packet-build_datagram}

abbrev table : ℕ → Udp
table next = record {
  initialized = true;
  next_ephemeral_port = next;
  port_bindings = new_binding 53 0x1000 ∷ unbound ∷ new_binding 49152 0x2000 ∷ replicate 13 unbound;
  bound_port_count = 2;
}

table-IsValid : (next : ℕ) → IsValid (table next)
unfolding find_binding
table-IsValid next = record { slots = refl; counted = refl; unique = ground arith }

-- The binding that was there goes on to be found, and the empty slot is taken.
bound_twice : (bind_port 53 0x3000 (table 49152)).0 ≡ false
unfolding bind_port find_port_binding find_binding
bound_twice = refl

taken_slot :
    find_port_binding 80 (bind_port 80 0x3000 (table 49152)).1 ≡ some (new_binding 80 0x3000)
unfolding bind_port fill_slot find_port_binding find_binding
taken_slot = refl

bind_port_example :
    (((bind_port 80 0x3000 (table 49152)).0 ≡ true)
      × Bound 80 0x3000 (table 49152) (bind_port 80 0x3000 (table 49152)).1
      × ¬ Refused 80 0x3000 (table 49152))
    ⊎ ((bind_port 80 0x3000 (table 49152) ≡ (false, table 49152)) × Refused 80 0x3000 (table 49152))
bind_port_example = bind_port_lem 80 0x3000 (table 49152) (table-IsValid 49152)

unbind_port_example :
    (((unbind_port 53 (table 49152)).0 ≡ true)
      × Unbound 53 (table 49152) (unbind_port 53 (table 49152)).1
      × ((table 49152).initialized ≡ true)
      × (find_port_binding 53 (table 49152) ≢ none))
    ⊎ ((unbind_port 53 (table 49152) ≡ (false, table 49152))
        × (((table 49152).initialized ≡ false) ⊎ (find_port_binding 53 (table 49152) ≡ none)))
unbind_port_example = unbind_port_lem 53 (table 49152) (table-IsValid 49152)

allocate_example :
    (k : ℕ) × (k ≤ 16)
    × (find_port_binding (port_at 49152 k) (table 49152) ≡ none)
    × ((i : ℕ) → i < k → find_port_binding (port_at 49152 i) (table 49152) ≢ none)
    × (allocate_ephemeral_port (table 49152) ≡ (port_at 49152 k, table (port_at 49152 (k + 1))))
allocate_example = allocate_ephemeral_port_lem (table 49152) (table-IsValid 49152) (omega arith)

wrap_example :
    (allocate_ephemeral_port (table 65535) ≡ (65535, table 0))
    × (allocate_ephemeral_port (allocate_ephemeral_port (table 65535)).1 ≡ (0, table 1))
unfolding find_port_binding find_binding
wrap_example = allocate_ephemeral_port-wrap (table 65535) refl refl refl

datagram_example :
    handle_udp_packet
      (build_datagram 0x0a00020f 0x0a000202 40000 53 (1 ∷ 2 ∷ 3 ∷ []))
      11
      0x0a00020f
      0x0a000202
      (table 49152)
    ≡ some (record {
      handler = 0x1000;
      source_ip = 0x0a00020f;
      source_port = 40000;
      content = 1 ∷ 2 ∷ 3 ∷ [];
    })
unfolding find_port_binding find_binding
datagram_example =
    handle_udp_packet-build_datagram 0x0a00020f 0x0a000202 40000 53 (1 ∷ 2 ∷ 3 ∷ []) (omega arith)
      (omega arith) (omega arith) (table 49152) (new_binding 53 0x1000) refl refl (omega arith)
