-- ===== src/Network/Interfaces/Tests.antt =====
-- Interfaces eth0 and eth1 at addresses 0x1000 and 0x2000, and room for a third.
use palmyra_os.Prelude.{
  ℕ, ◌≡◌, ◌⊎◌, inl, inr, refl, Bool, true, false, List, [], ◌∷◌, ◌==◌, if◌then◌else◌, replicate,
  arith,
}
use palmyra_os.Network.Interfaces.{
  Interfaces, find_index, find_interface_index, find_named, same_name, shift_from,
  register_interface, unregister_interface, get_interface,
}
use palmyra_os.Network.Interfaces.Table.{
  listed, IsListed, AllDistinct, IsValid, Registered, Refused, register_interface_lem,
}
use palmyra_os.Network.Interfaces.Removal.{Unregistered, unregister_interface_lem}

abbrev name : ℕ → List ℕ
name p = 101 ∷ 116 ∷ 104 ∷ (if p == 0x1000 then 48 else if p == 0x2000 then 49 else 50) ∷ []

abbrev table : Interfaces
table = record {
  initialized = true;
  interfaces = 0x1000 ∷ 0x2000 ∷ replicate 6 0;
  interface_count = 2;
  default_interface = 0x1000;
}

table-IsValid : IsValid name table
unfolding find_named same_name AllDistinct IsListed
table-IsValid = record {
  capacity = refl;
  count_in = omega arith;
  distinct = ground arith;
  default_listed = inr (inl refl);
}

second : get_interface name (name 0x2000) table ≡ 0x2000
unfolding get_interface find_named same_name
second = refl

left_over : listed (unregister_interface 0x1000 table).1 ≡ 0x2000 ∷ []
unfolding unregister_interface find_interface_index find_index shift_from
left_over = refl

register_example :
    (((register_interface name 0x3000 table).0 ≡ true)
      × Registered name 0x3000 table (register_interface name 0x3000 table).1
      × ¬ Refused name 0x3000 table)
    ⊎ ((register_interface name 0x3000 table ≡ (false, table)) × Refused name 0x3000 table)
register_example = register_interface_lem name 0x3000 table table-IsValid

unregister_example :
    (((unregister_interface 0x1000 table).0 ≡ true)
      × Unregistered name 0x1000 table (unregister_interface 0x1000 table).1
      × IsListed 0x1000 (listed table))
    ⊎ ((unregister_interface 0x1000 table ≡ (false, table))
        × ((◌≡◌ {A = Bool} true false) ⊎ (◌≡◌ {A = ℕ} 0x1000 0) ⊎ ¬ IsListed 0x1000 (listed table)))
unregister_example = unregister_interface_lem name 0x1000 table table-IsValid
