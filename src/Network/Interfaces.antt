-- ===== src/Network/Interfaces.antt =====
-- The table of interfaces, `kernel::NetworkManager` of core/network/NetworkManager.cpp. An
-- interface is its address, 0 for null; what `getName` of an interface answers is the parameter
-- `name`.
pub mod Shift
pub mod Table
pub mod Removal
mod Tests
use palmyra_os.Prelude.{
  ℕ, zero, suc, ◌+◌, ◌-◌, ◌%◌, ◌^◌, Bool, true, false, not, ◌&&◌, ◌||◌, Option, none, some, List,
  [], ◌∷◌, ltb, leb, ◌==◌, if◌then◌else◌, get_or, set,
}

abbrev pub max_interfaces : ℕ
max_interfaces = 8

pub record Interfaces : Type 0 where
  pub initialized : Bool
  pub interfaces : List ℕ
  pub interface_count : ℕ
  pub default_interface : ℕ

clear_slots : List ℕ → List ℕ
clear_slots [] = []
clear_slots (p ∷ ps) = 0 ∷ clear_slots ps

pub initialize : Interfaces → Bool × Interfaces
unfolding clear_slots
initialize t = if t.initialized then (true, t) else (
  true,
  record {
    initialized = true;
    interfaces = clear_slots t.interfaces;
    interface_count = 0;
    default_interface = 0;
  },
)

-- `strcmp(a, b) == 0` of two strings, each without its null character
pub same_name : List ℕ → List ℕ → Bool
same_name [] [] = true
same_name [] (y ∷ ys) = false
same_name (x ∷ xs) [] = false
same_name (x ∷ xs) (y ∷ ys) = x == y && same_name xs ys

-- The loop of `findInterfaceIndex` over the first `n` slots; none for the invalid index.
pub find_index : ℕ → List ℕ → ℕ → Option ℕ
find_index zero slots interface = none
find_index (suc n) [] interface = none
find_index (suc n) (p ∷ ps) interface =
    if p == interface
    then some 0
    else elim (find_index n ps interface) [ none ↦ none | some i ↦ some (suc i) ]

pub find_interface_index : ℕ → Interfaces → Option ℕ
find_interface_index interface t = find_index t.interface_count t.interfaces interface

-- `n` rounds of `interfaces_[i] = interfaces_[i + 1]` from slot `i` on
pub shift_from : ℕ → ℕ → List ℕ → List ℕ
shift_from zero i slots = slots
shift_from (suc n) i slots = shift_from n (i + 1) (set slots i (get_or slots (i + 1) 0))

pub unregister_interface : ℕ → Interfaces → Bool × Interfaces
unregister_interface interface t =
    if not t.initialized || interface == 0
    then (false, t)
    else elim (find_interface_index interface t) [
      | none ↦ (false, t)
      | some index ↦ (
        true,
        record t {
          default_interface = if t.default_interface == interface then 0 else t.default_interface;
          interfaces =
              set (shift_from (t.interface_count - 1 - index) index t.interfaces)
                (t.interface_count - 1) 0;
          interface_count = t.interface_count - 1;
        },
      )
    ]

pub set_default_interface : ℕ → Interfaces → Bool × Interfaces
set_default_interface interface t =
    if not t.initialized || interface == 0
    then (false, t)
    else elim (find_interface_index interface t) [
      | none ↦ (false, t)
      | some index ↦ (true, record t { default_interface = interface })
    ]

pub get_interface_at : ℕ → Interfaces → ℕ
get_interface_at index t =
    if not t.initialized || leb t.interface_count index then 0 else get_or t.interfaces index 0

module _ (name : ℕ → List ℕ) where
  -- The first of `n` slots with an interface of that name, or null
  pub find_named : ℕ → List ℕ → List ℕ → ℕ
  find_named zero slots wanted = 0
  find_named (suc n) [] wanted = 0
  find_named (suc n) (p ∷ ps) wanted =
      if not (p == 0) && same_name (name p) wanted then p else find_named n ps wanted

  pub register_interface : ℕ → Interfaces → Bool × Interfaces
  register_interface interface t =
      if not t.initialized
      then (false, t)
      else if interface == 0
      then (false, t)
      else if leb max_interfaces t.interface_count
      then (false, t)
      else if not (find_named t.interface_count t.interfaces (name interface) == 0)
      then (false, t)
      else (
        true,
        record t {
          interfaces = set t.interfaces t.interface_count interface;
          interface_count = t.interface_count + 1;
          default_interface = if t.interface_count + 1 == 1 then interface else t.default_interface;
        },
      )

  -- The name is not null.
  pub get_interface : List ℕ → Interfaces → ℕ
  get_interface wanted t =
      if not t.initialized then 0 else find_named t.interface_count t.interfaces wanted

  pub set_default_by_name : List ℕ → Interfaces → Bool × Interfaces
  set_default_by_name wanted t =
      let interface = get_interface wanted t in
      if interface == 0 then (false, t) else set_default_interface interface t
