-- ===== src/Network/Link.antt =====
-- MAC addresses (core/network/Ethernet.h), and the way out of the machine:
-- `NetworkManager::sendPacket` of core/network/NetworkManager.cpp. What the driver of the default
-- interface does with a frame is the function `transmits`.
use palmyra_os.Prelude.{ℕ, ◌+◌, Bool, true, false, not, List, [], ◌∷◌, ◌++◌, if◌then◌else◌, get_or}

pub record Mac : Type 0 where
  pub b0 : ℕ
  pub b1 : ℕ
  pub b2 : ℕ
  pub b3 : ℕ
  pub b4 : ℕ
  pub b5 : ℕ

abbrev pub mac_bytes : Mac → List ℕ
mac_bytes m = m.b0 ∷ m.b1 ∷ m.b2 ∷ m.b3 ∷ m.b4 ∷ m.b5 ∷ []

-- The six bytes from offset `i` on.
abbrev pub mac_at : List ℕ → ℕ → Mac
mac_at bytes i = record {
  b0 = get_or bytes i 0;
  b1 = get_or bytes (1 + i) 0;
  b2 = get_or bytes (2 + i) 0;
  b3 = get_or bytes (3 + i) 0;
  b4 = get_or bytes (4 + i) 0;
  b5 = get_or bytes (5 + i) 0;
}

abbrev pub broadcast_mac : Mac
broadcast_mac = record { b0 = 0xff; b1 = 0xff; b2 = 0xff; b3 = 0xff; b4 = 0xff; b5 = 0xff }

abbrev pub zero_mac : Mac
zero_mac = record { b0 = 0; b1 = 0; b2 = 0; b3 = 0; b4 = 0; b5 = 0 }

-- The network manager, its default interface, and the frames that the driver took, in order.
pub record Link : Type 0 where
  pub initialized : Bool
  pub has_default_interface : Bool
  pub is_up : Bool
  pub interface_mac : Mac
  pub transmits : List ℕ → Bool
  pub wire : List (List ℕ)

unfoldable pub send_frame : List ℕ → Link → Bool × Link
send_frame frame l =
    if not l.initialized
    then (false, l)
    else if not l.has_default_interface
    then (false, l)
    else if not l.is_up
    then (false, l)
    else if l.transmits frame
    then (true, record l { wire = l.wire ++ frame ∷ [] })
    else (false, l)
