-- ===== src/Network/ByteOrder.antt =====
-- Byte order (core/network/Ethernet.h), and the fields of packed structs as bytes in memory. The
-- machine is little-endian, so a struct's field is stored with its low byte first.
use palmyra_os.Prelude.{ℕ, ◌+◌, ◌*◌, ◌/◌, ◌%◌, ◌^◌, ◌<◌, ◌≡◌, List, [], ◌∷◌, arith, get_or}

unfoldable pub to_big_endian16 : ℕ → ℕ
to_big_endian16 value = value % 2 ^ 8 * 2 ^ 8 + value / 2 ^ 8 % 2 ^ 8

unfoldable pub from_big_endian16 : ℕ → ℕ
unfolding to_big_endian16
from_big_endian16 value = to_big_endian16 value

unfoldable pub to_big_endian32 : ℕ → ℕ
to_big_endian32 value =
    value % 2 ^ 8 * 2 ^ 24
    + value / 2 ^ 8 % 2 ^ 8 * 2 ^ 16
    + value / 2 ^ 16 % 2 ^ 8 * 2 ^ 8
    + value / 2 ^ 24 % 2 ^ 8

unfoldable pub from_big_endian32 : ℕ → ℕ
unfolding to_big_endian32
from_big_endian32 value = to_big_endian32 value

-- A field of two or of four bytes as it stands in memory, and the field at an offset.
abbrev pub store16 : ℕ → List ℕ
store16 v = (v % 2 ^ 8) ∷ (v / 2 ^ 8 % 2 ^ 8) ∷ []

abbrev pub store32 : ℕ → List ℕ
store32 v = (v % 2 ^ 8) ∷ (v / 2 ^ 8 % 2 ^ 8) ∷ (v / 2 ^ 16 % 2 ^ 8) ∷ (v / 2 ^ 24 % 2 ^ 8) ∷ []

abbrev pub byte_at : List ℕ → ℕ → ℕ
byte_at bytes i = get_or bytes i 0

abbrev pub load16 : ℕ → ℕ → ℕ
load16 b0 b1 = b0 + b1 * 2 ^ 8

abbrev pub load32 : ℕ → ℕ → ℕ → ℕ → ℕ
load32 b0 b1 b2 b3 = b0 + b1 * 2 ^ 8 + b2 * 2 ^ 16 + b3 * 2 ^ 24

-- What one machine stores in network order another reads back.
pub load-to_big_endian16 :
    (v : ℕ)
    → v < 2 ^ 16
    → from_big_endian16 (load16 (to_big_endian16 v % 2 ^ 8) (to_big_endian16 v / 2 ^ 8 % 2 ^ 8)) ≡ v
unfolding from_big_endian16
load-to_big_endian16 v h = omega arith

pub load-to_big_endian32 :
    (v : ℕ)
    → v < 2 ^ 32
    → from_big_endian32 (
        load32
          (to_big_endian32 v % 2 ^ 8)
          (to_big_endian32 v / 2 ^ 8 % 2 ^ 8)
          (to_big_endian32 v / 2 ^ 16 % 2 ^ 8)
          (to_big_endian32 v / 2 ^ 24 % 2 ^ 8))
      ≡ v
unfolding from_big_endian32
load-to_big_endian32 v h = omega arith

-- The high byte of a field in network order stands first.
pub store-to_big_endian16 :
    (v : ℕ)
    → v < 2 ^ 16
    → (to_big_endian16 v % 2 ^ 8 ≡ v / 2 ^ 8) × (to_big_endian16 v / 2 ^ 8 % 2 ^ 8 ≡ v % 2 ^ 8)
unfolding to_big_endian16
store-to_big_endian16 v h = omega arith
