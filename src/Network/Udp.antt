-- ===== src/Network/Udp.antt =====
-- Datagrams and port bindings, `kernel::UDP` of core/network/UDP.cpp. A handler is the address of
-- a function, 0 for null.
pub mod Ports
pub mod Bindings
pub mod Ephemeral
pub mod Datagram
mod Tests
use palmyra_os.Prelude.{
  ℕ, zero, suc, ◌+◌, ◌-◌, ◌*◌, ◌/◌, ◌%◌, ◌^◌, Bool, true, false, not, ◌&&◌, ◌||◌, Option, none,
  some, List, [], ◌∷◌, ◌++◌, ltb, leb, ◌==◌, if◌then◌else◌, length, take, drop,
}
use palmyra_os.Network.ByteOrder.{to_big_endian16, from_big_endian16, store16, load16, byte_at}
use palmyra_os.Network.Checksum.{add_words, fold_carries, fold_rounds, complement16}

abbrev pub max_datagram_size : ℕ
max_datagram_size = 65507

abbrev pub header_size : ℕ
header_size = 8

abbrev pub max_bound_ports : ℕ
max_bound_ports = 16

abbrev pub dynamic_port_start : ℕ
dynamic_port_start = 49152

abbrev pub dynamic_port_end : ℕ
dynamic_port_end = 65535

abbrev pub protocol_udp : ℕ
protocol_udp = 17

pub record PortBinding : Type 0 where
  pub port : ℕ
  pub handler : ℕ
  pub active : Bool

pub record Udp : Type 0 where
  pub initialized : Bool
  pub next_ephemeral_port : ℕ
  pub port_bindings : List PortBinding
  pub bound_port_count : ℕ

abbrev pub unbound : PortBinding
unbound = record { port = 0; handler = 0; active = false }

clear_bindings : List PortBinding → List PortBinding
clear_bindings [] = []
clear_bindings (b ∷ bs) = unbound ∷ clear_bindings bs

pub initialize : Udp → Bool × Udp
unfolding clear_bindings
initialize u = if u.initialized then (true, u) else (
  true,
  record {
    initialized = true;
    next_ephemeral_port = dynamic_port_start;
    port_bindings = clear_bindings u.port_bindings;
    bound_port_count = 0;
  },
)

-- `findPortBinding`, over the slots: the binding that it finds.
unfoldable pub find_binding : ℕ → List PortBinding → Option PortBinding
find_binding port [] = none
find_binding port (b ∷ bs) = if b.active && b.port == port then some b else find_binding port bs

unfoldable pub find_port_binding : ℕ → Udp → Option PortBinding
find_port_binding port u = find_binding port u.port_bindings

-- The loop of `bindPort`: the first slot that is not active is filled.
pub fill_slot : ℕ → ℕ → List PortBinding → Option (List PortBinding)
fill_slot port handler [] = none
fill_slot port handler (b ∷ bs) =
    if not b.active
    then some (record { port = port; handler = handler; active = true } ∷ bs)
    else elim (fill_slot port handler bs) [ none ↦ none | some bs' ↦ some (b ∷ bs') ]

pub bind_port : ℕ → ℕ → Udp → Bool × Udp
bind_port port handler u =
    if not u.initialized
    then (false, u)
    else if port == 0 || handler == 0
    then (false, u)
    else elim (find_port_binding port u) [
      | some b ↦ (false, u)
      | none ↦
          if leb max_bound_ports u.bound_port_count
          then (false, u)
          else elim (fill_slot port handler u.port_bindings) [
            | some bs ↦ (
              true,
              record u { port_bindings = bs; bound_port_count = (u.bound_port_count + 1) % 2 ^ 8 },
            )
            | none ↦ (false, u)
          ]
    ]

-- `binding->active = false; binding->handler = nullptr` on the binding that is found.
pub empty_slot : ℕ → List PortBinding → List PortBinding
empty_slot port [] = []
empty_slot port (b ∷ bs) =
    if b.active && b.port == port
    then record b { active = false; handler = 0 } ∷ bs
    else b ∷ empty_slot port bs

pub unbind_port : ℕ → Udp → Bool × Udp
unbind_port port u = if not u.initialized then (false, u) else elim (find_port_binding port u) [
  | none ↦ (false, u)
  | some b ↦ (
    true,
    record u {
      port_bindings = empty_slot port u.port_bindings;
      bound_port_count = (u.bound_port_count + 2 ^ 8 - 1) % 2 ^ 8;
    },
  )
]

-- `nextEphemeralPort_++` on a uint16_t, and the test behind it.
pub advance_port : ℕ → ℕ
advance_port port =
    let next = (port + 1) % 2 ^ 16 in if ltb dynamic_port_end next then dynamic_port_start else next

-- The attempts of `allocateEphemeralPort`, `n` of them left.
pub attempt_port : ℕ → Udp → ℕ × Udp
attempt_port zero u = (0, u)
attempt_port (suc n) u =
    let candidate = u.next_ephemeral_port in
    let u' = record u { next_ephemeral_port = advance_port candidate } in
    let rest = attempt_port n u' in
    elim (find_port_binding candidate u') [ none ↦ (candidate, u') | some b ↦ rest ]

pub allocate_ephemeral_port : Udp → ℕ × Udp
allocate_ephemeral_port u = attempt_port 100 u

-- The pseudo-header: both addresses with the high byte first, 0, the protocol, and the length.
pub pseudo_header : ℕ → ℕ → ℕ → List ℕ
pseudo_header source_ip destination_ip data_length =
    let len = (header_size + data_length) % 2 ^ 16 in
    (source_ip / 2 ^ 24 % 2 ^ 8)
    ∷ (source_ip / 2 ^ 16 % 2 ^ 8)
    ∷ (source_ip / 2 ^ 8 % 2 ^ 8)
    ∷ (source_ip % 2 ^ 8)
    ∷ (destination_ip / 2 ^ 24 % 2 ^ 8)
    ∷ (destination_ip / 2 ^ 16 % 2 ^ 8)
    ∷ (destination_ip / 2 ^ 8 % 2 ^ 8)
    ∷ (destination_ip % 2 ^ 8)
    ∷ 0
    ∷ protocol_udp
    ∷ (len / 2 ^ 8 % 2 ^ 8)
    ∷ (len % 2 ^ 8)
    ∷ []

-- The eight bytes of a header, from fields in host order and a checksum field as it is stored.
pub build_header : ℕ → ℕ → ℕ → ℕ → List ℕ
build_header source_port destination_port datagram_length checksum =
    store16 (to_big_endian16 source_port)
    ++ (store16 (to_big_endian16 destination_port)
        ++ (store16 (to_big_endian16 datagram_length) ++ store16 checksum))

-- `calculateChecksumWithPseudoHeader` over a header's bytes and the data.
pub calculate_checksum : ℕ → ℕ → List ℕ → List ℕ → ℕ
calculate_checksum source_ip destination_ip header bytes =
    let sum =
      add_words
        (add_words (add_words 0 (pseudo_header source_ip destination_ip (length bytes))) header)
        bytes in
    let result = complement16 (fold_carries fold_rounds sum) in
    if result == 0 then 0xffff else result

-- The bytes that `sendDatagram` hands to IPv4.
pub build_datagram : ℕ → ℕ → ℕ → ℕ → List ℕ → List ℕ
build_datagram local_ip destination_ip source_port destination_port bytes =
    let len = (header_size + length bytes) % 2 ^ 16 in
    let checksum =
      calculate_checksum local_ip destination_ip (build_header source_port destination_port len 0)
        bytes in
    build_header source_port destination_port len
      (to_big_endian16 (if checksum == 0 then 0xffff else checksum))
    ++ bytes

-- `sendDatagram` down to `IPv4::sendPacket`: none if it gives up before, else the datagram.
pub send_datagram : ℕ → ℕ → ℕ → ℕ → List ℕ → Udp → Option (List ℕ) × Udp
send_datagram local_ip destination_ip destination_port source_port bytes u =
    let (port, u') = if source_port == 0 then allocate_ephemeral_port u else (source_port, u) in
    if not u.initialized
    then (none, u)
    else if ltb max_datagram_size (length bytes)
    then (none, u)
    else if port == 0
    then (none, u')
    else (some (build_datagram local_ip destination_ip port destination_port bytes), u')

-- A handler's call.
pub record Delivery : Type 0 where
  pub handler : ℕ
  pub source_ip : ℕ
  pub source_port : ℕ
  pub content : List ℕ

abbrev pub field16 : List ℕ → ℕ → ℕ
field16 payload i = from_big_endian16 (load16 (byte_at payload i) (byte_at payload (1 + i)))

-- The checksum that is compared: `tempHeader` is the header with its checksum field 0.
pub expected_checksum : ℕ → ℕ → List ℕ → ℕ
expected_checksum source_ip destination_ip payload =
    calculate_checksum source_ip destination_ip (take 6 payload ++ 0 ∷ 0 ∷ [])
      (take (field16 payload 4 - header_size) (drop 8 payload))

pub dispatch : ℕ → List ℕ → Udp → Option Delivery
dispatch source_ip payload u = elim (find_port_binding (field16 payload 2) u) [
  | none ↦ none
  | some b ↦
      if b.active && not (b.handler == 0)
      then some (record {
        handler = b.handler;
        source_ip = source_ip;
        source_port = field16 payload 0;
        content = take (field16 payload 4 - header_size) (drop 8 payload);
      })
      else none
]

-- `payload` is what stands from the UDP header on, and `payload_length` what IPv4 says of it.
-- The handler's call, if the code answers true.
pub handle_udp_packet : List ℕ → ℕ → ℕ → ℕ → Udp → Option Delivery
handle_udp_packet payload payload_length source_ip destination_ip u =
    let datagram_length = field16 payload 4 in
    let received = field16 payload 6 in
    if not u.initialized
    then none
    else if ltb payload_length header_size
    then none
    else if ltb datagram_length header_size || ltb payload_length datagram_length
    then none
    else if not (received == 0)
        && not (expected_checksum source_ip destination_ip payload == received)
    then none
    else dispatch source_ip payload u
