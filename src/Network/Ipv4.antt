-- ===== src/Network/Ipv4.antt =====
-- Packets, `kernel::IPv4` of core/network/IPv4.cpp. A frame that arrives is given as its bytes
-- and the length that the driver reports.
pub mod Header
pub mod Accept
pub mod Send
mod Tests
use palmyra_os.Prelude.{
  ℕ, ◌+◌, ◌-◌, ◌*◌, ◌/◌, ◌%◌, ◌^◌, bit_and, Bool, true, false, not, ◌&&◌, ◌||◌, Option, none, some,
  List, [], ◌∷◌, ◌++◌, ltb, leb, ◌==◌, if◌then◌else◌, length, take, drop,
}
use palmyra_os.Network.ByteOrder.{
  to_big_endian16, from_big_endian16, to_big_endian32, from_big_endian32, store16, store32, load16,
  load32, byte_at,
}
use palmyra_os.Network.Checksum.{add_words, fold_carries, fold_rounds, complement16}
use palmyra_os.Network.Link.{Mac, mac_bytes, zero_mac, Link, send_frame}
use palmyra_os.Network.Arp.{Arrival, arp_frame, Host, resolve_mac_address, transmit}
use palmyra_os.Network.Udp.{Udp, Delivery, handle_udp_packet}

abbrev pub version : ℕ
version = 4

abbrev pub header_size : ℕ
header_size = 20

abbrev pub default_ttl : ℕ
default_ttl = 64

abbrev pub protocol_icmp : ℕ
protocol_icmp = 1

abbrev pub protocol_tcp : ℕ
protocol_tcp = 6

abbrev pub protocol_udp : ℕ
protocol_udp = 17

abbrev pub ethernet_header_size : ℕ
ethernet_header_size = 14

abbrev pub max_frame_size : ℕ
max_frame_size = 1514

abbrev pub ethertype_ipv4 : ℕ
ethertype_ipv4 = 0x0800

pub record Ipv4 : Type 0 where
  pub initialized : Bool
  pub local_ip : ℕ
  pub subnet_mask : ℕ
  pub gateway : ℕ

pub initialize : ℕ → ℕ → ℕ → Ipv4 → Bool × Ipv4
initialize local_ip subnet_mask gateway s = if s.initialized then (true, s) else (
  true,
  record { initialized = true; local_ip = local_ip; subnet_mask = subnet_mask; gateway = gateway },
)

unfoldable pub is_local_address : ℕ → Ipv4 → Bool
is_local_address ip s = bit_and ip s.subnet_mask == bit_and s.local_ip s.subnet_mask

-- Of the 20 bytes that a header without options has
pub calculate_checksum : List ℕ → ℕ
calculate_checksum header =
    complement16 (fold_carries fold_rounds (add_words 0 (take header_size header)))

-- The bytes of a `Header` from fields in host order and a checksum field as it is stored
pub build_header : ℕ → ℕ → ℕ → ℕ → ℕ → List ℕ
build_header total_length protocol checksum source_ip dest_ip =
    (version * 2 ^ 4 + header_size / 4) ∷ 0 ∷ store16 (to_big_endian16 total_length)
    ++ (store16 (to_big_endian16 0x1234)
        ++ (store16 (to_big_endian16 0x0000)
            ++ (default_ttl ∷ protocol ∷ store16 checksum
                ++ (store32 (to_big_endian32 source_ip) ++ store32 (to_big_endian32 dest_ip)))))

-- The header that `sendPacket` builds: with the checksum of the header whose checksum is 0.
pub sealed_header : ℕ → ℕ → ℕ → ℕ → List ℕ
sealed_header total_length protocol source_ip dest_ip =
    build_header total_length protocol
      (to_big_endian16
        (calculate_checksum (build_header total_length protocol 0 source_ip dest_ip)))
      source_ip dest_ip

pub build_frame : Mac → Mac → ℕ → List ℕ → ℕ → ℕ → List ℕ
build_frame dest_mac source_mac protocol payload source_ip dest_ip =
    mac_bytes dest_mac
    ++ (mac_bytes source_mac
        ++ (store16 (to_big_endian16 ethertype_ipv4)
            ++ (sealed_header ((header_size + length payload) % 2 ^ 16) protocol source_ip dest_ip
                ++ payload)))

-- `sendPacket`. `arrivals` are the frames that arrive while ARP polls.
pub send_packet : (ℕ → List Arrival) → ℕ → ℕ → List ℕ → Ipv4 → Host → Bool × Host
send_packet arrivals dest_ip protocol payload s h =
    let frame_size = (ethernet_header_size + header_size + length payload) % 2 ^ 32 in
    let next_hop = if is_local_address dest_ip s then dest_ip else s.gateway in
    let (resolved, h') = resolve_mac_address arrivals next_hop true h in
    if not s.initialized
    then (false, h)
    else if ltb max_frame_size frame_size
    then (false, h)
    else elim resolved [
      | none ↦ (false, h')
      | some dest_mac ↦
          if not h'.link.has_default_interface
          then (false, h')
          else transmit
              (build_frame dest_mac h'.link.interface_mac protocol payload s.local_ip dest_ip) h'
    ]

abbrev pub field16 : List ℕ → ℕ → ℕ
field16 bytes i = from_big_endian16 (load16 (byte_at bytes i) (byte_at bytes (1 + i)))

abbrev pub field32 : List ℕ → ℕ → ℕ
field32 bytes i = from_big_endian32 (
    load32 (byte_at bytes i) (byte_at bytes (1 + i)) (byte_at bytes (2 + i))
      (byte_at bytes (3 + i)))

-- The arguments of `routePacket`: the payload is `payload_length` bytes from offset `payload` of
-- the frame on.
pub record Accepted : Type 0 where
  pub source_ip : ℕ
  pub protocol : ℕ
  pub payload : ℕ
  pub payload_length : ℕ

-- `handleIPv4Packet` up to its call of `routePacket`: none if it answers false before.
pub accept_packet : List ℕ → ℕ → Ipv4 → Option Accepted
accept_packet frame frame_length s =
    let header = drop ethernet_header_size frame in
    let version_and_ihl = byte_at header 0 in
    let total_length = field16 header 2 in
    let ihl = version_and_ihl % 2 ^ 4 * 4 in
    let payload_length = (total_length + 2 ^ 32 - ihl) % 2 ^ 32 in
    if not s.initialized
    then none
    else if ltb frame_length (ethernet_header_size + header_size)
    then none
    else if not (version_and_ihl / 2 ^ 4 % 2 ^ 4 == version)
    then none
    else if byte_at header 8 == 0
    then none
    else if not (field32 header 16 == s.local_ip)
    then none
    else if ltb ((frame_length + 2 ^ 32 - ethernet_header_size - ihl) % 2 ^ 32) payload_length
    then none
    else some (record {
      source_ip = field32 header 12;
      protocol = byte_at header 9;
      payload = ethernet_header_size + ihl;
      payload_length = payload_length;
    })

-- What `routePacket` calls: the ICMP module and then the raw ICMP sockets, UDP, or nothing.
pub data Routed : Type 0 where
  dropped : Routed
  to_icmp : ℕ → List ℕ → ℕ → Routed
  to_udp : Option Delivery → Routed

pub route_packet : ℕ → ℕ → List ℕ → ℕ → Ipv4 → Udp → Routed
route_packet source_ip protocol payload payload_length s u =
    if protocol == protocol_icmp
    then to_icmp source_ip payload payload_length
    else if protocol == protocol_udp
    then to_udp (handle_udp_packet payload payload_length source_ip s.local_ip u)
    else dropped

pub handle_ipv4_packet : List ℕ → ℕ → Ipv4 → Udp → Routed
handle_ipv4_packet frame frame_length s u = elim (accept_packet frame frame_length s) [
  | none ↦ dropped
  | some a ↦ route_packet a.source_ip a.protocol (drop a.payload frame) a.payload_length s u
]
