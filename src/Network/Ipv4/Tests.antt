-- ===== src/Network/Ipv4/Tests.antt =====
-- Machines 10.0.2.15 and 10.0.2.2 on one subnet, the first knowing the second's MAC address.
use palmyra_os.Prelude.{
  ℕ, ◌+◌, ◌≤◌, ◌<◌, ◌≡◌, refl, true, some, List, [], ◌∷◌, ◌++◌, replicate, arith, length,
}
use palmyra_os.Network.ByteOrder.{from_big_endian16, from_big_endian32}
use palmyra_os.Network.Link.{Mac}
use palmyra_os.Network.Arp.{Arrival, Host, resolve_mac_address}
use palmyra_os.Network.Arp.Cache.{cached_in}
use palmyra_os.Network.Arp.Exchange.{Works}
use palmyra_os.Network.Arp.Resolve.{resolve-known}
use palmyra_os.Network.Udp.{Udp, unbound, find_binding, find_port_binding, send_datagram}
use palmyra_os.Network.Udp.Ports.{new_binding}
use palmyra_os.Network.Ipv4.{
  Ipv4, Accepted, to_udp, calculate_checksum, sealed_header, build_header, build_frame,
  accept_packet, handle_ipv4_packet, send_packet, is_local_address,
}
use palmyra_os.Network.Ipv4.Header.{calculate_checksum-sealed_header}
use palmyra_os.Network.Ipv4.Accept.{
  IsForUs, ihl, total_length, accept_packet-within, accept_packet-overrun,
}
use palmyra_os.Network.Ipv4.Send.{next_hop, put_on_wire, sent_datagram, sent_frame, delivery_lem}

abbrev mac_a : Mac
mac_a = record { b0 = 0x52; b1 = 0x54; b2 = 0; b3 = 0x12; b4 = 0x34; b5 = 0x56 }

abbrev mac_b : Mac
mac_b = record { b0 = 0x52; b1 = 0x55; b2 = 10; b3 = 0; b4 = 2; b5 = 2 }

abbrev host : Host
host = record {
  arp = record {
    initialized = true;
    local_ip = 0x0a00020f;
    local_mac = mac_a;
    cache =
        record { ip_address = 0x0a000202; mac_address = mac_b; timestamp = 1; valid = true } ∷ [];
    cache_count = 1;
    dummy_time = 1;
  };
  link = record {
    initialized = true;
    has_default_interface = true;
    is_up = true;
    interface_mac = mac_a;
    transmits = λ frame. true;
    wire = [];
  };
}

host-Works : Works host.link
host-Works = record {
  initialized = refl;
  has_default_interface = refl;
  is_up = refl;
  transmits = λ frame. refl;
}

abbrev ipv4 : ℕ → Ipv4
ipv4 ip = record {
  initialized = true;
  local_ip = ip;
  subnet_mask = 0xffffff00;
  gateway = 0x0a000201;
}

abbrev udp : Udp
udp = record {
  initialized = true;
  next_ephemeral_port = 49152;
  port_bindings = new_binding 53 0x1000 ∷ replicate 15 unbound;
  bound_port_count = 1;
}

abbrev quiet : ℕ → List Arrival
quiet k = []

resolved :
    resolve_mac_address quiet (next_hop 0x0a000202 (ipv4 0x0a00020f)) true host ≡ (some mac_b, host)
unfolding is_local_address cached_in
resolved = resolve-known quiet 0x0a000202 host mac_b refl refl

sealed_header_example : calculate_checksum (sealed_header 31 17 0x0a00020f 0x0a000202) ≡ 0
sealed_header_example = calculate_checksum-sealed_header 31 17 0x0a00020f 0x0a000202 (omega arith)

delivery_example :
    let a = ipv4 0x0a00020f in
    let b = ipv4 0x0a000202 in
    let bytes : List ℕ = 1 ∷ 2 ∷ 3 ∷ [] in
    let datagram =
      sent_datagram quiet 40000 53 bytes a b udp udp host host mac_b (new_binding 53 0x1000) in
    let frame =
      sent_frame quiet 40000 53 bytes a b udp udp host host mac_b (new_binding 53 0x1000) in
    (send_datagram 0x0a00020f 0x0a000202 53 40000 bytes udp ≡ (some datagram, udp))
    × (send_packet quiet 0x0a000202 17 datagram a host ≡ (true, put_on_wire frame host))
    × (handle_ipv4_packet frame (length frame) b udp
        ≡ to_udp (
            some (record {
              handler = 0x1000;
              source_ip = 0x0a00020f;
              source_port = 40000;
              content = bytes;
            })))
unfolding find_port_binding find_binding
delivery_example =
    delivery_lem quiet 40000 53 (1 ∷ 2 ∷ 3 ∷ []) (ipv4 0x0a00020f) (ipv4 0x0a000202) udp udp host
      host mac_b (new_binding 53 0x1000) (refl, refl) (refl, refl)
      (omega arith, omega arith, omega arith) (omega arith, omega arith) (omega arith) resolved
      host-Works refl (omega arith)

abbrev payload : List ℕ
payload = 1 ∷ 2 ∷ 3 ∷ []

abbrev whole_frame : List ℕ
whole_frame = build_frame mac_b mac_a 17 payload 0x0a00020f 0x0a000202

abbrev taken : Accepted
taken = record { source_ip = 0x0a00020f; protocol = 17; payload = 34; payload_length = 3 }

whole_frame-taken : accept_packet whole_frame 37 (ipv4 0x0a000202) ≡ some taken
unfolding accept_packet build_frame sealed_header build_header from_big_endian16 from_big_endian32
whole_frame-taken = refl

within_example :
    IsForUs whole_frame 37 (ipv4 0x0a000202)
    × (3 + ihl whole_frame ≡ total_length whole_frame)
    × (34 + 3 ≤ 37)
unfolding build_frame sealed_header build_header
within_example =
    accept_packet-within whole_frame 37 (ipv4 0x0a000202) taken (omega arith) (omega arith)
      whole_frame-taken

-- A header that claims 60 bytes in a frame of 60, and a total length of 1000.
abbrev short_frame : List ℕ
short_frame =
    replicate 14 0
    ++ 0x4f
      ∷ 0
      ∷ 3
      ∷ 0xe8
      ∷ 0
      ∷ 0
      ∷ 0
      ∷ 0
      ∷ 64
      ∷ 17
      ∷ 0
      ∷ 0
      ∷ 10
      ∷ 0
      ∷ 2
      ∷ 15
      ∷ 10
      ∷ 0
      ∷ 2
      ∷ 2
      ∷ replicate 26 0

short_frame-IsForUs : IsForUs short_frame 60 (ipv4 0x0a000202)
unfolding from_big_endian32
short_frame-IsForUs = record {
  initialized = refl;
  long_enough = omega arith;
  version_read = refl;
  alive = omega arith;
  addressed = refl;
}

overrun_example :
    (a : Accepted) × (accept_packet short_frame 60 (ipv4 0x0a000202) ≡ some a)
    × (a.payload_length + 60 ≡ total_length short_frame)
    × (60 < a.payload)
unfolding from_big_endian16
overrun_example =
    accept_packet-overrun short_frame 60 (ipv4 0x0a000202) (omega arith) (omega arith)
      short_frame-IsForUs
