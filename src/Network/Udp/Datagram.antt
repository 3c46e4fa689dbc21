-- ===== src/Network/Udp/Datagram.antt =====
-- What `UDP::sendDatagram` builds, `UDP::handleUDPPacket` takes apart again.
use palmyra_os.Prelude.{
  ℕ, ◌+◌, ◌-◌, ◌%◌, ◌^◌, ◌≤◌, ◌<◌, ◌≡◌, ◌≢◌, inl, inr, refl, sym, ◌∙◌, true, ◌&&◌, some, List, [],
  ◌∷◌, ◌++◌, ◌==◌, length, take, drop, arith, Bool-cases, ne→==, take-all,
}
use palmyra_os.Network.ByteOrder.{to_big_endian16, load-to_big_endian16}
use palmyra_os.Network.Udp.{
  Udp, PortBinding, header_size, max_datagram_size, find_binding, find_port_binding, build_header,
  calculate_checksum, build_datagram, send_datagram, field16, expected_checksum, dispatch,
  handle_udp_packet,
}

calculate_checksum-range :
    (source_ip destination_ip : ℕ) (header bytes : List ℕ)
    → (calculate_checksum source_ip destination_ip header bytes ≢ 0)
      × (calculate_checksum source_ip destination_ip header bytes < 2 ^ 16)
unfolding calculate_checksum
calculate_checksum-range source_ip destination_ip header bytes = ground arith

find_binding-active :
    (port : ℕ) (bs : List PortBinding) (b : PortBinding)
    → find_binding port bs ≡ some b
    → b.active ≡ true
unfolding find_binding
find_binding-active port [] b h = cc
find_binding-active port (c ∷ bs) b h = elim (Bool-cases (c.active && c.port == port)) [
  | inl hit ↦ ground (arith, h)
  | inr miss ↦ find_binding-active port bs b (ground (arith, h))
]

find_port_binding-active :
    (port : ℕ) (u : Udp) (b : PortBinding) → find_port_binding port u ≡ some b → b.active ≡ true
unfolding find_port_binding
find_port_binding-active port u b h = find_binding-active port u.port_bindings b h

-- What the receiver reads in a header and the data behind it.
record Reads (source_port destination_port k : ℕ) (bytes payload : List ℕ) : Type 0 where
  source : field16 payload 0 ≡ source_port
  destination : field16 payload 2 ≡ destination_port
  datagram_length : field16 payload 4 ≡ header_size + length bytes
  checksum : field16 payload 6 ≡ k
  content : drop 8 payload ≡ bytes
  without_checksum :
      take 6 payload ++ 0 ∷ 0 ∷ []
      ≡ build_header source_port destination_port (header_size + length bytes) 0

build_header-Reads :
    (source_port destination_port k : ℕ) (bytes : List ℕ)
    → source_port < 2 ^ 16
    → destination_port < 2 ^ 16
    → header_size + length bytes < 2 ^ 16
    → k < 2 ^ 16
    → Reads source_port destination_port k bytes (
        build_header source_port destination_port (header_size + length bytes) (to_big_endian16 k)
        ++ bytes)
unfolding build_header
build_header-Reads source_port destination_port k bytes hs hd hl hk = record {
  source = load-to_big_endian16 source_port hs;
  destination = load-to_big_endian16 destination_port hd;
  datagram_length = load-to_big_endian16 (header_size + length bytes) hl;
  checksum = load-to_big_endian16 k hk;
  content = refl;
  without_checksum = refl;
}

module _ (local_ip destination_ip source_port destination_port : ℕ) (bytes : List ℕ) where
  abbrev pub datagram : List ℕ
  datagram = build_datagram local_ip destination_ip source_port destination_port bytes

  abbrev checksum : ℕ
  checksum =
      calculate_checksum local_ip destination_ip
        (build_header source_port destination_port (header_size + length bytes) 0) bytes

  module _ (small : header_size + length bytes < 2 ^ 16) where
    datagram_eq :
        datagram
        ≡ build_header source_port destination_port
            (header_size + length bytes)
            (to_big_endian16 checksum)
          ++ bytes
    unfolding build_datagram
    datagram_eq =
        let no_wrap : (header_size + length bytes) % 2 ^ 16 ≡ header_size + length bytes =
          omega arith in
        let range =
          calculate_checksum-range local_ip destination_ip
            (build_header source_port destination_port (header_size + length bytes) 0) bytes in
        rw no_wrap (rw (ne→== _ 0 range.0) refl)

    module _ (hs : source_port < 2 ^ 16) (hd : destination_port < 2 ^ 16) where
      datagram-Reads : Reads source_port destination_port checksum bytes datagram
      datagram-Reads =
          let range =
            calculate_checksum-range local_ip destination_ip
              (build_header source_port destination_port (header_size + length bytes) 0) bytes in
          rw datagram_eq
            (build_header-Reads source_port destination_port checksum bytes hs hd small range.1)

      content_eq : take (field16 datagram 4 - header_size) (drop 8 datagram) ≡ bytes
      content_eq =
          let r = datagram-Reads in
          let n : field16 datagram 4 - header_size ≡ length bytes =
            omega (arith, r.datagram_length) in
          rw n (rw r.content (take-all bytes))

      expected_checksum_lem :
          expected_checksum local_ip destination_ip datagram ≡ field16 datagram 6
      unfolding expected_checksum
      expected_checksum_lem =
          let r = datagram-Reads in rw content_eq (rw r.without_checksum (sym r.checksum))

      handle_datagram :
          (u : Udp)
          → u.initialized ≡ true
          → handle_udp_packet datagram (header_size + length bytes) local_ip destination_ip u
            ≡ dispatch local_ip datagram u
      unfolding handle_udp_packet
      handle_datagram u on =
          let r = datagram-Reads in ground (arith, on, r.datagram_length, expected_checksum_lem)

      dispatch-bound :
          (payload : List ℕ)
          → field16 payload 0 ≡ source_port
          → field16 payload 2 ≡ destination_port
          → take (field16 payload 4 - header_size) (drop 8 payload) ≡ bytes
          → (u : Udp) (b : PortBinding) → find_port_binding destination_port u ≡ some b
          → b.handler ≢ 0
          → dispatch local_ip payload u
            ≡ some (record {
              handler = b.handler;
              source_ip = local_ip;
              source_port = source_port;
              content = bytes;
            })
      unfolding dispatch
      dispatch-bound payload s d c u b bound h =
          ground (arith, d, bound, c, s, find_port_binding-active destination_port u b bound)

      -- A datagram that `sendDatagram` builds, of less than 2 ^ 16 bytes with its header, is
      -- accepted by `handleUDPPacket` of a machine that has bound the destination port to a
      -- handler that is not null: the handler is called with the sender's address and port and
      -- with exactly the bytes sent. It supposes 16-bit ports and the addresses that were sent
      -- with.
      pub handle_udp_packet-build_datagram :
          (u : Udp) (b : PortBinding)
          → u.initialized ≡ true
          → find_port_binding destination_port u ≡ some b
          → b.handler ≢ 0
          → handle_udp_packet datagram (header_size + length bytes) local_ip destination_ip u
            ≡ some (record {
              handler = b.handler;
              source_ip = local_ip;
              source_port = source_port;
              content = bytes;
            })
      unfolding dispatch
      handle_udp_packet-build_datagram u b on bound h =
          let r = datagram-Reads in
          handle_datagram u on
          ∙ dispatch-bound datagram r.source r.destination content_eq u b bound h

pub length-datagram :
    (local_ip destination_ip source_port destination_port : ℕ) (bytes : List ℕ)
    → length (datagram local_ip destination_ip source_port destination_port bytes)
      ≡ header_size + length bytes
unfolding build_datagram build_header
length-datagram local_ip destination_ip source_port destination_port bytes = omega arith

-- `sendDatagram` with a port of its own hands the datagram to IPv4.
pub send_datagram-some :
    (local_ip destination_ip source_port destination_port : ℕ) (bytes : List ℕ) (u : Udp)
    → u.initialized ≡ true
    → source_port ≢ 0
    → length bytes ≤ max_datagram_size
    → send_datagram local_ip destination_ip destination_port source_port bytes u
      ≡ (some (datagram local_ip destination_ip source_port destination_port bytes), u)
unfolding send_datagram
send_datagram-some local_ip destination_ip source_port destination_port bytes u on h l =
    ground (arith, ne→== source_port 0 h, on, l)
