-- ===== src/Network/Ipv4/Send.antt =====
-- `IPv4::sendPacket`, and a datagram's way from `UDP::sendDatagram` of one machine to the handler
-- on another.
use palmyra_os.Prelude.{
  ℕ, ◌+◌, ◌%◌, ◌^◌, ◌≤◌, ◌<◌, ◌≡◌, ◌≢◌, refl, ◌∙◌, ap, true, false, some, if◌then◌else◌, ltb, List,
  [], ◌∷◌, ◌++◌, length, drop, arith,
}
use palmyra_os.Network.Link.{Mac}
use palmyra_os.Network.Arp.{Arrival, Host, resolve_mac_address}
use palmyra_os.Network.Arp.Exchange.{Works, send_frame-Works}
use palmyra_os.Network.Udp.{Udp, PortBinding, send_datagram, find_port_binding, handle_udp_packet}
use palmyra_os.Network.Udp.Datagram.{
  datagram, handle_udp_packet-build_datagram, length-datagram, send_datagram-some,
}
use palmyra_os.Network.Ipv4.{
  Ipv4, Accepted, Routed, dropped, to_icmp, to_udp, header_size, ethernet_header_size,
  max_frame_size, protocol_udp, sealed_header, build_frame, accept_packet, route_packet,
  handle_ipv4_packet, send_packet, is_local_address,
}
use palmyra_os.Network.Ipv4.Accept.{accept_packet-build_frame}

abbrev pub next_hop : ℕ → Ipv4 → ℕ
next_hop dest_ip s = if is_local_address dest_ip s then dest_ip else s.gateway

abbrev pub put_on_wire : List ℕ → Host → Host
put_on_wire frame h = record h { link = record h.link { wire = h.link.wire ++ frame ∷ [] } }

module _ (arrivals : ℕ → List Arrival) (dest_ip protocol : ℕ) (payload : List ℕ) (s : Ipv4)
    (h : Host) where
  -- `sendPacket` refuses a packet that is larger than a frame, whatever the state, and then
  -- nothing changes.
  pub send_packet-too_large :
      max_frame_size < ethernet_header_size + header_size + length payload
      → length payload < 2 ^ 31
      → send_packet arrivals dest_ip protocol payload s h ≡ (false, h)
  unfolding send_packet
  send_packet-too_large l r = ground arith

  pub send_packet-Works :
      (mac : Mac) (h' : Host)
      → s.initialized ≡ true
      → ethernet_header_size + header_size + length payload ≤ max_frame_size
      → resolve_mac_address arrivals (next_hop dest_ip s) true h ≡ (some mac, h')
      → Works h'.link
      → send_packet arrivals dest_ip protocol payload s h ≡ (
        true,
        put_on_wire (build_frame mac h'.link.interface_mac protocol payload s.local_ip dest_ip) h',
      )
  unfolding send_packet
  send_packet-Works mac h' on small resolved w =
      let n : ltb max_frame_size ((ethernet_header_size + header_size + length payload) % 2 ^ 32)
          ≡ false =
        ground arith in
      simp (on, n, resolved, w.has_default_interface, send_frame-Works _ h'.link w)

length-build_frame :
    (dest_mac source_mac : Mac) (protocol : ℕ) (payload : List ℕ) (source_ip dest_ip : ℕ)
    → length (build_frame dest_mac source_mac protocol payload source_ip dest_ip)
      ≡ ethernet_header_size + header_size + length payload
unfolding build_frame sealed_header palmyra_os.Network.Ipv4.build_header
length-build_frame dest_mac source_mac protocol payload source_ip dest_ip = omega arith

handle_ipv4_packet-some :
    (frame : List ℕ) (n : ℕ) (s : Ipv4) (u : Udp) (a : Accepted)
    → accept_packet frame n s ≡ some a
    → handle_ipv4_packet frame n s u
      ≡ route_packet a.source_ip a.protocol (drop a.payload frame) a.payload_length s u
unfolding handle_ipv4_packet
handle_ipv4_packet-some frame n s u a taken = ground (arith, taken)

route_packet-udp :
    (source_ip : ℕ) (bytes payload : List ℕ) (n : ℕ) (s : Ipv4) (u : Udp) (dest_ip : ℕ)
    → bytes ≡ payload
    → s.local_ip ≡ dest_ip
    → route_packet source_ip protocol_udp bytes n s u
      ≡ to_udp (handle_udp_packet payload n source_ip dest_ip u)
unfolding route_packet
route_packet-udp source_ip bytes payload n s u dest_ip same mine = rw same (rw mine refl)

-- A receiver that a frame with a datagram is for hands it to UDP.
handle_ipv4_packet-udp :
    (dest_mac source_mac : Mac) (payload : List ℕ) (source_ip dest_ip : ℕ) (s : Ipv4) (u : Udp)
    → header_size + length payload < 2 ^ 16
    → source_ip < 2 ^ 32
    → dest_ip < 2 ^ 32
    → s.initialized ≡ true
    → s.local_ip ≡ dest_ip
    → handle_ipv4_packet
        (build_frame dest_mac source_mac protocol_udp payload source_ip dest_ip)
        (ethernet_header_size + header_size + length payload)
        s
        u
      ≡ to_udp (handle_udp_packet payload (length payload) source_ip dest_ip u)
handle_ipv4_packet-udp dest_mac source_mac payload source_ip dest_ip s u hl hs hd on mine =
    let (taken, content) =
      accept_packet-build_frame dest_mac source_mac protocol_udp payload source_ip dest_ip s hl hs
        hd on mine in
    handle_ipv4_packet-some _ _ s u _ taken
    ∙ route_packet-udp source_ip _ payload (length payload) s u dest_ip content mine

module _ (arrivals : ℕ → List Arrival) (source_port dest_port : ℕ) (bytes : List ℕ) where
  module _ (s s' : Ipv4) (u u' : Udp) (h h' : Host) (mac : Mac) (b : PortBinding) where
    abbrev pub sent_datagram : List ℕ
    sent_datagram = datagram s.local_ip s'.local_ip source_port dest_port bytes

    abbrev pub sent_frame : List ℕ
    sent_frame =
        build_frame mac h'.link.interface_mac protocol_udp sent_datagram s.local_ip s'.local_ip

    -- `sendDatagram` on one machine reaches the handler on another. If the next hop's MAC
    -- address is resolved and the link works, then the datagram goes out in one frame, and the
    -- machine with the destination address, having bound the port to a handler that is not
    -- null, calls it with the sender's address and port and exactly the bytes that were sent.
    -- Both machines are initialised, the ports are 16-bit numbers, the sender's not 0, the
    -- addresses 32-bit numbers, and the bytes fit a frame.
    pub delivery_lem :
        (s.initialized ≡ true) × (s'.initialized ≡ true)
        → (u.initialized ≡ true) × (u'.initialized ≡ true)
        → (source_port ≢ 0) × (source_port < 2 ^ 16) × (dest_port < 2 ^ 16)
        → (s.local_ip < 2 ^ 32) × (s'.local_ip < 2 ^ 32)
        → length bytes ≤ 1472
        → resolve_mac_address arrivals (next_hop s'.local_ip s) true h ≡ (some mac, h')
        → Works h'.link
        → find_port_binding dest_port u' ≡ some b
        → b.handler ≢ 0
        → (send_datagram s.local_ip s'.local_ip dest_port source_port bytes u
            ≡ (some sent_datagram, u))
          × (send_packet arrivals s'.local_ip protocol_udp sent_datagram s h
              ≡ (true, put_on_wire sent_frame h'))
          × (handle_ipv4_packet sent_frame (length sent_frame) s' u'
              ≡ to_udp (
                  some (record {
                    handler = b.handler;
                    source_ip = s.local_ip;
                    source_port = source_port;
                    content = bytes;
                  })))
    delivery_lem (on, on') (udp_on, udp_on') (hn, hs, hd) (ha, ha') small resolved w bound hh =
        let n = length-datagram s.local_ip s'.local_ip source_port dest_port bytes in
        (
          send_datagram-some s.local_ip s'.local_ip source_port dest_port bytes u udp_on hn
              (omega arith),
          send_packet-Works arrivals s'.local_ip protocol_udp sent_datagram s h mac h' on
              (omega (arith, n)) resolved w,
          rw
              (length-build_frame mac h'.link.interface_mac protocol_udp sent_datagram s.local_ip
                s'.local_ip)
              (handle_ipv4_packet-udp mac h'.link.interface_mac sent_datagram s.local_ip s'.local_ip
                  s' u' (omega (arith, n)) ha ha' on' refl
                ∙ ap to_udp (
                    rw n (
                      handle_udp_packet-build_datagram s.local_ip s'.local_ip source_port dest_port
                        bytes (omega arith) hs hd u' b udp_on' bound hh))),
        )
