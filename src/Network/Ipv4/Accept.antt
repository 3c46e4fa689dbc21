-- ===== src/Network/Ipv4/Accept.antt =====
-- Which frames `IPv4::handleIPv4Packet` accepts, and what it takes for their payload.
use palmyra_os.Prelude.{
  ℕ, ◌+◌, ◌-◌, ◌*◌, ◌/◌, ◌%◌, ◌^◌, ◌≤◌, ◌<◌, ◌≡◌, ◌≢◌, refl, ◌∙◌, sym, true, not, Option, some,
  ◌==◌, ltb, List, length, drop, arith, if-none, some_inj,
}
use palmyra_os.Network.ByteOrder.{
  byte_at, from_big_endian16, load-to_big_endian16, load-to_big_endian32,
}
use palmyra_os.Network.Link.{Mac}
use palmyra_os.Network.Ipv4.{
  Ipv4, Accepted, header_size, ethernet_header_size, version, build_header, sealed_header,
  build_frame, accept_packet, field16, field32,
}

-- The fields of a header that are read.
abbrev pub header_of : List ℕ → List ℕ
header_of frame = drop ethernet_header_size frame

abbrev pub ihl : List ℕ → ℕ
ihl frame = byte_at (header_of frame) 0 % 2 ^ 4 * 4

abbrev pub total_length : List ℕ → ℕ
total_length frame = field16 (header_of frame) 2

-- What is demanded of a frame besides its lengths.
pub record IsForUs (frame : List ℕ) (frame_length : ℕ) (s : Ipv4) : Type 0 where
  pub initialized : s.initialized ≡ true
  pub long_enough : ethernet_header_size + header_size ≤ frame_length
  pub version_read : byte_at (header_of frame) 0 / 2 ^ 4 % 2 ^ 4 ≡ version
  pub alive : byte_at (header_of frame) 8 ≢ 0
  pub addressed : field32 (header_of frame) 16 ≡ s.local_ip

module _ (frame : List ℕ) (frame_length : ℕ) (s : Ipv4) where
  abbrev pub payload_length : ℕ
  payload_length = (total_length frame + 2 ^ 32 - ihl frame) % 2 ^ 32

  abbrev pub room : ℕ
  room = (frame_length + 2 ^ 32 - ethernet_header_size - ihl frame) % 2 ^ 32

  abbrev pub accepted : Accepted
  accepted = record {
    source_ip = field32 (header_of frame) 12;
    protocol = byte_at (header_of frame) 9;
    payload = ethernet_header_size + ihl frame;
    payload_length = payload_length;
  }

  pub accept_packet-some :
      IsForUs frame frame_length s
      → payload_length ≤ room
      → accept_packet frame frame_length s ≡ some accepted
  unfolding accept_packet
  accept_packet-some f l =
      ground (arith, f.initialized, f.long_enough, f.version_read, f.alive, f.addressed, l)

  accept_packet-inv :
      (a : Accepted)
      → accept_packet frame frame_length s ≡ some a
      → IsForUs frame frame_length s × (payload_length ≤ room) × (a ≡ accepted)
  unfolding accept_packet
  accept_packet-inv a h =
      let p1 = if-none (not s.initialized) h in
      let p2 = if-none (ltb frame_length (ethernet_header_size + header_size)) p1.1 in
      let p3 = if-none (not (byte_at (header_of frame) 0 / 2 ^ 4 % 2 ^ 4 == version)) p2.1 in
      let p4 = if-none (byte_at (header_of frame) 8 == 0) p3.1 in
      let p5 = if-none (not (field32 (header_of frame) 16 == s.local_ip)) p4.1 in
      let p6 = if-none (ltb room payload_length) p5.1 in
      (
        record {
          initialized = ground (arith, p1.0);
          long_enough = ground (arith, p2.0);
          version_read = ground (arith, p3.0);
          alive = ground (arith, p4.0);
          addressed = ground (arith, p5.0);
        },
        ground (arith, p6.0),
        sym (some_inj p6.1),
      )

  within :
      frame_length < 2 ^ 32
      → ethernet_header_size + ihl frame ≤ frame_length
      → payload_length ≤ room
      → (payload_length + ihl frame ≡ total_length frame)
        × (ethernet_header_size + ihl frame + payload_length ≤ frame_length)
  unfolding from_big_endian16
  within small fits l = omega arith

  -- A packet that is routed is for us, and if its header, options included, lies within the
  -- frame, then the total length is at least the header's and the payload lies within the frame
  -- too. It supposes a frame of less than 2 ^ 32 bytes.
  pub accept_packet-within :
      (a : Accepted)
      → frame_length < 2 ^ 32
      → ethernet_header_size + ihl frame ≤ frame_length
      → accept_packet frame frame_length s ≡ some a
      → IsForUs frame frame_length s
        × (a.payload_length + ihl frame ≡ total_length frame)
        × (a.payload + a.payload_length ≤ frame_length)
  accept_packet-within a small fits h =
      let (f, l, e) = accept_packet-inv a h in let w = within small fits l in rw e (f, w.0, w.1)

  -- A packet for us whose header, options included, reaches beyond the frame is routed all the
  -- same, whenever its total length is at least the header's: the room left is computed below 0
  -- in a uint32_t. Its payload then starts behind the frame's end.
  pub accept_packet-overrun :
      frame_length < ethernet_header_size + ihl frame
      → ihl frame ≤ total_length frame
      → IsForUs frame frame_length s
      → (a : Accepted) × (accept_packet frame frame_length s ≡ some a)
        × (a.payload_length + ihl frame ≡ total_length frame)
        × (frame_length < a.payload)
  unfolding from_big_endian16
  accept_packet-overrun short long f =
      (accepted, accept_packet-some f (omega arith), omega arith, short)

same_fields :
    {s t p q i j l m : ℕ}
    → s ≡ t
    → p ≡ q
    → i ≡ j
    → l ≡ m
    → ◌≡◌ {A = Option Accepted}
        (some (record { source_ip = s; protocol = p; payload = i; payload_length = l }))
        (some (record { source_ip = t; protocol = q; payload = j; payload_length = m }))
same_fields a b c d = cc

module _ (dest_mac source_mac : Mac) (protocol : ℕ) (payload : List ℕ) (source_ip dest_ip : ℕ) where
  abbrev frame : List ℕ
  frame = build_frame dest_mac source_mac protocol payload source_ip dest_ip

  -- What a receiver reads in a frame that `sendPacket` builds.
  pub record Reads : Type 0 where
    pub version_and_ihl : byte_at (header_of frame) 0 ≡ 0x45
    pub total : total_length frame ≡ header_size + length payload
    pub ttl : byte_at (header_of frame) 8 ≡ 64
    pub protocol_read : byte_at (header_of frame) 9 ≡ protocol
    pub source : field32 (header_of frame) 12 ≡ source_ip
    pub dest : field32 (header_of frame) 16 ≡ dest_ip
    pub content : drop (ethernet_header_size + header_size) frame ≡ payload

  build_frame-Reads :
      header_size + length payload < 2 ^ 16 → source_ip < 2 ^ 32 → dest_ip < 2 ^ 32 → Reads
  unfolding build_frame sealed_header build_header
  build_frame-Reads hl hs hd = record {
    version_and_ihl = refl;
    total = load-to_big_endian16 _ (omega arith) ∙ omega arith;
    ttl = refl;
    protocol_read = refl;
    source = load-to_big_endian32 source_ip hs;
    dest = load-to_big_endian32 dest_ip hd;
    content = refl;
  }

  -- A frame that `sendPacket` builds is accepted, with the sender's address, its protocol and
  -- exactly its payload, by an initialised receiver that has the destination address. It
  -- supposes a packet of less than 2 ^ 16 bytes and 32-bit addresses.
  pub accept_packet-build_frame :
      (s : Ipv4)
      → header_size + length payload < 2 ^ 16
      → source_ip < 2 ^ 32
      → dest_ip < 2 ^ 32
      → s.initialized ≡ true
      → s.local_ip ≡ dest_ip
      → (accept_packet frame (ethernet_header_size + header_size + length payload) s
          ≡ some (record {
            source_ip = source_ip;
            protocol = protocol;
            payload = ethernet_header_size + header_size;
            payload_length = length payload;
          }))
        × (drop (ethernet_header_size + header_size) frame ≡ payload)
  accept_packet-build_frame s hl hs hd on mine =
      let r = build_frame-Reads hl hs hd in
      let n = ethernet_header_size + header_size + length payload in
      (
        accept_packet-some frame n s
              (record {
                initialized = on;
                long_enough = omega arith;
                version_read = omega (arith, r.version_and_ihl);
                alive = omega (arith, r.ttl);
                addressed = r.dest ∙ sym mine;
              })
              (omega (arith, r.version_and_ihl, r.total))
            ∙ same_fields r.source r.protocol_read (omega (arith, r.version_and_ihl))
                (omega (arith, r.version_and_ihl, r.total)),
        r.content,
      )
