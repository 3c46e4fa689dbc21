-- ===== src/Network/Icmp/Echo.antt =====
-- The messages that ICMP builds: their checksum, and what a handler does with them.
use palmyra_os.Prelude.{
  ℕ, ◌+◌, ◌-◌, ◌^◌, ◌≤◌, ◌<◌, ◌≡◌, refl, ◌∙◌, true, some, List, length, take, drop, arith, take-all,
}
use palmyra_os.Network.Arp.{Arrival}
use palmyra_os.Network.ByteOrder.{
  to_big_endian16, byte_at, store-to_big_endian16, load-to_big_endian16,
}
use palmyra_os.Network.Checksum.{
  add_words, fold_carries, fold_rounds, complement16, AllBytes, word_total, word_total-le,
  add_words-word_total, complement16-cancel,
}
use palmyra_os.Network.Icmp.{
  Node, echo_header_size, fits, type_echo_request, type_echo_reply, calculate_checksum, build_echo,
  sealed_echo, field16, matches, mark_replied, send_echo_reply, handle_icmp_packet, transmit,
}

module _ (type id sequence : ℕ) (bytes : List ℕ) where
  -- What a handler reads in a message.
  pub record Reads (message : List ℕ) : Type 0 where
    pub type_read : byte_at message 0 ≡ type
    pub id_read : field16 message 4 ≡ id
    pub sequence_read : field16 message 6 ≡ sequence
    pub content : take (echo_header_size + length bytes - echo_header_size) (drop 8 message) ≡ bytes

  pub sealed_echo-Reads :
      id < 2 ^ 16 → sequence < 2 ^ 16 → Reads (sealed_echo type id sequence bytes)
  unfolding sealed_echo build_echo
  sealed_echo-Reads hi hs =
      let n : echo_header_size + length bytes - echo_header_size ≡ length bytes = omega arith in
      record {
        type_read = refl;
        id_read = load-to_big_endian16 id hi;
        sequence_read = load-to_big_endian16 sequence hs;
        content = rw n (take-all bytes);
      }

  module _ (ht : type < 2 ^ 8) (hb : AllBytes bytes) (hl : length bytes < 2 ^ 14) where
    echo-AllBytes : (c : ℕ) → AllBytes (build_echo type c id sequence bytes)
    unfolding build_echo
    echo-AllBytes c = ground (arith, hb)

    length-echo : (c : ℕ) → length (build_echo type c id sequence bytes) ≡ 8 + length bytes
    unfolding build_echo
    length-echo c = omega arith

    echo-word_total :
        (c : ℕ)
        → c < 2 ^ 16
        → word_total (build_echo type (to_big_endian16 c) id sequence bytes)
          ≡ word_total (build_echo type 0 id sequence bytes) + c
    unfolding build_echo word_total
    echo-word_total c hc = omega (arith, store-to_big_endian16 c hc)

    echo_bound : (c : ℕ) → word_total (build_echo type c id sequence bytes) < 2 ^ 31
    echo_bound c = omega (
      arith,
      word_total-le (build_echo type c id sequence bytes) (echo-AllBytes c),
      length-echo c,
    )

    echo_checksum :
        (c : ℕ)
        → calculate_checksum (build_echo type c id sequence bytes)
          ≡ complement16
              (fold_carries fold_rounds (word_total (build_echo type c id sequence bytes)))
    unfolding calculate_checksum
    echo_checksum c =
        let message = build_echo type c id sequence bytes in
        let sum : add_words 0 message ≡ word_total message =
          add_words-word_total 0 message (echo-AllBytes c) (omega (arith, echo_bound c))
          ∙ omega arith in
        rw sum refl

    -- A receiver that computes `calculateChecksum` over an echo message that the module builds,
    -- its checksum included, gets 0. It supposes a type of one byte, and data of bytes, fewer
    -- than 2 ^ 14.
    calculate_checksum-sealed_echo : calculate_checksum (sealed_echo type id sequence bytes) ≡ 0
    unfolding sealed_echo
    calculate_checksum-sealed_echo =
        let c = calculate_checksum (build_echo type 0 id sequence bytes) in
        let total = word_total (build_echo type 0 id sequence bytes) in
        let c_eq : c ≡ complement16 (fold_carries fold_rounds total) = echo_checksum 0 in
        echo_checksum (to_big_endian16 c)
        ∙ rw (echo-word_total c (omega (arith, c_eq)))
            (rw c_eq (complement16-cancel total (echo_bound 0)))

module _ (arp_arrivals : ℕ → List Arrival) where
  -- An initialised machine answers an echo request with a reply to its sender, with the
  -- request's identifier, sequence number and data, and changes nothing else. It supposes
  -- 16-bit fields and data that fit the code's buffer of 256 bytes.
  pub handle_icmp_packet-request :
      (id sequence : ℕ) (bytes : List ℕ) (source_ip : ℕ) (n : Node)
      → id < 2 ^ 16
      → sequence < 2 ^ 16
      → length bytes ≤ 248
      → n.icmp.initialized ≡ true
      → handle_icmp_packet arp_arrivals
          (sealed_echo type_echo_request id sequence bytes)
          (echo_header_size + length bytes)
          source_ip
          n
        ≡ some (transmit arp_arrivals source_ip (sealed_echo type_echo_reply id sequence bytes) n)
  unfolding handle_icmp_packet send_echo_reply
  handle_icmp_packet-request id sequence bytes source_ip n hi hs hl on =
      let r = sealed_echo-Reads type_echo_request id sequence bytes hi hs in
      let room : fits bytes ≡ true = ground (arith, hl) in
      ground (arith, on, room, r.type_read, r.id_read, r.sequence_read, r.content)

  -- The reply that is waited for is noted, with the time.
  pub handle_icmp_packet-reply :
      (bytes : List ℕ) (n : Node)
      → n.icmp.initialized ≡ true
      → n.icmp.pending_ping.id < 2 ^ 16
      → n.icmp.pending_ping.sequence < 2 ^ 16
      → handle_icmp_packet arp_arrivals
          (sealed_echo type_echo_reply n.icmp.pending_ping.id n.icmp.pending_ping.sequence bytes)
          (echo_header_size + length bytes)
          n.icmp.pending_ping.target_ip
          n
        ≡ some (true, record n { icmp = mark_replied n.icmp })
  unfolding handle_icmp_packet matches
  handle_icmp_packet-reply bytes n on hi hs =
      let r = sealed_echo-Reads type_echo_reply _ _ bytes hi hs in
      ground (arith, on, r.type_read, r.id_read, r.sequence_read)

pub length-sealed_echo :
    (type id sequence : ℕ) (bytes : List ℕ)
    → length (sealed_echo type id sequence bytes) ≡ echo_header_size + length bytes
unfolding sealed_echo build_echo
length-sealed_echo type id sequence bytes = omega arith
