-- ===== src/Network/Icmp/Ping.antt =====
-- `ICMP::pingWithData`: the wait for the reply.
use palmyra_os.Prelude.{
  ℕ, zero, suc, ◌+◌, ◌-◌, ◌%◌, ◌^◌, ◌≤◌, ◌<◌, ◌≡◌, refl, ap, ◌∙◌, true, false, List, [], ◌∷◌,
  length, arith, some,
}
use palmyra_os.Network.Arp.{Arrival, Host}
use palmyra_os.Network.Ipv4.{send_packet, protocol_icmp}
use palmyra_os.Network.Icmp.{
  Node, Message, echo_header_size, fits, type_echo_request, type_echo_reply, sealed_echo,
  mark_replied, handle_icmp_packet, transmit, ping_id, start_ping, receive, wait, wait_rounds,
  ping_result, ping_with_data,
}
use palmyra_os.Network.Icmp.Echo.{handle_icmp_packet-reply}

module _ (arp_arrivals : ℕ → List Arrival) (arrivals : ℕ → List Message) where
  -- Once the reply is noted the wait is over.
  wait-replied :
      (k i : ℕ) (n : Node)
      → n.icmp.pending_ping.reply_received ≡ true
      → wait arp_arrivals arrivals k i n ≡ some n
  unfolding wait
  wait-replied zero i n h = refl
  wait-replied (suc k) i n h = rw h refl

  wait-round :
      (k i : ℕ) (n n' : Node)
      → n.icmp.pending_ping.reply_received ≡ false
      → n.host.link.has_default_interface ≡ true
      → receive arp_arrivals (arrivals i) n ≡ some n'
      → wait arp_arrivals arrivals (suc k) i n ≡ wait arp_arrivals arrivals k (i + 1) n'
  unfolding wait
  wait-round k i n n' waiting up received = simp (waiting, up, received, wait)

  -- A round in which nothing arrives
  receive-silent :
      (i : ℕ) (n : Node) → arrivals i ≡ [] → receive arp_arrivals (arrivals i) n ≡ some n
  unfolding receive
  receive-silent i n silent = rw silent refl

  -- A round in which one message arrives
  receive-one :
      (i : ℕ) (n n' : Node) (m : Message)
      → arrivals i ≡ m ∷ []
      → handle_icmp_packet arp_arrivals m.payload m.payload_length m.source_ip n ≡ some (true, n')
      → receive arp_arrivals (arrivals i) n ≡ some n'
  unfolding receive
  receive-one i n n' m arrives handled = rw arrives (rw (handled, receive) refl)

  -- The wait goes on through `r` rounds in which nothing arrives, and ends behind the reply.
  wait-until :
      (r k i : ℕ) (n n' : Node) (m : Message)
      → n.icmp.pending_ping.reply_received ≡ false
      → n.host.link.has_default_interface ≡ true
      → ((j : ℕ) → j < r → arrivals (i + j) ≡ [])
      → arrivals (i + r) ≡ m ∷ []
      → handle_icmp_packet arp_arrivals m.payload m.payload_length m.source_ip n ≡ some (true, n')
      → n'.icmp.pending_ping.reply_received ≡ true
      → wait arp_arrivals arrivals (suc (r + k)) i n ≡ some n'
  wait-until zero k i n n' m waiting up silent arrives handled replied =
      wait-round (0 + k) i n n' waiting up (
        receive-one i n n' m (ap arrivals (let e : i ≡ i + 0 = omega arith in e) ∙ arrives) handled)
      ∙ wait-replied (0 + k) (i + 1) n' replied
  wait-until (suc r) k i n n' m waiting up silent arrives handled replied =
      let shift : (j : ℕ) → i + 1 + j ≡ i + suc j = λ j. omega arith in
      wait-round (suc r + k) i n n waiting up (
        receive-silent i n
          (ap arrivals (let e : i ≡ i + 0 = omega arith in e) ∙ silent 0 (omega arith)))
      ∙ ap (λ x. wait arp_arrivals arrivals x (i + 1) n)
          (let e : suc r + k ≡ suc (r + k) = omega arith in e)
      ∙ wait-until r k (i + 1) n n' m waiting up
          (λ j l. ap arrivals (shift j) ∙ silent (suc j) (omega arith))
          (ap arrivals (shift r) ∙ arrives) handled replied

  abbrev pub reply : List ℕ → ℕ → Message
  reply bytes target_ip = record {
    payload = sealed_echo type_echo_reply ping_id 1 bytes;
    payload_length = echo_header_size + length bytes;
    source_ip = target_ip;
  }

  -- If the request is sent, and its reply is the first ICMP message that arrives in the wait, in
  -- whichever of the 500 rounds, then `pingWithData` answers true, for at most 248 bytes of data,
  -- which fit the code's array. The time it writes is always 1, since the clock counts its own
  -- calls.
  pub ping_with_data-reply :
      (target_ip : ℕ) (bytes : List ℕ) (n : Node) (h : Host) (r : ℕ)
      → n.icmp.initialized ≡ true
      → length bytes ≤ 248
      → send_packet arp_arrivals target_ip protocol_icmp
          (sealed_echo type_echo_request ping_id 1 bytes)
          n.ipv4
          n.host
        ≡ (true, h)
      → h.link.has_default_interface ≡ true
      → r < 500
      → ((j : ℕ) → j < r → arrivals j ≡ [])
      → arrivals r ≡ reply bytes target_ip ∷ []
      → (n' : Node) × (ping_with_data arp_arrivals arrivals target_ip bytes n ≡ some (some 1, n'))
  unfolding ping_with_data transmit start_ping mark_replied ping_result
  ping_with_data-reply target_ip bytes n h r on small sent up few silent arrives =
      let asked = record n { icmp = start_ping target_ip n.icmp; host = h } in
      let replied = record asked { icmp = mark_replied asked.icmp } in
      let room : fits bytes ≡ true = ground (arith, small) in
      let handled =
        handle_icmp_packet-reply arp_arrivals bytes asked on (omega arith) (omega arith) in
      let waited : wait arp_arrivals arrivals wait_rounds 0 asked ≡ some replied =
        ap (λ x. wait arp_arrivals arrivals x 0 asked)
          (let e : wait_rounds ≡ suc (r + (499 - r)) = omega (arith, few) in e)
        ∙ wait-until r (499 - r) 0 asked replied (reply bytes target_ip) refl up
            (λ j l. ap arrivals (let e : 0 + j ≡ j = omega arith in e) ∙ silent j l)
            (ap arrivals (let e : 0 + r ≡ r = omega arith in e) ∙ arrives) handled refl in
      let t = n.icmp.dummy_time in
      let clock : (((t + 1) % 2 ^ 32 + 1) % 2 ^ 32 + 2 ^ 32 - (t + 1) % 2 ^ 32) % 2 ^ 32 ≡ 1 =
        omega arith in
      (replied, rw sent (rw room (rw waited (simp (on, clock)))))
