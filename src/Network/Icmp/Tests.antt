-- ===== src/Network/Icmp/Tests.antt =====
-- Machine 10.0.2.15 pings 10.0.2.2, whose MAC address it knows.
use palmyra_os.Prelude.{
  ℕ, ◌≡◌, refl, true, false, some, none, ◌<◌, replicate, List, [], ◌∷◌, ◌==◌, if◌then◌else◌, arith,
}
use palmyra_os.Network.Link.{Mac}
use palmyra_os.Network.Arp.{Arrival, Host}
use palmyra_os.Network.Arp.Cache.{cached_in}
use palmyra_os.Network.Arp.Resolve.{resolve-known}
use palmyra_os.Network.Ipv4.{build_frame, send_packet, is_local_address}
use palmyra_os.Network.Ipv4.Send.{put_on_wire, send_packet-Works}
use palmyra_os.Network.Icmp.{
  Node, Message, sealed_echo, handle_icmp_packet, transmit, ping_with_data,
}
use palmyra_os.Network.Icmp.Echo.{handle_icmp_packet-request, length-sealed_echo}
use palmyra_os.Network.Icmp.Answered.{HasReply, ping_with_data-answered}
use palmyra_os.Network.Icmp.Ping.{reply, ping_with_data-reply}

abbrev mac_a : Mac
mac_a = record { b0 = 0x52; b1 = 0x54; b2 = 0; b3 = 0x12; b4 = 0x34; b5 = 0x56 }

abbrev mac_b : Mac
mac_b = record { b0 = 0x52; b1 = 0x55; b2 = 10; b3 = 0; b4 = 2; b5 = 2 }

abbrev node : Node
node = record {
  icmp = record {
    initialized = true;
    pending_ping = record {
      target_ip = 0x0a000202;
      sent_time = 0;
      id = 0x1234;
      sequence = 1;
      reply_received = false;
      reply_time = 0;
    };
    dummy_time = 0;
  };
  ipv4 = record {
    initialized = true;
    local_ip = 0x0a00020f;
    subnet_mask = 0xffffff00;
    gateway = 0x0a000201;
  };
  host = record {
    arp = record {
      initialized = true;
      local_ip = 0x0a00020f;
      local_mac = mac_a;
      cache =
          record { ip_address = 0x0a000202; mac_address = mac_b; timestamp = 1; valid = true } ∷ [];
      cache_count = 1;
      dummy_time = 1;
    };
    link = record {
      initialized = true;
      has_default_interface = true;
      is_up = true;
      interface_mac = mac_a;
      transmits = λ frame. true;
      wire = [];
    };
  };
}

abbrev quiet : ℕ → List Arrival
quiet k = []

abbrev bytes : List ℕ
bytes = 1 ∷ 2 ∷ 3 ∷ []

abbrev replies : ℕ → List Message
replies k = if k == 2 then reply quiet (λ i. []) bytes 0x0a000202 ∷ [] else []

silent : (j : ℕ) → j < 2 → replies j ≡ []
silent j h = ground (arith, h)

abbrev request : List ℕ
request = sealed_echo 8 0x1234 1 bytes

abbrev after_request : Host
after_request = put_on_wire (build_frame mac_b mac_a 1 request 0x0a00020f 0x0a000202) node.host

request_sent : send_packet quiet 0x0a000202 1 request node.ipv4 node.host ≡ (true, after_request)
unfolding is_local_address cached_in
request_sent =
    send_packet-Works quiet 0x0a000202 1 request node.ipv4 node.host mac_b node.host refl
      (omega (arith, length-sealed_echo 8 0x1234 1 bytes))
      (resolve-known quiet 0x0a000202 node.host mac_b refl refl)
      (record {
        initialized = refl;
        has_default_interface = refl;
        is_up = refl;
        transmits = λ frame. refl;
      })

ping_example :
    (n' : Node) × (ping_with_data quiet replies 0x0a000202 bytes node ≡ some (some 1, n'))
ping_example =
    ping_with_data-reply quiet replies 0x0a000202 bytes node after_request 2 refl (omega arith)
      request_sent refl (omega arith) silent refl

pinged : (n' : Node) × (ping_with_data quiet replies 0x0a000202 bytes node ≡ some (some 1, n'))
pinged =
    ping_with_data-reply quiet replies 0x0a000202 bytes node after_request 2 refl (omega arith)
      request_sent refl (omega arith) silent refl

answered_example : HasReply quiet replies 0x0a000202
answered_example = ping_with_data-answered quiet replies 0x0a000202 bytes node pinged.0 1 pinged.1

-- 249 bytes of data do not fit.
too_long : ping_with_data quiet replies 0x0a000202 (replicate 249 0) node ≡ none
unfolding ping_with_data
too_long = refl

request_example :
    handle_icmp_packet quiet (sealed_echo 8 7 1 bytes) 11 0x0a000202 node
    ≡ some (transmit quiet 0x0a000202 (sealed_echo 0 7 1 bytes) node)
request_example =
    handle_icmp_packet-request quiet 7 1 bytes 0x0a000202 node (omega arith) (omega arith)
      (omega arith) refl
