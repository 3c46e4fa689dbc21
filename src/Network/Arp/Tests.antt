-- ===== src/Network/Arp/Tests.antt =====
-- Two machines, 10.0.2.15 and 10.0.2.2, that do not know each other yet.
use palmyra_os.Prelude.{
  ℕ, ◌<◌, ◌≡◌, ◌≢◌, ◌⊎◌, inr, refl, Bool, true, false, none, some, List, [], ◌∷◌, ◌++◌, ◌==◌,
  if◌then◌else◌, replicate, arith,
}
use palmyra_os.Network.ByteOrder.{to_big_endian32, from_big_endian16}
use palmyra_os.Network.Link.{Mac, Link, send_frame}
use palmyra_os.Network.Arp.{
  Arrival, arp_frame, Arp, CacheEntry, Host, build_frame, handle_arp_packet, has_arp_format,
  send_arp_request, add_cache_entry, resolve_mac_address, find_cache_entry, find_slot,
  max_cache_entries, deliver, attempt, usable_entry, write_entry, get_system_time,
  is_cache_entry_expired,
}
use palmyra_os.Network.Arp.Cache.{IsValid, cached, cached_in, Added, add_cache_entry_lem}
use palmyra_os.Network.Arp.Exchange.{Works, exchange_lem, request_frame, reply_frame}
use palmyra_os.Network.Arp.Resolve.{resolve-cached, resolve-reply}

abbrev mac_a : Mac
mac_a = record { b0 = 0x52; b1 = 0x54; b2 = 0; b3 = 0x12; b4 = 0x34; b5 = 0x56 }

abbrev mac_b : Mac
mac_b = record { b0 = 0x52; b1 = 0x55; b2 = 10; b3 = 0; b4 = 2; b5 = 2 }

abbrev unused_entry : CacheEntry
unused_entry = record { ip_address = 0; mac_address = mac_a; timestamp = 0; valid = false }

abbrev arp : ℕ → Mac → Arp
arp ip mac = record {
  initialized = true;
  local_ip = ip;
  local_mac = mac;
  cache = replicate 32 unused_entry;
  cache_count = 0;
  dummy_time = 0;
}

abbrev link : Mac → Link
link mac = record {
  initialized = true;
  has_default_interface = true;
  is_up = true;
  interface_mac = mac;
  transmits = λ frame. true;
  wire = [];
}

abbrev a : Host
a = record { arp = arp 0x0a00020f mac_a; link = link mac_a }

abbrev b : Host
b = record { arp = arp 0x0a000202 mac_b; link = link mac_b }

abbrev arrivals : ℕ → List Arrival
arrivals k = if k == 0 then arp_frame (reply_frame a.arp b.arp) ∷ [] else []

arp-IsValid : (ip : ℕ) (mac : Mac) → IsValid (arp ip mac)
arp-IsValid ip mac = record { capacity = refl; count_in = omega arith }

link-Works : (mac : Mac) → Works (link mac)
link-Works mac = record {
  initialized = refl;
  has_default_interface = refl;
  is_up = refl;
  transmits = λ frame. refl;
}

resolved : (resolve_mac_address arrivals 0x0a000202 true a).0 ≡ some mac_b
unfolding resolve_mac_address attempt deliver usable_entry find_cache_entry find_slot
    send_arp_request send_frame handle_arp_packet has_arp_format build_frame add_cache_entry
    write_entry get_system_time is_cache_entry_expired from_big_endian16
    palmyra_os.Network.ByteOrder.from_big_endian32
resolved = refl

add_cache_entry_example :
    (((add_cache_entry 7 (some mac_b) a.arp).0 ≡ true)
      × Added 7 mac_b a.arp (add_cache_entry 7 (some mac_b) a.arp).1
      × (◌≡◌ {A = Bool} true true)
      × ((cached a.arp 7 ≢ none) ⊎ (a.arp.cache_count < max_cache_entries)))
    ⊎ ((add_cache_entry 7 (some mac_b) a.arp ≡ (false, a.arp))
        × ((◌≡◌ {A = Bool} true false)
            ⊎ ((cached a.arp 7 ≡ none) × (a.arp.cache_count ≡ max_cache_entries))))
add_cache_entry_example = add_cache_entry_lem 7 mac_b a.arp (arp-IsValid _ _)

exchange_example :
    ((send_arp_request b.arp.local_ip a).1.link.wire
      ≡ a.link.wire ++ request_frame a.arp b.arp ∷ [])
    × ((handle_arp_packet (request_frame a.arp b.arp) b).1.link.wire
        ≡ b.link.wire ++ reply_frame a.arp b.arp ∷ [])
    × (cached (handle_arp_packet (request_frame a.arp b.arp) b).1.arp a.arp.local_ip
        ≡ some a.arp.local_mac)
    × (cached (handle_arp_packet (reply_frame a.arp b.arp) a).1.arp b.arp.local_ip
        ≡ some b.arp.local_mac)
exchange_example =
    exchange_lem a b refl refl (arp-IsValid _ _) (arp-IsValid _ _) (omega arith) (omega arith)
      (inr (omega arith)) (inr (omega arith)) (link-Works _) (link-Works _)

resolve-cached_example :
    cached (resolve_mac_address arrivals 0x0a000202 true a).1.arp 0x0a000202 ≡ some mac_b
resolve-cached_example = resolve-cached arrivals 0x0a000202 true a mac_b resolved

resolve-reply_example : (resolve_mac_address arrivals b.arp.local_ip true a).0 ≡ some mac_b
unfolding cached_in
resolve-reply_example =
    resolve-reply arrivals a b.arp refl (arp-IsValid _ _) (omega arith) refl (omega arith)
      (omega arith) (link-Works _) refl
