-- ===== src/Network/Arp.antt =====
-- Address resolution, `kernel::ARP` of core/network/ARP.cpp: a cache of 32 entries, the handler
-- of incoming packets, requests and replies.
pub mod Cache
pub mod Exchange
pub mod Resolve
mod Tests
use palmyra_os.Prelude.{
  ℕ, zero, suc, ◌+◌, ◌-◌, ◌*◌, ◌/◌, ◌%◌, ◌^◌, Bool, true, false, not, ◌&&◌, ◌||◌, Option, none,
  some, List, [], ◌∷◌, ◌++◌, ltb, leb, ◌==◌, if◌then◌else◌, length, get_elem?, get_or, set,
  replicate,
}
use palmyra_os.Network.ByteOrder.{
  to_big_endian16, from_big_endian16, to_big_endian32, from_big_endian32, store16, store32, load16,
  load32, byte_at,
}
use palmyra_os.Network.Link.{Mac, mac_bytes, mac_at, broadcast_mac, zero_mac, Link, send_frame}

abbrev pub max_cache_entries : ℕ
max_cache_entries = 32

abbrev pub max_request_retries : ℕ
max_request_retries = 3

abbrev pub operation_request : ℕ
operation_request = 1

abbrev pub operation_reply : ℕ
operation_reply = 2

pub record CacheEntry : Type 0 where
  pub ip_address : ℕ
  pub mac_address : Mac
  pub timestamp : ℕ
  pub valid : Bool

-- `cache_` has 32 slots, of which the first `cacheCount_` are in use. `dummyTime` is the clock.
pub record Arp : Type 0 where
  pub initialized : Bool
  pub local_ip : ℕ
  pub local_mac : Mac
  pub cache : List CacheEntry
  pub cache_count : ℕ
  pub dummy_time : ℕ

-- `none` is a null pointer.
pub initialize : ℕ → Option Mac → Arp → Bool × Arp
initialize local_ip none a = if a.initialized then (true, a) else (false, a)
initialize local_ip (some local_mac) a = if a.initialized then (true, a) else (
  true,
  record a { local_ip = local_ip; local_mac = local_mac; cache_count = 0; initialized = true },
)

pub get_system_time : Arp → ℕ × Arp
get_system_time a = let now = (a.dummy_time + 1) % 2 ^ 32 in (now, record a { dummy_time = now })

-- `isCacheEntryExpired`, of a non-null entry
pub is_cache_entry_expired : CacheEntry → Bool
is_cache_entry_expired e = false

-- The loop of `findCacheEntry` over the first `n` slots: the index of the entry.
pub find_slot : ℕ → List CacheEntry → ℕ → Option ℕ
find_slot zero cache ip = none
find_slot (suc n) [] ip = none
find_slot (suc n) (e ∷ cache) ip =
    if e.valid && e.ip_address == ip
    then some 0
    else elim (find_slot n cache ip) [ none ↦ none | some i ↦ some (suc i) ]

pub find_cache_entry : ℕ → Arp → Option ℕ
find_cache_entry ip a = find_slot a.cache_count a.cache ip

-- Slot `i` filled with an address, and `entry->timestamp = getSystemTime()`.
pub write_entry : ℕ → ℕ → Mac → Arp → Arp
unfolding get_system_time
write_entry i ip mac a =
    let (now, a') = get_system_time a in
    record a' {
      cache =
          set a'.cache i
            (record { ip_address = ip; mac_address = mac; timestamp = now; valid = true });
    }

-- An entry that is found keeps its `ipAddress`, which is `ip`.
pub add_cache_entry : ℕ → Option Mac → Arp → Bool × Arp
add_cache_entry ip none a = (false, a)
add_cache_entry ip (some mac) a =
    if not a.initialized then (false, a) else elim (find_cache_entry ip a) [
      | some i ↦ (true, write_entry i ip mac a)
      | none ↦ if leb max_cache_entries a.cache_count then (false, a) else (
        true,
        record (write_entry a.cache_count ip mac a) { cache_count = a.cache_count + 1 },
      )
    ]

pub invalidate : ℕ → List CacheEntry → List CacheEntry
invalidate zero cache = cache
invalidate (suc n) [] = []
invalidate (suc n) (e ∷ cache) = record e { valid = false } ∷ invalidate n cache

pub clear_cache : Arp → Arp
unfolding invalidate
clear_cache a =
    if not a.initialized
    then a
    else record a { cache = invalidate a.cache_count a.cache; cache_count = 0 }

abbrev pub header_size : ℕ
header_size = 14

abbrev pub packet_size : ℕ
packet_size = 28

-- The frame of a request or a reply: the Ethernet header, `ARPPacket`, and zeros up to the least
-- frame size of 60 bytes.
pub build_frame : Mac → Mac → ℕ → ℕ → Mac → ℕ → List ℕ
build_frame destination source operation sender_ip target_mac target_ip =
    mac_bytes destination
    ++ (mac_bytes source
        ++ (store16 (to_big_endian16 0x0806)
            ++ (store16 (to_big_endian16 1)
                ++ (store16 (to_big_endian16 0x0800)
                    ++ (6 ∷ 4 ∷ store16 (to_big_endian16 operation)
                        ++ (mac_bytes source
                            ++ (store32 (to_big_endian32 sender_ip)
                                ++ (mac_bytes target_mac
                                    ++ (store32 (to_big_endian32 target_ip)
                                        ++ replicate (60 - (header_size + packet_size)) 0)))))))))

-- The module and the network that it sends on.
pub record Host : Type 0 where
  pub arp : Arp
  pub link : Link

abbrev pub transmit : List ℕ → Host → Bool × Host
transmit frame h = let (sent, link') = send_frame frame h.link in (sent, record h { link = link' })

pub send_arp_request : ℕ → Host → Bool × Host
send_arp_request target_ip h =
    if not h.arp.initialized
    then (false, h)
    else transmit
        (build_frame broadcast_mac h.arp.local_mac operation_request h.arp.local_ip zero_mac
          target_ip)
        h

pub send_arp_reply : ℕ → Option Mac → Host → Bool × Host
send_arp_reply target_ip none h = (false, h)
send_arp_reply target_ip (some target_mac) h =
    if not h.arp.initialized
    then (false, h)
    else transmit
        (build_frame target_mac h.arp.local_mac operation_reply h.arp.local_ip target_mac target_ip)
        h

-- Fields of the packet in a frame, `be16` and `be32` applied.
abbrev pub field16 : List ℕ → ℕ → ℕ
field16 frame i = from_big_endian16 (load16 (byte_at frame i) (byte_at frame (1 + i)))

abbrev pub field32 : List ℕ → ℕ → ℕ
field32 frame i = from_big_endian32 (
    load32 (byte_at frame i) (byte_at frame (1 + i)) (byte_at frame (2 + i))
      (byte_at frame (3 + i)))

pub has_arp_format : List ℕ → Bool
has_arp_format frame =
    field16 frame 14 == 1
    && field16 frame 16 == 0x0800
    && byte_at frame 18 == 6
    && byte_at frame 19 == 4

abbrev pub learn : ℕ → Mac → Host → Host
learn ip mac h = record h { arp = (add_cache_entry ip (some mac) h.arp).1 }

pub handle_arp_packet : List ℕ → Host → Bool × Host
unfolding has_arp_format
handle_arp_packet frame h =
    let operation = field16 frame 20 in
    let sender_mac = mac_at frame 22 in
    let sender_ip = field32 frame 28 in
    let target_ip = field32 frame 38 in
    let learned =
      if operation == operation_request || operation == operation_reply
      then learn sender_ip sender_mac h
      else h in
    if not h.arp.initialized
    then (false, h)
    else if ltb (length frame) (header_size + packet_size)
    then (false, h)
    else if not (has_arp_format frame)
    then (false, h)
    else if operation == operation_request
    then (
      true,
      if target_ip == learned.arp.local_ip
          then (send_arp_reply sender_ip (some sender_mac) learned).1
          else learned,
    )
    else if operation == operation_reply
    then (true, learned)
    else (false, learned)

-- A frame that arrives while the interface is polled, as the driver hands it on by its EtherType:
-- to the handler above, or to IPv4, whose handler is given by what it does to the machine.
pub data Arrival : Type 0 where
  arp_frame : List ℕ → Arrival
  ipv4_frame : (Host → Host) → Arrival

pub deliver : List Arrival → Host → Host
deliver [] h = h
deliver (arp_frame frame ∷ rest) h = deliver rest (handle_arp_packet frame h).1
deliver (ipv4_frame handle ∷ rest) h = deliver rest (handle h)

-- The entry of `ip`, if it is there, valid and not expired.
pub usable_entry : ℕ → Arp → Option Mac
usable_entry ip a = elim (find_cache_entry ip a) [
  | none ↦ none
  | some i ↦ elim (get_elem? a.cache i) [
    | none ↦ none
    | some e ↦ if e.valid && not (is_cache_entry_expired e) then some e.mac_address else none
  ]
]

-- The attempts of `resolveMacAddress`, `n` of them left. `arrivals k` are the frames that arrive
-- while attempt `k` polls.
pub attempt : (ℕ → List Arrival) → ℕ → ℕ → ℕ → Host → Option Mac × Host
attempt arrivals ip zero k h = (none, h)
attempt arrivals ip (suc n) k h =
    let (sent, h') = send_arp_request ip h in
    let polled = if h'.link.has_default_interface then deliver (arrivals k) h' else h' in
    let skip = attempt arrivals ip n (k + 1) h' in
    let again = attempt arrivals ip n (k + 1) polled in
    if not sent
    then skip
    else elim (usable_entry ip polled.arp) [ some mac ↦ (some mac, polled) | none ↦ again ]

-- `has_out` says that `outMAC` is not null. What is written there is the result.
pub resolve_mac_address : (ℕ → List Arrival) → ℕ → Bool → Host → Option Mac × Host
resolve_mac_address arrivals ip has_out h =
    let search = attempt arrivals ip max_request_retries 0 h in
    if not h.arp.initialized
    then (none, h)
    else if not has_out
    then (none, h)
    else elim (usable_entry ip h.arp) [ some mac ↦ (some mac, h) | none ↦ search ]
