-- ===== src/Network/Arp/Exchange.antt =====
-- Frames that `ARP` builds, read by the handler of another machine.
use palmyra_os.Prelude.{
  ℕ, ◌^◌, ◌<◌, ◌≡◌, ◌≢◌, ◌⊎◌, inl, inr, refl, ap, ◌∙◌, Bool, true, false, Option, none, some, List,
  [], ◌∷◌, ◌++◌, ◌==◌, if◌then◌else◌, length, arith,
}
use palmyra_os.Network.ByteOrder.{load-to_big_endian16, load-to_big_endian32, from_big_endian16}
use palmyra_os.Network.Link.{Mac, mac_at, broadcast_mac, zero_mac, Link, send_frame}
use palmyra_os.Network.Arp.{
  Arp, Host, build_frame, has_arp_format, handle_arp_packet, field16, field32, send_arp_reply,
  send_arp_request, add_cache_entry, learn, operation_request, operation_reply, get_system_time,
  write_entry,
}
use palmyra_os.Network.Arp.Cache.{IsValid, cached, add_cache_entry_lem}

module _ (destination source : Mac) (operation sender_ip : ℕ) (target_mac : Mac)
    (target_ip : ℕ) where
  -- What a handler reads from a frame that `build_frame` made.
  pub record Reads (frame : List ℕ) : Type 0 where
    pub size : length frame ≡ 60
    pub format : has_arp_format frame ≡ true
    pub operation_read : field16 frame 20 ≡ operation
    pub sender_mac_read : mac_at frame 22 ≡ source
    pub sender_ip_read : field32 frame 28 ≡ sender_ip
    pub target_mac_read : mac_at frame 32 ≡ target_mac
    pub target_ip_read : field32 frame 38 ≡ target_ip

  pub build_frame-Reads :
      operation < 2 ^ 16
      → sender_ip < 2 ^ 32
      → target_ip < 2 ^ 32
      → Reads (build_frame destination source operation sender_ip target_mac target_ip)
  unfolding build_frame has_arp_format from_big_endian16
  build_frame-Reads h l k = record {
    size = refl;
    format = refl;
    operation_read = load-to_big_endian16 operation h;
    sender_mac_read = refl;
    sender_ip_read = load-to_big_endian32 sender_ip l;
    target_mac_read = refl;
    target_ip_read = load-to_big_endian32 target_ip k;
  }

-- The handler, by the fields that it reads.
module _ {destination source : Mac} {sender_ip : ℕ} {target_mac : Mac} {target_ip : ℕ}
    {frame : List ℕ} where
  pub handle-request :
      (h : Host)
      → Reads destination source operation_request sender_ip target_mac target_ip frame
      → h.arp.initialized ≡ true
      → handle_arp_packet frame h ≡ (
        true,
        if target_ip == (learn sender_ip source h).arp.local_ip
            then (send_arp_reply sender_ip (some source) (learn sender_ip source h)).1
            else learn sender_ip source h,
      )
  unfolding handle_arp_packet
  handle-request h r on = simp (
    on, r.size, r.format, r.operation_read, r.sender_mac_read, r.sender_ip_read, r.target_ip_read,
  )

  pub handle-reply :
      (h : Host)
      → Reads destination source operation_reply sender_ip target_mac target_ip frame
      → h.arp.initialized ≡ true
      → handle_arp_packet frame h ≡ (true, learn sender_ip source h)
  unfolding handle_arp_packet
  handle-reply h r on = simp (
    on, r.size, r.format, r.operation_read, r.sender_mac_read, r.sender_ip_read, r.target_ip_read,
  )

-- Learning an address changes nothing but the cache and the clock.
pub record SameAddress (a a' : Arp) : Type 0 where
  pub initialized : a'.initialized ≡ a.initialized
  pub local_ip : a'.local_ip ≡ a.local_ip
  pub local_mac : a'.local_mac ≡ a.local_mac

pub add_cache_entry-SameAddress :
    (ip : ℕ) (mac : Option Mac) (a : Arp) → SameAddress a (add_cache_entry ip mac a).1
unfolding add_cache_entry write_entry get_system_time
add_cache_entry-SameAddress ip none a = record {
  initialized = refl;
  local_ip = refl;
  local_mac = refl;
}
add_cache_entry-SameAddress ip (some mac) a = ground arith

-- The network manager has an interface that is up and takes every frame.
pub record Works (l : Link) : Type 0 where
  pub initialized : l.initialized ≡ true
  pub has_default_interface : l.has_default_interface ≡ true
  pub is_up : l.is_up ≡ true
  pub transmits : (frame : List ℕ) → l.transmits frame ≡ true

pub send_frame-Works :
    (frame : List ℕ) (l : Link)
    → Works l
    → send_frame frame l ≡ (true, record l { wire = l.wire ++ frame ∷ [] })
unfolding send_frame
send_frame-Works frame l w =
    simp (w.initialized, w.has_default_interface, w.is_up, w.transmits frame)

-- There is an entry for `ip`, or a slot for one.
abbrev pub HasRoom : Arp → ℕ → Type 0
HasRoom a ip = (cached a ip ≢ none) ⊎ (a.cache_count < 32)

pub cached-learn :
    (ip : ℕ) (mac : Mac) (h : Host)
    → IsValid h.arp
    → h.arp.initialized ≡ true
    → HasRoom h.arp ip
    → cached (learn ip mac h).arp ip ≡ some mac
cached-learn ip mac h v on room = elim (add_cache_entry_lem ip mac h.arp v) [
  | inl (t, added, o, r) ↦ added.map_changed ip ∙ ground arith
  | inr (e, why) ↦ absurd (has_room why)
]
  where
    has_room :
        (h.arp.initialized ≡ false) ⊎ ((cached h.arp ip ≡ none) × (h.arp.cache_count ≡ 32)) → ⊥
    has_room (inl off) = cc
    has_room (inr (n, full)) = elim room [ inl some_mac ↦ some_mac n | inr less ↦ omega arith ]

abbrev pub request_frame : Arp → Arp → List ℕ
request_frame a b =
    build_frame broadcast_mac a.local_mac operation_request a.local_ip zero_mac b.local_ip

abbrev pub reply_frame : Arp → Arp → List ℕ
reply_frame a b =
    build_frame a.local_mac b.local_mac operation_reply b.local_ip a.local_mac a.local_ip

==_refl : (n : ℕ) → (n == n) ≡ true
==_refl n = ground arith

-- The state after a request for `ip` went out.
abbrev pub asked_state : ℕ → Host → Host
asked_state ip h = record h {
  link = record h.link {
    wire =
        h.link.wire
        ++ build_frame broadcast_mac h.arp.local_mac operation_request h.arp.local_ip zero_mac ip
          ∷ [];
  };
}

pub send_arp_request-Works :
    (ip : ℕ) (h : Host)
    → h.arp.initialized ≡ true
    → Works h.link
    → send_arp_request ip h ≡ (true, asked_state ip h)
unfolding send_arp_request
send_arp_request-Works ip h on w = simp (on, send_frame-Works _ h.link w)

module _ (a b : Host) (a_on : a.arp.initialized ≡ true) (b_on : b.arp.initialized ≡ true) where
  request_answered :
      Reads broadcast_mac a.arp.local_mac operation_request a.arp.local_ip zero_mac b.arp.local_ip
        (request_frame a.arp b.arp)
      → Works b.link
      → (handle_arp_packet (request_frame a.arp b.arp) b).1 ≡ record {
        arp = (learn a.arp.local_ip a.arp.local_mac b).arp;
        link = record b.link { wire = b.link.wire ++ reply_frame a.arp b.arp ∷ [] };
      }
  unfolding send_arp_reply
  request_answered r w =
      let same = add_cache_entry-SameAddress a.arp.local_ip (some a.arp.local_mac) b.arp in
      simp (
        handle-request b r b_on,
        same.local_ip,
        same.local_mac,
        same.initialized,
        b_on,
        ==_refl,
        send_frame-Works _ b.link w,
      )

  -- A request and its reply between two initialised machines, on a network that delivers both
  -- frames: the machine with the address that is asked for answers with one frame, which it
  -- sends to the asker, and afterwards each has the other's MAC address in its cache. Each
  -- cache is supposed to be valid, with room for the other's address.
  pub exchange_lem :
      IsValid a.arp
      → IsValid b.arp
      → a.arp.local_ip < 2 ^ 32
      → b.arp.local_ip < 2 ^ 32
      → HasRoom a.arp b.arp.local_ip
      → HasRoom b.arp a.arp.local_ip
      → Works a.link
      → Works b.link
      → let request = request_frame a.arp b.arp in
        let reply = reply_frame a.arp b.arp in
        ((send_arp_request b.arp.local_ip a).1.link.wire ≡ a.link.wire ++ request ∷ [])
        × ((handle_arp_packet request b).1.link.wire ≡ b.link.wire ++ reply ∷ [])
        × (cached (handle_arp_packet request b).1.arp a.arp.local_ip ≡ some a.arp.local_mac)
        × (cached (handle_arp_packet reply a).1.arp b.arp.local_ip ≡ some b.arp.local_mac)
  exchange_lem va vb ha hb ra rb wa wb =
      let asked =
        build_frame-Reads broadcast_mac a.arp.local_mac operation_request a.arp.local_ip zero_mac
          b.arp.local_ip (omega arith) ha hb in
      let told =
        build_frame-Reads a.arp.local_mac b.arp.local_mac operation_reply b.arp.local_ip
          a.arp.local_mac a.arp.local_ip (omega arith) hb ha in
      (
        ap (λ (r : Bool × Host). r.1.link.wire) (send_arp_request-Works b.arp.local_ip a a_on wa),
        ap (λ (h : Host). h.link.wire) (request_answered asked wb),
        ap (λ (h : Host). cached h.arp a.arp.local_ip) (request_answered asked wb)
            ∙ cached-learn a.arp.local_ip a.arp.local_mac b vb b_on rb,
        ap (λ (r : Bool × Host). cached r.1.arp b.arp.local_ip) (handle-reply a told a_on)
            ∙ cached-learn b.arp.local_ip b.arp.local_mac a va a_on ra,
      )
