-- ===== src/Network/Arp/Resolve.antt =====
-- `resolveMacAddress`: what it answers, whatever frames arrive.
use palmyra_os.Prelude.{
  ℕ, zero, suc, ◌+◌, ◌^◌, ◌<◌, ◌≡◌, inl, inr, sym, ap, ◌∙◌, Bool, true, false, not, Option, none,
  some, List, [], ◌∷◌, if◌then◌else◌, arith, Option-cases,
}
use palmyra_os.Network.Link.{Mac}
use palmyra_os.Network.Arp.{
  Arrival, arp_frame, Arp, Host, send_arp_request, learn, operation_reply, deliver, attempt,
  resolve_mac_address, usable_entry,
}
use palmyra_os.Network.Arp.Cache.{IsValid, cached, usable_entry-cached}
use palmyra_os.Network.Arp.Exchange.{
  Works, Reads, handle-reply, cached-learn, reply_frame, build_frame-Reads, asked_state,
  send_arp_request-Works,
}

-- The answer of a search is what the cache of the state after it holds.
abbrev Agrees : ℕ → Option Mac × Host → Type 0
Agrees ip r = (mac : Mac) → r.0 ≡ some mac → cached r.1.arp ip ≡ some mac

Agrees-elim :
    (ip : ℕ) (h : Host) (rest : Option Mac × Host)
    → Agrees ip rest
    → Agrees ip (elim (usable_entry ip h.arp) [ some mac ↦ (some mac, h) | none ↦ rest ])
Agrees-elim ip h rest ok = elim (Option-cases (usable_entry ip h.arp)) [
  | inl e ↦ rw e ok
  | inr (m, e) ↦ rw e (λ mac p. sym (usable_entry-cached ip h.arp) ∙ e ∙ p)
]

Agrees-if :
    (b : Bool) (ip : ℕ) (r t : Option Mac × Host)
    → Agrees ip r
    → Agrees ip t
    → Agrees ip (if b then r else t)
Agrees-if true ip r t p q = p
Agrees-if false ip r t p q = q

attempt-Agrees :
    (arrivals : ℕ → List Arrival) (ip n k : ℕ) (h : Host) → Agrees ip (attempt arrivals ip n k h)
unfolding attempt
attempt-Agrees arrivals ip zero k h = λ mac e. cc
attempt-Agrees arrivals ip (suc n) k h =
    Agrees-if _ ip _ _ (attempt-Agrees arrivals ip n (k + 1) _)
      (Agrees-elim ip _ _ (attempt-Agrees arrivals ip n (k + 1) _))

-- Whatever frames arrive, a MAC address that `resolveMacAddress` answers is the one that the
-- cache holds for the address afterwards.
pub resolve-cached :
    (arrivals : ℕ → List Arrival) (ip : ℕ) (has_out : Bool) (h : Host) (mac : Mac)
    → (resolve_mac_address arrivals ip has_out h).0 ≡ some mac
    → cached (resolve_mac_address arrivals ip has_out h).1.arp ip ≡ some mac
unfolding resolve_mac_address
resolve-cached arrivals ip has_out h =
    Agrees-if (not h.arp.initialized) ip (none, h) _ (λ mac e. cc)
      (Agrees-if (not has_out) ip (none, h) _ (λ mac e. cc)
        (Agrees-elim ip h _ (attempt-Agrees arrivals ip 3 0 h)))

-- A MAC address that the cache holds is answered at once.
pub resolve-known :
    (arrivals : ℕ → List Arrival) (ip : ℕ) (h : Host) (mac : Mac)
    → h.arp.initialized ≡ true
    → cached h.arp ip ≡ some mac
    → resolve_mac_address arrivals ip true h ≡ (some mac, h)
unfolding resolve_mac_address
resolve-known arrivals ip h mac on known = simp (on, usable_entry-cached ip h.arp, known)

attempt-hit :
    (arrivals : ℕ → List Arrival) (ip n k : ℕ) (h h' polled : Host) (mac : Mac)
    → send_arp_request ip h ≡ (true, h')
    → h'.link.has_default_interface ≡ true
    → deliver (arrivals k) h' ≡ polled
    → usable_entry ip polled.arp ≡ some mac
    → (attempt arrivals ip (suc n) k h).0 ≡ some mac
unfolding attempt
attempt-hit arrivals ip n k h h' polled mac sent up delivered usable =
    rw sent (simp (up, delivered, usable))

module _ (arrivals : ℕ → List Arrival) (a : Host) (b : Arp) (on : a.arp.initialized ≡ true) where
  after_reply :
      Reads a.arp.local_mac b.local_mac operation_reply b.local_ip a.arp.local_mac a.arp.local_ip
        (reply_frame a.arp b)
      → arrivals 0 ≡ arp_frame (reply_frame a.arp b) ∷ []
      → deliver (arrivals 0) (asked_state b.local_ip a)
        ≡ learn b.local_ip b.local_mac (asked_state b.local_ip a)
  unfolding deliver
  after_reply r e =
      rw e (ap (λ (t : Bool × Host). t.1) (handle-reply (asked_state b.local_ip a) r on))

  first_attempt :
      (n : ℕ)
      → Works a.link
      → deliver (arrivals 0) (asked_state b.local_ip a)
        ≡ learn b.local_ip b.local_mac (asked_state b.local_ip a)
      → usable_entry b.local_ip (learn b.local_ip b.local_mac (asked_state b.local_ip a)).arp
        ≡ some b.local_mac
      → (attempt arrivals b.local_ip (suc n) 0 a).0 ≡ some b.local_mac
  first_attempt n w delivered usable =
      attempt-hit arrivals b.local_ip n 0 a (asked_state b.local_ip a) _ b.local_mac
        (send_arp_request-Works b.local_ip a on w) w.has_default_interface delivered usable

  -- If the address of `b` is not cached and `b`'s reply is the only frame that arrives after
  -- the first request, then the resolution succeeds with the MAC address of `b`. It supposes a
  -- valid cache with a slot to spare, and a network that takes the request.
  pub resolve-reply :
      IsValid a.arp
      → a.arp.cache_count < 32
      → cached a.arp b.local_ip ≡ none
      → a.arp.local_ip < 2 ^ 32
      → b.local_ip < 2 ^ 32
      → Works a.link
      → arrivals 0 ≡ arp_frame (reply_frame a.arp b) ∷ []
      → (resolve_mac_address arrivals b.local_ip true a).0 ≡ some b.local_mac
  unfolding resolve_mac_address
  resolve-reply v room unknown ha hb w arrives =
      let r =
        build_frame-Reads a.arp.local_mac b.local_mac operation_reply b.local_ip a.arp.local_mac
          a.arp.local_ip (omega arith) hb ha in
      let found =
        usable_entry-cached b.local_ip (learn b.local_ip b.local_mac (asked_state b.local_ip a)).arp
        ∙ cached-learn b.local_ip b.local_mac (asked_state b.local_ip a) v on (inr room) in
      simp (on, usable_entry-cached b.local_ip a.arp, unknown)
        (first_attempt 2 w (after_reply r arrives) found)
