-- ===== src/Network/Icmp/Matching.antt =====
-- Which ICMP message of those that a poll takes answers a ping.
use palmyra_os.Prelude.{
  ℕ, suc, ◌≤◌, ◌≡◌, inl, inr, refl, sym, ap, ◌∙◌, Bool, true, false, Option, none, some, List, [],
  ◌∷◌, get_elem?, arith, Bool-cases, some_inj, if-true, if-false, subst,
}
use palmyra_os.Network.ByteOrder.{byte_at}
use palmyra_os.Network.Arp.{Arrival}
use palmyra_os.Network.Icmp.{
  PingState, Node, Message, echo_header_size, type_echo_reply, field16, matches, mark_replied,
  send_echo_reply, handle_icmp_packet, transmit, receive, poll,
}

-- An echo reply from the machine that was pinged, with the identifier and the number sent
pub record IsReply (target_ip id sequence : ℕ) (m : Message) : Type 0 where
  pub long : echo_header_size ≤ m.payload_length
  pub is_reply : byte_at m.payload 0 ≡ type_echo_reply
  pub from_target : m.source_ip ≡ target_ip
  pub same_id : field16 m.payload 4 ≡ id
  pub same_sequence : field16 m.payload 6 ≡ sequence

abbrev pub Answers : PingState → Message → Type 0
Answers p m = IsReply p.target_ip p.id p.sequence m

-- A ping that waits for the same reply
pub record SamePing (p q : PingState) : Type 0 where
  same_target : q.target_ip ≡ p.target_ip
  same_id : q.id ≡ p.id
  same_sequence : q.sequence ≡ p.sequence

pub SamePing-refl : (p : PingState) → SamePing p p
SamePing-refl p = record { same_target = refl; same_id = refl; same_sequence = refl }

pub Answers-SamePing : (p q : PingState) (m : Message) → SamePing p q → Answers q m → Answers p m
Answers-SamePing p q m s a = record {
  long = a.long;
  is_reply = a.is_reply;
  from_target = a.from_target ∙ s.same_target;
  same_id = a.same_id ∙ s.same_id;
  same_sequence = a.same_sequence ∙ s.same_sequence;
}

pub not_yet :
    (n u : Node)
    → n.icmp.pending_ping.reply_received ≡ false
    → n ≡ u
    → ¬ (u.icmp.pending_ping.reply_received ≡ true)
not_yet n u waiting e replied =
    let z : false ≡ true =
      sym waiting ∙ ap (λ (x : Node). x.icmp.pending_ping.reply_received) e ∙ replied in
    cc

-- One of the messages answers the ping.
abbrev pub AnsweredBy : PingState → List Message → Type 0
AnsweredBy p ms = (j : ℕ) × (m : Message) × (get_elem? ms j ≡ some m) × Answers p m

module _ (arp_arrivals : ℕ → List Arrival) where
  handle_icmp_packet-Answers :
      (m : Message) (n n' : Node) (b : Bool)
      → n.icmp.pending_ping.reply_received ≡ false
      → handle_icmp_packet arp_arrivals m.payload m.payload_length m.source_ip n ≡ some (b, n')
      → n'.icmp.pending_ping.reply_received ≡ true
      → Answers n.icmp.pending_ping m
  unfolding handle_icmp_packet send_echo_reply transmit matches mark_replied
  handle_icmp_packet-Answers m n n' b waiting h replied = ground (arith, waiting, h, replied)

  handle_icmp_packet-SamePing :
      (m : Message) (n n' : Node) (b : Bool)
      → handle_icmp_packet arp_arrivals m.payload m.payload_length m.source_ip n ≡ some (b, n')
      → SamePing n.icmp.pending_ping n'.icmp.pending_ping
  unfolding handle_icmp_packet send_echo_reply transmit mark_replied
  handle_icmp_packet-SamePing m n n' b h = ground (arith, h)

  -- What a poll that the code survives does with the first message
  receive-first :
      (m : Message) (ms : List Message) (n n' : Node)
      → receive arp_arrivals (m ∷ ms) n ≡ some n'
      → (b : Bool) × (u : Node) × (handle_icmp_packet arp_arrivals m.payload m.payload_length
            m.source_ip n
          ≡ some (b, u))
        × (receive arp_arrivals ms u ≡ some n')
  unfolding receive
  receive-first m ms n n' h = step _ refl h
    where
      step :
          (o : Option (Bool × Node))
          → handle_icmp_packet arp_arrivals m.payload m.payload_length m.source_ip n ≡ o
          → elim o as (λ _. Option Node) [ none ↦ none | some (b, u) ↦ receive arp_arrivals ms u ]
            ≡ some n'
          → (b : Bool) × (u : Node) × (handle_icmp_packet arp_arrivals m.payload m.payload_length
                m.source_ip n
              ≡ some (b, u))
            × (receive arp_arrivals ms u ≡ some n')
      step none e g = cc
      step (some (b, u)) e g = (b, u, e, g)

  receive-SamePing :
      (ms : List Message) (n n' : Node)
      → receive arp_arrivals ms n ≡ some n'
      → SamePing n.icmp.pending_ping n'.icmp.pending_ping
  unfolding receive
  receive-SamePing [] n n' h = rw (some_inj h) (SamePing-refl n'.icmp.pending_ping)
  receive-SamePing (m ∷ ms) n n' h =
      let (b, u, handled, rest) = receive-first m ms n n' h in
      let s = handle_icmp_packet-SamePing m n u b handled in
      let t = receive-SamePing ms u n' rest in
      record {
        same_target = t.same_target ∙ s.same_target;
        same_id = t.same_id ∙ s.same_id;
        same_sequence = t.same_sequence ∙ s.same_sequence;
      }

  receive-AnsweredBy :
      (ms : List Message) (n n' : Node)
      → n.icmp.pending_ping.reply_received ≡ false
      → receive arp_arrivals ms n ≡ some n'
      → n'.icmp.pending_ping.reply_received ≡ true
      → AnsweredBy n.icmp.pending_ping ms
  unfolding receive
  receive-AnsweredBy [] n n' waiting h replied = absurd (not_yet n n' waiting (some_inj h) replied)
  receive-AnsweredBy (m ∷ ms) n n' waiting h replied =
      let (b, u, handled, rest) = receive-first m ms n n' h in
      elim (Bool-cases u.icmp.pending_ping.reply_received) [
        | inl now ↦ (0, m, refl, handle_icmp_packet-Answers m n u b waiting handled now)
        | inr not_yet ↦
            let (j, m', at, a) = receive-AnsweredBy ms u n' not_yet rest replied in
            (
              suc j,
              m',
              at,
              Answers-SamePing n.icmp.pending_ping u.icmp.pending_ping m'
                  (handle_icmp_packet-SamePing m n u b handled) a,
            )
      ]

  pub poll-SamePing :
      (ms : List Message) (n u : Node)
      → poll arp_arrivals ms n ≡ some u
      → SamePing n.icmp.pending_ping u.icmp.pending_ping
  poll-SamePing ms n u h = elim (Bool-cases n.host.link.has_default_interface) [
    | inl up ↦ receive-SamePing ms n u (sym (if-true _ _ up) ∙ h)
    | inr down ↦
        let e : n ≡ u = some_inj (sym (if-false _ _ down) ∙ h) in
        subst (λ (x : Node). SamePing n.icmp.pending_ping x.icmp.pending_ping) e
          (SamePing-refl n.icmp.pending_ping)
  ]

  pub poll-AnsweredBy :
      (ms : List Message) (n u : Node)
      → n.icmp.pending_ping.reply_received ≡ false
      → poll arp_arrivals ms n ≡ some u
      → u.icmp.pending_ping.reply_received ≡ true
      → AnsweredBy n.icmp.pending_ping ms
  poll-AnsweredBy ms n u waiting h replied = elim (Bool-cases n.host.link.has_default_interface) [
    | inl up ↦ receive-AnsweredBy ms n u waiting (sym (if-true _ _ up) ∙ h) replied
    | inr down ↦ absurd (not_yet n u waiting (some_inj (sym (if-false _ _ down) ∙ h)) replied)
  ]
