-- ===== src/Network/Icmp/Answered.antt =====
-- `ICMP::pingWithData`: what a ping that counts as answered was answered by.
use palmyra_os.Prelude.{
  ℕ, zero, suc, ◌+◌, ◌<◌, ◌≡◌, inl, inr, refl, sym, ap, ◌∙◌, Bool, true, false, not, if◌then◌else◌,
  Option, none, some, List, get_elem?, arith, Bool-cases, some_inj, subst,
}
use palmyra_os.Network.Arp.{Arrival}
use palmyra_os.Network.Icmp.{
  Node, Message, type_echo_request, sealed_echo, transmit, fits, ping_id, start_ping, poll, wait,
  wait_rounds, ping_result, ping_with_data,
}
use palmyra_os.Network.Icmp.Matching.{
  IsReply, Answers-SamePing, SamePing, SamePing-refl, AnsweredBy, not_yet, poll-SamePing,
  poll-AnsweredBy,
}

no_time :
    (x y : Node) (t : ℕ)
    → ¬ (◌≡◌ {A = Option (Option ℕ × Node)} (some (none, x)) (some (some t, y)))
no_time x y t g = let e : none ≡ some t = ap (λ (p : Option ℕ × Node). p.0) (some_inj g) in cc

no_outcome : {A : Type 0} (x : A) → ¬ (none ≡ some x)
no_outcome x g = cc

-- An outcome that has a time comes from a wait that ended.
outcome :
    (on room sent : Bool) (n x n' : Node) (t : ℕ) (o : Option Node)
    → (if not on
        then some (none, n)
        else if not room
        then none
        else if not sent
        then some (none, x)
        else elim o as (λ _. Option (Option ℕ × Node)) [
          | none ↦ none
          | some u ↦ some (ping_result u)
        ])
      ≡ some (some t, n')
    → (u : Node) × (o ≡ some u) × (ping_result u ≡ (some t, n'))
outcome false room sent n x n' t o g = absurd (no_time n n' t g)
outcome true false sent n x n' t o g = absurd (no_outcome (some t, n') g)
outcome true true false n x n' t o g = absurd (no_time x n' t g)
outcome true true true n x n' t none g = absurd (no_outcome (some t, n') g)
outcome true true true n x n' t (some u) g = (u, refl, some_inj g)

module _ (arp_arrivals : ℕ → List Arrival) (arrivals : ℕ → List Message) where
  wait-next :
      (k i : ℕ) (n n' : Node)
      → n.icmp.pending_ping.reply_received ≡ false
      → wait arp_arrivals arrivals (suc k) i n ≡ some n'
      → (u : Node) × (poll arp_arrivals (arrivals i) n ≡ some u)
        × (wait arp_arrivals arrivals k (i + 1) u ≡ some n')
  unfolding wait
  wait-next k i n n' waiting h = step _ refl (sym opened ∙ h)
    where
      opened :
          wait arp_arrivals arrivals (suc k) i n
          ≡ elim (poll arp_arrivals (arrivals i) n) as (λ _. Option Node) [
            | none ↦ none
            | some u ↦ wait arp_arrivals arrivals k (i + 1) u
          ]
      opened = simp (waiting, wait)

      step :
          (o : Option Node)
          → poll arp_arrivals (arrivals i) n ≡ o
          → elim o as (λ _. Option Node) [
            | none ↦ none
            | some u ↦ wait arp_arrivals arrivals k (i + 1) u
          ]
            ≡ some n'
          → (u : Node) × (poll arp_arrivals (arrivals i) n ≡ some u)
            × (wait arp_arrivals arrivals k (i + 1) u ≡ some n')
      step none e g = cc
      step (some u) e g = (u, e, g)

  wait-AnsweredBy :
      (k i : ℕ) (n n' : Node)
      → n.icmp.pending_ping.reply_received ≡ false
      → wait arp_arrivals arrivals k i n ≡ some n'
      → n'.icmp.pending_ping.reply_received ≡ true
      → (r : ℕ) × (r < k) × AnsweredBy n.icmp.pending_ping (arrivals (i + r))
  unfolding wait
  wait-AnsweredBy zero i n n' waiting h replied = absurd (not_yet n n' waiting (some_inj h) replied)
  wait-AnsweredBy (suc k) i n n' waiting h replied =
      let (u, polled, rest) = wait-next k i n n' waiting h in
      elim (Bool-cases u.icmp.pending_ping.reply_received) [
        | inl now ↦ (
          0,
          omega arith,
          subst (λ x. AnsweredBy n.icmp.pending_ping (arrivals x)) (omega arith)
              (poll-AnsweredBy arp_arrivals (arrivals i) n u waiting polled now),
        )
        | inr later ↦
            let (r, few, answered) = wait-AnsweredBy k (i + 1) u n' later rest replied in
            let (j, m, at, a) = answered in
            (
              suc r,
              omega (arith, few),
              (
                j,
                m,
                ap (λ x. get_elem? (arrivals x) j) (omega arith) ∙ at,
                Answers-SamePing n.icmp.pending_ping u.icmp.pending_ping m
                    (poll-SamePing arp_arrivals (arrivals i) n u polled) a,
              ),
            )
      ]

  ping_result-replied :
      (u n' : Node) (t : ℕ)
      → ping_result u ≡ (some t, n')
      → u.icmp.pending_ping.reply_received ≡ true
  unfolding ping_result
  ping_result-replied u n' t h = ground (arith, h)

  -- The state in which the wait starts
  abbrev asked : ℕ → List ℕ → Node → Node
  asked target_ip bytes n =
      (transmit arp_arrivals target_ip (sealed_echo type_echo_request ping_id 1 bytes)
        (record n { icmp = start_ping target_ip n.icmp })).1

  asked-waits :
      (target_ip : ℕ) (bytes : List ℕ) (n : Node)
      → ((asked target_ip bytes n).icmp.pending_ping.reply_received ≡ false)
        × SamePing
            (start_ping target_ip n.icmp).pending_ping
            (asked target_ip bytes n).icmp.pending_ping
  unfolding transmit start_ping
  asked-waits target_ip bytes n = (refl, SamePing-refl (start_ping target_ip n.icmp).pending_ping)

  -- A ping that counts as answered was sent and waited for.
  ping_with_data-waited :
      (target_ip : ℕ) (bytes : List ℕ) (n n' : Node) (t : ℕ)
      → ping_with_data arp_arrivals arrivals target_ip bytes n ≡ some (some t, n')
      → (u : Node) × (wait arp_arrivals arrivals wait_rounds 0 (asked target_ip bytes n) ≡ some u)
        × (ping_result u ≡ (some t, n'))
  unfolding ping_with_data
  ping_with_data-waited target_ip bytes n n' t h =
      outcome n.icmp.initialized (fits bytes)
        (transmit arp_arrivals target_ip (sealed_echo type_echo_request ping_id 1 bytes)
          (record n { icmp = start_ping target_ip n.icmp })).0
        n (asked target_ip bytes n) n' t
        (wait arp_arrivals arrivals wait_rounds 0 (asked target_ip bytes n)) h

  -- A reply to the ping arrives in one of the rounds.
  abbrev pub HasReply : ℕ → Type 0
  HasReply target_ip =
      (r : ℕ) × (r < 500)
      × (j : ℕ) × (m : Message) × (get_elem? (arrivals r) j ≡ some m)
      × IsReply target_ip ping_id 1 m

  -- If pingWithData answers true then one of the ICMP messages that arrive in the 500 rounds of
  -- its wait is an echo reply of at least 8 bytes from the address that was pinged, with the
  -- identifier and the sequence number that were sent, supposing that IPv4 frames which arrive
  -- before, while ARP polls, leave the module of ICMP as it is.
  pub ping_with_data-answered :
      (target_ip : ℕ) (bytes : List ℕ) (n n' : Node) (t : ℕ)
      → ping_with_data arp_arrivals arrivals target_ip bytes n ≡ some (some t, n')
      → HasReply target_ip
  unfolding start_ping
  ping_with_data-answered target_ip bytes n n' t h =
      let (u, waited, result) = ping_with_data-waited target_ip bytes n n' t h in
      let (waiting, same) = asked-waits target_ip bytes n in
      let (r, few, answered) =
        wait-AnsweredBy wait_rounds 0 (asked target_ip bytes n) u waiting waited
          (ping_result-replied u n' t result) in
      let (j, m, at, a) = answered in
      (
        r,
        few,
        j,
        m,
        ap (λ x. get_elem? (arrivals x) j) (omega arith) ∙ at,
        Answers-SamePing (start_ping target_ip n.icmp).pending_ping
            (asked target_ip bytes n).icmp.pending_ping m same a,
      )
