-- ===== src/Network/Icmp.antt =====
-- Echo requests and replies, `kernel::ICMP` of core/network/ICMP.cpp.
pub mod Echo
pub mod Ping
pub mod Matching
pub mod Answered
mod Tests
use palmyra_os.Prelude.{
  ℕ, zero, suc, ◌+◌, ◌-◌, ◌%◌, ◌^◌, Bool, true, false, not, ◌&&◌, Option, none, some, List, [], ◌∷◌,
  ◌++◌, ltb, leb, ◌==◌, if◌then◌else◌, length, take, drop,
}
use palmyra_os.Network.ByteOrder.{to_big_endian16, from_big_endian16, store16, load16, byte_at}
use palmyra_os.Network.Checksum.{add_words, fold_carries, fold_rounds, complement16}
use palmyra_os.Network.Arp.{Arrival, arp_frame, Host}
use palmyra_os.Network.Ipv4.{Ipv4, protocol_icmp, send_packet}

abbrev pub type_echo_request : ℕ
type_echo_request = 8

abbrev pub type_echo_reply : ℕ
type_echo_reply = 0

abbrev pub code_echo : ℕ
code_echo = 0

abbrev pub ping_timeout_ms : ℕ
ping_timeout_ms = 5000

abbrev pub ping_id : ℕ
ping_id = 0x1234

abbrev pub echo_header_size : ℕ
echo_header_size = 8

-- The size of the array `message` that a message is put into
abbrev pub message_buffer_size : ℕ
message_buffer_size = 256

-- Whether a message with this data fits it. The code does not test it.
abbrev pub fits : List ℕ → Bool
fits bytes = leb (echo_header_size + length bytes) message_buffer_size

pub record PingState : Type 0 where
  pub target_ip : ℕ
  pub sent_time : ℕ
  pub id : ℕ
  pub sequence : ℕ
  pub reply_received : Bool
  pub reply_time : ℕ

-- `dummyTime` is the clock of `getSystemTimeMs`.
pub record Icmp : Type 0 where
  pub initialized : Bool
  pub pending_ping : PingState
  pub dummy_time : ℕ

pub initialize : Icmp → Bool × Icmp
initialize c = if c.initialized then (true, c) else (true, record c { initialized = true })

abbrev pub next_time : Icmp → ℕ
next_time c = (c.dummy_time + 1) % 2 ^ 32

pub get_system_time_ms : Icmp → ℕ × Icmp
get_system_time_ms c = (next_time c, record c { dummy_time = next_time c })

pub calculate_checksum : List ℕ → ℕ
calculate_checksum message = complement16 (fold_carries fold_rounds (add_words 0 message))

-- An `EchoMessage` and its data, from a checksum field as it is stored
pub build_echo : ℕ → ℕ → ℕ → ℕ → List ℕ → List ℕ
build_echo type checksum id sequence bytes =
    type ∷ code_echo ∷ store16 checksum
    ++ (store16 (to_big_endian16 id) ++ (store16 (to_big_endian16 sequence) ++ bytes))

pub sealed_echo : ℕ → ℕ → ℕ → List ℕ → List ℕ
sealed_echo type id sequence bytes =
    build_echo type (to_big_endian16 (calculate_checksum (build_echo type 0 id sequence bytes))) id
      sequence bytes

-- The module, the IPv4 module, and the machine that they send by.
pub record Node : Type 0 where
  pub icmp : Icmp
  pub ipv4 : Ipv4
  pub host : Host

-- A message handed to IPv4. `arp_arrivals` are the frames that arrive while ARP polls; those of
-- IPv4 among them are supposed to leave the modules of ICMP and IPv4 as they are.
pub transmit : (ℕ → List Arrival) → ℕ → List ℕ → Node → Bool × Node
transmit arp_arrivals dest_ip message n =
    let (sent, host') = send_packet arp_arrivals dest_ip protocol_icmp message n.ipv4 n.host in
    (sent, record n { host = host' })

-- None where the code writes beyond the array
pub send_echo_reply : (ℕ → List Arrival) → ℕ → ℕ → ℕ → List ℕ → Node → Option (Bool × Node)
send_echo_reply arp_arrivals dest_ip id sequence bytes n =
    if not n.icmp.initialized
    then some (false, n)
    else if not (fits bytes)
    then none
    else some (transmit arp_arrivals dest_ip (sealed_echo type_echo_reply id sequence bytes) n)

abbrev pub field16 : List ℕ → ℕ → ℕ
field16 payload i = from_big_endian16 (load16 (byte_at payload i) (byte_at payload (1 + i)))

pub matches : List ℕ → ℕ → PingState → Bool
matches payload source_ip p =
    p.target_ip == source_ip && field16 payload 4 == p.id && field16 payload 6 == p.sequence

pub mark_replied : Icmp → Icmp
mark_replied c = record c {
  pending_ping = record c.pending_ping { reply_received = true; reply_time = next_time c };
  dummy_time = next_time c;
}

-- `payload` is what stands from the ICMP header on. None as for `send_echo_reply`.
pub handle_icmp_packet : (ℕ → List Arrival) → List ℕ → ℕ → ℕ → Node → Option (Bool × Node)
handle_icmp_packet arp_arrivals payload payload_length source_ip n =
    if not n.icmp.initialized
    then some (false, n)
    else if ltb payload_length echo_header_size
    then some (false, n)
    else if byte_at payload 0 == type_echo_reply && matches payload source_ip n.icmp.pending_ping
    then some (true, record n { icmp = mark_replied n.icmp })
    else if byte_at payload 0 == type_echo_request
    then send_echo_reply arp_arrivals source_ip (field16 payload 4) (field16 payload 6)
        (take (payload_length - echo_header_size) (drop 8 payload)) n
    else some (false, n)

pub record Message : Type 0 where
  pub payload : List ℕ
  pub payload_length : ℕ
  pub source_ip : ℕ

-- ICMP messages that arrive while the interface is polled
pub receive : (ℕ → List Arrival) → List Message → Node → Option Node
receive arp_arrivals [] n = some n
receive arp_arrivals (m ∷ ms) n =
    elim (handle_icmp_packet arp_arrivals m.payload m.payload_length m.source_ip n) [
      | none ↦ none
      | some (handled, n') ↦ receive arp_arrivals ms n'
    ]

abbrev pub poll : (ℕ → List Arrival) → List Message → Node → Option Node
poll arp_arrivals ms n =
    if n.host.link.has_default_interface then receive arp_arrivals ms n else some n

-- The rounds of the waiting loop, `k` of them left. `arrivals i` are the messages that arrive in
-- round `i`.
pub wait : (ℕ → List Arrival) → (ℕ → List Message) → ℕ → ℕ → Node → Option Node
wait arp_arrivals arrivals zero i n = some n
wait arp_arrivals arrivals (suc k) i n = elim n.icmp.pending_ping.reply_received [
  | true ↦ some n
  | false ↦ elim (poll arp_arrivals (arrivals i) n) [
    | none ↦ none
    | some n' ↦ wait arp_arrivals arrivals k (i + 1) n'
  ]
]

-- `waitTime` grows by 10 each round.
abbrev pub wait_rounds : ℕ
wait_rounds = 500

pub start_ping : ℕ → Icmp → Icmp
start_ping target_ip c = record c {
  pending_ping = record c.pending_ping {
    target_ip = target_ip;
    sent_time = next_time c;
    id = ping_id;
    sequence = 1;
    reply_received = false;
  };
  dummy_time = next_time c;
}

-- What the code answers after the wait: the round-trip time that it writes, if it answers true
pub ping_result : Node → Option ℕ × Node
ping_result n =
    let p = n.icmp.pending_ping in
    if not p.reply_received
    then (none, n)
    else (some ((p.reply_time + 2 ^ 32 - p.sent_time) % 2 ^ 32), n)

-- The place for the time is not null. None where the code writes beyond the array.
pub ping_with_data :
    (ℕ → List Arrival) → (ℕ → List Message) → ℕ → List ℕ → Node → Option (Option ℕ × Node)
ping_with_data arp_arrivals arrivals target_ip bytes n =
    let started = record n { icmp = start_ping target_ip n.icmp } in
    let (sent, n') =
      transmit arp_arrivals target_ip (sealed_echo type_echo_request ping_id 1 bytes) started in
    if not n.icmp.initialized
    then some (none, n)
    else if not (fits bytes)
    then none
    else if not sent
    then some (none, n')
    else elim (wait arp_arrivals arrivals wait_rounds 0 n') [
      | none ↦ none
      | some n'' ↦ some (ping_result n'')
    ]
