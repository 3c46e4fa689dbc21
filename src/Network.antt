-- ===== src/Network.antt =====
-- The network stack (core/network): byte order, the Internet checksum, the way out of the
-- machine, ARP, DNS names, IPv4, ICMP, UDP and the table of interfaces.
pub mod Arp
pub mod ByteOrder
pub mod Checksum
pub mod Dns
pub mod Icmp
pub mod Interfaces
pub mod Ipv4
pub mod Link
pub mod Udp
