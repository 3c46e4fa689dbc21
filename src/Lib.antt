-- ===== src/Lib.antt =====
-- Verification of parts of PalmyraOS, a kernel for 32-bit x86.
--
-- The parts and how they interact. Frames of physical memory are handed out by a bitmap allocator,
-- and bytes by a heap that splits and merges chunks of memory. The timer interrupt switches
-- between processes in turn. A disk drive is read and written by sectors, the first of which has a
-- table of the partitions; on it a FAT32 partition keeps a table, in several copies, of which
-- cluster follows which. 64-bit division, which the processor lacks, is done by the functions of
-- libgcc that the compiler calls. In the network stack a datagram goes from UDP to IPv4, which
-- asks ARP for the next hop's MAC address and sends a frame by the network manager to the driver
-- of the default interface; a frame that arrives goes from IPv4 to ICMP, which answers echo
-- requests, or to UDP, which calls the handler bound to the port. DNS sends its queries by UDP.
-- The circular buffer stands by itself: it keeps the text of a terminal.
--
-- The files, with paths from the repository's root:
--   PhysicalMemory.antt: PalmyraOS/source/core/memory/PhysicalMemory.cpp. The state has the class's
--     static members and kmalloc's placement address; functions have the source's names in
--     snake_case (findFirstFreeFrame is find_first_free_frame). Children: Marks (bits as marks),
--     Search and Runs (the two searches), Validity (the invariant), Start (initialize), Ownership
--     (who holds which frame, as a step relation), Allocation, Ranges, Tests.
--   Libgcc.antt: PalmyraOS/source/libs/libgcc.cpp. Children: Unsigned, Signed, Tests.
--   CircularBuffer.antt: PalmyraOS/include/palmyraOS/circularBuffer.h. Children: Cells (cells in a
--     row), Contents (the buffer as a string), Tests.
--   Network/ByteOrder.antt: PalmyraOS/include/core/network/Ethernet.h.
--   Network/Checksum.antt: the checksum arithmetic of PalmyraOS/source/core/network/IPv4.cpp and
--     UDP.cpp.
--   Network/Link.antt: sendPacket of PalmyraOS/source/core/network/NetworkManager.cpp.
--   Network/Interfaces.antt: the table of that file. Children: Shift (the loop that closes a gap),
--     Table (registration), Removal, Tests.
--   Network/Arp.antt: PalmyraOS/source/core/network/ARP.cpp. Children: Cache (the cache as a map),
--     Exchange (request and reply), Resolve, Tests.
--   Network/Udp.antt: PalmyraOS/source/core/network/UDP.cpp. Children: Ports and Bindings (the
--     table as a map), Ephemeral, Datagram, Tests.
--   Network/Ipv4.antt: PalmyraOS/source/core/network/IPv4.cpp. Children: Header, Accept, Send, Tests.
--   Network/Icmp.antt: PalmyraOS/source/core/network/ICMP.cpp. Children: Echo, Ping (a ping that
--     is answered), Matching and Answered (by what), Tests.
--   Network/Dns.antt: encodeDomainName and decodeDomainName of PalmyraOS/source/core/network/DNS.cpp.
--     Children: Encode, Decode, Tests.
--   Files/VirtualDisk.antt: PalmyraOS/include/core/files/partitions/VirtualDisk.h and
--     PalmyraOS/source/libs/utils.cpp.
--   Files/Partition.antt: the fields of PalmyraOS/source/core/files/partitions/Fat32.cpp and how the
--     boot sector sets them.
--   Files/Fat32.antt: the file allocation table of that file. Children: Entries (where entries
--     stand), Table (the table as a map), Refine and Calls (operations against the map), Free, Chain,
--     Tests.
--   Tasks/TaskManager.antt: PalmyraOS/source/core/tasks/ProcessManager.cpp and parts of Process.cpp.
--     Children: Pick (the search for a ready process), Fine (what holds of each process), Validity, Waiting,
--     Fairness, Tests.
--   Heap.antt: PalmyraOS/source/palmyraOS/shared/memory/Heap.cpp. Children: Cover (sums over chunks),
--     Settled (coalescing), Release (free), Hole (the search), Taking (a hole taken), Alloc, Tests.
--   Files/LongName.antt: createLFNEntries, calculateShortNameChecksum and getDirectoryEntries of
--     PalmyraOS/source/core/files/partitions/Fat32.cpp, and utf16le_to_utf8 of
--     PalmyraOS/source/core/encodings.cpp. Children: Utf8 (both conversions), Parts, RoundTrip, Tests.
--   Files/MasterBootRecord.antt: PalmyraOS/source/core/files/partitions/MasterBootRecord.cpp.
--     Children: Table (what is read of a table that was written), Tests.
--   Prelude.antt and its children: tests, lists, bits, integers that the other files share.
--
-- Conventions. A number is a natural number; a w-bit integer wraps by % 2 ^ w where the source's
-- type does. A struct in a packet is the list of its bytes, and the machine is little-endian. A
-- pointer that may be null is an Option, or a number with 0 for null. Log lines are left out. A
-- loop over an array is a recursion over the slots, one with a count a recursion on that count.
--
-- Bounds and fuel. Loops with a count run it down, so they end. The carry loop of the checksum has
-- fuel 3, which is enough for every uint32_t (fold_carries-lt). allocateEphemeralPort has its own
-- 100 attempts, and resolveMacAddress its 3. The wait for a reply has PING_TIMEOUT_MS / 10 = 500
-- rounds. The loop that decodes a name has a round more of fuel than there are bytes, of which
-- each round takes one. The search for a ready process has as many rounds as there are processes.
-- A walk along a chain of clusters has the source's 1024 * 1024 rounds. Freeing a chain has a
-- round more of fuel than there are clusters, which is enough since each round but the last frees
-- a cluster in use (free_cluster_chain_lem). Coalescing has as much fuel as there are chunks, of
-- which each round takes one. The conversion of a name to UTF-16 has as much fuel as there are
-- bytes. Reading a circular buffer has fuel BUFFER_SIZE, more than the characters it holds.
--
-- Parameters: what stands in memory before the bitmap is cleared, what the driver does with a
-- frame, the frames that arrive while ARP polls, with what IPv4's handler does to the machine for
-- each of IPv4, the messages that arrive while ICMP waits, the names of interfaces, what the drive
-- holds, reads and writes, what a buffer holds before the first read, the memory that the heap is
-- granted, the registers that an interrupt saves, what a new process gets from paging, and
-- std::sort.
--
-- Not modelled: the other subsystems (paging, system calls, virtual file system, sockets, the rest
-- of DNS, window manager, user programs), drivers and boot, which are hardware access, and
-- PalmyraOS/source/core/std/tree.cpp, a copy of another project's library. Of FAT32 short names,
-- changes of directories and the contents of files, of processes the loading of programs. Also the
-- fixed buffer of UDP::sendDatagram. A write of ICMP beyond its arrays of 256 bytes is none, since
-- what it does is undefined; IPv4 frames that arrive while ARP polls for ICMP are supposed to
-- leave the modules of ICMP and IPv4 as they are. IPv4's model ends at the call of ICMP.
pub mod CircularBuffer
pub mod Files
pub mod Heap
pub mod Libgcc
pub mod Network
pub mod PhysicalMemory
pub mod Prelude
pub mod Tasks
