-- ===== src/Lib.antt =====
-- The operating system library Liquorice, for small embedded systems: its memory, its scheduler
-- with the locks built on it, its timers, its two serial framings, the negotiation of PPP links,
-- IP, ICMP, UDP and TCP, and IP over Ethernet.
--
-- The parts, each a module named for it, with its theorems in the modules below it:
-- * Heap.antt, for src/lib/heap/heap.c: the list of memory holes, allocation by best fit, release with
--   merging. Heap is the static state of the file, Hole a memory_hole with its address; alloc is
--   heap_alloc(), free is heap_free(), add is heap_add(). The sizes are those of i386, with 32 bits.
-- * Context.antt, for src/lib/context/context.c and isr_context_switch.c: contexts, the run queue and
--   the sleep queues. System is current_context, run_queue, run_queue_len and the contexts. A queue
--   that the source threads through its contexts is the list of them. Context/Spinlock.antt is
--   src/lib/context/spinlock.c.
-- * Sem.antt, Rwlock.antt and Condvar.antt, for src/lib/sem/sem.c, src/lib/rwlock/rwlock.c and
--   src/lib/condvar/condvar.c: they take the spinlock of their structure, put the running context on
--   a sleep queue or wake the contexts on one, and release it.
-- * Oneshot.antt, for src/lib/oneshot/oneshot.c: the list of timers, followed by the links in the
--   timers themselves as the code follows them.
-- * Slip.antt, for src/lib/slip/slip.c: octets of the serial line to packets and back (RFC 1055).
-- * Ahdlc.antt, for src/lib/ppp_ahdlc/ppp_ahdlc.c: the framing of PPP (RFC 1662) with its 16-bit
--   check sequence, computed from a table.
-- * Control.antt, for the automaton of RFC 1661 that src/lib/ppp/ppp.c and src/lib/ppp_ip/ppp_ip.c each
--   have a copy of: its table, actions and events. What the copies do differently is the record Layer.
--   Control/Replies.antt frames the reply to a list of options.
-- * Lcp.antt, for the link control protocol of ppp.c: its Layer and options (Lcp/Instance.antt), the
--   checks of received options (Lcp/Parse.antt), and a received packet, recv_lcp. Ppp.antt is the rest of
--   that file: the clients of a link, and where a packet goes.
-- * Ipcp.antt, for src/lib/ppp_ip/ppp_ip.c: the second Layer with the option of the IP address.
-- * Ipcsum.antt, for src/lib/ipcsum/ipcsum.c and the assembler of src/lib/ipcsum/i386/ipcsum.c: the
--   Internet checksum. Ip.antt, for src/lib/ip/ip.c: IP and ICMP, with the packets that are issued in
--   Ip/Send.antt and the clients in Ip/Clients.antt. Udp.antt, for src/lib/udp/udp.c.
-- * Ethernet.antt, for src/lib/ethernet/ethernet.c: frames and their clients by type. Route.antt and
--   Arp.antt, for the routes and the ARP cache of src/lib/ethernet_ip/ethernet_ip.c, and EthernetIp.antt
--   for the rest of that file and src/lib/ip_datalink/ip_datalink.c: ARP packets, and where a packet goes.
-- * Tcp.antt, for src/lib/tcp/tcp.c: Tcp/Socket.antt is struct tcp_socket with its segments, a segment
--   being the fields of its header; Tcp/Send.antt builds and sends segments and times them;
--   Tcp/Machine.antt is tcp_recv_state_machine(), a function for each case of its switch; Tcp/Calls.antt
--   is what the owner of a socket calls, and the timers; Tcp/Sockets.antt is the list of sockets and
--   tcp_recv_netbuf(). A step returns the socket and, in order, what
--   it does outside: segments, callbacks, removal from the list, the signal to who waits.
-- * Octets.antt has numbers and packets as octets in memory, which the protocols share.
-- * Base.antt has the names, tests and list lemmas that the others share.
--
-- How the code is rendered. Shared state is passed along and returned. Numbers are natural
-- numbers with the wrap-around of their type written out, an s8_t by its pattern of bits; a sum
-- of addresses wraps at 2^32. A function that may switch to another context ends at the switch:
-- the call's rest, run when its context goes on, is a function of its own (isr_resume, resume).
-- A packet or a queue is the list of its octets or its members, and a receive buffer a list of
-- fixed length, so that a write outside it shows; the loops over them need no fuel. The walks
-- along the timers' links have a fuel, and a round for each timer of the list is enough. The
-- loops along the options of a packet have the octets that are left for their fuel; every option
-- takes two at least. The memory that a received packet stands in is a function from offsets to
-- octets, so that a read past its end shows; the octets of the stack behind a local variable are
-- a function as well. The timer of an automaton is whether it is in the list of timers, and its
-- buffer one that is there, absent or given back; sizes and the int of the PPP files are those
-- of i386.
--
-- What is left out: the stops, lights and messages of the debug build, with the magic words of
-- the heap; the stack frames and the assembler of the context switch; the bodies of the clients
-- that a driver hands packets to, and of the serial drivers, which appear as the list of octets
-- or packets handed over; in the framing drivers, that memory for a packet may run out. In the
-- PPP files, reference counts of clients and servers, and that the lock of an instance is given
-- up while a packet is sent. In IP and UDP, reference counts, statistics and the datalink below;
-- what a client does with a packet; and the order of octets of numbers, which stand for
-- themselves until they are written to a packet or read from it. The timer of IPCP calls
-- ipcp_tick_timeout() with the PPP instance for its own: the IPCP instance only loses the timer,
-- and what the call does to the memory of the PPP instance is not modelled. In TCP, the octets of
-- a header with its checksum, reference counts, and the sleep of a call that waits; a client's
-- callback, which runs while the lock is released, returns without a call of TCP; a shift by 32 or
-- more goes by the count modulo 32, as on i386.
pub mod Base
pub mod Octets
pub mod Slip
pub mod Ahdlc
pub mod Heap
pub mod Context
pub mod Sem
pub mod Rwlock
pub mod Condvar
pub mod Oneshot
pub mod Control
pub mod Lcp
pub mod Ppp
pub mod Ipcp
pub mod Ipcsum
pub mod Ip
pub mod Udp
pub mod Ethernet
pub mod Route
pub mod Arp
pub mod EthernetIp
pub mod Tcp
