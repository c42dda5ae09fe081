-- ===== src/Tcp/Exchange.antt =====
-- Data that is sent, received and acknowledged between two sockets of src/lib/tcp/tcp.c.
use liquorice.Base.{ℕ, ◌≡◌, List, [], ◌∷◌, ◌++◌, length}
use liquorice.Tcp.Socket.{Segment, TcpClient, Socket, Event}
use liquorice.Tcp.Socket.Event.{recv}
use liquorice.Tcp.Send.{psh_ack_flags, build_netbuf, complete_header, start_timing}
use liquorice.Tcp.Calls.{tcp_send_netbuf, tcp_tick_deferred_ack}
use liquorice.Tcp.Link.{segments, IsLinked, recv_all}
use liquorice.Tcp.Transfer.{acknowledged, taken}

-- The segment that carries data from a socket at rest, and the socket behind it.
abbrev pub data_segment : Socket → List ℕ → Segment
data_segment a octets = record {
  src_port = a.local_port;
  dest_port = a.remote_port;
  sequence = a.snd_nxt;
  ack = a.rcv_nxt;
  flags = psh_ack_flags;
  data_ = octets;
}

abbrev pub sending : ℕ → Socket → List ℕ → Socket
sending now a octets = start_timing now a (build_netbuf a psh_ack_flags octets) (length octets)

-- The receiver of the data, and the acknowledgement that its timer sends.
abbrev receiver : ℕ → Socket → Socket → List ℕ → Socket
receiver now a b octets = taken (acknowledged now b (data_segment a octets)) octets

abbrev ack_segment : ℕ → Socket → Socket → List ℕ → Segment
ack_segment now a b octets =
    complete_header (receiver now a b octets) (receiver now a b octets).deferred_ack

-- The two sockets after data has gone from the first to the second, which acknowledges it by its timer, and what the
-- second's client was given.
abbrev pub exchange : ℕ → ℕ → ℕ → Socket → Socket → List ℕ → Socket × Socket × List Event
exchange now addr_a addr_b a b octets =
    let out = tcp_send_netbuf now a octets in
    let b1 = recv_all now addr_a b (segments out.1) in
    let b2 = tcp_tick_deferred_ack b1.0 in
    let a1 = recv_all now addr_b out.0 (segments (b1.1 ++ b2.1)) in (a1.0, b2.0, b1.1)

-- The connection is idle again, and the client was given the data.
abbrev pub IsExchanged : TcpClient → List ℕ → Socket × Socket × List Event → Type 0
IsExchanged tc octets r = (IsLinked r.0 r.1 × IsLinked r.1 r.0) × (r.2 ≡ recv tc octets ∷ [])
