-- ===== src/Tcp/Tests.antt =====
-- Sockets, segments, and the theorems at them.
use liquorice.Base.{
  List, inl, ◌*◌, ◌⊎◌, ◌+◌, ◌<◌, ◌≤◌, ◌^◌, ◌≡◌, refl, true, false, some, none, [], ◌∷◌, arith,
}
use liquorice.Tcp.Socket.{Segment, Built, TcpClient, Socket, ◌>>◌, tick_rate}
use liquorice.Tcp.Socket.State.{listen, established, fin_wait2}
use liquorice.Tcp.Send.{no_flags, ack_flags, calc_round_trip, tcp_build_and_send_sequence}
use liquorice.Tcp.Machine.{tcp_recv_state_machine, recv_established}
use liquorice.Tcp.Calls.{tcp_close}
use liquorice.Tcp.Diagram.{may_follow, tcp_recv_state_machine-may_follow}
use liquorice.Tcp.Link.{segments}
use liquorice.Tcp.Handshake.{AreLinked, handshake, tcp_connect-tcp_accept}
use liquorice.Tcp.Close.{recv_ack_all, HasNoFin, tcp_close-HasNoFin}
use liquorice.Tcp.Silent.{given}
use liquorice.Octets.{memory}
use liquorice.Tcp.Sockets.{Attached, find_socket, tcp_recv_netbuf}
use liquorice.Tcp.Lookup.{IsDistinct, find_socket-sole}
use liquorice.Tcp.Distinct.{socks_after, tcp_recv_netbuf-IsDistinct}
use liquorice.Tcp.Order.{tcp_recv_state_machine-given}

abbrev nothing : Built
nothing = record { sequence = 0; flags = no_flags; data_ = [] }

abbrev client : TcpClient
client = record { server = 1; has_close = true }

abbrev near : Socket
near = record {
  state = established;
  local_port = 1025;
  remote_port = 80;
  remote_addr = 0x0a000002;
  snd_nxt = 100;
  snd_una = 100;
  rcv_nxt = 200;
  remote_mss = 536;
  send_jiffies = 0;
  awaiting_send = [];
  awaiting_ack = nothing;
  wait_timer = none;
  is_time_wait = false;
  retransmits = 0;
  deferred_ack = nothing;
  deferred_timer = none;
  deferred_fin = false;
  retrans_timing = false;
  acked = false;
  is_deferred = false;
  rto_next = 3 * tick_rate;
  srtt_avg = 0;
  srtt_var = 3 * tick_rate;
  awaiting_accept = none;
  client = some client;
}

abbrev far : Socket
far = record near {
  local_port = 80;
  remote_port = 1025;
  remote_addr = 0x0a000001;
  snd_nxt = 200;
  snd_una = 200;
  rcv_nxt = 100;
}

abbrev busy : Socket
busy = record near { snd_nxt = 110; retrans_timing = true; awaiting_send = (1 ∷ 2 ∷ []) ∷ [] }

-- The data that the socket `far` expects.
abbrev three_octets : Segment
three_octets = record {
  src_port = 1025;
  dest_port = 80;
  sequence = 100;
  ack = 200;
  flags = ack_flags;
  data_ = 7 ∷ 8 ∷ 9 ∷ [];
}

is_given : given (tcp_recv_state_machine 5 far 0x0a000001 three_octets).1 ≡ 7 ∷ 8 ∷ 9 ∷ []
unfolding tcp_recv_state_machine given recv_established calc_round_trip tcp_build_and_send_sequence
is_given = refl

tcp_recv_state_machine-may_follow_example :
    may_follow established (tcp_recv_state_machine 5 far 0x0a000001 three_octets).0.state ≡ true
tcp_recv_state_machine-may_follow_example =
    tcp_recv_state_machine-may_follow 5 far 0x0a000001 three_octets

tcp_recv_state_machine-given_example :
    let events = (tcp_recv_state_machine 5 far 0x0a000001 three_octets).1 in
    (given events ≡ []) ⊎ ((100 ≡ far.rcv_nxt) × (given events ≡ 7 ∷ 8 ∷ 9 ∷ []))
tcp_recv_state_machine-given_example = tcp_recv_state_machine-given 5 far 0x0a000001 three_octets

tcp_connect-tcp_accept_example :
    AreLinked busy near far 4 8 12 1 2 3 4 5 1460 0x0a000001 0x0a000002 1025 80 client client client
      (handshake busy near far 4 8 12 1 2 3 4 5 1460 0x0a000001 0x0a000002 1025 80 client client
        client)
tcp_connect-tcp_accept_example =
    tcp_connect-tcp_accept busy near far 4 8 12 1 2 3 4 5 1460 0x0a000001 0x0a000002 1025 80 client
      client client

busy_bound : 110 + 2 < 2 ^ 32
busy_bound = omega arith

ordered : 100 ≤ 110
ordered = omega arith

tcp_close-HasNoFin_example :
    let run =
      tcp_close 5 busy >> recv_ack_all 5 0x0a000002 80 1025 >> recv_ack_all 5 0x0a000002 80 1025 in
    (run.0.state ≡ fin_wait2) × HasNoFin (segments run.1)
tcp_close-HasNoFin_example =
    tcp_close-HasNoFin 5 0x0a000002 80 1025 busy (1 ∷ 2 ∷ []) refl refl refl refl ordered busy_bound

abbrev listener : Socket
listener = record near { state = listen; local_port = 80; remote_port = 0; remote_addr = 0 }

abbrev server_socks : List Attached
server_socks = record { at = 4; sock = listener } ∷ record { at = 8; sock = far } ∷ []

server_socks-IsDistinct : IsDistinct server_socks
server_socks-IsDistinct = ((refl, tt), (tt, tt))

find_socket-sole_example :
    find_socket three_octets 0x0a000001 none server_socks ≡ some (record { at = 8; sock = far })
find_socket-sole_example =
    find_socket-sole three_octets 0x0a000001 (record { at = 4; sock = listener } ∷ []) []
      (record { at = 8; sock = far }) server_socks-IsDistinct (inl refl)

tcp_recv_netbuf-IsDistinct_example : IsDistinct (
    socks_after server_socks
      (tcp_recv_netbuf 5 0x0a000001 three_octets (memory (1 ∷ 0 ∷ [])) 0 2 server_socks))
tcp_recv_netbuf-IsDistinct_example =
    tcp_recv_netbuf-IsDistinct 5 0x0a000001 three_octets (memory (1 ∷ 0 ∷ [])) 0 2 server_socks
      server_socks-IsDistinct
