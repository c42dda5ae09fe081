-- ===== src/Tcp/Machine.antt =====
-- The state machine of src/lib/tcp/tcp.c, `tcp_recv_state_machine()`, a function for each of its states. The
-- callbacks of the clients run while the lock is released; here they return without a call of TCP.
use liquorice.Base.{
  ℕ, ◌+◌, ◌*◌, ◌%◌, ◌^◌, Bool, true, false, not, ◌&&◌, some, none, List, [], ◌∷◌, length, ltb, leb,
  ◌==◌, if◌then◌else◌,
}
use liquorice.Tcp.Socket.{State, Segment, Pending, Socket, Event, Step, ◌>>◌, quiet, tick_rate}
use liquorice.Tcp.Socket.State.{
  closed, listen, syn_sent, syn_received, established, fin_wait1, fin_wait2, close_wait, closing,
  last_ack, time_wait,
}
use liquorice.Tcp.Socket.Event.{connect, recv, close, detached, signalled}
use liquorice.Tcp.Send.{
  ack_flags, rst_flags, syn_ack_flags, fin_ack_flags, tcp_send_close, tcp_send_netbuf_now,
  tcp_build_and_send_sequence, stop_timing, close_socket, send_reset_close_socket, calc_round_trip,
}

-- The call of `tc_close`, where there is one.
abbrev pub notify_close : Socket → Step
notify_close sock = elim sock.client [
  | none ↦ (sock, [])
  | some tc ↦ (sock, if tc.has_close then close tc ∷ [] else [])
]

abbrev pub signal : Socket → Step
signal sock = (sock, signalled ∷ [])

-- The timer of a segment is stopped, if it runs.
abbrev pub settle : Socket → Socket
settle sock = if sock.retrans_timing then stop_timing sock else sock

-- The next packet that waits to be sent goes out, if there is one.
abbrev pub send_next : ℕ → Socket → Step
send_next now sock = elim sock.awaiting_send [
  | [] ↦ (sock, [])
  | nb ∷ rest ↦ tcp_send_netbuf_now now (record sock { awaiting_send = rest }) nb
]

-- The last segment is acknowledged: the timer stops, and the next packet goes out.
abbrev pub settle_and_send : ℕ → Socket → Step
settle_and_send now sock =
    if sock.retrans_timing then send_next now (stop_timing sock) else quiet sock

abbrev pub pending_of : Socket → ℕ → Segment → Pending
pending_of sock src_addr seg = record {
  remote_port = seg.src_port;
  remote_addr = src_addr;
  snd_nxt = sock.snd_nxt;
  snd_una = sock.snd_una;
  rcv_nxt = (seg.sequence + 1) % 2 ^ 32;
}

abbrev pub notify_connect : Socket → List Event
notify_connect sock = elim sock.client [ none ↦ [] | some tc ↦ connect tc ∷ [] ]

-- `TCS_LISTEN`, where a socket has no connection that waits.
abbrev pub recv_connect : Socket → ℕ → Segment → Step
recv_connect sock src_addr seg = elim sock.awaiting_accept [
  | some p ↦ quiet sock
  | none ↦
      (record sock { awaiting_accept = some (pending_of sock src_addr seg) }, notify_connect sock)
]

-- `TCS_LISTEN`
unfoldable pub recv_listen : ℕ → Socket → ℕ → Segment → Step
recv_listen now sock src_addr seg =
    if seg.flags.rst
    then quiet sock
    else if seg.flags.ack
    then tcp_build_and_send_sequence now
        (record sock { remote_port = seg.src_port; remote_addr = src_addr; snd_nxt = seg.ack })
        rst_flags
    else if seg.flags.syn
    then recv_connect sock src_addr seg
    else quiet sock

-- `TCS_SYN_SENT`, behind its checks.
abbrev pub sent_rst : Segment → Socket → Step
sent_rst seg sock =
    if seg.flags.rst && seg.flags.ack
    then (record sock { state = closed }, detached ∷ signalled ∷ [])
    else quiet sock

abbrev pub sent_syn : ℕ → Segment → Socket → Step
sent_syn now seg sock =
    let sock1 = record sock { rcv_nxt = (seg.sequence + 1) % 2 ^ 32 } in
    if not seg.flags.syn
    then quiet sock
    else if seg.flags.ack
    then tcp_build_and_send_sequence now
        (record sock1 { state = established; snd_una = (sock.snd_una + 1) % 2 ^ 32 }) ack_flags
      >> signal
    else tcp_build_and_send_sequence now (record (settle sock1) { state = syn_received })
        syn_ack_flags

-- `TCS_SYN_SENT`
unfoldable pub recv_syn_sent : ℕ → Socket → Segment → Step
recv_syn_sent now sock seg =
    let sock1 = if seg.flags.ack then settle (calc_round_trip now sock) else sock in
    if seg.flags.ack && not (seg.ack == sock.snd_nxt)
    then (if seg.flags.rst then quiet sock else tcp_build_and_send_sequence now sock rst_flags)
    else sent_rst seg sock1 >> sent_syn now seg

-- The checks that begin every state from `TCS_SYN_RECEIVED` on, up to the one for an acknowledgement; `lost`
-- is what follows a close.
abbrev pub check_segment : ℕ → (Socket → Step) → Socket → Segment → (Socket → Step) → Step
check_segment now lost sock seg rest =
    if not (seg.sequence == sock.rcv_nxt) && not seg.flags.rst
    then tcp_build_and_send_sequence now sock ack_flags
    else if seg.flags.rst
    then close_socket sock >> lost
    else if seg.flags.syn
    then send_reset_close_socket now sock >> lost
    else if not seg.flags.ack
    then quiet sock
    else rest sock

abbrev pub received_fin : ℕ → Segment → Socket → Step
received_fin now seg sock =
    if seg.flags.fin
    then tcp_build_and_send_sequence now
        (record sock { rcv_nxt = (sock.rcv_nxt + 1) % 2 ^ 32; state = last_ack }) fin_ack_flags
      >> notify_close
    else quiet sock

abbrev pub received_ack : ℕ → Segment → Socket → Step
received_ack now seg sock =
    if not (seg.ack == sock.snd_nxt)
    then tcp_build_and_send_sequence now sock rst_flags
    else settle_and_send now (calc_round_trip now sock)
      >> (λ s.
          (record s { state = established; snd_una = (s.snd_una + 1) % 2 ^ 32 }, signalled ∷ []))
      >> received_fin now seg

-- `TCS_SYN_RECEIVED`
unfoldable pub recv_syn_received : ℕ → Socket → Segment → Step
recv_syn_received now sock seg = check_segment now notify_close sock seg (received_ack now seg)

-- The part of the later states that deals with an acknowledgement: of nothing sent, of what is acknowledged
-- already, or of more. `done` follows when it is of everything.
abbrev pub check_ack : ℕ → Segment → (Socket → Step) → (Socket → Step) → Socket → Step
check_ack now seg done rest sock =
    if ltb sock.snd_nxt seg.ack
    then tcp_build_and_send_sequence now sock ack_flags
    else (let sock1 = record (calc_round_trip now sock) { snd_una = seg.ack } in
        if not (leb sock.snd_una seg.ack)
        then quiet sock
        else if seg.ack == sock.snd_nxt
        then done sock1
        else quiet sock1)
      >> rest

abbrev pub notify_recv : List ℕ → Socket → Step
notify_recv octets sock = elim sock.client [
  | none ↦ (sock, [])
  | some tc ↦ (sock, recv tc octets ∷ [])
]

-- The data of a segment.
abbrev pub recv_data : ℕ → Segment → Socket → Step
recv_data now seg sock =
    if length seg.data_ == 0
    then quiet sock
    else tcp_build_and_send_sequence now
        (record sock { rcv_nxt = (sock.rcv_nxt + length seg.data_) % 2 ^ 32 }) ack_flags
      >> notify_recv seg.data_

abbrev pub established_fin : ℕ → Segment → Socket → Step
established_fin now seg sock =
    let sock1 = record sock { rcv_nxt = (sock.rcv_nxt + 1) % 2 ^ 32 } in
    if not seg.flags.fin
    then quiet sock
    else (if sock.retrans_timing
        then tcp_build_and_send_sequence now (record sock1 { state = close_wait }) ack_flags
        else tcp_build_and_send_sequence now (record sock1 { state = last_ack }) fin_ack_flags)
      >> signal
      >> notify_close

-- `TCS_ESTABLISHED`
unfoldable pub recv_established : ℕ → Socket → Segment → Step
recv_established now sock seg =
    check_segment now notify_close sock seg (
      check_ack now seg (settle_and_send now) (λ s. recv_data now seg s >> established_fin now seg))

-- `TCS_FIN_WAIT1` when everything sent is acknowledged.
abbrev pub wait1_sent : ℕ → Socket → Step
wait1_sent now sock = elim sock.awaiting_send [
  | nb ∷ rest ↦ tcp_send_netbuf_now now (record sock { awaiting_send = rest }) nb
  | [] ↦
      if sock.deferred_fin
      then tcp_send_close now (record sock { deferred_fin = false })
      else quiet (record sock { state = fin_wait2 })
]

abbrev pub wait1_done : ℕ → Socket → Step
wait1_done now sock =
    if sock.retrans_timing
    then wait1_sent now (stop_timing sock)
    else quiet (record sock { state = fin_wait2 })

-- The timer of `TCS_TIME_WAIT` is started.
abbrev pub start_time_wait : Socket → Socket
start_time_wait sock = record sock {
  state = time_wait;
  is_time_wait = true;
  wait_timer = some (60 * tick_rate);
}

abbrev pub is_fin_wait2 : State → Bool
is_fin_wait2 fin_wait2 = true
is_fin_wait2 _ = false

abbrev pub wait1_fin : ℕ → Segment → Socket → Step
wait1_fin now seg sock =
    let sock1 = record sock { rcv_nxt = (sock.rcv_nxt + 1) % 2 ^ 32 } in
    if not seg.flags.fin
    then quiet sock
    else tcp_build_and_send_sequence now
        (if is_fin_wait2 sock.state
          then start_time_wait sock1
          else record sock1 { state = closing })
        ack_flags

-- `TCS_FIN_WAIT1`
unfoldable pub recv_fin_wait1 : ℕ → Socket → Segment → Step
recv_fin_wait1 now sock seg =
    check_segment now quiet sock seg
      (check_ack now seg (wait1_done now) (λ s. recv_data now seg s >> wait1_fin now seg))

abbrev pub wait2_fin : ℕ → Segment → Socket → Step
wait2_fin now seg sock =
    if seg.flags.fin
    then tcp_build_and_send_sequence now
        (start_time_wait (record sock { rcv_nxt = (sock.rcv_nxt + 1) % 2 ^ 32 })) ack_flags
    else quiet sock

-- `TCS_FIN_WAIT2`
unfoldable pub recv_fin_wait2 : ℕ → Socket → Segment → Step
recv_fin_wait2 now sock seg =
    check_segment now quiet sock seg
      (check_ack now seg (settle_and_send now) (λ s. recv_data now seg s >> wait2_fin now seg))

abbrev pub close_wait_fin : ℕ → Segment → Socket → Step
close_wait_fin now seg sock =
    if seg.flags.fin then tcp_build_and_send_sequence now sock ack_flags else quiet sock

abbrev pub close_wait_data : ℕ → Segment → Socket → Step
close_wait_data now seg sock = recv_data now seg sock >> close_wait_fin now seg

-- `TCS_CLOSE_WAIT` when everything sent is acknowledged, which ends the step if the timer ran.
abbrev pub close_wait_sent : ℕ → Socket → Step
close_wait_sent now sock = elim sock.awaiting_send [
  | nb ∷ rest ↦ tcp_send_netbuf_now now (record sock { awaiting_send = rest }) nb
  | [] ↦ tcp_send_close now sock >> λ s. quiet (record s { state = last_ack })
]

abbrev pub close_wait_done : ℕ → Segment → Socket → Step
close_wait_done now seg sock =
    if sock.retrans_timing
    then close_wait_sent now (stop_timing sock)
    else close_wait_data now seg sock

abbrev pub close_wait_ack : ℕ → Segment → Socket → Step
close_wait_ack now seg sock =
    let sock1 = record (calc_round_trip now sock) { snd_una = seg.ack } in
    if ltb sock.snd_nxt seg.ack
    then tcp_build_and_send_sequence now sock ack_flags
    else if not (leb sock.snd_una seg.ack)
    then close_wait_data now seg sock
    else if seg.ack == sock.snd_nxt
    then close_wait_done now seg sock1
    else close_wait_data now seg sock1

-- `TCS_CLOSE_WAIT`
unfoldable pub recv_close_wait : ℕ → Socket → Segment → Step
recv_close_wait now sock seg = check_segment now quiet sock seg (close_wait_ack now seg)

-- `TCS_CLOSING`
unfoldable pub recv_closing : ℕ → Socket → Segment → Step
recv_closing now sock seg =
    check_segment now quiet sock seg
      (check_ack now seg (λ s. quiet (start_time_wait (settle s))) quiet)

-- `TCS_LAST_ACK`
unfoldable pub recv_last_ack : ℕ → Socket → Segment → Step
recv_last_ack now sock seg = check_segment now quiet sock seg (check_ack now seg close_socket quiet)

-- The `switch` of `tcp_recv_state_machine()`.
abbrev pub recv_in : State → ℕ → Socket → ℕ → Segment → Step
recv_in listen now sock src_addr seg = recv_listen now sock src_addr seg
recv_in syn_sent now sock src_addr seg = recv_syn_sent now sock seg
recv_in syn_received now sock src_addr seg = recv_syn_received now sock seg
recv_in established now sock src_addr seg = recv_established now sock seg
recv_in fin_wait1 now sock src_addr seg = recv_fin_wait1 now sock seg
recv_in fin_wait2 now sock src_addr seg = recv_fin_wait2 now sock seg
recv_in close_wait now sock src_addr seg = recv_close_wait now sock seg
recv_in closing now sock src_addr seg = recv_closing now sock seg
recv_in last_ack now sock src_addr seg = recv_last_ack now sock seg
recv_in time_wait now sock src_addr seg = quiet sock
recv_in closed now sock src_addr seg = quiet sock

-- `tcp_recv_state_machine()`
unfoldable pub tcp_recv_state_machine : ℕ → Socket → ℕ → Segment → Step
tcp_recv_state_machine now sock src_addr seg = recv_in sock.state now sock src_addr seg
