-- ===== src/Tcp/Calls.antt =====
-- The calls and the timers of src/lib/tcp/tcp.c, as steps of one socket. A call's tests of the server structure, and
-- the list of sockets, are in Tcp/Sockets.antt. References of a socket or packet are not counted: a timer's
-- callback finds that the socket is still in use.
use liquorice.Base.{
  ℕ, ◌+◌, ◌*◌, ◌%◌, ◌^◌, Bool, true, false, not, Option, some, none, List, [], ◌∷◌, ◌++◌, ltb,
  if◌then◌else◌,
}
use liquorice.Tcp.Socket.{
  State, Pending, TcpClient, Socket, Event, Step, quiet, tick_rate, tcp_socket_alloc,
}
use liquorice.Tcp.Socket.State.{closed, listen, syn_sent, syn_received, established, fin_wait1}
use liquorice.Tcp.Socket.Event.{detached}
use liquorice.Tcp.Send.{
  rst_flags, syn_flags, syn_ack_flags, tcp_send_sequence, tcp_send_close, tcp_send_netbuf_now,
  tcp_build_and_send_sequence, drop_deferred, is_established,
}

-- The socket of `tcp_listen()`.
unfoldable pub tcp_listen : Socket → ℕ → TcpClient → Socket
unfolding tcp_socket_alloc
tcp_listen mem port tc = record (tcp_socket_alloc mem) {
  state = listen;
  local_port = port;
  client = some tc;
}

-- `tcp_connect()` up to its wait, with the local port that it chose.
unfoldable pub tcp_connect : Socket → ℕ → ℕ → ℕ → ℕ → TcpClient → Step
tcp_connect mem now local_port addr port tc =
    tcp_build_and_send_sequence now
      (record (tcp_socket_alloc mem) {
        local_port = local_port;
        remote_port = port;
        remote_addr = addr;
        state = syn_sent;
        client = some tc;
      })
      syn_flags

-- The socket of a connection that waits, `consock` of `tcp_recv_state_machine()`.
abbrev pub waiting_socket : Socket → Socket → Pending → Socket
waiting_socket mem listener p = record (tcp_socket_alloc mem) {
  local_port = listener.local_port;
  remote_port = p.remote_port;
  remote_addr = p.remote_addr;
  snd_nxt = p.snd_nxt;
  snd_una = p.snd_una;
  rcv_nxt = p.rcv_nxt;
}

-- `tcp_accept()` of a socket that listens: the socket, and the new one if a connection waits. Without one the debug
-- build stops.
unfoldable pub tcp_accept : Socket → ℕ → Socket → TcpClient → Socket × Option Step
tcp_accept mem now listener tc = elim listener.awaiting_accept [
  | none ↦ (listener, none)
  | some p ↦ (
    record listener { awaiting_accept = none },
    some (
        tcp_build_and_send_sequence now
          (record (waiting_socket mem listener p) { state = syn_received; client = some tc })
          syn_ack_flags),
  )
]

-- `tcp_reject()` of a socket that listens.
unfoldable pub tcp_reject : Socket → ℕ → Socket → Socket × List Event
tcp_reject mem now listener = elim listener.awaiting_accept [
  | none ↦ (listener, [])
  | some p ↦ (
    record listener { awaiting_accept = none },
    (tcp_build_and_send_sequence now (waiting_socket mem listener p) rst_flags).1,
  )
]

-- `client_close_socket()`
abbrev pub client_close : State → ℕ → Socket → Step
client_close listen now sock = (sock, detached ∷ [])
client_close established now sock =
    if not sock.retrans_timing
    then tcp_send_close now (record sock { state = fin_wait1 })
    else quiet (record sock { state = fin_wait1; deferred_fin = true })
client_close _ now sock = quiet sock

-- `tcp_close()`
unfoldable pub tcp_close : ℕ → Socket → Step
tcp_close now sock =
    let (sock1, events) = client_close sock.state now sock in
    (record sock1 { client = none }, events)

-- `tcp_send_netbuf()`
unfoldable pub tcp_send_netbuf : ℕ → Socket → List ℕ → Step
tcp_send_netbuf now sock octets =
    if not (is_established sock.state)
    then quiet sock
    else if sock.retrans_timing
    then quiet (record sock { awaiting_send = sock.awaiting_send ++ octets ∷ [] })
    else tcp_send_netbuf_now now sock octets

-- `tcp_tick_deferred_ack()`
unfoldable pub tcp_tick_deferred_ack : Socket → Step
tcp_tick_deferred_ack sock =
    if sock.is_deferred
    then (
      record sock { is_deferred = false; deferred_timer = none },
      tcp_send_sequence sock sock.deferred_ack ∷ [],
    )
    else quiet sock

-- The time of `tcp_tick_retransmit()` to its next call.
abbrev pub backoff : Socket → ℕ
backoff sock =
    let ticks = sock.rto_next * 2 ^ (sock.retransmits % 32) % 2 ^ 32 in
    if ltb (240 * tick_rate) ticks then 240 * tick_rate else ticks

-- `tcp_tick_retransmit()`; `is_idle` is whether the last transmission has left the packet's only reference here.
unfoldable pub tcp_tick_retransmit : Bool → Socket → Step
tcp_tick_retransmit is_idle sock =
    let sock1 = record sock { wait_timer = some (backoff sock) } in
    let sock2 = record (drop_deferred sock1) { retransmits = (sock.retransmits + 1) % 2 ^ 16 } in
    if not sock.retrans_timing
    then quiet sock
    else if is_idle
    then (sock2, tcp_send_sequence sock2 sock.awaiting_ack ∷ [])
    else quiet sock1

-- `tcp_tick_time_wait()`
unfoldable pub tcp_tick_time_wait : Socket → Step
tcp_tick_time_wait sock = (record sock { state = closed; wait_timer = none }, detached ∷ [])
