-- ===== src/Tcp/Send.antt =====
-- How src/lib/tcp/tcp.c sends: segments are built, the round trip is timed, and acknowledgements are deferred.
use liquorice.Base.{
  ℕ, ◌+◌, ◌-◌, ◌*◌, ◌/◌, ◌%◌, ◌^◌, Bool, true, false, not, ◌||◌, some, none, List, [], ◌∷◌, length,
  ltb, leb, ◌==◌, if◌then◌else◌,
}
use liquorice.Tcp.Socket.{Event, State, Flags, Segment, Built, Socket, Step, ◌>>◌, quiet, tick_rate}
use liquorice.Tcp.Socket.State.{established, closed}
use liquorice.Tcp.Socket.Event.{sent, detached, signalled}

abbrev pub is_established : State → Bool
is_established established = true
is_established _ = false

abbrev pub no_flags : Flags
no_flags = record { fin = false; syn = false; rst = false; psh = false; ack = false }

abbrev pub ack_flags : Flags
ack_flags = record no_flags { ack = true }

abbrev pub rst_flags : Flags
rst_flags = record no_flags { rst = true }

abbrev pub syn_flags : Flags
syn_flags = record no_flags { syn = true }

abbrev pub syn_ack_flags : Flags
syn_ack_flags = record no_flags { syn = true; ack = true }

abbrev pub fin_ack_flags : Flags
fin_ack_flags = record no_flags { fin = true; ack = true }

abbrev pub psh_ack_flags : Flags
psh_ack_flags = record no_flags { psh = true; ack = true }

-- `build_netbuf()` of a packet's data, less the MSS that it announces with a SYN.
abbrev pub build_netbuf : Socket → Flags → List ℕ → Built
build_netbuf sock flags octets = record { sequence = sock.snd_nxt; flags = flags; data_ = octets }

-- The header that `tcp_send_sequence()` completes.
abbrev pub complete_header : Socket → Built → Segment
complete_header sock nb = record {
  src_port = sock.local_port;
  dest_port = sock.remote_port;
  sequence = nb.sequence;
  ack = sock.rcv_nxt;
  flags = nb.flags;
  data_ = nb.data_;
}

-- `tcp_send_sequence()`, which hands the segment to IP with its destination.
abbrev pub tcp_send_sequence : Socket → Built → Event
tcp_send_sequence sock nb = sent sock.remote_addr (complete_header sock nb)

-- A segment that takes `n` sequence numbers is kept and timed. The assignment to `ts_send_flags` clears the others.
abbrev pub start_timing : ℕ → Socket → Built → ℕ → Socket
start_timing now sock nb n = record sock {
  snd_nxt = (sock.snd_nxt + n) % 2 ^ 32;
  awaiting_ack = nb;
  wait_timer = some sock.rto_next;
  retransmits = 0;
  send_jiffies = now;
  deferred_fin = false;
  retrans_timing = true;
  acked = false;
  is_deferred = false;
}

-- An acknowledgement that was deferred is dropped, since a segment goes out that has it.
abbrev pub drop_deferred : Socket → Socket
drop_deferred sock =
    if sock.is_deferred then record sock { is_deferred = false; deferred_timer = none } else sock

-- Everything that was sent is acknowledged: the timer is stopped.
abbrev pub stop_timing : Socket → Socket
stop_timing sock = record sock { retrans_timing = false; wait_timer = none }

-- `tcp_send_close()`
unfoldable pub tcp_send_close : ℕ → Socket → Step
tcp_send_close now sock =
    let sock1 = drop_deferred sock in
    let nb = build_netbuf sock1 fin_ack_flags [] in
    let sock2 = start_timing now sock1 nb 1 in (sock2, tcp_send_sequence sock2 nb ∷ [])

-- `tcp_send_netbuf_now()`, and the end of `tcp_send_netbuf()`.
unfoldable pub tcp_send_netbuf_now : ℕ → Socket → List ℕ → Step
tcp_send_netbuf_now now sock octets =
    let sock1 = drop_deferred sock in
    let nb = build_netbuf sock1 psh_ack_flags octets in
    let sock2 = start_timing now sock1 nb (length octets) in
    (sock2, tcp_send_sequence sock2 nb ∷ [])

-- The end of `tcp_build_and_send_sequence()`: the segment is sent, or deferred if it is an acknowledgement alone.
abbrev pub send_or_defer : Socket → Flags → Built → Step
send_or_defer sock flags nb =
    let more = (flags.fin || flags.syn) || (flags.rst || flags.psh) in
    if more || (sock.is_deferred || not (is_established sock.state))
    then (drop_deferred sock, tcp_send_sequence (drop_deferred sock) nb ∷ [])
    else quiet (record sock {
      is_deferred = true;
      deferred_ack = nb;
      deferred_timer = some (tick_rate / 5);
    })

-- `tcp_build_and_send_sequence()`
unfoldable pub tcp_build_and_send_sequence : ℕ → Socket → Flags → Step
tcp_build_and_send_sequence now sock flags =
    let nb = build_netbuf sock flags [] in
    let sock1 = if flags.syn || flags.fin then start_timing now sock nb 1 else sock in
    send_or_defer sock1 flags nb

-- The first part of `close_socket()` and `send_reset_close_socket()`.
abbrev pub drop_unsent : Socket → Socket
drop_unsent sock =
    if sock.retrans_timing then record (stop_timing sock) { awaiting_send = [] } else sock

-- `close_socket()`
unfoldable pub close_socket : Socket → Step
close_socket sock = (record (drop_unsent sock) { state = closed }, detached ∷ signalled ∷ [])

-- `send_reset_close_socket()`
unfoldable pub send_reset_close_socket : ℕ → Socket → Step
send_reset_close_socket now sock =
    tcp_build_and_send_sequence now (record (drop_unsent sock) { state = closed }) rst_flags
    >> λ sock1. (sock1, detached ∷ signalled ∷ [])

-- A word of 32 bits read as a signed number, without its sign.
abbrev pub magnitude : ℕ → ℕ
magnitude n = if leb (2 ^ 31) n then 2 ^ 32 - n else n

-- The estimate of `calc_round_trip()` from a round trip of some ticks. Words of 32 bits wrap.
abbrev pub estimate : Socket → ℕ → Socket
estimate sock ticks =
    if sock.srtt_avg == 0
    then (let var = ticks * 4 % 2 ^ 32 in
        let avg = var * 2 % 2 ^ 32 in
        record sock { srtt_var = var; srtt_avg = avg; rto_next = (avg / 8 + var) % 2 ^ 32 })
    else (let error = (ticks + 2 ^ 32 - sock.srtt_avg / 8) % 2 ^ 32 in
        let avg = (sock.srtt_avg + error) % 2 ^ 32 in
        let var = (sock.srtt_var + (magnitude error + 2 ^ 32 - sock.srtt_var / 4)) % 2 ^ 32 in
        record sock { srtt_var = var; srtt_avg = avg; rto_next = (avg / 8 + var) % 2 ^ 32 })

abbrev pub cap_rto : Socket → Socket
cap_rto sock = record sock {
  rto_next = if ltb (240 * tick_rate) sock.rto_next then 240 * tick_rate else sock.rto_next;
  acked = true;
}

-- `calc_round_trip()`. A shift by 32 or more is not defined in C; here it is by the count modulo 32, as on i386.
unfoldable pub calc_round_trip : ℕ → Socket → Socket
calc_round_trip now sock =
    let elapsed = (now + 2 ^ 32 - sock.send_jiffies) % 2 ^ 32 in
    let ticks = if elapsed == 0 then 1 else elapsed in
    if sock.acked
    then sock
    else cap_rto (
        if not (sock.retransmits == 0)
        then record sock { rto_next = sock.rto_next * 2 ^ (sock.retransmits % 32) % 2 ^ 32 }
        else estimate sock ticks)
