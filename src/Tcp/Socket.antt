-- ===== src/Tcp/Socket.antt =====
-- The data of src/lib/tcp/tcp.c: sockets, segments, and what a step of a socket does.
use liquorice.Base.{ℕ, ◌*◌, Bool, false, Option, none, List, [], ◌++◌}

-- `ts_state`
pub data State : Type 0 where
  closed listen syn_sent syn_received established fin_wait1 fin_wait2 close_wait closing : State
  last_ack time_wait : State

-- `th_ctrl_flags`, less the flag of urgent data.
pub record Flags : Type 0 where
  pub fin : Bool
  pub syn : Bool
  pub rst : Bool
  pub psh : Bool
  pub ack : Bool

-- The fields of `struct tcp_header` that the code reads, with the data behind it.
pub record Segment : Type 0 where
  pub src_port : ℕ
  pub dest_port : ℕ
  pub sequence : ℕ
  pub ack : ℕ
  pub flags : Flags
  pub data_ : List ℕ

-- A `struct netbuf` with the header of `build_netbuf()`. The acknowledgement is written when it is sent.
pub record Built : Type 0 where
  pub sequence : ℕ
  pub flags : Flags
  pub data_ : List ℕ

-- The socket of a connection that waits for `tcp_accept()`, as far as it differs from a new one.
pub record Pending : Type 0 where
  pub remote_port : ℕ
  pub remote_addr : ℕ
  pub snd_nxt : ℕ
  pub snd_una : ℕ
  pub rcv_nxt : ℕ

-- `struct tcp_client`, with whether it has `tc_close`.
pub record TcpClient : Type 0 where
  pub server : ℕ
  pub has_close : Bool

-- `struct tcp_socket`. A timer is the ticks that it has left, while it is attached. The bits of
-- `ts_send_flags` are `deferred_fin`, `retrans_timing`, `acked` and `is_deferred`.
pub record Socket : Type 0 where
  pub state : State
  pub local_port : ℕ
  pub remote_port : ℕ
  pub remote_addr : ℕ
  pub snd_nxt : ℕ
  pub snd_una : ℕ
  pub rcv_nxt : ℕ
  pub remote_mss : ℕ
  pub send_jiffies : ℕ
  pub awaiting_send : List (List ℕ)
  pub awaiting_ack : Built
  pub wait_timer : Option ℕ
  pub is_time_wait : Bool
  pub retransmits : ℕ
  pub deferred_ack : Built
  pub deferred_timer : Option ℕ
  pub deferred_fin : Bool
  pub retrans_timing : Bool
  pub acked : Bool
  pub is_deferred : Bool
  pub rto_next : ℕ
  pub srtt_avg : ℕ
  pub srtt_var : ℕ
  pub awaiting_accept : Option Pending
  pub client : Option TcpClient

-- What a step of a socket does besides: a segment that is sent to an address, the callbacks of the client, the socket's removal
-- from the list of sockets, and the signal to who waits for it.
pub data Event : Type 0 where
  sent : ℕ → Segment → Event
  connect : TcpClient → Event
  recv : TcpClient → List ℕ → Event
  close : TcpClient → Event
  detached signalled : Event

abbrev pub Step : Type 0
Step = Socket × List Event

abbrev pub quiet : Socket → Step
quiet sock = (sock, [])

-- One part of a handler behind another.
infixl 4 ◌>>◌
abbrev pub ◌>>◌ : Step → (Socket → Step) → Step
(sock, events) >> f = ((f sock).0, events ++ (f sock).1)

abbrev pub tick_rate : ℕ
tick_rate = 100

-- `tcp_socket_alloc()`; `mem` is what the memory of the socket held, and the fields that are not set keep.
unfoldable pub tcp_socket_alloc : Socket → Socket
tcp_socket_alloc mem = record mem {
  snd_nxt = 0x00a8393a;
  snd_una = 0x00a8393a;
  state = closed;
  awaiting_send = [];
  awaiting_accept = none;
  rto_next = 3 * tick_rate;
  srtt_avg = 0;
  srtt_var = 3 * tick_rate;
  remote_mss = 536;
  deferred_fin = false;
  retrans_timing = false;
  acked = false;
  is_deferred = false;
  deferred_timer = none;
  wait_timer = none;
  is_time_wait = false;
  client = none;
}
