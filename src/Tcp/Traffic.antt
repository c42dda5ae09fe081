-- ===== src/Tcp/Traffic.antt =====
-- What the segments that arrive do to the list of sockets of src/lib/tcp/tcp.c.
use liquorice.Base.{
  ℕ, ◌≡◌, refl, ap, sym, ◌∙◌, true, false, ◌==◌, arith, branch, Bool-cases, ◌⊎◌, inl, inr,
}
use liquorice.Tcp.Socket.{State, Segment, Socket, Step, ◌>>◌, quiet}
use liquorice.Tcp.Socket.State.{
  closed, listen, syn_sent, syn_received, established, fin_wait1, fin_wait2, close_wait, closing,
  last_ack, time_wait,
}
use liquorice.Tcp.Send.{tcp_build_and_send_sequence, rst_flags, close_socket}
use liquorice.Tcp.Machine.{
  recv_in, recv_listen, recv_connect, recv_syn_received, recv_established, recv_fin_wait1,
  recv_fin_wait2, recv_close_wait, recv_closing, recv_last_ack, tcp_recv_state_machine,
  notify_close, received_ack, settle_and_send, recv_data, established_fin, wait1_done, wait1_fin,
  wait2_fin, start_time_wait, settle,
}
use liquorice.Tcp.Diagram.{code, is_in, has_arrow, may_follow, tcp_recv_state_machine-may_follow}
use liquorice.Tcp.Binding.{
  binding, IsBound, Binds, quiet-IsBound, notify_close-IsBound, build-IsBound, close_socket-IsBound,
  settle_and_send-IsBound, settle-binding,
}
use liquorice.Tcp.Bound.{
  check_segment-IsBound, check_ack-IsBound, data_then-IsBound, established_fin-IsBound,
  wait1_fin-IsBound, wait2_fin-IsBound, received_ack-IsBound, wait1_done-IsBound,
  close_wait_ack-IsBound, recv_syn_sent-IsBound,
}
use liquorice.Tcp.Sockets.{is_listen}

is_listen-code : (a : State) → is_listen a ≡ (code a == 1)
is_listen-code closed = refl
is_listen-code listen = refl
is_listen-code syn_sent = refl
is_listen-code syn_received = refl
is_listen-code established = refl
is_listen-code fin_wait1 = refl
is_listen-code fin_wait2 = refl
is_listen-code close_wait = refl
is_listen-code closing = refl
is_listen-code last_ack = refl
is_listen-code time_wait = refl

no_arrow_from : (b : State) → has_arrow listen b ≡ false
no_arrow_from b = refl

no_arrow_to : (a : State) → has_arrow a listen ≡ false
no_arrow_to closed = refl
no_arrow_to listen = refl
no_arrow_to syn_sent = refl
no_arrow_to syn_received = refl
no_arrow_to established = refl
no_arrow_to fin_wait1 = refl
no_arrow_to fin_wait2 = refl
no_arrow_to close_wait = refl
no_arrow_to closing = refl
no_arrow_to last_ack = refl
no_arrow_to time_wait = refl

from_other : (a b : State) → is_listen a ≡ false → may_follow a b ≡ true → is_listen b ≡ is_listen a
unfolding may_follow is_in
from_other a listen n e = ground (arith, is_listen-code a, no_arrow_to a)
from_other a closed n e = sym n
from_other a syn_sent n e = sym n
from_other a syn_received n e = sym n
from_other a established n e = sym n
from_other a fin_wait1 n e = sym n
from_other a fin_wait2 n e = sym n
from_other a close_wait n e = sym n
from_other a closing n e = sym n
from_other a last_ack n e = sym n
from_other a time_wait n e = sym n

-- The diagram leads neither to LISTEN nor from it.
may_follow-is_listen : (a b : State) → may_follow a b ≡ true → is_listen b ≡ is_listen a
unfolding may_follow is_in
may_follow-is_listen listen b e = is_listen-code b ∙ ground (arith, no_arrow_from b)
may_follow-is_listen closed b e = from_other closed b refl e
may_follow-is_listen syn_sent b e = from_other syn_sent b refl e
may_follow-is_listen syn_received b e = from_other syn_received b refl e
may_follow-is_listen established b e = from_other established b refl e
may_follow-is_listen fin_wait1 b e = from_other fin_wait1 b refl e
may_follow-is_listen fin_wait2 b e = from_other fin_wait2 b refl e
may_follow-is_listen close_wait b e = from_other close_wait b refl e
may_follow-is_listen closing b e = from_other closing b refl e
may_follow-is_listen last_ack b e = from_other last_ack b refl e
may_follow-is_listen time_wait b e = from_other time_wait b refl e

recv_in-IsBound :
    (st : State) (now src_addr : ℕ) (seg : Segment)
    → is_listen st ≡ false
    → Binds (λ sock. recv_in st now sock src_addr seg)
unfolding recv_syn_received recv_established recv_fin_wait1 recv_fin_wait2 recv_close_wait
    recv_closing recv_last_ack
recv_in-IsBound listen now src_addr seg n k sock e = absurd (cc)
recv_in-IsBound syn_sent now src_addr seg n k sock e = recv_syn_sent-IsBound now seg k sock e
recv_in-IsBound syn_received now src_addr seg n k sock e =
    check_segment-IsBound now seg notify_close (received_ack now seg) notify_close-IsBound
      (received_ack-IsBound now seg) k sock e
recv_in-IsBound established now src_addr seg n k sock e =
    check_segment-IsBound now seg notify_close _ notify_close-IsBound
      (check_ack-IsBound now seg (settle_and_send now)
        (λ s. recv_data now seg s >> established_fin now seg) (settle_and_send-IsBound now)
        (data_then-IsBound now seg (established_fin now seg) (established_fin-IsBound now seg)))
      k sock e
recv_in-IsBound fin_wait1 now src_addr seg n k sock e =
    check_segment-IsBound now seg quiet _ quiet-IsBound
      (check_ack-IsBound now seg (wait1_done now) (λ s. recv_data now seg s >> wait1_fin now seg)
        (wait1_done-IsBound now seg)
        (data_then-IsBound now seg (wait1_fin now seg) (wait1_fin-IsBound now seg)))
      k sock e
recv_in-IsBound fin_wait2 now src_addr seg n k sock e =
    check_segment-IsBound now seg quiet _ quiet-IsBound
      (check_ack-IsBound now seg (settle_and_send now)
        (λ s. recv_data now seg s >> wait2_fin now seg) (settle_and_send-IsBound now)
        (data_then-IsBound now seg (wait2_fin now seg) (wait2_fin-IsBound now seg)))
      k sock e
recv_in-IsBound close_wait now src_addr seg n k sock e =
    check_segment-IsBound now seg quiet _ quiet-IsBound (close_wait_ack-IsBound now seg) k sock e
recv_in-IsBound closing now src_addr seg n k sock e =
    check_segment-IsBound now seg quiet _ quiet-IsBound
      (check_ack-IsBound now seg (λ s. quiet (start_time_wait (settle s))) quiet
        (λ k1 s e1. quiet-IsBound k1 (start_time_wait (settle s)) (settle-binding s ∙ e1))
        quiet-IsBound)
      k sock e
recv_in-IsBound last_ack now src_addr seg n k sock e =
    check_segment-IsBound now seg quiet _ quiet-IsBound
      (check_ack-IsBound now seg close_socket quiet close_socket-IsBound quiet-IsBound) k sock e
recv_in-IsBound time_wait now src_addr seg n k sock e = quiet-IsBound k sock e
recv_in-IsBound closed now src_addr seg n k sock e = quiet-IsBound k sock e

KeepsPort : Socket → Step → Type 0
KeepsPort sock step = step.0.local_port ≡ sock.local_port

reset-KeepsPort :
    (now : ℕ) (sock : Socket) → KeepsPort sock (tcp_build_and_send_sequence now sock rst_flags)
unfolding KeepsPort IsBound
reset-KeepsPort now sock =
    ap (λ (k : ℕ × ℕ × ℕ). k.0) (build-IsBound now rst_flags (binding sock) sock refl)

recv_connect-KeepsPort :
    (src_addr : ℕ) (seg : Segment) (sock : Socket) → KeepsPort sock (recv_connect sock src_addr seg)
unfolding KeepsPort
recv_connect-KeepsPort src_addr seg sock = ground arith

recv_listen-KeepsPort :
    (now src_addr : ℕ) (seg : Segment) (sock : Socket)
    → KeepsPort sock (recv_listen now sock src_addr seg)
unfolding KeepsPort recv_listen
recv_listen-KeepsPort now src_addr seg sock =
    let named = record sock {
      remote_port = seg.src_port;
      remote_addr = src_addr;
      snd_nxt = seg.ack;
    } in
    branch (KeepsPort sock) seg.flags.rst (quiet sock) _ refl (
      branch (KeepsPort sock) seg.flags.ack (tcp_build_and_send_sequence now named rst_flags) _
        (reset-KeepsPort now named)
        (branch (KeepsPort sock) seg.flags.syn (recv_connect sock src_addr seg) (quiet sock)
          (recv_connect-KeepsPort src_addr seg sock) refl))

listen_port :
    (st : State) (now src_addr : ℕ) (seg : Segment) (sock : Socket)
    → is_listen st ≡ true
    → KeepsPort sock (recv_in st now sock src_addr seg)
listen_port listen now src_addr seg sock y = recv_listen-KeepsPort now src_addr seg sock
listen_port closed now src_addr seg sock y = absurd (cc)
listen_port syn_sent now src_addr seg sock y = absurd (cc)
listen_port syn_received now src_addr seg sock y = absurd (cc)
listen_port established now src_addr seg sock y = absurd (cc)
listen_port fin_wait1 now src_addr seg sock y = absurd (cc)
listen_port fin_wait2 now src_addr seg sock y = absurd (cc)
listen_port close_wait now src_addr seg sock y = absurd (cc)
listen_port closing now src_addr seg sock y = absurd (cc)
listen_port last_ack now src_addr seg sock y = absurd (cc)
listen_port time_wait now src_addr seg sock y = absurd (cc)

-- What the search for a clash reads of a socket is the same of two.
abbrev pub IsAlike : Socket → Socket → Type 0
IsAlike a b =
    ((a.local_port ≡ b.local_port) × (is_listen a.state ≡ is_listen b.state))
    × ((is_listen b.state ≡ true) ⊎ (binding a ≡ binding b))

from_state-IsAlike :
    (st : State) (now src_addr : ℕ) (seg : Segment) (sock : Socket)
    → is_listen (recv_in st now sock src_addr seg).0.state ≡ is_listen sock.state
    → sock.state ≡ st
    → IsAlike (recv_in st now sock src_addr seg).0 sock
unfolding IsBound KeepsPort
from_state-IsAlike st now src_addr seg sock l e = elim (Bool-cases (is_listen st)) [
  | inl y ↦ ((listen_port st now src_addr seg sock y, l), inl (ap is_listen e ∙ y))
  | inr n ↦
      let b = recv_in-IsBound st now src_addr seg n (binding sock) sock refl in
      ((ap (λ (k : ℕ × ℕ × ℕ). k.0) b, l), inr b)
]

pub tcp_recv_state_machine-IsAlike :
    (now src_addr : ℕ) (seg : Segment) (sock : Socket)
    → IsAlike (tcp_recv_state_machine now sock src_addr seg).0 sock
unfolding tcp_recv_state_machine
tcp_recv_state_machine-IsAlike now src_addr seg sock =
    from_state-IsAlike sock.state now src_addr seg sock
      (may_follow-is_listen sock.state _ (tcp_recv_state_machine-may_follow now sock src_addr seg))
      refl
