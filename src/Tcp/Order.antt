-- ===== src/Tcp/Order.antt =====
-- What src/lib/tcp/tcp.c gives its clients of the segments that arrive.
use liquorice.Base.{
  ℕ, ◌≡◌, refl, ap₂, sym, ◌∙◌, subst, not, ◌&&◌, Option, some, none, [], ◌++◌, append-nil, ◌==◌,
  ltb, leb, if◌then◌else◌, branch, length, ◌+◌, ◌%◌, ◌^◌, ◌⊎◌, inl, inr, Bool-cases, if_then, arith,
}
use liquorice.Tcp.Socket.{State, Segment, TcpClient, Socket, Step, ◌>>◌, quiet}
use liquorice.Tcp.Socket.State.{
  closed, listen, syn_sent, syn_received, established, fin_wait1, fin_wait2, close_wait, closing,
  last_ack, time_wait,
}
use liquorice.Tcp.Send.{
  ack_flags, tcp_build_and_send_sequence, stop_timing, close_socket, send_reset_close_socket,
  calc_round_trip,
}
use liquorice.Tcp.Machine.{
  notify_close, notify_recv, settle, settle_and_send, received_ack, recv_syn_received, recv_data,
  established_fin, recv_established, wait1_done, start_time_wait, wait1_fin, recv_fin_wait1,
  wait2_fin, recv_fin_wait2, close_wait_fin, close_wait_data, close_wait_sent, close_wait_done,
  close_wait_ack, recv_close_wait, recv_closing, recv_last_ack, recv_in, tcp_recv_state_machine,
  check_segment, check_ack,
}
use liquorice.Tcp.Silent.{
  given, given-append, IsSilent, Silences, quiet-IsSilent, then-IsSilent, build-IsSilent,
  close_socket-IsSilent, reset-IsSilent, notify_close-IsSilent, settle_and_send-IsSilent,
  established_fin-IsSilent, wait1_fin-IsSilent, wait2_fin-IsSilent, close_wait_fin-IsSilent,
  wait1_done-IsSilent, close_wait_from-IsSilent, received_ack-IsSilent, recv_listen-IsSilent,
  recv_syn_sent-IsSilent,
}

-- A step that gives its client nothing, or the data of a segment that is the next in order.
Orders : Socket → Segment → Step → Type 0
Orders sock seg step = IsSilent step ⊎ ((seg.sequence ≡ sock.rcv_nxt) × (given step.1 ≡ seg.data_))

silent-Orders : (sock : Socket) (seg : Segment) (step : Step) → IsSilent step → Orders sock seg step
unfolding Orders
silent-Orders sock seg step s = inl s

-- Silent parts before and behind change nothing.
then-Orders :
    (sock : Socket) (seg : Segment) (step : Step) (f : Socket → Step)
    → Orders sock seg step
    → Silences f
    → Orders sock seg (step >> f)
unfolding Orders IsSilent
then-Orders sock seg step f (inl s) t = inl (then-IsSilent step f s t)
then-Orders sock seg step f (inr (e, d)) t =
    inr (
      e,
      given-append step.1 (f step.0).1 ∙ ap₂ (λ x y. x ++ y) d (t step.0) ∙ append-nil seg.data_,
    )

before-Orders :
    (sock : Socket) (seg : Segment) (step : Step) (f : Socket → Step)
    → IsSilent step
    → Orders sock seg (f step.0)
    → Orders sock seg (step >> f)
unfolding Orders IsSilent
before-Orders sock seg step f s (inl t) =
    inl (given-append step.1 (f step.0).1 ∙ ap₂ (λ x y. x ++ y) s t)
before-Orders sock seg step f s (inr (e, d)) =
    inr (e, given-append step.1 (f step.0).1 ∙ ap₂ (λ x y. x ++ y) s d)

notify_from-Orders :
    (sock sock1 : Socket) (seg : Segment) (tc : Option TcpClient)
    → sock1.client ≡ tc
    → seg.sequence ≡ sock.rcv_nxt
    → Orders sock seg (notify_recv seg.data_ sock1)
unfolding Orders given
notify_from-Orders sock sock1 seg none c e = rw c (inl (quiet-IsSilent _))
notify_from-Orders sock sock1 seg (some tc) c e = rw c (inr (e, append-nil seg.data_))

recv_data-Orders :
    (now : ℕ) (sock sock1 : Socket) (seg : Segment)
    → seg.sequence ≡ sock.rcv_nxt
    → Orders sock seg (recv_data now seg sock1)
recv_data-Orders now sock sock1 seg e =
    let sock2 = record sock1 { rcv_nxt = (sock1.rcv_nxt + length seg.data_) % 2 ^ 32 } in
    let sent_ = tcp_build_and_send_sequence now sock2 ack_flags in
    branch (Orders sock seg) (length seg.data_ == 0) (quiet sock1) (sent_ >> notify_recv seg.data_)
      (silent-Orders sock seg (quiet sock1) (quiet-IsSilent sock1))
      (before-Orders sock seg sent_ (notify_recv seg.data_) (build-IsSilent now ack_flags sock2)
        (notify_from-Orders sock sent_.0 seg sent_.0.client refl e))

check_segment-Orders :
    (now : ℕ) (lost : Socket → Step) (sock : Socket) (seg : Segment) (rest : Socket → Step)
    → Silences lost
    → (seg.sequence ≡ sock.rcv_nxt → Orders sock seg (rest sock))
    → Orders sock seg (check_segment now lost sock seg rest)
check_segment-Orders now lost sock seg rest l r =
    let P = Orders sock seg in
    let acks = tcp_build_and_send_sequence now sock ack_flags in
    let closes = close_socket sock >> lost in
    let resets = send_reset_close_socket now sock >> lost in
    let on_ack = silent-Orders sock seg acks (build-IsSilent now ack_flags sock) in
    let on_close =
      silent-Orders sock seg closes
        (then-IsSilent (close_socket sock) lost (close_socket-IsSilent sock) l) in
    let on_reset =
      silent-Orders sock seg resets
        (then-IsSilent (send_reset_close_socket now sock) lost (reset-IsSilent now sock) l) in
    let on_quiet = silent-Orders sock seg (quiet sock) (quiet-IsSilent sock) in
    let same = seg.sequence == sock.rcv_nxt in
    let later : Step =
      if seg.flags.syn then resets else if not seg.flags.ack then quiet sock else rest sock in
    elim (Bool-cases same) [
      | inl e ↦
          let e' : seg.sequence ≡ sock.rcv_nxt = ground arith in
          branch P (not same && not seg.flags.rst) acks _ on_ack (
            branch P seg.flags.rst closes later on_close (
              branch P seg.flags.syn resets _ on_reset
                (branch P (not seg.flags.ack) (quiet sock) (rest sock) on_quiet (r e'))))
      | inr e ↦ elim (Bool-cases seg.flags.rst) [
        | inl t ↦
            branch P (not same && not seg.flags.rst) acks _ on_ack
              (subst P (sym (if_then seg.flags.rst closes later t)) on_close)
        | inr t ↦
            subst P
              (sym
                (if_then (not same && not seg.flags.rst) acks _ (ap₂ (λ x y. not x && not y) e t)))
              on_ack
      ]
    ]

check_ack-Orders :
    (now : ℕ) (seg : Segment) (done rest : Socket → Step) (sock : Socket)
    → Silences done
    → ((s : Socket) → Orders sock seg (rest s))
    → Orders sock seg (check_ack now seg done rest sock)
check_ack-Orders now seg done rest sock d r =
    let P = Orders sock seg in
    let sock1 = record (calc_round_trip now sock) { snd_una = seg.ack } in
    let acked : Step = if seg.ack == sock.snd_nxt then done sock1 else quiet sock1 in
    let middle : Step = if not (leb sock.snd_una seg.ack) then quiet sock else acked in
    let silent_ : IsSilent middle =
      branch IsSilent (not (leb sock.snd_una seg.ack)) (quiet sock) acked (quiet-IsSilent sock) (
        branch IsSilent (seg.ack == sock.snd_nxt) (done sock1) (quiet sock1) (d sock1)
          (quiet-IsSilent sock1)) in
    branch P (ltb sock.snd_nxt seg.ack) (tcp_build_and_send_sequence now sock ack_flags)
      (middle >> rest) (silent-Orders sock seg _ (build-IsSilent now ack_flags sock))
      (before-Orders sock seg middle rest silent_ (r middle.0))

-- The data of a segment and what is silent behind it.
data-Orders :
    (now : ℕ) (sock : Socket) (seg : Segment) (fin : Socket → Step)
    → Silences fin
    → seg.sequence ≡ sock.rcv_nxt
    → (s : Socket) → Orders sock seg (recv_data now seg s >> fin)
data-Orders now sock seg fin f e s =
    then-Orders sock seg (recv_data now seg s) fin (recv_data-Orders now sock s seg e) f

close_wait_ack-Orders :
    (now : ℕ) (sock : Socket) (seg : Segment)
    → seg.sequence ≡ sock.rcv_nxt
    → Orders sock seg (close_wait_ack now seg sock)
close_wait_ack-Orders now sock seg e =
    let P = Orders sock seg in
    let sock1 = record (calc_round_trip now sock) { snd_una = seg.ack } in
    let data_ =
      data-Orders now sock seg (close_wait_fin now seg) (close_wait_fin-IsSilent now seg) e in
    let sends = close_wait_sent now (stop_timing sock1) in
    branch P (ltb sock.snd_nxt seg.ack) (tcp_build_and_send_sequence now sock ack_flags) _
      (silent-Orders sock seg _ (build-IsSilent now ack_flags sock))
      (branch P (not (leb sock.snd_una seg.ack)) (close_wait_data now seg sock) _ (data_ sock) (
        branch P (seg.ack == sock.snd_nxt) (close_wait_done now seg sock1)
          (close_wait_data now seg sock1)
          (branch P sock1.retrans_timing sends (close_wait_data now seg sock1)
            (silent-Orders sock seg sends
              (close_wait_from-IsSilent now seg (stop_timing sock1) sock1.awaiting_send refl))
            (data_ sock1))
          (data_ sock1)))

recv_in-Orders :
    (st : State) (now : ℕ) (sock : Socket) (src_addr : ℕ) (seg : Segment)
    → Orders sock seg (recv_in st now sock src_addr seg)
unfolding recv_syn_received recv_established recv_fin_wait1 recv_fin_wait2 recv_close_wait
    recv_closing recv_last_ack
recv_in-Orders listen now sock src_addr seg =
    silent-Orders sock seg _ (recv_listen-IsSilent now seg src_addr sock)
recv_in-Orders syn_sent now sock src_addr seg =
    silent-Orders sock seg _ (recv_syn_sent-IsSilent now seg sock)
recv_in-Orders syn_received now sock src_addr seg =
    check_segment-Orders now notify_close sock seg (received_ack now seg) notify_close-IsSilent
      (λ e. silent-Orders sock seg _ (received_ack-IsSilent now seg sock))
recv_in-Orders established now sock src_addr seg =
    let rest : Socket → Step = λ s. recv_data now seg s >> established_fin now seg in
    check_segment-Orders now notify_close sock seg (check_ack now seg (settle_and_send now) rest)
      notify_close-IsSilent
      (λ e.
        check_ack-Orders now seg (settle_and_send now) rest sock (settle_and_send-IsSilent now)
          (data-Orders now sock seg (established_fin now seg) (established_fin-IsSilent now seg) e))
recv_in-Orders fin_wait1 now sock src_addr seg =
    let rest : Socket → Step = λ s. recv_data now seg s >> wait1_fin now seg in
    check_segment-Orders now quiet sock seg (check_ack now seg (wait1_done now) rest) quiet-IsSilent
      (λ e.
        check_ack-Orders now seg (wait1_done now) rest sock (wait1_done-IsSilent now seg)
          (data-Orders now sock seg (wait1_fin now seg) (wait1_fin-IsSilent now seg) e))
recv_in-Orders fin_wait2 now sock src_addr seg =
    let rest : Socket → Step = λ s. recv_data now seg s >> wait2_fin now seg in
    check_segment-Orders now quiet sock seg (check_ack now seg (settle_and_send now) rest)
      quiet-IsSilent
      (λ e.
        check_ack-Orders now seg (settle_and_send now) rest sock (settle_and_send-IsSilent now)
          (data-Orders now sock seg (wait2_fin now seg) (wait2_fin-IsSilent now seg) e))
recv_in-Orders close_wait now sock src_addr seg =
    check_segment-Orders now quiet sock seg (close_wait_ack now seg) quiet-IsSilent
      (close_wait_ack-Orders now sock seg)
recv_in-Orders closing now sock src_addr seg =
    let done : Socket → Step = λ s. quiet (start_time_wait (settle s)) in
    check_segment-Orders now quiet sock seg (check_ack now seg done quiet) quiet-IsSilent (λ e.
      check_ack-Orders now seg done quiet sock (λ s. quiet-IsSilent _)
        (λ s. silent-Orders sock seg (quiet s) (quiet-IsSilent s)))
recv_in-Orders last_ack now sock src_addr seg =
    check_segment-Orders now quiet sock seg (check_ack now seg close_socket quiet) quiet-IsSilent
      (λ e.
        check_ack-Orders now seg close_socket quiet sock close_socket-IsSilent
          (λ s. silent-Orders sock seg (quiet s) (quiet-IsSilent s)))
recv_in-Orders time_wait now sock src_addr seg = silent-Orders sock seg _ (quiet-IsSilent sock)
recv_in-Orders closed now sock src_addr seg = silent-Orders sock seg _ (quiet-IsSilent sock)

-- Whatever segment arrives in whatever state, the client is given nothing, or it is given the segment's data, once and
-- whole, and the segment is the one that the socket expects next.
pub tcp_recv_state_machine-given :
    (now : ℕ) (sock : Socket) (src_addr : ℕ) (seg : Segment)
    → let events = (tcp_recv_state_machine now sock src_addr seg).1 in
      (given events ≡ []) ⊎ ((seg.sequence ≡ sock.rcv_nxt) × (given events ≡ seg.data_))
unfolding tcp_recv_state_machine Orders IsSilent
tcp_recv_state_machine-given now sock src_addr seg = recv_in-Orders sock.state now sock src_addr seg
