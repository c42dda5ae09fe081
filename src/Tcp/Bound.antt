-- ===== src/Tcp/Bound.antt =====
-- The states of src/lib/tcp/tcp.c in which a socket keeps its ports and addresses.
use liquorice.Base.{
  ℕ, ◌≡◌, refl, ◌∙◌, false, not, ◌&&◌, List, [], ◌∷◌, ◌==◌, ltb, leb, if◌then◌else◌, branch, length,
  ◌+◌, ◌%◌, ◌^◌,
}
use liquorice.Tcp.Socket.{Segment, Socket, Step, ◌>>◌, quiet}
use liquorice.Tcp.Socket.State.{
  closed, established, close_wait, closing, last_ack, syn_received, fin_wait2,
}
use liquorice.Tcp.Socket.Event.{detached, signalled}
use liquorice.Tcp.Send.{
  ack_flags, rst_flags, syn_ack_flags, fin_ack_flags, tcp_build_and_send_sequence, tcp_send_close,
  stop_timing, close_socket, send_reset_close_socket, calc_round_trip,
}
use liquorice.Tcp.Machine.{
  notify_close, notify_recv, settle, settle_and_send, sent_rst, sent_syn, recv_syn_sent,
  received_fin, received_ack, recv_data, established_fin, wait1_sent, wait1_done, wait1_fin,
  start_time_wait, is_fin_wait2, wait2_fin, close_wait_fin, close_wait_data, close_wait_sent,
  close_wait_ack, signal, check_segment, check_ack,
}
use liquorice.Tcp.Binding.{
  binding, IsBound, Binds, step-IsBound, then-IsBound, quiet-IsBound, signal-IsBound,
  notify_close-IsBound, notify_recv-IsBound, settle-binding, calc_round_trip-binding, build-IsBound,
  send_now-IsBound, send_close-IsBound, close_socket-IsBound, reset-IsBound,
  settle_and_send-IsBound,
}

module _ (now : ℕ) (seg : Segment) where
  pub check_segment-IsBound :
      (lost rest : Socket → Step)
      → Binds lost
      → Binds rest
      → Binds (λ sock. check_segment now lost sock seg rest)
  check_segment-IsBound lost rest l r k sock e =
      branch (IsBound k) (not (seg.sequence == sock.rcv_nxt) && not seg.flags.rst) _ _
        (build-IsBound now ack_flags k sock e)
        (branch (IsBound k) seg.flags.rst (close_socket sock >> lost) _
          (then-IsBound k (close_socket sock) lost (close_socket-IsBound k sock e) l)
          (branch (IsBound k) seg.flags.syn (send_reset_close_socket now sock >> lost) _
            (then-IsBound k (send_reset_close_socket now sock) lost (reset-IsBound now k sock e) l)
            (branch (IsBound k) (not seg.flags.ack) (quiet sock) (rest sock)
              (quiet-IsBound k sock e) (r k sock e))))

  pub check_ack-IsBound :
      (done rest : Socket → Step) → Binds done → Binds rest → Binds (check_ack now seg done rest)
  check_ack-IsBound done rest d r k sock e =
      let sock1 = record (calc_round_trip now sock) { snd_una = seg.ack } in
      let e1 = calc_round_trip-binding now sock ∙ e in
      let last : Step = if seg.ack == sock.snd_nxt then done sock1 else quiet sock1 in
      let more : Step = if not (leb sock.snd_una seg.ack) then quiet sock else last in
      let bound : IsBound k more =
        branch (IsBound k) (not (leb sock.snd_una seg.ack)) (quiet sock) last
          (quiet-IsBound k sock e)
          (branch (IsBound k) (seg.ack == sock.snd_nxt) (done sock1) (quiet sock1) (d k sock1 e1)
            (quiet-IsBound k sock1 e1)) in
      branch (IsBound k) (ltb sock.snd_nxt seg.ack) _ (more >> rest)
        (build-IsBound now ack_flags k sock e) (then-IsBound k more rest bound r)

  pub recv_data-IsBound : Binds (recv_data now seg)
  recv_data-IsBound k sock e =
      let sock1 = record sock { rcv_nxt = (sock.rcv_nxt + length seg.data_) % 2 ^ 32 } in
      let acks = tcp_build_and_send_sequence now sock1 ack_flags in
      branch (IsBound k) (length seg.data_ == 0) (quiet sock) (acks >> notify_recv seg.data_)
        (quiet-IsBound k sock e)
        (then-IsBound k acks (notify_recv seg.data_) (build-IsBound now ack_flags k sock1 e)
          (notify_recv-IsBound seg.data_))

  pub data_then-IsBound : (f : Socket → Step) → Binds f → Binds (λ s. recv_data now seg s >> f)
  data_then-IsBound f b k sock e =
      then-IsBound k (recv_data now seg sock) f (recv_data-IsBound k sock e) b

  pub established_fin-IsBound : Binds (established_fin now seg)
  established_fin-IsBound k sock e =
      let sock1 = record sock { rcv_nxt = (sock.rcv_nxt + 1) % 2 ^ 32 } in
      let sock2 = record sock1 { state = close_wait } in
      let sock3 = record sock1 { state = last_ack } in
      let waits = tcp_build_and_send_sequence now sock2 ack_flags in
      let ends = tcp_build_and_send_sequence now sock3 fin_ack_flags in
      let moved : Step = if sock.retrans_timing then waits else ends in
      let moved_ : IsBound k moved =
        branch (IsBound k) sock.retrans_timing waits ends (build-IsBound now ack_flags k sock2 e)
          (build-IsBound now fin_ack_flags k sock3 e) in
      branch (IsBound k) (not seg.flags.fin) (quiet sock) (moved >> signal >> notify_close)
        (quiet-IsBound k sock e)
        (then-IsBound k (moved >> signal) notify_close
          (then-IsBound k moved signal moved_ signal-IsBound) notify_close-IsBound)

  pub wait1_fin-IsBound : Binds (wait1_fin now seg)
  wait1_fin-IsBound k sock e =
      let sock1 = record sock { rcv_nxt = (sock.rcv_nxt + 1) % 2 ^ 32 } in
      let moved : Socket =
        if is_fin_wait2 sock.state
        then start_time_wait sock1
        else record sock1 { state = closing } in
      branch (IsBound k) (not seg.flags.fin) (quiet sock) _ (quiet-IsBound k sock e) (
        build-IsBound now ack_flags k moved
          (branch (λ s. binding s ≡ k) (is_fin_wait2 sock.state) (start_time_wait sock1) _ e e))

  pub wait2_fin-IsBound : Binds (wait2_fin now seg)
  wait2_fin-IsBound k sock e =
      let sock1 = start_time_wait (record sock { rcv_nxt = (sock.rcv_nxt + 1) % 2 ^ 32 }) in
      branch (IsBound k) seg.flags.fin _ (quiet sock) (build-IsBound now ack_flags k sock1 e)
        (quiet-IsBound k sock e)

  pub close_wait_data-IsBound : Binds (close_wait_data now seg)
  close_wait_data-IsBound = data_then-IsBound (close_wait_fin now seg) (λ k sock e.
      branch (IsBound k) seg.flags.fin _ (quiet sock) (build-IsBound now ack_flags k sock e)
        (quiet-IsBound k sock e))

  received_fin-IsBound : Binds (received_fin now seg)
  received_fin-IsBound k sock e =
      let sock1 = record sock { rcv_nxt = (sock.rcv_nxt + 1) % 2 ^ 32; state = last_ack } in
      let ends = tcp_build_and_send_sequence now sock1 fin_ack_flags in
      branch (IsBound k) seg.flags.fin (ends >> notify_close) (quiet sock)
        (then-IsBound k ends notify_close (build-IsBound now fin_ack_flags k sock1 e)
          notify_close-IsBound)
        (quiet-IsBound k sock e)

  pub received_ack-IsBound : Binds (received_ack now seg)
  received_ack-IsBound k sock e =
      let sent_ = settle_and_send now (calc_round_trip now sock) in
      let opened : Socket → Step = λ s.
        (record s { state = established; snd_una = (s.snd_una + 1) % 2 ^ 32 }, signalled ∷ []) in
      branch (IsBound k) (not (seg.ack == sock.snd_nxt)) _ (sent_ >> opened >> received_fin now seg)
        (build-IsBound now rst_flags k sock e)
        (then-IsBound k (sent_ >> opened) (received_fin now seg)
          (then-IsBound k sent_ opened
            (settle_and_send-IsBound now k (calc_round_trip now sock)
              (calc_round_trip-binding now sock ∙ e))
            (λ k1 s e1. step-IsBound k1 _ _ e1))
          received_fin-IsBound)

  wait1_from-IsBound :
      (sock : Socket) (queue : List (List ℕ)) (k : ℕ × ℕ × ℕ)
      → sock.awaiting_send ≡ queue
      → binding sock ≡ k
      → IsBound k (wait1_sent now sock)
  wait1_from-IsBound sock [] k q e =
      let s = record sock { awaiting_send = [] } in
      rw q (
        branch (IsBound k) sock.deferred_fin _ _
          (send_close-IsBound now k (record s { deferred_fin = false }) e)
          (quiet-IsBound k (record s { state = fin_wait2 }) e))
  wait1_from-IsBound sock (nb ∷ rest) k q e =
      rw q (send_now-IsBound now nb k (record sock { awaiting_send = rest }) e)

  pub wait1_done-IsBound : Binds (wait1_done now)
  wait1_done-IsBound k sock e =
      branch (IsBound k) sock.retrans_timing (wait1_sent now (stop_timing sock)) _
        (wait1_from-IsBound (stop_timing sock) sock.awaiting_send k refl e)
        (quiet-IsBound k (record sock { state = fin_wait2 }) e)

  close_wait_from-IsBound :
      (sock : Socket) (queue : List (List ℕ)) (k : ℕ × ℕ × ℕ)
      → sock.awaiting_send ≡ queue
      → binding sock ≡ k
      → IsBound k (close_wait_sent now sock)
  close_wait_from-IsBound sock [] k q e =
      let s = record sock { awaiting_send = [] } in
      rw q (
        then-IsBound k (tcp_send_close now s) (λ s1. quiet (record s1 { state = last_ack }))
          (send_close-IsBound now k s e)
          (λ k1 s1 e1. quiet-IsBound k1 (record s1 { state = last_ack }) e1))
  close_wait_from-IsBound sock (nb ∷ rest) k q e =
      rw q (send_now-IsBound now nb k (record sock { awaiting_send = rest }) e)

  pub close_wait_ack-IsBound : Binds (close_wait_ack now seg)
  close_wait_ack-IsBound k sock e =
      let sock1 = record (calc_round_trip now sock) { snd_una = seg.ack } in
      let e1 = calc_round_trip-binding now sock ∙ e in
      branch (IsBound k) (ltb sock.snd_nxt seg.ack) _ _ (build-IsBound now ack_flags k sock e) (
        branch (IsBound k) (not (leb sock.snd_una seg.ack)) (close_wait_data now seg sock) _
          (close_wait_data-IsBound k sock e)
          (branch (IsBound k) (seg.ack == sock.snd_nxt) _ (close_wait_data now seg sock1)
            (branch (IsBound k) sock1.retrans_timing (close_wait_sent now (stop_timing sock1)) _
              (close_wait_from-IsBound (stop_timing sock1) sock1.awaiting_send k refl e1)
              (close_wait_data-IsBound k sock1 e1))
            (close_wait_data-IsBound k sock1 e1)))

  sent_rst-IsBound : Binds (sent_rst seg)
  sent_rst-IsBound k sock e =
      branch (IsBound k) (seg.flags.rst && seg.flags.ack) _ (quiet sock)
        (step-IsBound k (record sock { state = closed }) (detached ∷ signalled ∷ []) e)
        (quiet-IsBound k sock e)

  sent_syn-IsBound : Binds (sent_syn now seg)
  sent_syn-IsBound k sock e =
      let sock1 = record sock { rcv_nxt = (seg.sequence + 1) % 2 ^ 32 } in
      let opened = record sock1 { state = established; snd_una = (sock.snd_una + 1) % 2 ^ 32 } in
      let received = record (settle sock1) { state = syn_received } in
      let acks = tcp_build_and_send_sequence now opened ack_flags in
      branch (IsBound k) (not seg.flags.syn) (quiet sock) _ (quiet-IsBound k sock e) (
        branch (IsBound k) seg.flags.ack (acks >> signal) _
          (then-IsBound k acks signal (build-IsBound now ack_flags k opened e) signal-IsBound)
          (build-IsBound now syn_ack_flags k received (settle-binding sock1 ∙ e)))

  pub recv_syn_sent-IsBound : Binds (λ sock. recv_syn_sent now sock seg)
  unfolding recv_syn_sent
  recv_syn_sent-IsBound k sock e =
      let timed = settle (calc_round_trip now sock) in
      let sock1 : Socket = if seg.flags.ack then timed else sock in
      let e1 : binding sock1 ≡ k =
        branch (λ s. binding s ≡ k) seg.flags.ack timed sock
          (settle-binding (calc_round_trip now sock) ∙ calc_round_trip-binding now sock ∙ e) e in
      branch (IsBound k) (seg.flags.ack && not (seg.ack == sock.snd_nxt)) _
        (sent_rst seg sock1 >> sent_syn now seg)
        (branch (IsBound k) seg.flags.rst (quiet sock) _ (quiet-IsBound k sock e)
          (build-IsBound now rst_flags k sock e))
        (then-IsBound k (sent_rst seg sock1) (sent_syn now seg) (sent_rst-IsBound k sock1 e1)
          sent_syn-IsBound)
