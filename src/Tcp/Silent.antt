-- ===== src/Tcp/Silent.antt =====
-- The parts of src/lib/tcp/tcp.c that give a client no data.
use liquorice.Base.{
  ℕ, ◌≡◌, refl, ap, ap₂, sym, ◌∙◌, true, not, ◌&&◌, ◌||◌, some, List, [], ◌∷◌, ◌++◌, append_assoc,
  ◌==◌, if◌then◌else◌, branch, ◌+◌, ◌%◌, ◌/◌, ◌^◌, arith,
}
use liquorice.Tcp.Socket.{Flags, Segment, Built, Socket, Event, Step, ◌>>◌, quiet, tick_rate}
use liquorice.Tcp.Socket.State.{closed, established, close_wait, last_ack}
use liquorice.Tcp.Socket.Event.{sent, connect, recv, close, detached, signalled}
use liquorice.Tcp.Send.{
  ack_flags, rst_flags, syn_ack_flags, fin_ack_flags, tcp_build_and_send_sequence,
  tcp_send_netbuf_now, tcp_send_close, stop_timing, send_or_defer, drop_deferred, build_netbuf,
  start_timing, tcp_send_sequence, complete_header, is_established, drop_unsent, close_socket,
  send_reset_close_socket, calc_round_trip,
}
use liquorice.Tcp.Machine.{
  notify_close, send_next, settle, settle_and_send, recv_connect, recv_listen, sent_rst, sent_syn,
  recv_syn_sent, received_fin, received_ack, established_fin, wait1_sent, wait1_done, wait1_fin,
  wait2_fin, close_wait_fin, close_wait_sent, signal,
}

-- The data that clients are given by events.
unfoldable pub given : List Event → List ℕ
given [] = []
given (recv tc octets ∷ events) = octets ++ given events
given (_ ∷ events) = given events

pub given-append : (xs ys : List Event) → given (xs ++ ys) ≡ given xs ++ given ys
unfolding given
given-append [] ys = refl
given-append (sent dest seg ∷ xs) ys = given-append xs ys
given-append (connect tc ∷ xs) ys = given-append xs ys
given-append (recv tc octets ∷ xs) ys =
    ap (λ l. octets ++ l) (given-append xs ys) ∙ sym (append_assoc octets (given xs) (given ys))
given-append (close tc ∷ xs) ys = given-append xs ys
given-append (detached ∷ xs) ys = given-append xs ys
given-append (signalled ∷ xs) ys = given-append xs ys

-- A step that gives its client nothing, and a part of a handler that never does.
unfoldable pub IsSilent : Step → Type 0
IsSilent step = given step.1 ≡ []

abbrev pub Silences : (Socket → Step) → Type 0
Silences f = (sock : Socket) → IsSilent (f sock)

silent : (step : Step) → given step.1 ≡ [] → IsSilent step
unfolding IsSilent
silent step e = e

pub quiet-IsSilent : (sock : Socket) → IsSilent (sock, [])
unfolding IsSilent given
quiet-IsSilent sock = refl

pub then-IsSilent :
    (step : Step) (f : Socket → Step) → IsSilent step → Silences f → IsSilent (step >> f)
unfolding IsSilent
then-IsSilent step f s t = given-append step.1 (f step.0).1 ∙ ap₂ (λ x y. x ++ y) s (t step.0)

pub sent-IsSilent : (sock : Socket) (dest : ℕ) (seg : Segment) → IsSilent (sock, sent dest seg ∷ [])
unfolding IsSilent given
sent-IsSilent sock dest seg = refl

pub signal-IsSilent : Silences signal
unfolding IsSilent given
signal-IsSilent sock = refl

pub ended-IsSilent : (sock : Socket) → IsSilent (sock, detached ∷ signalled ∷ [])
unfolding IsSilent given
ended-IsSilent sock = refl

pub notify_close-IsSilent : Silences notify_close
unfolding IsSilent given
notify_close-IsSilent sock = ground arith

pub recv_connect-IsSilent :
    (src_addr : ℕ) (seg : Segment) → Silences (λ sock. recv_connect sock src_addr seg)
unfolding IsSilent given
recv_connect-IsSilent src_addr seg sock = ground arith

pub send_or_defer-IsSilent :
    (sock : Socket) (flags : Flags) (nb : Built) → IsSilent (send_or_defer sock flags nb)
send_or_defer-IsSilent sock flags nb =
    let more = (flags.fin || flags.syn) || (flags.rst || flags.psh) in
    let now_ : Step = (drop_deferred sock, tcp_send_sequence (drop_deferred sock) nb ∷ []) in
    let later = record sock {
      is_deferred = true;
      deferred_ack = nb;
      deferred_timer = some (tick_rate / 5);
    } in
    branch IsSilent (more || (sock.is_deferred || not (is_established sock.state))) now_
      (quiet later)
      (sent-IsSilent (drop_deferred sock) (drop_deferred sock).remote_addr
        (complete_header (drop_deferred sock) nb))
      (quiet-IsSilent later)

pub build-IsSilent :
    (now : ℕ) (flags : Flags) → Silences (λ sock. tcp_build_and_send_sequence now sock flags)
unfolding tcp_build_and_send_sequence
build-IsSilent now flags sock =
    let nb = build_netbuf sock flags [] in
    send_or_defer-IsSilent (if flags.syn || flags.fin then start_timing now sock nb 1 else sock)
      flags nb

pub send_now-IsSilent :
    (now : ℕ) (octets : List ℕ) → Silences (λ sock. tcp_send_netbuf_now now sock octets)
unfolding tcp_send_netbuf_now
send_now-IsSilent now octets sock = sent-IsSilent _ _ _

pub send_close-IsSilent : (now : ℕ) → Silences (tcp_send_close now)
unfolding tcp_send_close
send_close-IsSilent now sock = sent-IsSilent _ _ _

pub close_socket-IsSilent : Silences close_socket
unfolding close_socket
close_socket-IsSilent sock = ended-IsSilent _

pub reset-IsSilent : (now : ℕ) → Silences (send_reset_close_socket now)
unfolding send_reset_close_socket
reset-IsSilent now sock =
    then-IsSilent
      (tcp_build_and_send_sequence now (record (drop_unsent sock) { state = closed }) rst_flags)
      (λ s. (s, detached ∷ signalled ∷ [])) (build-IsSilent now rst_flags _) ended-IsSilent

pub send_from-IsSilent :
    (now : ℕ) (sock : Socket) (queue : List (List ℕ))
    → sock.awaiting_send ≡ queue
    → IsSilent (send_next now sock)
send_from-IsSilent now sock [] e = rw e (quiet-IsSilent _)
send_from-IsSilent now sock (nb ∷ rest) e = rw e (send_now-IsSilent now nb _)

pub settle_and_send-IsSilent : (now : ℕ) → Silences (settle_and_send now)
settle_and_send-IsSilent now sock =
    branch IsSilent _ _ _ (send_from-IsSilent now (stop_timing sock) sock.awaiting_send refl)
      (quiet-IsSilent sock)

module _ (now : ℕ) (seg : Segment) where
  pub established_fin-IsSilent : Silences (established_fin now seg)
  established_fin-IsSilent sock =
      let sock1 = record sock { rcv_nxt = (sock.rcv_nxt + 1) % 2 ^ 32 } in
      let waits = tcp_build_and_send_sequence now (record sock1 { state = close_wait }) ack_flags in
      let ends =
        tcp_build_and_send_sequence now (record sock1 { state = last_ack }) fin_ack_flags in
      let moved : Step = if sock.retrans_timing then waits else ends in
      let moved_ : IsSilent moved =
        branch IsSilent sock.retrans_timing waits ends (build-IsSilent now ack_flags _)
          (build-IsSilent now fin_ack_flags _) in
      branch IsSilent (not seg.flags.fin) (quiet sock) (moved >> signal >> notify_close)
        (quiet-IsSilent sock)
        (then-IsSilent (moved >> signal) notify_close
          (then-IsSilent moved signal moved_ signal-IsSilent) notify_close-IsSilent)

  pub wait1_fin-IsSilent : Silences (wait1_fin now seg)
  wait1_fin-IsSilent sock =
      branch IsSilent (not seg.flags.fin) (quiet sock) _ (quiet-IsSilent sock)
        (build-IsSilent now ack_flags _)

  pub wait2_fin-IsSilent : Silences (wait2_fin now seg)
  wait2_fin-IsSilent sock =
      branch IsSilent seg.flags.fin _ (quiet sock) (build-IsSilent now ack_flags _)
        (quiet-IsSilent sock)

  pub close_wait_fin-IsSilent : Silences (close_wait_fin now seg)
  close_wait_fin-IsSilent sock =
      branch IsSilent seg.flags.fin _ (quiet sock) (build-IsSilent now ack_flags sock)
        (quiet-IsSilent sock)

  pub received_fin-IsSilent : Silences (received_fin now seg)
  received_fin-IsSilent sock =
      branch IsSilent seg.flags.fin _ (quiet sock)
        (then-IsSilent _ notify_close (build-IsSilent now fin_ack_flags _) notify_close-IsSilent)
        (quiet-IsSilent sock)

  pub wait1_from-IsSilent :
      (sock : Socket) (queue : List (List ℕ))
      → sock.awaiting_send ≡ queue
      → IsSilent (wait1_sent now sock)
  wait1_from-IsSilent sock [] e =
      rw e (branch IsSilent sock.deferred_fin _ _ (send_close-IsSilent now _) (quiet-IsSilent _))
  wait1_from-IsSilent sock (nb ∷ rest) e = rw e (send_now-IsSilent now nb _)

  pub wait1_done-IsSilent : Silences (wait1_done now)
  wait1_done-IsSilent sock =
      branch IsSilent sock.retrans_timing (wait1_sent now (stop_timing sock)) _
        (wait1_from-IsSilent (stop_timing sock) sock.awaiting_send refl) (quiet-IsSilent _)

  pub close_wait_from-IsSilent :
      (sock : Socket) (queue : List (List ℕ))
      → sock.awaiting_send ≡ queue
      → IsSilent (close_wait_sent now sock)
  close_wait_from-IsSilent sock [] e = rw e (
      then-IsSilent (tcp_send_close now _) _ (send_close-IsSilent now _)
        (λ s. quiet-IsSilent (record s { state = last_ack })))
  close_wait_from-IsSilent sock (nb ∷ rest) e = rw e (send_now-IsSilent now nb _)

  pub received_ack-IsSilent : Silences (received_ack now seg)
  received_ack-IsSilent sock =
      let sent_ = settle_and_send now (calc_round_trip now sock) in
      let opened : Socket → Step = λ s.
        (record s { state = established; snd_una = (s.snd_una + 1) % 2 ^ 32 }, signalled ∷ []) in
      branch IsSilent (not (seg.ack == sock.snd_nxt))
        (tcp_build_and_send_sequence now sock rst_flags) (sent_ >> opened >> received_fin now seg)
        (build-IsSilent now rst_flags sock)
        (then-IsSilent (sent_ >> opened) (received_fin now seg)
          (then-IsSilent sent_ opened (settle_and_send-IsSilent now (calc_round_trip now sock))
            (λ s. signal-IsSilent _))
          received_fin-IsSilent)

  pub recv_listen-IsSilent : (src_addr : ℕ) → Silences (λ sock. recv_listen now sock src_addr seg)
  unfolding recv_listen
  recv_listen-IsSilent src_addr sock =
      branch IsSilent seg.flags.rst (quiet sock) _ (quiet-IsSilent sock) (
        branch IsSilent seg.flags.ack _ _ (build-IsSilent now rst_flags _) (
          branch IsSilent seg.flags.syn (recv_connect sock src_addr seg) (quiet sock)
            (recv_connect-IsSilent src_addr seg sock) (quiet-IsSilent sock)))

  pub sent_rst-IsSilent : Silences (sent_rst seg)
  sent_rst-IsSilent sock =
      branch IsSilent (seg.flags.rst && seg.flags.ack) _ (quiet sock) (ended-IsSilent _)
        (quiet-IsSilent sock)

  pub sent_syn-IsSilent : Silences (sent_syn now seg)
  sent_syn-IsSilent sock =
      branch IsSilent (not seg.flags.syn) (quiet sock) _ (quiet-IsSilent sock) (
        branch IsSilent seg.flags.ack _ _
          (then-IsSilent _ signal (build-IsSilent now ack_flags _) signal-IsSilent)
          (build-IsSilent now syn_ack_flags _))

  pub recv_syn_sent-IsSilent : Silences (λ sock. recv_syn_sent now sock seg)
  unfolding recv_syn_sent
  recv_syn_sent-IsSilent sock =
      let sock1 = if seg.flags.ack then settle (calc_round_trip now sock) else sock in
      branch IsSilent (seg.flags.ack && not (seg.ack == sock.snd_nxt)) _
        (sent_rst seg sock1 >> sent_syn now seg)
        (branch IsSilent seg.flags.rst (quiet sock) _ (quiet-IsSilent sock)
          (build-IsSilent now rst_flags sock))
        (then-IsSilent (sent_rst seg sock1) (sent_syn now seg) (sent_rst-IsSilent sock1)
          sent_syn-IsSilent)
