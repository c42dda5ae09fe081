-- ===== src/Tcp/Close.antt =====
-- A socket of src/lib/tcp/tcp.c that is closed while packets wait to be sent.
use liquorice.Base.{
  ℕ, ◌+◌, ◌^◌, ◌<◌, ◌≤◌, ◌≡◌, refl, ap, sym, ◌∙◌, subst, true, false, not, none, List, [], ◌∷◌,
  append-nil, length, All, if_then, if_else, arith,
}
use liquorice.Tcp.Socket.{Segment, Socket, Step, ◌>>◌, quiet}
use liquorice.Tcp.Socket.State.{established, fin_wait1, fin_wait2}
use liquorice.Tcp.Send.{
  ack_flags, psh_ack_flags, build_netbuf, tcp_send_sequence, tcp_send_netbuf_now, calc_round_trip,
  stop_timing,
}
use liquorice.Tcp.Machine.{
  tcp_recv_state_machine, recv_in, recv_fin_wait1, wait1_done, wait1_sent, wait1_fin, recv_data,
  check_ack,
}
use liquorice.Tcp.Calls.{tcp_close, client_close}
use liquorice.Tcp.Link.{segments}
use liquorice.Tcp.Transfer.{
  acknowledged, calc_round_trip-timed, check_segment-pass, check_ack-all, ==_refl, ltb_irrefl,
}
use liquorice.Tcp.Exchange.{sending}

-- An acknowledgement of everything before a number, and nothing else.
abbrev pub pure_ack : ℕ → ℕ → ℕ → ℕ → Segment
pure_ack src_port dest_port sequence ack = record {
  src_port = src_port;
  dest_port = dest_port;
  sequence = sequence;
  ack = ack;
  flags = ack_flags;
  data_ = [];
}

-- All that was sent is acknowledged while the socket waits to close.
wait1-acknowledged :
    (now src_port dest_port : ℕ) (sock : Socket)
    → sock.snd_una ≤ sock.snd_nxt
    → let seg = pure_ack src_port dest_port sock.rcv_nxt sock.snd_nxt in
      recv_fin_wait1 now sock seg ≡ wait1_done now (acknowledged now sock seg)
unfolding recv_fin_wait1
wait1-acknowledged now src_port dest_port sock le =
    let seg = pure_ack src_port dest_port sock.rcv_nxt sock.snd_nxt in
    let rest : Socket → Step = λ s. recv_data now seg s >> wait1_fin now seg in
    let step = wait1_done now (acknowledged now sock seg) in
    check_segment-pass now quiet sock seg (check_ack now seg (wait1_done now) rest)
      (==_refl sock.rcv_nxt) refl refl refl
    ∙ check_ack-all now seg (wait1_done now) rest sock (ltb_irrefl sock.snd_nxt) (ground arith)
        (==_refl sock.snd_nxt)
    ∙ ap (λ l. (step.0, l)) (append-nil step.1)

-- A socket receives an acknowledgement of everything that it has sent.
abbrev pub recv_ack_all : ℕ → ℕ → ℕ → ℕ → Socket → Step
recv_ack_all now addr src_port dest_port sock =
    tcp_recv_state_machine now sock addr (pure_ack src_port dest_port sock.rcv_nxt sock.snd_nxt)

recv_ack_all-wait1_done :
    (now addr src_port dest_port : ℕ) (sock : Socket)
    → sock.state ≡ fin_wait1
    → sock.snd_una ≤ sock.snd_nxt
    → recv_ack_all now addr src_port dest_port sock
      ≡ wait1_done now
          (acknowledged now sock (pure_ack src_port dest_port sock.rcv_nxt sock.snd_nxt))
unfolding tcp_recv_state_machine
recv_ack_all-wait1_done now addr src_port dest_port sock e le =
    let seg = pure_ack src_port dest_port sock.rcv_nxt sock.snd_nxt in
    ap (λ s. recv_in s now sock addr seg) e ∙ wait1-acknowledged now src_port dest_port sock le

wait1_sent-more :
    (now : ℕ) (sock : Socket) (nb : List ℕ) (rest : List (List ℕ))
    → sock.awaiting_send ≡ nb ∷ rest
    → sock.is_deferred ≡ false
    → wait1_sent now sock ≡ (
      sending now (record sock { awaiting_send = rest }) nb,
      tcp_send_sequence (sending now sock nb) (build_netbuf sock psh_ack_flags nb) ∷ [],
    )
unfolding tcp_send_netbuf_now
wait1_sent-more now sock nb rest e d =
    let queued : Socket = record sock { awaiting_send = rest } in
    let now_ : Socket → Step = λ s. (
      sending now s nb,
      tcp_send_sequence (sending now s nb) (build_netbuf s psh_ack_flags nb) ∷ [],
    ) in
    let idle : tcp_send_netbuf_now now queued nb ≡ now_ queued =
      ap now_ (if_else sock.is_deferred _ queued d) in
    rw e idle

wait1_sent-none :
    (now : ℕ) (sock : Socket)
    → sock.awaiting_send ≡ []
    → sock.deferred_fin ≡ false
    → wait1_sent now sock ≡ quiet (record sock { state = fin_wait2 })
wait1_sent-none now sock e d =
    let waits : Socket = record sock { state = fin_wait2; awaiting_send = [] } in
    rw e (if_else sock.deferred_fin _ (quiet waits) d)

-- The socket that is closed, behind the first acknowledgement, and behind the second.
abbrev closing_socket : Socket → Socket
closing_socket sock = record sock { state = fin_wait1; deferred_fin = true; client = none }

tcp_close-waits :
    (now : ℕ) (sock : Socket)
    → sock.state ≡ established
    → sock.retrans_timing ≡ true
    → tcp_close now sock ≡ (closing_socket sock, [])
unfolding tcp_close
tcp_close-waits now sock e t =
    ap (λ (m : Step). (record m.0 { client = none }, m.1))
      (ap (λ s. client_close s now sock) e ∙ if_else (not sock.retrans_timing) _ _ (ap not t))

abbrev pub HasNoFin : List Segment → Type 0
HasNoFin segs = All (λ seg. seg.flags.fin ≡ false) segs

-- An established socket is closed while one packet is unacknowledged, its number not below the oldest that is
-- unacknowledged, and one more waits, which does not take the numbers past 2^32, with no acknowledgement deferred. When
-- the two packets are then acknowledged in turn, no FIN has been sent by these three steps, and the socket stands in
-- FIN-WAIT-2, as if its FIN had been sent and acknowledged too.
pub tcp_close-HasNoFin :
    (now addr src_port dest_port : ℕ) (sock : Socket) (nb : List ℕ)
    → sock.state ≡ established
    → sock.retrans_timing ≡ true
    → sock.awaiting_send ≡ nb ∷ []
    → sock.is_deferred ≡ false
    → sock.snd_una ≤ sock.snd_nxt
    → sock.snd_nxt + length nb < 2 ^ 32
    → let run =
        tcp_close now sock
        >> recv_ack_all now addr src_port dest_port
        >> recv_ack_all now addr src_port dest_port in
      (run.0.state ≡ fin_wait2) × HasNoFin (segments run.1)
tcp_close-HasNoFin now addr src_port dest_port sock nb e t q d le bound =
    let f = recv_ack_all now addr src_port dest_port in
    let w1 = closing_socket sock in
    let seg1 = pure_ack src_port dest_port w1.rcv_nxt w1.snd_nxt in
    let k1 = acknowledged now w1 seg1 in
    let timed1 = calc_round_trip-timed now w1 in
    let w2 = sending now (record (stop_timing k1) { awaiting_send = [] }) nb in
    let seg2 = pure_ack src_port dest_port w2.rcv_nxt w2.snd_nxt in
    let k2 = acknowledged now w2 seg2 in
    let timed2 = calc_round_trip-timed now w2 in
    let number : (calc_round_trip now w1).snd_nxt ≡ sock.snd_nxt =
      ap (λ (x : Socket). x.snd_nxt) timed1 in
    let out =
      tcp_send_sequence (sending now (stop_timing k1) nb)
        (build_netbuf (stop_timing k1) psh_ack_flags nb) in
    let first =
      recv_ack_all-wait1_done now addr src_port dest_port w1 refl le
      ∙ if_then k1.retrans_timing (wait1_sent now (stop_timing k1)) _
          (ap (λ (x : Socket). x.retrans_timing) timed1 ∙ t)
      ∙ wait1_sent-more now (stop_timing k1) nb [] (ap (λ (x : Socket). x.awaiting_send) timed1 ∙ q)
          (ap (λ (x : Socket). x.is_deferred) timed1 ∙ d) in
    let second =
      recv_ack_all-wait1_done now addr src_port dest_port w2 (ap (λ (x : Socket). x.state) timed1)
        (omega arith)
      ∙ if_then k2.retrans_timing (wait1_sent now (stop_timing k2)) _
          (ap (λ (x : Socket). x.retrans_timing) timed2)
      ∙ wait1_sent-none now (stop_timing k2) (ap (λ (x : Socket). x.awaiting_send) timed2)
          (ap (λ (x : Socket). x.deferred_fin) timed2) in
    let run =
      ap (λ (m : Step). m >> f >> f) (tcp_close-waits now sock e t)
      ∙ ap (λ (m : Step). m >> f) first
      ∙ ap (λ (m : Step). (m.0, out ∷ m.1)) second in
    subst (λ (m : Step). (m.0.state ≡ fin_wait2) × HasNoFin (segments m.1)) (sym run)
      (refl, (refl, tt))
