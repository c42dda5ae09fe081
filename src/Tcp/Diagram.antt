-- ===== src/Tcp/Diagram.antt =====
-- The state diagram that src/lib/tcp/tcp.c drives its sockets around when segments arrive.
use liquorice.Base.{
  ℕ, ◌≡◌, refl, ap, ◌∙◌, Bool, true, false, not, ◌||◌, Option, some, none, List, [], ◌∷◌, ◌==◌, ltb,
  leb, if◌then◌else◌, branch, ◌+◌, ◌%◌, ◌^◌, arith,
}
use liquorice.Tcp.Socket.{State, Segment, Pending, Socket, Step, ◌>>◌, quiet}
use liquorice.Tcp.Socket.State.{
  closed, listen, syn_sent, syn_received, established, fin_wait1, fin_wait2, close_wait, closing,
  last_ack, time_wait,
}
use liquorice.Tcp.Send.{
  ack_flags, rst_flags, syn_ack_flags, fin_ack_flags, tcp_build_and_send_sequence, stop_timing,
  close_socket, calc_round_trip,
}
use liquorice.Tcp.Machine.{
  notify_close, settle, settle_and_send, recv_connect, recv_listen, sent_rst, sent_syn,
  recv_syn_sent, received_fin, received_ack, recv_syn_received, recv_data, established_fin,
  recv_established, wait1_sent, wait1_done, start_time_wait, wait1_fin, recv_fin_wait1, wait2_fin,
  recv_fin_wait2, close_wait_data, close_wait_sent, close_wait_done, close_wait_ack,
  recv_close_wait, recv_closing, recv_last_ack, recv_in, tcp_recv_state_machine, signal,
}
use liquorice.Tcp.States.{
  KeepsState, Leads, keeps-Leads, >>-Leads, ack-Leads, check_segment-Leads, check_ack-Leads,
  recv_data-KeepsState, settle_and_send-KeepsState, tcp_build_and_send_sequence-state,
  notify_close-state, calc_round_trip-state, tcp_send_netbuf_now-state, tcp_send_close-state,
  settle-state, close_socket-state,
}

-- The numbers of the states in src/include/tcp.h.
abbrev pub code : State → ℕ
code closed = 0
code listen = 1
code syn_sent = 2
code syn_received = 3
code established = 4
code fin_wait1 = 5
code fin_wait2 = 6
code close_wait = 7
code closing = 8
code last_ack = 9
code time_wait = 10

unfoldable pub is_in : State → State → Bool
is_in a b = code a == code b

-- The arrows of the diagram: those of RFC 793, a reset that ends every connection, and the ways around CLOSE-WAIT,
-- since the code sends its FIN with the acknowledgement of the other side's.
abbrev pub has_arrow : State → State → Bool
has_arrow syn_sent closed = true
has_arrow syn_sent syn_received = true
has_arrow syn_sent established = true
has_arrow syn_received closed = true
has_arrow syn_received established = true
has_arrow syn_received last_ack = true
has_arrow established closed = true
has_arrow established close_wait = true
has_arrow established last_ack = true
has_arrow fin_wait1 closed = true
has_arrow fin_wait1 fin_wait2 = true
has_arrow fin_wait1 closing = true
has_arrow fin_wait1 time_wait = true
has_arrow fin_wait2 closed = true
has_arrow fin_wait2 time_wait = true
has_arrow close_wait closed = true
has_arrow close_wait last_ack = true
has_arrow closing closed = true
has_arrow closing time_wait = true
has_arrow last_ack closed = true
has_arrow _ _ = false

unfoldable pub may_follow : State → State → Bool
unfolding is_in
may_follow a b = is_in a b || has_arrow a b

stays : (a s : State) → is_in a s ≡ true → may_follow a s ≡ true
unfolding may_follow
stays a s h = ground arith

arrow : (a b : State) → has_arrow a b ≡ true → may_follow a b ≡ true
unfolding may_follow
arrow a b h = ground arith

is_in_self : (a : State) → is_in a a ≡ true
unfolding is_in
is_in_self a = ground arith

self : (a : State) → may_follow a a ≡ true
self a = stays a a (is_in_self a)

received_est : (s : State) → is_in established s ≡ true → may_follow syn_received s ≡ true
unfolding may_follow is_in
received_est s h = ground arith

same : (a s : State) → is_in a s ≡ true → is_in a s ≡ true
same a s h = h

connect_from-state :
    (sock : Socket) (src_addr : ℕ) (seg : Segment) (waiting : Option Pending)
    → sock.awaiting_accept ≡ waiting
    → (recv_connect sock src_addr seg).0.state ≡ sock.state
connect_from-state sock src_addr seg none e = rw e refl
connect_from-state sock src_addr seg (some p) e = rw e refl

recv_connect-state :
    (sock : Socket) (src_addr : ℕ) (seg : Segment)
    → (recv_connect sock src_addr seg).0.state ≡ sock.state
recv_connect-state sock src_addr seg =
    connect_from-state sock src_addr seg sock.awaiting_accept refl

recv_listen-KeepsState :
    (now src_addr : ℕ) (seg : Segment) → KeepsState (λ sock. recv_listen now sock src_addr seg)
unfolding recv_listen
recv_listen-KeepsState now src_addr seg sock =
    let P : Step → Type 0 = λ s. s.0.state ≡ sock.state in
    let known : Socket = record sock {
      remote_port = seg.src_port;
      remote_addr = src_addr;
      snd_nxt = seg.ack;
    } in
    branch P _ _ _ refl (
      branch P _ _ _ (tcp_build_and_send_sequence-state now known rst_flags)
        (branch P _ _ _ (recv_connect-state sock src_addr seg) refl))

sent_or_closed : State → Bool
unfolding is_in
sent_or_closed s = is_in syn_sent s || is_in closed s

sent_may : (s : State) → sent_or_closed s ≡ true → may_follow syn_sent s ≡ true
unfolding sent_or_closed may_follow is_in
sent_may s h = ground arith

sent_end : sent_or_closed closed ≡ true
unfolding sent_or_closed
sent_end = refl

sent_mid : (s : State) → is_in syn_sent s ≡ true → sent_or_closed s ≡ true
unfolding sent_or_closed
sent_mid s h = ground arith

sent_rst-Leads : (seg : Segment) → Leads (is_in syn_sent) sent_or_closed (sent_rst seg)
sent_rst-Leads seg sock h =
    branch (λ (s : Step). sent_or_closed s.0.state ≡ true) _ _ _ sent_end (sent_mid sock.state h)

sent_syn-Leads :
    (now : ℕ) (seg : Segment) → Leads sent_or_closed (may_follow syn_sent) (sent_syn now seg)
sent_syn-Leads now seg sock h =
    let P : Step → Type 0 = λ s. may_follow syn_sent s.0.state ≡ true in
    branch P _ _ _ (sent_may sock.state h) (
      branch P _ _ _
        (ack-Leads (may_follow syn_sent) now ack_flags _ (arrow syn_sent established refl))
        (ack-Leads (may_follow syn_sent) now syn_ack_flags _ (arrow syn_sent syn_received refl)))

syn_sent-lem :
    (now : ℕ) (seg : Segment)
    → Leads (is_in syn_sent) (may_follow syn_sent) (λ sock. recv_syn_sent now sock seg)
unfolding recv_syn_sent
syn_sent-lem now seg sock h =
    let P : Step → Type 0 = λ s. may_follow syn_sent s.0.state ≡ true in
    let kept : is_in syn_sent
          (if seg.flags.ack then settle (calc_round_trip now sock) else sock).state
        ≡ true =
      branch (λ (s : Socket). is_in syn_sent s.state ≡ true) _ _ _
        (ap (is_in syn_sent)
            (settle-state (calc_round_trip now sock) ∙ calc_round_trip-state now sock)
          ∙ h)
        h in
    branch P _ _ _
      (branch P _ _ _ (stays syn_sent sock.state h)
        (ack-Leads (may_follow syn_sent) now rst_flags sock (stays syn_sent sock.state h)))
      (sent_syn-Leads now seg _ (sent_rst-Leads seg _ kept))

received_fin-Leads :
    (now : ℕ) (seg : Segment)
    → Leads (is_in established) (may_follow syn_received) (received_fin now seg)
received_fin-Leads now seg sock h =
    branch (λ (s : Step). may_follow syn_received s.0.state ≡ true) _ _ _
      (ap (may_follow syn_received)
          (notify_close-state _ ∙ tcp_build_and_send_sequence-state now _ fin_ack_flags)
        ∙ arrow syn_received last_ack refl)
      (received_est sock.state h)

received_ack-Leads :
    (now : ℕ) (seg : Segment)
    → Leads (is_in syn_received) (may_follow syn_received) (received_ack now seg)
received_ack-Leads now seg sock h =
    branch (λ (s : Step). may_follow syn_received s.0.state ≡ true) _ _ _
      (ack-Leads (may_follow syn_received) now rst_flags sock (stays syn_received sock.state h))
      (received_fin-Leads now seg _ (is_in_self established))

received-lem :
    (now : ℕ) (seg : Segment)
    → Leads (is_in syn_received) (may_follow syn_received) (λ sock. recv_syn_received now sock seg)
unfolding recv_syn_received
received-lem now seg =
    check_segment-Leads (is_in syn_received) (may_follow syn_received) now notify_close seg
      (received_ack now seg) (stays syn_received) (arrow syn_received closed refl)
      notify_close-state (received_ack-Leads now seg)

established_fin-Leads :
    (now : ℕ) (seg : Segment)
    → Leads (is_in established) (may_follow established) (established_fin now seg)
established_fin-Leads now seg sock h =
    let P : Step → Type 0 = λ s. may_follow established s.0.state ≡ true in
    let sock1 = record sock { rcv_nxt = (sock.rcv_nxt + 1) % 2 ^ 32 } in
    let waits = tcp_build_and_send_sequence now (record sock1 { state = close_wait }) ack_flags in
    let ends = tcp_build_and_send_sequence now (record sock1 { state = last_ack }) fin_ack_flags in
    let moved : Step = if sock.retrans_timing then waits else ends in
    let arrived : P moved =
      branch P sock.retrans_timing waits ends
        (ack-Leads (may_follow established) now ack_flags (record sock1 { state = close_wait })
          (arrow established close_wait refl))
        (ack-Leads (may_follow established) now fin_ack_flags (record sock1 { state = last_ack })
          (arrow established last_ack refl)) in
    branch P (not seg.flags.fin) (quiet sock) (moved >> signal >> notify_close)
      (stays established sock.state h)
      (ap (may_follow established) (notify_close-state moved.0) ∙ arrived)

established-lem :
    (now : ℕ) (seg : Segment)
    → Leads (is_in established) (may_follow established) (λ sock. recv_established now sock seg)
unfolding recv_established
established-lem now seg =
    check_segment-Leads (is_in established) (may_follow established) now notify_close seg _
      (stays established) (arrow established closed refl) notify_close-state
      (check_ack-Leads (is_in established) (is_in established) (may_follow established) now seg
        (settle_and_send now) (λ s. recv_data now seg s >> established_fin now seg)
        (same established) (stays established)
        (keeps-Leads (is_in established) (settle_and_send now) (settle_and_send-KeepsState now))
        (>>-Leads (is_in established) (is_in established) (may_follow established)
          (recv_data now seg) (established_fin now seg)
          (keeps-Leads (is_in established) (recv_data now seg) (recv_data-KeepsState now seg))
          (established_fin-Leads now seg)))

wait2_fin-Leads :
    (now : ℕ) (seg : Segment) → Leads (is_in fin_wait2) (may_follow fin_wait2) (wait2_fin now seg)
wait2_fin-Leads now seg sock h =
    branch (λ (s : Step). may_follow fin_wait2 s.0.state ≡ true) _ _ _
      (ack-Leads (may_follow fin_wait2) now ack_flags _ (arrow fin_wait2 time_wait refl))
      (stays fin_wait2 sock.state h)

wait2-lem :
    (now : ℕ) (seg : Segment)
    → Leads (is_in fin_wait2) (may_follow fin_wait2) (λ sock. recv_fin_wait2 now sock seg)
unfolding recv_fin_wait2
wait2-lem now seg =
    check_segment-Leads (is_in fin_wait2) (may_follow fin_wait2) now quiet seg _ (stays fin_wait2)
      (arrow fin_wait2 closed refl) (λ s. refl)
      (check_ack-Leads (is_in fin_wait2) (is_in fin_wait2) (may_follow fin_wait2) now seg
        (settle_and_send now) (λ s. recv_data now seg s >> wait2_fin now seg) (same fin_wait2)
        (stays fin_wait2)
        (keeps-Leads (is_in fin_wait2) (settle_and_send now) (settle_and_send-KeepsState now))
        (>>-Leads (is_in fin_wait2) (is_in fin_wait2) (may_follow fin_wait2) (recv_data now seg)
          (wait2_fin now seg)
          (keeps-Leads (is_in fin_wait2) (recv_data now seg) (recv_data-KeepsState now seg))
          (wait2_fin-Leads now seg)))

closing-lem :
    (now : ℕ) (seg : Segment)
    → Leads (is_in closing) (may_follow closing) (λ sock. recv_closing now sock seg)
unfolding recv_closing
closing-lem now seg =
    check_segment-Leads (is_in closing) (may_follow closing) now quiet seg _ (stays closing)
      (arrow closing closed refl) (λ s. refl)
      (check_ack-Leads (is_in closing) (may_follow closing) (may_follow closing) now seg
        (λ s. quiet (start_time_wait (settle s))) quiet (stays closing) (stays closing)
        (λ s h. arrow closing time_wait refl) (λ s h. h))

last_ack-lem :
    (now : ℕ) (seg : Segment)
    → Leads (is_in last_ack) (may_follow last_ack) (λ sock. recv_last_ack now sock seg)
unfolding recv_last_ack
last_ack-lem now seg =
    check_segment-Leads (is_in last_ack) (may_follow last_ack) now quiet seg _ (stays last_ack)
      (arrow last_ack closed refl) (λ s. refl)
      (check_ack-Leads (is_in last_ack) (may_follow last_ack) (may_follow last_ack) now seg
        close_socket quiet (stays last_ack) (stays last_ack)
        (λ s h. ap (may_follow last_ack) (close_socket-state s) ∙ arrow last_ack closed refl)
        (λ s h. h))

wait1_or_2 : State → Bool
unfolding is_in
wait1_or_2 s = is_in fin_wait1 s || is_in fin_wait2 s

wait1_may : (s : State) → wait1_or_2 s ≡ true → may_follow fin_wait1 s ≡ true
unfolding wait1_or_2 may_follow is_in
wait1_may s h = ground arith

wait1_end : wait1_or_2 fin_wait2 ≡ true
unfolding wait1_or_2
wait1_end = refl

wait1_mid : (s : State) → is_in fin_wait1 s ≡ true → wait1_or_2 s ≡ true
unfolding wait1_or_2
wait1_mid s h = ground arith

wait1_from :
    (now : ℕ) (sock : Socket) (queue : List (List ℕ))
    → sock.awaiting_send ≡ queue
    → is_in fin_wait1 sock.state ≡ true
    → wait1_or_2 (wait1_sent now sock).0.state ≡ true
wait1_from now sock [] e h = rw e (
    branch (λ (s : Step). wait1_or_2 s.0.state ≡ true) sock.deferred_fin _ _
      (ap wait1_or_2 (tcp_send_close-state now _) ∙ wait1_mid sock.state h) wait1_end)
wait1_from now sock (nb ∷ rest) e h =
    rw e (ap wait1_or_2 (tcp_send_netbuf_now-state now _ nb) ∙ wait1_mid sock.state h)

wait1_done-Leads : (now : ℕ) → Leads (is_in fin_wait1) wait1_or_2 (wait1_done now)
wait1_done-Leads now sock h =
    branch (λ (s : Step). wait1_or_2 s.0.state ≡ true) _ _ _
      (wait1_from now (stop_timing sock) sock.awaiting_send refl h) wait1_end

wait1_fin-Leads :
    (now : ℕ) (seg : Segment) → Leads wait1_or_2 (may_follow fin_wait1) (wait1_fin now seg)
wait1_fin-Leads now seg sock h =
    branch (λ (s : Step). may_follow fin_wait1 s.0.state ≡ true) _ _ _ (wait1_may sock.state h)
      (ack-Leads (may_follow fin_wait1) now ack_flags _ (
        branch (λ (s : Socket). may_follow fin_wait1 s.state ≡ true) _ _ _
          (arrow fin_wait1 time_wait refl) (arrow fin_wait1 closing refl)))

wait1-lem :
    (now : ℕ) (seg : Segment)
    → Leads (is_in fin_wait1) (may_follow fin_wait1) (λ sock. recv_fin_wait1 now sock seg)
unfolding recv_fin_wait1
wait1-lem now seg =
    check_segment-Leads (is_in fin_wait1) (may_follow fin_wait1) now quiet seg _ (stays fin_wait1)
      (arrow fin_wait1 closed refl) (λ s. refl)
      (check_ack-Leads (is_in fin_wait1) wait1_or_2 (may_follow fin_wait1) now seg (wait1_done now)
        (λ s. recv_data now seg s >> wait1_fin now seg) wait1_mid (stays fin_wait1)
        (wait1_done-Leads now)
        (>>-Leads wait1_or_2 wait1_or_2 (may_follow fin_wait1) (recv_data now seg)
          (wait1_fin now seg)
          (keeps-Leads wait1_or_2 (recv_data now seg) (recv_data-KeepsState now seg))
          (wait1_fin-Leads now seg)))

close_wait_data-Leads :
    (now : ℕ) (seg : Segment)
    → Leads (is_in close_wait) (may_follow close_wait) (close_wait_data now seg)
close_wait_data-Leads now seg sock h =
    let h1 = ap (is_in close_wait) (recv_data-KeepsState now seg sock) ∙ h in
    let h2 = stays close_wait (recv_data now seg sock).0.state h1 in
    branch (λ (s : Step). may_follow close_wait s.0.state ≡ true) _ _ _
      (ack-Leads (may_follow close_wait) now ack_flags _ h2) h2

close_wait_from :
    (now : ℕ) (sock : Socket) (queue : List (List ℕ))
    → sock.awaiting_send ≡ queue
    → is_in close_wait sock.state ≡ true
    → may_follow close_wait (close_wait_sent now sock).0.state ≡ true
close_wait_from now sock [] e h = rw e (arrow close_wait last_ack refl)
close_wait_from now sock (nb ∷ rest) e h = rw e (
    ap (may_follow close_wait) (tcp_send_netbuf_now-state now _ nb) ∙ stays close_wait sock.state h)

close_wait_ack-Leads :
    (now : ℕ) (seg : Segment)
    → Leads (is_in close_wait) (may_follow close_wait) (close_wait_ack now seg)
close_wait_ack-Leads now seg sock h =
    let P : Step → Type 0 = λ s. may_follow close_wait s.0.state ≡ true in
    let sock1 = record (calc_round_trip now sock) { snd_una = seg.ack } in
    let h1 : is_in close_wait sock1.state ≡ true =
      ap (is_in close_wait) (calc_round_trip-state now sock) ∙ h in
    let done : P (close_wait_done now seg sock1) =
      branch P sock1.retrans_timing (close_wait_sent now (stop_timing sock1))
        (close_wait_data now seg sock1)
        (close_wait_from now (stop_timing sock1) sock1.awaiting_send refl h1)
        (close_wait_data-Leads now seg sock1 h1) in
    let acked =
      branch P (seg.ack == sock.snd_nxt) (close_wait_done now seg sock1)
        (close_wait_data now seg sock1) done (close_wait_data-Leads now seg sock1 h1) in
    branch P (ltb sock.snd_nxt seg.ack) (tcp_build_and_send_sequence now sock ack_flags) _
      (ack-Leads (may_follow close_wait) now ack_flags sock (stays close_wait sock.state h))
      (branch P (not (leb sock.snd_una seg.ack)) (close_wait_data now seg sock) _
        (close_wait_data-Leads now seg sock h) acked)

close_wait-lem :
    (now : ℕ) (seg : Segment)
    → Leads (is_in close_wait) (may_follow close_wait) (λ sock. recv_close_wait now sock seg)
unfolding recv_close_wait
close_wait-lem now seg =
    check_segment-Leads (is_in close_wait) (may_follow close_wait) now quiet seg _
      (stays close_wait) (arrow close_wait closed refl) (λ s. refl) (close_wait_ack-Leads now seg)

from_state :
    (st : State) (now : ℕ) (sock : Socket) (src_addr : ℕ) (seg : Segment)
    → sock.state ≡ st
    → may_follow st (recv_in st now sock src_addr seg).0.state ≡ true
from_state listen now sock src_addr seg e =
    ap (may_follow listen) (recv_listen-KeepsState now src_addr seg sock ∙ e) ∙ self listen
from_state syn_sent now sock src_addr seg e =
    syn_sent-lem now seg sock (ap (is_in syn_sent) e ∙ is_in_self syn_sent)
from_state syn_received now sock src_addr seg e =
    received-lem now seg sock (ap (is_in syn_received) e ∙ is_in_self syn_received)
from_state established now sock src_addr seg e =
    established-lem now seg sock (ap (is_in established) e ∙ is_in_self established)
from_state fin_wait1 now sock src_addr seg e =
    wait1-lem now seg sock (ap (is_in fin_wait1) e ∙ is_in_self fin_wait1)
from_state fin_wait2 now sock src_addr seg e =
    wait2-lem now seg sock (ap (is_in fin_wait2) e ∙ is_in_self fin_wait2)
from_state close_wait now sock src_addr seg e =
    close_wait-lem now seg sock (ap (is_in close_wait) e ∙ is_in_self close_wait)
from_state closing now sock src_addr seg e =
    closing-lem now seg sock (ap (is_in closing) e ∙ is_in_self closing)
from_state last_ack now sock src_addr seg e =
    last_ack-lem now seg sock (ap (is_in last_ack) e ∙ is_in_self last_ack)
from_state time_wait now sock src_addr seg e = ap (may_follow time_wait) e ∙ self time_wait
from_state closed now sock src_addr seg e = ap (may_follow closed) e ∙ self closed

-- A segment moves a socket along an arrow of the diagram, or leaves it in its state, whatever the segment is.
pub tcp_recv_state_machine-may_follow :
    (now : ℕ) (sock : Socket) (src_addr : ℕ) (seg : Segment)
    → may_follow sock.state (tcp_recv_state_machine now sock src_addr seg).0.state ≡ true
unfolding tcp_recv_state_machine
tcp_recv_state_machine-may_follow now sock src_addr seg =
    from_state sock.state now sock src_addr seg refl
