-- ===== src/Tcp/States.antt =====
-- What the parts of src/lib/tcp/tcp.c do to the state of a socket.
use liquorice.Base.{
  ℕ, ◌≡◌, refl, ap, ◌∙◌, Bool, true, false, ◌||◌, List, [], ◌∷◌, if◌then◌else◌, branch, length, ◌+◌,
  ◌%◌, ◌^◌, arith,
}
use liquorice.Tcp.Socket.{State, Flags, Segment, Built, Socket, Step, ◌>>◌}
use liquorice.Tcp.Socket.State.{closed}
use liquorice.Tcp.Send.{
  tcp_send_close, tcp_send_netbuf_now, send_or_defer, start_timing, build_netbuf,
  tcp_build_and_send_sequence, drop_deferred, drop_unsent, close_socket, send_reset_close_socket,
  calc_round_trip, rst_flags, ack_flags, stop_timing,
}
use liquorice.Tcp.Machine.{
  notify_close, notify_recv, send_next, settle_and_send, settle, check_segment, check_ack,
  recv_data,
}

pub drop_deferred-state : (sock : Socket) → (drop_deferred sock).state ≡ sock.state
drop_deferred-state sock = ground arith

pub send_or_defer-state :
    (sock : Socket) (flags : Flags) (nb : Built)
    → (send_or_defer sock flags nb).0.state ≡ sock.state
send_or_defer-state sock flags nb = ground (arith, drop_deferred-state sock)

timed-state :
    (now : ℕ) (sock : Socket) (nb : Built) (test : Bool)
    → (if test then start_timing now sock nb 1 else sock).state ≡ sock.state
timed-state now sock nb true = refl
timed-state now sock nb false = refl

pub tcp_build_and_send_sequence-state :
    (now : ℕ) (sock : Socket) (flags : Flags)
    → (tcp_build_and_send_sequence now sock flags).0.state ≡ sock.state
unfolding tcp_build_and_send_sequence
tcp_build_and_send_sequence-state now sock flags =
    let nb = build_netbuf sock flags [] in
    let test = flags.syn || flags.fin in
    send_or_defer-state (if test then start_timing now sock nb 1 else sock) flags nb
    ∙ timed-state now sock nb test

pub tcp_send_netbuf_now-state :
    (now : ℕ) (sock : Socket) (octets : List ℕ)
    → (tcp_send_netbuf_now now sock octets).0.state ≡ sock.state
unfolding tcp_send_netbuf_now
tcp_send_netbuf_now-state now sock octets = drop_deferred-state sock

pub tcp_send_close-state :
    (now : ℕ) (sock : Socket) → (tcp_send_close now sock).0.state ≡ sock.state
unfolding tcp_send_close
tcp_send_close-state now sock = drop_deferred-state sock

pub calc_round_trip-state :
    (now : ℕ) (sock : Socket) → (calc_round_trip now sock).state ≡ sock.state
unfolding calc_round_trip
calc_round_trip-state now sock = ground arith

pub close_socket-state : (sock : Socket) → (close_socket sock).0.state ≡ closed
unfolding close_socket
close_socket-state sock = refl

pub send_reset_close_socket-state :
    (now : ℕ) (sock : Socket) → (send_reset_close_socket now sock).0.state ≡ closed
unfolding send_reset_close_socket
send_reset_close_socket-state now sock =
    tcp_build_and_send_sequence-state now (record (drop_unsent sock) { state = closed }) rst_flags

pub notify_close-state : (sock : Socket) → (notify_close sock).0.state ≡ sock.state
notify_close-state sock = ground arith

pub notify_recv-state :
    (octets : List ℕ) (sock : Socket) → (notify_recv octets sock).0.state ≡ sock.state
notify_recv-state octets sock = ground arith

send_from-state :
    (now : ℕ) (sock : Socket) (queue : List (List ℕ))
    → sock.awaiting_send ≡ queue
    → (send_next now sock).0.state ≡ sock.state
send_from-state now sock [] e = rw e refl
send_from-state now sock (nb ∷ rest) e =
    rw e (tcp_send_netbuf_now-state now (record sock { awaiting_send = rest }) nb)

pub send_next-state : (now : ℕ) (sock : Socket) → (send_next now sock).0.state ≡ sock.state
send_next-state now sock = send_from-state now sock sock.awaiting_send refl

pub settle-state : (sock : Socket) → (settle sock).state ≡ sock.state
settle-state sock = ground arith

-- A part of a handler that leaves the state alone.
abbrev pub KeepsState : (Socket → Step) → Type 0
KeepsState f = (sock : Socket) → (f sock).0.state ≡ sock.state

-- A part of a handler that leads from some states to some.
abbrev pub Leads : (State → Bool) → (State → Bool) → (Socket → Step) → Type 0
Leads from to f = (sock : Socket) → from sock.state ≡ true → to (f sock).0.state ≡ true

pub keeps-Leads : (p : State → Bool) (f : Socket → Step) → KeepsState f → Leads p p f
keeps-Leads p f keeps sock h = ap p (keeps sock) ∙ h

pub >>-Leads :
    (p q r : State → Bool) (f g : Socket → Step)
    → Leads p q f
    → Leads q r g
    → Leads p r (λ s. f s >> g)
>>-Leads p q r f g first second sock h = second (f sock).0 (first sock h)

pub ack-Leads :
    (p : State → Bool) (now : ℕ) (flags : Flags)
    → Leads p p (λ s. tcp_build_and_send_sequence now s flags)
ack-Leads p now flags =
    keeps-Leads p (λ s. tcp_build_and_send_sequence now s flags)
      (λ s. tcp_build_and_send_sequence-state now s flags)

pub check_segment-Leads :
    (p q : State → Bool) (now : ℕ) (lost : Socket → Step) (seg : Segment) (rest : Socket → Step)
    → ((s : State) → p s ≡ true → q s ≡ true)
    → q closed ≡ true
    → KeepsState lost
    → Leads p q rest
    → Leads p q (λ sock. check_segment now lost sock seg rest)
check_segment-Leads p q now lost seg rest weaker end keeps rest' sock h =
    let P : Step → Type 0 = λ s. q s.0.state ≡ true in
    let acked = weaker sock.state h in
    let closed1 = ap q (keeps (close_socket sock).0 ∙ close_socket-state sock) ∙ end in
    let closed2 =
      ap q (keeps (send_reset_close_socket now sock).0 ∙ send_reset_close_socket-state now sock)
      ∙ end in
    branch P _ _ _ (ack-Leads q now ack_flags sock acked)
      (branch P _ _ _ closed1 (branch P _ _ _ closed2 (branch P _ _ _ acked (rest' sock h))))

pub check_ack-Leads :
    (p m q : State → Bool) (now : ℕ) (seg : Segment) (done rest : Socket → Step)
    → ((s : State) → p s ≡ true → m s ≡ true)
    → ((s : State) → p s ≡ true → q s ≡ true)
    → Leads p m done
    → Leads m q rest
    → Leads p q (check_ack now seg done rest)
check_ack-Leads p m q now seg done rest mid weaker done' rest' sock h =
    let P : Step → Type 0 = λ s. q s.0.state ≡ true in
    let M : Step → Type 0 = λ s. m s.0.state ≡ true in
    let sock1 = record (calc_round_trip now sock) { snd_una = seg.ack } in
    let h1 : p sock1.state ≡ true = ap p (calc_round_trip-state now sock) ∙ h in
    let middle =
      branch M _ _ _ (mid sock.state h) (branch M _ _ _ (done' sock1 h1) (mid sock1.state h1)) in
    branch P _ _ _ (ack-Leads q now ack_flags sock (weaker sock.state h)) (rest' _ middle)

pub recv_data-KeepsState : (now : ℕ) (seg : Segment) → KeepsState (recv_data now seg)
recv_data-KeepsState now seg sock =
    let sock1 = record sock { rcv_nxt = (sock.rcv_nxt + length seg.data_) % 2 ^ 32 } in
    let sent = (tcp_build_and_send_sequence now sock1 ack_flags).0 in
    branch (λ (s : Step). s.0.state ≡ sock.state) _ _ _ refl
      (notify_recv-state seg.data_ sent ∙ tcp_build_and_send_sequence-state now sock1 ack_flags)

pub settle_and_send-KeepsState : (now : ℕ) → KeepsState (settle_and_send now)
settle_and_send-KeepsState now sock =
    branch (λ (s : Step). s.0.state ≡ sock.state) _ _ _ (send_next-state now (stop_timing sock))
      refl
