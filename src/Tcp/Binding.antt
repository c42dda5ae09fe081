-- ===== src/Tcp/Binding.antt =====
-- The ports and addresses of a socket of src/lib/tcp/tcp.c, which no part of the connected states changes.
use liquorice.Base.{
  ℕ, ◌≡◌, refl, ◌∙◌, true, not, ◌||◌, some, List, [], ◌∷◌, if◌then◌else◌, branch, ◌/◌, arith,
}
use liquorice.Tcp.Socket.{Flags, Built, Socket, Event, Step, ◌>>◌, quiet, tick_rate}
use liquorice.Tcp.Socket.State.{closed}
use liquorice.Tcp.Socket.Event.{detached, signalled}
use liquorice.Tcp.Send.{
  rst_flags, tcp_build_and_send_sequence, tcp_send_netbuf_now, tcp_send_close, stop_timing,
  send_or_defer, drop_deferred, build_netbuf, start_timing, is_established, drop_unsent,
  close_socket, send_reset_close_socket, calc_round_trip,
}
use liquorice.Tcp.Machine.{notify_close, notify_recv, send_next, settle, settle_and_send, signal}

abbrev pub binding : Socket → ℕ × ℕ × ℕ
binding sock = (sock.local_port, sock.remote_port, sock.remote_addr)

-- A step that ends with some binding, and a part of a handler that keeps every one.
unfoldable pub IsBound : ℕ × ℕ × ℕ → Step → Type 0
IsBound k step = binding step.0 ≡ k

abbrev pub Binds : (Socket → Step) → Type 0
Binds f = (k : ℕ × ℕ × ℕ) (sock : Socket) → binding sock ≡ k → IsBound k (f sock)

pub step-IsBound :
    (k : ℕ × ℕ × ℕ) (sock : Socket) (events : List Event)
    → binding sock ≡ k
    → IsBound k (sock, events)
unfolding IsBound
step-IsBound k sock events e = e

pub then-IsBound :
    (k : ℕ × ℕ × ℕ) (step : Step) (f : Socket → Step)
    → IsBound k step
    → Binds f
    → IsBound k (step >> f)
unfolding IsBound
then-IsBound k step f s t = t k step.0 s

pub quiet-IsBound : Binds quiet
quiet-IsBound k sock e = step-IsBound k sock [] e

pub signal-IsBound : Binds signal
signal-IsBound k sock e = step-IsBound k sock (signalled ∷ []) e

pub notify_close-IsBound : Binds notify_close
unfolding IsBound
notify_close-IsBound k sock e = ground arith

pub notify_recv-IsBound : (octets : List ℕ) → Binds (notify_recv octets)
unfolding IsBound
notify_recv-IsBound octets k sock e = ground arith

drop_deferred-binding : (sock : Socket) → binding (drop_deferred sock) ≡ binding sock
drop_deferred-binding sock =
    branch (λ s. binding s ≡ binding sock) sock.is_deferred _ sock refl refl

pub settle-binding : (sock : Socket) → binding (settle sock) ≡ binding sock
settle-binding sock = branch (λ s. binding s ≡ binding sock) sock.retrans_timing _ sock refl refl

pub drop_unsent-binding : (sock : Socket) → binding (drop_unsent sock) ≡ binding sock
drop_unsent-binding sock =
    branch (λ s. binding s ≡ binding sock) sock.retrans_timing _ sock refl refl

pub calc_round_trip-binding :
    (now : ℕ) (sock : Socket) → binding (calc_round_trip now sock) ≡ binding sock
unfolding calc_round_trip
calc_round_trip-binding now sock = ground arith

send_or_defer-IsBound : (flags : Flags) (nb : Built) → Binds (λ sock. send_or_defer sock flags nb)
send_or_defer-IsBound flags nb k sock e =
    let more = (flags.fin || flags.syn) || (flags.rst || flags.psh) in
    let later = record sock {
      is_deferred = true;
      deferred_ack = nb;
      deferred_timer = some (tick_rate / 5);
    } in
    branch (IsBound k) (more || (sock.is_deferred || not (is_established sock.state))) _
      (quiet later) (step-IsBound k (drop_deferred sock) _ (drop_deferred-binding sock ∙ e))
      (quiet-IsBound k later e)

pub build-IsBound :
    (now : ℕ) (flags : Flags) → Binds (λ sock. tcp_build_and_send_sequence now sock flags)
unfolding tcp_build_and_send_sequence
build-IsBound now flags k sock e =
    let nb = build_netbuf sock flags [] in
    let timed = start_timing now sock nb 1 in
    let test = flags.syn || flags.fin in
    send_or_defer-IsBound flags nb k (if test then timed else sock)
      (branch (λ s. binding s ≡ k) test timed sock e e)

pub send_now-IsBound :
    (now : ℕ) (octets : List ℕ) → Binds (λ sock. tcp_send_netbuf_now now sock octets)
unfolding tcp_send_netbuf_now
send_now-IsBound now octets k sock e = step-IsBound k _ _ (drop_deferred-binding sock ∙ e)

pub send_close-IsBound : (now : ℕ) → Binds (tcp_send_close now)
unfolding tcp_send_close
send_close-IsBound now k sock e = step-IsBound k _ _ (drop_deferred-binding sock ∙ e)

pub close_socket-IsBound : Binds close_socket
unfolding close_socket
close_socket-IsBound k sock e = step-IsBound k _ _ (drop_unsent-binding sock ∙ e)

pub reset-IsBound : (now : ℕ) → Binds (send_reset_close_socket now)
unfolding send_reset_close_socket
reset-IsBound now k sock e =
    let s1 = record (drop_unsent sock) { state = closed } in
    then-IsBound k (tcp_build_and_send_sequence now s1 rst_flags)
      (λ s. (s, detached ∷ signalled ∷ []))
      (build-IsBound now rst_flags k s1 (drop_unsent-binding sock ∙ e))
      (λ k1 s e1. step-IsBound k1 s _ e1)

send_from-IsBound :
    (now : ℕ) (sock : Socket) (queue : List (List ℕ)) (k : ℕ × ℕ × ℕ)
    → sock.awaiting_send ≡ queue
    → binding sock ≡ k
    → IsBound k (send_next now sock)
send_from-IsBound now sock [] k q e = rw q (quiet-IsBound k (record sock { awaiting_send = [] }) e)
send_from-IsBound now sock (nb ∷ rest) k q e =
    rw q (send_now-IsBound now nb k (record sock { awaiting_send = rest }) e)

pub settle_and_send-IsBound : (now : ℕ) → Binds (settle_and_send now)
settle_and_send-IsBound now k sock e =
    branch (IsBound k) sock.retrans_timing (send_next now (stop_timing sock)) (quiet sock)
      (send_from-IsBound now (stop_timing sock) sock.awaiting_send k refl e)
      (quiet-IsBound k sock e)
