-- ===== src/Tcp/Transfer.antt =====
-- Data from one established socket of src/lib/tcp/tcp.c to another, and its acknowledgement.
use liquorice.Base.{
  ℕ, ◌+◌, ◌/◌, ◌%◌, ◌^◌, ◌≡◌, refl, ap, ◌∙◌, true, false, not, some, List, [], ◌∷◌, length, ltb,
  leb, ◌==◌, branch, if_then, if_else, ap₂, ◌||◌, arith,
}
use liquorice.Tcp.Socket.{Segment, TcpClient, Socket, Step, ◌>>◌, quiet, tick_rate}
use liquorice.Tcp.Socket.Event.{recv}
use liquorice.Tcp.Send.{
  is_established, stop_timing, ack_flags, build_netbuf, cap_rto, tcp_build_and_send_sequence,
  calc_round_trip,
}
use liquorice.Tcp.Machine.{
  recv_established, check_segment, check_ack, recv_data, notify_recv, notify_close, send_next,
  settle_and_send, established_fin,
}

pub ==_refl : (n : ℕ) → (n == n) ≡ true
==_refl n = ground arith

pub ltb_irrefl : (n : ℕ) → ltb n n ≡ false
ltb_irrefl n = ground arith

pub leb_refl : (n : ℕ) → leb n n ≡ true
leb_refl n = ground arith

-- What the estimate of the round trip changes.
abbrev pub timed : Socket → Socket → Socket
timed sock s = record sock {
  rto_next = s.rto_next;
  srtt_avg = s.srtt_avg;
  srtt_var = s.srtt_var;
  acked = s.acked;
}

pub calc_round_trip-timed :
    (now : ℕ) (sock : Socket) → calc_round_trip now sock ≡ timed sock (calc_round_trip now sock)
unfolding calc_round_trip
calc_round_trip-timed now sock =
    branch (λ (s : Socket). s ≡ timed sock s) sock.acked _ _ refl
      (branch (λ (s : Socket). cap_rto s ≡ timed sock (cap_rto s)) (not (sock.retransmits == 0)) _ _
        refl
        (branch (λ (s : Socket). cap_rto s ≡ timed sock (cap_rto s)) (sock.srtt_avg == 0) _ _ refl
          refl))

-- The tests of a segment and of its acknowledgement, where they pass.
pub check_segment-pass :
    (now : ℕ) (lost : Socket → Step) (sock : Socket) (seg : Segment) (rest : Socket → Step)
    → (seg.sequence == sock.rcv_nxt) ≡ true
    → seg.flags.rst ≡ false
    → seg.flags.syn ≡ false
    → seg.flags.ack ≡ true
    → check_segment now lost sock seg rest ≡ rest sock
check_segment-pass now lost sock seg rest e r s a = ground arith

pub check_ack-all :
    (now : ℕ) (seg : Segment) (done rest : Socket → Step) (sock : Socket)
    → ltb sock.snd_nxt seg.ack ≡ false
    → leb sock.snd_una seg.ack ≡ true
    → (seg.ack == sock.snd_nxt) ≡ true
    → check_ack now seg done rest sock
      ≡ (done (record (calc_round_trip now sock) { snd_una = seg.ack }) >> rest)
check_ack-all now seg done rest sock l u e =
    let sock1 = record (calc_round_trip now sock) { snd_una = seg.ack } in
    if_else (ltb sock.snd_nxt seg.ack) _ _ l
    ∙ ap (λ (m : Step). m >> rest)
        (if_else (not (leb sock.snd_una seg.ack)) (quiet sock) _ (ap not u)
          ∙ if_then (seg.ack == sock.snd_nxt) (done sock1) (quiet sock1) e)

-- An acknowledgement alone is deferred.
build-deferred :
    (now : ℕ) (sock : Socket)
    → is_established sock.state ≡ true
    → sock.is_deferred ≡ false
    → tcp_build_and_send_sequence now sock ack_flags ≡ (
      record sock {
        is_deferred = true;
        deferred_ack = build_netbuf sock ack_flags [];
        deferred_timer = some (tick_rate / 5);
      },
      [],
    )
unfolding tcp_build_and_send_sequence
build-deferred now sock e d =
    if_else (sock.is_deferred || not (is_established sock.state)) _ _ (ap₂ (λ b c. b || not c) d e)

recv_data-some :
    (now : ℕ) (seg : Segment) (sock : Socket)
    → (length seg.data_ == 0) ≡ false
    → recv_data now seg sock ≡ (
        tcp_build_and_send_sequence now
          (record sock { rcv_nxt = (sock.rcv_nxt + length seg.data_) % 2 ^ 32 })
          ack_flags
        >> notify_recv seg.data_)
recv_data-some now seg sock e = if_else (length seg.data_ == 0) (quiet sock) _ e

notify_recv-some :
    (octets : List ℕ) (sock : Socket) (tc : TcpClient)
    → sock.client ≡ some tc
    → notify_recv octets sock ≡ (sock, recv tc octets ∷ [])
notify_recv-some octets sock tc e = rw e refl

send_next-empty :
    (now : ℕ) (sock : Socket) → sock.awaiting_send ≡ [] → send_next now sock ≡ quiet sock
send_next-empty now sock e = rw e refl

-- The socket once the data of a segment is taken.
abbrev pub taken : Socket → List ℕ → Socket
taken sock octets = record sock {
  rcv_nxt = (sock.rcv_nxt + length octets) % 2 ^ 32;
  is_deferred = true;
  deferred_ack = build_netbuf sock ack_flags [];
  deferred_timer = some (tick_rate / 5);
}

recv_data-taken :
    (now : ℕ) (seg : Segment) (sock : Socket) (tc : TcpClient)
    → is_established sock.state ≡ true
    → sock.is_deferred ≡ false
    → sock.client ≡ some tc
    → (length seg.data_ == 0) ≡ false
    → seg.flags.fin ≡ false
    → (recv_data now seg sock >> established_fin now seg)
      ≡ (taken sock seg.data_, recv tc seg.data_ ∷ [])
recv_data-taken now seg sock tc e d c n f =
    let sock1 = record sock { rcv_nxt = (sock.rcv_nxt + length seg.data_) % 2 ^ 32 } in
    let got : recv_data now seg sock ≡ (taken sock seg.data_, recv tc seg.data_ ∷ []) =
      recv_data-some now seg sock n
      ∙ ap (λ (m : Step). m >> notify_recv seg.data_) (build-deferred now sock1 e d)
      ∙ notify_recv-some seg.data_ (taken sock seg.data_) tc c in
    ap (λ (m : Step). m >> established_fin now seg) got
    ∙ ap (λ (m : Step). (m.0, recv tc seg.data_ ∷ m.1))
        (if_then (not seg.flags.fin) (quiet (taken sock seg.data_)) _ (ap not f))

-- A segment of an established connection that is in order and acknowledges everything that was sent.
pub record Fits (sock : Socket) (seg : Segment) : Type 0 where
  pub is_est : is_established sock.state ≡ true
  pub in_order : (seg.sequence == sock.rcv_nxt) ≡ true
  pub rst : seg.flags.rst ≡ false
  pub syn : seg.flags.syn ≡ false
  pub ack : seg.flags.ack ≡ true
  pub fin : seg.flags.fin ≡ false
  pub sent_before : ltb sock.snd_nxt seg.ack ≡ false
  pub not_before : leb sock.snd_una seg.ack ≡ true
  pub all_sent : (seg.ack == sock.snd_nxt) ≡ true

abbrev pub acknowledged : ℕ → Socket → Segment → Socket
acknowledged now sock seg = record (calc_round_trip now sock) { snd_una = seg.ack }

recv_established-Fits :
    (now : ℕ) (sock : Socket) (seg : Segment)
    → Fits sock seg
    → recv_established now sock seg ≡ (
        settle_and_send now (acknowledged now sock seg) >> λ s.
        recv_data now seg s >> established_fin now seg)
unfolding recv_established
recv_established-Fits now sock seg fits =
    let rest : Socket → Step = λ s. recv_data now seg s >> established_fin now seg in
    check_segment-pass now notify_close sock seg (check_ack now seg (settle_and_send now) rest)
      fits.in_order fits.rst fits.syn fits.ack
    ∙ check_ack-all now seg (settle_and_send now) rest sock fits.sent_before fits.not_before
        fits.all_sent

-- Data in order is handed to the client.
pub recv_established-data :
    (now : ℕ) (sock : Socket) (seg : Segment) (tc : TcpClient)
    → Fits sock seg
    → sock.retrans_timing ≡ false
    → sock.is_deferred ≡ false
    → sock.client ≡ some tc
    → (length seg.data_ == 0) ≡ false
    → recv_established now sock seg
      ≡ (taken (acknowledged now sock seg) seg.data_, recv tc seg.data_ ∷ [])
recv_established-data now sock seg tc fits t d c n =
    let timed_ = calc_round_trip-timed now sock in
    let s = acknowledged now sock seg in
    recv_established-Fits now sock seg fits
    ∙ ap (λ (m : Step). m >> λ s. recv_data now seg s >> established_fin now seg)
        (if_else s.retrans_timing _ (quiet s) (ap (λ (x : Socket). x.retrans_timing) timed_ ∙ t))
    ∙ recv_data-taken now seg s tc
        (ap (λ (x : Socket). is_established x.state) timed_ ∙ fits.is_est)
        (ap (λ (x : Socket). x.is_deferred) timed_ ∙ d) (ap (λ (x : Socket). x.client) timed_ ∙ c) n
        fits.fin

-- An acknowledgement of everything stops the timer.
pub recv_established-ack :
    (now : ℕ) (sock : Socket) (seg : Segment)
    → Fits sock seg
    → sock.retrans_timing ≡ true
    → sock.awaiting_send ≡ []
    → (length seg.data_ == 0) ≡ true
    → recv_established now sock seg ≡ quiet (stop_timing (acknowledged now sock seg))
recv_established-ack now sock seg fits t a n =
    let timed_ = calc_round_trip-timed now sock in
    let s = acknowledged now sock seg in
    recv_established-Fits now sock seg fits
    ∙ ap (λ (m : Step). m >> λ s. recv_data now seg s >> established_fin now seg)
        (if_then s.retrans_timing (send_next now (stop_timing s)) _
            (ap (λ (x : Socket). x.retrans_timing) timed_ ∙ t)
          ∙ send_next-empty now (stop_timing s) (ap (λ (x : Socket). x.awaiting_send) timed_ ∙ a))
    ∙ ap (λ (m : Step). m >> established_fin now seg) (if_then (length seg.data_ == 0) _ _ n)
    ∙ if_then (not seg.flags.fin) (quiet (stop_timing s)) _ (ap not fits.fin)
