-- ===== src/Tcp/Handshake.antt =====
-- How two sockets of src/lib/tcp/tcp.c connect, each on its host.
use liquorice.Octets.{octets16, memory}
use liquorice.Base.{
  sym, ap, ◌∙◌, subst, ◌==◌, if◌then◌else◌, length, arith, ℕ, ◌≡◌, refl, true, false, Option, some,
  none, List, [], ◌∷◌, ◌++◌, ◌>>=◌,
}
use liquorice.Tcp.Socket.{Segment, TcpClient, Socket, Event, Step, tcp_socket_alloc}
use liquorice.Tcp.Socket.State.{syn_received}
use liquorice.Tcp.Socket.Event.{sent}
use liquorice.Tcp.Send.{
  complete_header, build_netbuf, syn_flags, syn_ack_flags, tcp_build_and_send_sequence,
  calc_round_trip,
}
use liquorice.Tcp.Machine.{
  pending_of, tcp_recv_state_machine, recv_listen, recv_syn_sent, recv_syn_received,
}
use liquorice.Tcp.Sockets.{
  is_detached, Attached, put, find_socket, tcp_recv_options, tcp_socket_attach, tcp_recv_netbuf,
}
use liquorice.Tcp.Calls.{waiting_socket, tcp_listen, tcp_connect, tcp_accept, tcp_tick_deferred_ack}
use liquorice.Tcp.Link.{IsLinked}

-- The octets of the options that `build_netbuf()` puts in a segment: the MSS, with a SYN.
abbrev pub options_of : ℕ → Segment → List ℕ
options_of mss seg = if seg.flags.syn then 2 ∷ 4 ∷ octets16 mss else []

-- The sockets behind what became of a segment, as they were where it was answered with a port unreachable message.
abbrev pub taken : List Attached → Option (List Attached × List Event) → List Attached × List Event
taken socks none = (socks, [])
taken socks (some r) = r

abbrev pub arrive : ℕ → ℕ → ℕ → List Attached → Segment → List Attached × List Event
arrive now mss src socks seg =
    let octets = options_of mss seg in
    taken socks (tcp_recv_netbuf now src seg (memory octets) 0 (length octets) socks)

-- The host with the address `own` receives what the host `src` sends to it, and nothing that goes elsewhere.
abbrev pub deliver : ℕ → ℕ → ℕ → ℕ → List Attached → List Event → List Attached × List Event
deliver now mss own src socks [] = (socks, [])
deliver now mss own src socks (sent dest seg ∷ events) =
    let first = if dest == own then arrive now mss src socks seg else (socks, []) in
    let rest = deliver now mss own src first.0 events in (rest.0, first.1 ++ rest.1)
deliver now mss own src socks (_ ∷ events) = deliver now mss own src socks events

abbrev pub socket_at : ℕ → List Attached → Option Socket
socket_at at [] = none
socket_at at (a ∷ rest) = if a.at == at then some a.sock else socket_at at rest

-- A connection that waits at the listener is accepted, and its socket attached at an address.
abbrev pub accept_at :
    ℕ → ℕ → ℕ → Socket → TcpClient → List Attached → Option (List Attached × List Event)
accept_at now listener at ms ts socks = do
  l ← socket_at listener socks
  let r = tcp_accept ms now l ts
  s ← r.1
  some (tcp_socket_attach at s.0 (put listener r.0 socks), s.1)

-- A host with the address `ha` connects, from the port `p`, to the port `q` of the host `hb`, where a new socket
-- listens, whose owner accepts. What a host sends goes to the host of that address, where it finds its socket by its
-- ports. The client's last acknowledgement goes out by its timer. `mc`, `ml` and `ms` are what the memory of the
-- sockets at `i`, `j` and `k` held, and every step has its time.
module _ (mc ml ms : Socket) (i j k t1 t2 t3 t4 t5 mss ha hb p q : ℕ) (tc tl ts : TcpClient) where
  abbrev pub handshake : Option (Socket × Socket)
  handshake = do
    let c = tcp_connect mc t1 p hb q tc
    let l = deliver t2 mss hb ha (tcp_socket_attach j (tcp_listen ml q tl) []) c.1
    s ← accept_at t3 j k ms ts l.0
    let c1 = deliver t4 mss ha hb (tcp_socket_attach i c.0 []) s.1
    ci ← socket_at i c1.0
    let c2 = tcp_tick_deferred_ack ci
    let s1 = deliver t5 mss hb ha s.0 c2.1
    sk ← socket_at k s1.0
    some (c2.0, sk)

  -- Both sockets there, each linked to the other, with its ports and address, and with its client.
  abbrev pub AreLinked : Option (Socket × Socket) → Type 0
  AreLinked none = true ≡ false
  AreLinked (some (a, b)) =
      (IsLinked a b × IsLinked b a)
      × (((a.local_port ≡ p)
            × ((a.remote_port ≡ q) × ((a.remote_addr ≡ hb) × (a.client ≡ some tc))))
          × ((b.local_port ≡ q)
              × ((b.remote_port ≡ p) × ((b.remote_addr ≡ ha) × (b.client ≡ some ts)))))

  same : (n : ℕ) → (n == n) ≡ true
  same n = ground arith

  -- The socket that a segment belongs to takes it, with its options.
  heard : ℕ → ℕ → Socket → Segment → Step
  heard now src sock seg =
      let octets = options_of mss seg in
      tcp_recv_state_machine now
        (tcp_recv_options (length octets) (memory octets) 0 (length octets) sock) src seg

  deliver-found :
      (now own src at : ℕ) (sock : Socket) (seg : Segment) (rest : List Attached)
      → let socks = record { at = at; sock = sock } ∷ rest in
        find_socket seg src none socks ≡ some (record { at = at; sock = sock })
        → is_detached (heard now src sock seg).1 ≡ false
        → (deliver now mss own src socks (sent own seg ∷ [])).0
          ≡ record { at = at; sock = (heard now src sock seg).0 } ∷ rest
  unfolding tcp_recv_netbuf heard
  deliver-found now own src at sock seg rest found stays = rw (same own, found, stays, same at) refl

  client : Socket
  client = (tcp_connect mc t1 p hb q tc).0

  -- The header that the client's first segment has, and the one that answers it.
  syn : Segment
  syn = complete_header client (build_netbuf (tcp_socket_alloc mc) syn_flags [])

  waiting : Socket
  waiting = (heard t2 ha (tcp_listen ml q tl) syn).0

  reaches_listener :
      (deliver t2 mss hb ha
        (tcp_socket_attach j (tcp_listen ml q tl) [])
        (tcp_connect mc t1 p hb q tc).1).0
      ≡ record { at = j; sock = waiting } ∷ []
  unfolding heard client syn waiting tcp_connect tcp_listen tcp_recv_state_machine recv_listen
      find_socket tcp_build_and_send_sequence tcp_socket_alloc tcp_recv_options tcp_socket_attach
  reaches_listener = deliver-found t2 hb ha j (tcp_listen ml q tl) syn [] (rw (same q) refl) refl

  accepted : Step
  accepted =
      tcp_build_and_send_sequence t3
        (record (waiting_socket ms (tcp_listen ml q tl) (pending_of (tcp_listen ml q tl) ha syn)) {
          state = syn_received;
          client = some ts;
        })
        syn_ack_flags

  accepts :
      accept_at t3 j k ms ts (record { at = j; sock = waiting } ∷ [])
      ≡ some (
        record { at = k; sock = accepted.0 } ∷ record { at = j; sock = tcp_listen ml q tl } ∷ [],
        accepted.1,
      )
  unfolding heard client syn waiting accepted tcp_connect tcp_listen tcp_accept
      tcp_recv_state_machine recv_listen tcp_build_and_send_sequence tcp_socket_alloc
      tcp_recv_options tcp_socket_attach
  accepts = rw (same j, same q) refl

  syn_ack : Segment
  syn_ack = complete_header accepted.0 (
      build_netbuf (waiting_socket ms (tcp_listen ml q tl) (pending_of (tcp_listen ml q tl) ha syn))
        syn_ack_flags [])

  opened : Socket
  opened = (heard t4 hb client syn_ack).0

  reaches_client :
      (deliver t4 mss ha hb (tcp_socket_attach i client []) accepted.1).0
      ≡ record { at = i; sock = opened } ∷ []
  unfolding heard client syn accepted syn_ack opened tcp_connect tcp_listen tcp_recv_state_machine
      recv_syn_sent find_socket tcp_build_and_send_sequence tcp_socket_alloc tcp_recv_options
      tcp_socket_attach calc_round_trip
  reaches_client =
      deliver-found t4 ha hb i client syn_ack [] (rw (same p, same hb, same q) refl) refl

  acked : Step
  acked = tcp_tick_deferred_ack opened

  -- The header of the acknowledgement that the timer sends.
  last_ack_sent : Segment
  last_ack_sent = complete_header opened opened.deferred_ack

  served : Socket
  served = (heard t5 ha accepted.0 last_ack_sent).0

  reaches_server :
      (deliver t5 mss hb ha
        (record { at = k; sock = accepted.0 } ∷ record { at = j; sock = tcp_listen ml q tl } ∷ [])
        acked.1).0
      ≡ record { at = k; sock = served } ∷ record { at = j; sock = tcp_listen ml q tl } ∷ []
  unfolding heard client syn accepted syn_ack opened acked last_ack_sent served tcp_connect
      tcp_listen tcp_tick_deferred_ack tcp_recv_state_machine recv_syn_sent recv_syn_received
      find_socket tcp_build_and_send_sequence tcp_socket_alloc tcp_recv_options calc_round_trip
  reaches_server =
      deliver-found t5 hb ha k accepted.0 last_ack_sent
        (record { at = j; sock = tcp_listen ml q tl } ∷ []) (rw (same q, same ha, same p) refl) refl

  handshake-opened : handshake ≡ some (acked.0, served)
  unfolding acked client
  handshake-opened =
      let third : List Attached → Option (Socket × Socket) =
        λ socks. (socket_at k socks >>= λ sk. some (acked.0, sk)) in
      let servers =
        record { at = k; sock = accepted.0 } ∷ record { at = j; sock = tcp_listen ml q tl } ∷ [] in
      let second : List Attached → Option (Socket × Socket) = λ socks.
        (socket_at i socks >>= λ ci.
        socket_at k (deliver t5 mss hb ha servers (tcp_tick_deferred_ack ci).1).0 >>= λ sk.
        some ((tcp_tick_deferred_ack ci).0, sk)) in
      let after : Option (List Attached × List Event) → Option (Socket × Socket) = λ o.
        (o >>= λ s.
        socket_at i (deliver t4 mss ha hb (tcp_socket_attach i client []) s.1).0 >>= λ ci.
        socket_at k (deliver t5 mss hb ha s.0 (tcp_tick_deferred_ack ci).1).0 >>= λ sk.
        some ((tcp_tick_deferred_ack ci).0, sk)) in
      let found : second (record { at = i; sock = opened } ∷ [])
          ≡ third (deliver t5 mss hb ha servers acked.1).0 =
        rw (same i) refl in
      let both : third
            (record { at = k; sock = served } ∷ record { at = j; sock = tcp_listen ml q tl } ∷ [])
          ≡ some (acked.0, served) =
        rw (same k) refl in
      ap (λ socks. after (accept_at t3 j k ms ts socks)) reaches_listener
      ∙ ap after accepts
      ∙ ap second reaches_client
      ∙ found
      ∙ ap third reaches_server
      ∙ both

  -- When a new socket connects to a new listener, whose owner accepts, where the hosts have no other sockets and every
  -- segment arrives, and no other, the three-way handshake ends with both sockets established, each with its client
  -- and bound to the ports and the address of the other, expecting the number that the other sends next, with nothing
  -- unacknowledged.
  pub tcp_connect-tcp_accept : AreLinked handshake
  unfolding heard client syn accepted syn_ack opened acked last_ack_sent served tcp_connect
      tcp_listen tcp_tick_deferred_ack tcp_recv_state_machine recv_syn_sent recv_syn_received
      tcp_build_and_send_sequence tcp_socket_alloc tcp_recv_options calc_round_trip
  tcp_connect-tcp_accept = subst AreLinked (sym handshake-opened) (
    (((refl, refl), ((refl, refl), (refl, refl))), ((refl, refl), ((refl, refl), (refl, refl)))),
    ((refl, (refl, (refl, refl))), (refl, (refl, (refl, refl)))),
  )
