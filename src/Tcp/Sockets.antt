-- ===== src/Tcp/Sockets.antt =====
-- The list of sockets of src/lib/tcp/tcp.c: how a socket is attached and detached, and which one a segment goes to.
use liquorice.Base.{
  ℕ, ◌+◌, ◌-◌, zero, suc, Bool, true, false, not, ◌&&◌, ◌||◌, Option, some, none, List, [], ◌∷◌,
  ◌==◌, ltb, leb, if◌then◌else◌,
}
use liquorice.Octets.{read16}
use liquorice.Tcp.Socket.{State, Segment, Socket, Event, Step}
use liquorice.Tcp.Socket.State.{listen, syn_received, established, fin_wait1, fin_wait2, close_wait}
use liquorice.Tcp.Socket.Event.{detached}
use liquorice.Tcp.Send.{close_socket, send_reset_close_socket}
use liquorice.Tcp.Machine.{tcp_recv_state_machine}

-- A socket of the list `ti_socks`, with its address.
pub record Attached : Type 0 where
  pub at : ℕ
  pub sock : Socket

abbrev pub is_listen : State → Bool
is_listen listen = true
is_listen _ = false

-- The clash that `tcp_socket_attach()` looks for.
abbrev pub is_clash : Socket → Socket → Bool
is_clash sock ts =
    (ts.local_port == sock.local_port)
    && (if is_listen sock.state
        then is_listen ts.state
        else not (is_listen ts.state)
          && ((ts.remote_addr == sock.remote_addr) && (ts.remote_port == sock.remote_port)))

abbrev pub has_clash : Socket → List Attached → Bool
has_clash sock [] = false
has_clash sock (a ∷ rest) = is_clash sock a.sock || has_clash sock rest

-- `tcp_socket_attach()`
unfoldable pub tcp_socket_attach : ℕ → Socket → List Attached → List Attached
tcp_socket_attach at sock socks =
    if has_clash sock socks then socks else record { at = at; sock = sock } ∷ socks

-- `tcp_socket_detach()`
unfoldable pub tcp_socket_detach : ℕ → List Attached → List Attached
tcp_socket_detach at [] = []
tcp_socket_detach at (a ∷ rest) = if a.at == at then rest else a ∷ tcp_socket_detach at rest

-- The search of `tcp_recv_netbuf()`, with the listener that it has met.
unfoldable pub find_socket : Segment → ℕ → Option Attached → List Attached → Option Attached
find_socket seg src_addr listener [] = listener
find_socket seg src_addr listener (a ∷ rest) =
    if not (a.sock.local_port == seg.dest_port)
    then find_socket seg src_addr listener rest
    else if is_listen a.sock.state
    then find_socket seg src_addr (some a) rest
    else if (a.sock.remote_addr == src_addr) && (a.sock.remote_port == seg.src_port)
    then some a
    else find_socket seg src_addr listener rest

-- `tcp_recv_options()`, with the octets that are left for its fuel.
unfoldable pub tcp_recv_options : ℕ → (ℕ → ℕ) → ℕ → ℕ → Socket → Socket
tcp_recv_options zero mem p size ts = ts
tcp_recv_options (suc fuel) mem p size ts =
    let optsz = mem (p + 1) in
    let ts1 =
      if (mem p == 2) && (optsz == 2) then record ts { remote_mss = read16 mem (p + 2) } else ts in
    if (size == 0) || (mem p == 0)
    then ts
    else if mem p == 1
    then tcp_recv_options fuel mem (p + 1) (size - 1) ts
    else if (size == 1) || (ltb optsz 2 || ltb size optsz)
    then ts
    else tcp_recv_options fuel mem (p + optsz) (size - optsz) ts1

-- A step of the socket at an address, with its removal.
abbrev pub put : ℕ → Socket → List Attached → List Attached
put at sock [] = []
put at sock (a ∷ rest) =
    if a.at == at then record a { sock = sock } ∷ rest else a ∷ put at sock rest

abbrev pub is_detached : List Event → Bool
is_detached [] = false
is_detached (detached ∷ events) = true
is_detached (_ ∷ events) = is_detached events

abbrev pub settled : ℕ → List Attached → Step → List Attached × List Event
settled at socks m =
    let socks1 = put at m.0 socks in
    (if is_detached m.1 then tcp_socket_detach at socks1 else socks1, m.1)

-- The end of `tcp_recv_netbuf()`, with the socket that its search found.
abbrev pub recv_found :
    ℕ
    → ℕ
    → Segment
    → (ℕ → ℕ)
    → ℕ
    → ℕ
    → List Attached
    → Option Attached
    → Option (List Attached × List Event)
recv_found now src_addr seg mem p size socks none = none
recv_found now src_addr seg mem p size socks (some a) = some (
    settled a.at socks
      (tcp_recv_state_machine now (tcp_recv_options size mem p size a.sock) src_addr seg))

-- `tcp_recv_netbuf()` of a segment whose checksum is right, with its options of `size` octets in memory; nothing
-- where it sends a port unreachable message.
unfoldable pub tcp_recv_netbuf :
    ℕ → ℕ → Segment → (ℕ → ℕ) → ℕ → ℕ → List Attached → Option (List Attached × List Event)
tcp_recv_netbuf now src_addr seg mem p size socks =
    recv_found now src_addr seg mem p size socks (find_socket seg src_addr none socks)

-- The connections that `tcp_recv_netbuf_icmp()` resets.
abbrev pub is_reset : State → Bool
is_reset syn_received = true
is_reset established = true
is_reset fin_wait1 = true
is_reset fin_wait2 = true
is_reset close_wait = true
is_reset _ = false

-- The search of `tcp_recv_netbuf_icmp()`, by the header that the message quotes.
abbrev pub find_quoted : Segment → ℕ → List Attached → Option Attached
find_quoted seg src_addr [] = none
find_quoted seg src_addr (a ∷ rest) =
    if (a.sock.local_port == seg.dest_port)
      && ((a.sock.remote_addr == src_addr) && (a.sock.remote_port == seg.src_port))
    then some a
    else find_quoted seg src_addr rest

-- `tcp_recv_netbuf_icmp()` of a message's type, code, and the header and source address that it quotes.
unfoldable pub tcp_recv_netbuf_icmp :
    ℕ → ℕ → ℕ → Segment → ℕ → List Attached → List Attached × List Event
tcp_recv_netbuf_icmp now type_ code seg src_addr socks =
    if not (type_ == 4) then (socks, []) else elim (find_quoted seg src_addr socks) [
      | none ↦ (socks, [])
      | some a ↦
          if leb 2 code && leb code 4
          then settled a.at socks (
              if is_reset a.sock.state
              then send_reset_close_socket now a.sock
              else close_socket a.sock)
          else (socks, [])
    ]
