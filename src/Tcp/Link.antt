-- ===== src/Tcp/Link.antt =====
-- Two connected sockets of src/lib/tcp/tcp.c, and the segments between them.
use liquorice.Base.{ℕ, ◌≡◌, false, List, [], ◌∷◌, ◌++◌}
use liquorice.Tcp.Socket.{Segment, Socket, Event, Step}
use liquorice.Tcp.Socket.State.{established}
use liquorice.Tcp.Socket.Event.{sent}
use liquorice.Tcp.Machine.{tcp_recv_state_machine}

-- The segments that are sent.
abbrev pub segments : List Event → List Segment
segments [] = []
segments (sent dest seg ∷ events) = seg ∷ segments events
segments (_ ∷ events) = segments events

-- The sockets of a connection that is established, with nothing on the way from the first to the second.
abbrev pub IsLinked : Socket → Socket → Type 0
IsLinked a b =
    ((a.state ≡ established) × (b.state ≡ established))
    × (((a.snd_nxt ≡ b.rcv_nxt) × (a.snd_una ≡ a.snd_nxt))
        × ((a.retrans_timing ≡ false) × (a.awaiting_send ≡ [])))

-- One socket receives the segments of a step.
abbrev pub recv_all : ℕ → ℕ → Socket → List Segment → Step
recv_all now addr sock [] = (sock, [])
recv_all now addr sock (seg ∷ segs) =
    let first = tcp_recv_state_machine now sock addr seg in
    let rest = recv_all now addr first.0 segs in (rest.0, first.1 ++ rest.1)
