-- ===== src/Ppp.antt =====
-- The link and its clients, src/lib/ppp/ppp.c: what arrives is a packet of the control protocol, a
-- packet for a client, or one of a protocol that is rejected.
pub mod Clients
pub mod Runs
pub mod Delivery
pub mod Reject
mod Tests
use liquorice.Base.{
  ℕ, ◌+◌, ◌-◌, ◌*◌, ◌/◌, ◌%◌, ◌^◌, Bool, true, false, Option, none, some, List, [], ◌∷◌, ◌++◌, ltb,
  ◌==◌, if◌then◌else◌,
}
use liquorice.Octets.{read16, slice, octets16}
use liquorice.Ahdlc.{Netbuf}
use liquorice.Control
use liquorice.Control.{Control, Effect, sent, Buffer, null, released, handle_event}
use liquorice.Control.Replies.{usage_rej}
use liquorice.Lcp.Instance.{Client, Link, lcp, default_options, implement_options}
use liquorice.Lcp.{Answer, recv_lcp}

-- The walk to the client of a protocol.
pub find_client : ℕ → List Client → Option Client
find_client protocol [] = none
find_client protocol (pc ∷ clients) =
    if pc.protocol == protocol then some pc else find_client protocol clients

abbrev pub lcp_protocol : ℕ
lcp_protocol = 0xc021

-- The protocol-reject of a packet of `size` octets from `at` on.
pub protocol_reject : (ℕ → ℕ) → ℕ → ℕ → ℕ → Link → List ℕ
protocol_reject mem protocol at size pi =
    let len = size % 2 ^ 16 in
    let len' = if ltb pi.mru (len + 16) then (pi.mru + 2 ^ 16 - 16) % 2 ^ 16 else len in
    8 ∷ mem (at + 1) ∷ (len' + 6) / 2 ^ 8 % 2 ^ 8 ∷ (len' + 6) % 2 ^ 8 ∷ octets16 protocol
    ++ slice mem at len'

-- What becomes of a packet beside the effects: it goes to a client, with the size of its data, or not.
abbrev pub Receipt : Type 0
Receipt = Answer × Option (Client × ℕ)

-- The end of `ppp_recv_netbuf()`, with the client that the walk has found.
pub deliver : (ℕ → ℕ) → ℕ → ℕ → Control Link → Option Client → Receipt
deliver mem protocol size c (some pc) = ((c, []), some (pc, size))
deliver mem protocol size c none = (
  (record c { send = released }, sent (protocol_reject mem protocol 2 size c.options) ∷ []),
  none,
)

-- `ppp_recv_netbuf()` of a packet of `size` octets in `mem`, its protocol first.
pub recv_netbuf : (ℕ → ℕ) → (ℕ → ℕ) → ℕ → Control Link → Receipt
recv_netbuf stack mem size c =
    let rest = (size + 2 ^ 32 - 2) % 2 ^ 32 in
    let protocol = read16 mem 0 in
    if protocol == lcp_protocol
    then (recv_lcp stack (λ i. mem (i + 2)) rest c, none)
    else deliver mem protocol rest c (find_client protocol c.options.client_list)

-- `ppp_send_netbuf()` of the server of a protocol, and `lcp_send_netbuf()`: the frame that goes out.
pub ppp_send_netbuf : ℕ → Netbuf → Netbuf
ppp_send_netbuf protocol nb = record nb { datalink = octets16 protocol }

pub lcp_send_netbuf : Netbuf → Netbuf
lcp_send_netbuf nb = record nb { datalink = octets16 lcp_protocol }

-- `ppp_client_attach()`, with the server that is allocated, if the protocol has no client yet.
pub attach_found : Client → ℕ → List Client → Option Client → List Client × Option ℕ
attach_found pc server clients (some p) = (clients, none)
attach_found pc server clients none = (record pc { server = server } ∷ clients, some server)

pub client_attach : Client → ℕ → List Client → List Client × Option ℕ
unfolding find_client attach_found
client_attach pc server clients = attach_found pc server clients (find_client pc.protocol clients)

-- `ppp_client_detach()`
pub client_detach : ℕ → List Client → List Client
client_detach server [] = []
client_detach server (pc ∷ clients) =
    if pc.server == server then clients else pc ∷ client_detach server clients

-- `ppp_instance_alloc()`. The restart counter is what the memory held.
pub instance_alloc : ℕ → Link → Answer
instance_alloc garbage memory =
    let pi = default_options (record memory { client_list = [] }) in
    let fresh : Control Link = record {
      phase = Control.phase_dead;
      state = Control.state_initial;
      ident = 0;
      is_attached = false;
      ticks_left = 0;
      restart_counter = garbage;
      send = null;
      options = pi;
    } in
    let (c, effects) =
      Control.then_do (handle_event lcp Control.event_up) (handle_event lcp Control.event_open)
        fresh in
    (c, implement_options pi ++ effects)
