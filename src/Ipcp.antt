-- ===== src/Ipcp.antt =====
-- The control protocol of IP over PPP, src/lib/ppp_ip/ppp_ip.c, on the automaton of Control: what a
-- received packet makes of the instance, and the instance's other operations.
pub mod Instance
pub mod Parse
pub mod Sound
pub mod Opening
mod Tests
use liquorice.Base.{
  ℕ, zero, suc, ◌+◌, ◌-◌, ◌*◌, ◌/◌, ◌%◌, ◌^◌, ◌≤◌, ◌<◌, ◌≡◌, refl, ap, ◌∙◌, sym, subst, bit_and,
  Bool, true, false, ◌&&◌, ◌||◌, Option, none, some, List, [], ◌∷◌, ◌++◌, length, get_or, ltb, leb,
  ◌==◌, if◌then◌else◌, arith, append-nil, Bool-cases, inl, inr,
}
use liquorice.Octets.{read16}
use liquorice.Control
use liquorice.Control.{Control, Effect, Buffer, held, packet}
use liquorice.Control.Replies.{usage_ack}
use liquorice.Ipcp.Instance.{IpLink, ipcp}
use liquorice.Ipcp.Parse.{check_request, check_ack, check_reject}

abbrev pub Answer : Type 0
Answer = Control IpLink × List Effect

-- The copy's table, `handle_action()` and `handle_event()`.
abbrev pub ppp_trans : Control.Event → Control.State → Control.Action × Control.State
ppp_trans event state = Control.ppp_trans event state

abbrev pub handle_action : Control.Action → Control IpLink → Answer
handle_action action pii = Control.handle_action ipcp action pii

abbrev pub handle_event : Control.Event → Control IpLink → Answer
handle_event event pii = Control.handle_event ipcp event pii

-- The tick takes the timer off its list. It calls back with the PPP instance, which `ppp_ip_instance_alloc()` puts
-- in `os_arg`: `ipcp_tick_timeout()` does nothing to the instance here, for which no event of a timeout ever comes.
abbrev pub timer_expired : Control IpLink → Control IpLink
timer_expired pii = record pii { is_attached = false }

-- The `case`s of `ipcp_recv_netbuf()`, with `sz` the length less the header's four octets.
pub recv_conf_req : (ℕ → ℕ) → ℕ → ℕ → Control IpLink → Answer
recv_conf_req mem rid sz pii =
    let (options, r) = check_request mem sz 4 pii.options in
    let event = if r.parse_state == usage_ack then Control.event_rcr_p else Control.event_rcr_m in
    handle_event event (record pii { options = options; send = held (packet r.code rid r.options) })

pub recv_conf_ack : (ℕ → ℕ) → ℕ → ℕ → Control IpLink → Answer
recv_conf_ack mem rid sz pii =
    if rid == pii.ident
    then handle_event Control.event_rca (record pii { options = check_ack mem sz 4 pii.options })
    else (pii, [])

pub recv_conf_nak : (ℕ → ℕ) → ℕ → ℕ → Control IpLink → Answer
recv_conf_nak mem rid sz pii =
    if rid == pii.ident
    then handle_event Control.event_rcn
        (record pii { options = check_reject mem sz 4 pii.options; send = held [] })
    else (pii, [])

pub recv_term_req : ℕ → Control IpLink → Answer
recv_term_req rid pii =
    handle_event Control.event_rtr (record pii { send = held (packet 6 rid []) })

pub recv_term_ack : ℕ → Control IpLink → Answer
recv_term_ack rid pii = if rid == pii.ident then handle_event Control.event_rta pii else (pii, [])

pub recv_code_rej : (ℕ → ℕ) → Control IpLink → Answer
recv_code_rej mem pii =
    let event = if leb (mem 4) 7 then Control.event_rxj_m else Control.event_rxj_p in
    handle_event event pii

-- `ipcp_recv_netbuf()`
pub recv_ipcp : (ℕ → ℕ) → ℕ → Control IpLink → Answer
recv_ipcp mem size pii =
    let rcode = mem 0 in
    let rid = mem 1 in
    let rlen = read16 mem 2 in
    let sz = (rlen + 2 ^ 16 - 4) % 2 ^ 16 in
    if ltb size rlen
    then (pii, [])
    else if rcode == 1
    then recv_conf_req mem rid sz pii
    else if rcode == 2
    then recv_conf_ack mem rid sz pii
    else if (rcode == 3) || (rcode == 4)
    then recv_conf_nak mem rid sz pii
    else if rcode == 5
    then recv_term_req rid pii
    else if rcode == 6
    then recv_term_ack rid pii
    else if rcode == 7
    then recv_code_rej mem pii
    else handle_event Control.event_ruc pii

-- `ipcp_link_up()`
pub ipcp_link_up : Control IpLink → Answer
ipcp_link_up pii =
    Control.then_do (handle_event Control.event_up) (handle_event Control.event_open) pii

-- `ppp_ip_client_attach()`, with the server that is allocated, if there is no client yet.
pub attach_to : ℕ → ℕ → Control IpLink → Option ℕ → Control IpLink × Option ℕ
attach_to idc server pii none =
    (record pii { options = record pii.options { client = some idc } }, some server)
attach_to idc server pii (some _) = (pii, none)

pub client_attach : ℕ → ℕ → Control IpLink → Control IpLink × Option ℕ
unfolding attach_to
client_attach idc server pii = attach_to idc server pii pii.options.client

-- `ppp_ip_instance_alloc()`, less its clients of the link. The ticks, the restart counter, the buffer and the
-- remote address are what the memory held.
pub instance_alloc : ℕ → ℕ → Buffer → ℕ → Control IpLink
instance_alloc ticks counter send remote = record {
  phase = Control.phase_dead;
  state = Control.state_initial;
  ident = 0;
  is_attached = false;
  ticks_left = ticks;
  restart_counter = counter;
  send = send;
  options = record {
    local_ip_addr = 0xbe010102;
    local_ip_addr_usage = usage_ack;
    remote_ip_addr = remote;
    client = none;
  };
}
