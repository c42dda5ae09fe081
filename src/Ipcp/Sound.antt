-- ===== src/Ipcp/Sound.antt =====
-- Every run of IP over PPP, src/lib/ppp_ip/ppp_ip.c, and the ends of its loops.
use liquorice.Base.{
  ℕ, zero, suc, ◌+◌, ◌-◌, ◌≤◌, ◌<◌, ◌≡◌, refl, true, ◌||◌, Option, none, some, ltb, arith,
  Bool-cases, inl, inr,
}
use liquorice.Control
use liquorice.Control.{Control, Buffer}
use liquorice.Control.Replies.{Reply}
use liquorice.Control.Timer.{is_network, is_opened, is_armed}
use liquorice.Ipcp.{
  handle_event, timer_expired, recv_conf_req, recv_conf_ack, recv_conf_nak, recv_term_req,
  recv_term_ack, recv_code_rej, recv_ipcp, ipcp_link_up, attach_to, client_attach, instance_alloc,
}
use liquorice.Ipcp.Instance.{IpLink}
use liquorice.Ipcp.Parse.{check_option, check_options}

-- The loop of a configure-request gives the same with every fuel that is at least the octets that are left:
-- it ends by itself.
ipcp_options-fuel :
    (mem : ℕ → ℕ) (fuel fuel' sz buf : ℕ) (state : IpLink × Reply)
    → sz ≤ fuel
    → sz ≤ fuel'
    → check_options mem fuel sz buf state ≡ check_options mem fuel' sz buf state
unfolding check_options
ipcp_options-fuel mem zero zero sz buf state h h' = refl
ipcp_options-fuel mem zero (suc fuel') sz buf (pii, r) h h' = ground arith
ipcp_options-fuel mem (suc fuel) zero sz buf (pii, r) h h' = ground arith
ipcp_options-fuel mem (suc fuel) (suc fuel') sz buf (pii, r) h h' =
    let optsz = mem (buf + 1) in
    let state' = check_option mem (buf + 2) (mem buf) optsz (pii, r) in
    elim (Bool-cases (ltb sz 2)) [
      | inl e ↦ rw e refl
      | inr e ↦ elim (Bool-cases (ltb sz optsz || ltb optsz 2)) [
        | inl e' ↦ rw e rw e' refl
        | inr e' ↦
            let rest =
              ipcp_options-fuel mem fuel fuel' (sz - optsz) (buf + optsz) state' (ground arith)
                (ground arith) in
            rw e rw e' rest
      ]
    ]

-- As for a link, but a state may wait with its timer gone, since a timeout is lost.
pub record IsConsistent (c : Control IpLink) : Type 0 where
  pub timer : c.is_attached ≡ true → Control.is_timed c.state ≡ true
  pub armed : is_armed c.state ≡ true → 0 < c.restart_counter
  pub network : is_network c.phase ≡ is_opened c.state

-- The instances that a sequence of calls makes of a new one: packets arrive, the link comes up, the timer
-- expires while it is in the list of timers, and a client comes.
pub data IpReaches : Control IpLink → Type 0 where
  allocated :
      (ticks counter : ℕ) (send : Buffer) (remote : ℕ)
      → IpReaches (instance_alloc ticks counter send remote)
  received :
      (mem : ℕ → ℕ) (size : ℕ) (pii : Control IpLink)
      → IpReaches pii
      → IpReaches (recv_ipcp mem size pii).0
  linked : (pii : Control IpLink) → IpReaches pii → IpReaches (ipcp_link_up pii).0
  timed_out :
      (pii : Control IpLink)
      → IpReaches pii
      → pii.is_attached ≡ true
      → IpReaches (timer_expired pii)
  attached :
      (idc server : ℕ) (pii : Control IpLink)
      → IpReaches pii
      → IpReaches (client_attach idc server pii).0

instance_alloc-IsConsistent :
    (ticks counter : ℕ) (send : Buffer) (remote : ℕ)
    → IsConsistent (instance_alloc ticks counter send remote)
unfolding instance_alloc
instance_alloc-IsConsistent ticks counter send remote = ground arith

other-IsConsistent :
    (pii : Control IpLink) (send : Buffer) (options : IpLink)
    → IsConsistent pii
    → IsConsistent (record pii { send = send; options = options })
other-IsConsistent pii send options x = record {
  timer = x.timer;
  armed = x.armed;
  network = x.network;
}

options-IsConsistent :
    (pii : Control IpLink) (options : IpLink)
    → IsConsistent pii
    → IsConsistent (record pii { options = options })
options-IsConsistent pii options x = record {
  timer = x.timer;
  armed = x.armed;
  network = x.network;
}

event-IsConsistent :
    (event : Control.Event) (pii : Control IpLink)
    → IsConsistent pii
    → IsConsistent (handle_event event pii).0
unfolding Control.handle_event
event-IsConsistent event pii x = ground arith

recv_ipcp-IsConsistent :
    (mem : ℕ → ℕ) (size : ℕ) (pii : Control IpLink)
    → IsConsistent pii
    → IsConsistent (recv_ipcp mem size pii).0
unfolding recv_ipcp recv_conf_req recv_conf_ack recv_conf_nak recv_term_req recv_term_ack
    recv_code_rej
recv_ipcp-IsConsistent mem size pii x =
    grind (arith, event-IsConsistent, other-IsConsistent, options-IsConsistent)

ipcp_link_up-IsConsistent :
    (pii : Control IpLink) → IsConsistent pii → IsConsistent (ipcp_link_up pii).0
unfolding ipcp_link_up
ipcp_link_up-IsConsistent pii x =
    event-IsConsistent Control.event_open _ (event-IsConsistent Control.event_up pii x)

attach_to-IsConsistent :
    (idc server : ℕ) (pii : Control IpLink) (client : Option ℕ)
    → IsConsistent pii
    → IsConsistent (attach_to idc server pii client).0
unfolding attach_to
attach_to-IsConsistent idc server pii none x = options-IsConsistent pii _ x
attach_to-IsConsistent idc server pii (some _) x = x

client_attach-IsConsistent :
    (idc server : ℕ) (pii : Control IpLink)
    → IsConsistent pii
    → IsConsistent (client_attach idc server pii).0
unfolding client_attach
client_attach-IsConsistent idc server pii x =
    attach_to-IsConsistent idc server pii pii.options.client x

timer_expired-IsConsistent :
    (pii : Control IpLink) → IsConsistent pii → IsConsistent (timer_expired pii)
timer_expired-IsConsistent pii x = record {
  timer = λ e. absurd (cc);
  armed = x.armed;
  network = x.network;
}

-- In every instance that a sequence of calls, packets and expiries of its timer reaches, the restart timer is in the
-- list of timers only while the state waits for an answer, in ACK-RCVD and OPENED some of the restart counter is left,
-- and the phase is the network's just when the state is opened.
pub IpReaches-IsConsistent : (pii : Control IpLink) → IpReaches pii → IsConsistent pii
IpReaches-IsConsistent _ (allocated ticks counter send remote) =
    instance_alloc-IsConsistent ticks counter send remote
IpReaches-IsConsistent _ (received mem size pii r) =
    recv_ipcp-IsConsistent mem size pii (IpReaches-IsConsistent pii r)
IpReaches-IsConsistent _ (linked pii r) =
    ipcp_link_up-IsConsistent pii (IpReaches-IsConsistent pii r)
IpReaches-IsConsistent _ (timed_out pii r e) =
    timer_expired-IsConsistent pii (IpReaches-IsConsistent pii r)
IpReaches-IsConsistent _ (attached idc server pii r) =
    client_attach-IsConsistent idc server pii (IpReaches-IsConsistent pii r)
