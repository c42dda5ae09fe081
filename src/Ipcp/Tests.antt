-- ===== src/Ipcp/Tests.antt =====
-- Runs of IP over PPP, and the theorems at concrete inputs.
use liquorice.Base.{ℕ, ◌≡◌, refl, true, none, [], ◌∷◌, arith}
use liquorice.Octets.{memory, memory-Holds}
use liquorice.Control
use liquorice.Control.{Control, null, sent, packet}
use liquorice.Ipcp.{recv_ipcp, ipcp_link_up, instance_alloc, timer_expired}
use liquorice.Ipcp.Instance.{IpLink, build_req}
use liquorice.Ipcp.Sound.{
  allocated, received, linked, timed_out, IsConsistent, IpReaches-IsConsistent,
}
use liquorice.Ipcp.Opening.{offer, IsUp, recv_ipcp-IsUp}

abbrev requested : ℕ → ℕ → Control IpLink
requested ident addr = record {
  phase = Control.phase_dead;
  state = Control.state_req_sent;
  ident = ident;
  is_attached = true;
  ticks_left = 300;
  restart_counter = 9;
  send = null;
  options = record {
    local_ip_addr = addr;
    local_ip_addr_usage = 0;
    remote_ip_addr = 0;
    client = none;
  };
}

abbrev here : Control IpLink
here = requested 1 0xbe010102

abbrev there : Control IpLink
there = requested 4 0x0a000001

abbrev request : ℕ → ℕ
request = memory (packet 1 1 (offer 0xbe010102))

abbrev request' : ℕ → ℕ
request' = memory (packet 1 4 (offer 0x0a000001))

abbrev answer : ℕ → ℕ
answer = memory (packet 2 4 (offer 0x0a000001))

abbrev answer' : ℕ → ℕ
answer' = memory (packet 2 1 (offer 0xbe010102))

recv_ipcp-IsUp_example :
    let (a₁, from_a) = recv_ipcp request' 10 here in
    let (b₁, from_b) = recv_ipcp request 10 there in
    ((from_a ≡ sent (packet 2 4 (build_req there.options)) ∷ [])
      × IsUp (recv_ipcp answer' 10 a₁).0 0xbe010102 0x0a000001)
    × ((from_b ≡ sent (packet 2 1 (build_req here.options)) ∷ [])
        × IsUp (recv_ipcp answer 10 b₁).0 0x0a000001 0xbe010102)
unfolding build_req
recv_ipcp-IsUp_example =
    recv_ipcp-IsUp here there request request' answer answer' refl refl refl refl (omega arith)
      (omega arith) (memory-Holds (packet 1 1 (offer 0xbe010102)))
      (memory-Holds (packet 1 4 (offer 0x0a000001))) (memory-Holds (packet 2 4 (offer 0x0a000001)))
      (memory-Holds (packet 2 1 (offer 0xbe010102)))

abbrev fresh : Control IpLink
fresh = instance_alloc 0 0 null 0

IpReaches-IsConsistent_example :
    IsConsistent (recv_ipcp request 10 (timer_expired (ipcp_link_up fresh).0)).0
unfolding ipcp_link_up Control.handle_event instance_alloc
IpReaches-IsConsistent_example =
    IpReaches-IsConsistent (recv_ipcp request 10 (timer_expired (ipcp_link_up fresh).0)).0 (
      received request 10 (timer_expired (ipcp_link_up fresh).0)
        (timed_out (ipcp_link_up fresh).0 (linked fresh (allocated 0 0 null 0)) refl))
