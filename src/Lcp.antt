-- ===== src/Lcp.antt =====
-- The link control protocol, src/lib/ppp/ppp.c, on the automaton of Control: what a received packet
-- makes of the link, and the link's other operations.
pub mod Instance
pub mod Parse
pub mod Fuel
pub mod Options
pub mod Verdict
pub mod Outcome
pub mod Request
pub mod Sound
mod Tests
use liquorice.Base.{
  ℕ, zero, suc, ◌+◌, ◌-◌, ◌*◌, ◌/◌, ◌%◌, ◌^◌, bit_and, Bool, true, false, ◌&&◌, ◌||◌, List, [], ◌∷◌,
  ◌++◌, length, get_or, ltb, leb, ◌==◌, if◌then◌else◌,
}
use liquorice.Octets.{read16, octets32}
use liquorice.Control.{Control, Effect, sent, held, packet, handle_event}
use liquorice.Control
use liquorice.Control.Replies.{usage_ack}
use liquorice.Lcp.Instance.{Link, lcp}
use liquorice.Lcp.Parse.{check_request, check_ack, check_reject}

abbrev pub Answer : Type 0
Answer = Control Link × List Effect

-- The `case`s of `lcp_recv_netbuf()`, with `sz` the length less the header's four octets.
pub recv_conf_req : (ℕ → ℕ) → (ℕ → ℕ) → ℕ → ℕ → Control Link → Answer
recv_conf_req stack mem rid sz c =
    let (pi, r) = check_request stack mem sz 4 c.options in
    let event = if r.parse_state == usage_ack then Control.event_rcr_p else Control.event_rcr_m in
    handle_event lcp event (record c { options = pi; send = held (packet r.code rid r.options) })

pub recv_conf_ack : (ℕ → ℕ) → ℕ → ℕ → Control Link → Answer
recv_conf_ack mem rid sz c =
    if rid == c.ident
    then handle_event lcp Control.event_rca (record c { options = check_ack mem sz 4 c.options })
    else (c, [])

pub recv_conf_nak : (ℕ → ℕ) → ℕ → ℕ → Control Link → Answer
recv_conf_nak mem rid sz c =
    if rid == c.ident
    then handle_event lcp Control.event_rcn
        (record c { options = check_reject mem sz 4 c.options; send = held [] })
    else (c, [])

pub recv_term_req : ℕ → Control Link → Answer
recv_term_req rid c =
    handle_event lcp Control.event_rtr (record c { send = held (packet 6 rid []) })

pub recv_term_ack : ℕ → Control Link → Answer
recv_term_ack rid c = if rid == c.ident then handle_event lcp Control.event_rta c else (c, [])

pub recv_code_rej : (ℕ → ℕ) → Control Link → Answer
recv_code_rej mem c =
    let event = if leb (mem 4) 8 then Control.event_rxj_m else Control.event_rxj_p in
    handle_event lcp event c

pub recv_protocol_rej : (ℕ → ℕ) → Control Link → Answer
recv_protocol_rej mem c =
    let event = if read16 mem 4 == 0xc021 then Control.event_rxj_m else Control.event_rxj_p in
    handle_event lcp event c

pub recv_echo_req : Control Link → Answer
recv_echo_req c = handle_event lcp Control.event_rxr (record c {
  send = held (10 ∷ c.ident ∷ 0 ∷ 8 ∷ octets32 c.options.local_magic_number);
  ident = (c.ident + 1) % 2 ^ 8;
})

-- `lcp_recv_netbuf()`
pub recv_lcp : (ℕ → ℕ) → (ℕ → ℕ) → ℕ → Control Link → Answer
recv_lcp stack mem size c =
    let rcode = mem 0 in
    let rid = mem 1 in
    let rlen = read16 mem 2 in
    let sz = (rlen + 2 ^ 16 - 4) % 2 ^ 16 in
    if ltb size rlen
    then (c, [])
    else if rcode == 1
    then recv_conf_req stack mem rid sz c
    else if rcode == 2
    then recv_conf_ack mem rid sz c
    else if (rcode == 3) || (rcode == 4)
    then recv_conf_nak mem rid sz c
    else if rcode == 5
    then recv_term_req rid c
    else if rcode == 6
    then recv_term_ack rid c
    else if rcode == 7
    then recv_code_rej mem c
    else if rcode == 8
    then recv_protocol_rej mem c
    else if rcode == 9
    then recv_echo_req c
    else if (rcode == 10) || (rcode == 11)
    then (c, [])
    else handle_event lcp Control.event_ruc c
