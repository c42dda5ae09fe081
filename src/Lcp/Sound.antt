-- ===== src/Lcp/Sound.antt =====
-- What a received packet leaves of the automaton's invariant, and of the buffer.
use liquorice.Base.{
  ℕ, ◌+◌, ◌-◌, ◌%◌, ◌^◌, ◌≤◌, ◌<◌, ◌≡◌, refl, ◌∙◌, Bool, true, false, ◌||◌, List, [], ◌∷◌, ◌++◌,
  arith, ◌==◌,
}
use liquorice.Octets.{read16}
use liquorice.Control
use liquorice.Control.{Control, handle_event, packet, sent, held}
use liquorice.Control.Retries.{close-str}
use liquorice.Control.Timer.{IsSound, handle_event-IsSound}
use liquorice.Control.Faults.{
  is_held, has_fault, IsFaultless, has_fault-append, is_idle, handle_event-held, handle_event-quiet,
  handle_event-rca,
}
use liquorice.Lcp.{
  recv_conf_req, recv_conf_ack, recv_conf_nak, recv_term_req, recv_term_ack, recv_code_rej,
  recv_protocol_rej, recv_echo_req, recv_lcp,
}
use liquorice.Lcp.Instance.{Link, Client, lcp, implement_options, notify}
use liquorice.Lcp.Parse.{check_ack}

-- What stands in the buffer and in the options has no part in the invariant.
IsSound-other :
    (c : Control Link) (ident : ℕ) (send : Control.Buffer) (pi : Link)
    → IsSound c
    → IsSound (record c { ident = ident; send = send; options = pi })
IsSound-other c ident send pi x = record { timer = x.timer; armed = x.armed; network = x.network }

-- Whatever packet arrives, with whatever octets, the automaton stays sound.
pub recv_lcp-IsSound :
    (stack mem : ℕ → ℕ) (size : ℕ) (c : Control Link)
    → IsSound c
    → IsSound (recv_lcp stack mem size c).0
unfolding recv_lcp recv_conf_req recv_conf_ack recv_conf_nak recv_term_req recv_term_ack
    recv_code_rej recv_protocol_rej recv_echo_req
recv_lcp-IsSound stack mem size c x = grind (arith, handle_event-IsSound, IsSound-other)

implement_options-faultless : (pi : Link) → has_fault (implement_options pi) ≡ false
unfolding implement_options
implement_options-faultless pi = ground arith

notify-faultless : (clients : List Client) → has_fault (notify clients) ≡ false
unfolding notify
notify-faultless [] = refl
notify-faultless (pc ∷ clients) = ground (arith, notify-faultless clients)

both : {a b : Bool} → a ≡ false → b ≡ false → (a || b) ≡ false
both x y = ground (arith, x, y)

lcp-IsFaultless : IsFaultless lcp
unfolding lcp
lcp-IsFaultless = record {
  defaulted = implement_options-faultless;
  up = λ pi.
      has_fault-append (implement_options pi) (notify pi.client_list)
      ∙ both (implement_options-faultless pi) (notify-faultless pi.client_list);
}

conf_ack-fault :
    (mem : ℕ → ℕ) (rid sz : ℕ) (c : Control Link)
    → has_fault (recv_conf_ack mem rid sz c).1 ≡ true
    → (is_idle c.state ≡ true) × (is_held c.send ≡ false) × (rid ≡ c.ident)
unfolding recv_conf_ack
conf_ack-fault mem rid sz c h =
    let c' = record c { options = check_ack mem sz 4 c.options } in
    ground (arith, handle_event-rca lcp lcp-IsFaultless c')

conf_req-faultless :
    (stack mem : ℕ → ℕ) (rid sz : ℕ) (c : Control Link)
    → has_fault (recv_conf_req stack mem rid sz c).1 ≡ false
unfolding recv_conf_req
conf_req-faultless stack mem rid sz c = grind (arith, handle_event-held lcp lcp-IsFaultless)

conf_nak-faultless :
    (mem : ℕ → ℕ) (rid sz : ℕ) (c : Control Link) → has_fault (recv_conf_nak mem rid sz c).1 ≡ false
unfolding recv_conf_nak
conf_nak-faultless mem rid sz c = grind (arith, handle_event-held lcp lcp-IsFaultless)

term_req-faultless : (rid : ℕ) (c : Control Link) → has_fault (recv_term_req rid c).1 ≡ false
unfolding recv_term_req
term_req-faultless rid c = grind (arith, handle_event-held lcp lcp-IsFaultless)

echo_req-faultless : (c : Control Link) → has_fault (recv_echo_req c).1 ≡ false
unfolding recv_echo_req
echo_req-faultless c = grind (arith, handle_event-held lcp lcp-IsFaultless)

term_ack-faultless : (rid : ℕ) (c : Control Link) → has_fault (recv_term_ack rid c).1 ≡ false
unfolding recv_term_ack
term_ack-faultless rid c = grind (arith, handle_event-quiet lcp lcp-IsFaultless)

rej-faultless :
    (mem : ℕ → ℕ) (c : Control Link)
    → (has_fault (recv_code_rej mem c).1 ≡ false) × (has_fault (recv_protocol_rej mem c).1 ≡ false)
unfolding recv_code_rej recv_protocol_rej
rej-faultless mem c = grind (arith, handle_event-quiet lcp lcp-IsFaultless)

-- A released buffer is used only on an acknowledgement of a configuration that answers the last request,
-- in a state that has no use for it.
pub recv_lcp-fault :
    (stack mem : ℕ → ℕ) (size : ℕ) (c : Control Link)
    → has_fault (recv_lcp stack mem size c).1 ≡ true
    → (mem 0 ≡ 2) × (is_idle c.state ≡ true) × (is_held c.send ≡ false) × (mem 1 ≡ c.ident)
unfolding recv_lcp
recv_lcp-fault stack mem size c h =
    let sz = (read16 mem 2 + 2 ^ 16 - 4) % 2 ^ 16 in
    ground (
      arith,
      conf_req-faultless stack mem (mem 1) sz c,
      conf_ack-fault mem (mem 1) sz c,
      conf_nak-faultless mem (mem 1) sz c,
      term_req-faultless (mem 1) c,
      term_ack-faultless (mem 1) c,
      rej-faultless mem c,
      echo_req-faultless c,
      handle_event-quiet lcp lcp-IsFaultless Control.event_ruc c refl,
    )

-- Then it is used.
pub recv_conf_ack-fault :
    (stack mem : ℕ → ℕ) (size : ℕ) (c : Control Link)
    → mem 0 ≡ 2
    → mem 1 ≡ c.ident
    → read16 mem 2 ≤ size
    → is_idle c.state ≡ true
    → is_held c.send ≡ false
    → has_fault (recv_lcp stack mem size c).1 ≡ true
unfolding recv_lcp recv_conf_ack
recv_conf_ack-fault stack mem size c code id fits idle empty =
    let sz = (read16 mem 2 + 2 ^ 16 - 4) % 2 ^ 16 in
    let c' = record c { options = check_ack mem sz 4 c.options } in
    ground (arith, handle_event-rca lcp lcp-IsFaultless c')

-- The answer to a terminate-request is thrown away: when an open link is closed, the request that goes out
-- has the identifier from before, and a terminate-ack with that identifier changes nothing.
pub close-recv_term_ack :
    (stack mem : ℕ → ℕ) (size : ℕ) (c : Control Link)
    → c.state ≡ Control.state_opened
    → c.ident < 2 ^ 8
    → mem 0 ≡ 6
    → mem 1 ≡ c.ident
    → let (c', effects) = handle_event lcp Control.event_close c in
      (effects ≡ lcp.defaulted (lcp.default_options c.options) ++ sent (packet 5 c.ident []) ∷ [])
      × (recv_lcp stack mem size c' ≡ (c', []))
unfolding recv_lcp recv_term_ack
close-recv_term_ack stack mem size c opened small code id =
    let c' = (handle_event lcp Control.event_close c).0 in
    let (ident, _, effects) = close-str lcp c opened in
    let other : (mem 1 == c'.ident) ≡ false = ground (arith, ident, id) in
    (effects, ground (arith, other, code))
