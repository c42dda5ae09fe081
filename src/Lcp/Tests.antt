-- ===== src/Lcp/Tests.antt =====
-- Runs of the link control protocol, and its theorems at concrete inputs.
use liquorice.Base.{ℕ, ◌+◌, ◌≡◌, refl, Bool, true, false, List, [], ◌∷◌, arith, ◌==◌, if◌then◌else◌}
use liquorice.Octets.{memory, memory-Holds}
use liquorice.Control
use liquorice.Control.{Control, null, handle_event}
use liquorice.Control.Replies.{usage_ack, usage_rej}
use liquorice.Control.Faults.{has_fault, is_idle, is_held}
use liquorice.Lcp.{recv_lcp}
use liquorice.Lcp.Instance.{Link}
use liquorice.Lcp.Parse.{check_request}
use liquorice.Lcp.Options.{Opt, encode_opts}
use liquorice.Lcp.Outcome.{worst, rejected}
use liquorice.Lcp.Request.{octets_in, check_request-outcome}
use liquorice.Lcp.Sound.{recv_lcp-fault, recv_conf_ack-fault}

abbrev pub defaults : Link
defaults = record {
  mru = 1500;
  mru_usage = 0;
  accm = 0xffffffff;
  accm_usage = 0;
  local_magic_number = 0;
  local_magic_number_usage = 2;
  remote_magic_number = 0;
  pfc = false;
  pfc_usage = 2;
  acfc = false;
  acfc_usage = 2;
  client_list = [];
}

abbrev pub in_state : Control.State → Control.Phase → Bool → ℕ → Control Link
in_state state phase is_attached counter = record {
  phase = phase;
  state = state;
  ident = 1;
  is_attached = is_attached;
  ticks_left = 300;
  restart_counter = counter;
  send = null;
  options = defaults;
}

abbrev stack : ℕ → ℕ
stack i = 0

-- The maximum receive unit, an unknown option, and a map with too few bits.
abbrev asked : List Opt
asked =
    record { type_ = 1; data_ = 5 ∷ 220 ∷ [] }
    ∷ record { type_ = 5; data_ = 1 ∷ 2 ∷ [] }
    ∷ record { type_ = 2; data_ = 0 ∷ 0 ∷ 0 ∷ 0 ∷ [] }
    ∷ []

rejects_unknown : worst usage_ack asked ≡ usage_rej
rejects_unknown = refl

abbrev waiting : Control Link
waiting = in_state Control.state_req_sent Control.phase_establish true 9

check_request-outcome_example :
    let r = (check_request stack (memory (encode_opts asked)) 14 0 defaults).1 in
    (r.parse_state ≡ worst usage_ack asked)
    × ((r.code ≡ 2 + r.parse_state)
        × ((octets_in usage_ack r
              ≡ (if worst usage_ack asked == usage_ack then encode_opts asked else []))
            × (octets_in usage_rej r ≡ encode_opts (rejected asked))))
check_request-outcome_example =
    check_request-outcome stack (memory (encode_opts asked)) asked 0 defaults
      (memory-Holds (encode_opts asked))

-- A configure-ack for the last request, to a link that has stopped.
abbrev stray : ℕ → ℕ
stray = memory (2 ∷ 1 ∷ 0 ∷ 4 ∷ [])

abbrev stopped : Control Link
stopped = in_state Control.state_stopped Control.phase_dead false 0

stray-fault : has_fault (recv_lcp stack stray 4 stopped).1 ≡ true
stray-fault = recv_conf_ack-fault stack stray 4 stopped refl refl (omega arith) refl refl

recv_lcp-fault_example :
    (stray 0 ≡ 2)
    × (is_idle stopped.state ≡ true)
    × (is_held stopped.send ≡ false)
    × (stray 1 ≡ stopped.ident)
recv_lcp-fault_example = recv_lcp-fault stack stray 4 stopped stray-fault

abbrev opened : Control Link
opened = in_state Control.state_opened Control.phase_network false 10
