-- ===== src/Control/Timer.antt =====
-- The restart timer, the restart counter and the phase beside the state, of the automaton of
-- src/lib/ppp/ppp.c and src/lib/ppp_ip/ppp_ip.c.
use liquorice.Base.{◌<◌, ◌≡◌, Bool, true, false, arith}
use liquorice.Control

abbrev pub is_network : Control.Phase → Bool
is_network Control.phase_network = true
is_network _ = false

abbrev pub is_opened : Control.State → Bool
is_opened Control.state_opened = true
is_opened _ = false

-- The states that may need to send without a fresh count of retries.
abbrev pub is_armed : Control.State → Bool
is_armed Control.state_ack_rcvd = true
is_armed Control.state_opened = true
is_armed _ = false

pub record IsSound {Options : Type 0} (c : Control.Control Options) : Type 0 where
  pub timer : c.is_attached ≡ Control.is_timed c.state
  pub armed : is_armed c.state ≡ true → 0 < c.restart_counter
  pub network : is_network c.phase ≡ is_opened c.state

module _ {Options : Type 0} (layer : Control.Layer Options) where
  pub handle_event-IsSound :
      (event : Control.Event) (c : Control.Control Options)
      → IsSound c
      → IsSound (Control.handle_event layer event c).0
  unfolding Control.handle_event
  handle_event-IsSound event c x = ground arith

  -- The timer fires only while it is attached.
  pub tick_timeout-IsSound :
      (c : Control.Control Options)
      → IsSound c
      → c.is_attached ≡ true
      → IsSound (Control.tick_timeout layer c).0
  unfolding Control.tick_timeout
  tick_timeout-IsSound c x fires = ground arith
