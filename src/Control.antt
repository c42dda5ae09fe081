-- ===== src/Control.antt =====
-- The automaton of a PPP control protocol (RFC 1661), of which src/lib/ppp/ppp.c and
-- src/lib/ppp_ip/ppp_ip.c each have a copy: the transition table, the actions and the events. What the
-- two copies do differently is the record Layer. An event runs to its end before the next: the lock,
-- which the code gives up while it sends, is left out.
pub mod Replies
pub mod Timer
pub mod Retries
pub mod Faults
use liquorice.Base.{
  ℕ, ◌+◌, ◌-◌, ◌*◌, ◌/◌, ◌%◌, ◌^◌, Bool, true, false, List, [], ◌∷◌, ◌++◌, length, ◌==◌,
  if◌then◌else◌,
}

pub data Phase : Type 0 where
  phase_dead phase_establish phase_authenticate phase_network phase_terminate : Phase

pub data State : Type 0 where
  state_initial state_starting state_closed state_stopped state_closing state_stopping : State
  state_req_sent state_ack_rcvd state_ack_sent state_opened : State

pub data Event : Type 0 where
  event_up event_down event_open event_close event_to_p event_to_m event_rcr_p event_rcr_m : Event
  event_rca event_rcn event_rtr event_rta event_ruc event_rxj_p event_rxj_m event_rxr : Event

pub data Action : Type 0 where
  action_none action_tlu action_tld action_tls action_tlf action_irc action_zrc action_scr : Action
  action_sca action_scn action_str action_sta action_scj action_ser action_tld_scr : Action
  action_irc_tlu action_irc_scr action_irc_str action_sca_tlu action_tld_irc_str : Action
  action_tld_scr_sca action_tld_scr_scn action_tld_zrc_sta action_irc_scr_sca : Action
  action_irc_scr_scn : Action

-- One row of `ppp_trans`, from its entries in the order of the states.
abbrev Row : Type 0
Row = Action × State

row : Row → Row → Row → Row → Row → Row → Row → Row → Row → Row → State → Row
row i s c t g h r a b o state_initial = i
row i s c t g h r a b o state_starting = s
row i s c t g h r a b o state_closed = c
row i s c t g h r a b o state_stopped = t
row i s c t g h r a b o state_closing = g
row i s c t g h r a b o state_stopping = h
row i s c t g h r a b o state_req_sent = r
row i s c t g h r a b o state_ack_rcvd = a
row i s c t g h r a b o state_ack_sent = b
row i s c t g h r a b o state_opened = o

-- `ppp_trans`
pub ppp_trans : Event → State → Action × State
unfolding row
ppp_trans event_up =
    row (action_none, state_closed) (action_irc_scr, state_req_sent) (action_none, state_closed)
      (action_none, state_stopped) (action_none, state_closing) (action_none, state_stopping)
      (action_none, state_req_sent) (action_none, state_ack_rcvd) (action_none, state_ack_sent)
      (action_none, state_opened)
ppp_trans event_down =
    row (action_none, state_initial) (action_none, state_starting) (action_none, state_initial)
      (action_tls, state_starting) (action_none, state_initial) (action_none, state_starting)
      (action_none, state_starting) (action_none, state_starting) (action_none, state_starting)
      (action_tld, state_starting)
ppp_trans event_open =
    row (action_tls, state_starting) (action_none, state_starting) (action_irc_scr, state_req_sent)
      (action_none, state_stopped) (action_none, state_stopping) (action_none, state_stopping)
      (action_none, state_req_sent) (action_none, state_ack_rcvd) (action_none, state_ack_sent)
      (action_none, state_opened)
ppp_trans event_close =
    row (action_none, state_initial) (action_tlf, state_initial) (action_none, state_closed)
      (action_none, state_closed) (action_none, state_closing) (action_none, state_closing)
      (action_irc_str, state_closing) (action_irc_str, state_closing)
      (action_irc_str, state_closing) (action_tld_irc_str, state_closing)
ppp_trans event_to_p =
    row (action_none, state_initial) (action_none, state_starting) (action_none, state_closed)
      (action_none, state_stopped) (action_str, state_closing) (action_str, state_stopping)
      (action_scr, state_req_sent) (action_scr, state_req_sent) (action_scr, state_ack_sent)
      (action_none, state_opened)
ppp_trans event_to_m =
    row (action_none, state_initial) (action_none, state_starting) (action_none, state_closed)
      (action_none, state_stopped) (action_tlf, state_closed) (action_tlf, state_stopped)
      (action_tlf, state_stopped) (action_tlf, state_stopped) (action_tlf, state_stopped)
      (action_none, state_opened)
ppp_trans event_rcr_p =
    row (action_none, state_initial) (action_none, state_starting) (action_sta, state_closed)
      (action_irc_scr_sca, state_ack_sent) (action_none, state_closing)
      (action_none, state_stopping) (action_sca, state_ack_sent) (action_sca_tlu, state_opened)
      (action_sca, state_ack_sent) (action_tld_scr_sca, state_ack_sent)
ppp_trans event_rcr_m =
    row (action_none, state_initial) (action_none, state_starting) (action_sta, state_closed)
      (action_irc_scr_scn, state_req_sent) (action_none, state_closing)
      (action_none, state_stopping) (action_scn, state_req_sent) (action_scn, state_ack_rcvd)
      (action_scn, state_req_sent) (action_tld_scr_scn, state_req_sent)
ppp_trans event_rca =
    row (action_none, state_initial) (action_none, state_starting) (action_sta, state_closed)
      (action_sta, state_stopped) (action_none, state_closing) (action_none, state_stopping)
      (action_irc, state_ack_rcvd) (action_scr, state_req_sent) (action_irc_tlu, state_opened)
      (action_tld_scr, state_req_sent)
ppp_trans event_rcn =
    row (action_none, state_initial) (action_none, state_starting) (action_sta, state_closed)
      (action_sta, state_stopped) (action_none, state_closing) (action_none, state_stopping)
      (action_irc_scr, state_req_sent) (action_scr, state_req_sent) (action_irc_scr, state_ack_sent)
      (action_tld_scr, state_req_sent)
ppp_trans event_rtr =
    row (action_none, state_initial) (action_none, state_starting) (action_sta, state_closed)
      (action_sta, state_stopped) (action_sta, state_closing) (action_sta, state_stopping)
      (action_sta, state_req_sent) (action_sta, state_req_sent) (action_sta, state_req_sent)
      (action_tld_zrc_sta, state_stopping)
ppp_trans event_rta =
    row (action_none, state_initial) (action_none, state_starting) (action_none, state_closed)
      (action_none, state_stopped) (action_tlf, state_closed) (action_tlf, state_stopped)
      (action_none, state_req_sent) (action_none, state_req_sent) (action_none, state_ack_sent)
      (action_tld_scr, state_req_sent)
ppp_trans event_ruc =
    row (action_none, state_initial) (action_none, state_starting) (action_scj, state_closed)
      (action_scj, state_stopped) (action_scj, state_closing) (action_scj, state_stopping)
      (action_scj, state_req_sent) (action_scj, state_ack_rcvd) (action_scj, state_ack_sent)
      (action_scj, state_opened)
ppp_trans event_rxj_p =
    row (action_none, state_initial) (action_none, state_starting) (action_none, state_closed)
      (action_none, state_stopped) (action_none, state_closing) (action_none, state_stopping)
      (action_none, state_req_sent) (action_none, state_req_sent) (action_none, state_ack_sent)
      (action_none, state_opened)
ppp_trans event_rxj_m =
    row (action_none, state_initial) (action_none, state_starting) (action_tlf, state_closed)
      (action_tlf, state_stopped) (action_tlf, state_closed) (action_tlf, state_stopped)
      (action_tlf, state_stopped) (action_tlf, state_stopped) (action_tlf, state_stopped)
      (action_tld_irc_str, state_stopping)
ppp_trans event_rxr =
    row (action_none, state_initial) (action_none, state_starting) (action_none, state_closed)
      (action_none, state_stopped) (action_none, state_closing) (action_none, state_stopping)
      (action_none, state_req_sent) (action_none, state_ack_rcvd) (action_none, state_ack_sent)
      (action_ser, state_opened)

-- `pi_send`: no buffer, a buffer with its octets, or one whose reference is given back.
pub data Buffer : Type 0 where
  null : Buffer
  held : List ℕ → Buffer
  released : Buffer

-- What the automaton does to its neighbours: a packet of its protocol is sent, a client of the link is
-- told that it is up, the map of control characters is set, or a released buffer is used.
pub data Effect : Type 0 where
  sent : List ℕ → Effect
  link_up : ℕ → Effect
  set_accm : ℕ → Effect
  fault : Effect

-- The part of an instance that both copies have; `Options` is the rest. `is_attached` tells whether the
-- restart timer is in the list of timers.
pub record Control (Options : Type 0) : Type 0 where
  pub phase : Phase
  pub state : State
  pub ident : ℕ
  pub is_attached : Bool
  pub ticks_left : ℕ
  pub restart_counter : ℕ
  pub send : Buffer
  pub options : Options

-- The differences between the copies: the options of a request, what TLD does to the options, and the
-- effects of that and of TLU; and whether SER sends.
pub record Layer (Options : Type 0) : Type 0 where
  pub build_req : Options → List ℕ
  pub default_options : Options → Options
  pub defaulted : Options → List Effect
  pub up : Options → List Effect
  pub has_echo : Bool

abbrev pub restart_max_configure : ℕ
restart_max_configure = 10

abbrev pub restart_max_terminate : ℕ
restart_max_terminate = 2

abbrev pub timeout_ticks : ℕ
timeout_ticks = 3 * 100

-- A packet: code, identifier, length with these four octets, and the rest.
abbrev pub packet : ℕ → ℕ → List ℕ → List ℕ
packet code ident rest =
    let size = (4 + length rest) % 2 ^ 16 in code ∷ ident ∷ size / 2 ^ 8 ∷ size % 2 ^ 8 ∷ rest

abbrev pub is_terminate : Phase → Bool
is_terminate phase_terminate = true
is_terminate _ = false

-- The states in which the restart timer runs; the others are `<= STATE_STOPPED` or `STATE_OPENED`.
abbrev pub is_timed : State → Bool
is_timed state_closing = true
is_timed state_stopping = true
is_timed state_req_sent = true
is_timed state_ack_rcvd = true
is_timed state_ack_sent = true
is_timed _ = false

abbrev pub Step : Type 0 → Type 0
Step Options = Control Options → Control Options × List Effect

abbrev pub then_do : {Options : Type 0} → Step Options → Step Options → Step Options
then_do f g c = let (c₁, before) = f c in let (c₂, after) = g c₁ in (c₂, before ++ after)

module _ {Options : Type 0} (layer : Layer Options) where
  pub tlu : Step Options
  tlu c = (record c { phase = phase_network }, layer.up c.options)

  pub tld : Step Options
  tld c = (
    record c { phase = phase_terminate; options = layer.default_options c.options },
    layer.defaulted (layer.default_options c.options),
  )

  pub irc : Step Options
  irc c = (
    record c {
      restart_counter =
          if is_terminate c.phase then restart_max_terminate else restart_max_configure;
    },
    [],
  )

  pub zrc : Step Options
  zrc c = (record c { restart_counter = 0; is_attached = true }, [])

  pub scr : Step Options
  scr c =
      let ident = (c.ident + 1) % 2 ^ 8 in
      if c.restart_counter == 0 then (c, []) else (
        record c {
          restart_counter = c.restart_counter - 1;
          ident = ident;
          ticks_left = timeout_ticks;
          is_attached = true;
        },
        sent (packet 1 ident (layer.build_req c.options)) ∷ [],
      )

  pub str : Step Options
  str c = if c.restart_counter == 0 then (c, []) else (
    record c {
      restart_counter = c.restart_counter - 1;
      ident = (c.ident + 1) % 2 ^ 8;
      ticks_left = timeout_ticks;
      is_attached = true;
    },
    sent (packet 5 c.ident []) ∷ [],
  )

  -- SCA, SCN and STA, and SER where it sends: the buffer goes out, and its reference back.
  pub send_held : Step Options
  send_held c = elim c.send [
    | held octets ↦ (record c { send = released }, sent octets ∷ [])
    | _ ↦ (c, fault ∷ [])
  ]

  pub set_phase : Phase → Step Options
  set_phase phase c = (record c { phase = phase }, [])

  -- `handle_action()`
  pub handle_action : Action → Step Options
  unfolding tlu tld irc zrc scr str send_held set_phase
  handle_action action_none c = (c, [])
  handle_action action_tlu c = tlu c
  handle_action action_tld c = tld c
  handle_action action_tls c = set_phase phase_establish c
  handle_action action_tlf c = set_phase phase_dead c
  handle_action action_irc c = irc c
  handle_action action_zrc c = zrc c
  handle_action action_scr c = scr c
  handle_action action_sca c = send_held c
  handle_action action_scn c = send_held c
  handle_action action_str c = str c
  handle_action action_sta c = send_held c
  handle_action action_scj c = (c, [])
  handle_action action_ser c = if layer.has_echo then send_held c else (c, [])
  handle_action action_tld_scr c = then_do tld scr c
  handle_action action_irc_tlu c = then_do irc tlu c
  handle_action action_irc_scr c = then_do irc scr c
  handle_action action_irc_str c = then_do irc str c
  handle_action action_sca_tlu c = then_do send_held tlu c
  handle_action action_tld_irc_str c = then_do tld (then_do irc str) c
  handle_action action_tld_scr_sca c = then_do (then_do tld scr) send_held c
  handle_action action_tld_scr_scn c = then_do (then_do tld scr) send_held c
  handle_action action_tld_zrc_sta c = then_do tld (then_do zrc send_held) c
  handle_action action_irc_scr_sca c = then_do (then_do irc scr) send_held c
  handle_action action_irc_scr_scn c = then_do (then_do irc scr) send_held c

  -- `handle_event()`
  unfoldable pub handle_event : Event → Step Options
  unfolding ppp_trans handle_action
  handle_event event c =
      let (action, next_state) = ppp_trans event c.state in
      let (c', effects) = handle_action action c in
      (
        record c' {
          state = next_state;
          is_attached = if is_timed next_state then c'.is_attached else false;
        },
        effects,
      )

  -- `lcp_tick_timeout()`: the tick has taken the timer off its list.
  unfoldable pub tick_timeout : Step Options
  unfolding handle_event
  tick_timeout c =
      let event = if c.restart_counter == 0 then event_to_m else event_to_p in
      handle_event event (record c { ident = (c.ident + 2 ^ 8 - 1) % 2 ^ 8; is_attached = false })
