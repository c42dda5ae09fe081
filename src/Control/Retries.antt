-- ===== src/Control/Retries.antt =====
-- A peer that does not answer, in src/lib/ppp/ppp.c.
use liquorice.Base.{
  ℕ, zero, suc, ◌+◌, ◌-◌, ◌%◌, ◌^◌, ◌≡◌, Bool, true, false, if◌then◌else◌, [], ◌∷◌, ◌++◌, arith,
}
use liquorice.Control

-- Where the automaton ends up when it gives up.
abbrev pub given_up : Control.State → Control.State
given_up Control.state_closing = Control.state_closed
given_up _ = Control.state_stopped

abbrev pub is_ending : Control.State → Bool
is_ending Control.state_closing = true
is_ending Control.state_stopping = true
is_ending _ = false

module _ {Options : Type 0} (layer : Control.Layer Options) where
  abbrev pub timeouts : ℕ → Control.Step Options
  timeouts zero c = (c, [])
  timeouts (suc n) c = Control.then_do (Control.tick_timeout layer) (timeouts n) c

  -- The packet that went out last, once more: a terminate-request where the link is being ended, else a
  -- configure-request. A terminate-request has the identifier before its number is raised, the other the one after.
  abbrev pub retry : Control.Control Options → Control.Effect
  retry c = Control.sent (
      if is_ending c.state
      then Control.packet 5 ((c.ident + 2 ^ 8 - 1) % 2 ^ 8) []
      else Control.packet 1 (c.ident % 2 ^ 8) (layer.build_req c.options))

  once_less : (i : ℕ) → (i % 2 ^ 8 + 2 ^ 8 - 1) % 2 ^ 8 ≡ (i + 2 ^ 8 - 1) % 2 ^ 8
  once_less i = omega arith

  -- To close a link that is open, a terminate-request goes out, and the identifier goes on.
  pub close-str :
      (c : Control.Control Options)
      → c.state ≡ Control.state_opened
      → let (c', effects) = Control.handle_event layer Control.event_close c in
        (c'.ident ≡ (c.ident + 1) % 2 ^ 8)
        × (c'.state ≡ Control.state_closing)
        × (effects
            ≡ layer.defaulted (layer.default_options c.options)
              ++ Control.sent (Control.packet 5 c.ident []) ∷ [])
  unfolding Control.handle_event
  close-str c opened = ground arith
