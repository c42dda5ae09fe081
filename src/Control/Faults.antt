-- ===== src/Control/Faults.antt =====
-- Which events send the buffer of the instance.
use liquorice.Base.{◌≡◌, refl, Bool, true, false, not, ◌||◌, ◌&&◌, List, [], ◌∷◌, ◌++◌, arith}
use liquorice.Control

abbrev pub is_held : Control.Buffer → Bool
is_held (Control.held octets) = true
is_held _ = false

abbrev pub has_fault : List Control.Effect → Bool
has_fault [] = false
has_fault (Control.fault ∷ effects) = true
has_fault (_ ∷ effects) = has_fault effects

pub has_fault-append :
    (xs ys : List Control.Effect) → has_fault (xs ++ ys) ≡ (has_fault xs || has_fault ys)
has_fault-append [] ys = refl
has_fault-append (Control.fault ∷ xs) ys = refl
has_fault-append (Control.sent o ∷ xs) ys = has_fault-append xs ys
has_fault-append (Control.link_up p ∷ xs) ys = has_fault-append xs ys
has_fault-append (Control.set_accm a ∷ xs) ys = has_fault-append xs ys

-- The layer's own effects are none.
pub record IsFaultless {Options : Type 0} (layer : Control.Layer Options) : Type 0 where
  pub defaulted : (o : Options) → has_fault (layer.defaulted o) ≡ false
  pub up : (o : Options) → has_fault (layer.up o) ≡ false

abbrev pub needs_buffer : Control.Event → Bool
needs_buffer Control.event_rcr_p = true
needs_buffer Control.event_rcr_m = true
needs_buffer Control.event_rca = true
needs_buffer Control.event_rcn = true
needs_buffer Control.event_rtr = true
needs_buffer Control.event_rxr = true
needs_buffer _ = false

abbrev pub is_idle : Control.State → Bool
is_idle Control.state_closed = true
is_idle Control.state_stopped = true
is_idle _ = false

module _ {Options : Type 0} (layer : Control.Layer Options) (f : IsFaultless layer) where
  -- With a buffer at hand no event uses a released one.
  pub handle_event-held :
      (event : Control.Event) (c : Control.Control Options)
      → is_held c.send ≡ true
      → has_fault (Control.handle_event layer event c).1 ≡ false
  unfolding Control.handle_event
  handle_event-held event c h = grind (arith, has_fault-append, f.defaulted, f.up)

  -- The events that come without a buffer, but one, use none.
  pub handle_event-quiet :
      (event : Control.Event) (c : Control.Control Options)
      → needs_buffer event ≡ false
      → has_fault (Control.handle_event layer event c).1 ≡ false
  unfolding Control.handle_event
  handle_event-quiet event c h = grind (arith, has_fault-append, f.defaulted, f.up)

  -- That one is the receipt of an acknowledgement, in two states.
  pub handle_event-rca :
      (c : Control.Control Options)
      → has_fault (Control.handle_event layer Control.event_rca c).1
        ≡ (is_idle c.state && not (is_held c.send))
  unfolding Control.handle_event
  handle_event-rca c = grind (arith, has_fault-append, f.defaulted, f.up)
