-- ===== src/Ppp/Runs.antt =====
-- Every run of a link, from its allocation on, src/lib/ppp/ppp.c.
use liquorice.Base.{ℕ, ◌≡◌, refl, true, false, Option, none, some, List, arith}
use liquorice.Control
use liquorice.Control.{Control, handle_event, tick_timeout}
use liquorice.Control.Timer.{IsSound, handle_event-IsSound, tick_timeout-IsSound}
use liquorice.Lcp.Instance.{Client, Link, lcp}
use liquorice.Lcp.Sound.{recv_lcp-IsSound}
use liquorice.Ppp.{deliver, recv_netbuf, client_attach, client_detach, instance_alloc}

abbrev pub with_clients : Control Link → List Client → Control Link
with_clients c clients = record c { options = record c.options { client_list = clients } }

-- The links that a sequence of calls makes of a new one: packets arrive, the timer fires while it is in the
-- list of timers, clients come and go, and the link is told of any event.
pub data Reaches (stack : ℕ → ℕ) : Control Link → Type 0 where
  allocated : (garbage : ℕ) (memory : Link) → Reaches stack (instance_alloc garbage memory).0
  received :
      (mem : ℕ → ℕ) (size : ℕ) (c : Control Link)
      → Reaches stack c
      → Reaches stack (recv_netbuf stack mem size c).0.0
  timed_out :
      (c : Control Link)
      → Reaches stack c
      → c.is_attached ≡ true
      → Reaches stack (tick_timeout lcp c).0
  notified :
      (event : Control.Event) (c : Control Link)
      → Reaches stack c
      → Reaches stack (handle_event lcp event c).0
  attached :
      (pc : Client) (server : ℕ) (c : Control Link)
      → Reaches stack c
      → Reaches stack (with_clients c (client_attach pc server c.options.client_list).0)
  detached :
      (server : ℕ) (c : Control Link)
      → Reaches stack c
      → Reaches stack (with_clients c (client_detach server c.options.client_list))

fresh-IsSound :
    (c : Control Link)
    → c.state ≡ Control.state_initial
    → c.phase ≡ Control.phase_dead
    → c.is_attached ≡ false
    → IsSound c
fresh-IsSound c s p a = ground arith

instance_alloc-IsSound : (garbage : ℕ) (memory : Link) → IsSound (instance_alloc garbage memory).0
unfolding instance_alloc
instance_alloc-IsSound garbage memory =
    handle_event-IsSound lcp Control.event_open _
      (handle_event-IsSound lcp Control.event_up _ (fresh-IsSound _ refl refl refl))

with_clients-IsSound :
    (c : Control Link) (clients : List Client) → IsSound c → IsSound (with_clients c clients)
with_clients-IsSound c clients x = record { timer = x.timer; armed = x.armed; network = x.network }

deliver-IsSound :
    (mem : ℕ → ℕ) (protocol size : ℕ) (c : Control Link) (found : Option Client)
    → IsSound c
    → IsSound (deliver mem protocol size c found).0.0
unfolding deliver
deliver-IsSound mem protocol size c (some pc) x = x
deliver-IsSound mem protocol size c none x = record {
  timer = x.timer;
  armed = x.armed;
  network = x.network;
}

recv_netbuf-IsSound :
    (stack mem : ℕ → ℕ) (size : ℕ) (c : Control Link)
    → IsSound c
    → IsSound (recv_netbuf stack mem size c).0.0
unfolding recv_netbuf
recv_netbuf-IsSound stack mem size c x = grind (arith, recv_lcp-IsSound, deliver-IsSound)

-- In every link that a sequence of calls reaches, the restart timer is in the list of timers just when the
-- state waits for an answer, in ACK-RCVD and OPENED some of the restart counter is left, and
-- the phase is the network's just when the state is opened.
pub Reaches-IsSound : (stack : ℕ → ℕ) (c : Control Link) → Reaches stack c → IsSound c
Reaches-IsSound stack _ (allocated garbage memory) = instance_alloc-IsSound garbage memory
Reaches-IsSound stack _ (received mem size c r) =
    recv_netbuf-IsSound stack mem size c (Reaches-IsSound stack c r)
Reaches-IsSound stack _ (timed_out c r e) = tick_timeout-IsSound lcp c (Reaches-IsSound stack c r) e
Reaches-IsSound stack _ (notified event c r) =
    handle_event-IsSound lcp event c (Reaches-IsSound stack c r)
Reaches-IsSound stack _ (attached pc server c r) =
    with_clients-IsSound c _ (Reaches-IsSound stack c r)
Reaches-IsSound stack _ (detached server c r) = with_clients-IsSound c _ (Reaches-IsSound stack c r)
