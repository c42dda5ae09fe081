-- ===== src/Context/Wake.antt =====
-- Waking the contexts of a sleep queue, one or all of them.
use liquorice.Base.{
  ℕ, ◌+◌, ◌-◌, ◌%◌, ◌^◌, ◌≤◌, ◌<◌, ◌≡◌, refl, ap, ◌∙◌, sym, subst, Bool, true, false, ◌||◌, List,
  [], ◌∷◌, arith, ◌==◌, length, some,
}
use liquorice.Context.{
  interrupt_found, System, State, Lock, wait_pri_queue, ready, set_state, priority_of, isr_ready,
  wake, wake_all, broadcast_queue, signal_queue, interrupt_queue, remove,
}
use liquorice.Context.Queue
use liquorice.Context.Queue.{IsNodup, has}
use liquorice.Context.Valid.{IsValid, set_state-priority_of, wake-IsValid}

-- A sleep queue whose contexts can be woken: none of them is on the run queue or twice on the
-- sleep queue, and none is more urgent than the running context.
abbrev pub IsWaiting : System → List ℕ → Type 0
IsWaiting s [] = Unit {0}
IsWaiting s (c ∷ queue) =
    (has c s.run_queue ≡ false)
    × (has c queue ≡ false)
    × (priority_of s s.current ≤ priority_of s c)
    × IsWaiting s queue

or_swap : (a b d : Bool) → (a || (b || d)) ≡ ((b || a) || d)
or_swap true true d = refl
or_swap true false d = refl
or_swap false true d = refl
or_swap false false d = refl

pub has-wake :
    (x : ℕ) (s : System) (c : ℕ) (state : State)
    → has x (wake s c state).run_queue ≡ ((c == x) || has x s.run_queue)
unfolding wake isr_ready
has-wake x s c state =
    let t = set_state s c state in
    Queue.has-insert (priority_of t) x (priority_of t c) c s.run_queue

pub length-wake :
    (s : System) (c : ℕ) (state : State)
    → length (wake s c state).run_queue ≡ length s.run_queue + 1
unfolding wake isr_ready
length-wake s c state =
    let t = set_state s c state in
    Queue.length-insert (priority_of t) (priority_of t c) c s.run_queue

pub wake-priority_of :
    (s : System) (c : ℕ) (state : State) → priority_of (wake s c state) ≡ priority_of s
unfolding wake isr_ready
wake-priority_of s c state = set_state-priority_of s c state

pub wake-current : (s : System) (c : ℕ) (state : State) → (wake s c state).current ≡ s.current
unfolding wake isr_ready
wake-current s c state = refl

-- Waking one context leaves the others waiting.
pub wake-IsWaiting :
    (s : System) (c : ℕ) (state : State) (queue : List ℕ)
    → IsWaiting s queue
    → has c queue ≡ false
    → IsWaiting (wake s c state) queue
wake-IsWaiting s c state [] w absent = tt
wake-IsWaiting s c state (q ∷ queue) (off, once, calm, w) absent =
    let rest = wake-IsWaiting s c state queue w (ground arith) in
    (
      has-wake q s c state ∙ ground arith,
      once,
      subst (λ pri. pri (wake s c state).current ≤ pri q) (sym (wake-priority_of s c state))
          (subst (λ a. priority_of s a ≤ priority_of s q) (sym (wake-current s c state)) calm),
      rest,
    )

-- From a valid run queue, and a sleep queue without duplicates whose contexts are off the run
-- queue and not more urgent than the running one: waking all of them keeps the run queue valid;
-- exactly those contexts join it, and the count is theirs, modulo the size of its type.
pub wake_all-IsValid :
    (s : System) (queue : List ℕ) (woken : ℕ)
    → IsValid s
    → IsWaiting s queue
    → let (s', count) = wake_all s queue woken in
      IsValid s'
      × ((x : ℕ) → has x s'.run_queue ≡ (has x queue || has x s.run_queue))
      × (length s'.run_queue ≡ length s.run_queue + length queue)
      × (count % 2 ^ 8 ≡ (woken + length queue) % 2 ^ 8)
unfolding wake_all
wake_all-IsValid s [] woken v w = (v, λ x. refl, omega arith, omega arith)
wake_all-IsValid s (c ∷ queue) woken v (off, once, calm, w) =
    let (valid, on, len, count) =
      wake_all-IsValid (wake s c ready) queue ((woken + 1) % 2 ^ 8)
        (wake-IsValid s c ready v off calm) (wake-IsWaiting s c ready queue w once) in
    (
      valid,
      λ x.
          on x
          ∙ ap (λ b. has x queue || b) (has-wake x s c ready)
          ∙ or_swap (has x queue) (c == x) (has x s.run_queue),
      len ∙ ap (λ n. n + length queue) (length-wake s c ready) ∙ omega arith,
      count ∙ omega arith,
    )

pub wait_pri_queue-length :
    (s : System) (l : Lock) (queue : List ℕ)
    → length (wait_pri_queue s l queue).1 ≡ length queue + 1
unfolding wait_pri_queue
wait_pri_queue-length s l queue = Queue.length-insert (priority_of s) l.pri_unlocked s.current queue

pub signal_queue-length :
    (s : System) (queue : List ℕ) → length (signal_queue s queue).1 ≡ length queue - 1
unfolding signal_queue
signal_queue-length s [] = omega arith
signal_queue-length s (c ∷ queue) = omega arith

remove-only : (c : ℕ) → remove c (c ∷ []) ≡ some []
unfolding remove
remove-only c = ground arith

pub interrupt_queue-only : (s : System) (c : ℕ) → (interrupt_queue s c (c ∷ [])).1 ≡ []
unfolding interrupt_queue interrupt_found
interrupt_queue-only s c = ap (λ r. (interrupt_found s c (c ∷ []) r).1) (remove-only c)

pub signal_queue-empty : (s : System) → signal_queue s [] ≡ (s, [], 0)
unfolding signal_queue
signal_queue-empty s = refl

-- The count of the woken is what the queue lost.
pub signal_queue-count :
    (s : System) (queue : List ℕ)
    → (length (signal_queue s queue).1 + (signal_queue s queue).2 ≡ length queue)
      × ((signal_queue s queue).2 ≤ 1)
      × ((signal_queue s queue).2 ≡ 0 → length queue ≡ 0)
unfolding signal_queue
signal_queue-count s [] = (omega arith, omega arith, λ e. omega arith)
signal_queue-count s (c ∷ queue) = (omega arith, omega arith, λ e. omega arith)

wake_all-count :
    (s : System) (queue : List ℕ) (woken : ℕ)
    → woken < 2 ^ 8
    → (wake_all s queue woken).1 ≡ (woken + length queue) % 2 ^ 8
unfolding wake_all
wake_all-count s [] woken h = omega arith
wake_all-count s (c ∷ queue) woken h =
    wake_all-count (wake s c ready) queue ((woken + 1) % 2 ^ 8) (omega arith) ∙ omega arith

pub broadcast_queue-count :
    (s : System) (queue : List ℕ)
    → ((broadcast_queue s queue).1 ≡ []) × ((broadcast_queue s queue).2 ≡ length queue % 2 ^ 8)
unfolding broadcast_queue
broadcast_queue-count s queue = (refl, wake_all-count s queue 0 (omega arith) ∙ omega arith)
