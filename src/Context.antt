-- ===== src/Context.antt =====
-- Operating contexts and their run queue, src/lib/context/context.c, isr_context_switch.c and
-- spinlock.c. A context is a number. The run queue, threaded through `c_run_queue`, and a sleep
-- queue, threaded through `c_sleep_queue`, are the lists of their contexts, first one first; a
-- pointer to a sleep queue is an argument and its new value part of the result. The assertions of
-- the debug build, and the stack frames that a switch saves and restores, are left out.
pub mod Queue
pub mod Valid
pub mod Switch
pub mod Wait
pub mod Wake
pub mod Sleep
pub mod Spinlock
mod Tests
use liquorice.Base.{
  ℕ, ◌+◌, ◌-◌, ◌%◌, ◌^◌, Bool, true, false, ◌&&◌, Option, none, some, List, [], ◌∷◌, ltb, leb, ◌==◌,
  if◌then◌else◌,
}

-- The values of `c_state`.
pub data State : Type 0 where
  null running ready interrupted sleep sleep_queue : State

pub record Context : Type 0 where
  pub priority : ℕ
  pub state : State
  pub context_switches : ℕ
  pub spinlocks_held : ℕ

pub record Lock : Type 0 where
  pub held : Bool
  pub pri_locked : ℕ
  pub pri_unlocked : ℕ

-- `current` is `current_context`, `run_queue_len` a `u8_t`.
pub record System : Type 0 where
  pub contexts : ℕ → Context
  pub current : ℕ
  pub run_queue : List ℕ
  pub run_queue_len : ℕ

abbrev pub update : System → ℕ → Context → System
update s c x = record s { contexts = λ a. if a == c then x else s.contexts a }

abbrev pub set_state : System → ℕ → State → System
set_state s c state = update s c (record (s.contexts c) { state = state })

abbrev pub priority_of : System → ℕ → ℕ
priority_of s c = (s.contexts c).priority

-- The walk of `isr_context_ready()` and of `context_wait_pri_queue()`: `c` goes behind every context
-- whose priority is at most `priority`.
pub insert : (ℕ → ℕ) → ℕ → ℕ → List ℕ → List ℕ
insert pri priority c [] = c ∷ []
insert pri priority c (q ∷ queue) =
    if leb (pri q) priority then q ∷ insert pri priority c queue else c ∷ q ∷ queue

-- The walk of `spinlock_unlock()`: `c` goes in front of the contexts of its own priority.
pub insert_first : (ℕ → ℕ) → ℕ → ℕ → List ℕ → List ℕ
insert_first pri priority c [] = c ∷ []
insert_first pri priority c (q ∷ queue) =
    if ltb (pri q) priority then q ∷ insert_first pri priority c queue else c ∷ q ∷ queue

-- `isr_context_ready()`
pub isr_ready : System → ℕ → System
unfolding insert
isr_ready s c = record s { run_queue = insert (priority_of s) (priority_of s c) c s.run_queue }

-- What `c->c_run_queue` leads to: the part of the run queue behind `c`.
pub behind : ℕ → List ℕ → List ℕ
behind c [] = []
behind c (q ∷ queue) = if q == c then queue else behind c queue

abbrev pub take_off : System → System
take_off s = record s { run_queue = behind s.current s.run_queue }

-- `isr_context_switch()`: the context at the head of the run queue goes on, with the state that it
-- had as the result of its own call.
pub isr_switch : System → System × State
isr_switch s =
    let c = s.contexts s.current in
    let counted =
      update s s.current (record c { context_switches = (c.context_switches + 1) % 2 ^ 16 }) in
    elim s.run_queue [
      | [] ↦ (counted, null)
      | next ∷ _ ↦ (
        set_state (record counted { current = next }) next running,
        (counted.contexts next).state,
      )
    ]

-- The switch to the head of the run queue when that is not the running context: the end of
-- `isr_context_yield()` and of `context_init()`. The result is the state that the context which goes
-- on is told, if there was a switch.
pub reschedule : System → System × Option State
unfolding isr_switch
reschedule s = elim s.run_queue [
  | [] ↦ (s, none)
  | next ∷ _ ↦
      if next == s.current
      then (s, none)
      else let (switched, state) = isr_switch (set_state s s.current ready) in
        (switched, some state)
]

-- `isr_context_yield()`
pub isr_yield : System → System × Option State
unfolding behind isr_ready reschedule
isr_yield s = reschedule (isr_ready (take_off s) s.current)

-- `context_exit()`, up to the jump into the switch.
pub exit : System → System
unfolding behind
exit s =
    set_state (record (take_off s) { run_queue_len = (s.run_queue_len + 2 ^ 8 - 1) % 2 ^ 8 })
      s.current null

-- `__isr_context_wait()` up to the switch, and the switch.
pub isr_wait : System → Lock → State → System × Lock × State
unfolding behind isr_switch
isr_wait s l sleep_state =
    let c = s.contexts s.current in
    let released = update s s.current (record c {
      priority = l.pri_unlocked;
      spinlocks_held = (c.spinlocks_held + 2 ^ 8 - 1) % 2 ^ 8;
    }) in
    let off = record (take_off released) {
      run_queue_len = (s.run_queue_len + 2 ^ 8 - 1) % 2 ^ 8;
    } in
    let (switched, state) = isr_switch (set_state off s.current sleep_state) in
    (switched, record l { held = false }, state)

-- The rest of `__isr_context_wait()`, in the context that goes on: it takes the lock again.
pub isr_resume : System → Lock → System × Lock
isr_resume s l =
    let c = s.contexts s.current in
    (
      update s s.current
          (record c { priority = l.pri_locked; spinlocks_held = (c.spinlocks_held + 1) % 2 ^ 8 }),
      record l { held = true; pri_unlocked = c.priority },
    )

-- `context_wait()`, `context_wait_queue()` and `context_wait_pri_queue()`, up to the switch.
pub wait : System → Lock → System × Lock × State
unfolding isr_wait
wait s l = isr_wait s l sleep

pub wait_queue : System → Lock → List ℕ → (System × Lock × State) × List ℕ
unfolding isr_wait
wait_queue s l queue = (isr_wait s l sleep_queue, s.current ∷ queue)

pub wait_pri_queue : System → Lock → List ℕ → (System × Lock × State) × List ℕ
unfolding isr_wait insert
wait_pri_queue s l queue =
    (isr_wait s l sleep_queue, insert (priority_of s) l.pri_unlocked s.current queue)

-- What every way of waking a context does.
pub wake : System → ℕ → State → System
unfolding isr_ready
wake s c state =
    isr_ready (record (set_state s c state) { run_queue_len = (s.run_queue_len + 1) % 2 ^ 8 }) c

abbrev pub is_sleep : State → Bool
is_sleep sleep = true
is_sleep _ = false

-- `context_signal()` and `context_interrupt()`.
pub signal : System → ℕ → System
unfolding wake
signal s c = if is_sleep (s.contexts c).state then wake s c ready else s

pub interrupt : System → ℕ → System
unfolding wake
interrupt s c = if is_sleep (s.contexts c).state then wake s c interrupted else s

-- `context_signal_queue()`: the system, the queue, and how many were woken.
pub signal_queue : System → List ℕ → System × List ℕ × ℕ
unfolding wake
signal_queue s [] = (s, [], 0)
signal_queue s (c ∷ queue) = (wake s c ready, queue, 1)

-- The loop of `context_broadcast_queue()`, with the count `woken`, a `u8_t`.
pub wake_all : System → List ℕ → ℕ → System × ℕ
unfolding wake
wake_all s [] woken = (s, woken)
wake_all s (c ∷ queue) woken = wake_all (wake s c ready) queue ((woken + 1) % 2 ^ 8)

pub broadcast_queue : System → List ℕ → System × List ℕ × ℕ
unfolding wake_all
broadcast_queue s queue = let (s', woken) = wake_all s queue 0 in (s', [], woken)

-- The walk of `context_interrupt_queue()`: the queue without `c`, if it is there.
pub remove : ℕ → List ℕ → Option (List ℕ)
remove c [] = none
remove c (q ∷ queue) =
    if q == c then some queue else elim (remove c queue) [ none ↦ none | some r ↦ some (q ∷ r) ]

interrupt_found : System → ℕ → List ℕ → Option (List ℕ) → System × List ℕ × ℕ
unfolding wake
interrupt_found s c queue none = (s, queue, 0)
interrupt_found s c queue (some rest) = (wake s c interrupted, rest, 1)

-- `context_interrupt_queue()`
pub interrupt_queue : System → ℕ → List ℕ → System × List ℕ × ℕ
unfolding remove interrupt_found
interrupt_queue s c queue = interrupt_found s c queue (remove c queue)

-- `context_init()` on a running system, up to a switch.
pub init : System → ℕ → ℕ → System × Option State
unfolding isr_ready reschedule
init s c pri =
    let fresh : Context = record {
      priority = pri;
      state = ready;
      context_switches = 0;
      spinlocks_held = 0;
    } in
    let queued =
      isr_ready (record (update s c fresh) { run_queue_len = (s.run_queue_len + 1) % 2 ^ 8 }) c in
    reschedule queued
