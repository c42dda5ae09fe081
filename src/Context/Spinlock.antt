-- ===== src/Context/Spinlock.antt =====
-- Taking and releasing a lock, src/lib/context/spinlock.c. A lock holds the priority that its
-- holder runs at, and keeps the one that it had before.
pub mod Preemption
use liquorice.Base.{
  ℕ, ◌+◌, ◌-◌, ◌%◌, ◌^◌, true, false, Option, none, some, List, [], ◌∷◌, ltb, if◌then◌else◌,
}
use liquorice.Context.{
  System, State, Lock, ready, update, set_state, priority_of, behind, insert_first, isr_switch,
}

-- `spinlock_lock()` and, where `priority` is 0, `isr_spinlock_lock()`.
lock_at : System → Lock → ℕ → System × Lock
lock_at s l priority =
    let c = s.contexts s.current in
    (
      update s s.current
          (record c { priority = priority; spinlocks_held = (c.spinlocks_held + 1) % 2 ^ 8 }),
      record l { held = true; pri_unlocked = c.priority },
    )

pub lock : System → Lock → System × Lock
unfolding lock_at
lock s l = lock_at s l l.pri_locked

pub isr_lock : System → Lock → System × Lock
unfolding lock_at
isr_lock s l = lock_at s l 0

-- The running context with the priority that it had before, and one lock less.
abbrev pub released : System → Lock → System
released s l =
    let c = s.contexts s.current in
    update s s.current (record c {
      priority = l.pri_unlocked;
      spinlocks_held = (c.spinlocks_held + 2 ^ 8 - 1) % 2 ^ 8;
    })

-- The running context back on the run queue `rest`, and the switch.
pub preempt : System → List ℕ → System × Option State
unfolding insert_first isr_switch
preempt s rest =
    let queue = insert_first (priority_of s) (priority_of s s.current) s.current rest in
    let (switched, state) =
      isr_switch (set_state (record s { run_queue = queue }) s.current ready) in
    (switched, some state)

-- The test of the context `next` on the run queue behind the running one.
pub yield_to : System → Lock → List ℕ → System × Option State
unfolding preempt
yield_to s l [] = (s, none)
yield_to s l (next ∷ rest) =
    if ltb (priority_of s next) l.pri_unlocked then preempt s (next ∷ rest) else (s, none)

-- `spinlock_unlock()` and `isr_spinlock_unlock()`, up to a switch.
pub unlock : System → Lock → (System × Option State) × Lock
unfolding behind yield_to
unlock s l = (yield_to (released s l) l (behind s.current s.run_queue), record l { held = false })
