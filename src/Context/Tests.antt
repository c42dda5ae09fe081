-- ===== src/Context/Tests.antt =====
-- The scheduler's theorems at concrete inputs.
use liquorice.Base.{◌≤◌, ◌<◌, ◌≡◌, refl, false, [], ◌∷◌, arith, ◌==◌, if◌then◌else◌}
use liquorice.Context.{
  System, Lock, running, ready, sleep, priority_of, isr_yield, isr_ready, insert, behind,
  reschedule, isr_switch,
}
use liquorice.Context.Queue.{IsInsertion}
use liquorice.Context.Valid.{IsValid}
use liquorice.Context.Switch.{isr_yield-IsInsertion}
use liquorice.Context.Spinlock.{unlock, released}
use liquorice.Context.Spinlock.Preemption.{unlock-IsInsertion}

-- Context `c` has priority 16 for 1 and 2, 8 for 4, and 32 for the others; 1 is running.
abbrev three : System
three = record {
  contexts = λ c. record {
    priority = if c == 4 then 8 else if c == 3 then 32 else 16;
    state = if c == 1 then running else if c == 4 then sleep else ready;
    context_switches = 0;
    spinlocks_held = 0;
  };
  current = 1;
  run_queue = 1 ∷ 2 ∷ 3 ∷ [];
  run_queue_len = 3;
}

abbrev free_lock : Lock
free_lock = record { held = false; pri_locked = 8; pri_unlocked = 16 }

abbrev three-IsValid : IsValid three
three-IsValid = record {
  rest = 2 ∷ 3 ∷ [];
  queue = refl;
  sorted = (omega arith, (omega arith, (omega arith, tt)));
  nodup = (refl, (refl, (refl, tt)));
  count = refl;
}

-- 1 gives way to 2, which has the same priority.
isr_yield-three : (isr_yield three).0.run_queue ≡ 2 ∷ 1 ∷ 3 ∷ []
unfolding isr_yield isr_ready insert behind reschedule isr_switch
isr_yield-three = refl

isr_yield-IsInsertion_example :
    IsValid (isr_yield three).0
    × IsInsertion
        (λ q. priority_of three q ≤ 16)
        (λ q. 16 < priority_of three q)
        1
        (2 ∷ 3 ∷ [])
        (isr_yield three).0.run_queue
isr_yield-IsInsertion_example = isr_yield-IsInsertion three three-IsValid

-- 1 runs at 8, with the lock, and has priority 16; 4, of priority 8, has become ready.
abbrev locked : System
locked = record three {
  contexts = λ c. record (three.contexts c) { priority = if c == 3 then 32 else 8 };
  run_queue = 1 ∷ 4 ∷ 3 ∷ [];
}

abbrev locked-IsValid : IsValid locked
locked-IsValid = record {
  rest = 4 ∷ 3 ∷ [];
  queue = refl;
  sorted = (omega arith, (omega arith, (omega arith, tt)));
  nodup = (refl, (refl, (refl, tt)));
  count = refl;
}

unlock-IsInsertion_example :
    let pri = priority_of (released locked free_lock) in
    IsValid (unlock locked free_lock).0.0
    × IsInsertion
        (λ q. pri q < pri 1)
        (λ q. pri 1 ≤ pri q)
        1
        (4 ∷ 3 ∷ [])
        (unlock locked free_lock).0.0.run_queue
unlock-IsInsertion_example = unlock-IsInsertion locked free_lock locked-IsValid
