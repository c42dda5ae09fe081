-- ===== src/Sem/Tests.antt =====
-- The semaphore's theorems at concrete inputs.
use liquorice.Base.{◌≡◌, refl, inl, inr, false, [], ◌∷◌, length, arith}
use liquorice.Context.{System, Lock, running}
use liquorice.Context.Spinlock.{lock, unlock}
use liquorice.Sem.{Sem, wait, post, interrupt}
use liquorice.Sem.Balance.{
  IsBalanced, here, wait_step, post_step, Run-IsBalanced, interrupt-lost_post,
}

abbrev alone : System
alone = record {
  contexts =
      λ c. record { priority = 16; state = running; context_switches = 0; spinlocks_held = 0 };
  current = 1;
  run_queue = 1 ∷ 2 ∷ [];
  run_queue_len = 2;
}

abbrev free_lock : Lock
free_lock = record { held = false; pri_locked = 8; pri_unlocked = 255 }

-- Nobody sleeps and there is one permit; or context 7 sleeps.
abbrev one_permit : Sem
one_permit = record { sleep_queue = []; lock = free_lock; count = 1 }

abbrev one_waits : Sem
one_waits = record { sleep_queue = 7 ∷ []; lock = free_lock; count = 255 }

Run-IsBalanced_example :
    let last = (post alone (wait alone one_permit).1).1 in
    IsBalanced last.count (length last.sleep_queue)
unfolding wait
Run-IsBalanced_example =
    Run-IsBalanced {sem = one_permit}
      (wait_step alone (omega arith) (post_step alone (omega arith) here)) (inl (omega arith, refl))

interrupt-lost_post_example :
    let sem' = (interrupt alone one_waits 7).1 in
    ((post alone sem').1.count ≡ 0)
    × ((post alone sem').1.sleep_queue ≡ [])
    × ((post alone sem').0 ≡ (unlock (lock alone sem'.lock).0 (lock alone sem'.lock).1).0.0)
interrupt-lost_post_example =
    interrupt-lost_post alone alone one_waits 7 (inr (omega arith, refl)) refl
