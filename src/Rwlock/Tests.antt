-- ===== src/Rwlock/Tests.antt =====
-- The reader-writer lock's theorems at concrete inputs.
use liquorice.Base.{◌≡◌, refl, inl, none, false, [], ◌∷◌, arith}
use liquorice.Context.{System, running}
use liquorice.Rwlock.{Rwlock, lock_read, lock_write, unlock_write}
use liquorice.Rwlock.Exclusion.{
  Use, here, lock_read_step, lock_write_step, IsExclusive, after_lock_read, after_lock_write,
  Run-IsExclusive, lock_write-unlock_write,
}

abbrev alone : System
alone = record {
  contexts =
      λ c. record { priority = 16; state = running; context_switches = 0; spinlocks_held = 0 };
  current = 1;
  run_queue = 1 ∷ 2 ∷ [];
  run_queue_len = 2;
}

abbrev free : Rwlock
free = record {
  lock = record { held = false; pri_locked = 8; pri_unlocked = 255 };
  read_sleep_queue = [];
  write_sleep_queue = [];
  readers = 0;
  writers = 0;
}

abbrev unused : Use
unused = record { rwl = free; reading = 0; writing = 0 }

Run-IsExclusive_example : IsExclusive (after_lock_write alone (after_lock_read alone unused))
Run-IsExclusive_example =
    Run-IsExclusive (lock_read_step alone (omega arith) (lock_write_step alone here))
      (record { readers = refl; writers = omega arith; alone = inl refl })

lock_write-unlock_write_example :
    let after = (unlock_write alone (lock_write alone free).1).1 in
    ((lock_read alone after).2 ≡ none) × ((lock_write alone after).2 ≡ none)
lock_write-unlock_write_example = lock_write-unlock_write alone alone alone alone free refl refl
