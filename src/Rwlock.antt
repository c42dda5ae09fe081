-- ===== src/Rwlock.antt =====
-- Reader-writer locks, src/lib/rwlock/rwlock.c, on the operations of contexts and locks. A call that
-- sleeps ends where the context is switched out, and `resume` is the rest of it.
pub mod Exclusion
mod Tests
use liquorice.Base.{
  ℕ, ◌+◌, ◌-◌, ◌%◌, ◌^◌, Bool, true, false, ◌&&◌, Option, none, some, List, [], ◌∷◌, ◌==◌,
  if◌then◌else◌,
}
use liquorice.Context.{
  System, State, Lock, ready, wait_queue, wait_pri_queue, signal_queue, broadcast_queue,
  interrupt_queue, isr_resume,
}
use liquorice.Context.Spinlock.{lock, unlock}

pub record Rwlock : Type 0 where
  pub lock : Lock
  pub read_sleep_queue : List ℕ
  pub write_sleep_queue : List ℕ
  pub readers : ℕ
  pub writers : ℕ

abbrev is_empty : List ℕ → Bool
is_empty [] = true
is_empty (c ∷ queue) = false

-- The release that ends every operation.
abbrev finish : System → Lock → Rwlock → System × Rwlock
finish s l rwl = let ((s', _), l') = unlock s l in (s', record rwl { lock = l' })

-- `rwlock_lock_read()`, with what it returns, or none when it sleeps.
pub lock_read : System → Rwlock → System × Rwlock × Option State
lock_read s rwl =
    let (s₁, l) = lock s rwl.lock in
    let (s', rwl') = finish s₁ l (record rwl { readers = (rwl.readers + 1) % 2 ^ 8 }) in
    let ((s₂, l', _), queue) = wait_queue s₁ l rwl.read_sleep_queue in
    if (rwl.writers == 0) && is_empty rwl.write_sleep_queue
    then (s', rwl', some ready)
    else (s₂, record rwl { lock = l'; read_sleep_queue = queue }, none)

-- `rwlock_lock_write()`
pub lock_write : System → Rwlock → System × Rwlock × Option State
lock_write s rwl =
    let (s₁, l) = lock s rwl.lock in
    let (s', rwl') = finish s₁ l (record rwl { writers = (rwl.writers + 1) % 2 ^ 8 }) in
    let ((s₂, l', _), queue) = wait_pri_queue s₁ l rwl.write_sleep_queue in
    if (rwl.writers == 0) && (rwl.readers == 0)
    then (s', rwl', some ready)
    else (s₂, record rwl { lock = l'; write_sleep_queue = queue }, none)

-- The rest of `rwlock_lock_read()` and `rwlock_lock_write()` after they slept.
pub resume : System → Rwlock → System × Rwlock
resume s rwl = let (s₁, l) = isr_resume s rwl.lock in finish s₁ l rwl

-- `rwlock_unlock_read()`
pub unlock_read : System → Rwlock → System × Rwlock
unlock_read s rwl =
    let (s₁, l) = lock s rwl.lock in
    let (s₂, queue, woken) = signal_queue s₁ rwl.write_sleep_queue in
    if rwl.readers == 0
    then finish s₁ l rwl
    else if rwl.readers == 1
    then finish s₂ l (record rwl { readers = 0; writers = woken; write_sleep_queue = queue })
    else finish s₁ l (record rwl { readers = rwl.readers - 1 })

-- `rwlock_unlock_write()`
pub unlock_write : System → Rwlock → System × Rwlock
unlock_write s rwl =
    let (s₁, l) = lock s rwl.lock in
    let (s₂, writers, woken) = signal_queue s₁ rwl.write_sleep_queue in
    let (s₃, readers, count) = broadcast_queue s₂ rwl.read_sleep_queue in
    if woken == 0
    then finish s₃ l
        (record rwl { write_sleep_queue = writers; read_sleep_queue = readers; readers = count })
    else finish s₂ l (record rwl { write_sleep_queue = writers })

-- `rwlock_interrupt()`
pub interrupt : System → Rwlock → ℕ → System × Rwlock
interrupt s rwl c =
    let (s₁, l) = lock s rwl.lock in
    let (s₂, writers, woken) = interrupt_queue s₁ c rwl.write_sleep_queue in
    let (s₃, readers, _) = interrupt_queue s₂ c rwl.read_sleep_queue in
    if woken == 0
    then finish s₃ l (record rwl { write_sleep_queue = writers; read_sleep_queue = readers })
    else finish s₂ l (record rwl { write_sleep_queue = writers })

-- `rwlock_init()`
pub init : Rwlock → ℕ → Rwlock
init rwl pri = record rwl {
  read_sleep_queue = [];
  write_sleep_queue = [];
  lock = record rwl.lock { held = false; pri_locked = pri };
  readers = 0;
}
