-- ===== src/Sem.antt =====
-- Counting semaphores, src/lib/sem/sem.c, on the operations of contexts and locks. A call that sleeps
-- is two functions: `wait` ends where the context is switched out, and `resume` is the rest, run when
-- the context goes on.
pub mod Balance
mod Tests
use liquorice.Base.{
  ℕ, ◌+◌, ◌-◌, ◌%◌, ◌^◌, Bool, true, false, ◌||◌, Option, none, some, List, [], ltb, leb, ◌==◌,
  if◌then◌else◌,
}
use liquorice.Context.{
  System, State, Lock, ready, wait_pri_queue, signal_queue, interrupt_queue, isr_resume,
}
use liquorice.Context.Spinlock.{lock, unlock}

-- `count`, an `s8_t`, is its pattern of eight bits.
pub record Sem : Type 0 where
  pub sleep_queue : List ℕ
  pub lock : Lock
  pub count : ℕ

-- `s_count >= 0` and `s_count <= 0`
abbrev pub is_nonneg : ℕ → Bool
is_nonneg count = ltb count (2 ^ 7)

abbrev pub is_nonpos : ℕ → Bool
is_nonpos count = (count == 0) || leb (2 ^ 7) count

-- The release that ends every operation.
abbrev finish : System → Lock → List ℕ → ℕ → System × Sem
finish s l queue count =
    let ((s', _), l') = unlock s l in (s', record { sleep_queue = queue; lock = l'; count = count })

-- `sem_wait()`, with what it returns, or none when it sleeps.
pub wait : System → Sem → System × Sem × Option State
wait s sem =
    let (s₁, l) = lock s sem.lock in
    let count = (sem.count + 2 ^ 8 - 1) % 2 ^ 8 in
    let (s', sem') = finish s₁ l sem.sleep_queue count in
    let ((s₂, l', _), queue) = wait_pri_queue s₁ l sem.sleep_queue in
    if is_nonneg count
    then (s', sem', some ready)
    else (s₂, record { sleep_queue = queue; lock = l'; count = count }, none)

-- The rest of `sem_wait()` after it slept.
pub resume : System → Sem → System × Sem
resume s sem = let (s₁, l) = isr_resume s sem.lock in finish s₁ l sem.sleep_queue sem.count

-- `sem_post()`
pub post : System → Sem → System × Sem
post s sem =
    let (s₁, l) = lock s sem.lock in
    let count = (sem.count + 1) % 2 ^ 8 in
    let (s₂, queue, _) = signal_queue s₁ sem.sleep_queue in
    if is_nonpos count then finish s₂ l queue count else finish s₁ l sem.sleep_queue count

-- `sem_interrupt()`
pub interrupt : System → Sem → ℕ → System × Sem
interrupt s sem c =
    let (s₁, l) = lock s sem.lock in
    let (s₂, queue, _) = interrupt_queue s₁ c sem.sleep_queue in finish s₂ l queue sem.count

-- `sem_get_count()`
pub get_count : System → Sem → (System × Sem) × ℕ
get_count s sem =
    let (s₁, l) = lock s sem.lock in (finish s₁ l sem.sleep_queue sem.count, sem.count)

-- `sem_init()`
pub init : Sem → ℕ → ℕ → Sem
init sem pri count = record {
  sleep_queue = [];
  lock = record sem.lock { held = false; pri_locked = pri };
  count = count;
}
