-- ===== src/Condvar.antt =====
-- Condition variables, src/lib/condvar/condvar.c, on the operations of contexts. The lock is that of
-- the caller: a call takes it and gives its new value back.
use liquorice.Base.{ℕ, List, []}
use liquorice.Context.{System, Lock, wait_pri_queue, signal_queue, broadcast_queue, interrupt_queue}

pub record Condvar : Type 0 where
  pub sleep_queue : List ℕ
  pub lock : Lock

-- `condvar_wait()`, up to the switch.
pub wait : System → Condvar → System × Condvar
wait s cv =
    let ((s', l, _), queue) = wait_pri_queue s cv.lock cv.sleep_queue in
    (s', record { sleep_queue = queue; lock = l })

-- `condvar_signal()`
pub signal : System → Condvar → System × Condvar
signal s cv =
    let (s', queue, _) = signal_queue s cv.sleep_queue in
    (s', record { sleep_queue = queue; lock = cv.lock })

-- `condvar_broadcast()`
pub broadcast : System → Condvar → System × Condvar
broadcast s cv =
    let (s', queue, _) = broadcast_queue s cv.sleep_queue in
    (s', record { sleep_queue = queue; lock = cv.lock })

-- `condvar_interrupt()`
pub interrupt : System → Condvar → ℕ → System × Condvar
interrupt s cv c =
    let (s', queue, _) = interrupt_queue s c cv.sleep_queue in
    (s', record { sleep_queue = queue; lock = cv.lock })

-- `condvar_init()`
pub init : Lock → Condvar
init l = record { sleep_queue = []; lock = l }
