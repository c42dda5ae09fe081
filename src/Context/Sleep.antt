-- ===== src/Context/Sleep.antt =====
-- Going to sleep on a queue kept in the order of urgency.
use liquorice.Base.{
  ℕ, ◌+◌, ◌-◌, ◌%◌, ◌^◌, ◌≡◌, refl, ap, ◌∙◌, sym, subst, false, List, [], ◌∷◌, arith, ◌==◌,
  if◌then◌else◌,
}
use liquorice.Context.{
  System, Lock, sleep_queue, update, set_state, priority_of, take_off, isr_switch, isr_wait,
  wait_pri_queue, insert,
}
use liquorice.Context.Queue
use liquorice.Context.Queue.{IsSorted, has}
use liquorice.Context.Switch.{dispatched, dispatched-priority_of}
use liquorice.Context.Valid.{update-priority_of, set_state-priority_of}

switch_of-priority_of :
    (s : System) (queue : List ℕ)
    → s.run_queue ≡ queue
    → priority_of (isr_switch s).0 ≡ priority_of s
unfolding isr_switch
switch_of-priority_of s [] e =
    let c = s.contexts s.current in
    let x = record c { context_switches = (c.context_switches + 1) % 2 ^ 16 } in
    let e' : (isr_switch s).0 ≡ update s s.current x = rw e refl in
    ap priority_of e' ∙ update-priority_of s s.current x refl
switch_of-priority_of s (next ∷ rest) e =
    let e' : (isr_switch s).0 ≡ dispatched s next = rw e refl in
    ap priority_of e' ∙ dispatched-priority_of s next

-- A switch changes nobody's priority.
isr_switch-priority_of : (s : System) → priority_of (isr_switch s).0 ≡ priority_of s
isr_switch-priority_of s = switch_of-priority_of s s.run_queue refl

-- The priorities that a wait leaves: the context that sleeps has its own one back.
waited : System → Lock → System
waited s l =
    let c = s.contexts s.current in
    update s s.current (record c {
      priority = l.pri_unlocked;
      spinlocks_held = (c.spinlocks_held + 2 ^ 8 - 1) % 2 ^ 8;
    })

wait_pri_queue-priority_of :
    (s : System) (l : Lock) (queue : List ℕ)
    → priority_of (wait_pri_queue s l queue).0.0 ≡ priority_of (waited s l)
unfolding wait_pri_queue isr_wait waited
wait_pri_queue-priority_of s l queue =
    let off = record (take_off (waited s l)) {
      run_queue_len = (s.run_queue_len + 2 ^ 8 - 1) % 2 ^ 8;
    } in
    isr_switch-priority_of (set_state off s.current sleep_queue)
    ∙ set_state-priority_of off s.current sleep_queue

waited-priority_of :
    (s : System) (l : Lock) (x : ℕ)
    → (x == s.current) ≡ false
    → priority_of (waited s l) x ≡ priority_of s x
unfolding waited
waited-priority_of s l x e =
    let c = s.contexts s.current in
    let c' = record c {
      priority = l.pri_unlocked;
      spinlocks_held = (c.spinlocks_held + 2 ^ 8 - 1) % 2 ^ 8;
    } in
    ap (λ b. (if b then c' else s.contexts x).priority) e

waited-current : (s : System) (l : Lock) → priority_of (waited s l) s.current ≡ l.pri_unlocked
unfolding waited
waited-current s l = ground arith

wait_pri_queue-insert :
    (s : System) (l : Lock) (queue : List ℕ)
    → (wait_pri_queue s l queue).1 ≡ insert (priority_of s) l.pri_unlocked s.current queue
unfolding wait_pri_queue
wait_pri_queue-insert s l queue = refl

insert-change :
    (pri pri' : ℕ → ℕ) (p c : ℕ) (queue : List ℕ)
    → ((x : ℕ) → (x == c) ≡ false → pri' x ≡ pri x)
    → has c queue ≡ false
    → insert pri p c queue ≡ insert pri' p c queue
unfolding insert
insert-change pri pri' p c [] same absent = refl
insert-change pri pri' p c (q ∷ queue) same absent =
    let e : pri' q ≡ pri q = same q (ground arith) in
    let tail = insert-change pri pri' p c queue same (ground arith) in rw e rw tail refl

-- A context that goes to sleep on a queue ordered by priority, and was not on it, keeps it
-- ordered, by the priorities that the contexts have while they sleep.
pub wait_pri_queue-IsSorted :
    (s : System) (l : Lock) (queue : List ℕ)
    → IsSorted (priority_of s) 0 queue
    → has s.current queue ≡ false
    → let ((s', _, _), queue') = wait_pri_queue s l queue in IsSorted (priority_of s') 0 queue'
wait_pri_queue-IsSorted s l queue sorted absent =
    let pri = priority_of s in
    let pri' = priority_of (waited s l) in
    let off_current : (x : ℕ) → (x == s.current) ≡ false → pri' x ≡ pri x =
      waited-priority_of s l in
    let own : pri' s.current ≡ l.pri_unlocked = waited-current s l in
    let queue' : (wait_pri_queue s l queue).1 ≡ insert pri' (pri' s.current) s.current queue =
      wait_pri_queue-insert s l queue
      ∙ insert-change pri pri' l.pri_unlocked s.current queue off_current absent
      ∙ ap (λ p. insert pri' p s.current queue) (sym own) in
    let placed =
      Queue.insert-IsSorted pri' s.current 0 queue
        (Queue.IsSorted-change pri pri' s.current 0 queue off_current absent sorted)
        (omega arith) in
    subst (λ r. IsSorted (priority_of (wait_pri_queue s l queue).0.0) 0 r) (sym queue')
      (subst (λ p. IsSorted p 0 (insert pri' (pri' s.current) s.current queue))
        (sym (wait_pri_queue-priority_of s l queue)) placed)
