-- ===== src/Context/Spinlock/Preemption.antt =====
-- Releasing a lock: the running context gives way to a more urgent one that has become ready.
use liquorice.Base.{
  ℕ, ◌+◌, ◌-◌, ◌%◌, ◌^◌, ◌≤◌, ◌<◌, ◌≡◌, ◌⊎◌, refl, ap, ◌∙◌, sym, subst, List, [], ◌∷◌, arith, ltb,
  Bool-cases, inl, inr, none,
}
use liquorice.Context.{System, Lock, ready, set_state, priority_of, insert_first}
use liquorice.Context.Queue
use liquorice.Context.Queue.{IsSorted, IsNodup, IsInsertion, has}
use liquorice.Context.Valid.{IsValid}
use liquorice.Context.Switch.{
  IsQueue, set_state-IsQueue, isr_switch-cons, behind-current, valid-IsNodup, valid-count,
  rest-IsSorted, changed-IsSorted,
}
use liquorice.Context.Spinlock.{released, preempt, yield_to, unlock}

-- The priority that the running context has back.
released-priority_of :
    (s : System) (l : Lock) → priority_of (released s l) s.current ≡ l.pri_unlocked
released-priority_of s l = ground arith

module _ (s : System) (l : Lock) (v : IsValid s) where
  released-IsSorted : IsSorted (priority_of (released s l)) 0 v.rest
  released-IsSorted =
      let c = s.contexts s.current in
      changed-IsSorted s v
        (record c {
          priority = l.pri_unlocked;
          spinlocks_held = (c.spinlocks_held + 2 ^ 8 - 1) % 2 ^ 8;
        })
        0 (rest-IsSorted s v)

  preempt-IsValid :
      let pri = priority_of (released s l) in
      IsValid (preempt (released s l) v.rest).0
      × ((preempt (released s l) v.rest).0.run_queue
          ≡ insert_first pri (pri s.current) s.current v.rest)
  unfolding preempt
  preempt-IsValid =
      let s' = released s l in
      let pri = priority_of s' in
      let queue = insert_first pri (pri s.current) s.current v.rest in
      let (next, rest, e) = Queue.insert_first-cons pri (pri s.current) s.current v.rest in
      let q : IsQueue (record s' { run_queue = queue }) next rest = record {
        queue = e;
        sorted = Queue.insert_first-IsSorted pri s.current 0 v.rest released-IsSorted (omega arith);
        nodup =
            Queue.insert_first-IsNodup pri (pri s.current) s.current v.rest (valid-IsNodup s v).1
              (valid-IsNodup s v).0;
        count =
            valid-count s v
            ∙ ap (λ n. n % 2 ^ 8)
                (sym (Queue.length-insert_first pri (pri s.current) s.current v.rest));
      } in
      let (valid, same) =
        isr_switch-cons (set_state (record s' { run_queue = queue }) s.current ready) next rest
          (set_state-IsQueue (record s' { run_queue = queue }) next rest s.current ready q) in
      (valid, same ∙ sym e)

  -- The running context stays when the next one is not more urgent.
  released-IsValid :
      IsSorted (priority_of (released s l)) l.pri_unlocked v.rest → IsValid (released s l)
  released-IsValid sorted = record {
    rest = v.rest;
    queue = v.queue;
    sorted =
        subst (λ r. IsSorted (priority_of (released s l)) 0 r) (sym v.queue)
          (
            omega arith,
            subst (λ p. IsSorted (priority_of (released s l)) p v.rest)
                (sym (released-priority_of s l)) sorted,
          );
    nodup = v.nodup;
    count = v.count;
  }

  -- The two ways that a release goes.
  yield_to-cases :
      (rest : List ℕ)
      → IsSorted (priority_of (released s l)) 0 rest
      → (yield_to (released s l) l rest ≡ preempt (released s l) rest)
        ⊎ ((yield_to (released s l) l rest ≡ (released s l, none))
            × IsSorted (priority_of (released s l)) l.pri_unlocked rest)
  unfolding yield_to
  yield_to-cases [] sorted = inr (refl, tt)
  yield_to-cases (next ∷ rest) sorted =
      elim (Bool-cases (ltb (priority_of (released s l) next) l.pri_unlocked)) [
        | inl urgent ↦ inl (rw urgent refl)
        | inr calm ↦ inr (rw calm refl, (ground arith, sorted.1))
      ]

  unlock-yield_to : (unlock s l).0.0 ≡ (yield_to (released s l) l v.rest).0
  unfolding unlock
  unlock-yield_to = ap (λ r. (yield_to (released s l) l r).0) (behind-current s v)

  -- From a valid run queue: after the running context releases a lock and has the priority back
  -- that the lock kept, the run queue is valid, its first and most urgent context the running one.
  -- The holder is behind those more urgent than that priority and in front of the others, also
  -- those of its own priority; the others keep their order.
  pub unlock-IsInsertion :
      let pri = priority_of (released s l) in
      IsValid (unlock s l).0.0
      × IsInsertion
          (λ q. pri q < pri s.current)
          (λ q. pri s.current ≤ pri q)
          s.current
          v.rest
          (unlock s l).0.0.run_queue
  unlock-IsInsertion =
      let pri = priority_of (released s l) in
      let Goal = λ (t : System).
        IsValid t
        × IsInsertion (λ q. pri q < pri s.current) (λ q. pri s.current ≤ pri q) s.current v.rest
            t.run_queue in
      elim (yield_to-cases v.rest released-IsSorted) [
        | inl e ↦
            let (valid, queue) = preempt-IsValid in
            subst Goal (sym (unlock-yield_to ∙ ap (λ r. r.0) e)) (
              valid,
              subst
                  (λ r.
                    IsInsertion (λ q. pri q < pri s.current) (λ q. pri s.current ≤ pri q) s.current
                      v.rest r)
                  (sym queue)
                  (Queue.insert_first-IsInsertion pri (pri s.current) s.current 0 v.rest
                    released-IsSorted),
            )
        | inr (e, sorted) ↦ subst Goal (sym (unlock-yield_to ∙ ap (λ r. r.0) e)) (
          released-IsValid sorted,
          (
            [],
            v.rest,
            refl,
            v.queue,
            tt,
            Queue.sorted-All_le pri l.pri_unlocked (pri s.current) v.rest sorted
                (rw (released-priority_of s l) omega arith),
          ),
        )
      ]
