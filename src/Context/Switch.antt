-- ===== src/Context/Switch.antt =====
-- Giving up the processor: yield and wait keep the run queue valid and the turn of its contexts.
use liquorice.Base.{
  ℕ, ◌+◌, ◌%◌, ◌^◌, ◌≤◌, ◌<◌, ◌≡◌, refl, ap, ◌∙◌, sym, subst, List, ◌∷◌, arith, ◌==◌, if◌then◌else◌,
  length, Bool-cases, inl, inr, ==_iff,
}
use liquorice.Context.{
  System, Context, State, running, ready, update, set_state, priority_of, isr_ready, isr_switch,
  reschedule, isr_yield, behind, take_off, insert,
}
use liquorice.Context.Queue
use liquorice.Context.Queue.{IsSorted, IsNodup, IsInsertion, has}
use liquorice.Context.Valid.{IsValid, set_state-priority_of, update-priority_of}

-- A run queue that the switch can go on with.
pub record IsQueue (s : System) (next : ℕ) (rest : List ℕ) : Type 0 where
  pub queue : s.run_queue ≡ next ∷ rest
  pub sorted : IsSorted (priority_of s) 0 s.run_queue
  pub nodup : IsNodup s.run_queue
  pub count : s.run_queue_len ≡ length s.run_queue % 2 ^ 8

pub behind-first : (c : ℕ) (rest : List ℕ) → behind c (c ∷ rest) ≡ rest
unfolding behind
behind-first c rest = ground arith

-- What the switch makes of a system, apart from its result.
abbrev pub dispatched : System → ℕ → System
dispatched s next =
    let c = s.contexts s.current in
    let counted =
      update s s.current (record c { context_switches = (c.context_switches + 1) % 2 ^ 16 }) in
    set_state (record counted { current = next }) next running

pub dispatched-priority_of :
    (s : System) (next : ℕ) → priority_of (dispatched s next) ≡ priority_of s
dispatched-priority_of s next =
    let c = s.contexts s.current in
    let counted = record c { context_switches = (c.context_switches + 1) % 2 ^ 16 } in
    set_state-priority_of (record (update s s.current counted) { current = next }) next running
    ∙ update-priority_of s s.current counted refl

-- The queue may be named in any system with the same priorities.
module _ (s : System) (next : ℕ) (rest : List ℕ) (q : IsQueue s next rest) where
  IsSorted-cons : (pri : ℕ → ℕ) → pri ≡ priority_of s → IsSorted pri 0 (next ∷ rest)
  IsSorted-cons pri e =
      subst (λ pri'. IsSorted pri' 0 (next ∷ rest)) (sym e)
        (subst (λ r. IsSorted (priority_of s) 0 r) q.queue q.sorted)

  -- A system whose current context is the head of that queue.
  IsValid-head :
      (t : System)
      → t.run_queue ≡ next ∷ rest
      → t.current ≡ next
      → t.run_queue_len ≡ s.run_queue_len
      → priority_of t ≡ priority_of s
      → IsValid t
  IsValid-head t e c l p = record {
    rest = rest;
    queue = e ∙ ap (λ a. a ∷ rest) (sym c);
    sorted = subst (λ r. IsSorted (priority_of t) 0 r) (sym e) (IsSorted-cons (priority_of t) p);
    nodup = subst IsNodup (q.queue ∙ sym e) q.nodup;
    count = l ∙ q.count ∙ ap (λ r. length r % 2 ^ 8) (q.queue ∙ sym e);
  }

  pub isr_switch-cons : IsValid (isr_switch s).0 × ((isr_switch s).0.run_queue ≡ next ∷ rest)
  unfolding isr_switch
  isr_switch-cons =
      let e : (isr_switch s).0 ≡ dispatched s next = rw q.queue refl in
      subst (λ t. IsValid t × (t.run_queue ≡ next ∷ rest)) (sym e)
        (
          IsValid-head (dispatched s next) q.queue refl refl (dispatched-priority_of s next),
          q.queue,
        )

pub set_state-IsQueue :
    (s : System) (next : ℕ) (rest : List ℕ) (c : ℕ) (state : State)
    → IsQueue s next rest
    → IsQueue (set_state s c state) next rest
set_state-IsQueue s next rest c state q = record {
  queue = q.queue;
  sorted =
      subst (λ pri. IsSorted pri 0 s.run_queue) (sym (set_state-priority_of s c state)) q.sorted;
  nodup = q.nodup;
  count = q.count;
}

pub reschedule-cons :
    (s : System) (next : ℕ) (rest : List ℕ)
    → IsQueue s next rest
    → IsValid (reschedule s).0 × ((reschedule s).0.run_queue ≡ next ∷ rest)
unfolding reschedule
reschedule-cons s next rest q = elim (Bool-cases (next == s.current)) [
  | inl same ↦
      let e : (reschedule s).0 ≡ s = rw q.queue rw same refl in
      subst (λ t. IsValid t × (t.run_queue ≡ next ∷ rest)) (sym e)
        (
          IsValid-head s next rest q s q.queue (sym ((==_iff next s.current).0 same)) refl refl,
          q.queue,
        )
  | inr other ↦
      let e : (reschedule s).0 ≡ (isr_switch (set_state s s.current ready)).0 =
        rw q.queue rw other refl in
      subst (λ t. IsValid t × (t.run_queue ≡ next ∷ rest)) (sym e)
        (isr_switch-cons (set_state s s.current ready) next rest
          (set_state-IsQueue s next rest s.current ready q))
]

-- A valid system taken apart.
module _ (s : System) (v : IsValid s) where
  pub behind-current : behind s.current s.run_queue ≡ v.rest
  behind-current = ap (behind s.current) v.queue ∙ behind-first s.current v.rest

  pub valid-IsSorted : IsSorted (priority_of s) 0 (s.current ∷ v.rest)
  valid-IsSorted = subst (λ r. IsSorted (priority_of s) 0 r) v.queue v.sorted

  pub valid-IsNodup : IsNodup (s.current ∷ v.rest)
  valid-IsNodup = subst IsNodup v.queue v.nodup

  pub valid-count : s.run_queue_len ≡ (length v.rest + 1) % 2 ^ 8
  valid-count = v.count ∙ ap (λ r. length r % 2 ^ 8) v.queue ∙ omega arith

  pub rest-IsSorted : IsSorted (priority_of s) 0 v.rest
  rest-IsSorted =
      Queue.IsSorted-mono (priority_of s) (priority_of s s.current) 0 v.rest valid-IsSorted.1
        (omega arith)

  yielded-IsQueue :
      (next : ℕ) (rest : List ℕ)
      → insert (priority_of s) (priority_of s s.current) s.current v.rest ≡ next ∷ rest
      → IsQueue (isr_ready (take_off s) s.current) next rest
  unfolding isr_ready
  yielded-IsQueue next rest e =
      let pri = priority_of s in
      let eq : insert pri (pri s.current) s.current (behind s.current s.run_queue)
          ≡ insert pri (pri s.current) s.current v.rest =
        ap (insert pri (pri s.current) s.current) behind-current in
      record {
        queue = eq ∙ e;
        sorted =
            subst (λ r. IsSorted pri 0 r) (sym eq)
              (Queue.insert-IsSorted pri s.current 0 v.rest rest-IsSorted (omega arith));
        nodup = subst IsNodup (sym eq) (
            Queue.insert-IsNodup pri (pri s.current) s.current v.rest valid-IsNodup.1
              valid-IsNodup.0);
        count =
            valid-count
            ∙ ap (λ n. n % 2 ^ 8) (sym (Queue.length-insert pri (pri s.current) s.current v.rest))
            ∙ ap (λ r. length r % 2 ^ 8) (sym eq);
      }

  -- From a valid run queue: after a yield the run queue is valid, and the context that yielded is
  -- behind every context at least as urgent as it and in front of the others, which keep their
  -- order.
  pub isr_yield-IsInsertion :
      IsValid (isr_yield s).0
      × IsInsertion
          (λ q. priority_of s q ≤ priority_of s s.current)
          (λ q. priority_of s s.current < priority_of s q)
          s.current
          v.rest
          (isr_yield s).0.run_queue
  unfolding isr_yield
  isr_yield-IsInsertion =
      let pri = priority_of s in
      let (next, rest, e) = Queue.insert-cons pri (pri s.current) s.current v.rest in
      let (valid, queue) =
        reschedule-cons (isr_ready (take_off s) s.current) next rest
          (yielded-IsQueue next rest e) in
      (
        valid,
        subst
            (λ r.
              IsInsertion (λ q. pri q ≤ pri s.current) (λ q. pri s.current < pri q) s.current v.rest
                r)
            (e ∙ sym queue)
            (Queue.insert-IsInsertion pri (pri s.current) s.current 0 v.rest rest-IsSorted),
      )

  -- Off the run queue, with another priority and fewer locks.
  pub changed-IsSorted :
      (x : Context) (lo : ℕ)
      → IsSorted (priority_of s) lo v.rest
      → IsSorted (priority_of (update s s.current x)) lo v.rest
  changed-IsSorted x lo sorted =
      Queue.IsSorted-change (priority_of s) (priority_of (update s s.current x)) s.current lo v.rest
        (λ a other. ap (λ b. (if b then x else s.contexts a).priority) other) valid-IsNodup.0 sorted
