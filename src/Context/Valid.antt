-- ===== src/Context/Valid.antt =====
-- What holds of the run queue between two operations, and that waking a context keeps it.
use liquorice.Base.{
  ℕ, ◌+◌, ◌%◌, ◌^◌, fun_ext, subst, ◌≤◌, ◌≡◌, refl, ap, ◌∙◌, sym, Bool, true, false, List, ◌∷◌,
  arith, ◌==◌, if◌then◌else◌, length, ==_iff,
}
use liquorice.Context.{
  System, Context, State, update, set_state, priority_of, isr_ready, wake, insert,
}
use liquorice.Context.Queue.{
  IsSorted, IsNodup, has, insert-behind_first, insert-IsSorted, length-insert, insert-IsNodup,
}

-- The running context is the first on the run queue, which is sorted by priority, has no context
-- twice, and is as long as `run_queue_len` says.
pub record IsValid (s : System) : Type 0 where
  pub rest : List ℕ
  pub queue : s.run_queue ≡ s.current ∷ rest
  pub sorted : IsSorted (priority_of s) 0 s.run_queue
  pub nodup : IsNodup s.run_queue
  pub count : s.run_queue_len ≡ length s.run_queue % 2 ^ 8

pub if-priority :
    (b : Bool) (x y : Context)
    → (b ≡ true → x.priority ≡ y.priority)
    → (if b then x else y).priority ≡ y.priority
if-priority true x y h = h refl
if-priority false x y h = refl

pub update-priority_of :
    (s : System) (c : ℕ) (x : Context)
    → x.priority ≡ priority_of s c
    → priority_of (update s c x) ≡ priority_of s
update-priority_of s c x h = fun_ext (λ a.
    if-priority (a == c) x (s.contexts a) (λ e. h ∙ ap (priority_of s) (sym ((==_iff a c).0 e))))

pub set_state-priority_of :
    (s : System) (c : ℕ) (state : State) → priority_of (set_state s c state) ≡ priority_of s
set_state-priority_of s c state =
    update-priority_of s c (record (s.contexts c) { state = state }) refl

-- The run queue with a context inserted is valid, whatever its state.
pub insert-IsValid :
    (s : System) (c : ℕ) (len : ℕ)
    → IsValid s
    → has c s.run_queue ≡ false
    → priority_of s s.current ≤ priority_of s c
    → len ≡ (s.run_queue_len + 1) % 2 ^ 8
    → IsValid (record s {
      run_queue = insert (priority_of s) (priority_of s c) c s.run_queue;
      run_queue_len = len;
    })
insert-IsValid s c len v absent h e =
    let pri = priority_of s in
    record {
      rest = insert pri (pri c) c v.rest;
      queue =
          ap (insert pri (pri c) c) v.queue ∙ insert-behind_first pri (pri c) c s.current v.rest h;
      sorted = insert-IsSorted pri c 0 s.run_queue v.sorted (omega arith);
      nodup = insert-IsNodup pri (pri c) c s.run_queue v.nodup absent;
      count = rw e rw (length-insert pri (pri c) c s.run_queue) rw v.count omega arith;
    }

pub set_state-IsValid :
    (s : System) (c : ℕ) (state : State) → IsValid s → IsValid (set_state s c state)
set_state-IsValid s c state v = record {
  rest = v.rest;
  queue = v.queue;
  sorted =
      subst (λ pri. IsSorted pri 0 s.run_queue) (sym (set_state-priority_of s c state)) v.sorted;
  nodup = v.nodup;
  count = v.count;
}

-- Waking a context that is not on a valid run queue and not more urgent than the running one keeps
-- the run queue valid: sorted, without duplicates, as long as its count says modulo 2^8, the
-- running context first.
pub wake-IsValid :
    (s : System) (c : ℕ) (state : State)
    → IsValid s
    → has c s.run_queue ≡ false
    → priority_of s s.current ≤ priority_of s c
    → IsValid (wake s c state)
unfolding wake isr_ready
wake-IsValid s c state v absent h =
    let pris = set_state-priority_of s c state in
    insert-IsValid (set_state s c state) c ((s.run_queue_len + 1) % 2 ^ 8)
      (set_state-IsValid s c state v) absent (subst (λ pri. pri s.current ≤ pri c) (sym pris) h)
      refl
