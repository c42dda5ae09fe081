-- ===== src/Context/Wait.antt =====
-- Going to sleep: the run queue without the context that waits.
use liquorice.Base.{
  ℕ, ◌+◌, ◌-◌, ◌%◌, ◌^◌, ◌≡◌, refl, ap, ◌∙◌, sym, subst, false, List, ◌∷◌, arith, length,
}
use liquorice.Context.{System, State, Lock, update, set_state, priority_of, isr_wait, take_off}
use liquorice.Context.Queue.{IsSorted, IsNodup}
use liquorice.Context.Valid.{IsValid, set_state-priority_of}
use liquorice.Context.Switch.{
  IsQueue, isr_switch-cons, behind-current, valid-IsNodup, valid-count, rest-IsSorted,
  changed-IsSorted,
}

unwait : (count n : ℕ) → count ≡ (n + 1) % 2 ^ 8 → (count + 2 ^ 8 - 1) % 2 ^ 8 ≡ n % 2 ^ 8
unwait count n e = omega arith

module _ (s : System) (v : IsValid s) where
  -- The system that `isr_wait` switches away from.
  slept : Lock → State → System
  slept l sleep_state =
      let c = s.contexts s.current in
      let x = record c {
        priority = l.pri_unlocked;
        spinlocks_held = (c.spinlocks_held + 2 ^ 8 - 1) % 2 ^ 8;
      } in
      set_state
        (record (take_off (update s s.current x)) {
          run_queue_len = (s.run_queue_len + 2 ^ 8 - 1) % 2 ^ 8;
        })
        s.current sleep_state

  slept-IsQueue :
      (l : Lock) (sleep_state : State) (next : ℕ) (others : List ℕ)
      → v.rest ≡ next ∷ others
      → IsQueue (slept l sleep_state) next others
  unfolding slept
  slept-IsQueue l sleep_state next others e =
      let c = s.contexts s.current in
      let x = record c {
        priority = l.pri_unlocked;
        spinlocks_held = (c.spinlocks_held + 2 ^ 8 - 1) % 2 ^ 8;
      } in
      let off = record (take_off (update s s.current x)) {
        run_queue_len = (s.run_queue_len + 2 ^ 8 - 1) % 2 ^ 8;
      } in
      record {
        queue = behind-current s v ∙ e;
        sorted =
            subst (λ r. IsSorted (priority_of (slept l sleep_state)) 0 r) (sym (behind-current s v))
              (subst (λ pri. IsSorted pri 0 v.rest)
                (sym (set_state-priority_of off s.current sleep_state))
                (changed-IsSorted s v x 0 (rest-IsSorted s v)));
        nodup = subst IsNodup (sym (behind-current s v)) (valid-IsNodup s v).1;
        count =
            unwait s.run_queue_len (length v.rest) (valid-count s v)
            ∙ ap (λ r. length r % 2 ^ 8) (sym (behind-current s v));
      }

  -- From a valid run queue on which another context is ready: a wait takes the running context off
  -- the run queue, which stays valid, so that the first of the others goes on, and the lock is
  -- free.
  pub isr_wait-IsValid :
      (l : Lock) (sleep_state : State) (next : ℕ) (others : List ℕ)
      → v.rest ≡ next ∷ others
      → let result = isr_wait s l sleep_state in
        IsValid result.0 × (result.0.run_queue ≡ v.rest) × (result.1.held ≡ false)
  unfolding isr_wait slept
  isr_wait-IsValid l sleep_state next others e =
      let (valid, queue) =
        isr_switch-cons (slept l sleep_state) next others
          (slept-IsQueue l sleep_state next others e) in
      (valid, queue ∙ sym e, refl)
