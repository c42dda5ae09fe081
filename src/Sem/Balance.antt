-- ===== src/Sem/Balance.antt =====
-- The count of a semaphore and the contexts that wait for it.
use liquorice.Base.{
  ℕ, ◌+◌, ◌-◌, ◌%◌, ◌^◌, ◌≤◌, ◌<◌, ◌≡◌, ◌≢◌, refl, ap, ◌∙◌, ◌⊎◌, inl, inr, [], ◌∷◌, arith, length,
  Bool-cases,
}
use liquorice.Context.{System, interrupt_queue}
use liquorice.Context.Wake.{
  wait_pri_queue-length, signal_queue-length, interrupt_queue-only, signal_queue-empty,
}
use liquorice.Context.Spinlock.{lock, unlock}
use liquorice.Sem.{is_nonneg, is_nonpos, Sem, wait, resume, post, interrupt}

-- There are permits and nobody waits, or there is one context for each permit that is missing.
abbrev pub IsBalanced : ℕ → ℕ → Type 0
IsBalanced count waiting =
    ((count < 2 ^ 7) × (waiting ≡ 0)) ⊎ ((2 ^ 7 ≤ count) × (count + waiting ≡ 2 ^ 8))

abbrev waiting : Sem → ℕ
waiting sem = length sem.sleep_queue

-- A run of waits, posts and wakings, as long as the count stays in its type. The systems at its
-- steps are any: other contexts do what they like in between.
pub data Run : Sem → Sem → Type 0 where
  here : {sem : Sem} → Run sem sem
  wait_step :
      {sem last : Sem} → (s : System) → waiting sem < 2 ^ 7 → Run (wait s sem).1 last → Run sem last
  resume_step : {sem last : Sem} → (s : System) → Run (resume s sem).1 last → Run sem last
  post_step :
      {sem last : Sem}
      → (s : System) → sem.count ≢ 2 ^ 7 - 1
      → Run (post s sem).1 last
      → Run sem last

wait-IsBalanced :
    (s : System) (sem : Sem)
    → IsBalanced sem.count (waiting sem)
    → waiting sem < 2 ^ 7
    → IsBalanced (wait s sem).1.count (waiting (wait s sem).1)
unfolding wait
wait-IsBalanced s sem b room =
    let (s₁, l) = lock s sem.lock in
    let count = (sem.count + 2 ^ 8 - 1) % 2 ^ 8 in
    elim (Bool-cases (is_nonneg count)) [
      | inl e ↦ rw e ground arith
      | inr e ↦ rw e rw (wait_pri_queue-length s₁ l sem.sleep_queue) ground arith
    ]

post-IsBalanced :
    (s : System) (sem : Sem)
    → IsBalanced sem.count (waiting sem)
    → sem.count ≢ 2 ^ 7 - 1
    → IsBalanced (post s sem).1.count (waiting (post s sem).1)
unfolding post
post-IsBalanced s sem b room =
    let (s₁, l) = lock s sem.lock in
    let count = (sem.count + 1) % 2 ^ 8 in
    elim (Bool-cases (is_nonpos count)) [
      | inl e ↦ rw e rw (signal_queue-length s₁ sem.sleep_queue) ground arith
      | inr e ↦ rw e ground arith
    ]

resume-IsBalanced :
    (s : System) (sem : Sem)
    → IsBalanced sem.count (waiting sem)
    → IsBalanced (resume s sem).1.count (waiting (resume s sem).1)
unfolding resume
resume-IsBalanced s sem b = b

interrupt-only :
    (s : System) (sem : Sem) (c : ℕ)
    → sem.sleep_queue ≡ c ∷ []
    → ((interrupt s sem c).1.sleep_queue ≡ []) × ((interrupt s sem c).1.count ≡ sem.count)
unfolding interrupt
interrupt-only s sem c e =
    let (s₁, l) = lock s sem.lock in
    (ap (λ q. (interrupt_queue s₁ c q).1) e ∙ interrupt_queue-only s₁ c, refl)

post-nobody :
    (s : System) (sem : Sem)
    → sem.sleep_queue ≡ []
    → ((post s sem).1.count ≡ (sem.count + 1) % 2 ^ 8)
      × ((post s sem).1.sleep_queue ≡ [])
      × ((post s sem).0 ≡ (unlock (lock s sem.lock).0 (lock s sem.lock).1).0.0)
unfolding post
post-nobody s sem e =
    let (s₁, l) = lock s sem.lock in
    let quiet = signal_queue-empty s₁ in
    elim (Bool-cases (is_nonpos ((sem.count + 1) % 2 ^ 8))) [
      | inl h ↦ rw h rw e rw quiet (refl, refl, refl)
      | inr h ↦ rw h (refl, e, refl)
    ]

-- Where the count of a semaphore agrees with the contexts that sleep on it, in that a negative count is their number
-- and none sleeps otherwise, and the only one that sleeps is interrupted, the next post is lost: it wakes
-- nobody, doing no more to the system than take and release the lock, and it leaves a count of 0,
-- so there is no permit for a later wait either.
pub interrupt-lost_post :
    (s t : System) (sem : Sem) (c : ℕ)
    → IsBalanced sem.count (waiting sem)
    → sem.sleep_queue ≡ c ∷ []
    → let sem' = (interrupt s sem c).1 in
      ((post t sem').1.count ≡ 0)
      × ((post t sem').1.sleep_queue ≡ [])
      × ((post t sem').0 ≡ (unlock (lock t sem'.lock).0 (lock t sem'.lock).1).0.0)
interrupt-lost_post s t sem c b e =
    let (queue, count) = interrupt-only s sem c e in
    let (after, empty, same) = post-nobody t (interrupt s sem c).1 queue in
    let one : waiting sem ≡ 1 = ap (λ q. length q) e in
    (after ∙ ap (λ n. (n + 1) % 2 ^ 8) count ∙ ground arith, empty, same)

-- From a semaphore with this property, and through every run of waits and posts in which the count
-- stays in its type: a negative count is the number of contexts that sleep on it, and none sleeps
-- while there is a permit.
pub Run-IsBalanced :
    {sem last : Sem}
    → Run sem last
    → IsBalanced sem.count (waiting sem)
    → IsBalanced last.count (waiting last)
Run-IsBalanced here b = b
Run-IsBalanced (wait_step s room run) b = Run-IsBalanced run (wait-IsBalanced s _ b room)
Run-IsBalanced (resume_step s run) b = Run-IsBalanced run (resume-IsBalanced s _ b)
Run-IsBalanced (post_step s room run) b = Run-IsBalanced run (post-IsBalanced s _ b room)
