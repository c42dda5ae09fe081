-- ===== src/Rwlock/Exclusion.antt =====
-- Who holds a reader-writer lock: never a writer and another, and what a release of a writer leaves.
use liquorice.Base.{
  ℕ, ◌+◌, ◌-◌, ◌^◌, ◌≤◌, ◌<◌, ◌≡◌, ◌≢◌, refl, ◌⊎◌, inl, inr, ◌&&◌, Option, none, is_some, List,
  arith, ◌==◌, if◌then◌else◌, length, Bool-cases, neq→==,
}
use liquorice.Context.{System, signal_queue, interrupt_queue}
use liquorice.Context.Spinlock.{lock}
use liquorice.Context.Wake.{signal_queue-count, broadcast_queue-count}
use liquorice.Rwlock.{
  Rwlock, lock_read, lock_write, resume, unlock_read, unlock_write, interrupt, is_empty,
}

-- The lock with the contexts that have it, `reading` of them and `writing` of them: those whose
-- call went through, and those woken from a queue, less those that gave it back.
pub record Use : Type 0 where
  pub rwl : Rwlock
  pub reading : ℕ
  pub writing : ℕ

-- The contexts that left a sleep queue.
abbrev pub left : List ℕ → List ℕ → ℕ
left queue queue' = length queue - length queue'

abbrev pub granted {ℓ} : {A : Type ℓ} → Option A → ℕ
granted o = if is_some o then 1 else 0

pub after_lock_read : System → Use → Use
after_lock_read s u =
    let (_, rwl', result) = lock_read s u.rwl in
    record u { rwl = rwl'; reading = u.reading + granted result }

pub after_lock_write : System → Use → Use
after_lock_write s u =
    let (_, rwl', result) = lock_write s u.rwl in
    record u { rwl = rwl'; writing = u.writing + granted result }

pub after_unlock_read : System → Use → Use
after_unlock_read s u =
    let (_, rwl') = unlock_read s u.rwl in
    record {
      rwl = rwl';
      reading = u.reading - 1;
      writing = u.writing + left u.rwl.write_sleep_queue rwl'.write_sleep_queue;
    }

pub after_unlock_write : System → Use → Use
after_unlock_write s u =
    let (_, rwl') = unlock_write s u.rwl in
    record {
      rwl = rwl';
      reading = u.reading + left u.rwl.read_sleep_queue rwl'.read_sleep_queue;
      writing = u.writing - 1 + left u.rwl.write_sleep_queue rwl'.write_sleep_queue;
    }

-- A run of the operations in which only a reader gives back the lock as a reader and a writer as a
-- writer, and the count of the readers stays in its type.
pub data Run : Use → Use → Type 0 where
  here : {u : Use} → Run u u
  lock_read_step :
      {u last : Use}
      → (s : System) → u.reading < 2 ^ 8 - 1
      → Run (after_lock_read s u) last
      → Run u last
  lock_write_step : {u last : Use} → (s : System) → Run (after_lock_write s u) last → Run u last
  resume_step :
      {u last : Use} → (s : System) → Run (record u { rwl = (resume s u.rwl).1 }) last → Run u last
  unlock_read_step :
      {u last : Use} → (s : System) → 0 < u.reading → Run (after_unlock_read s u) last → Run u last
  unlock_write_step :
      {u last : Use}
      → (s : System) → 0 < u.writing
      → length u.rwl.read_sleep_queue < 2 ^ 8
      → Run (after_unlock_write s u) last
      → Run u last
  interrupt_step :
      {u last : Use}
      → (s : System) → (c : ℕ) → Run (record u { rwl = (interrupt s u.rwl c).1 }) last
      → Run u last

-- The counters know who has the lock, and no writer has it with another.
pub record IsExclusive (u : Use) : Type 0 where
  pub readers : u.rwl.readers ≡ u.reading
  pub writers : u.writing ≤ u.rwl.writers
  pub alone : (u.writing ≡ 0) ⊎ ((u.writing ≡ 1) × (u.reading ≡ 0))

module _ (s : System) (u : Use) (x : IsExclusive u) where
  lock_read-IsExclusive : u.reading < 2 ^ 8 - 1 → IsExclusive (after_lock_read s u)
  unfolding after_lock_read lock_read
  lock_read-IsExclusive h =
      let free = (u.rwl.writers == 0) && is_empty u.rwl.write_sleep_queue in
      elim (Bool-cases free) [
        | inl e ↦ rw e record { readers = ground arith; writers = x.writers; alone = ground arith }
        | inr e ↦ rw e record { readers = ground arith; writers = x.writers; alone = ground arith }
      ]

  lock_write-IsExclusive : IsExclusive (after_lock_write s u)
  unfolding after_lock_write lock_write
  lock_write-IsExclusive =
      let free = (u.rwl.writers == 0) && (u.rwl.readers == 0) in
      elim (Bool-cases free) [
        | inl e ↦ rw e record { readers = x.readers; writers = ground arith; alone = ground arith }
        | inr e ↦ rw e record { readers = x.readers; writers = ground arith; alone = ground arith }
      ]

  unlock_read-IsExclusive : 0 < u.reading → IsExclusive (after_unlock_read s u)
  unfolding after_unlock_read unlock_read
  unlock_read-IsExclusive h =
      let (s₁, l) = lock s u.rwl.lock in
      let (sum, most, empty) = signal_queue-count s₁ u.rwl.write_sleep_queue in
      elim (Bool-cases (u.rwl.readers == 0)) [
        | inl e ↦ ground arith
        | inr e ↦ elim (Bool-cases (u.rwl.readers == 1)) [
          | inl e' ↦
              rw e rw e'
                record { readers = ground arith; writers = ground arith; alone = ground arith }
          | inr e' ↦
              rw e rw e'
                record { readers = ground arith; writers = ground arith; alone = ground arith }
        ]
      ]

  unlock_write-IsExclusive :
      0 < u.writing → length u.rwl.read_sleep_queue < 2 ^ 8 → IsExclusive (after_unlock_write s u)
  unfolding after_unlock_write unlock_write
  unlock_write-IsExclusive h bound =
      let (s₁, l) = lock s u.rwl.lock in
      let (s₂, writers, woken) = signal_queue s₁ u.rwl.write_sleep_queue in
      let (sum, most, empty) = signal_queue-count s₁ u.rwl.write_sleep_queue in
      let (gone, count) = broadcast_queue-count s₂ u.rwl.read_sleep_queue in
      elim (Bool-cases (woken == 0)) [
        | inl e ↦
            rw e rw gone rw count
              record { readers = ground arith; writers = ground arith; alone = ground arith }
        | inr e ↦
            rw e record { readers = ground arith; writers = ground arith; alone = ground arith }
      ]

  resume-IsExclusive : IsExclusive (record u { rwl = (resume s u.rwl).1 })
  unfolding resume
  resume-IsExclusive = record { readers = x.readers; writers = x.writers; alone = x.alone }

  interrupt-IsExclusive : (c : ℕ) → IsExclusive (record u { rwl = (interrupt s u.rwl c).1 })
  unfolding interrupt
  interrupt-IsExclusive c =
      let (s₁, l) = lock s u.rwl.lock in
      let (s₂, writers, woken) = interrupt_queue s₁ c u.rwl.write_sleep_queue in
      elim (Bool-cases (woken == 0)) [
        | inl e ↦ rw e record { readers = x.readers; writers = x.writers; alone = x.alone }
        | inr e ↦ rw e record { readers = x.readers; writers = x.writers; alone = x.alone }
      ]

-- Through every run of the operations in which only holders give the lock back, with fewer than
-- 2^8 readers, from a state with this property: no writer has the lock together with another
-- writer or a reader, and the count of the readers is right.
pub Run-IsExclusive : {u last : Use} → Run u last → IsExclusive u → IsExclusive last
Run-IsExclusive here x = x
Run-IsExclusive (lock_read_step s h run) x = Run-IsExclusive run (lock_read-IsExclusive s _ x h)
Run-IsExclusive (lock_write_step s run) x = Run-IsExclusive run (lock_write-IsExclusive s _ x)
Run-IsExclusive (resume_step s run) x = Run-IsExclusive run (resume-IsExclusive s _ x)
Run-IsExclusive (unlock_read_step s h run) x = Run-IsExclusive run (unlock_read-IsExclusive s _ x h)
Run-IsExclusive (unlock_write_step s h bound run) x =
    Run-IsExclusive run (unlock_write-IsExclusive s _ x h bound)
Run-IsExclusive (interrupt_step s c run) x = Run-IsExclusive run (interrupt-IsExclusive s _ x c)

-- The count of the writers outlives the writer.
unlock_write-writers : (s : System) (rwl : Rwlock) → (unlock_write s rwl).1.writers ≡ rwl.writers
unfolding unlock_write
unlock_write-writers s rwl =
    let (s₁, l) = lock s rwl.lock in
    let (s₂, writers, woken) = signal_queue s₁ rwl.write_sleep_queue in
    elim (Bool-cases (woken == 0)) [ inl e ↦ rw e refl | inr e ↦ rw e refl ]

lock_write-sleeps : (s : System) (rwl : Rwlock) → rwl.writers ≢ 0 → (lock_write s rwl).2 ≡ none
unfolding lock_write
lock_write-sleeps s rwl h = rw (neq→== rwl.writers 0 h) refl

lock_read-sleeps : (s : System) (rwl : Rwlock) → rwl.writers ≢ 0 → (lock_read s rwl).2 ≡ none
unfolding lock_read
lock_read-sleeps s rwl h = rw (neq→== rwl.writers 0 h) refl

lock_write-writers :
    (s : System) (rwl : Rwlock)
    → rwl.writers ≡ 0
    → rwl.readers ≡ 0
    → (lock_write s rwl).1.writers ≡ 1
unfolding lock_write
lock_write-writers s rwl w r = rw w rw r refl

-- A free lock that a writer has taken and given back again is not free: whoever asks for it then,
-- to read or to write, goes to sleep.
pub lock_write-unlock_write :
    (s t s' t' : System) (rwl : Rwlock)
    → rwl.writers ≡ 0
    → rwl.readers ≡ 0
    → let after = (unlock_write t (lock_write s rwl).1).1 in
      ((lock_read s' after).2 ≡ none) × ((lock_write t' after).2 ≡ none)
lock_write-unlock_write s t s' t' rwl w r =
    let held = lock_write-writers s rwl w r in
    let after = (unlock_write t (lock_write s rwl).1).1 in
    let stays = unlock_write-writers t (lock_write s rwl).1 in
    let one : after.writers ≢ 0 = ground arith in
    (lock_read-sleeps s' after one, lock_write-sleeps t' after one)
