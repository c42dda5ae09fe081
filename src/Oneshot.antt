-- ===== src/Oneshot.antt =====
-- One-shot timers, src/lib/oneshot/oneshot.c. A timer is a number, its address. The list is threaded
-- through `os_next` of the timers, and the model follows those links as the code does. The lock of the
-- list is held by every operation and is left out.
pub mod Links
pub mod Relink
pub mod Tick
pub mod Walk
pub mod Attach
pub mod Detach
mod Tests
use liquorice.Base.{
  ℕ, zero, suc, ◌+◌, ◌-◌, ◌%◌, ◌^◌, Bool, Option, none, some, List, [], ◌∷◌, leb, ◌==◌,
  if◌then◌else◌,
}

-- `struct oneshot`; whether there is a callback, and the references of its membuf.
pub record Oneshot : Type 0 where
  pub ticks_left : ℕ
  pub callback : Bool
  pub refs : ℕ
  pub next : Option ℕ

-- `oneshot_list`, and the memory of the timers.
pub record Oneshots : Type 0 where
  pub oneshot_list : Option ℕ
  pub timers : ℕ → Oneshot

abbrev pub update : Oneshots → ℕ → Oneshot → Oneshots
update s os t = record s { timers = λ a. if a == os then t else s.timers a }

-- `*osprev = …`, where `osprev` is the link of a timer or, for none, `oneshot_list` itself.
pub relink : Oneshots → Option ℕ → Option ℕ → Oneshots
relink s none next = record s { oneshot_list = next }
relink s (some p) next = update s p (record (s.timers p) { next = next })

-- The branch of the walk for a timer that has expired, and the one for a timer that has not.
pub unlink : Oneshots → Option ℕ → ℕ → Oneshots
unfolding relink
unlink s prev os =
    let s' = relink s prev (s.timers os).next in
    update s' os (record (s'.timers os) { next = none })

pub count_down : Oneshots → ℕ → ℕ → Oneshots
count_down s ticks os =
    update s os (record (s.timers os) { ticks_left = (s.timers os).ticks_left - ticks })

-- The walk of `oneshot_tick()`, of at most `fuel` rounds, with the call queue, last timer first.
pub walk : (fuel : ℕ) (ticks : ℕ) → Oneshots → Option ℕ → List ℕ → Option ℕ → Oneshots × List ℕ
unfolding unlink count_down
walk zero ticks s prev callq os = (s, callq)
walk (suc fuel) ticks s prev callq none = (s, callq)
walk (suc fuel) ticks s prev callq (some os) =
    let expired = unlink s prev os in
    let counted = count_down s ticks os in
    let stop = walk fuel ticks expired prev (os ∷ callq) (expired.timers os).next in
    let go = walk fuel ticks counted (some os) callq (counted.timers os).next in
    if leb (s.timers os).ticks_left ticks then stop else go

-- `oneshot_ref()` and `oneshot_deref()`, on the reference count, of 32 bits.
pub ref : Oneshots → ℕ → Oneshots
ref s os = update s os (record (s.timers os) { refs = ((s.timers os).refs + 1) % 2 ^ 32 })

pub deref : Oneshots → ℕ → Oneshots × ℕ
deref s os =
    let refs = ((s.timers os).refs + 2 ^ 32 - 1) % 2 ^ 32 in
    (update s os (record (s.timers os) { refs = refs }), refs)

-- `oneshot_attach()`
pub attach : Oneshots → ℕ → Oneshots
unfolding ref
attach s timer =
    ref
      (record (update s timer (record (s.timers timer) { next = s.oneshot_list })) {
        oneshot_list = some timer;
      })
      timer

-- The walk of `oneshot_detach()`, of at most `fuel` rounds.
pub find : (fuel : ℕ) → Oneshots → ℕ → Option ℕ → Option ℕ → Oneshots
unfolding unlink deref
find zero s timer prev os = s
find (suc fuel) s timer prev none = s
find (suc fuel) s timer prev (some os) =
    let rest = find fuel s timer (some os) (s.timers os).next in
    if os == timer then (deref (unlink s prev os) timer).0 else rest

-- `oneshot_detach()`
pub detach : (fuel : ℕ) → Oneshots → ℕ → Oneshots
unfolding find
detach fuel s timer = find fuel s timer none s.oneshot_list

-- The run down the call queue. `callback` is what a timer's owner does when it is called.
pub call_all : (Oneshots → ℕ → Oneshots) → Oneshots → List ℕ → Oneshots
unfolding deref
call_all callback s [] = s
call_all callback s (os ∷ callq) =
    let (s', refs) = deref s os in
    let quiet = call_all callback s' callq in
    let called = call_all callback (callback s' os) callq in
    if refs == 0 then quiet else if (s'.timers os).callback then called else quiet

-- `oneshot_tick()`
pub tick : (Oneshots → ℕ → Oneshots) → (fuel : ℕ) → Oneshots → ℕ → Oneshots
unfolding walk call_all
tick callback fuel s ticks =
    let (s', callq) = walk fuel ticks s none [] s.oneshot_list in call_all callback s' callq
