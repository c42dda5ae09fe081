-- ===== src/Oneshot/Attach.antt =====
-- A timer that joins the list.
use liquorice.Base.{ℕ, ◌+◌, ◌%◌, ◌^◌, ◌≡◌, refl, ap, ◌∙◌, sym, subst, false, some, List, ◌∷◌, ◌==◌}
use liquorice.Oneshot.{Oneshot, Oneshots, update, ref, attach}
use liquorice.Oneshot.Relink.{update-off, update-on}
use liquorice.Oneshot.Links.{has, IsChain, ticks_of, IsSame, IsChain-same, ticks_of-same}
use liquorice.Oneshot.Tick.{distinct}

-- The timer once it is attached.
abbrev attached : Oneshots → ℕ → Oneshot
attached s timer =
    let t = s.timers timer in record t { next = s.oneshot_list; refs = (t.refs + 1) % 2 ^ 32 }

attach-on : (s : Oneshots) (timer : ℕ) → (attach s timer).timers timer ≡ attached s timer
unfolding attach ref
attach-on s timer =
    let t₁ = record (s.timers timer) { next = s.oneshot_list } in
    let u = record (update s timer t₁) { oneshot_list = some timer } in
    let more : Oneshot → Oneshot = λ t. record t { refs = (t.refs + 1) % 2 ^ 32 } in
    update-on u timer (record (u.timers timer) { refs = ((u.timers timer).refs + 1) % 2 ^ 32 })
    ∙ ap more (update-on s timer t₁)

attach-off :
    (s : Oneshots) (timer x : ℕ) → (timer == x) ≡ false → (attach s timer).timers x ≡ s.timers x
unfolding attach ref
attach-off s timer x h =
    let t₁ = record (s.timers timer) { next = s.oneshot_list } in
    let u = record (update s timer t₁) { oneshot_list = some timer } in
    update-off u timer x (record (u.timers timer) { refs = ((u.timers timer).refs + 1) % 2 ^ 32 }) h
    ∙ update-off s timer x t₁ h

attach-list : (s : Oneshots) (timer : ℕ) → (attach s timer).oneshot_list ≡ some timer
unfolding attach ref
attach-list s timer = refl

-- Attaching a timer that is not in the list puts it first and counts the list's reference to it; the
-- timers of the list keep their places and their ticks.
pub attach_lem :
    (s : Oneshots) (timer : ℕ) (queue : List ℕ)
    → IsChain s s.oneshot_list queue
    → has timer queue ≡ false
    → let s' = attach s timer in
      IsChain s' s'.oneshot_list (timer ∷ queue)
      × ((s'.timers timer).refs ≡ ((s.timers timer).refs + 1) % 2 ^ 32)
      × (ticks_of s' (timer ∷ queue) ≡ ticks_of s (timer ∷ queue))
attach_lem s timer queue c absent =
    let s' = attach s timer in
    let same : IsSame s s' queue = λ x h. attach-off s timer x (distinct timer x queue absent h) in
    let rest = IsChain-same s s' s.oneshot_list queue same c in
    let on = attach-on s timer in
    (
      (attach-list s timer, subst (λ t. IsChain s' t.next queue) (sym on) rest),
      ap (λ t. t.refs) on,
      ap (λ t. t.ticks_left ∷ ticks_of s' queue) on
          ∙ ap (λ l. (s.timers timer).ticks_left ∷ l) (ticks_of-same s s' queue same),
    )
