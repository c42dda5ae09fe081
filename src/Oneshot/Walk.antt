-- ===== src/Oneshot/Walk.antt =====
-- The walk of a tick along the whole list, by induction on the timers that its link leads to.
use liquorice.Base.{
  ℕ, zero, suc, append-nil, ◌≤◌, ◌≡◌, refl, ap, ◌∙◌, sym, subst, true, false, Option, none, some,
  List, [], ◌∷◌, leb, arith, Bool-cases, inl, inr, length,
}
use liquorice.Oneshot.{Oneshots, unlink, count_down, walk}
use liquorice.Oneshot.Links.{has, IsNodup, IsChain, ticks_of, link, IsChain-same}
use liquorice.Oneshot.Tick.{
  survivors, first_expired, counted, IsWalked, IsApart, unlink-next, count_down-next,
  unlink-IsWalked, count_down-IsSame, count_down-IsWalked,
}

-- What the walk gives, from its result.
abbrev IsWalk : ℕ → Oneshots → Option ℕ → List ℕ → List ℕ → Oneshots × List ℕ → Type 0
IsWalk ticks s prev callq queue result = IsWalked ticks s prev callq queue result.0 result.1

walk-none :
    (fuel ticks : ℕ) (s : Oneshots) (prev : Option ℕ) (callq : List ℕ)
    → walk fuel ticks s prev callq none ≡ (s, callq)
unfolding walk
walk-none zero ticks s prev callq = refl
walk-none (suc fuel) ticks s prev callq = refl

walk-expired :
    (fuel ticks : ℕ) (s : Oneshots) (prev : Option ℕ) (callq : List ℕ) (a : ℕ)
    → leb (s.timers a).ticks_left ticks ≡ true
    → walk (suc fuel) ticks s prev callq (some a) ≡ (unlink s prev a, a ∷ callq)
unfolding walk
walk-expired fuel ticks s prev callq a h = rw h (
    ap (walk fuel ticks (unlink s prev a) prev (a ∷ callq)) (unlink-next s prev a)
    ∙ walk-none fuel ticks (unlink s prev a) prev (a ∷ callq))

walk-counted :
    (fuel ticks : ℕ) (s : Oneshots) (prev : Option ℕ) (callq : List ℕ) (a : ℕ)
    → leb (s.timers a).ticks_left ticks ≡ false
    → walk (suc fuel) ticks s prev callq (some a)
      ≡ walk fuel ticks (count_down s ticks a) (some a) callq (s.timers a).next
unfolding walk
walk-counted fuel ticks s prev callq a h =
    let go : walk fuel ticks (count_down s ticks a) (some a) callq
          ((count_down s ticks a).timers a).next
        ≡ walk fuel ticks (count_down s ticks a) (some a) callq (s.timers a).next =
      ap (walk fuel ticks (count_down s ticks a) (some a) callq) (count_down-next s ticks a) in
    rw h go

walk-IsWalked :
    (fuel ticks : ℕ) (s : Oneshots) (prev : Option ℕ) (callq queue : List ℕ) (os : Option ℕ)
    → length queue ≤ fuel
    → link s prev ≡ os
    → IsChain s os queue
    → IsNodup queue
    → IsApart prev queue
    → IsWalk ticks s prev callq queue (walk fuel ticks s prev callq os)
walk-IsWalked fuel ticks s prev callq [] os enough at c n apart =
    let stop : walk fuel ticks s prev callq os ≡ (s, callq) =
      ap (walk fuel ticks s prev callq) c ∙ walk-none fuel ticks s prev callq in
    subst (IsWalk ticks s prev callq []) (sym stop) (record {
      chain = at ∙ c;
      values = refl;
      calls = refl;
      frame = λ x h off. refl;
      own = λ p e. refl;
      list = λ h. refl;
    })
walk-IsWalked zero ticks s prev callq (a ∷ queue) os enough at c n apart = elim enough [ ]
walk-IsWalked (suc fuel) ticks s prev callq (a ∷ queue) os enough at (e, c) (once, n) apart =
    elim (Bool-cases (leb (s.timers a).ticks_left ticks)) [
      | inl h ↦
          let step =
            ap (walk (suc fuel) ticks s prev callq) e ∙ walk-expired fuel ticks s prev callq a h in
          subst (IsWalk ticks s prev callq (a ∷ queue)) (sym step)
            (unlink-IsWalked s prev a ticks callq queue h once apart c)
      | inr h ↦
          let s₁ = count_down s ticks a in
          let step =
            ap (walk (suc fuel) ticks s prev callq) e ∙ walk-counted fuel ticks s prev callq a h in
          let same = count_down-IsSame s prev a ticks callq queue h once apart (at ∙ e) in
          let rest =
            walk-IsWalked fuel ticks s₁ (some a) callq queue (s.timers a).next (omega arith)
              (count_down-next s ticks a) (IsChain-same s s₁ (s.timers a).next queue same c) n
              once in
          subst (IsWalk ticks s prev callq (a ∷ queue)) (sym step) (
            count_down-IsWalked s prev a ticks callq queue h once apart (at ∙ e)
              (walk fuel ticks s₁ (some a) callq (s.timers a).next).0
              (walk fuel ticks s₁ (some a) callq (s.timers a).next).1 rest)
    ]

-- Let the list lead to some timers, none of them twice. With a round for each of them, the walk of a
-- tick leaves a list without the first timer that has expired, which goes on the call queue; those in
-- front of it have counted the ticks down, those behind it have not, even where they have expired;
-- other timers are as they were.
pub walk_lem :
    (fuel ticks : ℕ) (s : Oneshots) (queue : List ℕ)
    → length queue ≤ fuel
    → IsChain s s.oneshot_list queue
    → IsNodup queue
    → let (s', callq) = walk fuel ticks s none [] s.oneshot_list in
      IsChain s' s'.oneshot_list (survivors s ticks queue)
      × (ticks_of s' (survivors s ticks queue) ≡ counted ticks (ticks_of s queue))
      × (callq ≡ first_expired s ticks queue)
      × ((x : ℕ) → has x queue ≡ false → s'.timers x ≡ s.timers x)
walk_lem fuel ticks s queue enough c n =
    let w = walk-IsWalked fuel ticks s none [] queue s.oneshot_list enough refl c n tt in
    (w.chain, w.values, w.calls ∙ append-nil (first_expired s ticks queue), λ x h. w.frame x h refl)
