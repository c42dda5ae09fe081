-- ===== src/Oneshot/Detach.antt =====
-- A timer that leaves the list.
use liquorice.Base.{
  ℕ, zero, suc, ◌+◌, ◌-◌, ◌%◌, ◌^◌, ◌≤◌, ◌≡◌, refl, ap, ◌∙◌, sym, subst, true, false, Option, none,
  some, List, [], ◌∷◌, ◌==◌, leb, if◌then◌else◌, arith, Bool-cases, inl, inr, length, is_some,
  ==_iff,
}
use liquorice.Oneshot.{Oneshots, update, unlink, deref, find, detach}
use liquorice.Oneshot.Relink.{update-off, link-update}
use liquorice.Oneshot.Links.{has, IsNodup, IsChain, link, is_other, IsSame, IsChain-same}
use liquorice.Oneshot.Tick.{
  IsApart, distinct, apart-other, unlink-IsSame, unlink-link, unlink-frame, unlink-list,
}

-- The list without a timer.
abbrev pub without : ℕ → List ℕ → List ℕ
without timer [] = []
without timer (a ∷ queue) = if a == timer then queue else a ∷ without timer queue

-- What the walk from the link `prev`, which leads to `queue`, makes of `s`.
record IsDetached (s : Oneshots) (timer : ℕ) (prev : Option ℕ) (queue : List ℕ) (s' : Oneshots)
    : Type 0 where
  pub chain : IsChain s' (link s' prev) (without timer queue)
  pub frame : (x : ℕ) → has x queue ≡ false → is_other x prev ≡ true → s'.timers x ≡ s.timers x
  pub list : is_some prev ≡ true → s'.oneshot_list ≡ s.oneshot_list

module _ (s : Oneshots) (prev : Option ℕ) (a timer : ℕ) (queue : List ℕ) (hit : (a == timer) ≡ true)
    (once : has a queue ≡ false) (apart : IsApart prev (a ∷ queue))
    (c : IsChain s (s.timers a).next queue) where
  unlinked-IsDetached : IsDetached s timer prev (a ∷ queue) (deref (unlink s prev a) timer).0
  unfolding deref
  unlinked-IsDetached =
      let same : a ≡ timer = (==_iff a timer).0 hit in
      let t = (s.timers a).ticks_left in
      let now : leb t t ≡ true = ground arith in
      let u = unlink s prev a in
      let refs = ((u.timers timer).refs + 2 ^ 32 - 1) % 2 ^ 32 in
      let freed = record (u.timers timer) { refs = refs } in
      let s' = update u timer freed in
      let there : is_other timer prev ≡ true =
        subst (λ x. is_other x prev ≡ true) same
          (apart-other prev a (a ∷ queue) apart (ground arith)) in
      let out : has timer queue ≡ false = subst (λ x. has x queue ≡ false) same once in
      let keep : IsSame s s' queue = λ x h.
        update-off u timer x freed (distinct timer x queue out h)
        ∙ unlink-IsSame s prev a t [] queue now once apart c x h in
      let to_rest : link s' prev ≡ (s.timers a).next =
        link-update u prev timer freed there ∙ unlink-link s prev a t [] queue now once apart c in
      let chain : IsChain s' (link s' prev) queue =
        subst (λ os. IsChain s' os queue) (sym to_rest)
          (IsChain-same s s' (s.timers a).next queue keep c) in
      record {
        chain = rw hit chain;
        frame = λ x h off.
            update-off u timer x freed (ground arith)
            ∙ unlink-frame s prev a t [] queue now once apart c x h off;
        list = λ h. unlink-list s prev a t [] queue now once apart c h;
      }

module _ (s : Oneshots) (prev : Option ℕ) (a timer : ℕ) (queue : List ℕ) (s' : Oneshots)
    (miss : (a == timer) ≡ false) (once : has a queue ≡ false) (apart : IsApart prev (a ∷ queue))
    (at : link s prev ≡ some a) (w : IsDetached s timer (some a) queue s') where
  kept : (x : ℕ) → has x (a ∷ queue) ≡ false → s'.timers x ≡ s.timers x
  kept x h = w.frame x (ground arith) (ground arith)

  still-link : (o : Option ℕ) → IsApart o (a ∷ queue) → link s o ≡ some a → link s' o ≡ some a
  still-link none out h = w.list refl ∙ h
  still-link (some p) out h = ap (λ t. t.next) (kept p out) ∙ h

  passed-IsDetached : IsDetached s timer prev (a ∷ queue) s'
  passed-IsDetached =
      let chain : IsChain s' (link s' prev) (a ∷ without timer queue) =
        (still-link prev apart at, w.chain) in
      record { chain = rw miss chain; frame = λ x h off. kept x h; list = λ h. w.list refl }

find-hit :
    (fuel : ℕ) (s : Oneshots) (timer : ℕ) (prev : Option ℕ) (a : ℕ)
    → (a == timer) ≡ true
    → find (suc fuel) s timer prev (some a) ≡ (deref (unlink s prev a) timer).0
unfolding find
find-hit fuel s timer prev a h = rw h refl

find-miss :
    (fuel : ℕ) (s : Oneshots) (timer : ℕ) (prev : Option ℕ) (a : ℕ)
    → (a == timer) ≡ false
    → find (suc fuel) s timer prev (some a) ≡ find fuel s timer (some a) (s.timers a).next
unfolding find
find-miss fuel s timer prev a h = rw h refl

find-none :
    (fuel : ℕ) (s : Oneshots) (timer : ℕ) (prev : Option ℕ) → find fuel s timer prev none ≡ s
unfolding find
find-none zero s timer prev = refl
find-none (suc fuel) s timer prev = refl

find-IsDetached :
    (fuel : ℕ) (s : Oneshots) (timer : ℕ) (prev : Option ℕ) (queue : List ℕ) (os : Option ℕ)
    → length queue ≤ fuel
    → link s prev ≡ os
    → IsChain s os queue
    → IsNodup queue
    → IsApart prev queue
    → IsDetached s timer prev queue (find fuel s timer prev os)
find-IsDetached fuel s timer prev [] os enough at c n apart =
    subst (IsDetached s timer prev [])
      (sym (ap (find fuel s timer prev) c ∙ find-none fuel s timer prev))
      (record { chain = at ∙ c; frame = λ x h off. refl; list = λ h. refl })
find-IsDetached zero s timer prev (a ∷ queue) os enough at c n apart = elim enough [ ]
find-IsDetached (suc fuel) s timer prev (a ∷ queue) os enough at (e, c) (once, n) apart =
    let from = ap (find (suc fuel) s timer prev) e in
    let rest =
      find-IsDetached fuel s timer (some a) queue (s.timers a).next (omega arith) refl c n once in
    elim (Bool-cases (a == timer)) [
      | inl h ↦
          subst (IsDetached s timer prev (a ∷ queue)) (sym (from ∙ find-hit fuel s timer prev a h))
            (unlinked-IsDetached s prev a timer queue h once apart c)
      | inr h ↦
          subst (IsDetached s timer prev (a ∷ queue)) (sym (from ∙ find-miss fuel s timer prev a h))
            (passed-IsDetached s prev a timer queue (find fuel s timer (some a) (s.timers a).next) h
              once apart (at ∙ e) rest)
    ]

-- Let the list lead to some timers, none of them twice. With a round for each of them, detaching
-- leads the list to the same timers without the one that is detached, in their order, and leaves
-- every timer outside the list as it was.
pub detach_lem :
    (fuel : ℕ) (s : Oneshots) (timer : ℕ) (queue : List ℕ)
    → length queue ≤ fuel
    → IsChain s s.oneshot_list queue
    → IsNodup queue
    → let s' = detach fuel s timer in
      IsChain s' s'.oneshot_list (without timer queue)
      × ((x : ℕ) → has x queue ≡ false → s'.timers x ≡ s.timers x)
unfolding detach
detach_lem fuel s timer queue enough c n =
    let w = find-IsDetached fuel s timer none queue s.oneshot_list enough refl c n tt in
    (w.chain, λ x h. w.frame x h refl)
