-- ===== src/Oneshot/Tick.antt =====
-- What one walk along the list of timers does to it.
use liquorice.Base.{
  ℕ, ◌-◌, ◌≡◌, refl, ap, ◌∙◌, sym, subst, true, false, Option, none, some, List, [], ◌∷◌, ◌++◌,
  ◌==◌, leb, if◌then◌else◌, arith, Bool-cases, inl, inr, is_some, ==_iff,
}
use liquorice.Oneshot.{Oneshots, relink, unlink, count_down}
use liquorice.Oneshot.Relink.{
  update-off, update-on, update-ticks_left, relink-off, relink-ticks_left, link-relink, link-update,
  relink-list,
}
use liquorice.Oneshot.Links.{
  has, IsChain, ticks_of, link, is_other, IsSame, IsChain-same, ticks_of-same,
}

-- The list without its first timer that expires, the timer that does, and the ticks that are left: the
-- timers in front of it count down, those behind it do not.
abbrev pub survivors : Oneshots → ℕ → List ℕ → List ℕ
survivors s ticks [] = []
survivors s ticks (a ∷ queue) =
    if leb (s.timers a).ticks_left ticks then queue else a ∷ survivors s ticks queue

abbrev pub first_expired : Oneshots → ℕ → List ℕ → List ℕ
first_expired s ticks [] = []
first_expired s ticks (a ∷ queue) =
    if leb (s.timers a).ticks_left ticks then a ∷ [] else first_expired s ticks queue

abbrev pub counted : ℕ → List ℕ → List ℕ
counted ticks [] = []
counted ticks (t ∷ rest) = if leb t ticks then rest else (t - ticks) ∷ counted ticks rest

survivors-same :
    (s s' : Oneshots) (ticks : ℕ) (queue : List ℕ)
    → IsSame s s' queue
    → (survivors s' ticks queue ≡ survivors s ticks queue)
      × (first_expired s' ticks queue ≡ first_expired s ticks queue)
survivors-same s s' ticks [] same = (refl, refl)
survivors-same s s' ticks (a ∷ queue) same =
    let e : s'.timers a ≡ s.timers a = same a (ground arith) in
    let (left, gone) = survivors-same s s' ticks queue (λ x h. same x (ground arith)) in
    elim (Bool-cases (leb (s.timers a).ticks_left ticks)) [
      | inl h ↦ rw e rw h (refl, refl)
      | inr h ↦ rw e rw h (ap (λ l. a ∷ l) left, gone)
    ]

-- What the walk from the link `prev`, which leads to `queue`, makes of `s`.
pub record IsWalked (ticks : ℕ) (s : Oneshots) (prev : Option ℕ) (callq queue : List ℕ)
    (s' : Oneshots) (callq' : List ℕ) : Type 0 where
  pub chain : IsChain s' (link s' prev) (survivors s ticks queue)
  pub values : ticks_of s' (survivors s ticks queue) ≡ counted ticks (ticks_of s queue)
  pub calls : callq' ≡ first_expired s ticks queue ++ callq
  pub frame : (x : ℕ) → has x queue ≡ false → is_other x prev ≡ true → s'.timers x ≡ s.timers x
  pub own : (p : ℕ) → prev ≡ some p → (s'.timers p).ticks_left ≡ (s.timers p).ticks_left
  pub list : is_some prev ≡ true → s'.oneshot_list ≡ s.oneshot_list

-- Apart from its own link, the walk touches neither the timer that the link is in nor others.
abbrev pub IsApart : Option ℕ → List ℕ → Type 0
IsApart none queue = Unit {0}
IsApart (some p) queue = has p queue ≡ false

pub distinct :
    (a x : ℕ) (queue : List ℕ) → has a queue ≡ false → has x queue ≡ true → (a == x) ≡ false
distinct a x queue out in_queue = elim (Bool-cases (a == x)) [
  | inl e ↦
      let same : a ≡ x = (==_iff a x).0 e in
      let both : true ≡ false = sym in_queue ∙ ap (λ y. has y queue) (sym same) ∙ out in
      ground arith
  | inr e ↦ e
]

pub apart-other :
    (prev : Option ℕ) (x : ℕ) (queue : List ℕ)
    → IsApart prev queue
    → has x queue ≡ true
    → is_other x prev ≡ true
apart-other none x queue apart h = refl
apart-other (some p) x queue apart h = let d = distinct p x queue apart h in ground arith

pub unlink-next :
    (s : Oneshots) (prev : Option ℕ) (a : ℕ) → ((unlink s prev a).timers a).next ≡ none
unfolding unlink
unlink-next s prev a =
    let r = relink s prev (s.timers a).next in
    ap (λ t. t.next) (update-on r a (record (r.timers a) { next = none }))

pub count_down-next :
    (s : Oneshots) (ticks a : ℕ) → ((count_down s ticks a).timers a).next ≡ (s.timers a).next
unfolding count_down
count_down-next s ticks a =
    ap (λ t. t.next)
      (update-on s a (record (s.timers a) { ticks_left = (s.timers a).ticks_left - ticks }))

module _ (s : Oneshots) (prev : Option ℕ) (a ticks : ℕ) (callq queue : List ℕ)
    (expired : leb (s.timers a).ticks_left ticks ≡ true) (once : has a queue ≡ false)
    (apart : IsApart prev (a ∷ queue)) (c : IsChain s (s.timers a).next queue) where
  pub unlink-IsSame : IsSame s (unlink s prev a) queue
  unfolding unlink
  unlink-IsSame x h =
      let r = relink s prev (s.timers a).next in
      update-off r a x (record (r.timers a) { next = none }) (distinct a x queue once h)
      ∙ relink-off s prev (s.timers a).next x (apart-other prev x (a ∷ queue) apart (ground arith))

  pub unlink-link : link (unlink s prev a) prev ≡ (s.timers a).next
  unfolding unlink
  unlink-link =
      let r = relink s prev (s.timers a).next in
      link-update r prev a (record (r.timers a) { next = none })
        (apart-other prev a (a ∷ queue) apart (ground arith))
      ∙ link-relink s prev (s.timers a).next

  unlink-ticks_left : (x : ℕ) → ((unlink s prev a).timers x).ticks_left ≡ (s.timers x).ticks_left
  unfolding unlink
  unlink-ticks_left x =
      let r = relink s prev (s.timers a).next in
      update-ticks_left r a x (record (r.timers a) { next = none }) refl
      ∙ relink-ticks_left s prev (s.timers a).next x

  pub unlink-frame :
      (x : ℕ)
      → has x (a ∷ queue) ≡ false
      → is_other x prev ≡ true
      → (unlink s prev a).timers x ≡ s.timers x
  unfolding unlink
  unlink-frame x h off =
      let r = relink s prev (s.timers a).next in
      update-off r a x (record (r.timers a) { next = none }) (ground arith)
      ∙ relink-off s prev (s.timers a).next x off

  pub unlink-list : is_some prev ≡ true → (unlink s prev a).oneshot_list ≡ s.oneshot_list
  unfolding unlink
  unlink-list h = relink-list s prev (s.timers a).next h

  pub unlink-IsWalked : IsWalked ticks s prev callq (a ∷ queue) (unlink s prev a) (a ∷ callq)
  unlink-IsWalked =
      let s' = unlink s prev a in
      let chain : IsChain s' (link s' prev) queue =
        subst (λ os. IsChain s' os queue) (sym unlink-link)
          (IsChain-same s s' (s.timers a).next queue unlink-IsSame c) in
      let values : ticks_of s' queue ≡ ticks_of s queue = ticks_of-same s s' queue unlink-IsSame in
      record {
        chain = rw expired chain;
        values = rw expired values;
        calls = rw expired refl;
        frame = unlink-frame;
        own = λ p e. unlink-ticks_left p;
        list = unlink-list;
      }

module _ (s : Oneshots) (prev : Option ℕ) (a ticks : ℕ) (callq queue : List ℕ)
    (remains : leb (s.timers a).ticks_left ticks ≡ false) (once : has a queue ≡ false)
    (apart : IsApart prev (a ∷ queue)) (at : link s prev ≡ some a) where
  count_down-off : (x : ℕ) → (a == x) ≡ false → (count_down s ticks a).timers x ≡ s.timers x
  unfolding count_down
  count_down-off x h =
      update-off s a x (record (s.timers a) { ticks_left = (s.timers a).ticks_left - ticks }) h

  count_down-on : ((count_down s ticks a).timers a).ticks_left ≡ (s.timers a).ticks_left - ticks
  unfolding count_down
  count_down-on =
      ap (λ t. t.ticks_left)
        (update-on s a (record (s.timers a) { ticks_left = (s.timers a).ticks_left - ticks }))

  count_down-list : (count_down s ticks a).oneshot_list ≡ s.oneshot_list
  unfolding count_down
  count_down-list = refl

  pub count_down-IsSame : IsSame s (count_down s ticks a) queue
  count_down-IsSame x h = count_down-off x (distinct a x queue once h)

  module _ (s' : Oneshots) (callq' : List ℕ)
      (w : IsWalked ticks (count_down s ticks a) (some a) callq queue s' callq') where
    previous : (p : ℕ) → has p (a ∷ queue) ≡ false → s'.timers p ≡ s.timers p
    previous p h = w.frame p (ground arith) (ground arith) ∙ count_down-off p (ground arith)

    still : (o : Option ℕ) → IsApart o (a ∷ queue) → link s o ≡ some a → link s' o ≡ some a
    still none out h = w.list refl ∙ count_down-list ∙ h
    still (some p) out h = ap (λ t. t.next) (previous p out) ∙ h

    pub count_down-IsWalked : IsWalked ticks s prev callq (a ∷ queue) s' callq'
    count_down-IsWalked =
        let s₁ = count_down s ticks a in
        let (left, gone) = survivors-same s s₁ ticks queue count_down-IsSame in
        let chain : IsChain s' (link s' prev) (a ∷ survivors s ticks queue) =
          (still prev apart at, subst (λ l. IsChain s' (s'.timers a).next l) left w.chain) in
        let rest : ticks_of s' (survivors s ticks queue) ≡ counted ticks (ticks_of s queue) =
          ap (ticks_of s') (sym left)
          ∙ w.values
          ∙ ap (counted ticks) (ticks_of-same s s₁ queue count_down-IsSame) in
        let head : (s'.timers a).ticks_left ≡ (s.timers a).ticks_left - ticks =
          w.own a refl ∙ count_down-on in
        let values : ticks_of s' (a ∷ survivors s ticks queue)
            ≡ ((s.timers a).ticks_left - ticks) ∷ counted ticks (ticks_of s queue) =
          ap (λ t. t ∷ ticks_of s' (survivors s ticks queue)) head
          ∙ ap (λ l. ((s.timers a).ticks_left - ticks) ∷ l) rest in
        let calls : callq' ≡ first_expired s ticks queue ++ callq =
          w.calls ∙ ap (λ l. l ++ callq) gone in
        record {
          chain = rw remains chain;
          values = rw remains values;
          calls = rw remains calls;
          frame = λ x h off. previous x h;
          own = λ p e.
              ap (λ t. t.ticks_left) (previous p (subst (λ o. IsApart o (a ∷ queue)) e apart));
          list = λ h. w.list refl ∙ count_down-list;
        }
