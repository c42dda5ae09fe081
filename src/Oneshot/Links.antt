-- ===== src/Oneshot/Links.antt =====
-- The timers that a link leads to.
use liquorice.Base.{
  ℕ, ◌≡◌, refl, ap, ◌∙◌, sym, subst, Bool, true, false, ◌||◌, Option, none, some, List, [], ◌∷◌,
  ◌==◌, if◌then◌else◌, map, arith,
}
use liquorice.Oneshot.{Oneshots}

abbrev pub has : ℕ → List ℕ → Bool
has x [] = false
has x (a ∷ queue) = (a == x) || has x queue

abbrev pub IsNodup : List ℕ → Type 0
IsNodup [] = Unit {0}
IsNodup (a ∷ queue) = (has a queue ≡ false) × IsNodup queue

-- Following the links from `os` visits exactly the timers of the list, in its order.
abbrev pub IsChain : Oneshots → Option ℕ → List ℕ → Type 0
IsChain s os [] = os ≡ none
IsChain s os (a ∷ queue) = (os ≡ some a) × IsChain s (s.timers a).next queue

abbrev pub ticks_of : Oneshots → List ℕ → List ℕ
ticks_of s queue = map (λ a. (s.timers a).ticks_left) queue

-- What a pointer to a link points to.
abbrev pub link : Oneshots → Option ℕ → Option ℕ
link s none = s.oneshot_list
link s (some p) = (s.timers p).next

abbrev pub is_other : ℕ → Option ℕ → Bool
is_other x none = true
is_other x (some p) = if x == p then false else true

-- Timers that did not change, from a list.
abbrev pub IsSame : Oneshots → Oneshots → List ℕ → Type 0
IsSame s s' queue = (x : ℕ) → has x queue ≡ true → s'.timers x ≡ s.timers x

pub IsChain-same :
    (s s' : Oneshots) (os : Option ℕ) (queue : List ℕ)
    → IsSame s s' queue
    → IsChain s os queue
    → IsChain s' os queue
IsChain-same s s' os [] same c = c
IsChain-same s s' os (a ∷ queue) same c =
    let e : s'.timers a ≡ s.timers a = same a (ground arith) in
    let tail = IsChain-same s s' (s.timers a).next queue (λ x h. same x (ground arith)) c.1 in
    (c.0, subst (λ t. IsChain s' t.next queue) (sym e) tail)

pub ticks_of-same :
    (s s' : Oneshots) (queue : List ℕ) → IsSame s s' queue → ticks_of s' queue ≡ ticks_of s queue
ticks_of-same s s' [] same = refl
ticks_of-same s s' (a ∷ queue) same =
    let e : s'.timers a ≡ s.timers a = same a (ground arith) in
    let tail = ticks_of-same s s' queue (λ x h. same x (ground arith)) in
    ap (λ t. t.ticks_left ∷ ticks_of s' queue) e ∙ ap (λ l. (s.timers a).ticks_left ∷ l) tail
