-- ===== src/Oneshot/Relink.antt =====
-- What a change to one timer, or to one link, leaves as it was.
use liquorice.Base.{
  ℕ, ◌≡◌, refl, ap, ◌∙◌, sym, Bool, true, false, Option, none, some, ◌==◌, if◌then◌else◌, arith,
  is_some, ==_iff,
}
use liquorice.Oneshot.{Oneshot, Oneshots, update, relink}
use liquorice.Oneshot.Links.{link, is_other}

pub update-off :
    (s : Oneshots) (a x : ℕ) (t : Oneshot) → (a == x) ≡ false → (update s a t).timers x ≡ s.timers x
update-off s a x t e =
    let e' : (x == a) ≡ false = ground arith in ap (λ b. if b then t else s.timers x) e'

pub update-on : (s : Oneshots) (a : ℕ) (t : Oneshot) → (update s a t).timers a ≡ t
update-on s a t = let e : (a == a) ≡ true = ground arith in ap (λ b. if b then t else s.timers a) e

pub if-ticks_left :
    (b : Bool) (t t' : Oneshot)
    → (b ≡ true → t.ticks_left ≡ t'.ticks_left)
    → (if b then t else t').ticks_left ≡ t'.ticks_left
if-ticks_left true t t' h = h refl
if-ticks_left false t t' h = refl

pub update-ticks_left :
    (s : Oneshots) (a x : ℕ) (t : Oneshot)
    → t.ticks_left ≡ (s.timers a).ticks_left
    → ((update s a t).timers x).ticks_left ≡ (s.timers x).ticks_left
update-ticks_left s a x t h =
    if-ticks_left (x == a) t (s.timers x)
      (λ e. h ∙ ap (λ y. (s.timers y).ticks_left) (sym ((==_iff x a).0 e)))

pub relink-off :
    (s : Oneshots) (prev next : Option ℕ) (x : ℕ)
    → is_other x prev ≡ true
    → (relink s prev next).timers x ≡ s.timers x
unfolding relink
relink-off s none next x off = refl
relink-off s (some p) next x off =
    update-off s p x (record (s.timers p) { next = next }) (ground arith)

pub relink-ticks_left :
    (s : Oneshots) (prev next : Option ℕ) (x : ℕ)
    → ((relink s prev next).timers x).ticks_left ≡ (s.timers x).ticks_left
unfolding relink
relink-ticks_left s none next x = refl
relink-ticks_left s (some p) next x =
    update-ticks_left s p x (record (s.timers p) { next = next }) refl

pub link-relink : (s : Oneshots) (prev next : Option ℕ) → link (relink s prev next) prev ≡ next
unfolding relink
link-relink s none next = refl
link-relink s (some p) next = ap (λ t. t.next) (update-on s p (record (s.timers p) { next = next }))

pub link-update :
    (s : Oneshots) (prev : Option ℕ) (a : ℕ) (t : Oneshot)
    → is_other a prev ≡ true
    → link (update s a t) prev ≡ link s prev
link-update s none a t off = refl
link-update s (some p) a t off = ap (λ t. t.next) (update-off s a p t (ground arith))

pub relink-list :
    (s : Oneshots) (prev next : Option ℕ)
    → is_some prev ≡ true
    → (relink s prev next).oneshot_list ≡ s.oneshot_list
unfolding relink
relink-list s (some p) next h = refl
relink-list s none next h = ground arith
