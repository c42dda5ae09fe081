-- ===== src/Oneshot/Tests.antt =====
-- The timers' theorems at concrete inputs.
use liquorice.Base.{ℕ, ◌≡◌, refl, true, false, none, some, [], ◌∷◌, ◌==◌, if◌then◌else◌, arith}
use liquorice.Oneshot.{Oneshots, walk, unlink, count_down, relink, detach}
use liquorice.Oneshot.Links.{has, IsChain, ticks_of}
use liquorice.Oneshot.Walk.{walk_lem}
use liquorice.Oneshot.Detach.{detach_lem}

-- Timers 1, 2 and 3, in this order, with 9, 2 and 1 ticks left.
abbrev three : Oneshots
three = record {
  oneshot_list = some 1;
  timers = λ a. record {
    ticks_left = if a == 1 then 9 else if a == 2 then 2 else 1;
    callback = true;
    refs = 2;
    next = if a == 1 then some 2 else if a == 2 then some 3 else none;
  };
}

-- After two ticks 2 and 3 have both expired, and only 2 is called.
walk-three : (walk 3 2 three none [] (some 1)).1 ≡ 2 ∷ []
unfolding walk unlink count_down relink
walk-three = refl

walk_lem_example :
    let (s', callq) = walk 3 2 three none [] (some 1) in
    IsChain s' s'.oneshot_list (1 ∷ 3 ∷ [])
    × (ticks_of s' (1 ∷ 3 ∷ []) ≡ 7 ∷ 1 ∷ [])
    × (callq ≡ 2 ∷ [])
    × ((x : ℕ) → has x (1 ∷ 2 ∷ 3 ∷ []) ≡ false → s'.timers x ≡ three.timers x)
walk_lem_example =
    walk_lem 3 2 three (1 ∷ 2 ∷ 3 ∷ []) (omega arith) (refl, (refl, (refl, refl)))
      (refl, (refl, (refl, tt)))

detach_lem_example :
    let s' = detach 3 three 2 in
    IsChain s' s'.oneshot_list (1 ∷ 3 ∷ [])
    × ((x : ℕ) → has x (1 ∷ 2 ∷ 3 ∷ []) ≡ false → s'.timers x ≡ three.timers x)
detach_lem_example =
    detach_lem 3 three 2 (1 ∷ 2 ∷ 3 ∷ []) (omega arith) (refl, (refl, (refl, refl)))
      (refl, (refl, (refl, tt)))
