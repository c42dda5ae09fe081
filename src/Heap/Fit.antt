-- ===== src/Heap/Fit.antt =====
-- The scan of the hole list: best fit, complete, and it finds a hole of the list.
use liquorice.Base.{
  ℕ, ◌≤◌, ◌<◌, ◌≡◌, refl, ◌⊎◌, inl, inr, true, false, ◌&&◌, Option, none, some, List, [], ◌∷◌,
  arith, ltb, All, ℕ_discrete, Bool-cases, Option-cases, ==_iff, neq→==, ◌≢◌, sym, ◌∙◌, subst,
}
use liquorice.Heap.{Hole, is_tighter, find_hole}

-- The hole is one of the list.
abbrev pub IsHole : Hole → List Hole → Type 0
IsHole hole [] = ⊥
IsHole hole (mh ∷ holes) = (hole ≡ mh) ⊎ IsHole hole holes

-- No hole of the list, and not the best one so far, is both large enough and smaller.
abbrev pub IsLeast : ℕ → Hole → List Hole → Type 0
IsLeast required hole holes = All (λ mh. required ≤ mh.size → hole.size ≤ mh.size) holes

-- What the scan knows of its best hole so far.
abbrev Candidate : ℕ → Option Hole → Type 0
Candidate required none = Unit {0}
Candidate required (some best) = required < best.size

abbrev IsBetter : Hole → Option Hole → Type 0
IsBetter hole none = Unit {0}
IsBetter hole (some best) = hole.size ≤ best.size

abbrev IsBest : Hole → Option Hole → Type 0
IsBest hole none = ⊥
IsBest hole (some best) = hole ≡ best

exact-IsLeast : (n : ℕ) (hole : Hole) (holes : List Hole) → hole.size ≡ n → IsLeast n hole holes
exact-IsLeast n hole [] e = tt
exact-IsLeast n hole (mh ∷ holes) e = (λ h. omega arith, exact-IsLeast n hole holes e)

tighter-IsBetter :
    (hole mh : Hole) (best : Option Hole)
    → is_tighter mh best ≡ true
    → hole.size ≤ mh.size
    → IsBetter hole best
unfolding is_tighter
tighter-IsBetter hole mh none t h = tt
tighter-IsBetter hole mh (some best) t h = ground arith

le_of_looser :
    (hole mh : Hole) (best : Option Hole)
    → is_tighter mh best ≡ false
    → IsBetter hole best
    → hole.size ≤ mh.size
unfolding is_tighter
le_of_looser hole mh none t h = cc
le_of_looser hole mh (some best) t h = ground arith

exact-IsBetter :
    (n : ℕ) (hole : Hole) (best : Option Hole)
    → hole.size ≡ n
    → Candidate n best
    → IsBetter hole best
exact-IsBetter n hole none e c = tt
exact-IsBetter n hole (some best) e c = omega arith

-- The three branches of the scan at a hole `mh`.
module _ (required : ℕ) (mh : Hole) (holes : List Hole) (best : Option Hole) where
  find_hole-exact : mh.size ≡ required → find_hole required (mh ∷ holes) best ≡ some mh
  unfolding find_hole
  find_hole-exact e = rw ((==_iff mh.size required).1 e)

  find_hole-better :
      mh.size ≢ required
      → (ltb required mh.size && is_tighter mh best) ≡ true
      → find_hole required (mh ∷ holes) best ≡ find_hole required holes (some mh)
  unfolding find_hole
  find_hole-better n t = rw (neq→== mh.size required n, t)

  find_hole-worse :
      mh.size ≢ required
      → (ltb required mh.size && is_tighter mh best) ≡ false
      → find_hole required (mh ∷ holes) best ≡ find_hole required holes best
  unfolding find_hole
  find_hole-worse n t = rw (neq→== mh.size required n, t)

loose-lt :
    (required : ℕ) (mh : Hole) (best : Option Hole)
    → best ≡ none
    → mh.size ≢ required
    → (ltb required mh.size && is_tighter mh best) ≡ false
    → mh.size < required
unfolding is_tighter
loose-lt required mh none b n h = ground arith
loose-lt required mh (some best) b n h = cc

abbrev Fits : ℕ → List Hole → Option Hole → Hole → Type 0
Fits required holes best hole =
    (required ≤ hole.size)
    × IsBetter hole best
    × IsLeast required hole holes
    × (IsHole hole holes ⊎ IsBest hole best)

find_hole-Fits :
    (required : ℕ) (holes : List Hole) (best : Option Hole) (hole : Hole)
    → Candidate required best
    → find_hole required holes best ≡ some hole
    → Fits required holes best hole
unfolding find_hole
find_hole-Fits required [] none hole c e = cc
find_hole-Fits required [] (some best) hole c e = ground arith
find_hole-Fits required (mh ∷ holes) best hole c e = elim (ℕ_discrete mh.size required) [
  | yes exact ↦
      let same : mh ≡ hole = cc (find_hole-exact required mh holes best exact) in
      subst (Fits required (mh ∷ holes) best) same (
        omega arith,
        exact-IsBetter required mh best exact c,
        exact-IsLeast required mh (mh ∷ holes) exact,
        inl (inl refl),
      )
  | no other ↦ elim (Bool-cases (ltb required mh.size && is_tighter mh best)) [
    | inl better ↦
        let ih : Fits required holes (some mh) hole =
          find_hole-Fits required holes (some mh) hole (ground arith)
            (sym (find_hole-better required mh holes best other better) ∙ e) in
        (
          ih.0,
          tighter-IsBetter hole mh best (ground arith) ih.1,
          (λ h. ih.1, ih.2),
          elim ih.3 [ inl x ↦ inl (inr x) | inr x ↦ inl (inl x) ],
        )
    | inr worse ↦
        let ih : Fits required holes best hole =
          find_hole-Fits required holes best hole c
            (sym (find_hole-worse required mh holes best other worse) ∙ e) in
        (
          ih.0,
          ih.1,
          (λ h. le_of_looser hole mh best (ground arith) ih.1, ih.2),
          elim ih.3 [ inl x ↦ inl (inr x) | inr x ↦ inr x ],
        )
  ]
]

-- Where the scan finds nothing, no hole is large enough.
abbrev pub IsExhausted : ℕ → List Hole → Type 0
IsExhausted required holes = All (λ mh. mh.size < required) holes

find_hole-none :
    (required : ℕ) (holes : List Hole) (best : Option Hole)
    → find_hole required holes best ≡ none
    → (best ≡ none) × IsExhausted required holes
unfolding find_hole
find_hole-none required [] best e = (e, tt)
find_hole-none required (mh ∷ holes) best e = elim (ℕ_discrete mh.size required) [
  | yes exact ↦ cc (find_hole-exact required mh holes best exact)
  | no other ↦ elim (Bool-cases (ltb required mh.size && is_tighter mh best)) [
    | inl better ↦
        let ih : (some mh ≡ none) × IsExhausted required holes =
          find_hole-none required holes (some mh)
            (sym (find_hole-better required mh holes best other better) ∙ e) in
        cc (ih.0)
    | inr worse ↦
        let ih : (best ≡ none) × IsExhausted required holes =
          find_hole-none required holes best
            (sym (find_hole-worse required mh holes best other worse) ∙ e) in
        (ih.0, (loose-lt required mh best ih.0 other worse, ih.1))
  ]
]

-- With no hole in the list large enough the scan finds none, and otherwise it finds a smallest one
-- of those that are.
pub find_hole_lem :
    (required : ℕ) (holes : List Hole)
    → ((find_hole required holes none ≡ none) × IsExhausted required holes)
      ⊎ ((hole : Hole) × (find_hole required holes none ≡ some hole)
          × (required ≤ hole.size)
          × IsLeast required hole holes
          × IsHole hole holes)
find_hole_lem required holes = elim (Option-cases (find_hole required holes none)) [
  | inl e ↦ inl (e, (find_hole-none required holes none e).1)
  | inr (hole, e) ↦
      let f : Fits required holes none hole = find_hole-Fits required holes none hole tt e in
      inr (hole, e, f.0, f.2, elim f.3 [ inl x ↦ x | inr x ↦ elim x [ ] ])
]
