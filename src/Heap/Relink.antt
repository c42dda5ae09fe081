-- ===== src/Heap/Relink.antt =====
-- Taking the front of a hole out of the hole list.
use liquorice.Base.{
  ℕ, ◌+◌, ◌-◌, ◌^◌, ◌≤◌, ◌<◌, ◌≡◌, refl, ap, ==_iff, inl, inr, not, ◌&&◌, ◌||◌, List, [], ◌∷◌, ◌++◌,
  arith, ◌==◌, Bool-cases, if◌then◌else◌,
}
use liquorice.Heap.{Hole, relink}
use liquorice.Heap.Holes.{IsOrdered, total, is_in, is_free, is_free-below, IsOrdered-mono}
use liquorice.Heap.Free.{IsApart}
use liquorice.Heap.Fit.{IsHole}

-- What the link to a hole of `hole` is set to when `size` bytes of it are taken.
unfoldable pub rest_of : Hole → ℕ → List Hole
rest_of hole size =
    if size == hole.size
    then []
    else record { addr = hole.addr + size; size = hole.size - size } ∷ []

-- A hole of an ordered list lies behind the list's bound, inside the address space.
pub IsHole-bounds :
    (hole : Hole) (holes : List Hole) (lo : ℕ)
    → IsOrdered lo holes
    → IsHole hole holes
    → (lo < hole.addr) × (0 < hole.size) × (hole.addr + hole.size < 2 ^ 32)
IsHole-bounds hole [] lo o i = elim i [ ]
IsHole-bounds hole (mh ∷ holes) lo o (inl e) = rw e (o.0, o.1, o.2)
IsHole-bounds hole (mh ∷ holes) lo o (inr i) =
    let b : (mh.addr + mh.size < hole.addr) × (0 < hole.size) × (hole.addr + hole.size < 2 ^ 32) =
      IsHole-bounds hole holes (mh.addr + mh.size) o.3 i in
    omega arith

relink-here : (mh : Hole) (new holes : List Hole) → relink mh.addr new (mh ∷ holes) ≡ new ++ holes
unfolding relink
relink-here mh new holes = rw ((==_iff mh.addr mh.addr).1 refl)

relink-there :
    (hole mh : Hole) (new holes : List Hole)
    → mh.addr < hole.addr
    → relink hole.addr new (mh ∷ holes) ≡ mh ∷ relink hole.addr new holes
unfolding relink
relink-there hole mh new holes h = ground arith

-- What lies behind a block is apart from it.
IsApart-behind :
    (mb : Hole) (holes : List Hole) (lo : ℕ)
    → IsOrdered lo holes
    → mb.addr + mb.size ≤ lo
    → IsApart mb holes
IsApart-behind mb [] lo o h = tt
IsApart-behind mb (mh ∷ holes) lo o h =
    (inr (omega arith), IsApart-behind mb holes (mh.addr + mh.size) o.3 (omega arith))

-- The first `size` bytes of a hole of the list are taken out.
module _ (size : ℕ) (positive : 0 < size) where
  rest_of-is_free :
      (mh : Hole) (holes : List Hole) (x : ℕ)
      → size ≤ mh.size
      → IsOrdered (mh.addr + mh.size) holes
      → is_free x (rest_of mh size ++ holes)
        ≡ ((is_in x mh.addr mh.size || is_free x holes) && not (is_in x mh.addr size))
  unfolding rest_of
  rest_of-is_free mh holes x s o = ground (arith, is_free-below (mh.addr + mh.size) x holes o)

  rest_of-IsOrdered :
      (mh : Hole) (holes : List Hole) (lo : ℕ)
      → size ≤ mh.size
      → IsOrdered lo (mh ∷ holes)
      → IsOrdered lo (rest_of mh size ++ holes)
  unfolding rest_of
  rest_of-IsOrdered mh holes lo s o = elim (Bool-cases (size == mh.size)) [
    | inl e ↦ rw e (IsOrdered-mono (mh.addr + mh.size) lo holes o.3 (omega arith))
    | inr e ↦ rw e (
      omega arith,
      ground arith,
      omega arith,
      IsOrdered-mono (mh.addr + mh.size) _ holes o.3 (omega arith),
    )
  ]

  rest_of-total :
      (mh : Hole) (holes : List Hole)
      → size ≤ mh.size
      → total (rest_of mh size ++ holes) + size ≡ mh.size + total holes
  unfolding rest_of
  rest_of-total mh holes s = ground arith

  rest_of-IsApart :
      (mh : Hole) (holes : List Hole)
      → size ≤ mh.size
      → IsOrdered (mh.addr + mh.size) holes
      → IsApart (record { addr = mh.addr; size = size }) (rest_of mh size ++ holes)
  unfolding rest_of
  rest_of-IsApart mh holes s o = elim (Bool-cases (size == mh.size)) [
    | inl e ↦ rw e (
        IsApart-behind (record { addr = mh.addr; size = size }) holes (mh.addr + mh.size) o
          (omega arith))
    | inr e ↦ rw e (
      inr (omega arith),
      IsApart-behind (record { addr = mh.addr; size = size }) holes (mh.addr + mh.size) o
          (omega arith),
    )
  ]

  pub relink-is_free :
      (hole : Hole) (holes : List Hole) (lo x : ℕ)
      → size ≤ hole.size
      → IsOrdered lo holes
      → IsHole hole holes
      → is_free x (relink hole.addr (rest_of hole size) holes)
        ≡ (is_free x holes && not (is_in x hole.addr size))
  relink-is_free hole [] lo x s o i = elim i [ ]
  relink-is_free hole (mh ∷ holes) lo x s o (inl e) =
      rw (e, relink-here mh (rest_of mh size) holes)
        (rest_of-is_free mh holes x (omega (arith, ap (λ h. h.size) e)) o.3)
  relink-is_free hole (mh ∷ holes) lo x s o (inr i) =
      let b = IsHole-bounds hole holes (mh.addr + mh.size) o.3 i in
      rw
        (
          relink-there hole mh (rest_of hole size) holes (omega arith),
          relink-is_free hole holes (mh.addr + mh.size) x s o.3 i,
        )
        (ground arith)

  pub relink-IsOrdered :
      (hole : Hole) (holes : List Hole) (lo : ℕ)
      → size ≤ hole.size
      → IsOrdered lo holes
      → IsHole hole holes
      → IsOrdered lo (relink hole.addr (rest_of hole size) holes)
  relink-IsOrdered hole [] lo s o i = elim i [ ]
  relink-IsOrdered hole (mh ∷ holes) lo s o (inl e) =
      rw (e, relink-here mh (rest_of mh size) holes)
        (rest_of-IsOrdered mh holes lo (omega (arith, ap (λ h. h.size) e)) o)
  relink-IsOrdered hole (mh ∷ holes) lo s o (inr i) =
      let b = IsHole-bounds hole holes (mh.addr + mh.size) o.3 i in
      rw (relink-there hole mh (rest_of hole size) holes (omega arith))
        (o.0, o.1, o.2, relink-IsOrdered hole holes (mh.addr + mh.size) s o.3 i)

  pub relink-IsApart :
      (hole : Hole) (holes : List Hole) (lo : ℕ)
      → size ≤ hole.size
      → IsOrdered lo holes
      → IsHole hole holes
      → IsApart
          (record { addr = hole.addr; size = size })
          (relink hole.addr (rest_of hole size) holes)
  relink-IsApart hole [] lo s o i = elim i [ ]
  relink-IsApart hole (mh ∷ holes) lo s o (inl e) =
      rw (e, relink-here mh (rest_of mh size) holes)
        (rest_of-IsApart mh holes (omega (arith, ap (λ h. h.size) e)) o.3)
  relink-IsApart hole (mh ∷ holes) lo s o (inr i) =
      let b = IsHole-bounds hole holes (mh.addr + mh.size) o.3 i in
      rw (relink-there hole mh (rest_of hole size) holes (omega arith))
        (inl (omega arith), relink-IsApart hole holes (mh.addr + mh.size) s o.3 i)

  pub relink-total :
      (hole : Hole) (holes : List Hole) (lo : ℕ)
      → size ≤ hole.size
      → IsOrdered lo holes
      → IsHole hole holes
      → total (relink hole.addr (rest_of hole size) holes) + size ≡ total holes
  relink-total hole [] lo s o i = elim i [ ]
  relink-total hole (mh ∷ holes) lo s o (inl e) =
      rw (e, relink-here mh (rest_of mh size) holes)
        (rest_of-total mh holes (omega (arith, ap (λ h. h.size) e)))
  relink-total hole (mh ∷ holes) lo s o (inr i) =
      let b = IsHole-bounds hole holes (mh.addr + mh.size) o.3 i in
      rw (relink-there hole mh (rest_of hole size) holes (omega arith))
        (omega (arith, relink-total hole holes (mh.addr + mh.size) s o.3 i))
