-- ===== src/Heap/Canonical.antt =====
-- The hole list is determined by the addresses that are free, so freeing undoes allocating.
use liquorice.Base.{
  ℕ, ◌+◌, ◌^◌, ◌≤◌, ◌<◌, ◌≡◌, refl, ap, ap₂, ◌∙◌, sym, subst, true, ◌||◌, some, List, [], ◌∷◌,
  arith, dec_lt, dec_le, inl, inr,
}
use liquorice.Heap.{Hole, Heap, header_bytes, alloc, free}
use liquorice.Heap.Holes.{IsOrdered, total, is_in, is_free, IsValid, is_free-below}
use liquorice.Heap.Free.{free-is_free, free-IsValid}
use liquorice.Heap.Alloc.{IsAllocation, alloc_lem}
use mathlib.Core.Path.{subst₂}

abbrev SameFree : List Hole → List Hole → Type 0
SameFree xs ys = (z : ℕ) → is_free z xs ≡ is_free z ys

is_free-addr :
    (lo : ℕ) (x : Hole) (xs : List Hole) → IsOrdered lo (x ∷ xs) → is_free x.addr (x ∷ xs) ≡ true
is_free-addr lo x xs o = ground arith

addr-le :
    (lo : ℕ) (x y : Hole) (xs ys : List Hole)
    → IsOrdered lo (x ∷ xs)
    → IsOrdered lo (y ∷ ys)
    → SameFree (x ∷ xs) (y ∷ ys)
    → y.addr ≤ x.addr
addr-le lo x y xs ys o p same = elim (dec_lt x.addr y.addr) [
  | yes h ↦ cc (
    is_free-addr lo x xs o,
    is_free-below x.addr x.addr (y ∷ ys) (h, p.1, p.2, p.3) (omega arith),
    same x.addr,
  )
  | no h ↦ omega arith
]

size-le :
    (lo : ℕ) (x y : Hole) (xs ys : List Hole)
    → IsOrdered lo (x ∷ xs)
    → IsOrdered lo (y ∷ ys)
    → x.addr ≡ y.addr
    → SameFree (x ∷ xs) (y ∷ ys)
    → y.size ≤ x.size
size-le lo x y xs ys o p e same = elim (dec_lt x.size y.size) [
  | yes h ↦
      ground
        (arith, same (x.addr + x.size), is_free-below (x.addr + x.size) (x.addr + x.size) xs o.3)
  | no h ↦ omega arith
]

tail-SameFree :
    (lo : ℕ) (x : Hole) (xs ys : List Hole)
    → IsOrdered lo (x ∷ xs)
    → IsOrdered lo (x ∷ ys)
    → SameFree (x ∷ xs) (x ∷ ys)
    → SameFree xs ys
tail-SameFree lo x xs ys o p same z = elim (dec_le z (x.addr + x.size)) [
  | yes h ↦
      is_free-below (x.addr + x.size) z xs o.3 h ∙ sym (is_free-below (x.addr + x.size) z ys p.3 h)
  | no h ↦ ground (arith, same z)
]

first_unique :
    (lo : ℕ) (x y : Hole) (xs ys : List Hole)
    → IsOrdered lo (x ∷ xs)
    → IsOrdered lo (y ∷ ys)
    → SameFree (x ∷ xs) (y ∷ ys)
    → y ≡ x
first_unique lo x y xs ys o p same =
    let a : x.addr ≡ y.addr =
      omega (arith, addr-le lo x y xs ys o p same, addr-le lo y x ys xs p o (λ z. sym (same z))) in
    let b = size-le lo x y xs ys o p a same in
    let c = size-le lo y x ys xs p o (sym a) (λ z. sym (same z)) in ground arith

free_alloc-SameFree :
    (h : Heap) (size : ℕ) (h' : Heap) (block : ℕ) (mb : Hole)
    → IsAllocation h size h' block mb
    → SameFree (free h' block).holes h.holes
free_alloc-SameFree h size h' block mb a z =
    free-is_free h' block a.valid a.allocated z
    ∙ ap (λ (m : Hole). is_in z m.addr m.size || is_free z h'.holes) a.is_at
    ∙ ap (λ b. is_in z mb.addr mb.size || b) (a.is_taken z)
    ∙ ground (arith, a.was_free z)

-- Two hole lists in order that leave the same addresses free are equal.
holes_unique :
    (lo : ℕ) (xs ys : List Hole) → IsOrdered lo xs → IsOrdered lo ys → SameFree xs ys → xs ≡ ys
holes_unique lo [] [] o p same = refl
holes_unique lo [] (y ∷ ys) o p same = cc (same y.addr, is_free-addr lo y ys p)
holes_unique lo (x ∷ xs) [] o p same = cc (same x.addr, is_free-addr lo x xs o)
holes_unique lo (x ∷ xs) (y ∷ ys) o p same =
    let e : y ≡ x = first_unique lo x y xs ys o p same in
    let p' : IsOrdered lo (x ∷ ys) = subst (λ m. IsOrdered lo (m ∷ ys)) e p in
    let same' : SameFree (x ∷ xs) (x ∷ ys) = subst (λ m. SameFree (x ∷ xs) (m ∷ ys)) e same in
    ap₂ (λ m ms. m ∷ ms) (sym e)
      (holes_unique (x.addr + x.size) xs ys o.3 p'.3 (tail-SameFree lo x xs ys o p' same'))

free-IsAllocation :
    (h : Heap) (size : ℕ) (h' : Heap) (block : ℕ) (mb : Hole)
    → IsValid h
    → IsAllocation h size h' block mb
    → ((free h' block).holes ≡ h.holes) × ((free h' block).free_ram ≡ h.free_ram)
free-IsAllocation h size h' block mb valid a =
    let v = free-IsValid h' block a.valid a.allocated in
    let same : (free h' block).holes ≡ h.holes =
      holes_unique 0 (free h' block).holes h.holes v.ordered valid.ordered
        (free_alloc-SameFree h size h' block mb a) in
    (same, v.counted ∙ ap total same ∙ sym valid.counted)

-- On a valid heap, where an allocation of a size that with the header fits 32 bits succeeds, freeing
-- the block gives back the very hole list, and the count of free memory, from before it.
pub free-alloc :
    (h : Heap) (size : ℕ) (h' : Heap) (block : ℕ)
    → IsValid h
    → size + header_bytes < 2 ^ 32
    → alloc h size ≡ (h', some block)
    → ((free h' block).holes ≡ h.holes) × ((free h' block).free_ram ≡ h.free_ram)
free-alloc h size h' block valid small done = elim (alloc_lem h size valid small) [
  | inl (e, _) ↦ cc
  | inr (h1, block1, mb, e, a) ↦
      let same_heap : h1 ≡ h' = ap (λ r. r.0) (sym e ∙ done) in
      let same_block : block1 ≡ block = cc in
      subst₂ (λ g b. ((free g b).holes ≡ h.holes) × ((free g b).free_ram ≡ h.free_ram)) same_heap
        same_block (free-IsAllocation h size h1 block1 mb valid a)
]
