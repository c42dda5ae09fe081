-- ===== src/Heap/Tests.antt =====
-- Runs of the heap, and its theorems at concrete inputs.
use liquorice.Base.{
  ℕ, ◌-◌, ◌^◌, ◌≤◌, ◌≡◌, refl, ◌⊎◌, inl, inr, none, some, [], ◌∷◌, arith, ◌==◌, if◌then◌else◌,
}
use liquorice.Heap.{
  Hole, Heap, required_size, find_hole, relink, is_split, take_hole, absorb, insert_hole, alloc,
  free, add, empty,
}
use liquorice.Heap.Holes.{IsValid}
use liquorice.Heap.Fit.{IsHole, IsLeast, IsExhausted, find_hole_lem}
use liquorice.Heap.Free.{IsAllocated, free-IsValid}
use liquorice.Heap.Alloc.{IsAllocation, alloc_lem, alloc-overflow}
use liquorice.Heap.Canonical.{free-alloc}

abbrev hole : ℕ → ℕ → Hole
hole a n = record { addr = a; size = n }

-- Two holes, with an allocated block of 40 bytes at 200.
abbrev two_holes : Heap
two_holes = record {
  holes = hole 100 100 ∷ hole 300 20 ∷ [];
  free_ram = 120;
  mb_size = λ a. if a == 200 then 40 else 0;
}

-- What is left after `heap_alloc(10)`, which takes the whole second hole.
abbrev one_hole : Heap
one_hole = record {
  holes = hole 100 100 ∷ [];
  free_ram = 100;
  mb_size = λ a. if a == 300 then 20 else if a == 200 then 40 else 0;
}

two_holes-IsValid : IsValid two_holes
two_holes-IsValid = omega arith

block-IsAllocated : IsAllocated two_holes 208
block-IsAllocated = record {
  in_space = omega arith;
  is_block = omega arith;
  apart = (inl (omega arith), (inr (omega arith), tt));
}

alloc-best : alloc two_holes 10 ≡ (one_hole, some 308)
unfolding alloc find_hole take_hole relink is_split required_size
alloc-best = refl

adds : (add (add empty 300 20) 100 200).holes ≡ hole 100 220 ∷ []
unfolding add free insert_hole absorb empty
adds = refl

free-IsValid_example : IsValid (free two_holes 208)
free-IsValid_example = free-IsValid two_holes 208 two_holes-IsValid block-IsAllocated

alloc_lem_example :
    ((alloc two_holes 10 ≡ (two_holes, none)) × IsExhausted (required_size 10) two_holes.holes)
    ⊎ ((h' : Heap) × (block : ℕ) × (mb : Hole) × (alloc two_holes 10 ≡ (h', some block))
        × IsAllocation two_holes 10 h' block mb)
alloc_lem_example = alloc_lem two_holes 10 two_holes-IsValid (omega arith)

free-alloc_example :
    ((free one_hole 308).holes ≡ two_holes.holes)
    × ((free one_hole 308).free_ram ≡ two_holes.free_ram)
free-alloc_example = free-alloc two_holes 10 one_hole 308 two_holes-IsValid (omega arith) alloc-best

alloc-overflow_example : alloc two_holes (2 ^ 32 - 1) ≡ alloc two_holes 0
alloc-overflow_example = alloc-overflow two_holes (2 ^ 32 - 1) (omega arith) (omega arith)

find_hole_lem_example :
    ((find_hole 15 two_holes.holes none ≡ none) × IsExhausted 15 two_holes.holes)
    ⊎ ((h : Hole) × (find_hole 15 two_holes.holes none ≡ some h)
        × (15 ≤ h.size)
        × IsLeast 15 h two_holes.holes
        × IsHole h two_holes.holes)
find_hole_lem_example = find_hole_lem 15 two_holes.holes
