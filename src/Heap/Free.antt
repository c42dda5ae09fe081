-- ===== src/Heap/Free.antt =====
-- Freeing a block: the hole list stays in order, and exactly the block's addresses become free.
use liquorice.Base.{
  ℕ, ◌+◌, ◌-◌, ◌%◌, ◌^◌, ◌≤◌, ◌<◌, ◌≡◌, refl, ap, ◌≢◌, ==_iff, ◌⊎◌, ◌||◌, List, [], ◌∷◌, arith,
  dec_lt, ℕ_discrete,
}
use liquorice.Heap.{Hole, Heap, header_bytes, add_addr, absorb, insert_hole, free}
use liquorice.Heap.Holes.{IsOrdered, total, is_in, is_free, IsValid, total-lt, IsOrdered-mono}

-- No hole shares an address with the block.
abbrev pub IsApart : Hole → List Hole → Type 0
IsApart mb [] = Unit {0}
IsApart mb (mh ∷ holes) =
    ((mh.addr + mh.size ≤ mb.addr) ⊎ (mb.addr + mb.size ≤ mh.addr)) × IsApart mb holes

abbrev pub IsBlock : Hole → Type 0
IsBlock mb = (0 < mb.addr) × (0 < mb.size) × (mb.addr + mb.size < 2 ^ 32)

absorb-is_free :
    (mb : Hole) (holes : List Hole) (x lo : ℕ)
    → IsBlock mb
    → IsOrdered lo holes
    → is_free x (absorb mb holes) ≡ (is_in x mb.addr mb.size || is_free x holes)
unfolding absorb
absorb-is_free mb [] x lo b o = refl
absorb-is_free mb (mh ∷ holes) x lo b o = ground arith

absorb-IsOrdered :
    (mb : Hole) (holes : List Hole) (lo : ℕ)
    → IsBlock mb
    → lo < mb.addr
    → IsOrdered (mb.addr + mb.size - 1) holes
    → IsOrdered lo (absorb mb holes)
unfolding absorb
absorb-IsOrdered mb [] lo b h o = ground arith
absorb-IsOrdered mb (mh ∷ holes) lo b h o = ground arith

absorb-total :
    (mb : Hole) (holes : List Hole) (lo : ℕ)
    → IsBlock mb
    → IsOrdered lo holes
    → total (absorb mb holes) ≡ mb.size + total holes
unfolding absorb
absorb-total mb [] lo b o = refl
absorb-total mb (mh ∷ holes) lo b o = ground arith

-- Behind a block that touches nothing, the list is in order from the block's end on.
IsOrdered-behind :
    (mb : Hole) (holes : List Hole) (lo : ℕ)
    → IsBlock mb
    → IsOrdered lo holes
    → IsApart mb holes
    → mb.addr ≤ lo
    → IsOrdered (mb.addr + mb.size - 1) holes
IsOrdered-behind mb [] lo b o a h = tt
IsOrdered-behind mb (mh ∷ holes) lo b o a h = (omega arith, o.1, o.2, o.3)

-- The three branches of the walk at a hole `mh`.
module _ (mb mh : Hole) (holes : List Hole) (b : IsBlock mb)
    (fits : mh.addr + mh.size < 2 ^ 32) where
  abbrev grown : Hole
  grown = record { addr = mh.addr; size = mh.size + mb.size }

  insert_hole-joins : mh.addr + mh.size ≡ mb.addr → insert_hole mb (mh ∷ holes) ≡ absorb grown holes
  unfolding insert_hole
  insert_hole-joins e =
      rw ((==_iff (add_addr mh.addr mh.size) mb.addr).1 (omega arith))
        (ap (λ n. absorb (record { addr = mh.addr; size = n }) holes) (omega arith))

  insert_hole-before :
      mh.addr + mh.size ≢ mb.addr
      → mb.addr < mh.addr
      → insert_hole mb (mh ∷ holes) ≡ absorb mb (mh ∷ holes)
  unfolding insert_hole
  insert_hole-before n h = ground arith

  insert_hole-behind :
      mh.addr + mh.size ≢ mb.addr
      → mh.addr ≤ mb.addr
      → insert_hole mb (mh ∷ holes) ≡ mh ∷ insert_hole mb holes
  unfolding insert_hole
  insert_hole-behind n h = ground arith

insert_hole-is_free :
    (mb : Hole) (holes : List Hole) (x lo : ℕ)
    → IsBlock mb
    → IsOrdered lo holes
    → is_free x (insert_hole mb holes) ≡ (is_in x mb.addr mb.size || is_free x holes)
unfolding insert_hole
insert_hole-is_free mb [] x lo b o = refl
insert_hole-is_free mb (mh ∷ holes) x lo b o = elim (ℕ_discrete (mh.addr + mh.size) mb.addr) [
  | yes joins ↦
      rw (insert_hole-joins mb mh holes b o.2 joins)
        (ground (arith, absorb-is_free (grown mb mh holes b o.2) holes x (mh.addr + mh.size)))
  | no apart ↦ elim (dec_lt mb.addr mh.addr) [
    | yes before ↦
        rw (insert_hole-before mb mh holes b o.2 apart before)
          (absorb-is_free mb (mh ∷ holes) x lo b o)
    | no behind ↦
        rw (insert_hole-behind mb mh holes b o.2 apart (omega arith))
          (ground (arith, insert_hole-is_free mb holes x (mh.addr + mh.size)))
  ]
]

insert_hole-IsOrdered :
    (mb : Hole) (holes : List Hole) (lo : ℕ)
    → IsBlock mb
    → lo < mb.addr
    → IsOrdered lo holes
    → IsApart mb holes
    → IsOrdered lo (insert_hole mb holes)
unfolding insert_hole
insert_hole-IsOrdered mb [] lo b h o a = ground arith
insert_hole-IsOrdered mb (mh ∷ holes) lo b h o a = elim (ℕ_discrete (mh.addr + mh.size) mb.addr) [
  | yes joins ↦ rw (insert_hole-joins mb mh holes b o.2 joins) (
      absorb-IsOrdered (grown mb mh holes b o.2) holes lo (omega arith) (omega arith) (
        IsOrdered-mono (mb.addr + mb.size - 1) _ holes
          (IsOrdered-behind mb holes (mh.addr + mh.size) b o.3 a.1 (omega arith)) (omega arith)))
  | no apart ↦ elim (dec_lt mb.addr mh.addr) [
    | yes before ↦
        rw (insert_hole-before mb mh holes b o.2 apart before)
          (absorb-IsOrdered mb (mh ∷ holes) lo b h (omega arith, o.1, o.2, o.3))
    | no behind ↦
        rw (insert_hole-behind mb mh holes b o.2 apart (omega arith)) (
          o.0,
          o.1,
          o.2,
          insert_hole-IsOrdered mb holes (mh.addr + mh.size) b (omega arith) o.3 a.1,
        )
  ]
]

insert_hole-total :
    (mb : Hole) (holes : List Hole) (lo : ℕ)
    → IsBlock mb
    → IsOrdered lo holes
    → total (insert_hole mb holes) ≡ mb.size + total holes
unfolding insert_hole
insert_hole-total mb [] lo b o = refl
insert_hole-total mb (mh ∷ holes) lo b o = elim (ℕ_discrete (mh.addr + mh.size) mb.addr) [
  | yes joins ↦
      rw (insert_hole-joins mb mh holes b o.2 joins)
        (omega (arith, absorb-total (grown mb mh holes b o.2) holes (mh.addr + mh.size)))
  | no apart ↦ elim (dec_lt mb.addr mh.addr) [
    | yes before ↦
        rw (insert_hole-before mb mh holes b o.2 apart before) (absorb-total mb (mh ∷ holes) lo b o)
    | no behind ↦
        rw (insert_hole-behind mb mh holes b o.2 apart (omega arith))
          (omega (arith, insert_hole-total mb holes (mh.addr + mh.size) b o.3))
  ]
]

-- The block whose memory begins at `block`.
abbrev pub block_at : Heap → ℕ → Hole
block_at h block = record { addr = block - header_bytes; size = h.mb_size (block - header_bytes) }

-- `block` is memory of a block that no hole overlaps.
pub record IsAllocated (h : Heap) (block : ℕ) : Type 0 where
  pub in_space : header_bytes < block
  pub is_block : IsBlock (block_at h block)
  pub apart : IsApart (block_at h block) h.holes

module _ (h : Heap) (block : ℕ) (valid : IsValid h) (a : IsAllocated h block) where
  free-holes : (free h block).holes ≡ insert_hole (block_at h block) h.holes
  unfolding free
  free-holes = ap (λ n. insert_hole (record { addr = n; size = h.mb_size n }) h.holes) (omega arith)

  -- Freeing an allocated block makes exactly the block's addresses free, besides those that were.
  pub free-is_free :
      (x : ℕ)
      → is_free x (free h block).holes
        ≡ (is_in x (block - header_bytes) (h.mb_size (block - header_bytes)) || is_free x h.holes)
  free-is_free x =
      rw free-holes (insert_hole-is_free (block_at h block) h.holes x 0 a.is_block valid.ordered)

  free-IsOrdered : IsOrdered 0 (insert_hole (block_at h block) h.holes)
  free-IsOrdered =
      insert_hole-IsOrdered (block_at h block) h.holes 0 a.is_block (omega arith) valid.ordered
        a.apart

  free-counted : (free h block).free_ram ≡ total (insert_hole (block_at h block) h.holes)
  unfolding free
  free-counted =
      let same : h.mb_size ((block + 2 ^ 32 - header_bytes) % 2 ^ 32)
          ≡ h.mb_size (block - header_bytes) =
        ap h.mb_size (omega arith) in
      omega (
        arith,
        insert_hole-total (block_at h block) h.holes 0 a.is_block valid.ordered,
        total-lt 0 (insert_hole (block_at h block) h.holes) free-IsOrdered,
      )

  -- Freeing an allocated block keeps the hole list in order, with no two holes that touch, and the
  -- count of free memory exact.
  pub free-IsValid : IsValid (free h block)
  free-IsValid = record {
    ordered = rw free-holes free-IsOrdered;
    counted = rw free-holes free-counted;
  }
