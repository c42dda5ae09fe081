-- ===== src/Heap/Alloc.antt =====
-- The whole of `heap_alloc()`.
use liquorice.Base.{
  ℕ, ◌+◌, ◌-◌, ◌^◌, ◌≤◌, ◌<◌, ◌≡◌, refl, ap, ap₂, ◌∙◌, subst, sym, ◌≢◌, ==_iff, ◌⊎◌, inl, inr, true,
  not, ◌&&◌, none, some, List, [], ◌∷◌, arith, Bool-cases, if◌then◌else◌, neq→==,
}
use liquorice.Heap.{
  Hole, Heap, header_bytes, add_addr, required_size, relink, is_split, take_hole, alloc_required,
  alloc,
}
use liquorice.Heap.Holes.{total, is_in, is_free, IsValid, total-lt}
use liquorice.Heap.Free.{IsApart, IsBlock, block_at, IsAllocated}
use liquorice.Heap.Fit.{IsHole, IsExhausted, find_hole_lem}
use liquorice.Heap.Relink.{
  rest_of, IsHole-bounds, relink-is_free, relink-IsOrdered, relink-IsApart, relink-total,
}

-- How many bytes of a hole are taken.
abbrev taken : ℕ → ℕ → ℕ
taken hole_size required = if is_split hole_size required then required else hole_size

module _ (h : Heap) (required : ℕ) (hole : Hole) (fits : required ≤ hole.size) (pos : 0 < required)
    (top : hole.addr + hole.size < 2 ^ 32) where
  taken_bounds : (required ≤ taken hole.size required) × (taken hole.size required ≤ hole.size)
  unfolding is_split
  taken_bounds = ground arith

  split-ne : is_split hole.size required ≡ true → required ≢ hole.size
  unfolding is_split
  split-ne e = ground arith

  take_hole-holes :
      (take_hole h required hole).0.holes
      ≡ relink hole.addr (rest_of hole (taken hole.size required)) h.holes
  unfolding take_hole rest_of
  take_hole-holes = elim (Bool-cases (is_split hole.size required)) [
    | inl e ↦
        rw (e, neq→== required hole.size (split-ne e))
          (ap₂ (λ a n. relink hole.addr (record { addr = a; size = n } ∷ []) h.holes) (omega arith)
            (omega arith))
    | inr e ↦ rw (e, (==_iff hole.size hole.size).1 refl)
  ]

  take_hole-free_ram :
      total h.holes < 2 ^ 32
      → h.free_ram ≡ total h.holes
      → taken hole.size required ≤ total h.holes
      → (take_hole h required hole).0.free_ram + taken hole.size required ≡ total h.holes
  unfolding take_hole
  take_hole-free_ram small counted part = ground arith

IsHole-is_free :
    (x : ℕ) (hole : Hole) (holes : List Hole)
    → IsHole hole holes
    → is_in x hole.addr hole.size ≡ true
    → is_free x holes ≡ true
IsHole-is_free x hole [] i h = elim i [ ]
IsHole-is_free x hole (mh ∷ holes) (inl e) h = rw (← e, h)
IsHole-is_free x hole (mh ∷ holes) (inr i) h = ground (arith, IsHole-is_free x hole holes i h)

-- What a successful allocation of `size` bytes does: `block` is the memory of the block `mb`, which
-- covers the request, was free and is not any longer, and all else stays as it was.
pub record IsAllocation (h : Heap) (size : ℕ) (h' : Heap) (block : ℕ) (mb : Hole) : Type 0 where
  pub valid : IsValid h'
  pub allocated : IsAllocated h' block
  pub is_at : block_at h' block ≡ mb
  pub large : size + header_bytes ≤ mb.size
  pub was_free : (x : ℕ) → is_in x mb.addr mb.size ≡ true → is_free x h.holes ≡ true
  pub is_taken : (x : ℕ) → is_free x h'.holes ≡ (is_free x h.holes && not (is_in x mb.addr mb.size))
  pub headers : (a : ℕ) → a ≢ mb.addr → h'.mb_size a ≡ h.mb_size a

required_size_bounds :
    (size : ℕ)
    → size + header_bytes < 2 ^ 32
    → (size + header_bytes ≤ required_size size) × (12 ≤ required_size size)
unfolding required_size
required_size_bounds size h = ground arith

module _ (h : Heap) (size : ℕ) (hole : Hole) (valid : IsValid h)
    (small : size + header_bytes < 2 ^ 32) (fits : required_size size ≤ hole.size)
    (i : IsHole hole h.holes) where
  abbrev required : ℕ
  required = required_size size

  abbrev after : Heap
  after = (take_hole h required hole).0

  abbrev block : ℕ
  block = add_addr hole.addr header_bytes

  hole_bounds : (0 < hole.addr) × (0 < hole.size) × (hole.addr + hole.size < 2 ^ 32)
  hole_bounds = IsHole-bounds hole h.holes 0 valid.ordered i

  block-addr : block - header_bytes ≡ hole.addr
  block-addr = omega (arith, hole_bounds, required_size_bounds size small)

  after-mb_size : after.mb_size hole.addr ≡ taken hole.size required
  unfolding take_hole
  after-mb_size = rw ((==_iff hole.addr hole.addr).1 refl)

  after-block : block_at after block ≡ record { addr = hole.addr; size = taken hole.size required }
  after-block =
      ap (λ a. let b : Hole = record { addr = a; size = after.mb_size a } in b) block-addr
      ∙ ap (λ n. let b : Hole = record { addr = hole.addr; size = n } in b) after-mb_size

  abbrev mb : Hole
  mb = record { addr = hole.addr; size = taken hole.size required }

  mb_bounds : (required ≤ mb.size) × (mb.size ≤ hole.size) × (12 ≤ required)
  mb_bounds =
      let r = required_size_bounds size small in
      let t = taken_bounds h required hole fits (omega arith) hole_bounds.2 in (t.0, t.1, r.1)

  after-holes : after.holes ≡ relink hole.addr (rest_of hole mb.size) h.holes
  after-holes =
      let r = required_size_bounds size small in
      take_hole-holes h required hole fits (omega arith) hole_bounds.2

  after-IsValid : IsValid after
  after-IsValid =
      let b = mb_bounds in
      let t = relink-total mb.size (omega arith) hole h.holes 0 b.1 valid.ordered i in
      record {
        ordered =
            rw after-holes
              (relink-IsOrdered mb.size (omega arith) hole h.holes 0 b.1 valid.ordered i);
        counted = rw after-holes (
            omega (
              arith,
              take_hole-free_ram h required hole fits (omega arith) hole_bounds.2
                  (omega (arith, total-lt 0 h.holes valid.ordered)) valid.counted (omega arith),
            ));
      }

  after-IsAllocated : IsAllocated after block
  after-IsAllocated =
      let b = mb_bounds in
      let s = hole_bounds in
      record {
        in_space = omega arith;
        is_block = subst IsBlock (sym after-block) (omega arith);
        apart =
            subst (λ m. IsApart m after.holes) (sym after-block)
              (rw after-holes
                (relink-IsApart mb.size (omega arith) hole h.holes 0 b.1 valid.ordered i));
      }

  after-headers : (a : ℕ) → a ≢ hole.addr → after.mb_size a ≡ h.mb_size a
  unfolding take_hole
  after-headers a n = rw (neq→== a hole.addr n)

  take_hole-IsAllocation : IsAllocation h size after block mb
  take_hole-IsAllocation =
      let b = mb_bounds in
      let r = required_size_bounds size small in
      record {
        valid = after-IsValid;
        allocated = after-IsAllocated;
        is_at = after-block;
        large = omega arith;
        was_free = λ x in_mb. IsHole-is_free x hole h.holes i (ground arith);
        is_taken = λ x.
            rw after-holes
              (relink-is_free mb.size (omega arith) hole h.holes 0 x b.1 valid.ordered i);
        headers = after-headers;
      }

-- On a valid heap, a request whose size with the header fits 32 bits either fails, with the heap as
-- it was and no hole large enough, or yields a block cut from the free memory.
pub alloc_lem :
    (h : Heap) (size : ℕ)
    → IsValid h
    → size + header_bytes < 2 ^ 32
    → ((alloc h size ≡ (h, none)) × IsExhausted (required_size size) h.holes)
      ⊎ ((h' : Heap) × (block : ℕ) × (mb : Hole) × (alloc h size ≡ (h', some block))
          × IsAllocation h size h' block mb)
unfolding alloc take_hole
alloc_lem h size valid small = elim (find_hole_lem (required_size size) h.holes) [
  | inl (e, none_fits) ↦ inl (rw (e, alloc_required), none_fits)
  | inr (hole, e, fits, least, i) ↦ inr (
    after h size hole valid small fits i,
    block h size hole valid small fits i,
    mb h size hole valid small fits i,
    rw (e, alloc_required),
    take_hole-IsAllocation h size hole valid small fits i,
  )
]

required_size-overflow :
    (size : ℕ) → 2 ^ 32 ≤ size + header_bytes → size < 2 ^ 32 → required_size size ≡ required_size 0
unfolding required_size
required_size-overflow size large fits = ground arith

-- A request of the last eight sizes of 32 bits wraps round, and is served as if it were for none.
pub alloc-overflow :
    (h : Heap) (size : ℕ) → 2 ^ 32 ≤ size + header_bytes → size < 2 ^ 32 → alloc h size ≡ alloc h 0
unfolding alloc
alloc-overflow h size large fits = ap (alloc_required h) (required_size-overflow size large fits)
