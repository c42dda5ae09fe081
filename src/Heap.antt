-- ===== src/Heap.antt =====
-- The heap, src/lib/heap/heap.c, for the i386 sizes (an `addr_t` and a `fast_u16_t` of 32 bits) and
-- with HEAP_DEBUG set, as include/heap.h has it. The hole list is the list of its holes in order; a
-- link of the list is named by the address of the hole that it points to. A block's header is the
-- word at its address, so that heap_free() finds the size which heap_alloc() left there. The magic
-- words and the messages of the debug build change no result and are left out.
pub mod Holes
pub mod Fit
pub mod Relink
pub mod Alloc
pub mod Free
pub mod Canonical
mod Tests
use liquorice.Base.{
  ℕ, zero, suc, ◌+◌, ◌-◌, ◌%◌, ◌^◌, Bool, true, false, ◌&&◌, Option, none, some, List, [], ◌∷◌,
  ◌++◌, ltb, ◌==◌, if◌then◌else◌,
}

-- `struct memory_hole`, with its address.
pub record Hole : Type 0 where
  pub addr : ℕ
  pub size : ℕ

pub record Heap : Type 0 where
  pub holes : List Hole
  pub free_ram : ℕ
  pub mb_size : ℕ → ℕ

-- The size of `struct memory_block`, of `struct memory_hole` and of the union of the two, and of the
-- magic word.
abbrev pub block_bytes : ℕ
block_bytes = 4

abbrev pub hole_bytes : ℕ
hole_bytes = 8

abbrev pub union_bytes : ℕ
union_bytes = 8

abbrev pub magic_bytes : ℕ
magic_bytes = 4

-- A sum of `addr_t`s.
abbrev pub add_addr : ℕ → ℕ → ℕ
add_addr a b = (a + b) % 2 ^ 32

-- Where the caller's memory begins in a block.
abbrev pub header_bytes : ℕ
header_bytes = block_bytes + magic_bytes

-- `required`, in the 32 bits of the comparisons with it.
pub required_size : ℕ → ℕ
required_size size =
    let required = (size + block_bytes + magic_bytes) % 2 ^ 32 in
    if ltb required (hole_bytes + magic_bytes) then hole_bytes + magic_bytes else required

-- `!use || (use->mh_size > mh->mh_size)`
pub is_tighter : Hole → Option Hole → Bool
is_tighter mh none = true
is_tighter mh (some best) = ltb mh.size best.size

-- The scan for the smallest hole that is large enough, which stops at an exact match.
pub find_hole : ℕ → List Hole → Option Hole → Option Hole
unfolding is_tighter
find_hole required [] best = best
find_hole required (mh ∷ holes) best =
    if mh.size == required
    then some mh
    else find_hole required holes
        (if ltb required mh.size && is_tighter mh best then some mh else best)

-- `*useprev = …`: the link to the hole at `addr` is made to lead through `new` to what comes behind it.
pub relink : ℕ → List Hole → List Hole → List Hole
relink addr new [] = []
relink addr new (mh ∷ holes) = if mh.addr == addr then new ++ holes else mh ∷ relink addr new holes

-- Whether what is left of a hole is worth a hole of its own.
pub is_split : ℕ → ℕ → Bool
is_split size required = ltb (union_bytes + 1 + magic_bytes) ((size + 2 ^ 32 - required) % 2 ^ 32)

-- The block is cut from the front of `hole`.
pub take_hole : Heap → ℕ → Hole → Heap × Option ℕ
take_hole h required hole =
    let split = is_split hole.size required in
    let new : List Hole =
      if split
      then record {
        addr = add_addr hole.addr required;
        size = (hole.size + 2 ^ 32 - required) % 2 ^ 32;
      }
        ∷ []
      else [] in
    let size = if split then required else hole.size in
    (
      record h {
        holes = relink hole.addr new h.holes;
        free_ram = (h.free_ram + 2 ^ 32 - size) % 2 ^ 32;
        mb_size = λ a. if a == hole.addr then size else h.mb_size a;
      },
      some (add_addr hole.addr header_bytes),
    )

-- The body of `heap_alloc()` once `required` is known.
pub alloc_required : Heap → ℕ → Heap × Option ℕ
alloc_required h required = elim (find_hole required h.holes none) [
  | none ↦ (h, none)
  | some hole ↦ take_hole h required hole
]

-- `heap_alloc()`: the heap behind the call, and the memory for the caller.
pub alloc : Heap → ℕ → Heap × Option ℕ
unfolding alloc_required
alloc h size = alloc_required h (required_size size)

-- `mh` has just grown: it takes in the next hole if it now reaches it.
pub absorb : Hole → List Hole → List Hole
absorb mh [] = mh ∷ []
absorb mh (next ∷ holes) =
    if add_addr mh.addr mh.size == next.addr
    then record { addr = mh.addr; size = add_addr mh.size next.size } ∷ holes
    else mh ∷ next ∷ holes

-- The walk of `heap_free()` along the hole list with the block `mb`, which becomes a hole.
pub insert_hole : Hole → List Hole → List Hole
insert_hole mb [] = mb ∷ []
insert_hole mb (mh ∷ holes) =
    if add_addr mh.addr mh.size == mb.addr
    then absorb (record { addr = mh.addr; size = add_addr mh.size mb.size }) holes
    else if ltb mb.addr mh.addr
    then absorb mb (mh ∷ holes)
    else mh ∷ insert_hole mb holes

-- `heap_free()` of the memory at `block`.
pub free : Heap → ℕ → Heap
unfolding insert_hole
free h block =
    let addr = (block + 2 ^ 32 - header_bytes) % 2 ^ 32 in
    record h {
      holes = insert_hole (record { addr = addr; size = h.mb_size addr }) h.holes;
      free_ram = add_addr h.free_ram (h.mb_size addr);
    }

-- `heap_get_free()`
pub get_free : Heap → ℕ
get_free h = h.free_ram

-- `heap_dump_stats()`: the holes copied to the caller's array of `max` entries.
pub dump_stats : List Hole → ℕ → List Hole
dump_stats [] max = []
dump_stats (mh ∷ holes) zero = []
dump_stats (mh ∷ holes) (suc max) = mh ∷ dump_stats holes max

-- `heap_add()`: the region is dressed up as a block, and freed.
pub add : Heap → ℕ → ℕ → Heap
unfolding free
add h addr sz =
    free (record h { mb_size = λ a. if a == addr then sz else h.mb_size a })
      (add_addr addr header_bytes)

-- The heap before any region is added.
pub empty : Heap
empty = record { holes = []; free_ram = 0; mb_size = λ a. 0 }
