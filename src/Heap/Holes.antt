-- ===== src/Heap/Holes.antt =====
-- What a hole list stands for: the addresses that are free, and how many there are.
use liquorice.Base.{
  ℕ, ◌+◌, ◌^◌, ◌<◌, ◌≡◌, Bool, false, ◌&&◌, ◌||◌, List, [], ◌∷◌, ltb, leb, ◌≤◌, refl, arith,
}
use liquorice.Heap.{Hole, Heap}

-- The holes lie in ascending order behind `lo`, no two touch, none is empty, and each ends inside
-- the address space.
abbrev pub IsOrdered : ℕ → List Hole → Type 0
IsOrdered lo [] = Unit {0}
IsOrdered lo (mh ∷ holes) =
    (lo < mh.addr)
    × (0 < mh.size)
    × (mh.addr + mh.size < 2 ^ 32)
    × IsOrdered (mh.addr + mh.size) holes

abbrev pub total : List Hole → ℕ
total [] = 0
total (mh ∷ holes) = mh.size + total holes

-- Address `x` lies in the region of `size` bytes at `addr`.
abbrev pub is_in : ℕ → ℕ → ℕ → Bool
is_in x addr size = leb addr x && ltb x (addr + size)

abbrev pub is_free : ℕ → List Hole → Bool
is_free x [] = false
is_free x (mh ∷ holes) = is_in x mh.addr mh.size || is_free x holes

-- The hole list is in order, and the count of free memory is its total.
pub record IsValid (h : Heap) : Type 0 where
  pub ordered : IsOrdered 0 h.holes
  pub counted : h.free_ram ≡ total h.holes

-- Nothing below the first hole is free.
pub is_free-below :
    (lo x : ℕ) (holes : List Hole) → IsOrdered lo holes → x ≤ lo → is_free x holes ≡ false
is_free-below lo x [] o h = refl
is_free-below lo x (mh ∷ holes) o h = ground (arith, is_free-below (mh.addr + mh.size) x holes)

-- The holes fit the address space together.
pub total-lt :
    (lo : ℕ) (holes : List Hole) → IsOrdered lo holes → lo < 2 ^ 32 → lo + total holes < 2 ^ 32
total-lt lo [] o h = omega arith
total-lt lo (mh ∷ holes) o h = ground (arith, total-lt (mh.addr + mh.size) holes)

-- A lower bound can be weakened.
pub IsOrdered-mono :
    (lo lo' : ℕ) (holes : List Hole) → IsOrdered lo holes → lo' ≤ lo → IsOrdered lo' holes
IsOrdered-mono lo lo' [] o h = tt
IsOrdered-mono lo lo' (mh ∷ holes) o h = (omega arith, o.1, o.2, o.3)
