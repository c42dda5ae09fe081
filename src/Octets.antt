-- ===== src/Octets.antt =====
-- Octets of packets: numbers in network byte order, and packets in memory. A packet that is received is the
-- memory that it stands in, a function from offsets to octets.
use liquorice.Base.{
  ℕ, zero, suc, ◌+◌, ◌*◌, ◌/◌, ◌%◌, ◌^◌, ◌≡◌, refl, subst, List, [], ◌∷◌, ◌++◌, length,
  length-append, append_assoc, get_or, arith,
}

-- `hton16()` and `hton32()` of a number into octets, and of octets in memory.
abbrev pub octets16 : ℕ → List ℕ
octets16 n = n / 2 ^ 8 % 2 ^ 8 ∷ n % 2 ^ 8 ∷ []

abbrev pub octets32 : ℕ → List ℕ
octets32 n = n / 2 ^ 24 % 2 ^ 8 ∷ n / 2 ^ 16 % 2 ^ 8 ∷ n / 2 ^ 8 % 2 ^ 8 ∷ n % 2 ^ 8 ∷ []

abbrev pub read16 : (ℕ → ℕ) → ℕ → ℕ
read16 mem i = mem i * 2 ^ 8 + mem (i + 1)

abbrev pub read32 : (ℕ → ℕ) → ℕ → ℕ
read32 mem i = mem i * 2 ^ 24 + mem (i + 1) * 2 ^ 16 + mem (i + 2) * 2 ^ 8 + mem (i + 3)

-- `memcpy()` of `n` octets from `i` on.
abbrev pub slice : (ℕ → ℕ) → ℕ → ℕ → List ℕ
slice mem i zero = []
slice mem i (suc n) = mem i ∷ slice mem (i + 1) n

-- Octets that stand in memory from an offset on.
abbrev pub Holds : (ℕ → ℕ) → ℕ → List ℕ → Type 0
Holds mem at [] = Unit {0}
Holds mem at (b ∷ octets) = (mem at ≡ b) × Holds mem (at + 1) octets

pub slice-Holds :
    (mem : ℕ → ℕ) (at : ℕ) (octets : List ℕ)
    → Holds mem at octets
    → slice mem at (length octets) ≡ octets
slice-Holds mem at [] h = refl
slice-Holds mem at (b ∷ octets) h = cc (h.0, slice-Holds mem (at + 1) octets h.1)

pub Holds-append :
    (mem : ℕ → ℕ) (at : ℕ) (xs ys : List ℕ)
    → Holds mem at (xs ++ ys)
    → Holds mem at xs × Holds mem (at + length xs) ys
Holds-append mem at [] ys h = (tt, subst (λ n. Holds mem n ys) (omega arith) h)
Holds-append mem at (b ∷ xs) ys h =
    let (front, back) = Holds-append mem (at + 1) xs ys h.1 in
    ((h.0, front), subst (λ n. Holds mem n ys) (omega arith) back)

-- Memory with a packet at its start, and zeros behind it.
abbrev pub memory : List ℕ → ℕ → ℕ
memory octets i = get_or octets i 0

get_or-append : (xs : List ℕ) (y : ℕ) (ys : List ℕ) → get_or (xs ++ y ∷ ys) (length xs) 0 ≡ y
get_or-append [] y ys = refl
get_or-append (x ∷ xs) y ys = get_or-append xs y ys

memory-behind : (xs ys : List ℕ) → Holds (memory (xs ++ ys)) (length xs) ys
memory-behind xs [] = tt
memory-behind xs (y ∷ ys) =
    let rest = memory-behind (xs ++ y ∷ []) ys in
    let same : (xs ++ y ∷ []) ++ ys ≡ xs ++ y ∷ ys = append_assoc xs (y ∷ []) ys in
    let size : length (xs ++ y ∷ []) ≡ length xs + 1 = length-append xs (y ∷ []) in
    (
      get_or-append xs y ys,
      subst (λ n. Holds (memory (xs ++ y ∷ ys)) n ys) size
          (subst (λ octets. Holds (memory octets) (length (xs ++ y ∷ [])) ys) same rest),
    )

pub memory-Holds : (octets : List ℕ) → Holds (memory octets) 0 octets
memory-Holds octets = memory-behind [] octets
