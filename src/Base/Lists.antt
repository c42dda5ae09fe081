-- ===== src/Base/Lists.antt =====
-- Lists measured and indexed by native numbers, under the library's names.
use Prim.Native.Nat.{ℕ, zero, suc, ◌+◌, ◌≤◌, ◌<◌, min}
use mathlib.Core.Path.{◌≡◌, refl, ap, ◌∙◌}
use mathlib.Core.List.{List, [], ◌∷◌, ◌++◌, append_assoc, append-nil}
use native.Mathlib.Omega.{arith}

module _ {ℓ} {A : Type ℓ} where
  abbrev pub length : List A → ℕ
  length [] = 0
  length (x ∷ xs) = suc (length xs)

  -- A write out of bounds changes nothing.
  abbrev pub set : List A → ℕ → A → List A
  set [] i v = []
  set (x ∷ xs) zero v = v ∷ xs
  set (x ∷ xs) (suc i) v = x ∷ set xs i v

  abbrev pub get_or : List A → ℕ → A → A
  get_or [] i d = d
  get_or (x ∷ xs) zero d = x
  get_or (x ∷ xs) (suc i) d = get_or xs i d

  abbrev pub take : ℕ → List A → List A
  take zero xs = []
  take (suc n) [] = []
  take (suc n) (x ∷ xs) = x ∷ take n xs

  abbrev pub drop : ℕ → List A → List A
  drop zero xs = xs
  drop (suc n) [] = []
  drop (suc n) (x ∷ xs) = drop n xs

  abbrev pub replicate : ℕ → A → List A
  replicate zero a = []
  replicate (suc n) a = a ∷ replicate n a

  -- Every element satisfies the predicate.
  abbrev pub All {κ} : (A → Type κ) → List A → Type κ
  All P [] = Unit
  All P (x ∷ xs) = P x × All P xs

module _ {ℓ} {A : Type ℓ} where
  pub length-append : (xs ys : List A) → length (xs ++ ys) ≡ length xs + length ys
  length-append [] ys = omega arith
  length-append (x ∷ xs) ys = omega (arith, length-append xs ys)

  pub length-set : (xs : List A) (i : ℕ) (v : A) → length (set xs i v) ≡ length xs
  length-set [] i v = refl
  length-set (x ∷ xs) zero v = refl
  length-set (x ∷ xs) (suc i) v = ap suc (length-set xs i v)

  pub length-replicate : (n : ℕ) (a : A) → length (replicate n a) ≡ n
  length-replicate zero a = refl
  length-replicate (suc n) a = ap suc (length-replicate n a)

  pub length-take : (n : ℕ) (xs : List A) → length (take n xs) ≡ min n (length xs)
  length-take zero xs = omega arith
  length-take (suc n) [] = omega arith
  length-take (suc n) (x ∷ xs) = omega (arith, length-take n xs)

  -- A write just behind a prefix extends the prefix by one.
  pub take-set-suc :
      (xs : List A) (i : ℕ) (v : A)
      → i < length xs
      → take (suc i) (set xs i v) ≡ take i xs ++ v ∷ []
  take-set-suc [] i v h = elim h [ ]
  take-set-suc (x ∷ xs) zero v h = refl
  take-set-suc (x ∷ xs) (suc i) v h = ap (λ ys. x ∷ ys) (take-set-suc xs i v (omega arith))

  -- The first part of a prefix.
  pub take-prefix :
      (q : List A) (n : ℕ) (xs ys : List A) → take n q ≡ xs ++ ys → take (length xs) q ≡ xs
  take-prefix q n [] ys e = refl
  take-prefix q zero (x ∷ xs) ys e = cc
  take-prefix [] (suc n) (x ∷ xs) ys e = cc
  take-prefix (z ∷ q) (suc n) (x ∷ xs) ys e = cc (take-prefix q n xs ys (cc))

  pub take-length : (xs : List A) → take (length xs) xs ≡ xs
  take-length [] = refl
  take-length (x ∷ xs) = ap (λ ys. x ∷ ys) (take-length xs)

  -- An entry of a prefix is that entry of the list.
  pub get_or-take : (xs : List A) (n i : ℕ) (d : A) → i < n → get_or (take n xs) i d ≡ get_or xs i d
  get_or-take xs zero i d h = elim h [ ]
  get_or-take [] (suc n) i d h = refl
  get_or-take (x ∷ xs) (suc n) zero d h = refl
  get_or-take (x ∷ xs) (suc n) (suc i) d h = get_or-take xs n i d (omega arith)

  pub All-append {κ} : (P : A → Type κ) (xs ys : List A) → All P xs → All P ys → All P (xs ++ ys)
  All-append P [] ys p q = q
  All-append P (x ∷ xs) ys p q = (p.0, All-append P xs ys p.1 q)

  -- The array after `xs` have been stored from index `o` on.
  abbrev pub fill : List A → ℕ → List A → List A
  fill p o [] = p
  fill p o (x ∷ xs) = fill (set p o x) (suc o) xs

  pub length-fill : (p : List A) (o : ℕ) (xs : List A) → length (fill p o xs) ≡ length p
  length-fill p o [] = refl
  length-fill p o (x ∷ xs) = length-fill (set p o x) (suc o) xs ∙ length-set p o x

  pub take-fill :
      (p : List A) (o : ℕ) (xs : List A)
      → o + length xs ≤ length p
      → take (o + length xs) (fill p o xs) ≡ take o p ++ xs
  take-fill p o [] h = rw append-nil (ap (λ n. take n p) (omega arith))
  take-fill p o (x ∷ xs) h =
      ap (λ n. take n (fill (set p o x) (suc o) xs)) (omega arith)
      ∙ take-fill (set p o x) (suc o) xs (omega (arith, length-set p o x))
      ∙ rw (take-set-suc p o x (omega arith), append_assoc)

  pub take-fill_zero : (p xs : List A) → length xs ≤ length p → take (length xs) (fill p 0 xs) ≡ xs
  take-fill_zero p xs h =
      ap (λ n. take n (fill p 0 xs)) (omega arith) ∙ take-fill p 0 xs (omega arith)
