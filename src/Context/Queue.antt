-- ===== src/Context/Queue.antt =====
-- Priority queues of contexts: order, membership and turn.
use liquorice.Base.{
  ℕ, ◌+◌, ◌≤◌, ◌<◌, ◌≡◌, refl, ap, sym, subst, Bool, false, ◌||◌, List, [], ◌∷◌, ◌++◌, arith, ltb,
  leb, ◌==◌, length, Bool-cases, inl, inr, All,
}
use liquorice.Context.{insert, insert_first}

-- No context has a lower priority value than one in front of it, and none is below `lo`.
abbrev pub IsSorted : (ℕ → ℕ) → ℕ → List ℕ → Type 0
IsSorted pri lo [] = Unit {0}
IsSorted pri lo (q ∷ queue) = (lo ≤ pri q) × IsSorted pri (pri q) queue

abbrev pub has : ℕ → List ℕ → Bool
has c [] = false
has c (q ∷ queue) = (q == c) || has c queue

abbrev pub IsNodup : List ℕ → Type 0
IsNodup [] = Unit {0}
IsNodup (q ∷ queue) = (has q queue ≡ false) × IsNodup queue

-- Where `insert` puts a context.
abbrev pub IsInsertion : (ℕ → Type 0) → (ℕ → Type 0) → ℕ → List ℕ → List ℕ → Type 0
IsInsertion Front Back c queue result =
    (front : List ℕ) × (back : List ℕ) × (queue ≡ front ++ back)
    × (result ≡ front ++ c ∷ back)
    × All Front front
    × All Back back

module _ (pri : ℕ → ℕ) where
  pub IsSorted-mono :
      (lo lo' : ℕ) (queue : List ℕ) → IsSorted pri lo queue → lo' ≤ lo → IsSorted pri lo' queue
  IsSorted-mono lo lo' [] s h = tt
  IsSorted-mono lo lo' (q ∷ queue) s h = (omega arith, s.1)

  pub sorted-All :
      (lo p : ℕ) (queue : List ℕ) → IsSorted pri lo queue → p < lo → All (λ q. p < pri q) queue
  sorted-All lo p [] s h = tt
  sorted-All lo p (q ∷ queue) s h = (omega arith, sorted-All (pri q) p queue s.1 (omega arith))

  pub sorted-All_le :
      (lo p : ℕ) (queue : List ℕ) → IsSorted pri lo queue → p ≤ lo → All (λ q. p ≤ pri q) queue
  sorted-All_le lo p [] s h = tt
  sorted-All_le lo p (q ∷ queue) s h =
      (omega arith, sorted-All_le (pri q) p queue s.1 (omega arith))

  -- A context goes behind the first one when it is not more urgent.
  pub insert-behind_first :
      (p c q : ℕ) (queue : List ℕ)
      → pri q ≤ p
      → insert pri p c (q ∷ queue) ≡ q ∷ insert pri p c queue
  unfolding insert
  insert-behind_first p c q queue h = ground arith

  pub insert-IsSorted :
      (c lo : ℕ) (queue : List ℕ)
      → IsSorted pri lo queue
      → lo ≤ pri c
      → IsSorted pri lo (insert pri (pri c) c queue)
  unfolding insert
  insert-IsSorted c lo [] s h = (h, tt)
  insert-IsSorted c lo (q ∷ queue) s h = elim (Bool-cases (leb (pri q) (pri c))) [
    | inl e ↦ rw e (s.0, insert-IsSorted c (pri q) queue s.1 (ground arith))
    | inr e ↦ rw e (h, (ground arith, s.1))
  ]

  pub has-insert :
      (x p c : ℕ) (queue : List ℕ) → has x (insert pri p c queue) ≡ ((c == x) || has x queue)
  unfolding insert
  has-insert x p c [] = refl
  has-insert x p c (q ∷ queue) = ground (arith, has-insert x p c queue)

  pub length-insert : (p c : ℕ) (queue : List ℕ) → length (insert pri p c queue) ≡ length queue + 1
  unfolding insert
  length-insert p c [] = omega arith
  length-insert p c (q ∷ queue) = ground (arith, length-insert p c queue)

  pub insert-IsNodup :
      (p c : ℕ) (queue : List ℕ)
      → IsNodup queue
      → has c queue ≡ false
      → IsNodup (insert pri p c queue)
  unfolding insert
  insert-IsNodup p c [] n h = (refl, tt)
  insert-IsNodup p c (q ∷ queue) n h =
      ground (arith, has-insert q p c queue, insert-IsNodup p c queue)

  -- The order does not look at the priority of a context that is not queued.
  pub IsSorted-change :
      (pri' : ℕ → ℕ) (c lo : ℕ) (queue : List ℕ)
      → ((x : ℕ) → (x == c) ≡ false → pri' x ≡ pri x)
      → has c queue ≡ false
      → IsSorted pri lo queue
      → IsSorted pri' lo queue
  IsSorted-change pri' c lo [] same absent s = tt
  IsSorted-change pri' c lo (q ∷ queue) same absent s =
      let e : pri' q ≡ pri q = same q (ground arith) in
      let tail = IsSorted-change pri' c (pri q) queue same (ground arith) s.1 in
      (subst (λ p. lo ≤ p) (sym e) s.0, subst (λ p. IsSorted pri' p queue) (sym e) tail)

  pub insert_first-IsSorted :
      (c lo : ℕ) (queue : List ℕ)
      → IsSorted pri lo queue
      → lo ≤ pri c
      → IsSorted pri lo (insert_first pri (pri c) c queue)
  unfolding insert_first
  insert_first-IsSorted c lo [] s h = (h, tt)
  insert_first-IsSorted c lo (q ∷ queue) s h = elim (Bool-cases (ltb (pri q) (pri c))) [
    | inl e ↦ rw e (s.0, insert_first-IsSorted c (pri q) queue s.1 (ground arith))
    | inr e ↦ rw e (h, (ground arith, s.1))
  ]

  pub has-insert_first :
      (x p c : ℕ) (queue : List ℕ) → has x (insert_first pri p c queue) ≡ ((c == x) || has x queue)
  unfolding insert_first
  has-insert_first x p c [] = refl
  has-insert_first x p c (q ∷ queue) = ground (arith, has-insert_first x p c queue)

  pub length-insert_first :
      (p c : ℕ) (queue : List ℕ) → length (insert_first pri p c queue) ≡ length queue + 1
  unfolding insert_first
  length-insert_first p c [] = omega arith
  length-insert_first p c (q ∷ queue) = ground (arith, length-insert_first p c queue)

  pub insert_first-IsNodup :
      (p c : ℕ) (queue : List ℕ)
      → IsNodup queue
      → has c queue ≡ false
      → IsNodup (insert_first pri p c queue)
  unfolding insert_first
  insert_first-IsNodup p c [] n h = (refl, tt)
  insert_first-IsNodup p c (q ∷ queue) n h =
      ground (arith, has-insert_first q p c queue, insert_first-IsNodup p c queue)

  -- Neither walk gives an empty queue.
  pub insert-cons :
      (p c : ℕ) (queue : List ℕ)
      → (next : ℕ) × (rest : List ℕ) × (insert pri p c queue ≡ next ∷ rest)
  unfolding insert
  insert-cons p c [] = (c, [], refl)
  insert-cons p c (q ∷ queue) = elim (Bool-cases (leb (pri q) p)) [
    | inl e ↦ rw e (q, insert pri p c queue, refl)
    | inr e ↦ rw e (c, q ∷ queue, refl)
  ]

  pub insert_first-cons :
      (p c : ℕ) (queue : List ℕ)
      → (next : ℕ) × (rest : List ℕ) × (insert_first pri p c queue ≡ next ∷ rest)
  unfolding insert_first
  insert_first-cons p c [] = (c, [], refl)
  insert_first-cons p c (q ∷ queue) = elim (Bool-cases (ltb (pri q) p)) [
    | inl e ↦ rw e (q, insert_first pri p c queue, refl)
    | inr e ↦ rw e (c, q ∷ queue, refl)
  ]

  pub insert-IsInsertion :
      (p c lo : ℕ) (queue : List ℕ)
      → IsSorted pri lo queue
      → IsInsertion (λ q. pri q ≤ p) (λ q. p < pri q) c queue (insert pri p c queue)
  unfolding insert
  insert-IsInsertion p c lo [] s = ([], [], refl, refl, tt, tt)
  insert-IsInsertion p c lo (q ∷ queue) s = elim (Bool-cases (leb (pri q) p)) [
    | inl e ↦
        let (front, back, a, b, f, g) = insert-IsInsertion p c (pri q) queue s.1 in
        rw e (q ∷ front, back, ap (λ l. q ∷ l) a, ap (λ l. q ∷ l) b, (ground arith, f), g)
    | inr e ↦ rw e (
      [],
      q ∷ queue,
      refl,
      refl,
      tt,
      (ground arith, sorted-All (pri q) p queue s.1 (ground arith)),
    )
  ]

  pub insert_first-IsInsertion :
      (p c lo : ℕ) (queue : List ℕ)
      → IsSorted pri lo queue
      → IsInsertion (λ q. pri q < p) (λ q. p ≤ pri q) c queue (insert_first pri p c queue)
  unfolding insert_first
  insert_first-IsInsertion p c lo [] s = ([], [], refl, refl, tt, tt)
  insert_first-IsInsertion p c lo (q ∷ queue) s = elim (Bool-cases (ltb (pri q) p)) [
    | inl e ↦
        let (front, back, a, b, f, g) = insert_first-IsInsertion p c (pri q) queue s.1 in
        rw e (q ∷ front, back, ap (λ l. q ∷ l) a, ap (λ l. q ∷ l) b, (ground arith, f), g)
    | inr e ↦ rw e (
      [],
      q ∷ queue,
      refl,
      refl,
      tt,
      (ground arith, sorted-All_le (pri q) p queue s.1 (ground arith)),
    )
  ]
