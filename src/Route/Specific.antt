-- ===== src/Route/Specific.antt =====
-- What the scan of the route list finds.
use liquorice.Base.{
  ℕ, ◌≡◌, refl, sym, subst, Bool, true, false, ◌||◌, not, Option, none, some, List, [], ◌∷◌, All,
  arith, Bool-cases, inl, inr,
}
use mathlib.Core.List.{Perm, Mem, mem-cons_self, mem-cons_of_mem, not-mem-nil, forall_mem-cons}
use mathlib.Core.List.Perm
use liquorice.Route.{IpRoute, ip_route_add, is_match, ip_route_find}
use liquorice.Route.Order.{
  precedes, PrecedesAll, IsOrdered, ip_route_add-perm, ip_route_add-IsOrdered,
}

-- The table after routes have been added one by one, the last of the list first.
abbrev pub add_all : List IpRoute → List IpRoute
add_all [] = []
add_all (r ∷ routes) = ip_route_add r (add_all routes)

-- A route is at least as specific as every route of a list that matches.
abbrev pub IsMostSpecific : ℕ → IpRoute → List IpRoute → Type 0
IsMostSpecific ip r routes = All (λ r'. (precedes r r' || not (is_match ip r')) ≡ true) routes

-- The answer for an address by the set of routes alone: none when none matches, else one of the routes that
-- match that is at least as specific as the others.
abbrev pub IsAnswer : ℕ → List IpRoute → Option IpRoute → Type 0
IsAnswer ip routes none = All (λ r. not (is_match ip r) ≡ true) routes
IsAnswer ip routes (some r) = Mem r routes × ((is_match ip r ≡ true) × IsMostSpecific ip r routes)

specific_of_first :
    (ip : ℕ) (r : IpRoute) (routes : List IpRoute)
    → PrecedesAll r routes
    → IsMostSpecific ip r routes
specific_of_first ip r [] p = tt
specific_of_first ip r (r' ∷ routes) (here, p) = (ground arith, specific_of_first ip r routes p)

precedes_refl : (r : IpRoute) → precedes r r ≡ true
precedes_refl r = ground arith

IsAnswer-cons :
    (ip : ℕ) (r : IpRoute) (routes : List IpRoute) (found : Option IpRoute)
    → is_match ip r ≡ false
    → IsAnswer ip routes found
    → IsAnswer ip (r ∷ routes) found
IsAnswer-cons ip r routes none h a = (ground arith, a)
IsAnswer-cons ip r routes (some r') h (m, (e, s)) = (mem-cons_of_mem r m, (e, (ground arith, s)))

-- In an ordered list the first match is the answer.
pub ip_route_find-IsAnswer :
    (ip : ℕ) (routes : List IpRoute)
    → IsOrdered routes
    → IsAnswer ip routes (ip_route_find routes ip)
unfolding ip_route_find
ip_route_find-IsAnswer ip [] o = tt
ip_route_find-IsAnswer ip (r ∷ routes) (before, o) =
    let ih = ip_route_find-IsAnswer ip routes o in
    elim (Bool-cases (is_match ip r)) [
      | inl e ↦
          let hit : ip_route_find (r ∷ routes) ip ≡ some r = rw e refl in
          subst (IsAnswer ip (r ∷ routes)) (sym hit) (
            mem-cons_self,
            (e, (ground (arith, precedes_refl r), specific_of_first ip r routes before)),
          )
      | inr e ↦
          let miss : ip_route_find (r ∷ routes) ip ≡ ip_route_find routes ip = rw e refl in
          subst (IsAnswer ip (r ∷ routes)) (sym miss)
            (IsAnswer-cons ip r routes (ip_route_find routes ip) e ih)
    ]

module _ {ℓ} {A : Type ℓ} (test : A → Bool) where
  All-of_mem : (l : List A) → ((x : A) → Mem x l → test x ≡ true) → All (λ x. test x ≡ true) l
  All-of_mem [] h = tt
  All-of_mem (x ∷ l) h = (h x mem-cons_self, All-of_mem l (λ y m. h y (mem-cons_of_mem x m)))

  All-mem : (l : List A) → All (λ x. test x ≡ true) l → (x : A) → Mem x l → test x ≡ true
  All-mem [] h = λ x m. absurd (not-mem-nil m)
  All-mem (y ∷ l) (here, h) = (forall_mem-cons (λ x. hlevel)).1 (here, All-mem l h)

  -- A test that holds of a list holds of its rearrangements.
  All-perm : (l r : List A) → Perm l r → All (λ x. test x ≡ true) l → All (λ x. test x ≡ true) r
  All-perm l r p h = All-of_mem r (λ x m. All-mem l h x ((Perm.mem_iff p).1 m))

IsAnswer-perm :
    (ip : ℕ) (l r : List IpRoute) (found : Option IpRoute)
    → Perm l r
    → IsAnswer ip l found
    → IsAnswer ip r found
IsAnswer-perm ip l r none p a = All-perm (λ r. not (is_match ip r)) l r p a
IsAnswer-perm ip l r (some b) p (m, (e, s)) =
    ((Perm.mem_iff p).0 m, (e, All-perm (λ r'. precedes b r' || not (is_match ip r')) l r p s))

add_all-IsOrdered : (routes : List IpRoute) → IsOrdered (add_all routes)
add_all-IsOrdered [] = tt
add_all-IsOrdered (r ∷ routes) =
    ip_route_add-IsOrdered r (add_all routes) (add_all-IsOrdered routes)

add_all-perm : (routes : List IpRoute) → Perm (add_all routes) routes
add_all-perm [] = Perm.rfl
add_all-perm (r ∷ routes) =
    Perm.trans (ip_route_add-perm r (add_all routes)) (Perm.cons r (add_all-perm routes))

-- Whatever routes have been added, in whatever order, the route that is found for an address is one of them that
-- matches and is at least as specific as every other that matches: a host if there is one, else a network of
-- the greatest netmask. No route is found just when none matches.
pub ip_route_find-add_all :
    (ip : ℕ) (routes : List IpRoute) → IsAnswer ip routes (ip_route_find (add_all routes) ip)
ip_route_find-add_all ip routes =
    IsAnswer-perm ip (add_all routes) routes (ip_route_find (add_all routes) ip)
      (add_all-perm routes) (ip_route_find-IsAnswer ip (add_all routes) (add_all-IsOrdered routes))
