-- ===== src/Route/Order.antt =====
-- The order of the route list: hosts, then networks by descending netmask.
use liquorice.Base.{
  ◌≡◌, refl, sym, subst, Bool, true, false, not, ◌&&◌, ◌||◌, List, [], ◌∷◌, ltb, leb, All, arith,
  Bool-cases, inl, inr,
}
use mathlib.Core.List.{Perm}
use mathlib.Core.List.Perm
use liquorice.Route.{IpRoute, insert_network, skip_hosts, ip_route_add}

-- A route may stand before another: a host before any, a network before networks with no longer netmask.
abbrev pub precedes : IpRoute → IpRoute → Bool
precedes r r' = not r.is_network || (r'.is_network && leb r'.netmask r.netmask)

abbrev pub PrecedesAll : IpRoute → List IpRoute → Type 0
PrecedesAll r routes = All (λ r'. precedes r r' ≡ true) routes

abbrev pub IsOrdered : List IpRoute → Type 0
IsOrdered [] = Unit {0}
IsOrdered (r ∷ routes) = PrecedesAll r routes × IsOrdered routes

pub insert_network-perm :
    (radd : IpRoute) (routes : List IpRoute) → Perm (insert_network radd routes) (radd ∷ routes)
unfolding insert_network
insert_network-perm radd [] = Perm.rfl
insert_network-perm radd (r ∷ routes) =
    let ih = insert_network-perm radd routes in
    elim (Bool-cases (ltb radd.netmask r.netmask)) [
      | inl e ↦ rw e (Perm.trans (Perm.cons r ih) (Perm.swap radd r routes))
      | inr e ↦ simp e Perm.rfl
    ]

skip_hosts-perm :
    (radd : IpRoute) (routes : List IpRoute) → Perm (skip_hosts radd routes) (radd ∷ routes)
unfolding skip_hosts
skip_hosts-perm radd [] = Perm.rfl
skip_hosts-perm radd (r ∷ routes) =
    let ih = skip_hosts-perm radd routes in
    elim (Bool-cases r.is_network) [
      | inl e ↦ simp e (insert_network-perm radd (r ∷ routes))
      | inr e ↦ simp e (Perm.trans (Perm.cons r ih) (Perm.swap radd r routes))
    ]

-- The list with a route added has that route and the ones it had.
pub ip_route_add-perm :
    (radd : IpRoute) (routes : List IpRoute) → Perm (ip_route_add radd routes) (radd ∷ routes)
unfolding ip_route_add
ip_route_add-perm radd routes = elim (Bool-cases radd.is_network) [
  | inl e ↦ simp e (skip_hosts-perm radd routes)
  | inr e ↦ simp e Perm.rfl
]

PrecedesAll-insert :
    (r radd : IpRoute) (routes : List IpRoute)
    → precedes r radd ≡ true
    → PrecedesAll r routes
    → PrecedesAll r (insert_network radd routes)
unfolding insert_network
PrecedesAll-insert r radd [] h p = (h, tt)
PrecedesAll-insert r radd (r' ∷ routes) h (here, p) =
    let ih = PrecedesAll-insert r radd routes h p in ground arith

PrecedesAll-skip :
    (r radd : IpRoute) (routes : List IpRoute)
    → precedes r radd ≡ true
    → PrecedesAll r routes
    → PrecedesAll r (skip_hosts radd routes)
unfolding skip_hosts
PrecedesAll-skip r radd [] h p = (h, tt)
PrecedesAll-skip r radd (r' ∷ routes) h (here, p) =
    let ih = PrecedesAll-skip r radd routes h p in
    ground (arith, PrecedesAll-insert r radd (r' ∷ routes) h (here, p))

precedes_trans : (a b c : IpRoute) → precedes a b ≡ true → precedes b c ≡ true → precedes a c ≡ true
precedes_trans a b c p q = ground arith

PrecedesAll-trans :
    (a b : IpRoute) (routes : List IpRoute)
    → precedes a b ≡ true
    → PrecedesAll b routes
    → PrecedesAll a routes
PrecedesAll-trans a b [] h p = tt
PrecedesAll-trans a b (r ∷ routes) h (here, p) =
    (precedes_trans a b r h here, PrecedesAll-trans a b routes h p)

abbrev AllNetworks : List IpRoute → Type 0
AllNetworks routes = All (λ r. r.is_network ≡ true) routes

networks-behind :
    (r : IpRoute) (routes : List IpRoute)
    → r.is_network ≡ true
    → PrecedesAll r routes
    → AllNetworks routes
networks-behind r [] n p = tt
networks-behind r (r' ∷ routes) n (here, p) = (ground arith, networks-behind r routes n p)

insert_network-IsOrdered :
    (radd : IpRoute) (routes : List IpRoute)
    → radd.is_network ≡ true
    → AllNetworks routes
    → IsOrdered routes
    → IsOrdered (insert_network radd routes)
unfolding insert_network
insert_network-IsOrdered radd [] n all o = (tt, tt)
insert_network-IsOrdered radd (r ∷ routes) n (rn, all) (before, o) =
    let ih = insert_network-IsOrdered radd routes n all o in
    elim (Bool-cases (ltb radd.netmask r.netmask)) [
      | inl e ↦
          let first : precedes r radd ≡ true = ground arith in
          simp e (PrecedesAll-insert r radd routes first before, ih)
      | inr e ↦
          let first : precedes radd r ≡ true = ground arith in
          simp e ((first, PrecedesAll-trans radd r routes first before), (before, o))
    ]

skip_hosts-IsOrdered :
    (radd : IpRoute) (routes : List IpRoute)
    → radd.is_network ≡ true
    → IsOrdered routes
    → IsOrdered (skip_hosts radd routes)
unfolding skip_hosts
skip_hosts-IsOrdered radd [] n o = (tt, tt)
skip_hosts-IsOrdered radd (r ∷ routes) n (before, o) =
    let ih = skip_hosts-IsOrdered radd routes n o in
    elim (Bool-cases r.is_network) [
      | inl e ↦ simp e (
          insert_network-IsOrdered radd (r ∷ routes) n (e, networks-behind r routes e before)
            (before, o))
      | inr e ↦
          let first : precedes r radd ≡ true = ground arith in
          let past : skip_hosts radd (r ∷ routes) ≡ r ∷ skip_hosts radd routes = rw e refl in
          subst IsOrdered (sym past) (PrecedesAll-skip r radd routes first before, ih)
    ]

PrecedesAll-host :
    (radd : IpRoute) (routes : List IpRoute) → radd.is_network ≡ false → PrecedesAll radd routes
PrecedesAll-host radd [] h = tt
PrecedesAll-host radd (r ∷ routes) h = (ground arith, PrecedesAll-host radd routes h)

-- Adding a route keeps the list ordered.
pub ip_route_add-IsOrdered :
    (radd : IpRoute) (routes : List IpRoute)
    → IsOrdered routes
    → IsOrdered (ip_route_add radd routes)
unfolding ip_route_add
ip_route_add-IsOrdered radd routes o = elim (Bool-cases radd.is_network) [
  | inl e ↦ simp e (skip_hosts-IsOrdered radd routes e o)
  | inr e ↦
      let first : ip_route_add radd routes ≡ radd ∷ routes = rw e refl in
      subst IsOrdered (sym first) (PrecedesAll-host radd routes e, o)
]
