-- ===== src/Route.antt =====
-- The routes of src/lib/ethernet_ip/ethernet_ip.c: `ip_route_add()` and `ip_route_find()`.
pub mod Order
pub mod Specific
mod Tests
use liquorice.Base.{
  ℕ, ◌≡◌, Bool, true, false, not, ◌&&◌, ◌||◌, Option, none, some, List, [], ◌∷◌, ltb, leb, ◌==◌,
  if◌then◌else◌, bit_and,
}

-- `struct ip_route` without its link. The union of a network and a host has the address of either at its
-- start; `netmask` of a host is whatever stands behind.
pub record IpRoute : Type 0 where
  pub is_network : Bool
  pub addr : ℕ
  pub netmask : ℕ
  pub gateway : ℕ

-- The second loop of `ip_route_add()`, with the insertion behind it.
unfoldable pub insert_network : IpRoute → List IpRoute → List IpRoute
insert_network radd [] = radd ∷ []
insert_network radd (r ∷ routes) =
    let rest = insert_network radd routes in
    if ltb radd.netmask r.netmask then r ∷ rest else radd ∷ r ∷ routes

-- The first loop, past the hosts.
unfoldable pub skip_hosts : IpRoute → List IpRoute → List IpRoute
unfolding insert_network
skip_hosts radd [] = radd ∷ []
skip_hosts radd (r ∷ routes) =
    let rest = skip_hosts radd routes in
    if not r.is_network then r ∷ rest else insert_network radd (r ∷ routes)

-- `ip_route_add()`
unfoldable pub ip_route_add : IpRoute → List IpRoute → List IpRoute
ip_route_add radd routes = if radd.is_network then skip_hosts radd routes else radd ∷ routes

-- The test of `ip_route_find()`.
abbrev pub is_match : ℕ → IpRoute → Bool
is_match ip r = if r.is_network then bit_and ip r.netmask == r.addr else ip == r.addr

-- `ip_route_find()`
unfoldable pub ip_route_find : List IpRoute → ℕ → Option IpRoute
ip_route_find [] ip = none
ip_route_find (ir ∷ routes) ip =
    let rest = ip_route_find routes ip in if is_match ip ir then some ir else rest
