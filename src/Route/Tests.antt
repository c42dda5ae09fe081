-- ===== src/Route/Tests.antt =====
-- A host and three networks, and the theorem at them.
use liquorice.Base.{◌≡◌, refl, true, false, some, List, [], ◌∷◌}
use liquorice.Route.{IpRoute, ip_route_add, ip_route_find, skip_hosts, insert_network}
use liquorice.Route.Specific.{add_all, IsAnswer, ip_route_find-add_all}

abbrev default_route : IpRoute
default_route = record { is_network = true; addr = 0; netmask = 0; gateway = 0xc0a80001 }

abbrev local_route : IpRoute
local_route = record { is_network = true; addr = 0xc0a80000; netmask = 0xffffff00; gateway = 0 }

abbrev wide_route : IpRoute
wide_route = record {
  is_network = true;
  addr = 0xc0a80000;
  netmask = 0xffff0000;
  gateway = 0xc0a80002;
}

abbrev host_route : IpRoute
host_route = record { is_network = false; addr = 0xc0a80007; netmask = 0; gateway = 0xc0a80003 }

abbrev routes : List IpRoute
routes = wide_route ∷ host_route ∷ local_route ∷ default_route ∷ []

finds_host : ip_route_find (add_all routes) 0xc0a80007 ≡ some host_route
unfolding ip_route_find ip_route_add skip_hosts insert_network
finds_host = refl

finds_local : ip_route_find (add_all routes) 0xc0a80008 ≡ some local_route
unfolding ip_route_find ip_route_add skip_hosts insert_network
finds_local = refl

ip_route_find-add_all_example :
    IsAnswer 0xc0a80107 routes (ip_route_find (add_all routes) 0xc0a80107)
ip_route_find-add_all_example = ip_route_find-add_all 0xc0a80107 routes
