-- ===== src/Ip/Clients.antt =====
-- The clients of IP and of ICMP, src/lib/ip/ip.c: lists that are searched by a key, and by the server that
-- a client was given.
use liquorice.Base.{ℕ, Bool, ◌||◌, Option, none, some, List, [], ◌∷◌, ◌==◌, if◌then◌else◌}

-- `struct ip_client`, its `ic_recv_icmp` reduced to whether there is one.
pub record IpClient : Type 0 where
  pub protocol : ℕ
  pub has_recv_icmp : Bool
  pub server : ℕ

-- `struct icmp_client`
pub record IcmpClient : Type 0 where
  pub type_ : ℕ
  pub server : ℕ

unfoldable pub find_client : ℕ → List IpClient → Option IpClient
find_client protocol [] = none
find_client protocol (ic ∷ clients) =
    if ic.protocol == protocol then some ic else find_client protocol clients

unfoldable pub find_icmp : ℕ → List IcmpClient → Option IcmpClient
find_icmp type_ [] = none
find_icmp type_ (ic ∷ clients) = if ic.type_ == type_ then some ic else find_icmp type_ clients

-- `ip_client_attach()`, with the server that is allocated, if the protocol has no client yet.
pub attach_found : IpClient → ℕ → List IpClient → Option IpClient → List IpClient × Option ℕ
attach_found ic server clients (some p) = (clients, none)
attach_found ic server clients none = (record ic { server = server } ∷ clients, some server)

pub ip_client_attach : IpClient → ℕ → List IpClient → List IpClient × Option ℕ
ip_client_attach ic server clients =
    attach_found ic server clients (find_client ic.protocol clients)

-- `ip_client_detach()`
pub ip_client_detach : ℕ → List IpClient → List IpClient
ip_client_detach server [] = []
ip_client_detach server (ic ∷ clients) =
    if ic.server == server then clients else ic ∷ ip_client_detach server clients

-- `icmp_client_attach()`
pub attach_icmp : IcmpClient → ℕ → List IcmpClient → Option IcmpClient → List IcmpClient × Option ℕ
attach_icmp ic server clients (some p) = (clients, none)
attach_icmp ic server clients none = (record ic { server = server } ∷ clients, some server)

pub icmp_client_attach : IcmpClient → ℕ → List IcmpClient → List IcmpClient × Option ℕ
icmp_client_attach ic server clients =
    if (ic.type_ == 0x00) || ((ic.type_ == 0x0d) || (ic.type_ == 0x11))
    then attach_icmp ic server clients (find_icmp ic.type_ clients)
    else (clients, none)

-- `icmp_client_detach()`
pub icmp_client_detach : ℕ → List IcmpClient → List IcmpClient
icmp_client_detach server [] = []
icmp_client_detach server (ic ∷ clients) =
    if ic.server == server then clients else ic ∷ icmp_client_detach server clients
