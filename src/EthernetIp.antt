-- ===== src/EthernetIp.antt =====
-- IP over Ethernet, src/lib/ethernet_ip/ethernet_ip.c, with src/lib/ip_datalink/ip_datalink.c: ARP packets, and
-- IP packets by route. The cache is in Arp.antt, the routes are in Route.antt, Ethernet is in Ethernet.antt. A
-- packet that is received stands in memory, its Ethernet header at 0. Addresses are their numbers, but in the
-- reply to an ARP request, where the code's result depends on the byte order of the host: here it is i386.
pub mod Learning
pub mod Reply
pub mod Carrying
mod Tests
use liquorice.Base.{
  ℕ, ◌+◌, Bool, true, false, not, Option, none, some, List, [], ◌∷◌, ◌++◌, ◌==◌, ◌>>=◌,
  if◌then◌else◌,
}
use liquorice.Octets.{octets16, octets32, read16, read32, slice, memory}
use liquorice.Ahdlc.{Netbuf}
use liquorice.Arp.{ArpCache, ip_arp_cache_add, ip_arp_cache_find, cleared}
use liquorice.Route.{IpRoute, ip_route_add, ip_route_find}
use liquorice.Ethernet
use liquorice.Ethernet.{EthernetServer}

-- `struct ip_datalink_client`
pub record IpDatalinkClient : Type 0 where
  pub addr : ℕ
  pub server : ℕ

-- `struct ethernet_ip_instance`, whose first part is a `struct ip_datalink_instance`.
pub record Instance : Type 0 where
  pub client : Option IpDatalinkClient
  pub arp_cache : ArpCache
  pub route_info : List IpRoute
  pub ip_server : Option EthernetServer
  pub arp_server : Option EthernetServer

-- The instance and the frames that are sent, or none when a pointer is followed that is NULL.
abbrev pub Outcome : Type 0
Outcome = Option (Instance × List Netbuf)

abbrev pub broadcast_mac : List ℕ
broadcast_mac = 0xff ∷ 0xff ∷ 0xff ∷ 0xff ∷ 0xff ∷ 0xff ∷ []

-- A new `struct netbuf` with an ARP packet.
abbrev pub arp_netbuf : List ℕ → Netbuf
arp_netbuf octets = record { datalink = []; network = octets; transport = []; application = [] }

-- The packet of `ip_arp_request()`, and the one of `ip_arp_recv_request()` for a packet at `at`. The latter's
-- target address is loaded from the packet as it stands and swapped into network order, so it is reversed.
abbrev pub request_octets : List ℕ → ℕ → ℕ → List ℕ
request_octets mac addr ip =
    (octets16 1 ++ octets16 0x0800 ++ 6 ∷ 4 ∷ octets16 1)
    ++ (mac ++ octets32 addr ++ broadcast_mac ++ octets32 ip)

abbrev pub reply_octets : List ℕ → ℕ → (ℕ → ℕ) → ℕ → List ℕ
reply_octets mac addr mem at =
    (slice mem at 6 ++ octets16 2)
    ++ (mac
        ++ octets32 addr
        ++ slice mem (at + 8) 6
        ++ (mem (at + 17) ∷ mem (at + 16) ∷ mem (at + 15) ∷ mem (at + 14) ∷ []))

-- `ip_arp_request()`
unfoldable pub ip_arp_request : Ethernet.Instance → Instance → ℕ → Outcome
ip_arp_request ei eii ip = do
  idc ← eii.client
  es ← eii.arp_server
  let octets = request_octets (Ethernet.get_mac ei) idc.addr ip
  some (eii, Ethernet.send_netbuf ei es broadcast_mac (arp_netbuf octets) ∷ [])

-- `ip_arp_recv_request()` of a packet at `at`.
unfoldable pub ip_arp_recv_request : Ethernet.Instance → Instance → (ℕ → ℕ) → ℕ → Outcome
ip_arp_recv_request ei eii mem at = do
  es ← eii.arp_server
  idc ← eii.client
  let octets = reply_octets (Ethernet.get_mac ei) idc.addr mem at
  some (eii, Ethernet.send_netbuf ei es (slice mem (at + 8) 6) (arp_netbuf octets) ∷ [])

-- The `switch` of `ip_arp_recv_netbuf()`.
abbrev pub arp_dispatch : Ethernet.Instance → Instance → (ℕ → ℕ) → ℕ → Outcome
arp_dispatch ei eii mem at =
    if read16 mem (at + 6) == 1 then ip_arp_recv_request ei eii mem at else some (eii, [])

-- The part of `ip_arp_recv_netbuf()` behind the checks of the lengths.
abbrev pub arp_target : Ethernet.Instance → Instance → (ℕ → ℕ) → ℕ → IpDatalinkClient → Outcome
arp_target ei eii mem at idc =
    let cache = ip_arp_cache_add eii.arp_cache (slice mem 6 6) (read32 mem (at + 14)) in
    if not (read32 mem (at + 24) == idc.addr)
    then some (eii, [])
    else arp_dispatch ei (record eii { arp_cache = cache }) mem at

-- `ip_arp_recv_netbuf()` of a packet at `at`.
unfoldable pub ip_arp_recv_netbuf : Ethernet.Instance → Instance → (ℕ → ℕ) → ℕ → Outcome
ip_arp_recv_netbuf ei eii mem at =
    if not (mem (at + 4) == 6)
    then some (eii, [])
    else if not (mem (at + 5) == 4)
    then some (eii, [])
    else eii.client >>= arp_target ei eii mem at

-- `ethernet_ip_recv_netbuf()`: the client that is called.
abbrev pub ethernet_ip_recv_netbuf : Instance → Option IpDatalinkClient
ethernet_ip_recv_netbuf eii = eii.client

-- The end of `ethernet_ip_send_netbuf()`, with what the cache says of the address.
abbrev pub send_cached :
    Ethernet.Instance → Instance → Netbuf → ℕ → Option (List ℕ) × ArpCache → Outcome
send_cached ei eii nb addr (none, cache) = ip_arp_request ei (record eii { arp_cache = cache }) addr
send_cached ei eii nb addr (some mac, cache) = do
  es ← eii.ip_server
  some (record eii { arp_cache = cache }, Ethernet.send_netbuf ei es mac nb ∷ [])

-- The address that a packet goes to on a route.
abbrev pub next_hop : ℕ → IpRoute → ℕ
next_hop dest rt = if not (rt.gateway == 0) then rt.gateway else dest

abbrev pub send_routed : Ethernet.Instance → Instance → Netbuf → ℕ → Option IpRoute → Outcome
send_routed ei eii nb dest none = some (eii, [])
send_routed ei eii nb dest (some rt) =
    send_cached ei eii nb (next_hop dest rt) (ip_arp_cache_find eii.arp_cache (next_hop dest rt))

-- `ethernet_ip_send_netbuf()`
unfoldable pub ethernet_ip_send_netbuf : Ethernet.Instance → Instance → Netbuf → Outcome
ethernet_ip_send_netbuf ei eii nb =
    let dest = read32 (memory nb.network) 16 in
    send_routed ei eii nb dest (ip_route_find eii.route_info dest)

-- `ethernet_ip_client_attach()` of a client with an address, where `server` is the new server structure.
unfoldable pub ethernet_ip_client_attach : ℕ → ℕ → Instance → Instance × Option ℕ
ethernet_ip_client_attach addr server eii = elim eii.client [
  | none ↦ (record eii { client = some (record { addr = addr; server = server }) }, some server)
  | some idc ↦ (eii, none)
]

-- `ip_datalink_client_detach()`, which is none without a client.
unfoldable pub ip_datalink_client_detach : ℕ → Instance → Option Instance
ip_datalink_client_detach server eii = do
  idc ← eii.client
  some (if idc.server == server then record eii { client = none } else eii)

-- `ethernet_ip_instance_alloc()` on an Ethernet instance: `ip` and `arp` are new server structures, and
-- `mac` is what the memory of the cache held.
unfoldable pub ethernet_ip_instance_alloc :
    ℕ → ℕ → List ℕ → Ethernet.Instance → Ethernet.Instance × Instance
ethernet_ip_instance_alloc ip arp mac ei =
    let (ei1, ip_server) = Ethernet.client_attach (record { type_ = 0x0800; server = 0 }) ip ei in
    let (ei2, arp_server) =
      Ethernet.client_attach (record { type_ = 0x0806; server = 0 }) arp ei1 in
    let local : IpRoute = record {
      is_network = true;
      addr = 0xc0a80000;
      netmask = 0xffffff00;
      gateway = 0;
    } in
    let default : IpRoute = record {
      is_network = true;
      addr = 0;
      netmask = 0;
      gateway = 0xc0a80001;
    } in
    (
      ei2,
      record {
        client = none;
        arp_cache = cleared mac;
        route_info = ip_route_add default (ip_route_add local []);
        ip_server = ip_server;
        arp_server = arp_server;
      },
    )
