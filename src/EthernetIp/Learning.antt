-- ===== src/EthernetIp/Learning.antt =====
-- How the sender of an ARP packet becomes known, and what is sent to it.
use liquorice.Base.{
  ℕ, ◌<◌, ◌≡◌, refl, ap, ◌∙◌, true, Option, none, some, List, [], ◌∷◌, length, ◌==◌, ◌>>=◌, arith,
}
use liquorice.Octets.{read16, read32, slice, memory}
use liquorice.Ahdlc.{Netbuf}
use liquorice.Arp.{ArpCache, ip_arp_cache_add, ip_arp_cache_find}
use liquorice.Arp.Lookup.{mac_of, ip_arp_cache_find-mac_of, ip_arp_cache_add-mac_of}
use liquorice.Route.{IpRoute, ip_route_find}
use liquorice.Ethernet
use liquorice.Ethernet.{EthernetServer}
use liquorice.EthernetIp.{
  IpDatalinkClient, Instance, Outcome, ip_arp_recv_netbuf, send_cached, next_hop,
  ethernet_ip_send_netbuf,
}

-- An instance that has added an address to its cache.
abbrev pub learned : Instance → List ℕ → ℕ → Instance
learned eii mac ip = record eii { arp_cache = ip_arp_cache_add eii.arp_cache mac ip }

-- The frames that are sent.
abbrev pub frames : Outcome → Option (List Netbuf)
frames none = none
frames (some (eii, nbs)) = some nbs

send_cached-known :
    (ei : Ethernet.Instance) (eii : Instance) (es : EthernetServer) (nb : Netbuf) (hop : ℕ)
    (mac : List ℕ) (found : Option (List ℕ) × ArpCache)
    → eii.ip_server ≡ some es
    → found.0 ≡ some mac
    → frames (send_cached ei eii nb hop found) ≡ some (Ethernet.send_netbuf ei es mac nb ∷ [])
send_cached-known ei eii es nb hop mac (none, cache) server e = cc
send_cached-known ei eii es nb hop mac (some mac', cache) server e =
    let same : mac' ≡ mac = cc in rw server rw same refl

-- A packet whose next hop is in the cache is sent to the hardware address there.
pub ethernet_ip_send_netbuf-known :
    (ei : Ethernet.Instance) (eii : Instance) (es : EthernetServer) (nb : Netbuf) (rt : IpRoute)
    (mac : List ℕ)
    → eii.ip_server ≡ some es
    → ip_route_find eii.route_info (read32 (memory nb.network) 16) ≡ some rt
    → mac_of (next_hop (read32 (memory nb.network) 16) rt) eii.arp_cache.slots ≡ some mac
    → frames (ethernet_ip_send_netbuf ei eii nb) ≡ some (Ethernet.send_netbuf ei es mac nb ∷ [])
unfolding ethernet_ip_send_netbuf
ethernet_ip_send_netbuf-known ei eii es nb rt mac server route known =
    let hop = next_hop (read32 (memory nb.network) 16) rt in
    let found = ip_arp_cache_find eii.arp_cache hop in
    let hit : found.0 ≡ some mac = (ip_arp_cache_find-mac_of eii.arp_cache hop hop).0 ∙ known in
    rw route (send_cached-known ei eii es nb hop mac found server hit)

-- The packets that `ip_arp_recv_netbuf()` takes, with the target's address in them.
abbrev pub IsArp : (ℕ → ℕ) → ℕ → Type 0
IsArp mem addr = (mem 18 ≡ 6) × ((mem 19 ≡ 4) × (read32 mem 38 ≡ addr))

-- The sender of an ARP reply to an instance is learned.
pub ip_arp_recv_netbuf-reply :
    (ei : Ethernet.Instance) (eii : Instance) (idc : IpDatalinkClient) (mem : ℕ → ℕ)
    → eii.client ≡ some idc
    → IsArp mem idc.addr
    → read16 mem 20 ≡ 2
    → ip_arp_recv_netbuf ei eii mem 14 ≡ some (learned eii (slice mem 6 6) (read32 mem 28), [])
unfolding ip_arp_recv_netbuf
ip_arp_recv_netbuf-reply ei eii idc mem client (haddr, (paddr, target)) op =
    let same : (read32 mem 38 == idc.addr) ≡ true = ground arith in
    rw haddr rw paddr rw client rw same rw op refl

-- After an ARP reply from the next hop of a packet, for a hardware address of 6 octets and a protocol address of 4,
-- which names the instance's own address as its target, that packet goes to the reply's sender in one frame. The instance has a client with that address, a server, and at least one slot
-- in its cache.
pub ip_arp_recv_netbuf-send :
    (ei : Ethernet.Instance) (eii : Instance) (idc : IpDatalinkClient) (es : EthernetServer)
    (mem : ℕ → ℕ) (nb : Netbuf) (rt : IpRoute)
    → eii.client ≡ some idc
    → eii.ip_server ≡ some es
    → 0 < length eii.arp_cache.slots
    → IsArp mem idc.addr
    → read16 mem 20 ≡ 2
    → ip_route_find eii.route_info (read32 (memory nb.network) 16) ≡ some rt
    → next_hop (read32 (memory nb.network) 16) rt ≡ read32 mem 28
    → (ip_arp_recv_netbuf ei eii mem 14 >>= λ r. frames (ethernet_ip_send_netbuf ei r.0 nb))
      ≡ some (Ethernet.send_netbuf ei es (slice mem 6 6) nb ∷ [])
ip_arp_recv_netbuf-send ei eii idc es mem nb rt client server slots arp op route hop =
    let mac = slice mem 6 6 in
    let ip = read32 mem 28 in
    let there : mac_of (next_hop (read32 (memory nb.network) 16) rt)
          (learned eii mac ip).arp_cache.slots
        ≡ some mac =
      ap (λ q. mac_of q (learned eii mac ip).arp_cache.slots) hop
      ∙ ip_arp_cache_add-mac_of eii.arp_cache mac ip slots in
    ap (λ o. o >>= λ r. frames (ethernet_ip_send_netbuf ei r.0 nb))
      (ip_arp_recv_netbuf-reply ei eii idc mem client arp op)
    ∙ ethernet_ip_send_netbuf-known ei (learned eii mac ip) es nb rt mac server route there
