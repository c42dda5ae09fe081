-- ===== src/EthernetIp/Carrying.antt =====
-- A packet of src/lib/ip/ip.c over Ethernet, from one station to the client of another.
use liquorice.Base.{
  ℕ, ◌+◌, ◌^◌, ◌<◌, ◌≡◌, ap, subst, ◌∙◌, false, some, List, [], ◌∷◌, ◌++◌, length, ◌==◌,
  length-append, arith,
}
use liquorice.Octets.{octets16, read32, memory, Holds, Holds-append}
use liquorice.Slip
use liquorice.Ahdlc.{Netbuf}
use liquorice.Arp.Lookup.{mac_of}
use liquorice.Route.{IpRoute, ip_route_find}
use liquorice.Ethernet
use liquorice.Ethernet.{EthernetClient, EthernetServer, find_client}
use liquorice.Ethernet.Delivery.{send_netbuf-recv_netbuf}
use liquorice.EthernetIp.{Instance, next_hop, ethernet_ip_send_netbuf}
use liquorice.EthernetIp.Learning.{frames, ethernet_ip_send_netbuf-known}
use liquorice.Ip.{to_client, ip_recv_netbuf}
use liquorice.Ip.Clients.{IpClient}
use liquorice.Ip
use liquorice.Ip.Send.{ip_issue_netbuf}
use liquorice.Ip.Checks.{octets, split_at, ip_issue_netbuf-ip_recv_netbuf}

-- The `struct netbuf` of a packet of IP.
abbrev pub ip_netbuf : Slip.Netbuf → Netbuf
ip_netbuf nb = record {
  datalink = [];
  network = nb.network;
  transport = nb.transport;
  application = nb.application;
}

-- Memory from an offset on.
Holds-shift :
    (mem : ℕ → ℕ) (at k : ℕ) (xs : List ℕ) → Holds mem (k + at) xs → Holds (λ i. mem (k + i)) at xs
Holds-shift mem at k [] h = tt
Holds-shift mem at k (x ∷ xs) h =
    let h' : Holds mem (k + (at + 1)) xs = subst (λ n. Holds mem n xs) (omega arith) h.1 in
    (h.0, Holds-shift mem (at + 1) k xs h')

abbrev pub ip_packet : Ip.Send.Instance → ℕ → ℕ → List ℕ → List ℕ → Slip.Netbuf
ip_packet from dest_addr protocol transport application =
    (ip_issue_netbuf from dest_addr protocol transport application).1

abbrev pub ip_frame : Ethernet.Instance → EthernetServer → List ℕ → Slip.Netbuf → Netbuf
ip_frame ei es mac nb = Ethernet.send_netbuf ei es mac (ip_netbuf nb)

-- The destination that is read back from a packet.
ip_packet-destination :
    (from : Ip.Send.Instance) (dest_addr protocol : ℕ) (transport application : List ℕ)
    → dest_addr < 2 ^ 32
    → read32 (memory (ip_packet from dest_addr protocol transport application).network) 16
      ≡ dest_addr
unfolding ip_issue_netbuf
ip_packet-destination from dest_addr protocol transport application bound = omega (arith, bound)

-- The network layer of a frame stands behind its header.
frame-network :
    (ei : Ethernet.Instance) (es : EthernetServer) (mac : List ℕ) (nb : Slip.Netbuf) (mem : ℕ → ℕ)
    → length mac ≡ 6
    → length ei.mac ≡ 6
    → Holds mem 0 ((ip_frame ei es mac nb).datalink ++ octets nb)
    → Holds mem 0 (ip_frame ei es mac nb).datalink × Holds (λ i. mem (14 + i)) 0 nb.network
unfolding Ethernet.send_netbuf
frame-network ei es mac nb mem l l' h =
    let (link, packet) = Holds-append mem 0 (mac ++ ei.mac ++ octets16 es.type_) (octets nb) h in
    let (lower, _) = Holds-append mem _ (nb.network ++ nb.transport) nb.application packet in
    let (network, _) = Holds-append mem _ nb.network nb.transport lower in
    let a = length-append mac ei.mac in
    let b = length-append (mac ++ ei.mac) (octets16 es.type_) in
    let network' : Holds mem (14 + 0) nb.network =
      subst (λ n. Holds mem n nb.network) (omega (arith, a, b)) network in
    (link, Holds-shift mem 0 14 nb.network network')

-- A packet that IP issues to another instance, on a route whose next hop has its hardware address in the cache, is
-- sent in one frame, where it is shorter than 2^16 octets and its protocol is not ICMP. A station that receives the frame hands it, without its header, to its client for the
-- frame's type, and IP there hands what is in the packet to the client for its protocol.
pub ip_issue_netbuf-ethernet_ip_send_netbuf :
    (ei ei' : Ethernet.Instance) (eii : Instance) (es : EthernetServer) (from to : Ip.Send.Instance)
    (protocol : ℕ) (transport application mac : List ℕ) (rt : IpRoute) (ec : EthernetClient)
    (ic : IpClient) (garbage mem : ℕ → ℕ)
    → eii.ip_server ≡ some es
    → es.type_ < 2 ^ 16
    → length mac ≡ 6
    → length ei.mac ≡ 6
    → ip_route_find eii.route_info to.addr ≡ some rt
    → mac_of (next_hop to.addr rt) eii.arp_cache.slots ≡ some mac
    → find_client es.type_ ei'.client_list ≡ some ec
    → Ip.Clients.find_client protocol to.client_list ≡ some ic
    → protocol < 2 ^ 8
    → (protocol == 1) ≡ false
    → 20 + length transport + length application < 2 ^ 16
    → to.addr < 2 ^ 32
    → Holds mem 0 (
        (ip_frame ei es mac (ip_packet from to.addr protocol transport application)).datalink
        ++ octets (ip_packet from to.addr protocol transport application))
    → (frames (
          ethernet_ip_send_netbuf ei eii
            (ip_netbuf (ip_packet from to.addr protocol transport application)))
        ≡ some (ip_frame ei es mac (ip_packet from to.addr protocol transport application) ∷ []))
      × ((Ethernet.recv_netbuf ei' mem (14 + (20 + length transport + length application))
            ≡ some (
              ec,
              record {
                datalink_size = 14;
                network = 14;
                network_size = 20 + length transport + length application;
              },
            ))
          × (ip_recv_netbuf garbage (λ i. mem (14 + i)) to
              ≡ to_client ic (split_at (length transport + length application))))
ip_issue_netbuf-ethernet_ip_send_netbuf ei ei' eii es from to protocol transport application mac rt
      ec ic garbage mem server type_ l l' route known there found p not_icmp size bound h =
    let nb = ip_packet from to.addr protocol transport application in
    let dest = ip_packet-destination from to.addr protocol transport application bound in
    let (link, network) = frame-network ei es mac nb mem l l' h in
    (
      ethernet_ip_send_netbuf-known ei eii es (ip_netbuf nb) rt mac server
          (ap (ip_route_find eii.route_info) dest ∙ route)
          (ap (λ n. mac_of (next_hop n rt) eii.arp_cache.slots) dest ∙ known),
      (
        send_netbuf-recv_netbuf ei ei' es (20 + length transport + length application) mac
            (ip_netbuf nb) mem ec l l' type_ (omega arith) there link,
        ip_issue_netbuf-ip_recv_netbuf garbage (λ i. mem (14 + i)) from to protocol transport
            application ic p not_icmp size bound found network,
      ),
    )
