-- ===== src/EthernetIp/Tests.antt =====
-- Two stations and a gateway, and the theorems at them.
use liquorice.Base.{ℕ, ◌+◌, ◌≡◌, refl, true, none, some, List, [], ◌∷◌, ◌++◌, ◌>>=◌, arith, false}
use liquorice.Octets.{octets16, octets32, memory, memory-Holds}
use liquorice.Ipcsum.{ipcsum, ipcsum_partial}
use liquorice.Ahdlc.{Netbuf}
use liquorice.Route.{IpRoute, ip_route_find}
use liquorice.Ethernet
use liquorice.Ethernet.{EthernetServer, EthernetClient}
use liquorice.EthernetIp.{
  IpDatalinkClient, Instance, ip_arp_request, ip_arp_recv_netbuf, ethernet_ip_send_netbuf,
  ethernet_ip_client_attach, ip_datalink_client_detach, ethernet_ip_instance_alloc,
}
use liquorice.EthernetIp.Learning.{learned, frames, ip_arp_recv_netbuf-send}
use liquorice.EthernetIp.Reply.{
  request_frame, reply_frame, frame_octets, ip_arp_request-ip_arp_recv_netbuf,
  reply_frame-ip_arp_recv_netbuf,
}
use liquorice.EthernetIp.Carrying.{
  ip_packet, ip_frame, ip_netbuf, ip_issue_netbuf-ethernet_ip_send_netbuf,
}
use liquorice.Ip
use liquorice.Ip.{to_client, ip_recv_netbuf}
use liquorice.Ip.Clients.{IpClient}
use liquorice.Ip.Send.{ip_issue_netbuf}
use liquorice.Ip.Checks.{octets, split_at}

abbrev mac_a : List ℕ
mac_a = 2 ∷ 0 ∷ 0 ∷ 0 ∷ 0 ∷ 1 ∷ []

abbrev mac_b : List ℕ
mac_b = 2 ∷ 0 ∷ 0 ∷ 0 ∷ 0 ∷ 2 ∷ []

abbrev ip_server : EthernetServer
ip_server = record { server = 1; type_ = 0x0800 }

abbrev arp_server : EthernetServer
arp_server = record { server = 2; type_ = 0x0806 }

abbrev ip_client : EthernetClient
ip_client = record { type_ = 0x0800; server = 1 }

abbrev station : List ℕ → Ethernet.Instance
station mac = record {
  client_list = record { type_ = 0x0806; server = 2 } ∷ ip_client ∷ [];
  mac = mac;
}

abbrev client : ℕ → IpDatalinkClient
client addr = record { addr = addr; server = 7 }

abbrev local_route : IpRoute
local_route = record { is_network = true; addr = 0xc0a80000; netmask = 0xffffff00; gateway = 0 }

abbrev instance_of : ℕ → Instance
instance_of addr = record {
  client = some (client addr);
  arp_cache = record {
    slots =
        record { ip = 0xc0a80003; mac = mac_b; age = 1 }
        ∷ record { ip = 0; mac = mac_a; age = 0 }
        ∷ [];
    age = 2;
  };
  route_info = local_route ∷ [];
  ip_server = some ip_server;
  arp_server = some arp_server;
}

abbrev from : Ip.Send.Instance
from = record { addr = 0xc0a80001; pkt_ident = 3; client_list = []; icmp_client_list = [] }

abbrev protocol_client : IpClient
protocol_client = record { protocol = 17; server = 4; has_recv_icmp = false }

abbrev to : Ip.Send.Instance
to = record {
  addr = 0xc0a80003;
  pkt_ident = 0;
  client_list = protocol_client ∷ [];
  icmp_client_list = [];
}

-- The allocated instance is attached to both types, and detaching without a client follows NULL.
alloc_servers :
    let (ei, eii) = ethernet_ip_instance_alloc 1 2 mac_a (Ethernet.instance_alloc mac_b) in
    (eii.ip_server ≡ some ip_server)
    × ((eii.arp_server ≡ some arp_server)
        × ((ei ≡ station mac_b) × (ip_datalink_client_detach 7 eii ≡ none)))
unfolding ethernet_ip_instance_alloc ip_datalink_client_detach Ethernet.client_attach
    Ethernet.find_client
alloc_servers = (refl, (refl, (refl, refl)))

attach_once :
    let (eii, server) = ethernet_ip_client_attach 0xc0a80001 9 (instance_of 0xc0a80001) in
    server ≡ none
unfolding ethernet_ip_client_attach
attach_once = refl

ip_arp_request-ip_arp_recv_netbuf_example :
    (ip_arp_request (station mac_a) (instance_of 0xc0a80001) 0xc0a80003
      ≡ some (
        instance_of 0xc0a80001,
        request_frame (station mac_a) arp_server 0xc0a80001 0xc0a80003 ∷ [],
      ))
    × (ip_arp_recv_netbuf
          (station mac_b)
          (instance_of 0xc0a80003)
          (memory (frame_octets (request_frame (station mac_a) arp_server 0xc0a80001 0xc0a80003)))
          14
        ≡ some (
          learned (instance_of 0xc0a80003) mac_a 0xc0a80001,
          reply_frame (station mac_b) arp_server 0xc0a80003 mac_a 0xc0a80001 ∷ [],
        ))
ip_arp_request-ip_arp_recv_netbuf_example =
    ip_arp_request-ip_arp_recv_netbuf (station mac_a) (station mac_b) (instance_of 0xc0a80001)
      (instance_of 0xc0a80003) (client 0xc0a80001) (client 0xc0a80003) arp_server arp_server
      (memory (frame_octets (request_frame (station mac_a) arp_server 0xc0a80001 0xc0a80003))) refl
      refl refl refl refl (omega arith) (omega arith)
      (memory-Holds (frame_octets (request_frame (station mac_a) arp_server 0xc0a80001 0xc0a80003)))

abbrev reply_here : List ℕ
reply_here = frame_octets (reply_frame (station mac_b) arp_server 0xc0a80003 mac_a 0xc0a80001)

reply_frame-ip_arp_recv_netbuf_example :
    ip_arp_recv_netbuf (station mac_a) (instance_of 0xc0a80001) (memory reply_here) 14
    ≡ some (instance_of 0xc0a80001, [])
reply_frame-ip_arp_recv_netbuf_example =
    reply_frame-ip_arp_recv_netbuf (station mac_a) (station mac_b) (instance_of 0xc0a80001)
      (client 0xc0a80001) arp_server 0xc0a80003 (memory reply_here) refl refl refl (omega arith)
      (memory-Holds reply_here)

-- A reply from the station with address 0xc0a80009.
abbrev reply_octets_nine : List ℕ
reply_octets_nine =
    mac_a
    ++ mac_b
    ++ octets16 0x0806
    ++ (octets16 1 ++ octets16 0x0800 ++ 6 ∷ 4 ∷ octets16 2)
    ++ (mac_b ++ octets32 0xc0a80009 ++ mac_a ++ octets32 0xc0a80001)

abbrev packet_nine : Netbuf
packet_nine = ip_netbuf (ip_packet from 0xc0a80009 17 (1 ∷ 2 ∷ []) [])

ip_arp_recv_netbuf-send_example :
    (ip_arp_recv_netbuf (station mac_a) (instance_of 0xc0a80001) (memory reply_octets_nine) 14
      >>= λ r. frames (ethernet_ip_send_netbuf (station mac_a) r.0 packet_nine))
    ≡ some (Ethernet.send_netbuf (station mac_a) ip_server mac_b packet_nine ∷ [])
unfolding ip_route_find ip_issue_netbuf ipcsum ipcsum_partial
ip_arp_recv_netbuf-send_example =
    ip_arp_recv_netbuf-send (station mac_a) (instance_of 0xc0a80001) (client 0xc0a80001) ip_server
      (memory reply_octets_nine) packet_nine local_route refl refl (omega arith)
      (refl, (refl, refl)) refl refl refl

abbrev nothing : ℕ → ℕ
nothing i = 0

abbrev packet : List ℕ
packet =
    (ip_frame (station mac_a) ip_server mac_b
      (ip_packet from 0xc0a80003 17 (1 ∷ 2 ∷ []) [])).datalink
    ++ octets (ip_packet from 0xc0a80003 17 (1 ∷ 2 ∷ []) [])

ip_issue_netbuf-ethernet_ip_send_netbuf_example :
    (frames (
        ethernet_ip_send_netbuf
          (station mac_a)
          (instance_of 0xc0a80001)
          (ip_netbuf (ip_packet from 0xc0a80003 17 (1 ∷ 2 ∷ []) [])))
      ≡ some (
          ip_frame (station mac_a) ip_server mac_b (ip_packet from 0xc0a80003 17 (1 ∷ 2 ∷ []) [])
          ∷ []))
    × ((Ethernet.recv_netbuf (station mac_b) (memory packet) 36
          ≡ some (ip_client, record { datalink_size = 14; network = 14; network_size = 22 }))
        × (ip_recv_netbuf nothing (λ i. memory packet (14 + i)) to
            ≡ to_client protocol_client (split_at 2)))
unfolding ip_route_find Ethernet.find_client Ip.Clients.find_client
ip_issue_netbuf-ethernet_ip_send_netbuf_example =
    ip_issue_netbuf-ethernet_ip_send_netbuf (station mac_a) (station mac_b) (instance_of 0xc0a80001)
      ip_server from to 17 (1 ∷ 2 ∷ []) [] mac_b local_route ip_client protocol_client nothing
      (memory packet) refl (omega arith) refl refl refl refl refl refl (omega arith) refl
      (omega arith) (omega arith) (memory-Holds packet)
