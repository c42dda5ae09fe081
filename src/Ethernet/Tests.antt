-- ===== src/Ethernet/Tests.antt =====
-- A station with two clients, and the theorems at it.
use liquorice.Base.{◌≡◌, refl, none, some, [], ◌∷◌}
use liquorice.Octets.{memory}
use liquorice.Ahdlc.{Netbuf}
use liquorice.Ethernet.{
  EthernetClient, EthernetServer, Instance, find_client, recv_netbuf, send_netbuf, client_attach,
}

abbrev arp_client : EthernetClient
arp_client = record { type_ = 0x0806; server = 2 }

abbrev sender : Instance
sender = record { client_list = []; mac = 2 ∷ 0 ∷ 0 ∷ 0 ∷ 0 ∷ 1 ∷ [] }

abbrev station : Instance
station = record {
  client_list = record { type_ = 0x0800; server = 1 } ∷ arp_client ∷ [];
  mac = 2 ∷ 0 ∷ 0 ∷ 0 ∷ 0 ∷ 2 ∷ [];
}

abbrev server : EthernetServer
server = record { server = 5; type_ = 0x0806 }

abbrev packet : Netbuf
packet = record { datalink = []; network = 7 ∷ 8 ∷ []; transport = []; application = [] }

delivers_arp :
    recv_netbuf station (memory (send_netbuf sender server station.mac packet).datalink) 16
    ≡ some (arp_client, record { datalink_size = 14; network = 14; network_size = 2 })
unfolding find_client recv_netbuf send_netbuf
delivers_arp = refl

attach_twice : let (ei, given) = client_attach arp_client 9 station in given ≡ none
unfolding find_client client_attach
attach_twice = refl
