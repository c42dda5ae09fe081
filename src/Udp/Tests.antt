-- ===== src/Udp/Tests.antt =====
-- A datagram from one instance to another, and the theorem at it.
use liquorice.Base.{ℕ, ◌≡◌, refl, false, List, [], ◌∷◌, arith}
use liquorice.Octets.{slice, read32, memory, memory-Holds}
use liquorice.Ipcsum.{ipcsum, ipcsum_partial, ipcsum_pseudo_partial}
use liquorice.Ip.{to_client, ip_recv_netbuf}
use liquorice.Ip.Clients.{IpClient, find_client}
use liquorice.Ip.Send.{Instance, ip_issue_netbuf}
use liquorice.Ip.Checks.{octets, split_at}
use liquorice.Udp.{UdpClient, delivered, find_port, udp_recv_netbuf, udp_send_netbuf}
use liquorice.Udp.RoundTrip.{udp_send_netbuf-udp_recv_netbuf}

abbrev udp_client : IpClient
udp_client = record { protocol = 0x11; has_recv_icmp = false; server = 0 }

abbrev here : Instance
here = record { addr = 0x0a000001; pkt_ident = 3; client_list = []; icmp_client_list = [] }

abbrev there : Instance
there = record {
  addr = 0x0a000002;
  pkt_ident = 0;
  client_list = udp_client ∷ [];
  icmp_client_list = [];
}

abbrev client : UdpClient
client = record { port = 9; server = 1 }

abbrev nothing : ℕ → ℕ
nothing i = 0

abbrev words : List ℕ
words = 1 ∷ 2 ∷ 3 ∷ []

abbrev arrived : ℕ → ℕ
arrived = memory (octets (udp_send_netbuf here 7 there.addr 9 words).1)

udp_send_netbuf-udp_recv_netbuf_example :
    let nb = split_at 11 in
    (ip_recv_netbuf nothing arrived there ≡ to_client udp_client nb)
    × ((udp_recv_netbuf nothing arrived there (client ∷ []) nb ≡ delivered client 28 3)
        × ((slice arrived 28 3 ≡ words) × (read32 arrived 12 ≡ here.addr)))
unfolding udp_send_netbuf ip_issue_netbuf ipcsum ipcsum_partial ipcsum_pseudo_partial find_port
    find_client
udp_send_netbuf-udp_recv_netbuf_example =
    udp_send_netbuf-udp_recv_netbuf nothing arrived here there 7 9 words udp_client (client ∷ [])
      client (omega arith) (omega arith) (omega arith) (omega arith)
      (omega arith, (omega arith, (omega arith, tt))) refl refl
      (memory-Holds (octets (udp_send_netbuf here 7 there.addr 9 words).1))
