-- ===== src/Udp.antt =====
-- UDP, src/lib/udp/udp.c, on the packets of IP.
pub mod RoundTrip
mod Tests
use liquorice.Base.{
  ℕ, ◌+◌, ◌-◌, ◌*◌, ◌/◌, ◌%◌, ◌^◌, Bool, true, false, ◌&&◌, not, Option, none, some, List, [], ◌∷◌,
  ◌++◌, length, ◌==◌, if◌then◌else◌,
}
use liquorice.Octets.{read16, read32, slice, octets16}
use liquorice.Slip.{Netbuf}
use liquorice.Ipcsum.{ipcsum, ipcsum_partial, ipcsum_pseudo_partial}
use liquorice.Ip.{Received, quote}
use liquorice.Ip.Clients.{IpClient, ip_client_attach}
use liquorice.Ip.Send.{Instance, csum_octets, ip_issue_netbuf, icmp_issue_netbuf}

-- `struct udp_client`
pub record UdpClient : Type 0 where
  pub port : ℕ
  pub server : ℕ

-- What becomes of a received datagram: a client gets its data, from an offset on and of a size.
pub data Delivery : Type 0 where
  dropped : Delivery
  delivered : UdpClient → ℕ → ℕ → Delivery
  answered : Instance × Netbuf → Delivery

-- The walk to the client of a port.
pub find_port : ℕ → List UdpClient → Option UdpClient
find_port port [] = none
find_port port (uc ∷ clients) = if uc.port == port then some uc else find_port port clients

-- The end of `udp_recv_netbuf()`, with the client that the walk has found.
pub deliver : (ℕ → ℕ) → (ℕ → ℕ) → Instance → Received → Option UdpClient → Delivery
deliver garbage mem ii nb (some uc) = delivered uc nb.application nb.application_size
deliver garbage mem ii nb none = answered (
    icmp_issue_netbuf ii (read32 mem 12) 0x03 0x03 (0 ∷ 0 ∷ 0 ∷ 0 ∷ [])
      (quote garbage mem nb.network_size nb.transport))

-- Whether `udp_recv_netbuf()` finds the checksum wrong, if there is one.
pub fails_csum : (ℕ → ℕ) → Instance → Received → Bool
fails_csum mem ii nb =
    let pseudo =
      ipcsum_pseudo_partial ii.addr (read32 mem 12) 0x11 (read16 mem (nb.transport + 4)) in
    let csum = ipcsum_partial pseudo (slice mem nb.transport (nb.transport_size % 2 ^ 16)) in
    not (mem (nb.transport + 6) + 2 ^ 8 * mem (nb.transport + 7) == 0)
    && not (ipcsum csum (slice mem nb.application (nb.application_size % 2 ^ 16)) == 0)

-- `udp_recv_netbuf()`
pub udp_recv_netbuf : (ℕ → ℕ) → (ℕ → ℕ) → Instance → List UdpClient → Received → Delivery
unfolding find_port deliver fails_csum
udp_recv_netbuf garbage mem ii clients nb =
    let split : Received = record nb {
      application = nb.transport + 8;
      application_size = (nb.transport_size + 2 ^ 32 - 8) % 2 ^ 32;
      transport_size = 8;
    } in
    if fails_csum mem ii split
    then dropped
    else deliver garbage mem ii split (find_port (read16 mem (nb.transport + 2)) clients)

-- The header up to the checksum.
abbrev pub udp_start : ℕ → ℕ → ℕ → List ℕ
udp_start src_port dest_port len = octets16 src_port ++ octets16 dest_port ++ octets16 len

-- `udp_send_netbuf()` of a server's port, with the packet that IP sends.
pub udp_send_netbuf : Instance → ℕ → ℕ → ℕ → List ℕ → Instance × Netbuf
udp_send_netbuf ii port dest_addr dest_port application =
    let len = (8 + length application) % 2 ^ 16 in
    let start = udp_start port dest_port len in
    let pseudo = ipcsum_pseudo_partial ii.addr dest_addr 0x11 len in
    let csum = ipcsum (ipcsum_partial pseudo (start ++ csum_octets 0)) application in
    ip_issue_netbuf ii dest_addr 0x11 (start ++ csum_octets csum) application

-- `udp_client_attach()`, with the server that is allocated, if the port has no client yet.
pub attach_found : UdpClient → ℕ → List UdpClient → Option UdpClient → List UdpClient × Option ℕ
attach_found uc server clients (some p) = (clients, none)
attach_found uc server clients none = (record uc { server = server } ∷ clients, some server)

pub client_attach : UdpClient → ℕ → List UdpClient → List UdpClient × Option ℕ
unfolding find_port attach_found
client_attach uc server clients = attach_found uc server clients (find_port uc.port clients)

-- `udp_client_detach()`
pub client_detach : ℕ → List UdpClient → List UdpClient
client_detach server [] = []
client_detach server (uc ∷ clients) =
    if uc.server == server then clients else uc ∷ client_detach server clients

-- `udp_instance_alloc()`: no clients of its own, and a client of IP with the server that it is given.
pub instance_alloc : ℕ → Instance → List UdpClient × (Instance × Option ℕ)
instance_alloc server ii =
    let ic : IpClient = record { protocol = 0x11; has_recv_icmp = false; server = 0 } in
    let (clients, given) = ip_client_attach ic server ii.client_list in
    ([], (record ii { client_list = clients }, given))
