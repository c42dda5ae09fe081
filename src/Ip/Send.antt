-- ===== src/Ip/Send.antt =====
-- How a packet of IP or ICMP is built, src/lib/ip/ip.c.
use liquorice.Base.{ℕ, ◌+◌, ◌/◌, ◌%◌, ◌^◌, List, [], ◌∷◌, ◌++◌, length}
use liquorice.Octets.{octets16, octets32}
use liquorice.Slip.{Netbuf}
use liquorice.Ipcsum.{ipcsum, ipcsum_partial}
use liquorice.Ip.Clients.{IpClient, IcmpClient}

-- `struct ip_instance`
pub record Instance : Type 0 where
  pub addr : ℕ
  pub pkt_ident : ℕ
  pub client_list : List IpClient
  pub icmp_client_list : List IcmpClient

-- A checksum as it stands in a header.
abbrev pub csum_octets : ℕ → List ℕ
csum_octets csum = csum % 2 ^ 8 ∷ csum / 2 ^ 8 % 2 ^ 8 ∷ []

-- The header that `ip_issue_netbuf()` writes: up to the checksum, and the addresses behind it.
abbrev pub header_start : ℕ → ℕ → ℕ → List ℕ
header_start total_len ident protocol =
    0x45 ∷ 0x00 ∷ octets16 total_len ++ octets16 ident ++ 0 ∷ 0 ∷ 0x40 ∷ protocol ∷ []

abbrev pub header_end : ℕ → ℕ → List ℕ
header_end src_addr dest_addr = octets32 src_addr ++ octets32 dest_addr

-- `ip_issue_netbuf()` of a transport and an application layer.
unfoldable pub ip_issue_netbuf : Instance → ℕ → ℕ → List ℕ → List ℕ → Instance × Netbuf
ip_issue_netbuf ii dest_addr protocol transport application =
    let total_len = (20 + length transport + length application) % 2 ^ 16 in
    let start = header_start total_len ii.pkt_ident protocol in
    let end = header_end ii.addr dest_addr in
    let csum = ipcsum 0 (start ++ csum_octets 0 ++ end) in
    (
      record ii { pkt_ident = (ii.pkt_ident + 1) % 2 ^ 16 },
      record {
        network = start ++ csum_octets csum ++ end;
        transport = transport;
        application = application;
      },
    )

-- `icmp_issue_netbuf()` of an application layer.
unfoldable pub icmp_issue_netbuf : Instance → ℕ → ℕ → ℕ → List ℕ → List ℕ → Instance × Netbuf
icmp_issue_netbuf ii dest_addr type_ code extra application =
    let csum = ipcsum (ipcsum_partial 0 (type_ ∷ code ∷ csum_octets 0 ++ extra)) application in
    ip_issue_netbuf ii dest_addr 0x01 (type_ ∷ code ∷ csum_octets csum ++ extra) application

-- `ip_instance_alloc()`, less its client of the datalink.
pub instance_alloc : ℕ → Instance
instance_alloc addr = record { addr = addr; pkt_ident = 0; client_list = []; icmp_client_list = [] }
