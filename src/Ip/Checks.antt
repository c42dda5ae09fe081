-- ===== src/Ip/Checks.antt =====
-- The header of a packet of src/lib/ip/ip.c, as it is built and as it is received.
use liquorice.Base.{
  true, false, not, ◌&&◌, ◌==◌, if◌then◌else◌, some, ℕ, ◌+◌, ◌-◌, ◌*◌, ◌/◌, ◌%◌, ◌^◌, ◌<◌, ◌≡◌,
  refl, ap, ◌∙◌, List, ◌++◌, length, arith,
}
use liquorice.Octets.{read16, read32, slice, Holds, slice-Holds}
use liquorice.Slip.{Netbuf}
use liquorice.Ip.{Received, to_client, icmp_recv_netbuf, route_found, ip_recv_netbuf}
use liquorice.Ip.Clients.{IpClient, find_client}
use liquorice.Ipcsum.{ipcsum, ipcsum_partial}
use liquorice.Ipcsum.Laws.{IsOctets, ipcsum_partial-bound, ipcsum-stored}
use liquorice.Ip.Send.{Instance, header_start, header_end, ip_issue_netbuf}

pub header_start-IsOctets :
    (total_len ident protocol : ℕ)
    → protocol < 2 ^ 8
    → IsOctets (header_start total_len ident protocol)
header_start-IsOctets total_len ident protocol p = ground arith

pub header_end-IsOctets : (src_addr dest_addr : ℕ) → IsOctets (header_end src_addr dest_addr)
header_end-IsOctets src_addr dest_addr = ground arith

-- The header of every packet that is issued checks.
pub ip_issue_netbuf-ipcsum :
    (ii : Instance) (dest_addr protocol : ℕ) (transport application : List ℕ)
    → protocol < 2 ^ 8
    → ipcsum 0 (ip_issue_netbuf ii dest_addr protocol transport application).1.network ≡ 0
unfolding ip_issue_netbuf ipcsum ipcsum_partial
ip_issue_netbuf-ipcsum ii dest_addr protocol transport application p =
    let total_len = (20 + length transport + length application) % 2 ^ 16 in
    let start = header_start total_len ii.pkt_ident protocol in
    ipcsum-stored (ipcsum_partial 0 start) (header_end ii.addr dest_addr)
      (ipcsum_partial-bound 0 start (omega arith)
        (header_start-IsOctets total_len ii.pkt_ident protocol p))
      (header_end-IsOctets ii.addr dest_addr)

abbrev pub octets : Netbuf → List ℕ
octets nb = nb.network ++ nb.transport ++ nb.application

-- What IP hands on of a packet with a header of 20 octets.
abbrev pub split_at : ℕ → Received
split_at size = record {
  network_size = 20;
  transport = 20;
  transport_size = size;
  application = 0;
  application_size = 0;
}

-- A packet whose header passes the tests goes by its protocol.
ip_recv_netbuf-accepts :
    (garbage mem : ℕ → ℕ) (ii : Instance) (size : ℕ)
    → mem 0 ≡ 0x45
    → ipcsum 0 (slice mem 0 20) ≡ 0
    → read32 mem 16 ≡ ii.addr
    → read16 mem 2 ≡ 20 + size
    → size < 2 ^ 16
    → ip_recv_netbuf garbage mem ii ≡ (
        if mem 9 == 1
        then icmp_recv_netbuf mem ii (split_at size)
        else route_found garbage mem ii (split_at size) (find_client (mem 9) ii.client_list))
unfolding ip_recv_netbuf
ip_recv_netbuf-accepts garbage mem ii size first good addr total bound =
    let same : (read32 mem 16 == ii.addr) ≡ true = ground arith in
    let rest : (20 + size + 2 ^ 32 - 20) % 2 ^ 32 ≡ size = omega arith in
    let pass : (not (mem 10 + 2 ^ 8 * mem 11 == 0) && false) ≡ false = ground arith in
    rw first rw good rw pass rw same rw total rw rest refl

pub ip_issue_netbuf-accepts :
    (garbage mem : ℕ → ℕ) (from to : Instance) (protocol : ℕ) (transport application : List ℕ)
    → protocol < 2 ^ 8
    → 20 + length transport + length application < 2 ^ 16
    → to.addr < 2 ^ 32
    → Holds mem 0 (ip_issue_netbuf from to.addr protocol transport application).1.network
    → let nb = split_at (length transport + length application) in
      ip_recv_netbuf garbage mem to ≡ (
        if protocol == 1
        then icmp_recv_netbuf mem to nb
        else route_found garbage mem to nb (find_client protocol to.client_list))
unfolding ip_issue_netbuf
ip_issue_netbuf-accepts garbage mem from to protocol transport application p size bound h =
    let size_ = length transport + length application in
    let network = (ip_issue_netbuf from to.addr protocol transport application).1.network in
    let stands : slice mem 0 20 ≡ network = slice-Holds mem 0 network h in
    let good : ipcsum 0 (slice mem 0 20) ≡ 0 =
      ap (ipcsum 0) stands ∙ ip_issue_netbuf-ipcsum from to.addr protocol transport application p in
    let total_len = (20 + length transport + length application) % 2 ^ 16 in
    let b2 : mem 2 ≡ total_len / 2 ^ 8 % 2 ^ 8 = h.1.1.0 in
    let b3 : mem 3 ≡ total_len % 2 ^ 8 = h.1.1.1.0 in
    let total : read16 mem 2 ≡ 20 + size_ = omega arith in
    let to_ = h.1.1.1.1.1.1.1.1.1.1.1.1.1.1.1.1 in
    let addr : read32 mem 16 ≡ to.addr = omega arith in
    let by : mem 9 ≡ protocol = h.1.1.1.1.1.1.1.1.1.0 in
    let nb = split_at size_ in
    ip_recv_netbuf-accepts garbage mem to size_ h.0 good addr total (omega arith)
    ∙ ap
        (λ n.
          if n == 1
          then icmp_recv_netbuf mem to nb
          else route_found garbage mem to nb (find_client n to.client_list))
        by

-- A packet that is issued to an instance reaches the client for its protocol there.
pub ip_issue_netbuf-ip_recv_netbuf :
    (garbage mem : ℕ → ℕ) (from to : Instance) (protocol : ℕ) (transport application : List ℕ)
    (ic : IpClient)
    → protocol < 2 ^ 8
    → (protocol == 1) ≡ false
    → 20 + length transport + length application < 2 ^ 16
    → to.addr < 2 ^ 32
    → find_client protocol to.client_list ≡ some ic
    → Holds mem 0 (ip_issue_netbuf from to.addr protocol transport application).1.network
    → ip_recv_netbuf garbage mem to
      ≡ to_client ic (split_at (length transport + length application))
unfolding route_found
ip_issue_netbuf-ip_recv_netbuf garbage mem from to protocol transport application ic p not_icmp size
      bound found h =
    ip_issue_netbuf-accepts garbage mem from to protocol transport application p size bound h
    ∙ rw not_icmp rw found refl

-- The sender of a packet, from its header.
pub ip_issue_netbuf-sender :
    (mem : ℕ → ℕ) (from : Instance) (dest_addr protocol : ℕ) (transport application : List ℕ)
    → from.addr < 2 ^ 32
    → Holds mem 0 (ip_issue_netbuf from dest_addr protocol transport application).1.network
    → read32 mem 12 ≡ from.addr
unfolding ip_issue_netbuf
ip_issue_netbuf-sender mem from dest_addr protocol transport application bound h =
    let from_ = h.1.1.1.1.1.1.1.1.1.1.1.1 in
    let a = from_.0 in
    let b = from_.1.0 in let c = from_.1.1.0 in let d = from_.1.1.1.0 in omega (arith, a, b, c, d)
