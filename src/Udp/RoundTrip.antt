-- ===== src/Udp/RoundTrip.antt =====
-- A datagram from src/lib/udp/udp.c of one instance, through src/lib/ip/ip.c, to a client of another.
use liquorice.Base.{
  ℕ, ◌+◌, ◌-◌, ◌*◌, ◌/◌, ◌%◌, ◌^◌, ◌≤◌, ◌<◌, ◌≡◌, refl, ap, ◌∙◌, subst, false, ◌&&◌, not, some,
  List, ◌++◌, length, arith, ◌==◌,
}
use liquorice.Octets.{read16, read32, slice, Holds, slice-Holds, Holds-append}
use liquorice.Ipcsum.{ipcsum, ipcsum_partial, ipcsum_pseudo_partial, pseudo_hdr}
use liquorice.Ipcsum.Laws.{
  IsOctets, ipcsum_partial-bound, ipcsum-stored, ipcsum_pseudo_partial_comm,
}
use liquorice.Ip.{to_client, ip_recv_netbuf}
use liquorice.Ip.Clients.{IpClient, find_client}
use liquorice.Ip.Send.{Instance, csum_octets, ip_issue_netbuf}
use liquorice.Ip.Checks.{octets, split_at, ip_issue_netbuf-sender, ip_issue_netbuf-ip_recv_netbuf}
use liquorice.Udp.{
  UdpClient, delivered, find_port, deliver, fails_csum, udp_recv_netbuf, udp_start, udp_send_netbuf,
}

udp_start-IsOctets : (src dest len : ℕ) → IsOctets (udp_start src dest len)
udp_start-IsOctets src dest len = ground arith

-- The checksum that is sent makes the datagram check.
csum-checks :
    (pseudo src dest len : ℕ) (application : List ℕ)
    → pseudo < 2 ^ 16
    → IsOctets application
    → let start = udp_start src dest len in
      let csum = ipcsum (ipcsum_partial pseudo (start ++ csum_octets 0)) application in
      ipcsum (ipcsum_partial pseudo (start ++ csum_octets csum)) application ≡ 0
unfolding ipcsum ipcsum_partial
csum-checks pseudo src dest len application bound o =
    let start = udp_start src dest len in
    ipcsum-stored (ipcsum_partial pseudo start) application
      (ipcsum_partial-bound pseudo start bound (udp_start-IsOctets src dest len)) o

pseudo_hdr-IsOctets : (a b len : ℕ) → IsOctets (pseudo_hdr a b 0x11 len)
pseudo_hdr-IsOctets a b len = ground arith

pseudo-bound : (a b len : ℕ) → ipcsum_pseudo_partial a b 0x11 len < 2 ^ 16
unfolding ipcsum_pseudo_partial
pseudo-bound a b len =
    ipcsum_partial-bound 0 (pseudo_hdr a b 0x11 len) (omega arith) (pseudo_hdr-IsOctets a b len)

-- The datagram that a client is given.
udp_recv_netbuf-delivered :
    (garbage mem : ℕ → ℕ) (to : Instance) (src dest from csum : ℕ) (application : List ℕ)
    (clients : List UdpClient) (uc : UdpClient)
    → 28 + length application < 2 ^ 16
    → dest < 2 ^ 16
    → read32 mem 12 ≡ from
    → Holds mem 20 (udp_start src dest (8 + length application) ++ csum_octets csum)
    → Holds mem 28 application
    → ipcsum
        (ipcsum_partial
          (ipcsum_pseudo_partial to.addr from 0x11 (8 + length application))
          (udp_start src dest (8 + length application) ++ csum_octets csum))
        application
      ≡ 0
    → find_port dest clients ≡ some uc
    → udp_recv_netbuf garbage mem to clients (split_at (8 + length application))
      ≡ delivered uc 28 (length application)
unfolding udp_recv_netbuf fails_csum deliver
udp_recv_netbuf-delivered garbage mem to src dest from csum application clients uc size bound sender
      header body checks found =
    let n = length application in
    let header_ = udp_start src dest (8 + n) ++ csum_octets csum in
    let h_stands : slice mem 20 8 ≡ header_ = slice-Holds mem 20 header_ header in
    let a_stands : slice mem 28 n ≡ application = slice-Holds mem 28 application body in
    let rest : (8 + n + 2 ^ 32 - 8) % 2 ^ 32 ≡ n = omega arith in
    let fits : n % 2 ^ 16 ≡ n = omega arith in
    let l4 : mem 24 ≡ (8 + n) / 2 ^ 8 % 2 ^ 8 = header.1.1.1.1.0 in
    let l5 : mem 25 ≡ (8 + n) % 2 ^ 8 = header.1.1.1.1.1.0 in
    let len : read16 mem 24 ≡ 8 + n = omega arith in
    let d2 : mem 22 ≡ dest / 2 ^ 8 % 2 ^ 8 = header.1.1.0 in
    let d3 : mem 23 ≡ dest % 2 ^ 8 = header.1.1.1.0 in
    let port : read16 mem 22 ≡ dest = omega arith in
    let good : ipcsum
          (ipcsum_partial (ipcsum_pseudo_partial to.addr (read32 mem 12) 0x11 (read16 mem 24))
            (slice mem 20 8))
          (slice mem 28 (n % 2 ^ 16))
        ≡ 0 =
      rw sender rw len rw h_stands rw fits rw a_stands (checks) in
    let pass : (not (mem 26 + 2 ^ 8 * mem 27 == 0) && false) ≡ false = ground arith in
    rw rest rw good rw pass rw port rw found refl

-- A datagram of octets that is sent to a port of another instance, with at most 65507 octets of data, passes
-- the checksum tests of that instance when it arrives as it was sent: IP hands it to its client for UDP, and
-- UDP hands the client of the port these data, with the sender's address in the header.
pub udp_send_netbuf-udp_recv_netbuf :
    (garbage mem : ℕ → ℕ) (from to : Instance) (src dest : ℕ) (application : List ℕ) (ic : IpClient)
    (clients : List UdpClient) (uc : UdpClient)
    → length application ≤ 65507
    → dest < 2 ^ 16
    → from.addr < 2 ^ 32
    → to.addr < 2 ^ 32
    → IsOctets application
    → find_client 0x11 to.client_list ≡ some ic
    → find_port dest clients ≡ some uc
    → Holds mem 0 (octets (udp_send_netbuf from src to.addr dest application).1)
    → let nb = split_at (8 + length application) in
      (ip_recv_netbuf garbage mem to ≡ to_client ic nb)
      × ((udp_recv_netbuf garbage mem to clients nb ≡ delivered uc 28 (length application))
          × ((slice mem 28 (length application) ≡ application) × (read32 mem 12 ≡ from.addr)))
unfolding udp_send_netbuf ip_issue_netbuf
udp_send_netbuf-udp_recv_netbuf garbage mem from to src dest application ic clients uc size d f t o
      found found' h =
    let n = length application in
    let len = (8 + n) % 2 ^ 16 in
    let wrap : len ≡ 8 + n = omega arith in
    let csum : ℕ → ℕ = λ l.
      ipcsum
        (ipcsum_partial (ipcsum_pseudo_partial from.addr to.addr 0x11 l)
          (udp_start src dest l ++ csum_octets 0))
        application in
    let header : ℕ → List ℕ = λ l. udp_start src dest l ++ csum_octets (csum l) in
    let issued = (ip_issue_netbuf from to.addr 0x11 (header len) application).1 in
    let (net, above) = Holds-append mem 0 issued.network (header len ++ application) h in
    let (head, body) = Holds-append mem 20 (header len) application above in
    let head' = subst (λ l. Holds mem 20 (header l)) wrap head in
    let checks =
      ap (λ p. ipcsum (ipcsum_partial p (header (8 + n))) application)
        (ipcsum_pseudo_partial_comm to.addr from.addr 0x11 (8 + n))
      ∙ csum-checks (ipcsum_pseudo_partial from.addr to.addr 0x11 (8 + n)) src dest (8 + n)
          application (pseudo-bound from.addr to.addr (8 + n)) o in
    let sender = ip_issue_netbuf-sender mem from to.addr 0x11 (header len) application f net in
    (
      ip_issue_netbuf-ip_recv_netbuf garbage mem from to 0x11 (header len) application ic
          (omega arith) refl (omega arith) t found net,
      (
        udp_recv_netbuf-delivered garbage mem to src dest from.addr (csum (8 + n)) application
            clients uc (omega arith) d sender head' body checks found',
        (slice-Holds mem 28 application body, sender),
      ),
    )
