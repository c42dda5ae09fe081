-- ===== src/Ip.antt =====
-- IP and ICMP, src/lib/ip/ip.c. A received packet is the memory that it stands in, a function from offsets
-- to octets with the IP header at 0; a packet that is sent is the lists of its layers. Addresses and ports
-- are their numbers, also where the source has them in network byte order.
pub mod Clients
pub mod Send
pub mod Checks
pub mod Echo
mod Tests
use liquorice.Base.{
  ℕ, ◌+◌, ◌-◌, ◌*◌, ◌/◌, ◌%◌, ◌^◌, Bool, true, false, ◌&&◌, ◌||◌, not, Option, none, some, List, [],
  ◌∷◌, ltb, leb, ◌==◌, if◌then◌else◌,
}
use liquorice.Octets.{read16, read32, slice}
use liquorice.Slip.{Netbuf}
use liquorice.Ipcsum.{ipcsum}
use liquorice.Ip.Clients.{IpClient, IcmpClient, find_client, find_icmp}
use liquorice.Ip.Send.{Instance, icmp_issue_netbuf}

-- The parts of a `struct netbuf` that is received: sizes, and the offsets of the layers above the network's.
pub record Received : Type 0 where
  pub network_size : ℕ
  pub transport : ℕ
  pub transport_size : ℕ
  pub application : ℕ
  pub application_size : ℕ

-- What becomes of a received packet.
pub data Route : Type 0 where
  dropped : Route
  to_client : IpClient → Received → Route
  to_recv_icmp : IpClient → Received → Route
  to_icmp_client : IcmpClient → Received → Route
  answered : Instance × Netbuf → Route

-- The copy of a packet's header and of the eight octets behind it, which are written behind a header of
-- twenty octets. `garbage` is what the new buffer held.
abbrev pub quote : (ℕ → ℕ) → (ℕ → ℕ) → ℕ → ℕ → List ℕ
quote garbage mem network_size transport =
    slice
      (λ i.
        if leb 20 i && ltb i 28
        then mem (transport + i - 20)
        else if ltb i network_size
        then mem i
        else garbage i)
      0 (network_size + 8)

-- `icmp_recv_netbuf_echo_request()`
pub echo_request : (ℕ → ℕ) → Instance → Received → Route
echo_request mem ii nb = answered (
    icmp_issue_netbuf ii (read32 mem 12) 0x00 0x00 (slice mem (nb.transport + 4) 4)
      (slice mem nb.application nb.application_size))

-- `icmp_recv_netbuf_notify_transport()`
pub notify_found : Received → Option IpClient → Route
notify_found nb none = dropped
notify_found nb (some ic) = if ic.has_recv_icmp then to_recv_icmp ic nb else dropped

pub notify_transport : (ℕ → ℕ) → Instance → Received → Route
unfolding notify_found
notify_transport mem ii nb = notify_found nb (find_client (mem (nb.application + 9)) ii.client_list)

-- `icmp_recv_netbuf_default()`
pub default_found : Received → Option IcmpClient → Route
default_found nb none = dropped
default_found nb (some ic) = to_icmp_client ic nb

pub default_client : (ℕ → ℕ) → Instance → Received → Route
unfolding default_found
default_client mem ii nb = default_found nb (find_icmp (mem nb.transport) ii.icmp_client_list)

-- The `switch` of `icmp_recv_netbuf()`, behind the split of the packet.
pub icmp_dispatch : (ℕ → ℕ) → Instance → Received → Route
icmp_dispatch mem ii nb =
    let type_ = mem nb.transport in
    if (type_ == 0x03) || ((type_ == 0x04) || ((type_ == 0x0b) || (type_ == 0x0c)))
    then notify_transport mem ii nb
    else if type_ == 0x08
    then echo_request mem ii nb
    else default_client mem ii nb

-- `icmp_recv_netbuf()`
pub icmp_recv_netbuf : (ℕ → ℕ) → Instance → Received → Route
icmp_recv_netbuf mem ii nb =
    let has_csum = not (mem (nb.transport + 2) + 2 ^ 8 * mem (nb.transport + 3) == 0) in
    let fails = not (ipcsum 0 (slice mem nb.transport (nb.transport_size % 2 ^ 16)) == 0) in
    if has_csum && fails
    then dropped
    else icmp_dispatch mem ii (record nb {
      application = nb.transport + 8;
      application_size = (nb.transport_size + 2 ^ 32 - 8) % 2 ^ 32;
      transport_size = 8;
    })

-- The end of `ip_recv_netbuf()`, with the client that the walk has found.
pub route_found : (ℕ → ℕ) → (ℕ → ℕ) → Instance → Received → Option IpClient → Route
route_found garbage mem ii nb (some ic) = to_client ic nb
route_found garbage mem ii nb none = answered (
    icmp_issue_netbuf ii (read32 mem 12) 0x03 0x02 (0 ∷ 0 ∷ 0 ∷ 0 ∷ [])
      (quote garbage mem nb.network_size nb.transport))

-- `ip_recv_netbuf()`
unfoldable pub ip_recv_netbuf : (ℕ → ℕ) → (ℕ → ℕ) → Instance → Route
ip_recv_netbuf garbage mem ii =
    let header_len = mem 0 % 16 in
    let has_csum = not (mem 10 + 2 ^ 8 * mem 11 == 0) in
    let fails = not (ipcsum 0 (slice mem 0 (header_len * 4)) == 0) in
    let nb : Received = record {
      network_size = 4 * header_len;
      transport = 4 * header_len;
      transport_size = (read16 mem 2 + 2 ^ 32 - 4 * header_len) % 2 ^ 32;
      application = 0;
      application_size = 0;
    } in
    if not (mem 0 / 16 == 4)
    then dropped
    else if has_csum && fails
    then dropped
    else if not (read32 mem 16 == ii.addr)
    then dropped
    else if mem 9 == 0x01
    then icmp_recv_netbuf mem ii nb
    else route_found garbage mem ii nb (find_client (mem 9) ii.client_list)
