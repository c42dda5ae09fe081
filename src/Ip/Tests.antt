-- ===== src/Ip/Tests.antt =====
-- An echo request from one instance to another, and the theorem at it.
use liquorice.Base.{ℕ, ◌≡◌, refl, [], ◌∷◌, arith}
use liquorice.Octets.{slice, memory, memory-Holds}
use liquorice.Ipcsum.{ipcsum, ipcsum_partial}
use liquorice.Ip.{to_icmp_client, answered, ip_recv_netbuf}
use liquorice.Ip.Clients.{IcmpClient, find_icmp}
use liquorice.Ip.Send.{Instance, ip_issue_netbuf, icmp_issue_netbuf}
use liquorice.Ip.Checks.{octets}
use liquorice.Ip.Echo.{icmp_split, echo_request-reply}

abbrev ping_client : IcmpClient
ping_client = record { type_ = 0; server = 0 }

abbrev here : Instance
here = record {
  addr = 0x0a000001;
  pkt_ident = 3;
  client_list = [];
  icmp_client_list = ping_client ∷ [];
}

abbrev there : Instance
there = record { addr = 0x0a000002; pkt_ident = 0; client_list = []; icmp_client_list = [] }

abbrev nothing : ℕ → ℕ
nothing i = 0

abbrev request : ℕ → ℕ
request = memory (octets (icmp_issue_netbuf here there.addr 8 0 (0 ∷ 1 ∷ 0 ∷ 5 ∷ []) (6 ∷ [])).1)

abbrev reply : ℕ → ℕ
reply = memory (octets (icmp_issue_netbuf there here.addr 0 0 (0 ∷ 1 ∷ 0 ∷ 5 ∷ []) (6 ∷ [])).1)

echo_request-reply_example :
    (ip_recv_netbuf nothing request there
      ≡ answered (icmp_issue_netbuf there here.addr 0 0 (0 ∷ 1 ∷ 0 ∷ 5 ∷ []) (6 ∷ [])))
    × ((ip_recv_netbuf nothing reply here ≡ to_icmp_client ping_client (icmp_split 1))
        × ((slice reply 24 4 ≡ 0 ∷ 1 ∷ 0 ∷ 5 ∷ []) × (slice reply 28 1 ≡ 6 ∷ [])))
unfolding ip_issue_netbuf icmp_issue_netbuf ipcsum ipcsum_partial find_icmp
echo_request-reply_example =
    echo_request-reply nothing request reply here there 0 1 0 5 (6 ∷ []) ping_client (omega arith)
      (omega arith) (omega arith)
      (omega arith, (omega arith, (omega arith, (omega arith, (omega arith, tt))))) refl
      (memory-Holds
        (octets (icmp_issue_netbuf here there.addr 8 0 (0 ∷ 1 ∷ 0 ∷ 5 ∷ []) (6 ∷ [])).1))
      (memory-Holds
        (octets (icmp_issue_netbuf there here.addr 0 0 (0 ∷ 1 ∷ 0 ∷ 5 ∷ []) (6 ∷ [])).1))
