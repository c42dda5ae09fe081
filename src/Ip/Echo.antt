-- ===== src/Ip/Echo.antt =====
-- An ICMP packet from one instance to another, src/lib/ip/ip.c, and the answer to an echo request.
use liquorice.Base.{
  false, not, ◌&&◌, ◌==◌, some, ℕ, ◌+◌, ◌-◌, ◌*◌, ◌%◌, ◌^◌, ◌≤◌, ◌<◌, ◌≡◌, refl, ap, ◌∙◌, List, [],
  ◌∷◌, ◌++◌, length, arith,
}
use liquorice.Octets.{read32, slice, Holds, slice-Holds, Holds-append}
use liquorice.Ipcsum.{ipcsum, ipcsum_partial}
use liquorice.Ipcsum.Laws.{IsOctets, ipcsum_partial-bound, ipcsum-stored}
use liquorice.Ip.{
  Received, to_icmp_client, answered, echo_request, default_found, default_client, icmp_dispatch,
  icmp_recv_netbuf, ip_recv_netbuf,
}
use liquorice.Ip.Clients.{IcmpClient, find_icmp}
use liquorice.Ip.Send.{Instance, csum_octets, ip_issue_netbuf, icmp_issue_netbuf}
use liquorice.Ip.Checks.{octets, split_at, ip_issue_netbuf-accepts, ip_issue_netbuf-sender}

-- Where an ICMP packet's data begin.
abbrev pub icmp_split : ℕ → Received
icmp_split size = record {
  network_size = 20;
  transport = 20;
  transport_size = 8;
  application = 28;
  application_size = size;
}

icmp_recv_netbuf-accepts :
    (mem : ℕ → ℕ) (ii : Instance) (n : ℕ)
    → 28 + n < 2 ^ 16
    → ipcsum 0 (slice mem 20 (8 + n)) ≡ 0
    → icmp_recv_netbuf mem ii (split_at (8 + n)) ≡ icmp_dispatch mem ii (icmp_split n)
unfolding icmp_recv_netbuf
icmp_recv_netbuf-accepts mem ii n size good =
    let fits : (8 + n) % 2 ^ 16 ≡ 8 + n = omega arith in
    let rest : (8 + n + 2 ^ 32 - 8) % 2 ^ 32 ≡ n = omega arith in
    let pass : (not (mem 22 + 2 ^ 8 * mem 23 == 0) && false) ≡ false = ground arith in
    rw fits rw good rw pass rw rest refl

-- The transport layer that `icmp_issue_netbuf()` writes.
abbrev pub icmp_header : ℕ → ℕ → List ℕ → List ℕ → List ℕ
icmp_header type_ code extra application =
    let csum = ipcsum (ipcsum_partial 0 (type_ ∷ code ∷ csum_octets 0 ++ extra)) application in
    type_ ∷ code ∷ csum_octets csum ++ extra

icmp_header-ipcsum :
    (type_ code e₀ e₁ e₂ e₃ : ℕ) (application : List ℕ)
    → IsOctets (type_ ∷ code ∷ e₀ ∷ e₁ ∷ e₂ ∷ e₃ ∷ application)
    → ipcsum 0 (icmp_header type_ code (e₀ ∷ e₁ ∷ e₂ ∷ e₃ ∷ []) application ++ application) ≡ 0
unfolding ipcsum ipcsum_partial
icmp_header-ipcsum type_ code e₀ e₁ e₂ e₃ application o =
    ipcsum-stored (ipcsum_partial 0 (type_ ∷ code ∷ [])) (e₀ ∷ e₁ ∷ e₂ ∷ e₃ ∷ application)
      (ipcsum_partial-bound 0 (type_ ∷ code ∷ []) (omega arith) (o.0, (o.1.0, tt))) o.1.1

-- An ICMP packet that is issued to an instance passes the tests there.
icmp_issue_netbuf-icmp_dispatch :
    (garbage mem : ℕ → ℕ) (from to : Instance) (type_ code e₀ e₁ e₂ e₃ : ℕ) (application : List ℕ)
    → length application ≤ 65507
    → from.addr < 2 ^ 32
    → to.addr < 2 ^ 32
    → IsOctets (type_ ∷ code ∷ e₀ ∷ e₁ ∷ e₂ ∷ e₃ ∷ application)
    → Holds mem 0
        (octets (icmp_issue_netbuf from to.addr type_ code (e₀ ∷ e₁ ∷ e₂ ∷ e₃ ∷ []) application).1)
    → (ip_recv_netbuf garbage mem to ≡ icmp_dispatch mem to (icmp_split (length application)))
      × ((mem 20 ≡ type_)
          × ((slice mem 24 4 ≡ e₀ ∷ e₁ ∷ e₂ ∷ e₃ ∷ [])
              × ((slice mem 28 (length application) ≡ application) × (read32 mem 12 ≡ from.addr))))
unfolding icmp_issue_netbuf ip_issue_netbuf
icmp_issue_netbuf-icmp_dispatch garbage mem from to type_ code e₀ e₁ e₂ e₃ application size f t o
      h =
    let n = length application in
    let header = icmp_header type_ code (e₀ ∷ e₁ ∷ e₂ ∷ e₃ ∷ []) application in
    let issued = (ip_issue_netbuf from to.addr 0x01 header application).1 in
    let (net, above) = Holds-append mem 0 issued.network (header ++ application) h in
    let (head, body) = Holds-append mem 20 header application above in
    let (first, extra) =
      Holds-append mem 20 (type_ ∷ code ∷ csum_octets _) (e₀ ∷ e₁ ∷ e₂ ∷ e₃ ∷ []) head in
    let eight : 8 + n ≡ length (header ++ application) = omega arith in
    let whole : slice mem 20 (8 + n) ≡ header ++ application =
      ap (slice mem 20) eight ∙ slice-Holds mem 20 (header ++ application) above in
    let good : ipcsum 0 (slice mem 20 (8 + n)) ≡ 0 =
      ap (ipcsum 0) whole ∙ icmp_header-ipcsum type_ code e₀ e₁ e₂ e₃ application o in
    (
      ip_issue_netbuf-accepts garbage mem from to 0x01 header application (omega arith)
            (omega arith) t net
          ∙ icmp_recv_netbuf-accepts mem to n (omega arith) good,
      (
        head.0,
        (
          slice-Holds mem 24 (e₀ ∷ e₁ ∷ e₂ ∷ e₃ ∷ []) extra,
          (
            slice-Holds mem 28 application body,
            ip_issue_netbuf-sender mem from to.addr 0x01 header application f net,
          ),
        ),
      ),
    )

icmp_dispatch-echo_request :
    (mem : ℕ → ℕ) (ii : Instance) (n : ℕ)
    → mem 20 ≡ 8
    → icmp_dispatch mem ii (icmp_split n) ≡ echo_request mem ii (icmp_split n)
unfolding icmp_dispatch
icmp_dispatch-echo_request mem ii n e = rw e refl

icmp_dispatch-reply :
    (mem : ℕ → ℕ) (ii : Instance) (n : ℕ) (ic : IcmpClient)
    → mem 20 ≡ 0
    → find_icmp 0 ii.icmp_client_list ≡ some ic
    → icmp_dispatch mem ii (icmp_split n) ≡ to_icmp_client ic (icmp_split n)
unfolding icmp_dispatch default_client default_found
icmp_dispatch-reply mem ii n ic e found = rw e rw found refl

-- An echo request of octets from one instance to another, with at most 65507 octets of data, is answered when it
-- arrives as it was sent: by an echo reply to the sender with its identifier, sequence number and data.
-- The reply passes the tests of the sender, which hands it with these data to the client for echo replies.
pub echo_request-reply :
    (garbage mem mem' : ℕ → ℕ) (from to : Instance) (e₀ e₁ e₂ e₃ : ℕ) (application : List ℕ)
    (ic : IcmpClient)
    → length application ≤ 65507
    → from.addr < 2 ^ 32
    → to.addr < 2 ^ 32
    → IsOctets (e₀ ∷ e₁ ∷ e₂ ∷ e₃ ∷ application)
    → find_icmp 0 from.icmp_client_list ≡ some ic
    → Holds mem 0
        (octets (icmp_issue_netbuf from to.addr 8 0 (e₀ ∷ e₁ ∷ e₂ ∷ e₃ ∷ []) application).1)
    → Holds mem' 0
        (octets (icmp_issue_netbuf to from.addr 0 0 (e₀ ∷ e₁ ∷ e₂ ∷ e₃ ∷ []) application).1)
    → (ip_recv_netbuf garbage mem to
        ≡ answered (icmp_issue_netbuf to from.addr 0 0 (e₀ ∷ e₁ ∷ e₂ ∷ e₃ ∷ []) application))
      × ((ip_recv_netbuf garbage mem' from ≡ to_icmp_client ic (icmp_split (length application)))
          × ((slice mem' 24 4 ≡ e₀ ∷ e₁ ∷ e₂ ∷ e₃ ∷ [])
              × (slice mem' 28 (length application) ≡ application)))
unfolding echo_request
echo_request-reply garbage mem mem' from to e₀ e₁ e₂ e₃ application ic size f t o found h h' =
    let n = length application in
    let extra = e₀ ∷ e₁ ∷ e₂ ∷ e₃ ∷ [] in
    let asked =
      icmp_issue_netbuf-icmp_dispatch garbage mem from to 8 0 e₀ e₁ e₂ e₃ application size f t
        (omega arith, (omega arith, o)) h in
    let said =
      icmp_issue_netbuf-icmp_dispatch garbage mem' to from 0 0 e₀ e₁ e₂ e₃ application size t f
        (omega arith, (omega arith, o)) h' in
    (
      asked.0
          ∙ icmp_dispatch-echo_request mem to n asked.1.0
          ∙ ap (λ addr. answered (icmp_issue_netbuf to addr 0 0 (slice mem 24 4) (slice mem 28 n)))
              asked.1.1.1.1
          ∙ ap (λ octets. answered (icmp_issue_netbuf to from.addr 0 0 octets (slice mem 28 n)))
              asked.1.1.0
          ∙ ap (λ octets. answered (icmp_issue_netbuf to from.addr 0 0 extra octets)) asked.1.1.1.0,
      (said.0 ∙ icmp_dispatch-reply mem' from n ic said.1.0 found, (said.1.1.0, said.1.1.1.0)),
    )
