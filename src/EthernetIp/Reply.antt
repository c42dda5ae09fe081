-- ===== src/EthernetIp/Reply.antt =====
-- A conversation of two instances: the request of one, and the reply of the other.
use liquorice.Base.{
  ℕ, ◌+◌, ◌*◌, ◌/◌, ◌%◌, ◌^◌, ◌<◌, ◌≡◌, refl, ap, ap₂, sym, subst, ◌∙◌, true, false, some, List, [],
  ◌∷◌, ◌++◌, length, ◌==◌, if◌then◌else◌, length-append, arith, Bool-cases, inl, inr,
}
use liquorice.Octets.{octets16, octets32, read16, read32, slice, Holds, Holds-append, slice-Holds}
use liquorice.Ahdlc.{Netbuf}
use liquorice.Ethernet
use liquorice.Ethernet.{EthernetServer}
use liquorice.EthernetIp.{
  IpDatalinkClient, Instance, broadcast_mac, arp_netbuf, request_octets, reply_octets,
  ip_arp_request, ip_arp_recv_request, ip_arp_recv_netbuf,
}
use liquorice.EthernetIp.Learning.{learned, ip_arp_recv_netbuf-reply}

-- The octets of a frame with one layer behind its header.
abbrev pub frame_octets : Netbuf → List ℕ
frame_octets nb = nb.datalink ++ nb.network

abbrev pub reverse32 : ℕ → ℕ
reverse32 n =
    n % 2 ^ 8 * 2 ^ 24
    + n / 2 ^ 8 % 2 ^ 8 * 2 ^ 16
    + n / 2 ^ 16 % 2 ^ 8 * 2 ^ 8
    + n / 2 ^ 24 % 2 ^ 8

-- The parts of an ARP packet in a frame.
record Parts (mem : ℕ → ℕ) (head src src_mac src_ip dest_mac dest_ip : List ℕ) : Type 0 where
  in_src : Holds mem 6 src
  in_head : Holds mem 14 head
  in_src_mac : Holds mem 22 src_mac
  in_src_ip : Holds mem 28 src_ip
  in_dest_mac : Holds mem 32 dest_mac
  in_dest_ip : Holds mem 38 dest_ip

frame-Parts :
    (mem : ℕ → ℕ) (dest src kind head src_mac src_ip dest_mac dest_ip : List ℕ)
    → length dest ≡ 6
    → length src ≡ 6
    → length kind ≡ 2
    → length head ≡ 8
    → length src_mac ≡ 6
    → length src_ip ≡ 4
    → length dest_mac ≡ 6
    → Holds mem 0 ((dest ++ src ++ kind) ++ (head ++ (src_mac ++ src_ip ++ dest_mac ++ dest_ip)))
    → Parts mem head src src_mac src_ip dest_mac dest_ip
frame-Parts mem dest src kind head src_mac src_ip dest_mac dest_ip l1 l2 l3 l4 l5 l6 l7 h =
    let (link, arp) = Holds-append mem 0 (dest ++ src ++ kind) _ h in
    let (macs, _) = Holds-append mem 0 (dest ++ src) kind link in
    let (_, from) = Holds-append mem 0 dest src macs in
    let (top, rest) = Holds-append mem _ head (src_mac ++ src_ip ++ dest_mac ++ dest_ip) arp in
    let (rest3, ip2) = Holds-append mem _ (src_mac ++ src_ip ++ dest_mac) dest_ip rest in
    let (rest2, mac2) = Holds-append mem _ (src_mac ++ src_ip) dest_mac rest3 in
    let (mac1, ip1) = Holds-append mem _ src_mac src_ip rest2 in
    let a = length-append dest src in
    let b = length-append (dest ++ src) kind in
    let c = length-append src_mac src_ip in
    let d = length-append (src_mac ++ src_ip) dest_mac in
    record {
      in_src = subst (λ n. Holds mem n src) (omega arith) from;
      in_head = subst (λ n. Holds mem n head) (omega (arith, a, b)) top;
      in_src_mac = subst (λ n. Holds mem n src_mac) (omega (arith, a, b)) mac1;
      in_src_ip = subst (λ n. Holds mem n src_ip) (omega (arith, a, b)) ip1;
      in_dest_mac = subst (λ n. Holds mem n dest_mac) (omega (arith, a, b, c)) mac2;
      in_dest_ip = subst (λ n. Holds mem n dest_ip) (omega (arith, a, b, c, d)) ip2;
    }

octets32-read :
    (mem : ℕ → ℕ) (at n : ℕ) → n < 2 ^ 32 → Holds mem at (octets32 n) → read32 mem at ≡ n
octets32-read mem at n bound h =
    let b0 : mem at ≡ n / 2 ^ 24 % 2 ^ 8 = h.0 in
    let b1 : mem (at + 1) ≡ n / 2 ^ 16 % 2 ^ 8 = h.1.0 in
    let b2 : mem (at + 2) ≡ n / 2 ^ 8 % 2 ^ 8 = ap mem (omega arith) ∙ h.1.1.0 in
    let b3 : mem (at + 3) ≡ n % 2 ^ 8 = ap mem (omega arith) ∙ h.1.1.1.0 in omega (arith, bound)

-- The first octets of a packet with an operation, and the packet that answers a request.
abbrev pub arp_head : ℕ → List ℕ
arp_head op = octets16 1 ++ octets16 0x0800 ++ 6 ∷ 4 ∷ octets16 op

abbrev pub reply_packet : List ℕ → ℕ → List ℕ → ℕ → List ℕ
reply_packet mac addr to_mac to_addr =
    arp_head 2 ++ (mac ++ octets32 addr ++ to_mac ++ octets32 (reverse32 to_addr))

slice-mac :
    (mem : ℕ → ℕ) (at : ℕ) (mac : List ℕ) → length mac ≡ 6 → Holds mem at mac → slice mem at 6 ≡ mac
slice-mac mem at mac l h = ap (slice mem at) (sym l) ∙ slice-Holds mem at mac h

-- The octets of the reply to a request in memory.
reply_octets-Parts :
    (mem : ℕ → ℕ) (mac src_mac dest_mac src dest_ip : List ℕ) (addr to_addr : ℕ)
    → length src_mac ≡ 6
    → Parts mem (arp_head 1) src src_mac (octets32 to_addr) dest_mac dest_ip
    → reply_octets mac addr mem 14 ≡ reply_packet mac addr src_mac to_addr
reply_octets-Parts mem mac src_mac dest_mac src dest_ip addr to_addr l parts =
    let head = parts.in_head in
    let ip = parts.in_src_ip in
    let sender = slice-mac mem 22 src_mac l parts.in_src_mac in
    let front : slice mem 14 6 ≡ 0 ∷ 1 ∷ 8 ∷ 0 ∷ 6 ∷ 4 ∷ [] =
      cc (head.0, head.1.0, head.1.1.0, head.1.1.1.0, head.1.1.1.1.0, head.1.1.1.1.1.0) in
    let b0 : mem 31 ≡ reverse32 to_addr / 2 ^ 24 % 2 ^ 8 = omega (arith, ip.1.1.1.0) in
    let b1 : mem 30 ≡ reverse32 to_addr / 2 ^ 16 % 2 ^ 8 = omega (arith, ip.1.1.0) in
    let b2 : mem 29 ≡ reverse32 to_addr / 2 ^ 8 % 2 ^ 8 = omega (arith, ip.1.0) in
    let b3 : mem 28 ≡ reverse32 to_addr % 2 ^ 8 = omega (arith, ip.0) in
    let target : mem 31 ∷ mem 30 ∷ mem 29 ∷ mem 28 ∷ [] ≡ octets32 (reverse32 to_addr) =
      cc (b0, b1, b2, b3) in
    ap₂ (λ first last. (first ++ octets16 2) ++ (mac ++ octets32 addr ++ slice mem 22 6 ++ last))
      front target
    ∙ ap (λ m. arp_head 2 ++ (mac ++ octets32 addr ++ m ++ octets32 (reverse32 to_addr))) sender

abbrev pub request_frame : Ethernet.Instance → EthernetServer → ℕ → ℕ → Netbuf
request_frame ei es addr ip =
    Ethernet.send_netbuf ei es broadcast_mac (arp_netbuf (request_octets ei.mac addr ip))

abbrev pub reply_frame : Ethernet.Instance → EthernetServer → ℕ → List ℕ → ℕ → Netbuf
reply_frame ei es addr to_mac to_addr =
    Ethernet.send_netbuf ei es to_mac (arp_netbuf (reply_packet ei.mac addr to_mac to_addr))

-- The target of an ARP packet, where both addresses are right.
request-Parts :
    (mem : ℕ → ℕ) (ei : Ethernet.Instance) (es : EthernetServer) (addr ip : ℕ)
    → length ei.mac ≡ 6
    → Holds mem 0 (frame_octets (request_frame ei es addr ip))
    → Parts mem (arp_head 1) ei.mac ei.mac (octets32 addr) broadcast_mac (octets32 ip)
unfolding Ethernet.send_netbuf
request-Parts mem ei es addr ip l h =
    frame-Parts mem broadcast_mac ei.mac (octets16 es.type_) (arp_head 1) ei.mac (octets32 addr)
      broadcast_mac (octets32 ip) refl l refl refl l refl refl h

-- A station that receives a request for its address answers it.
recv_request :
    (ei : Ethernet.Instance) (eii : Instance) (idc : IpDatalinkClient) (es : EthernetServer)
    (mem : ℕ → ℕ) (mac : List ℕ) (addr : ℕ)
    → eii.client ≡ some idc
    → eii.arp_server ≡ some es
    → length mac ≡ 6
    → addr < 2 ^ 32
    → idc.addr < 2 ^ 32
    → Parts mem (arp_head 1) mac mac (octets32 addr) broadcast_mac (octets32 idc.addr)
    → ip_arp_recv_netbuf ei eii mem 14
      ≡ some (learned eii mac addr, reply_frame ei es idc.addr mac addr ∷ [])
unfolding ip_arp_recv_netbuf ip_arp_recv_request
recv_request ei eii idc es mem mac addr client server l b b' parts =
    let head = parts.in_head in
    let haddr : (mem 18 == 6) ≡ true = ap (λ n. n == 6) head.1.1.1.1.0 in
    let paddr : (mem 19 == 4) ≡ true = ap (λ n. n == 4) head.1.1.1.1.1.0 in
    let op : read16 mem 20 ≡ 1 = omega (arith, head.1.1.1.1.1.1.0, head.1.1.1.1.1.1.1.0) in
    let target : read32 mem 38 ≡ idc.addr = octets32-read mem 38 idc.addr b' parts.in_dest_ip in
    let sender : read32 mem 28 ≡ addr = octets32-read mem 28 addr b parts.in_src_ip in
    let same : (read32 mem 38 == idc.addr) ≡ true = ground arith in
    let from : slice mem 6 6 ≡ mac = slice-mac mem 6 mac l parts.in_src in
    let from_mac : slice mem 22 6 ≡ mac = slice-mac mem 22 mac l parts.in_src_mac in
    let packet =
      reply_octets-Parts mem ei.mac mac broadcast_mac mac (octets32 idc.addr) idc.addr addr l
        parts in
    let answered : ip_arp_recv_netbuf ei eii mem 14
        ≡ some (
          learned eii (slice mem 6 6) (read32 mem 28),
          Ethernet.send_netbuf ei es (slice mem 22 6)
                (arp_netbuf (reply_octets ei.mac idc.addr mem 14))
              ∷ [],
        ) =
      rw haddr rw paddr rw client rw same rw op rw server refl in
    answered
    ∙ ap₂ (λ eii' nb. some (eii', nb ∷ [])) (ap₂ (λ m i. learned eii m i) from sender)
        (ap₂ (λ m o. Ethernet.send_netbuf ei es m (arp_netbuf o)) from_mac packet)

-- A request for the address of another station's client, as it is sent, makes that station add the requester to its
-- cache and send a reply. In the reply the requester's address has its octets reversed.
pub ip_arp_request-ip_arp_recv_netbuf :
    (ei ei' : Ethernet.Instance) (eii eii' : Instance) (idc idc' : IpDatalinkClient)
    (es es' : EthernetServer) (mem : ℕ → ℕ)
    → eii.client ≡ some idc
    → eii.arp_server ≡ some es
    → eii'.client ≡ some idc'
    → eii'.arp_server ≡ some es'
    → length ei.mac ≡ 6
    → idc.addr < 2 ^ 32
    → idc'.addr < 2 ^ 32
    → Holds mem 0 (frame_octets (request_frame ei es idc.addr idc'.addr))
    → (ip_arp_request ei eii idc'.addr ≡ some (eii, request_frame ei es idc.addr idc'.addr ∷ []))
      × (ip_arp_recv_netbuf ei' eii' mem 14
          ≡ some (learned eii' ei.mac idc.addr, reply_frame ei' es' idc'.addr ei.mac idc.addr ∷ []))
unfolding ip_arp_request
ip_arp_request-ip_arp_recv_netbuf ei ei' eii eii' idc idc' es es' mem c s c' s' l b b' h = (
  rw c rw s refl,
  recv_request ei' eii' idc' es' mem ei.mac idc.addr c' s' l b b'
      (request-Parts mem ei es idc.addr idc'.addr l h),
)

reply-Parts :
    (mem : ℕ → ℕ) (ei : Ethernet.Instance) (es : EthernetServer) (mac : List ℕ) (addr ip : ℕ)
    → length ei.mac ≡ 6
    → length mac ≡ 6
    → Holds mem 0 (frame_octets (reply_frame ei es addr mac ip))
    → Parts mem (arp_head 2) ei.mac ei.mac (octets32 addr) mac (octets32 (reverse32 ip))
unfolding Ethernet.send_netbuf
reply-Parts mem ei es mac addr ip l l' h =
    frame-Parts mem mac ei.mac (octets16 es.type_) (arp_head 2) ei.mac (octets32 addr) mac
      (octets32 (reverse32 ip)) l' l refl refl l refl l' h

-- That reply is thrown away by the requester, unless its address reads the same with its octets reversed; then
-- the sender of the reply is added to the cache.
pub reply_frame-ip_arp_recv_netbuf :
    (ei ei' : Ethernet.Instance) (eii : Instance) (idc : IpDatalinkClient) (es' : EthernetServer)
    (addr : ℕ) (mem : ℕ → ℕ)
    → eii.client ≡ some idc
    → length ei.mac ≡ 6
    → length ei'.mac ≡ 6
    → addr < 2 ^ 32
    → Holds mem 0 (frame_octets (reply_frame ei' es' addr ei.mac idc.addr))
    → ip_arp_recv_netbuf ei eii mem 14 ≡ (
        if reverse32 idc.addr == idc.addr
        then some (learned eii ei'.mac addr, [])
        else some (eii, []))
unfolding ip_arp_recv_netbuf
reply_frame-ip_arp_recv_netbuf ei ei' eii idc es' addr mem client l l' b h =
    let parts = reply-Parts mem ei' es' ei.mac addr idc.addr l' l h in
    let head = parts.in_head in
    let haddr : mem 18 ≡ 6 = head.1.1.1.1.0 in
    let paddr : mem 19 ≡ 4 = head.1.1.1.1.1.0 in
    let op : read16 mem 20 ≡ 2 = omega (arith, head.1.1.1.1.1.1.0, head.1.1.1.1.1.1.1.0) in
    let target : read32 mem 38 ≡ reverse32 idc.addr =
      octets32-read mem 38 (reverse32 idc.addr) (omega arith) parts.in_dest_ip in
    let sender : read32 mem 28 ≡ addr = octets32-read mem 28 addr b parts.in_src_ip in
    let from : slice mem 6 6 ≡ ei'.mac = slice-mac mem 6 ei'.mac l' parts.in_src in
    elim (Bool-cases (reverse32 idc.addr == idc.addr)) [
      | inl e ↦
          let target' : read32 mem 38 ≡ idc.addr = target ∙ (ground arith) in
          rw e (
            ip_arp_recv_netbuf-reply ei eii idc mem client (haddr, (paddr, target')) op
            ∙ ap₂ (λ m i. some (learned eii m i, [])) from sender)
      | inr e ↦
          let other : (read32 mem 38 == idc.addr) ≡ false = ap (λ n. n == idc.addr) target ∙ e in
          rw e rw haddr rw paddr rw client rw other refl
    ]
