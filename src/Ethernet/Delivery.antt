-- ===== src/Ethernet/Delivery.antt =====
-- A frame from one station of src/lib/ethernet/ethernet.c to another.
use liquorice.Base.{
  ℕ, ◌+◌, ◌-◌, ◌%◌, ◌^◌, ◌<◌, ◌≡◌, refl, subst, some, List, ◌++◌, length, length-append, arith,
}
use liquorice.Octets.{octets16, read16, Holds, Holds-append}
use liquorice.Ahdlc.{Netbuf}
use liquorice.Ethernet.{
  EthernetClient, EthernetServer, Instance, find_client, recv_netbuf, send_netbuf,
}

-- The parts of a header that stands in memory.
pub header-parts :
    (mem : ℕ → ℕ) (dest src : List ℕ) (type_ : ℕ)
    → length dest ≡ 6
    → length src ≡ 6
    → Holds mem 0 (dest ++ src ++ octets16 type_)
    → (Holds mem 0 dest × Holds mem 6 src) × Holds mem 12 (octets16 type_)
header-parts mem dest src type_ d s h =
    let (macs, kind) = Holds-append mem 0 (dest ++ src) (octets16 type_) h in
    let (to, from) = Holds-append mem 0 dest src macs in
    let size : 0 + length (dest ++ src) ≡ 12 = omega (arith, length-append dest src) in
    (
      (to, subst (λ n. Holds mem n src) (omega arith) from),
      subst (λ n. Holds mem n (octets16 type_)) size kind,
    )

pub header-type :
    (mem : ℕ → ℕ) (dest src : List ℕ) (type_ : ℕ)
    → length dest ≡ 6
    → length src ≡ 6
    → type_ < 2 ^ 16
    → Holds mem 0 (dest ++ src ++ octets16 type_)
    → read16 mem 12 ≡ type_
header-type mem dest src type_ d s bound h =
    let kind = (header-parts mem dest src type_ d s h).1 in
    let high = kind.0 in let low = kind.1.0 in omega (arith, high, low)

-- A frame that a server sends is handed to the receiving station's client of the server's type, with the
-- network layer behind the 14 octets of the header, where the station has such a client.
pub send_netbuf-recv_netbuf :
    (from to : Instance) (es : EthernetServer) (size : ℕ) (dest_mac : List ℕ) (nb : Netbuf)
    (mem : ℕ → ℕ) (ec : EthernetClient)
    → length dest_mac ≡ 6
    → length from.mac ≡ 6
    → es.type_ < 2 ^ 16
    → size < 2 ^ 32 - 14
    → find_client es.type_ to.client_list ≡ some ec
    → Holds mem 0 (send_netbuf from es dest_mac nb).datalink
    → recv_netbuf to mem (14 + size)
      ≡ some (ec, record { datalink_size = 14; network = 14; network_size = size })
unfolding send_netbuf recv_netbuf
send_netbuf-recv_netbuf from to es size dest_mac nb mem ec d s bound small found h =
    let kind : read16 mem 12 ≡ es.type_ = header-type mem dest_mac from.mac es.type_ d s bound h in
    let rest : (14 + size + 2 ^ 32 - 14) % 2 ^ 32 ≡ size = omega arith in
    rw kind rw found rw rest refl
