-- ===== src/Slip/Bounds.antt =====
-- Memory safety of the SLIP receiver.
use liquorice.Base.{
  ℕ, ◌<◌, ◌≡◌, refl, false, Option, none, some, List, [], ◌∷◌, arith, length, All, length-set,
  length-take,
}
use liquorice.Slip.{Instance, mru, recv_octet, delivery, recv_u8, recv, push}

-- The buffer has its size, and an instance that does not ignore its input has room for an octet.
pub record IsValid (si : Instance) : Type 0 where
  pub buffer : length si.recv_packet ≡ mru
  pub room : si.recv_ignore ≡ false → si.recv_octets < mru

abbrev pub HasPacketSize : List ℕ → Type 0
HasPacketSize packet = (0 < length packet) × (length packet < mru)

recv_octet-IsValid : (si : Instance) (ch : ℕ) → IsValid si → IsValid (recv_octet si ch)
unfolding recv_octet
recv_octet-IsValid si ch v = ground (
  arith,
  v.room,
  length-set si.recv_packet si.recv_octets ch,
  length-set si.recv_packet si.recv_octets 0xc0,
  length-set si.recv_packet si.recv_octets 0xdb,
)

delivery-HasPacketSize :
    (si : Instance) (p : List ℕ) → IsValid si → delivery si ≡ some p → HasPacketSize p
unfolding delivery
delivery-HasPacketSize si p v h = ground (arith, v.room, length-take si.recv_octets si.recv_packet)

push-All :
    (o : Option (List ℕ)) (packets : List (List ℕ))
    → ((p : List ℕ) → o ≡ some p → HasPacketSize p)
    → All HasPacketSize packets
    → All HasPacketSize (push o packets)
push-All none packets h all = all
push-All (some p) packets h all = (h p refl, all)

module _ (fresh : List ℕ) (fresh_size : length fresh ≡ mru) where
  pub recv_u8-IsValid : (si : Instance) (ch : ℕ) → IsValid si → IsValid (recv_u8 fresh si ch).0
  unfolding recv_u8
  recv_u8-IsValid si ch v = ground (arith, recv_octet-IsValid si ch v, v.room)

  recv_u8-HasPacketSize :
      (si : Instance) (ch : ℕ) (p : List ℕ)
      → IsValid si
      → (recv_u8 fresh si ch).1 ≡ some p
      → HasPacketSize p
  unfolding recv_u8
  recv_u8-HasPacketSize si ch p v h = ground (arith, delivery-HasPacketSize si p)

  -- Whatever octets arrive, a valid instance stays valid.
  pub recv-IsValid :
      (si : Instance) (chs : List ℕ)
      → IsValid si
      → IsValid (recv fresh si chs).0 × All HasPacketSize (recv fresh si chs).1
  unfolding recv
  recv-IsValid si [] v = (v, tt)
  recv-IsValid si (ch ∷ chs) v =
      let rest = recv-IsValid (recv_u8 fresh si ch).0 chs (recv_u8-IsValid si ch v) in
      (rest.0, push-All _ _ (λ p. recv_u8-HasPacketSize si ch p v) rest.1)
