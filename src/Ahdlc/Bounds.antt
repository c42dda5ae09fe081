-- ===== src/Ahdlc/Bounds.antt =====
-- Memory safety of the PPP framing receiver, and what its test of a frame lets through.
use liquorice.Base.{
  ℕ, ◌+◌, ◌^◌, ◌≤◌, ◌<◌, ◌≡◌, false, some, List, [], ◌∷◌, arith, length, get_or, length-set,
  bit_xor, ◌==◌, Bool-cases, ◌⊎◌, inl, inr,
}
use liquorice.Ahdlc.{Instance, Frame, mru, ppp_flag, recv_octet, delivery, recv_flag, recv_u8, recv}

-- The buffer has its size, and an instance that does not ignore its input has room for an octet.
pub record HasBuffer (pai : Instance) : Type 0 where
  pub buffer : length pai.recv_packet ≡ mru
  pub room : pai.recv_ignore ≡ false → pai.recv_octets < mru

recv_octet-HasBuffer : (pai : Instance) (ch : ℕ) → HasBuffer pai → HasBuffer (recv_octet pai ch)
unfolding recv_octet
recv_octet-HasBuffer pai ch v = ground (
  arith,
  v.room,
  length-set pai.recv_packet pai.recv_octets ch,
  length-set pai.recv_packet pai.recv_octets (bit_xor ch 0x20),
)

module _ (fresh : List ℕ) (fresh_size : length fresh ≡ mru) where
  recv_flag-HasBuffer : (pai : Instance) → HasBuffer pai → HasBuffer (recv_flag fresh pai)
  unfolding recv_flag
  recv_flag-HasBuffer pai v = ground arith

  pub recv_u8-HasBuffer :
      (pai : Instance) (ch : ℕ) → HasBuffer pai → HasBuffer (recv_u8 fresh pai ch).0
  unfolding recv_u8
  recv_u8-HasBuffer pai ch v = elim (Bool-cases (ch == ppp_flag)) [
    | inl e ↦ rw e (recv_flag-HasBuffer pai v)
    | inr e ↦ rw e (recv_octet-HasBuffer pai ch v)
  ]

  -- Whatever octets arrive, a valid instance stays valid.
  pub recv-HasBuffer :
      (pai : Instance) (chs : List ℕ) → HasBuffer pai → HasBuffer (recv fresh pai chs).0
  unfolding recv
  recv-HasBuffer pai [] v = v
  recv-HasBuffer pai (ch ∷ chs) v =
      recv-HasBuffer (recv_u8 fresh pai ch).0 chs (recv_u8-HasBuffer pai ch v)

-- Once the first octet in the buffer is `0xff`, as in every frame that the driver sends, the check
-- sequence has no say in what is delivered.
pub delivery-any_crc :
    (pai : Instance) (crc : ℕ)
    → get_or pai.recv_packet 0 0 ≡ 0xff
    → delivery (record pai { recv_crc = crc }) ≡ delivery pai
unfolding delivery
delivery-any_crc pai crc first = ground arith

-- The size that goes with a delivered frame is that of the buffer less the four octets of header
-- and check sequence, and where the frame has fewer than four octets it wraps round.
pub delivery-size :
    (pai : Instance) (f : Frame)
    → HasBuffer pai
    → delivery pai ≡ some f
    → ((4 ≤ pai.recv_octets) × (f.size + 4 ≡ pai.recv_octets) × (f.size < mru))
      ⊎ ((pai.recv_octets < 4) × (f.size + 4 ≡ pai.recv_octets + 2 ^ 32))
unfolding delivery
delivery-size pai f v h = ground (arith, v.room)
