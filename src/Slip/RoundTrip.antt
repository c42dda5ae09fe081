-- ===== src/Slip/RoundTrip.antt =====
-- What the SLIP encoder sends, the SLIP receiver delivers.
use liquorice.Base.{
  ℕ, ◌≤◌, ◌<◌, ◌≡◌, ap, ◌∙◌, true, List, [], ◌∷◌, ◌++◌, arith, length, map, All, append_assoc,
  length-append,
}
use liquorice.Slip.{Netbuf, Instance, mru, slip_end, recv_end, delivery, recv, push, send_packet}
use liquorice.Slip.Bounds.{IsValid}
use liquorice.Slip.Encoding.{payload, FitsU16, encode_all, send_packet-encode_all}
use liquorice.Slip.Collecting.{collecting, recv-start, recv-packet, recv_overrun}

-- A packet that the receiver's buffer can hold with an octet to spare.
abbrev pub Fits : Netbuf → Type 0
Fits nb = (0 < length (payload nb)) × (length (payload nb) < mru)

abbrev pub send_all : List Netbuf → List ℕ
send_all [] = []
send_all (nb ∷ nbs) = send_packet nb ++ send_all nbs

Fits-FitsU16 : (nb : Netbuf) → Fits nb → FitsU16 nb
Fits-FitsU16 nb h = omega (
  arith,
  length-append nb.network (nb.transport ++ nb.application),
  length-append nb.transport nb.application,
)

module _ (fresh : List ℕ) (fresh_size : length fresh ≡ mru) where
  recv_end-buffer : (si : Instance) → IsValid si → mru ≤ length (recv_end fresh si).recv_packet
  unfolding recv_end
  recv_end-buffer si v = ground arith

  send_packet-recv :
      (si : Instance) (nb : Netbuf) (rest : List ℕ)
      → IsValid si
      → si.client ≡ true
      → Fits nb
      → recv fresh si (send_packet nb ++ rest) ≡ (
          let r = recv fresh (collecting si.client 0 fresh si.send_queue) rest in
          (r.0, push (delivery si) (payload nb ∷ r.1)))
  send_packet-recv si nb rest v c h =
      rw (send_packet-encode_all nb (Fits-FitsU16 nb h), append_assoc)
        (recv-start fresh si (encode_all (payload nb) ++ slip_end ∷ rest)
          ∙ rw (
              recv-packet fresh si.client (recv_end fresh si).recv_packet si.send_queue (payload nb)
                rest c (recv_end-buffer si v) h.0 h.1))

  -- From an instance with a client, in any valid state, the packets of a stream that are not empty and shorter than
  -- `MRU` octets are delivered in order and unchanged, behind what stood in the buffer when the first `SLIP_END` came.
  pub send_all-recv :
      (si : Instance) (nb : Netbuf) (nbs : List Netbuf)
      → IsValid si
      → si.client ≡ true
      → All Fits (nb ∷ nbs)
      → (recv fresh si (send_all (nb ∷ nbs))).1 ≡ push (delivery si) (map payload (nb ∷ nbs))
  unfolding delivery recv
  send_all-recv si nb [] v c h = ap (λ r. r.1) (send_packet-recv si nb [] v c h.0)
  send_all-recv si nb (nb' ∷ nbs) v c h =
      ap (λ r. r.1) (send_packet-recv si nb (send_all (nb' ∷ nbs)) v c h.0)
      ∙ ap (λ packets. push (delivery si) (payload nb ∷ packets))
          (send_all-recv (collecting si.client 0 fresh si.send_queue) nb' nbs
            (record { buffer = fresh_size; room = λ e. omega arith }) c h.1)

  -- A packet of at least `MRU` octets, its layers each shorter than 2^16, is never delivered: from an instance in any valid state the
  -- octets that encode it deliver nothing but what stood in the buffer before.
  pub send_packet-overrun :
      (si : Instance) (nb : Netbuf)
      → IsValid si
      → FitsU16 nb
      → mru ≤ length (payload nb)
      → (recv fresh si (send_packet nb)).1 ≡ push (delivery si) []
  unfolding recv
  send_packet-overrun si nb v f h =
      let buffer = (recv_end fresh si).recv_packet in
      let (p', _, r) =
        recv_overrun fresh si.client 0 buffer si.send_queue (payload nb) [] (recv_end-buffer si v)
          (omega arith) (omega arith) in
      rw (send_packet-encode_all nb f) (
        ap (λ r. r.1) (recv-start fresh si (encode_all (payload nb) ++ slip_end ∷ []))
        ∙ ap (λ r. push (delivery si) r.1) r)
