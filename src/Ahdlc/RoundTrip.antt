-- ===== src/Ahdlc/RoundTrip.antt =====
-- What the framing driver sends, it receives.
use liquorice.Base.{
  ℕ, suc, ◌+◌, ◌-◌, ◌≤◌, ◌<◌, ◌≡◌, refl, ap, ap₂, ◌∙◌, Bool, true, Option, none, some, List, [],
  ◌∷◌, ◌++◌, arith, length, map, take, drop, fill, take-fill_zero, take-prefix, All, All-append,
  append_assoc, length-append,
}
use liquorice.Ahdlc.{
  Netbuf, Instance, Frame, mru, ppp_flag, recv_flag, delivery, recv, push, send_packet,
}
use liquorice.Ahdlc.Crc.{crc_of, crc_of-append, crc_of-lt, crc_residue}
use liquorice.Ahdlc.Bounds.{HasBuffer}
use liquorice.Ahdlc.Encoding.{payload, FitsU16, encode_all, body, checked, send_packet-encode_all}
use liquorice.Ahdlc.Collecting.{IsByte, collecting, recv-fill}

-- A packet of octets that leaves room for the four octets of header and check sequence, and one more.
abbrev pub Fits : Netbuf → Type 0
Fits nb = (length (payload nb) + 4 < mru) × All IsByte (payload nb)

Fits-FitsU16 : (nb : Netbuf) → Fits nb → FitsU16 nb
Fits-FitsU16 nb h = omega (
  arith,
  length-append nb.datalink (nb.network ++ (nb.transport ++ nb.application)),
  length-append nb.network (nb.transport ++ nb.application),
  length-append nb.transport nb.application,
)

-- What the client reads of a frame: `size` octets.
abbrev pub contents : Frame → List ℕ
contents f = take f.size f.octets

abbrev pub send_frames : ℕ → List Netbuf → List ℕ
send_frames accm [] = []
send_frames accm (nb ∷ nbs) = send_packet accm nb ++ send_frames accm nbs

-- The check sequence over a frame and its own check sequence is the good final value.
pub crc_of-checked : (xs : List ℕ) → crc_of 0xffff (checked xs) ≡ 0xf0b8
unfolding crc_of
crc_of-checked xs =
    crc_of-append 0xffff xs _ ∙ crc_residue (crc_of 0xffff xs) (crc_of-lt 0xffff xs (omega arith))

checked-All : (xs : List ℕ) → All IsByte xs → All IsByte (checked xs)
checked-All xs h = All-append IsByte xs _ h (omega arith)

length-checked : (xs : List ℕ) → length (checked xs) ≡ length xs + 2
length-checked xs = length-append xs _

-- The octets between the header and the check sequence.
take-drop_two :
    (q : List ℕ) (n a b : ℕ) (xs ys : List ℕ)
    → take (suc (suc n)) q ≡ a ∷ b ∷ (xs ++ ys)
    → take (length xs) (drop 2 q) ≡ xs
take-drop_two [] n a b xs ys e = cc
take-drop_two (x ∷ []) n a b xs ys e = cc
take-drop_two (x ∷ y ∷ q) n a b xs ys e = take-prefix q n xs ys (cc)

map-push :
    (d : Option Frame) (f : Frame) (fs : List Frame)
    → map contents (push d (f ∷ fs)) ≡ map contents (push d []) ++ contents f ∷ map contents fs
map-push none f fs = refl
map-push (some g) f fs = refl

module _ (accm : ℕ) (fresh : List ℕ) (fresh_size : length fresh ≡ mru) where
  frame_of : List ℕ → Netbuf → Frame
  frame_of p nb = record {
    octets = drop 2 (fill p 0 (checked (body nb)));
    size = length (payload nb);
  }

  recv_flag-collecting :
      (client : Bool) (o : ℕ) (p : List ℕ) (cmap : ℕ) (queue : List (Netbuf × ℕ))
      → 0 < o
      → recv_flag fresh (collecting client o p 0xf0b8 cmap queue)
        ≡ collecting client 0 fresh 0xffff cmap queue
  unfolding recv_flag
  recv_flag-collecting client o p cmap queue h = ground arith

  delivery-collecting :
      (client : Bool) (o : ℕ) (p : List ℕ) (cmap : ℕ) (queue : List (Netbuf × ℕ))
      → client ≡ true
      → 4 ≤ o
      → o < mru
      → delivery (collecting client o p 0xf0b8 cmap queue)
        ≡ some (record { octets = drop 2 p; size = o - 4 })
  unfolding delivery
  delivery-collecting client o p cmap queue c h small = ground arith

  recv-flag :
      (client : Bool) (o : ℕ) (p : List ℕ) (crc cmap : ℕ) (queue : List (Netbuf × ℕ))
      (rest : List ℕ)
      → client ≡ true
      → crc ≡ 0xf0b8
      → 4 ≤ o
      → o < mru
      → recv fresh (collecting client o p crc cmap queue) (ppp_flag ∷ rest) ≡ (
          let r = recv fresh (collecting client 0 fresh 0xffff cmap queue) rest in
          (r.0, record { octets = drop 2 p; size = o - 4 } ∷ r.1))
  unfolding recv
  recv-flag client o p crc cmap queue rest c good h small = rw good (
      ap₂ (λ pai frame. let r = recv fresh pai rest in (r.0, push frame r.1))
        (recv_flag-collecting client o p cmap queue (omega arith))
        (delivery-collecting client o p cmap queue c h small))

  recv-frame :
      (client : Bool) (p : List ℕ) (cmap : ℕ) (queue : List (Netbuf × ℕ)) (nb : Netbuf)
      (rest : List ℕ)
      → client ≡ true
      → Fits nb
      → recv fresh
          (collecting client 0 p 0xffff cmap queue)
          (encode_all accm (checked (body nb)) ++ ppp_flag ∷ rest)
        ≡ (let r = recv fresh (collecting client 0 fresh 0xffff cmap queue) rest in
            (r.0, frame_of p nb ∷ r.1))
  unfolding frame_of
  recv-frame client p cmap queue nb rest c h =
      recv-fill fresh client cmap queue accm 0 p 0xffff (checked (body nb)) (ppp_flag ∷ rest)
        (checked-All (body nb) (omega arith, (omega arith, h.1)))
        (omega (arith, length-checked (body nb)))
      ∙ recv-flag client (0 + length (checked (body nb))) (fill p 0 (checked (body nb))) _ cmap
          queue rest c (crc_of-checked (body nb)) (omega (arith, length-checked (body nb)))
          (omega (arith, length-checked (body nb)))
      ∙ ap
          (λ n.
            let r = recv fresh (collecting client 0 fresh 0xffff cmap queue) rest in
            (r.0, record { octets = drop 2 (fill p 0 (checked (body nb))); size = n } ∷ r.1))
          (omega (arith, length-checked (body nb)))

  -- The client finds the packet in the frame.
  contents-frame_of :
      (p : List ℕ) (nb : Netbuf) → mru ≤ length p → Fits nb → contents (frame_of p nb) ≡ payload nb
  unfolding frame_of
  contents-frame_of p nb b h =
      let xs = checked (body nb) in
      take-drop_two (fill p 0 xs) _ 0xff 0x03 (payload nb) _
        (take-fill_zero p xs (omega (arith, length-checked (body nb))))

  recv_flag-buffer :
      (pai : Instance) → HasBuffer pai → mru ≤ length (recv_flag fresh pai).recv_packet
  unfolding recv_flag
  recv_flag-buffer pai v = ground arith

  send_packet-recv :
      (pai : Instance) (nb : Netbuf) (rest : List ℕ)
      → HasBuffer pai
      → pai.client ≡ true
      → Fits nb
      → recv fresh pai (send_packet accm nb ++ rest) ≡ (
          let r = recv fresh (collecting pai.client 0 fresh 0xffff pai.accm pai.send_queue) rest in
          (r.0, push (delivery pai) (frame_of (recv_flag fresh pai).recv_packet nb ∷ r.1)))
  unfolding recv
  send_packet-recv pai nb rest v c h =
      let p = (recv_flag fresh pai).recv_packet in
      rw (send_packet-encode_all accm nb (Fits-FitsU16 nb h), append_assoc)
        (ap (λ r. (r.0, push (delivery pai) r.1))
          (recv-frame pai.client p pai.accm pai.send_queue nb rest c h))

  -- From an instance with a client, in any valid state, every packet of a stream is delivered, in order and unchanged,
  -- behind what stood in the buffer when the first flag came, where each packet is a list of octets that with four more
  -- is shorter than `MRU`.
  pub send_frames-recv :
      (pai : Instance) (nb : Netbuf) (nbs : List Netbuf)
      → HasBuffer pai
      → pai.client ≡ true
      → All Fits (nb ∷ nbs)
      → map contents (recv fresh pai (send_frames accm (nb ∷ nbs))).1
        ≡ map contents (push (delivery pai) []) ++ map payload (nb ∷ nbs)
  unfolding recv delivery
  send_frames-recv pai nb [] v c h =
      ap (λ r. map contents r.1) (send_packet-recv pai nb [] v c h.0)
      ∙ map-push (delivery pai) _ []
      ∙ ap (λ xs. map contents (push (delivery pai) []) ++ xs ∷ [])
          (contents-frame_of (recv_flag fresh pai).recv_packet nb (recv_flag-buffer pai v) h.0)
  send_frames-recv pai nb (nb' ∷ nbs) v c h =
      ap (λ r. map contents r.1) (send_packet-recv pai nb (send_frames accm (nb' ∷ nbs)) v c h.0)
      ∙ map-push (delivery pai) _ _
      ∙ ap₂ (λ xs xss. map contents (push (delivery pai) []) ++ xs ∷ xss)
          (contents-frame_of (recv_flag fresh pai).recv_packet nb (recv_flag-buffer pai v) h.0)
          (send_frames-recv (collecting pai.client 0 fresh 0xffff pai.accm pai.send_queue) nb' nbs
            (record { buffer = fresh_size; room = λ e. omega arith }) c h.1)
