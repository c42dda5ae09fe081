-- ===== src/Ahdlc/Tests.antt =====
-- Runs of the PPP framing driver, and its theorems at concrete inputs.
use liquorice.Base.{
  ℕ, ◌-◌, ◌^◌, ◌≡◌, refl, true, false, List, [], ◌∷◌, ◌++◌, some, arith, length, replicate,
  length-replicate, map,
}
use liquorice.Ahdlc.{Netbuf, Instance, Frame, mru, ppp_crc, instance_alloc, recv, delivery, push}
use liquorice.Ahdlc.Crc.{shift_bits, ppp_crc-shift_bits}
use liquorice.Ahdlc.Bounds.{HasBuffer, recv-HasBuffer}
use liquorice.Ahdlc.Encoding.{payload}
use liquorice.Ahdlc.RoundTrip.{contents, send_frames, send_frames-recv}

abbrev fresh : List ℕ
fresh = replicate mru 0

fresh_size : length fresh ≡ mru
fresh_size = length-replicate {A = ℕ} mru 0

abbrev attached : Instance
attached = record (instance_alloc fresh 0) { client = true }

abbrev echo : Netbuf
echo = record {
  datalink = 0xc0 ∷ 0x21 ∷ [];
  network = 0x7e ∷ 0x03 ∷ [];
  transport = [];
  application = [];
}

-- One octet, `0xff`, in the buffer.
abbrev short : Instance
short = record attached {
  recv_ignore = false;
  recv_octets = 1;
  recv_packet = 0xff ∷ replicate 1499 0;
}

short_size : length short.recv_packet ≡ mru
short_size = length-replicate {A = ℕ} 1500 0

escapes_flag : ppp_crc 1 ≡ 0x1189
unfolding ppp_crc
escapes_flag = refl

attached-HasBuffer : HasBuffer attached
unfolding instance_alloc
attached-HasBuffer = record { buffer = fresh_size; room = λ e. omega arith }

ppp_crc-shift_bits_example : ppp_crc 0x55 ≡ shift_bits 8 0x55
ppp_crc-shift_bits_example = ppp_crc-shift_bits 0x55 (omega arith)

recv-HasBuffer_example : HasBuffer (recv fresh attached (0x7e ∷ 0xff ∷ 0x7d ∷ 0x23 ∷ 0x7e ∷ [])).0
recv-HasBuffer_example =
    recv-HasBuffer fresh fresh_size attached (0x7e ∷ 0xff ∷ 0x7d ∷ 0x23 ∷ 0x7e ∷ [])
      attached-HasBuffer

short-HasBuffer : HasBuffer short
short-HasBuffer = record { buffer = short_size; room = λ e. omega arith }

abbrev wrapped : Frame
wrapped = record { octets = replicate 1498 0; size = 2 ^ 32 - 3 }

short-delivery : delivery short ≡ some wrapped
unfolding delivery instance_alloc
short-delivery = refl

send_frames-recv_example :
    map contents (recv fresh attached (send_frames 0 (echo ∷ echo ∷ []))).1
    ≡ map contents (push (delivery attached) []) ++ (payload echo ∷ payload echo ∷ [])
send_frames-recv_example =
    send_frames-recv 0 fresh fresh_size attached echo (echo ∷ []) attached-HasBuffer refl
      (omega arith)
