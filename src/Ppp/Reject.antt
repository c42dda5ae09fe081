-- ===== src/Ppp/Reject.antt =====
-- The length of a protocol-reject, src/lib/ppp/ppp.c.
use liquorice.Base.{
  ℕ, zero, suc, ◌+◌, ◌-◌, ◌*◌, ◌%◌, ◌^◌, ◌≤◌, ◌<◌, ◌≡◌, refl, ap, length, get_or, ltb,
  if◌then◌else◌, arith,
}
use liquorice.Octets.{slice}
use liquorice.Lcp.Instance.{Link}
use liquorice.Ppp.{protocol_reject}

length-slice : (mem : ℕ → ℕ) (i n : ℕ) → length (slice mem i n) ≡ n
length-slice mem i zero = refl
length-slice mem i (suc n) = ap suc (length-slice mem (i + 1) n)

-- Where the link's maximum receive unit is at least 16 and of 16 bits, a protocol-reject of a packet of any
-- size is at least ten octets shorter than it, and its length field has its length.
pub protocol_reject-length :
    (mem : ℕ → ℕ) (protocol at size : ℕ) (pi : Link)
    → 16 ≤ pi.mru
    → pi.mru < 2 ^ 16
    → let reject = protocol_reject mem protocol at size pi in
      (length reject + 10 ≤ pi.mru)
      × (get_or reject 2 0 * 2 ^ 8 + get_or reject 3 0 ≡ length reject)
unfolding protocol_reject
protocol_reject-length mem protocol at size pi low high =
    let len = size % 2 ^ 16 in
    let len' = if ltb pi.mru (len + 16) then (pi.mru + 2 ^ 16 - 16) % 2 ^ 16 else len in
    let size_ = length-slice mem at len' in (ground arith, ground arith)
