-- ===== src/Lcp/Parse.antt =====
-- The options of a received packet, as src/lib/ppp/ppp.c checks them.
use liquorice.Base.{ℕ, zero, suc, ◌+◌, ◌-◌, bit_and, ◌&&◌, ◌||◌, [], ltb, leb, ◌==◌, if◌then◌else◌}
use liquorice.Octets.{octets16, octets32, read16, read32, slice}
use liquorice.Control.Replies.{
  usage_ack, usage_nak, usage_rej, Reply, copy_local, frame_rej, frame_nak, frame_ack,
}
use liquorice.Lcp.Instance.{Link}

abbrev pub accm_mask : ℕ
accm_mask = 0xff0f0f0f

-- The `switch` of `lcp_check_request()`, with `buf` the offset behind the option's size.
unfoldable pub check_option : (ℕ → ℕ) → (ℕ → ℕ) → ℕ → ℕ → ℕ → Link × Reply → Link × Reply
check_option stack mem buf opt optsz (pi, r) =
    let copied = slice mem buf (optsz - 2) in
    let mru = read16 mem buf in
    let accm = read32 mem buf in
    if opt == 0x01
    then (if (optsz == 4) && (leb 64 mru || leb mru 1500)
        then (record pi { mru = mru }, frame_ack r opt optsz copied)
        else (pi, frame_nak r opt optsz (copy_local (octets16 pi.mru) stack (optsz - 2))))
    else if opt == 0x02
    then (if (optsz == 6) && (bit_and accm accm_mask == accm_mask)
        then (record pi { accm = accm }, frame_ack r opt optsz copied)
        else (pi, frame_nak r opt optsz (copy_local (octets32 accm_mask) stack (optsz - 2))))
    else (pi, frame_rej r opt optsz copied)

-- The loop of `lcp_check_request()`, of at most `fuel` rounds.
unfoldable pub check_options : (ℕ → ℕ) → (ℕ → ℕ) → (fuel : ℕ) → ℕ → ℕ → Link × Reply → Link × Reply
unfolding check_option
check_options stack mem zero sz buf state = state
check_options stack mem (suc fuel) sz buf (pi, r) =
    let opt = mem buf in
    let optsz = mem (buf + 1) in
    let rest =
      check_options stack mem fuel (sz - optsz) (buf + optsz)
        (check_option stack mem (buf + 2) opt optsz (pi, r)) in
    if ltb sz 2
    then (pi, r)
    else if ltb sz optsz || ltb optsz 2
    then (pi, frame_rej r opt 2 [])
    else rest

-- `lcp_check_request()` with the code and the options of its reply.
unfoldable pub check_request : (ℕ → ℕ) → (ℕ → ℕ) → ℕ → ℕ → Link → Link × Reply
unfolding check_options
check_request stack mem sz buf pi =
    check_options stack mem sz sz buf
      (pi, record { parse_state = usage_ack; code = 2; options = [] })

-- The `switch` of `lcp_check_ack()`.
unfoldable pub ack_option : (ℕ → ℕ) → ℕ → ℕ → ℕ → Link → Link
ack_option mem buf opt optsz pi =
    let mru = read16 mem buf in
    let accm = read32 mem buf in
    if (opt == 0x01) && (optsz == 4)
    then (if leb 64 mru || leb mru 1500
        then record pi { mru = mru; mru_usage = usage_ack }
        else record pi { mru_usage = usage_nak })
    else if (opt == 0x02) && (optsz == 6)
    then (if bit_and accm accm_mask == accm_mask
        then record pi { accm = accm; accm_usage = usage_ack }
        else record pi { accm_usage = usage_nak })
    else pi

-- The `switch` of `lcp_check_reject()`.
unfoldable pub reject_option : (ℕ → ℕ) → ℕ → ℕ → ℕ → Link → Link
reject_option mem buf opt optsz pi =
    if opt == 0x01
    then record pi { mru_usage = usage_rej }
    else if opt == 0x02
    then record pi { accm_usage = usage_rej }
    else pi

-- The loop that `lcp_check_ack()` and `lcp_check_reject()` share, of at most `fuel` rounds.
unfoldable pub walk_options :
    {Options : Type 0}
    → (ℕ → ℕ → ℕ → Options → Options)
    → (ℕ → ℕ)
    → (fuel : ℕ) → ℕ
    → ℕ
    → Options
    → Options
walk_options use_option mem zero sz buf pi = pi
walk_options use_option mem (suc fuel) sz buf pi =
    let opt = mem buf in
    let optsz = mem (buf + 1) in
    let rest =
      walk_options use_option mem fuel (sz - optsz) (buf + optsz)
        (use_option (buf + 2) opt optsz pi) in
    if ltb sz 2 || (ltb sz optsz || ltb optsz 2) then pi else rest

unfoldable pub check_ack : (ℕ → ℕ) → ℕ → ℕ → Link → Link
unfolding walk_options ack_option
check_ack mem sz buf pi = walk_options (ack_option mem) mem sz sz buf pi

unfoldable pub check_reject : (ℕ → ℕ) → ℕ → ℕ → Link → Link
unfolding walk_options reject_option
check_reject mem sz buf pi = walk_options (reject_option mem) mem sz sz buf pi
