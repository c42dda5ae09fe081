-- ===== src/Ipcp/Parse.antt =====
-- The options of a received packet, as src/lib/ppp_ip/ppp_ip.c checks them.
use liquorice.Base.{ℕ, zero, suc, ◌+◌, ◌-◌, ◌&&◌, ◌||◌, [], ltb, ◌==◌, if◌then◌else◌}
use liquorice.Octets.{read32, slice}
use liquorice.Control.Replies.{usage_ack, usage_rej, Reply, frame_rej, frame_ack}
use liquorice.Lcp.Parse.{walk_options}
use liquorice.Ipcp.Instance.{IpLink}

-- The `switch` of `ipcp_check_request()`, with `buf` the offset behind the option's size.
unfoldable pub check_option : (ℕ → ℕ) → ℕ → ℕ → ℕ → IpLink × Reply → IpLink × Reply
check_option mem buf opt optsz (pii, r) =
    let copied = slice mem buf (optsz - 2) in
    let addr = read32 mem buf in
    if opt == 0x03
    then (if optsz == 6
        then (record pii { remote_ip_addr = addr }, frame_ack r opt optsz copied)
        else (pii, r))
    else (pii, frame_rej r opt optsz copied)

-- The loop of `ipcp_check_request()`, of at most `fuel` rounds.
unfoldable pub check_options : (ℕ → ℕ) → (fuel : ℕ) → ℕ → ℕ → IpLink × Reply → IpLink × Reply
check_options mem zero sz buf state = state
check_options mem (suc fuel) sz buf (pii, r) =
    let opt = mem buf in
    let optsz = mem (buf + 1) in
    let rest =
      check_options mem fuel (sz - optsz) (buf + optsz)
        (check_option mem (buf + 2) opt optsz (pii, r)) in
    if ltb sz 2
    then (pii, r)
    else if ltb sz optsz || ltb optsz 2
    then (pii, frame_rej r opt 2 [])
    else rest

-- `ipcp_check_request()` with the code and the options of its reply.
unfoldable pub check_request : (ℕ → ℕ) → ℕ → ℕ → IpLink → IpLink × Reply
check_request mem sz buf pii =
    check_options mem sz sz buf (pii, record { parse_state = usage_ack; code = 2; options = [] })

-- The `switch` of `ipcp_check_ack()`.
unfoldable pub ack_option : (ℕ → ℕ) → ℕ → ℕ → ℕ → IpLink → IpLink
ack_option mem buf opt optsz pii =
    if (opt == 0x03) && (optsz == 6)
    then record pii { local_ip_addr = read32 mem buf; local_ip_addr_usage = usage_ack }
    else pii

-- The `switch` of `ipcp_check_reject()`.
unfoldable pub reject_option : ℕ → ℕ → ℕ → IpLink → IpLink
reject_option buf opt optsz pii =
    if opt == 0x03 then record pii { local_ip_addr_usage = usage_rej } else pii

unfoldable pub check_ack : (ℕ → ℕ) → ℕ → ℕ → IpLink → IpLink
check_ack mem sz buf pii = walk_options (ack_option mem) mem sz sz buf pii

unfoldable pub check_reject : (ℕ → ℕ) → ℕ → ℕ → IpLink → IpLink
check_reject mem sz buf pii = walk_options reject_option mem sz sz buf pii
