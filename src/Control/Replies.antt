-- ===== src/Control/Replies.antt =====
-- Replies to a configure-request, as src/lib/ppp/ppp.c and src/lib/ppp_ip/ppp_ip.c both frame them. A reply
-- is the list of the octets written, which the code starts anew at `reply_start` when its verdict changes.
use liquorice.Base.{ℕ, List, [], ◌∷◌, ◌++◌, get_or, ltb, leb, if◌then◌else◌}
use liquorice.Octets.{slice}

-- `PPP_USAGE_ACK`, `PPP_USAGE_NAK` and `PPP_USAGE_REJ`.
abbrev pub usage_ack : ℕ
usage_ack = 0

abbrev pub usage_nak : ℕ
usage_nak = 1

abbrev pub usage_rej : ℕ
usage_rej = 2

-- `pi_parse_state`, with the reply's code and its octets from `reply_start` on.
pub record Reply : Type 0 where
  pub parse_state : ℕ
  pub code : ℕ
  pub options : List ℕ

abbrev pub append_option : Reply → ℕ → ℕ → List ℕ → Reply
append_option r opt optsz octets = record r { options = r.options ++ opt ∷ optsz ∷ octets }

unfoldable pub frame_rej : Reply → ℕ → ℕ → List ℕ → Reply
frame_rej r opt optsz octets =
    append_option
      (if ltb r.parse_state usage_rej
        then record { parse_state = usage_rej; code = 4; options = [] }
        else r)
      opt optsz octets

unfoldable pub frame_nak : Reply → ℕ → ℕ → List ℕ → Reply
frame_nak r opt optsz octets =
    let r' : Reply =
      if ltb r.parse_state usage_nak
      then record { parse_state = usage_nak; code = 3; options = [] }
      else r in
    if leb r'.parse_state usage_nak then append_option r' opt optsz octets else r'

unfoldable pub frame_ack : Reply → ℕ → ℕ → List ℕ → Reply
frame_ack r opt optsz octets =
    if leb r.parse_state usage_ack then append_option r opt optsz octets else r

-- `memcpy()` of `n` octets from a local variable, with what the stack has behind it.
abbrev pub copy_local : List ℕ → (ℕ → ℕ) → ℕ → List ℕ
copy_local octets stack n = slice (λ i. get_or octets i (stack i)) 0 n
