-- ===== src/Lcp/Verdict.antt =====
-- What `lcp_check_request()` of src/lib/ppp/ppp.c makes of one option.
use liquorice.Base.{
  ℕ, ◌+◌, ◌-◌, ◌≡◌, refl, true, false, ◌||◌, ◌&&◌, List, arith, leb, ◌==◌, if◌then◌else◌,
  Bool-cases, inl, inr, length, bit_and,
}
use liquorice.Octets.{read16, read32, octets16, octets32, Holds}
use liquorice.Control.Replies.{
  Reply, frame_rej, frame_nak, frame_ack, usage_ack, usage_nak, usage_rej, copy_local,
}
use liquorice.Lcp.Instance.{Link}
use liquorice.Lcp.Parse.{accm_mask, check_option}
use liquorice.Lcp.Options.{Opt, number, read32-number, slice-data}

-- What the link thinks of an option: the maximum receive unit with two octets and a control character map
-- with four that has the bits of the mask are accepted, these two are else refused by a proposal, and other
-- options are rejected.
abbrev pub verdict : Opt → ℕ
verdict o =
    if o.type_ == 1
    then (if length o.data_ == 2 then usage_ack else usage_nak)
    else if o.type_ == 2
    then (if (length o.data_ == 4) && (bit_and (number 0 o.data_) accm_mask == accm_mask)
        then usage_ack
        else usage_nak)
    else usage_rej

-- Which of the three frames an option takes.
pub data IsFramed (o : Opt) (r r' : Reply) : Type 0 where
  acked :
      verdict o ≡ usage_ack
      → r' ≡ frame_ack r o.type_ (2 + length o.data_) o.data_
      → IsFramed o r r'
  naked :
      (proposal : List ℕ)
      → verdict o ≡ usage_nak
      → r' ≡ frame_nak r o.type_ (2 + length o.data_) proposal
      → IsFramed o r r'
  rejed :
      verdict o ≡ usage_rej
      → r' ≡ frame_rej r o.type_ (2 + length o.data_) o.data_
      → IsFramed o r r'

accm-IsFramed :
    (stack mem : ℕ → ℕ) (buf : ℕ) (o : Opt) (pi : Link) (r : Reply)
    → Holds mem buf o.data_
    → (o.type_ == 1) ≡ false
    → (o.type_ == 2) ≡ true
    → IsFramed o r (check_option stack mem buf o.type_ (2 + length o.data_) (pi, r)).1
unfolding check_option
accm-IsFramed stack mem buf o pi r h one two =
    let same = slice-data mem buf o h in
    let accm = read32 mem buf in
    let good = ((2 + length o.data_) == 6) && (bit_and accm accm_mask == accm_mask) in
    let proposal = copy_local (octets32 accm_mask) stack (2 + length o.data_ - 2) in
    elim (Bool-cases good) [
      | inl e ↦
          let four : length o.data_ ≡ 4 = ground arith in
          let value = read32-number mem buf o.data_ h four in
          acked (ground arith) (rw one rw two rw e rw same refl)
      | inr e ↦ elim (Bool-cases (length o.data_ == 4)) [
        | inl fits ↦
            let four : length o.data_ ≡ 4 = ground arith in
            let value = read32-number mem buf o.data_ h four in
            naked proposal (ground arith) (rw one rw two rw e refl)
        | inr fits ↦ naked proposal (ground arith) (rw one rw two rw e refl)
      ]
    ]

pub check_option-IsFramed :
    (stack mem : ℕ → ℕ) (buf : ℕ) (o : Opt) (pi : Link) (r : Reply)
    → Holds mem buf o.data_
    → IsFramed o r (check_option stack mem buf o.type_ (2 + length o.data_) (pi, r)).1
unfolding check_option
check_option-IsFramed stack mem buf o pi r h =
    let same = slice-data mem buf o h in
    let optsz = 2 + length o.data_ in
    let any : (leb 64 (read16 mem buf) || leb (read16 mem buf) 1500) ≡ true = ground arith in
    elim (Bool-cases (o.type_ == 1)) [
      | inl one ↦ elim (Bool-cases (length o.data_ == 2)) [
        | inl two ↦
            let fits : (optsz == 4) ≡ true = ground arith in
            acked (ground arith) (rw one rw fits rw any rw same refl)
        | inr two ↦
            let fits : (optsz == 4) ≡ false = ground arith in
            naked (copy_local (octets16 pi.mru) stack (optsz - 2)) (ground arith)
              (rw one rw fits refl)
      ]
      | inr one ↦ elim (Bool-cases (o.type_ == 2)) [
        | inl two ↦ accm-IsFramed stack mem buf o pi r h one two
        | inr two ↦ rejed (ground arith) (rw one rw two rw same refl)
      ]
    ]
