-- ===== src/Lcp/Outcome.antt =====
-- What `lcp_check_request()` of src/lib/ppp/ppp.c makes of a list of options.
use liquorice.Base.{
  ℕ, zero, suc, ◌+◌, ◌-◌, ◌≤◌, ◌≡◌, refl, ap, ◌∙◌, sym, subst, false, ◌||◌, List, [], ◌∷◌, ◌++◌,
  append_assoc, append-nil, arith, ltb, leb, ◌==◌, if◌then◌else◌, Bool-cases, inl, inr, length,
  length-append,
}
use liquorice.Octets.{Holds, Holds-append}
use liquorice.Control.Replies.{
  Reply, frame_rej, frame_nak, frame_ack, usage_ack, usage_nak, usage_rej,
}
use liquorice.Lcp.Instance.{Link}
use liquorice.Lcp.Parse.{check_option, check_options}
use liquorice.Lcp.Options.{Opt, encode_opts}
use liquorice.Lcp.Verdict.{verdict, acked, naked, rejed, check_option-IsFramed}

abbrev pub worst : ℕ → List Opt → ℕ
worst v [] = v
worst v (o ∷ os) = worst (if ltb v (verdict o) then verdict o else v) os

abbrev pub rejected : List Opt → List Opt
rejected [] = []
rejected (o ∷ os) = if verdict o == usage_rej then o ∷ rejected os else rejected os

worst-le : (v : ℕ) (os : List Opt) → v ≤ worst v os
worst-le v [] = omega arith
worst-le v (o ∷ os) =
    let up = worst-le (if ltb v (verdict o) then verdict o else v) os in
    elim (Bool-cases (ltb v (verdict o))) [ inl e ↦ ground arith | inr e ↦ ground arith ]

-- The octets of a reply that has rejected an option.
abbrev pub kept : Reply → List ℕ
kept r = if r.parse_state == usage_rej then r.options else []

-- What the options make of a reply: the worst of their verdicts and its code, with all of them as long as
-- it is an acknowledgement, and with the rejected ones once it is a rejection.
abbrev pub Outcome : List Opt → Reply → Reply → Type 0
Outcome os r r' =
    (r'.parse_state ≡ worst r.parse_state os)
    × ((r'.code ≡ 2 + r'.parse_state)
        × ((r'.parse_state ≡ usage_ack → r'.options ≡ r.options ++ encode_opts os)
            × (kept r' ≡ kept r ++ encode_opts (rejected os))))

abbrev pub IsReply : Reply → Type 0
IsReply r = (r.parse_state ≤ usage_rej) × (r.code ≡ 2 + r.parse_state)

frame_ack-Outcome :
    (o : Opt) (r : Reply)
    → IsReply r
    → verdict o ≡ usage_ack
    → Outcome (o ∷ []) r (frame_ack r o.type_ (2 + length o.data_) o.data_)
unfolding frame_ack
frame_ack-Outcome o r v w =
    let keep : (verdict o == usage_rej) ≡ false = ground arith in
    let low : ltb r.parse_state (verdict o) ≡ false = ground arith in
    elim (Bool-cases (leb r.parse_state usage_ack)) [
      | inl e ↦ rw keep rw low rw e grind (arith, append-nil)
      | inr e ↦ rw keep rw low rw e grind (arith, append-nil)
    ]

frame_nak-Outcome :
    (o : Opt) (r : Reply) (proposal : List ℕ)
    → IsReply r
    → verdict o ≡ usage_nak
    → Outcome (o ∷ []) r (frame_nak r o.type_ (2 + length o.data_) proposal)
unfolding frame_nak
frame_nak-Outcome o r proposal v w =
    let keep : (verdict o == usage_rej) ≡ false = ground arith in
    elim (Bool-cases (ltb r.parse_state usage_nak)) [
      | inl e ↦ rw keep rw w rw e grind (arith, append-nil)
      | inr e ↦ rw keep rw w rw e grind (arith, append-nil)
    ]

frame_rej-Outcome :
    (o : Opt) (r : Reply)
    → IsReply r
    → verdict o ≡ usage_rej
    → Outcome (o ∷ []) r (frame_rej r o.type_ (2 + length o.data_) o.data_)
unfolding frame_rej
frame_rej-Outcome o r v w = elim (Bool-cases (ltb r.parse_state usage_rej)) [
  | inl e ↦ rw w rw e grind (arith, append-nil)
  | inr e ↦ rw w rw e grind (arith, append-nil)
]

rejected-cons :
    (o : Opt) (os : List Opt) (octets : List ℕ)
    → octets ++ encode_opts (rejected (o ∷ [])) ++ encode_opts (rejected os)
      ≡ octets ++ encode_opts (rejected (o ∷ os))
rejected-cons o os octets = elim (Bool-cases (verdict o == usage_rej)) [
  | inl e ↦ rw e simp (append_assoc, append-nil)
  | inr e ↦ rw e simp (append_assoc, append-nil)
]

check_option-Outcome :
    (stack mem : ℕ → ℕ) (buf : ℕ) (o : Opt) (pi : Link) (r : Reply)
    → Holds mem buf o.data_
    → IsReply r
    → Outcome (o ∷ []) r (check_option stack mem buf o.type_ (2 + length o.data_) (pi, r)).1
check_option-Outcome stack mem buf o pi r h v =
    elim (check_option-IsFramed stack mem buf o pi r h) [
      | acked w e ↦ subst (Outcome (o ∷ []) r) (sym e) (frame_ack-Outcome o r v w)
      | naked proposal w e ↦ subst (Outcome (o ∷ []) r) (sym e) (frame_nak-Outcome o r proposal v w)
      | rejed w e ↦ subst (Outcome (o ∷ []) r) (sym e) (frame_rej-Outcome o r v w)
    ]

Outcome-cons :
    (o : Opt) (os : List Opt) (r r₁ r' : Reply)
    → Outcome (o ∷ []) r r₁
    → Outcome os r₁ r'
    → Outcome (o ∷ os) r r'
Outcome-cons o os r r₁ r' first rest =
    let up = worst-le r₁.parse_state os in
    let state : r'.parse_state ≡ worst r.parse_state (o ∷ os) =
      rest.0 ∙ ap (λ v. worst v os) first.0 in
    let acks : r'.parse_state ≡ usage_ack → r'.options ≡ r.options ++ encode_opts (o ∷ os) = λ e.
      let e₁ : r₁.parse_state ≡ usage_ack = grind (arith, rest.0) in
      rest.1.1.0 e
      ∙ ap (λ xs. xs ++ encode_opts os) (first.1.1.0 e₁)
      ∙ simp (append_assoc, append-nil) in
    let keeps : kept r' ≡ kept r ++ encode_opts (rejected (o ∷ os)) =
      rest.1.1.1
      ∙ ap (λ xs. xs ++ encode_opts (rejected os)) first.1.1.1
      ∙ rejected-cons o os (kept r) in
    (state, (rest.1.0, (acks, keeps)))

Outcome-IsReply : (o : Opt) (r r' : Reply) → IsReply r → Outcome (o ∷ []) r r' → IsReply r'
Outcome-IsReply o r r' v out = (ground arith, out.1.0)

pub check_options-step :
    (stack mem : ℕ → ℕ) (o : Opt) (fuel sz buf : ℕ) (pi : Link) (r : Reply)
    → mem buf ≡ o.type_
    → mem (buf + 1) ≡ 2 + length o.data_
    → 2 + length o.data_ ≤ sz
    → check_options stack mem (suc fuel) sz buf (pi, r)
      ≡ check_options stack mem fuel
          (sz - (2 + length o.data_))
          (buf + (2 + length o.data_))
          (check_option stack mem (buf + 2) o.type_ (2 + length o.data_) (pi, r))
unfolding check_options
check_options-step stack mem o fuel sz buf pi r t l fits =
    let some_ : ltb sz 2 ≡ false = ground arith in
    let holds_ : (ltb sz (2 + length o.data_) || ltb (2 + length o.data_) 2) ≡ false =
      ground arith in
    rw t rw l rw some_ rw holds_ refl

pub check_options-Outcome :
    (stack mem : ℕ → ℕ) (os : List Opt) (fuel buf : ℕ) (pi : Link) (r : Reply)
    → length (encode_opts os) ≤ fuel
    → Holds mem buf (encode_opts os)
    → IsReply r
    → Outcome os r (check_options stack mem fuel (length (encode_opts os)) buf (pi, r)).1
unfolding check_options
check_options-Outcome stack mem [] zero buf pi r f h v = grind (arith, append-nil)
check_options-Outcome stack mem [] (suc fuel) buf pi r f h v = grind (arith, append-nil)
check_options-Outcome stack mem (o ∷ os) zero buf pi r f h v = ground arith
check_options-Outcome stack mem (o ∷ os) (suc fuel) buf pi r f h v =
    let total = length-append o.data_ (encode_opts os) in
    let sz = length (encode_opts (o ∷ os)) in
    let optsz = 2 + length o.data_ in
    let rest_size : sz - optsz ≡ length (encode_opts os) = ground arith in
    let inside = subst (λ at. Holds mem at (o.data_ ++ encode_opts os)) (omega arith) h.1.1 in
    let (here, back) = Holds-append mem (buf + 2) o.data_ (encode_opts os) inside in
    let back' : Holds mem (buf + optsz) (encode_opts os) =
      subst (λ at. Holds mem at (encode_opts os)) (omega arith) back in
    let (pi₁, r₁) = check_option stack mem (buf + 2) o.type_ optsz (pi, r) in
    let first = check_option-Outcome stack mem (buf + 2) o pi r here v in
    let fits : length (encode_opts os) ≤ fuel = ground arith in
    let rest =
      check_options-Outcome stack mem os fuel (buf + optsz) pi₁ r₁ fits back'
        (Outcome-IsReply o r r₁ v first) in
    let step = check_options-step stack mem o fuel sz buf pi r h.0 h.1.0 (ground arith) in
    let rest' =
      subst (λ n. Outcome os r₁ (check_options stack mem fuel n (buf + optsz) (pi₁, r₁)).1)
        (sym rest_size) rest in
    subst (λ out. Outcome (o ∷ os) r out.1) (sym step)
      (Outcome-cons o os r r₁ (check_options stack mem fuel (sz - optsz) (buf + optsz) (pi₁, r₁)).1
        first rest')
