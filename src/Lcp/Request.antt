-- ===== src/Lcp/Request.antt =====
-- What the link answers to a configure-request, src/lib/ppp/ppp.c.
use liquorice.Base.{
  ℕ, zero, suc, ◌+◌, ◌-◌, ◌%◌, ◌/◌, ◌^◌, ◌≤◌, ◌<◌, ◌≡◌, refl, ap, ◌∙◌, sym, subst, true, ◌||◌, List,
  [], ◌∷◌, ◌++◌, append-nil, arith, leb, ◌==◌, if◌then◌else◌, Bool-cases, inl, inr, length, bit_and,
}
use liquorice.Octets.{read16, read32, octets16, octets32, Holds, Holds-append}
use liquorice.Control.Replies.{Reply, frame_ack, append_option, usage_ack, usage_rej}
use liquorice.Lcp.Instance.{Link}
use liquorice.Lcp.Parse.{accm_mask, check_option, check_options, check_request}
use liquorice.Lcp.Options.{Opt, encode_opt, encode_opts}
use liquorice.Lcp.Outcome.{worst, rejected, check_options-Outcome, check_options-step}
use liquorice.Lcp.Instance.{build_req, build_mru, build_accm}

-- The octets of a reply with that verdict.
abbrev pub octets_in : ℕ → Reply → List ℕ
octets_in v r = if r.parse_state == v then r.options else []

-- A configure-request whose options are framed right has the worst of their verdicts for an answer, and the
-- answer's code goes with it. An acknowledgement repeats the options octet for octet, and a rejection has
-- the rejected options, all of them and no other, octet for octet and in their order; options are rejected
-- in no other answer.
pub check_request-outcome :
    (stack mem : ℕ → ℕ) (os : List Opt) (buf : ℕ) (pi : Link)
    → Holds mem buf (encode_opts os)
    → let r = (check_request stack mem (length (encode_opts os)) buf pi).1 in
      (r.parse_state ≡ worst usage_ack os)
      × ((r.code ≡ 2 + r.parse_state)
          × ((octets_in usage_ack r
                ≡ (if worst usage_ack os == usage_ack then encode_opts os else []))
              × (octets_in usage_rej r ≡ encode_opts (rejected os))))
unfolding check_request
check_request-outcome stack mem os buf pi h =
    let fresh : Reply = record { parse_state = usage_ack; code = 2; options = [] } in
    let (pi', r) = check_request stack mem (length (encode_opts os)) buf pi in
    let out =
      check_options-Outcome stack mem os (length (encode_opts os)) buf pi fresh (omega arith) h
        (omega arith, refl) in
    let acks : octets_in usage_ack r
        ≡ (if worst usage_ack os == usage_ack then encode_opts os else []) =
      elim (Bool-cases (worst usage_ack os == usage_ack)) [
        | inl e ↦
            let same : r.parse_state ≡ usage_ack = grind (arith, out.0) in
            rw out.0 rw e (out.1.1.0 same)
        | inr e ↦ rw out.0 rw e refl
      ] in
    (out.0, (out.1.0, (acks, out.1.1.1)))

-- The options that a link adopts from a request which another built.
abbrev pub adopted : Link → Link → Link
adopted pi peer = record pi {
  mru = if peer.mru_usage == usage_ack then peer.mru else pi.mru;
  accm = if peer.accm_usage == usage_ack then peer.accm else pi.accm;
}

mru-check_option :
    (stack mem : ℕ → ℕ) (buf n : ℕ) (pi : Link) (r : Reply)
    → n < 2 ^ 16
    → Holds mem buf (octets16 n)
    → check_option stack mem buf 1 4 (pi, r) ≡ (record pi { mru = n }, frame_ack r 1 4 (octets16 n))
unfolding check_option
mru-check_option stack mem buf n pi r bound h =
    let any : (leb 64 (read16 mem buf) || leb (read16 mem buf) 1500) ≡ true = ground arith in
    let value : read16 mem buf ≡ n = omega arith in rw any rw value rw h.0 rw h.1.0 refl

accm-check_option :
    (stack mem : ℕ → ℕ) (buf n : ℕ) (pi : Link) (r : Reply)
    → n < 2 ^ 32
    → bit_and n accm_mask ≡ accm_mask
    → Holds mem buf (octets32 n)
    → check_option stack mem buf 2 6 (pi, r)
      ≡ (record pi { accm = n }, frame_ack r 2 6 (octets32 n))
unfolding check_option
accm-check_option stack mem buf n pi r bound masked h =
    let third : mem (buf + 2) ≡ n / 2 ^ 8 % 2 ^ 8 = ap mem (omega arith) ∙ h.1.1.0 in
    let fourth : mem (buf + 3) ≡ n % 2 ^ 8 = ap mem (omega arith) ∙ h.1.1.1.0 in
    let value : read32 mem buf ≡ n = omega arith in
    let good : (bit_and n accm_mask == accm_mask) ≡ true = ground arith in
    rw value rw good rw h.0 rw h.1.0 rw h.1.1.0 rw h.1.1.1.0 refl

frame_ack-lem :
    (r : Reply) (opt optsz : ℕ) (octets : List ℕ)
    → r.parse_state ≡ usage_ack
    → frame_ack r opt optsz octets ≡ append_option r opt optsz octets
unfolding frame_ack
frame_ack-lem r opt optsz octets e =
    let low : leb r.parse_state usage_ack ≡ true = ground arith in rw low refl

check_options-nil :
    (stack mem : ℕ → ℕ) (fuel buf : ℕ) (pi : Link) (r : Reply)
    → check_options stack mem fuel 0 buf (pi, r) ≡ (pi, r)
unfolding check_options
check_options-nil stack mem zero buf pi r = refl
check_options-nil stack mem (suc fuel) buf pi r = refl

build_accm-check_options :
    (stack mem : ℕ → ℕ) (fuel buf : ℕ) (pi peer : Link) (r : Reply)
    → length (build_accm peer) ≤ fuel
    → peer.accm < 2 ^ 32
    → bit_and peer.accm accm_mask ≡ accm_mask
    → Holds mem buf (build_accm peer)
    → r.parse_state ≡ usage_ack
    → check_options stack mem fuel (length (build_accm peer)) buf (pi, r) ≡ (
      record pi { accm = if peer.accm_usage == usage_ack then peer.accm else pi.accm },
      record r { options = r.options ++ build_accm peer },
    )
unfolding frame_ack
build_accm-check_options stack mem zero buf pi peer r f a masked h e =
    elim (Bool-cases (peer.accm_usage == usage_ack)) [
      | inl u ↦
          let same : build_accm peer ≡ 2 ∷ 6 ∷ octets32 peer.accm = rw u refl in
          let f' : 6 ≤ 0 = subst (λ octets. length octets ≤ 0) same f in ground arith
      | inr u ↦ rw u (
          check_options-nil stack mem zero buf pi r
          ∙ ap (λ octets. (pi, record r { options = octets })) (sym (append-nil r.options)))
    ]
build_accm-check_options stack mem (suc fuel) buf pi peer r f a masked h e =
    elim (Bool-cases (peer.accm_usage == usage_ack)) [
      | inl u ↦
          let o : Opt = record { type_ = 2; data_ = octets32 peer.accm } in
          let same : build_accm peer ≡ encode_opt o = rw u refl in
          let h' : Holds mem buf (encode_opt o) = subst (Holds mem buf) same h in
          let inside : Holds mem (buf + 2) (octets32 peer.accm) =
            subst (λ at. Holds mem at (octets32 peer.accm)) (omega arith) h'.1.1 in
          rw u (
            check_options-step stack mem o fuel 6 buf pi r h'.0 h'.1.0 (omega arith)
            ∙ ap (check_options stack mem fuel 0 (buf + 6))
                (accm-check_option stack mem (buf + 2) peer.accm pi r a masked inside)
            ∙ check_options-nil stack mem fuel (buf + 6) (record pi { accm = peer.accm })
                (frame_ack r 2 6 (octets32 peer.accm))
            ∙ ap (λ r'. (record pi { accm = peer.accm }, r'))
                (frame_ack-lem r 2 6 (octets32 peer.accm) e))
      | inr u ↦ rw u (
          check_options-nil stack mem (suc fuel) buf pi r
          ∙ ap (λ octets. (pi, record r { options = octets })) (sym (append-nil r.options)))
    ]

-- Any configure-request that a link builds, with a maximum receive unit of 16 bits and a control character
-- map of 32 bits that has the bits of the mask, is acknowledged octet for octet by the link that receives
-- it, which then has the sender's values of the options that were requested.
pub build_req-check_request :
    (stack mem : ℕ → ℕ) (buf : ℕ) (pi peer : Link)
    → peer.mru < 2 ^ 16
    → peer.accm < 2 ^ 32
    → bit_and peer.accm accm_mask ≡ accm_mask
    → Holds mem buf (build_req peer)
    → check_request stack mem (length (build_req peer)) buf pi
      ≡ (adopted pi peer, record { parse_state = usage_ack; code = 2; options = build_req peer })
unfolding check_request build_req frame_ack
build_req-check_request stack mem buf pi peer m a masked h =
    let fresh : Reply = record { parse_state = usage_ack; code = 2; options = [] } in
    let tail = build_accm peer in
    elim (Bool-cases (peer.mru_usage == usage_ack)) [
      | inl u ↦
          let o : Opt = record { type_ = 1; data_ = octets16 peer.mru } in
          let same : build_mru peer ≡ encode_opt o = rw u refl in
          let h' : Holds mem buf (encode_opt o ++ tail) =
            subst (λ front. Holds mem buf (front ++ tail)) same h in
          let (front, back) = Holds-append mem buf (encode_opt o) tail h' in
          let inside : Holds mem (buf + 2) (octets16 peer.mru) =
            subst (λ at. Holds mem at (octets16 peer.mru)) (omega arith) front.1.1 in
          let fuel = suc (suc (suc (length tail))) in
          let less : suc fuel - 4 ≡ length tail = omega arith in
          rw u (
            check_options-step stack mem o fuel (suc fuel) buf pi fresh front.0 front.1.0
              (omega arith)
            ∙ ap
                (λ n.
                  check_options stack mem fuel n (buf + 4)
                    (check_option stack mem (buf + 2) 1 4 (pi, fresh)))
                less
            ∙ ap (check_options stack mem fuel (length tail) (buf + 4))
                (mru-check_option stack mem (buf + 2) peer.mru pi fresh m inside)
            ∙ build_accm-check_options stack mem fuel (buf + 4) (record pi { mru = peer.mru }) peer
                (append_option fresh 1 4 (octets16 peer.mru)) (omega arith) a masked back refl)
      | inr u ↦
          let same : build_mru peer ≡ [] = rw u refl in
          let h' = subst (λ front. Holds mem buf (front ++ tail)) same h in
          rw u (
            build_accm-check_options stack mem (length tail) buf pi peer fresh (omega arith) a
              masked h' refl)
    ]
