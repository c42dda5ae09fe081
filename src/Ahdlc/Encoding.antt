-- ===== src/Ahdlc/Encoding.antt =====
-- The framing of a packet as one pass over the octets of the whole frame.
use liquorice.Base.{
  ℕ, ◌-◌, ◌/◌, ◌%◌, ◌^◌, ◌<◌, ◌≡◌, refl, ap, ◌∙◌, List, [], ◌∷◌, ◌++◌, arith, lt→ltb, length,
  append_assoc,
}
use liquorice.Ahdlc.{
  Netbuf, ppp_flag, update_crc, encode, send_sequence, send_layer, send_optional, send_packet,
}
use liquorice.Ahdlc.Crc.{crc_of, crc_of-append}

-- The octets of a packet, and a packet each of whose layers has a size that fits `u16_t`.
abbrev pub payload : Netbuf → List ℕ
payload nb = nb.datalink ++ (nb.network ++ (nb.transport ++ nb.application))

abbrev pub FitsU16 : Netbuf → Type 0
FitsU16 nb =
    (length nb.datalink < 2 ^ 16)
    × (length nb.network < 2 ^ 16)
    × (length nb.transport < 2 ^ 16)
    × (length nb.application < 2 ^ 16)

abbrev pub encode_all : ℕ → List ℕ → List ℕ
encode_all accm [] = []
encode_all accm (ch ∷ chs) = encode accm ch ++ encode_all accm chs

-- What is sent before the check sequence, and the check sequence itself.
abbrev pub body : Netbuf → List ℕ
body nb = 0xff ∷ 0x03 ∷ payload nb

abbrev pub checked : List ℕ → List ℕ
checked xs =
    let crc = 2 ^ 16 - 1 - crc_of 0xffff xs in xs ++ (crc % 2 ^ 8) ∷ (crc / 2 ^ 8 % 2 ^ 8) ∷ []

module _ (accm : ℕ) where
  encode_all-append :
      (xs ys : List ℕ) → encode_all accm (xs ++ ys) ≡ encode_all accm xs ++ encode_all accm ys
  encode_all-append [] ys = refl
  encode_all-append (x ∷ xs) ys =
      ap (λ zs. encode accm x ++ zs) (encode_all-append xs ys) ∙ rw append_assoc

  send_sequence-encode_all :
      (xs : List ℕ) (crc : ℕ)
      → send_sequence xs (length xs) accm crc ≡ (encode_all accm xs, crc_of crc xs)
  unfolding send_sequence crc_of
  send_sequence-encode_all [] crc = refl
  send_sequence-encode_all (x ∷ xs) crc =
      ap (λ r. (encode accm x ++ r.0, r.1)) (send_sequence-encode_all xs (update_crc crc x))

  send_layer-encode_all :
      (xs : List ℕ) (crc : ℕ)
      → length xs < 2 ^ 16
      → send_layer xs accm crc ≡ (encode_all accm xs, crc_of crc xs)
  unfolding send_layer
  send_layer-encode_all xs crc h =
      ap (λ n. send_sequence xs n accm crc) (omega arith) ∙ send_sequence-encode_all xs crc

  send_optional-encode_all :
      (xs : List ℕ) (crc : ℕ)
      → length xs < 2 ^ 16
      → send_optional xs accm crc ≡ (encode_all accm xs, crc_of crc xs)
  unfolding send_optional crc_of
  send_optional-encode_all [] crc h = refl
  send_optional-encode_all (x ∷ xs) crc h =
      rw (lt→ltb 0 (length (x ∷ xs)) (omega arith)) (send_layer-encode_all (x ∷ xs) crc h)

  -- With a layer of less than 65536 octets each, what is sent for a packet is one pass over the
  -- frame: the header, the layers, and the complement of the check sequence, low octet first.
  pub send_packet-encode_all :
      (nb : Netbuf)
      → FitsU16 nb
      → send_packet accm nb ≡ ppp_flag ∷ (encode_all accm (checked (body nb)) ++ ppp_flag ∷ [])
  unfolding send_packet crc_of
  send_packet-encode_all nb (h0, h1, h2, h3) =
      rw
        (
          send_layer-encode_all nb.datalink _ h0,
          send_layer-encode_all nb.network _ h1,
          send_optional-encode_all nb.transport _ h2,
          send_optional-encode_all nb.application _ h3,
        )
        (simp (append_assoc, encode_all-append, crc_of-append))
