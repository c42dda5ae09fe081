-- ===== src/Slip/Encoding.antt =====
-- The SLIP encoder of a packet, as one pass over the octets of all of its layers.
use liquorice.Base.{
  ℕ, ◌^◌, ◌<◌, ◌≡◌, refl, ap, ◌∙◌, List, [], ◌∷◌, ◌++◌, arith, ltb, if◌then◌else◌, length,
  append_assoc,
}
use liquorice.Slip.{Netbuf, slip_end, encode, send_sequence, send_layer, send_packet}

-- The octets of a packet, and a packet each of whose layers has a size that fits `u16_t`.
abbrev pub payload : Netbuf → List ℕ
payload nb = nb.network ++ (nb.transport ++ nb.application)

abbrev pub encode_all : List ℕ → List ℕ
encode_all [] = []
encode_all (ch ∷ chs) = encode ch ++ encode_all chs

pub encode_all-append : (xs ys : List ℕ) → encode_all (xs ++ ys) ≡ encode_all xs ++ encode_all ys
encode_all-append [] ys = refl
encode_all-append (x ∷ xs) ys =
    ap (λ zs. encode x ++ zs) (encode_all-append xs ys) ∙ (rw append_assoc)

send_sequence-encode_all : (xs : List ℕ) → send_sequence xs (length xs) ≡ encode_all xs
unfolding send_sequence
send_sequence-encode_all [] = refl
send_sequence-encode_all (x ∷ xs) = ap (λ zs. encode x ++ zs) (send_sequence-encode_all xs)

send_layer-encode_all : (xs : List ℕ) → length xs < 2 ^ 16 → send_layer xs ≡ encode_all xs
unfolding send_layer
send_layer-encode_all xs h = ap (send_sequence xs) (omega arith) ∙ send_sequence-encode_all xs

-- An optional layer that is skipped has nothing to encode.
send_if-encode_all :
    (xs : List ℕ)
    → length xs < 2 ^ 16
    → (if ltb 0 (length xs) then send_layer xs else []) ≡ encode_all xs
send_if-encode_all [] h = refl
send_if-encode_all (x ∷ xs) h = ground (arith, send_layer-encode_all (x ∷ xs))

abbrev pub FitsU16 : Netbuf → Type 0
FitsU16 nb =
    (length nb.network < 2 ^ 16) × (length nb.transport < 2 ^ 16) × (length nb.application < 2 ^ 16)

pub send_packet-encode_all :
    (nb : Netbuf)
    → FitsU16 nb
    → send_packet nb ≡ slip_end ∷ (encode_all (payload nb) ++ slip_end ∷ [])
unfolding send_packet
send_packet-encode_all nb h =
    rw
      (
        send_layer-encode_all nb.network h.0,
        send_if-encode_all nb.transport h.1,
        send_if-encode_all nb.application h.2,
        encode_all-append nb.network,
        encode_all-append nb.transport,
      )
      (simp append_assoc)
