-- ===== src/Ahdlc/Collecting.antt =====
-- The framing receiver inside a frame: what stands in the buffer, octet by octet.
use liquorice.Base.{
  ℕ, suc, ◌+◌, ◌<◌, ◌≡◌, refl, ap, ◌∙◌, bit_xor, Bool, true, false, not, ◌&&◌, ◌||◌, List, [], ◌∷◌,
  ◌++◌, arith, ◌==◌, ltb, if◌then◌else◌, length, set, fill, append_assoc, inl, inr, Bool-cases, All,
  passes, passes_sound,
}
use liquorice.Ahdlc.{
  Netbuf, Instance, mru, ppp_flag, ppp_esc, update_crc, store, recv, is_escaped, encode,
}
use liquorice.Ahdlc.Crc.{crc_of}
use liquorice.Ahdlc.Encoding.{encode_all}

abbrev pub IsByte : ℕ → Type 0
IsByte ch = ch < 256

abbrev escapes : ℕ → Bool
escapes ch = ch == ppp_flag || (ch == ppp_esc || ltb ch 0x20)

is_restored : ℕ → Bool
is_restored ch =
    if escapes ch
    then (not (bit_xor ch 0x20 == ppp_flag)
        && (not (bit_xor ch 0x20 == ppp_esc) && bit_xor (bit_xor ch 0x20) 0x20 == ch))
    else true

escape_table : passes is_restored 256 ≡ true
unfolding passes is_restored
escape_table = refl

module _ (accm ch : ℕ) (byte : IsByte ch) where
  escaped :
      is_escaped accm ch ≡ true
      → ((bit_xor ch 0x20 == ppp_flag) ≡ false)
        × ((bit_xor ch 0x20 == ppp_esc) ≡ false)
        × (bit_xor (bit_xor ch 0x20) 0x20 ≡ ch)
  unfolding is_escaped is_restored
  escaped h = ground (arith, passes_sound _ 256 ch escape_table byte)

  clear : is_escaped accm ch ≡ false → ((ch == ppp_flag) ≡ false) × ((ch == ppp_esc) ≡ false)
  unfolding is_escaped
  clear h = ground arith

-- An instance between two octets of a frame: `o` octets stand in the buffer `p`.
abbrev pub collecting : Bool → ℕ → List ℕ → ℕ → ℕ → List (Netbuf × ℕ) → Instance
collecting client o p crc map queue = record {
  client = client;
  recv_esc = false;
  recv_octets = o;
  recv_ignore = false;
  recv_packet = p;
  recv_crc = crc;
  accm = map;
  send_queue = queue;
}

store-collecting :
    (client : Bool) (o : ℕ) (p : List ℕ) (crc map : ℕ) (queue : List (Netbuf × ℕ)) (ch : ℕ)
    → suc o < mru
    → store (collecting client o p crc map queue) ch
      ≡ collecting client (suc o) (set p o ch) (update_crc crc ch) map queue
unfolding store
store-collecting client o p crc map queue ch h = ground arith

module _ (fresh : List ℕ) (client : Bool) (map : ℕ) (queue : List (Netbuf × ℕ)) (accm : ℕ) where
  recv-encode :
      (o : ℕ) (p : List ℕ) (crc ch : ℕ) (rest : List ℕ)
      → IsByte ch
      → suc o < mru
      → recv fresh (collecting client o p crc map queue) (encode accm ch ++ rest)
        ≡ recv fresh (collecting client (suc o) (set p o ch) (update_crc crc ch) map queue) rest
  unfolding recv encode
  recv-encode o p crc ch rest byte h = elim (Bool-cases (is_escaped accm ch)) [
    | inl e ↦
        let (a, b, c) = escaped accm ch byte e in
        rw (e, a, b, c)
          (ap (λ pai. recv fresh pai rest) (store-collecting client o p crc map queue ch h))
    | inr e ↦
        let (a, b) = clear accm ch byte e in
        rw (e, a, b)
          (ap (λ pai. recv fresh pai rest) (store-collecting client o p crc map queue ch h))
  ]

  pub recv-fill :
      (o : ℕ) (p : List ℕ) (crc : ℕ) (xs rest : List ℕ)
      → All IsByte xs
      → o + length xs < mru
      → recv fresh (collecting client o p crc map queue) (encode_all accm xs ++ rest)
        ≡ recv fresh
            (collecting client (o + length xs) (fill p o xs) (crc_of crc xs) map queue)
            rest
  unfolding crc_of
  recv-fill o p crc [] rest bytes h =
      ap (λ n. recv fresh (collecting client n p crc map queue) rest) (omega arith)
  recv-fill o p crc (x ∷ xs) rest bytes h = rw append_assoc (
      recv-encode o p crc x (encode_all accm xs ++ rest) bytes.0 (omega arith)
      ∙ recv-fill (suc o) (set p o x) (update_crc crc x) xs rest bytes.1 (omega arith)
      ∙ ap
          (λ n.
            recv fresh
              (collecting client n (fill (set p o x) (suc o) xs) (crc_of (update_crc crc x) xs) map
                queue)
              rest)
          (omega arith))
