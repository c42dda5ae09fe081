-- ===== src/Slip/Collecting.antt =====
-- The SLIP receiver inside a packet: what stands in the buffer, octet by octet.
use liquorice.Base.{
  ℕ, suc, ◌+◌, ◌≤◌, ◌<◌, ◌≡◌, refl, ap, ◌∙◌, Bool, true, false, some, List, [], ◌∷◌, ◌++◌, arith,
  ◌==◌, length, set, take, fill, take-fill, append_assoc, length-set, inl, inr, Bool-cases, ==_iff,
  dec_lt,
}
use liquorice.Slip.{
  Netbuf, Instance, mru, slip_end, slip_esc, store, recv_end, delivery, recv, push, encode,
}
use liquorice.Slip.Encoding.{encode_all}

-- An instance between two octets of a packet: `o` octets stand in the buffer `p`.
abbrev pub collecting : Bool → ℕ → List ℕ → List Netbuf → Instance
collecting client o p queue = record {
  client = client;
  recv_esc = false;
  recv_octets = o;
  recv_ignore = false;
  recv_packet = p;
  send_queue = queue;
}

module _ (fresh : List ℕ) where
  recv-encode :
      (client : Bool) (o : ℕ) (p : List ℕ) (queue : List Netbuf) (ch : ℕ) (rest : List ℕ)
      → recv fresh (collecting client o p queue) (encode ch ++ rest)
        ≡ recv fresh (store (collecting client o p queue) ch) rest
  unfolding recv encode
  recv-encode client o p queue ch rest = elim (Bool-cases (ch == slip_end)) [
    | inl e ↦ rw ((==_iff ch slip_end).0 e)
    | inr other ↦ elim (Bool-cases (ch == slip_esc)) [
      | inl e ↦ rw ((==_iff ch slip_esc).0 e)
      | inr plain ↦ rw (other, plain, other, plain)
    ]
  ]

  recv_ignored_encode :
      (si : Instance) (ch : ℕ) (rest : List ℕ)
      → si.recv_ignore ≡ true
      → recv fresh si (encode ch ++ rest) ≡ recv fresh si rest
  unfolding recv encode
  recv_ignored_encode si ch rest h = elim (Bool-cases (ch == slip_end)) [
    | inl e ↦ rw ((==_iff ch slip_end).0 e) (simp h)
    | inr other ↦ elim (Bool-cases (ch == slip_esc)) [
      | inl e ↦ rw ((==_iff ch slip_esc).0 e) (simp h)
      | inr plain ↦ simp (other, plain, h)
    ]
  ]

  recv-ignored :
      (si : Instance) (chs rest : List ℕ)
      → si.recv_ignore ≡ true
      → recv fresh si (encode_all chs ++ rest) ≡ recv fresh si rest
  recv-ignored si [] rest h = refl
  recv-ignored si (ch ∷ chs) rest h =
      rw append_assoc
        (recv_ignored_encode si ch (encode_all chs ++ rest) h ∙ recv-ignored si chs rest h)

store-collecting :
    (client : Bool) (o : ℕ) (p : List ℕ) (queue : List Netbuf) (ch : ℕ)
    → suc o < mru
    → store (collecting client o p queue) ch ≡ collecting client (suc o) (set p o ch) queue
unfolding store
store-collecting client o p queue ch h = ground arith

abbrev overrun : Bool → ℕ → List ℕ → List Netbuf → Instance
overrun client o p queue = record (collecting client o p queue) { recv_ignore = true }

store-overrun :
    (client : Bool) (o : ℕ) (p : List ℕ) (queue : List Netbuf) (ch : ℕ)
    → suc o ≡ mru
    → store (collecting client o p queue) ch ≡ overrun client (suc o) (set p o ch) queue
unfolding store
store-overrun client o p queue ch h = ground arith

recv_end-collecting :
    (fresh : List ℕ) (client : Bool) (o : ℕ) (p : List ℕ) (queue : List Netbuf)
    → 0 < o
    → recv_end fresh (collecting client o p queue) ≡ collecting client 0 fresh queue
unfolding recv_end
recv_end-collecting fresh client o p queue h = ground arith

delivery-collecting :
    (client : Bool) (o : ℕ) (p : List ℕ) (queue : List Netbuf)
    → client ≡ true
    → 0 < o
    → delivery (collecting client o p queue) ≡ some (take o p)
unfolding delivery
delivery-collecting client o p queue c h = ground arith

module _ (fresh : List ℕ) where
  recv-fill :
      (client : Bool) (o : ℕ) (p : List ℕ) (queue : List Netbuf) (xs rest : List ℕ)
      → o + length xs < mru
      → recv fresh (collecting client o p queue) (encode_all xs ++ rest)
        ≡ recv fresh (collecting client (o + length xs) (fill p o xs) queue) rest
  recv-fill client o p queue [] rest h =
      ap (λ n. recv fresh (collecting client n p queue) rest) (omega arith)
  recv-fill client o p queue (x ∷ xs) rest h =
      rw append_assoc (recv-encode fresh client o p queue x (encode_all xs ++ rest))
      ∙ ap (λ si. recv fresh si (encode_all xs ++ rest))
          (store-collecting client o p queue x (omega arith))
      ∙ recv-fill client (suc o) (set p o x) queue xs rest (omega arith)
      ∙ ap (λ n. recv fresh (collecting client n (fill (set p o x) (suc o) xs) queue) rest)
          (omega arith)

  -- A packet that fills the buffer makes the instance ignore the rest of it.
  pub recv_overrun :
      (client : Bool) (o : ℕ) (p : List ℕ) (queue : List Netbuf) (xs rest : List ℕ)
      → mru ≤ length p
      → o < mru
      → mru ≤ o + length xs
      → (p' : List ℕ) × (length p' ≡ length p)
        × (recv fresh (collecting client o p queue) (encode_all xs ++ slip_end ∷ rest)
            ≡ recv fresh (collecting client 0 p' queue) rest)
  unfolding recv
  recv_overrun client o p queue [] rest b h long = absurd (omega arith)
  recv_overrun client o p queue (x ∷ xs) rest b h long = elim (dec_lt (suc o) mru) [
    | yes more ↦
        let (p', e, r) =
          recv_overrun client (suc o) (set p o x) queue xs rest (omega (arith, length-set p o x))
            more (omega arith) in
        (
          p',
          e ∙ length-set p o x,
          rw append_assoc (recv-encode fresh client o p queue x (encode_all xs ++ slip_end ∷ rest))
              ∙ ap (λ si. recv fresh si (encode_all xs ++ slip_end ∷ rest))
                  (store-collecting client o p queue x more)
              ∙ r,
        )
    | no full ↦ (
      set p o x,
      length-set p o x,
      rw append_assoc (recv-encode fresh client o p queue x (encode_all xs ++ slip_end ∷ rest))
          ∙ ap (λ si. recv fresh si (encode_all xs ++ slip_end ∷ rest))
              (store-overrun client o p queue x (omega arith))
          ∙ recv-ignored fresh (overrun client (suc o) (set p o x) queue) xs (slip_end ∷ rest) refl,
    )
  ]

  pub recv-start :
      (si : Instance) (rest : List ℕ)
      → recv fresh si (slip_end ∷ rest) ≡ (
          let r =
            recv fresh
              (collecting si.client 0 (recv_end fresh si).recv_packet si.send_queue)
              rest in
          (r.0, push (delivery si) r.1))
  unfolding recv recv_end
  recv-start si rest = refl

  pub recv-packet :
      (client : Bool) (p : List ℕ) (queue : List Netbuf) (xs rest : List ℕ)
      → client ≡ true
      → mru ≤ length p
      → 0 < length xs
      → length xs < mru
      → recv fresh (collecting client 0 p queue) (encode_all xs ++ slip_end ∷ rest)
        ≡ (let r = recv fresh (collecting client 0 fresh queue) rest in (r.0, xs ∷ r.1))
  unfolding recv delivery recv_end
  recv-packet client p queue xs rest c b pos small =
      recv-fill client 0 p queue xs (slip_end ∷ rest) (omega arith)
      ∙ rw (
        recv_end-collecting fresh client (0 + length xs) (fill p 0 xs) queue (omega arith),
        delivery-collecting client (0 + length xs) (fill p 0 xs) queue c (omega arith),
        take-fill p 0 xs (omega arith),
      )
