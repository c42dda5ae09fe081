-- ===== src/Lcp/Options.antt =====
-- A list of options and its octets in memory, as src/lib/ppp/ppp.c reads them.
use liquorice.Base.{ℕ, ◌+◌, ◌-◌, ◌*◌, ◌^◌, ◌≡◌, ap, ◌∙◌, List, [], ◌∷◌, ◌++◌, arith, length}
use liquorice.Octets.{slice, read32, Holds, slice-Holds}

-- An option: its type and its data.
pub record Opt : Type 0 where
  pub type_ : ℕ
  pub data_ : List ℕ

abbrev pub encode_opt : Opt → List ℕ
encode_opt o = o.type_ ∷ (2 + length o.data_) ∷ o.data_

abbrev pub encode_opts : List Opt → List ℕ
encode_opts [] = []
encode_opts (o ∷ os) = encode_opt o ++ encode_opts os

-- The big-endian number in a list of octets.
abbrev pub number : ℕ → List ℕ → ℕ
number n [] = n
number n (b ∷ octets) = number (n * 2 ^ 8 + b) octets

pub read32-number :
    (mem : ℕ → ℕ) (at : ℕ) (octets : List ℕ)
    → Holds mem at octets
    → length octets ≡ 4
    → read32 mem at ≡ number 0 octets
read32-number mem at (a ∷ b ∷ c ∷ d ∷ []) h e = ground arith
read32-number mem at [] h e = ground arith
read32-number mem at (a ∷ []) h e = ground arith
read32-number mem at (a ∷ b ∷ []) h e = ground arith
read32-number mem at (a ∷ b ∷ c ∷ []) h e = ground arith
read32-number mem at (a ∷ b ∷ c ∷ d ∷ x ∷ octets) h e = ground arith

pub slice-data :
    (mem : ℕ → ℕ) (buf : ℕ) (o : Opt)
    → Holds mem buf o.data_
    → slice mem buf (2 + length o.data_ - 2) ≡ o.data_
slice-data mem buf o h =
    let size : 2 + length o.data_ - 2 ≡ length o.data_ = omega arith in
    ap (slice mem buf) size ∙ slice-Holds mem buf o.data_ h
