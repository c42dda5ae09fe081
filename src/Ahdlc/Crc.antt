-- ===== src/Ahdlc/Crc.antt =====
-- The frame check sequence of PPP, sixteen bits.
use liquorice.Base.{
  ℕ, zero, suc, ◌-◌, ◌/◌, ◌%◌, ◌^◌, ◌<◌, ◌≡◌, refl, ap, bit_xor, true, List, [], ◌∷◌, ◌++◌, arith,
  ◌==◌, ==_iff, if◌then◌else◌, passes, passes_sound,
}
use liquorice.Ahdlc.{ppp_crc, update_crc}

-- One bit of the check sequence by the polynomial x^16 + x^12 + x^5 + 1, lowest bit first.
pub shift_bit : ℕ → ℕ
shift_bit v = if v % 2 == 1 then bit_xor (v / 2) 0x8408 else v / 2

pub shift_bits : ℕ → ℕ → ℕ
unfolding shift_bit
shift_bits zero v = v
shift_bits (suc n) v = shift_bits n (shift_bit v)

table : passes (λ i. ppp_crc i == shift_bits 8 i) 256 ≡ true
unfolding passes ppp_crc shift_bits
table = refl

-- The table holds, for each octet, the result of eight steps by the polynomial.
pub ppp_crc-shift_bits : (i : ℕ) → i < 256 → ppp_crc i ≡ shift_bits 8 i
ppp_crc-shift_bits i h = (==_iff _ _).0 (passes_sound _ 256 i table h)

unfoldable pub crc_of : ℕ → List ℕ → ℕ
crc_of crc [] = crc
crc_of crc (ch ∷ chs) = crc_of (update_crc crc ch) chs

pub crc_of-append : (crc : ℕ) (xs ys : List ℕ) → crc_of crc (xs ++ ys) ≡ crc_of (crc_of crc xs) ys
unfolding crc_of
crc_of-append crc [] ys = refl
crc_of-append crc (x ∷ xs) ys = crc_of-append (update_crc crc x) xs ys

low_table : passes (λ lo. bit_xor (255 - lo) lo == 255) 256 ≡ true
unfolding passes
low_table = refl

abbrev after_low : ℕ → ℕ
after_low hi = bit_xor hi (ppp_crc 255) % 2 ^ 16

high_table : passes (λ hi. update_crc (after_low hi) (255 - hi) == 0xf0b8) 256 ≡ true
unfolding passes update_crc
high_table = refl

low_complement : (crc : ℕ) → crc < 2 ^ 16 → (2 ^ 16 - 1 - crc) % 2 ^ 8 ≡ 255 - crc % 2 ^ 8
low_complement crc h = omega arith

high_complement : (crc : ℕ) → crc < 2 ^ 16 → (2 ^ 16 - 1 - crc) / 2 ^ 8 % 2 ^ 8 ≡ 255 - crc / 2 ^ 8
high_complement crc h = omega arith

update_low : (crc : ℕ) → update_crc crc (255 - crc % 2 ^ 8) ≡ after_low (crc / 2 ^ 8)
unfolding update_crc
update_low crc =
    ap (λ i. bit_xor (crc / 2 ^ 8) (ppp_crc i) % 2 ^ 16)
      ((==_iff _ _).0 (passes_sound _ 256 (crc % 2 ^ 8) low_table (omega arith)))

-- Behind its own complement, low octet first, every check sequence is `0xf0b8`.
pub crc_residue :
    (crc : ℕ)
    → crc < 2 ^ 16
    → update_crc (update_crc crc ((2 ^ 16 - 1 - crc) % 2 ^ 8)) ((2 ^ 16 - 1 - crc) / 2 ^ 8 % 2 ^ 8)
      ≡ 0xf0b8
crc_residue crc h =
    rw (low_complement crc h, high_complement crc h, update_low crc)
      ((==_iff _ _).0 (passes_sound _ 256 (crc / 2 ^ 8) high_table (omega arith)))

pub update_crc-lt : (crc ch : ℕ) → update_crc crc ch < 2 ^ 16
unfolding update_crc
update_crc-lt crc ch = omega arith

pub crc_of-lt : (crc : ℕ) (xs : List ℕ) → crc < 2 ^ 16 → crc_of crc xs < 2 ^ 16
unfolding crc_of
crc_of-lt crc [] h = h
crc_of-lt crc (x ∷ xs) h = crc_of-lt (update_crc crc x) xs (update_crc-lt crc x)
