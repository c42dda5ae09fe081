-- ===== src/Ipcsum/Laws.antt =====
-- The order of the words in the sum of src/lib/ipcsum/, and the checksum that is stored among them.
use liquorice.Base.{ℕ, ◌+◌, ◌-◌, ◌*◌, ◌/◌, ◌%◌, ◌^◌, ◌<◌, ◌≡◌, refl, ap, ◌∙◌, List, [], ◌∷◌, arith}
use liquorice.Ipcsum.{add_word, ipcsum_partial, ipcsum, ipcsum_pseudo_partial}

abbrev pub IsOctets : List ℕ → Type 0
IsOctets [] = Unit {0}
IsOctets (b ∷ bs) = (b < 2 ^ 8) × IsOctets bs

add_word_comm :
    (a b c : ℕ)
    → a < 2 ^ 16
    → b < 2 ^ 16
    → c < 2 ^ 16
    → add_word (add_word a b) c ≡ add_word (add_word a c) b
add_word_comm a b c x y z = ground arith

add_word-bound : (a b : ℕ) → a < 2 ^ 16 → b < 2 ^ 16 → add_word a b < 2 ^ 16
add_word-bound a b x y = ground arith

pub ipcsum_partial-bound :
    (s : ℕ) (buf : List ℕ) → s < 2 ^ 16 → IsOctets buf → ipcsum_partial s buf < 2 ^ 16
unfolding ipcsum_partial
ipcsum_partial-bound s [] x o = x
ipcsum_partial-bound s (a ∷ []) x o = ground arith
ipcsum_partial-bound s (a ∷ b ∷ buf) x (oa, ob) =
    ipcsum_partial-bound (add_word s (a + 2 ^ 8 * b)) buf (ground arith) ob.1

-- A word that is added before the others or after them.
pub ipcsum_partial-add_word :
    (s w : ℕ) (buf : List ℕ)
    → s < 2 ^ 16
    → w < 2 ^ 16
    → IsOctets buf
    → ipcsum_partial (add_word s w) buf ≡ add_word (ipcsum_partial s buf) w
unfolding ipcsum_partial
ipcsum_partial-add_word s w [] x y o = refl
ipcsum_partial-add_word s w (a ∷ []) x y o = add_word_comm s w a x y (ground arith)
ipcsum_partial-add_word s w (a ∷ b ∷ buf) x y (oa, ob) =
    let word = a + 2 ^ 8 * b in
    ap (λ t. ipcsum_partial t buf) (add_word_comm s w word x y (ground arith))
    ∙ ipcsum_partial-add_word (add_word s word) w buf (ground arith) y ob.1

-- The complement of a sum makes it check.
pub ipcsum-complement : (s : ℕ) → s < 2 ^ 16 → 0xffff - add_word s (0xffff - s) ≡ 0
ipcsum-complement s x = ground arith

-- A checksum that is stored where the sum that it completes had zeros makes the whole check.
pub ipcsum-stored :
    (s : ℕ) (buf : List ℕ)
    → s < 2 ^ 16
    → IsOctets buf
    → let csum = ipcsum s (0 ∷ 0 ∷ buf) in ipcsum s (csum % 2 ^ 8 ∷ csum / 2 ^ 8 % 2 ^ 8 ∷ buf) ≡ 0
unfolding ipcsum ipcsum_partial
ipcsum-stored s buf x o =
    let rest = ipcsum_partial s buf in
    let bound = ipcsum_partial-bound s buf x o in
    let same : add_word s 0 ≡ s = ground arith in
    let csum = 0xffff - ipcsum_partial (add_word s 0) buf in
    let csum_rest : csum ≡ 0xffff - rest = ap (λ t. 0xffff - ipcsum_partial t buf) same in
    let word : csum % 2 ^ 8 + 2 ^ 8 * (csum / 2 ^ 8 % 2 ^ 8) ≡ 0xffff - rest = omega arith in
    ap (λ t. 0xffff - ipcsum_partial (add_word s t) buf) word
    ∙ ap (λ t. 0xffff - t) (ipcsum_partial-add_word s (0xffff - rest) buf x (omega arith) o)
    ∙ ipcsum-complement rest bound

four_words_comm :
    (w x y z : ℕ)
    → w < 2 ^ 16
    → x < 2 ^ 16
    → y < 2 ^ 16
    → z < 2 ^ 16
    → add_word (add_word (add_word (add_word 0 w) x) y) z
      ≡ add_word (add_word (add_word (add_word 0 y) z) w) x
four_words_comm w x y z bw bx by bz =
    let b0w = add_word-bound 0 w (omega arith) bw in
    let b0y = add_word-bound 0 y (omega arith) by in
    let b0yw = add_word-bound (add_word 0 y) w b0y bw in
    ap (λ t. add_word t z) (add_word_comm (add_word 0 w) x y b0w bx by)
    ∙ ap (λ t. add_word (add_word t x) z) (add_word_comm 0 w y (omega arith) bw by)
    ∙ add_word_comm (add_word (add_word 0 y) w) x z b0yw bx bz
    ∙ ap (λ t. add_word t x) (add_word_comm (add_word 0 y) w z b0y bw bz)

-- The two addresses of the pseudo header may change places.
pub ipcsum_pseudo_partial_comm :
    (a b protocol len : ℕ)
    → ipcsum_pseudo_partial a b protocol len ≡ ipcsum_pseudo_partial b a protocol len
unfolding ipcsum_pseudo_partial ipcsum_partial
ipcsum_pseudo_partial_comm a b protocol len =
    ap
      (λ t.
        add_word (add_word t (0 + 2 ^ 8 * protocol)) (len / 2 ^ 8 % 2 ^ 8 + 2 ^ 8 * (len % 2 ^ 8)))
      (four_words_comm (a / 2 ^ 24 % 2 ^ 8 + 2 ^ 8 * (a / 2 ^ 16 % 2 ^ 8))
        (a / 2 ^ 8 % 2 ^ 8 + 2 ^ 8 * (a % 2 ^ 8))
        (b / 2 ^ 24 % 2 ^ 8 + 2 ^ 8 * (b / 2 ^ 16 % 2 ^ 8))
        (b / 2 ^ 8 % 2 ^ 8 + 2 ^ 8 * (b % 2 ^ 8)) (omega arith) (omega arith) (omega arith)
        (omega arith))
