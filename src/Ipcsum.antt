-- ===== src/Ipcsum.antt =====
-- The Internet checksum, src/lib/ipcsum/ipcsum.c with the assembler of src/lib/ipcsum/i386/ipcsum.c: the
-- words of the data, least octet first, are added with the carry brought around.
pub mod Laws
use liquorice.Base.{ℕ, ◌+◌, ◌-◌, ◌*◌, ◌^◌, List, [], ◌∷◌, ◌++◌, ltb, if◌then◌else◌}
use liquorice.Octets.{octets16, octets32}

-- `addw` and `adcw $0` of two words.
abbrev pub add_word : ℕ → ℕ → ℕ
add_word sum word = if ltb (sum + word) (2 ^ 16) then sum + word else sum + word - 2 ^ 16 + 1

-- `ipcsum_partial()` of the octets in a buffer.
unfoldable pub ipcsum_partial : ℕ → List ℕ → ℕ
ipcsum_partial partial_csum [] = partial_csum
ipcsum_partial partial_csum (low ∷ []) = add_word partial_csum low
ipcsum_partial partial_csum (low ∷ high ∷ buf) =
    ipcsum_partial (add_word partial_csum (low + 2 ^ 8 * high)) buf

-- `ipcsum()`; a word `^ 0xffff` is its difference from 0xffff.
unfoldable pub ipcsum : ℕ → List ℕ → ℕ
ipcsum partial_csum buf = 0xffff - ipcsum_partial partial_csum buf

-- `struct pseudo_hdr`, its fields in network byte order.
abbrev pub pseudo_hdr : ℕ → ℕ → ℕ → ℕ → List ℕ
pseudo_hdr src_addr dest_addr protocol len =
    octets32 src_addr ++ octets32 dest_addr ++ 0 ∷ protocol ∷ octets16 len

-- `ipcsum_pseudo_partial()`
unfoldable pub ipcsum_pseudo_partial : ℕ → ℕ → ℕ → ℕ → ℕ
ipcsum_pseudo_partial src_addr dest_addr protocol len =
    ipcsum_partial 0 (pseudo_hdr src_addr dest_addr protocol len)

-- `ipcsum_pseudo()`
unfoldable pub ipcsum_pseudo : ℕ → ℕ → ℕ → ℕ → ℕ
ipcsum_pseudo src_addr dest_addr protocol len =
    0xffff - ipcsum_pseudo_partial src_addr dest_addr protocol len
