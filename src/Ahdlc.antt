-- ===== src/Ahdlc.antt =====
-- PPP in HDLC-like framing, src/lib/ppp_ahdlc/ppp_ahdlc.c: the frame check sequence, the receiver
-- fed one octet at a time by the UART, and the framing that the send thread does for each packet.
pub mod Crc
pub mod Bounds
pub mod Encoding
pub mod Collecting
pub mod RoundTrip
mod Tests
use liquorice.Base.{
  ℕ, zero, suc, ◌+◌, ◌-◌, ◌*◌, ◌/◌, ◌%◌, ◌^◌, bit_and, bit_xor, Bool, true, false, not, ◌&&◌, ◌||◌,
  Option, none, some, List, [], ◌∷◌, ◌++◌, ltb, leb, ◌==◌, if◌then◌else◌, length, set, get_or, take,
  drop,
}

abbrev pub mru : ℕ
mru = 1500

abbrev pub ppp_flag : ℕ
ppp_flag = 0x7e

abbrev pub ppp_esc : ℕ
ppp_esc = 0x7d

-- Entry `i` of the table `ppp_crc`, as `ppp_ahdlc_instance_alloc()` fills it.
pub ppp_crc : ℕ → ℕ
ppp_crc i =
    let zx = bit_and (bit_xor i (i * 2 ^ 4)) 0xff in
    bit_xor (bit_xor (zx * 2 ^ 8) (zx * 2 ^ 3)) (zx / 2 ^ 4) % 2 ^ 16

pub update_crc : ℕ → ℕ → ℕ
unfolding ppp_crc
update_crc orig_crc val =
    bit_xor (orig_crc / 2 ^ 8) (ppp_crc (bit_xor val (orig_crc % 2 ^ 8))) % 2 ^ 16

-- A netbuf stands for the octets of its layers.
pub record Netbuf : Type 0 where
  pub datalink : List ℕ
  pub network : List ℕ
  pub transport : List ℕ
  pub application : List ℕ

-- The fields of `struct ppp_ahdlc_instance` that the receiver and the send queue use, with
-- `pai_client` reduced to whether there is one. A queued packet carries its hint, the character map.
pub record Instance : Type 0 where
  pub client : Bool
  pub recv_esc : Bool
  pub recv_octets : ℕ
  pub recv_ignore : Bool
  pub recv_packet : List ℕ
  pub recv_crc : ℕ
  pub accm : ℕ
  pub send_queue : List (Netbuf × ℕ)

-- `pai->pai_recv_packet[pai->pai_recv_octets++] = ch` with the check against the buffer's size, and
-- the step of the check sequence.
pub store : Instance → ℕ → Instance
store pai ch =
    let octets = (pai.recv_octets + 1) % 2 ^ 16 in
    record pai {
      recv_packet = set pai.recv_packet pai.recv_octets ch;
      recv_octets = octets;
      recv_ignore = leb mru octets || pai.recv_ignore;
      recv_crc = update_crc pai.recv_crc ch;
    }

-- The branch for any octet but `PPP_FLAG`.
pub recv_octet : Instance → ℕ → Instance
unfolding store
recv_octet pai ch =
    if pai.recv_ignore
    then pai
    else if ch == ppp_esc
    then (if pai.recv_esc
        then record pai { recv_ignore = true }
        else record pai { recv_esc = true })
    else if pai.recv_esc
    then store (record pai { recv_esc = false }) (bit_xor ch 0x20)
    else store pai ch

-- The test that a received frame has to pass.
pub is_sane : Instance → Bool
is_sane pai =
    pai.recv_crc == 0xf0b8
    || (get_or pai.recv_packet 0 0 == 0xff || get_or pai.recv_packet 1 0 == 0x03)

-- What the client's `pac_recv` is called with: the buffer from its third octet on, and
-- `nb_datalink_size`, an `addr_t` of 32 bits.
pub record Frame : Type 0 where
  pub octets : List ℕ
  pub size : ℕ

abbrev pub has_frame : Instance → Bool
has_frame pai = not pai.recv_ignore && ltb 0 pai.recv_octets

unfoldable pub delivery : Instance → Option Frame
unfolding is_sane
delivery pai =
    if has_frame pai && (is_sane pai && pai.client)
    then some
        (record { octets = drop 2 pai.recv_packet; size = (pai.recv_octets + 2 ^ 32 - 4) % 2 ^ 32 })
    else none

-- The branch for `PPP_FLAG`. `fresh` is the buffer that `membuf_alloc` returns for the next frame.
pub recv_flag : List ℕ → Instance → Instance
unfolding is_sane
recv_flag fresh pai = record pai {
  recv_packet = if has_frame pai && is_sane pai then fresh else pai.recv_packet;
  recv_octets = 0;
  recv_esc = false;
  recv_ignore = false;
  recv_crc = 0xffff;
}

-- `ppp_ahdlc_recv_u8()`: the new state, and what is handed to the client.
pub recv_u8 : List ℕ → Instance → ℕ → Instance × Option Frame
unfolding recv_octet delivery recv_flag
recv_u8 fresh pai ch =
    if ch == ppp_flag then (recv_flag fresh pai, delivery pai) else (recv_octet pai ch, none)

abbrev pub push : Option Frame → List Frame → List Frame
push none frames = frames
push (some frame) frames = frame ∷ frames

-- The UART hands over one octet after the other; the frames delivered on the way, in order.
pub recv : List ℕ → Instance → List ℕ → Instance × List Frame
unfolding recv_u8
recv fresh pai [] = (pai, [])
recv fresh pai (ch ∷ chs) =
    let (pai', frame) = recv_u8 fresh pai ch in
    let (pai'', frames) = recv fresh pai' chs in (pai'', push frame frames)

-- The test of `send_u8()` for an octet that has to be escaped.
pub is_escaped : ℕ → ℕ → Bool
is_escaped accm ch =
    ch == ppp_flag || (ch == ppp_esc || (ltb ch 0x20 && not (bit_and accm (2 ^ ch) == 0)))

-- What `send_u8()` sends; its new check sequence is `update_crc crc ch`.
pub encode : ℕ → ℕ → List ℕ
unfolding is_escaped
encode accm ch = if is_escaped accm ch then ppp_esc ∷ bit_xor ch 0x20 ∷ [] else ch ∷ []

pub send_u8 : ℕ → ℕ → ℕ → List ℕ × ℕ
send_u8 ch accm crc = (encode accm ch, update_crc crc ch)

-- `ppp_ahdlc_send_sequence()`: `cnt` octets from `buf`.
pub send_sequence : List ℕ → ℕ → ℕ → ℕ → List ℕ × ℕ
unfolding send_u8
send_sequence buf zero accm crc = ([], crc)
send_sequence [] (suc cnt) accm crc = ([], crc)
send_sequence (ch ∷ buf) (suc cnt) accm crc =
    let (sent, crc') = send_u8 ch accm crc in
    let (rest, crc'') = send_sequence buf cnt accm crc' in (sent ++ rest, crc'')

-- A layer whose size is passed as the `u16_t` parameter `cnt`.
pub send_layer : List ℕ → ℕ → ℕ → List ℕ × ℕ
unfolding send_sequence
send_layer buf accm crc = send_sequence buf (length buf % 2 ^ 16) accm crc

-- A layer that is sent only if its size is not 0.
pub send_optional : List ℕ → ℕ → ℕ → List ℕ × ℕ
unfolding send_layer
send_optional buf accm crc = if ltb 0 (length buf) then send_layer buf accm crc else ([], crc)

-- What the send thread hands to the UART for one packet.
pub send_packet : ℕ → Netbuf → List ℕ
unfolding send_u8 send_layer send_optional
send_packet accm nb =
    let (s0, crc0) = send_u8 0xff accm 0xffff in
    let (s1, crc1) = send_u8 0x03 accm crc0 in
    let (s2, crc2) = send_layer nb.datalink accm crc1 in
    let (s3, crc3) = send_layer nb.network accm crc2 in
    let (s4, crc4) = send_optional nb.transport accm crc3 in
    let (s5, crc5) = send_optional nb.application accm crc4 in
    let crc = 2 ^ 16 - 1 - crc5 in
    ppp_flag
    ∷ (s0
        ++ (s1
            ++ (s2
                ++ (s3
                    ++ (s4
                        ++ (s5
                            ++ ((send_u8 (crc % 2 ^ 8) accm 0).0
                                ++ ((send_u8 (crc / 2 ^ 8 % 2 ^ 8) accm 0).0
                                    ++ ppp_flag ∷ []))))))))

-- `ppp_ahdlc_send_netbuf()` puts a packet at the end of the send queue, with the character map of
-- the moment as its hint.
pub enqueue : List (Netbuf × ℕ) → Netbuf × ℕ → List (Netbuf × ℕ)
enqueue [] nb = nb ∷ []
enqueue (p ∷ queue) nb = p ∷ enqueue queue nb

pub send_netbuf : Instance → Netbuf → Instance
unfolding enqueue
send_netbuf pai nb = record pai { send_queue = enqueue pai.send_queue (nb, pai.accm) }

-- One round of `ppp_ahdlc_send_thread()`: `none` while it waits for a packet.
pub send_thread : Instance → Option (Instance × List ℕ)
unfolding send_packet
send_thread pai = elim pai.send_queue [
  | [] ↦ none
  | (nb, accm) ∷ rest ↦ some (record pai { send_queue = rest }, send_packet accm nb)
]

pub set_accm : Instance → ℕ → Instance
set_accm pai accm = record pai { accm = accm % 2 ^ 32 }

-- `ppp_ahdlc_client_attach()`: whether a server structure is returned.
pub client_attach : Instance → Instance × Bool
client_attach pai = if pai.client then (pai, false) else (record pai { client = true }, true)

-- `ppp_ahdlc_client_detach()`, told whether the server is the client's. Without a client the code reads
-- through a null pointer.
pub client_detach : Bool → Instance → Option Instance
client_detach is_own pai =
    if pai.client then some (if is_own then record pai { client = false } else pai) else none

pub get_accm : Instance → ℕ
get_accm pai = pai.accm

-- `ppp_ahdlc_instance_alloc()`. `pai_recv_crc` is not set there: `crc` is what the memory holds.
unfoldable pub instance_alloc : List ℕ → ℕ → Instance
instance_alloc fresh crc = record {
  client = false;
  recv_esc = false;
  recv_octets = 0;
  recv_ignore = true;
  recv_packet = fresh;
  recv_crc = crc;
  accm = 0xffff_ffff;
  send_queue = [];
}
