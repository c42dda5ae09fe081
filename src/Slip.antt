-- ===== src/Slip.antt =====
-- The SLIP driver, src/lib/slip/slip.c: the receiver fed one octet at a time by the UART, and the
-- encoder that the send thread runs for each queued packet.
pub mod Bounds
pub mod Encoding
pub mod Collecting
pub mod RoundTrip
mod Tests
use liquorice.Base.{
  ℕ, zero, suc, ◌+◌, ◌%◌, ◌^◌, Bool, true, false, not, ◌&&◌, ◌||◌, Option, none, some, List, [],
  ◌∷◌, ◌++◌, ltb, leb, ◌==◌, if◌then◌else◌, length, set, take,
}

abbrev pub mru : ℕ
mru = 576

abbrev pub slip_end : ℕ
slip_end = 0xc0

abbrev pub slip_esc : ℕ
slip_esc = 0xdb

-- The fields of `struct slip_instance` that the receiver and the send queue use, with the
-- `idi_client` of the datalink instance reduced to whether there is one. `recv_packet` is the
-- buffer of `MRU` octets; a netbuf stands for the octets of its layers.
pub record Netbuf : Type 0 where
  pub network : List ℕ
  pub transport : List ℕ
  pub application : List ℕ

pub record Instance : Type 0 where
  pub client : Bool
  pub recv_esc : Bool
  pub recv_octets : ℕ
  pub recv_ignore : Bool
  pub recv_packet : List ℕ
  pub send_queue : List Netbuf

-- `si->si_recv_packet[si->si_recv_octets++] = ch`, and the check against the buffer's size.
pub store : Instance → ℕ → Instance
store si ch =
    let octets = (si.recv_octets + 1) % 2 ^ 16 in
    record si {
      recv_packet = set si.recv_packet si.recv_octets ch;
      recv_octets = octets;
      recv_ignore = leb mru octets || si.recv_ignore;
    }

-- An octet behind `SLIP_ESC`.
pub unescape : Instance → ℕ → Instance
unfolding store
unescape si ch =
    if ch == 0xdc
    then store (record si { recv_esc = false }) slip_end
    else if ch == 0xdd
    then store (record si { recv_esc = false }) slip_esc
    else record si { recv_ignore = true }

-- The branch for any octet but `SLIP_END`.
pub recv_octet : Instance → ℕ → Instance
unfolding store unescape
recv_octet si ch =
    if si.recv_ignore
    then si
    else if ch == slip_esc
    then (if si.recv_esc then record si { recv_ignore = true } else record si { recv_esc = true })
    else if si.recv_esc
    then unescape si ch
    else store si ch

-- The octets that `idc_recv` is called with at a `SLIP_END`, if it is called.
pub delivery : Instance → Option (List ℕ)
delivery si =
    if (not si.recv_ignore && ltb 0 si.recv_octets) && si.client
    then some (take si.recv_octets si.recv_packet)
    else none

-- The branch for `SLIP_END`. `fresh` is the buffer that `membuf_alloc` returns for the next packet.
pub recv_end : List ℕ → Instance → Instance
recv_end fresh si = record si {
  recv_packet = if not si.recv_ignore && ltb 0 si.recv_octets then fresh else si.recv_packet;
  recv_octets = 0;
  recv_esc = false;
  recv_ignore = false;
}

-- `slip_recv_u8()`: the new state, and what is handed to the client.
pub recv_u8 : List ℕ → Instance → ℕ → Instance × Option (List ℕ)
unfolding recv_octet delivery recv_end
recv_u8 fresh si ch =
    if ch == slip_end then (recv_end fresh si, delivery si) else (recv_octet si ch, none)

abbrev pub push : Option (List ℕ) → List (List ℕ) → List (List ℕ)
push none packets = packets
push (some packet) packets = packet ∷ packets

-- The UART hands over one octet after the other; the packets delivered on the way, in order.
pub recv : List ℕ → Instance → List ℕ → Instance × List (List ℕ)
unfolding recv_u8
recv fresh si [] = (si, [])
recv fresh si (ch ∷ chs) =
    let (si', packet) = recv_u8 fresh si ch in
    let (si'', packets) = recv fresh si' chs in (si'', push packet packets)

-- What one round of `slip_send_sequence()` sends.
pub encode : ℕ → List ℕ
encode ch =
    if ch == slip_end
    then slip_esc ∷ 0xdc ∷ []
    else if ch == slip_esc
    then slip_esc ∷ 0xdd ∷ []
    else ch ∷ []

-- `slip_send_sequence()`: `cnt` octets from `buf`.
pub send_sequence : List ℕ → ℕ → List ℕ
unfolding encode
send_sequence buf zero = []
send_sequence [] (suc cnt) = []
send_sequence (ch ∷ buf) (suc cnt) = encode ch ++ send_sequence buf cnt

-- A layer whose size is passed as the `u16_t` parameter `cnt`.
pub send_layer : List ℕ → List ℕ
unfolding send_sequence
send_layer buf = send_sequence buf (length buf % 2 ^ 16)

-- What the send thread hands to the UART for one packet.
pub send_packet : Netbuf → List ℕ
unfolding send_layer
send_packet nb =
    slip_end
    ∷ (send_layer nb.network
        ++ ((if ltb 0 (length nb.transport) then send_layer nb.transport else [])
            ++ ((if ltb 0 (length nb.application) then send_layer nb.application else [])
                ++ slip_end ∷ [])))

-- `slip_send_netbuf()` puts a packet at the end of the send queue.
pub enqueue : List Netbuf → Netbuf → List Netbuf
enqueue [] nb = nb ∷ []
enqueue (p ∷ queue) nb = p ∷ enqueue queue nb

pub send_netbuf : Instance → Netbuf → Instance
unfolding enqueue
send_netbuf si nb = record si { send_queue = enqueue si.send_queue nb }

-- One round of `slip_send_thread()`: `none` while it waits for a packet.
pub send_thread : Instance → Option (Instance × List ℕ)
unfolding send_packet
send_thread si = elim si.send_queue [
  | [] ↦ none
  | nb ∷ rest ↦ some (record si { send_queue = rest }, send_packet nb)
]

-- `slip_client_attach()`: whether a server structure is returned.
pub client_attach : Instance → Instance × Bool
client_attach si = if si.client then (si, false) else (record si { client = true }, true)

-- `slip_instance_alloc()`
pub instance_alloc : List ℕ → Instance
instance_alloc fresh = record {
  client = false;
  recv_esc = false;
  recv_octets = 0;
  recv_ignore = true;
  recv_packet = fresh;
  send_queue = [];
}
