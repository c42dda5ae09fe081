-- ===== src/Ppp/Tests.antt =====
-- Runs of a link with its clients, and the theorems at concrete inputs.
use liquorice.Base.{
  refl, some, map, replicate, length-replicate, ℕ, ◌≡◌, true, false, List, [], ◌∷◌, length, arith,
}
use liquorice.Octets.{memory}
use liquorice.Ahdlc
use liquorice.Ahdlc.Bounds.{HasBuffer}
use liquorice.Ahdlc.Encoding.{payload}
use liquorice.Ahdlc.RoundTrip.{contents, send_frames}
use liquorice.Ppp.Delivery.{send_frames-recv_netbuf}
use liquorice.Control.{Control}
use liquorice.Control.Timer.{IsSound}
use liquorice.Lcp.Instance.{Link, Client}
use liquorice.Ppp.{ppp_send_netbuf, find_client, protocol_reject, recv_netbuf, instance_alloc}
use liquorice.Ppp.Runs.{allocated, received, Reaches-IsSound}

abbrev defaults : Link
defaults = record {
  mru = 1500;
  mru_usage = 0;
  accm = 0xffffffff;
  accm_usage = 0;
  local_magic_number = 0;
  local_magic_number_usage = 2;
  remote_magic_number = 0;
  pfc = false;
  pfc_usage = 2;
  acfc = false;
  acfc_usage = 2;
  client_list = [];
}

abbrev ipcp_client : Client
ipcp_client = record { protocol = 0x8021; has_link_up = true; server = 0 }

abbrev ip_client : Client
ip_client = record { protocol = 0x0021; has_link_up = false; server = 7 }

abbrev stack : ℕ → ℕ
stack i = 0

-- A new link with a client and a configure-request for it.
abbrev asking : List ℕ
asking = 0xc0 ∷ 0x21 ∷ 1 ∷ 5 ∷ 0 ∷ 4 ∷ []

abbrev fresh : Control Link
fresh = (instance_alloc 3 defaults).0

Reaches-IsSound_example : IsSound (recv_netbuf stack (memory asking) 6 fresh).0.0
Reaches-IsSound_example =
    Reaches-IsSound stack (recv_netbuf stack (memory asking) 6 fresh).0.0
      (received (memory asking) 6 fresh (allocated 3 defaults))

-- A maximum receive unit below 16 makes the reject longer than its buffer.
reject_overflow :
    length (protocol_reject (memory asking) 0x002d 2 100 (record defaults { mru = 15 })) ≡ 65541
unfolding protocol_reject
reject_overflow = ground arith

abbrev buffer : List ℕ
buffer = replicate Ahdlc.mru 0

buffer_size : length buffer ≡ Ahdlc.mru
buffer_size = length-replicate {A = ℕ} Ahdlc.mru 0

abbrev driver : Ahdlc.Instance
driver = record (Ahdlc.instance_alloc buffer 0) { client = true }

driver-HasBuffer : HasBuffer driver
unfolding Ahdlc.instance_alloc
driver-HasBuffer = record { buffer = buffer_size; room = λ e. omega arith }

abbrev datagram : Ahdlc.Netbuf
datagram = record {
  datalink = [];
  network = 0x45 ∷ 0x7e ∷ [];
  transport = [];
  application = 0x7d ∷ [];
}

abbrev linked : Control Link
linked = record fresh { options = record defaults { client_list = ip_client ∷ [] } }

send_frames-recv_netbuf_example :
    let frame = payload (ppp_send_netbuf 0x0021 datagram) in
    (map contents
        (Ahdlc.recv buffer driver (send_frames 0 (ppp_send_netbuf 0x0021 datagram ∷ []))).1
      ≡ frame ∷ [])
    × (recv_netbuf stack (memory frame) (length frame) linked ≡ ((linked, []), some (ip_client, 3)))
unfolding ppp_send_netbuf Ahdlc.delivery Ahdlc.instance_alloc find_client
send_frames-recv_netbuf_example =
    send_frames-recv_netbuf 0 buffer buffer_size stack driver linked 0x0021 datagram ip_client
      driver-HasBuffer refl refl (omega arith) (omega arith) refl refl
