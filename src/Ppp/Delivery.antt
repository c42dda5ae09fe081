-- ===== src/Ppp/Delivery.antt =====
-- A packet of a client, from one link to the other, src/lib/ppp/ppp.c.
use liquorice.Base.{
  ℕ, suc, ◌+◌, ◌-◌, ◌%◌, ◌^◌, ◌<◌, ◌≡◌, refl, ap, ◌∙◌, true, false, none, some, List, [], ◌∷◌, ◌++◌,
  map, length, ◌==◌, arith,
}
use liquorice.Octets.{read16, Holds, memory, memory-Holds}
use liquorice.Ahdlc.{Netbuf, Instance, mru, recv, delivery, push}
use liquorice.Ahdlc.Bounds.{HasBuffer}
use liquorice.Ahdlc.Encoding.{payload}
use liquorice.Ahdlc.RoundTrip.{Fits, contents, send_frames, send_frames-recv}
use liquorice.Control.{Control}
use liquorice.Lcp.Instance.{Link, Client}
use liquorice.Ppp.{find_client, lcp_protocol, deliver, recv_netbuf, ppp_send_netbuf}

-- A frame of a client's protocol goes to the client.
ppp_send_netbuf-recv_netbuf :
    (stack mem : ℕ → ℕ) (c : Control Link) (protocol : ℕ) (nb : Netbuf) (pc : Client)
    → protocol < 2 ^ 16
    → (protocol == lcp_protocol) ≡ false
    → length (nb.network ++ (nb.transport ++ nb.application)) < 2 ^ 16
    → find_client protocol c.options.client_list ≡ some pc
    → Holds mem 0 (payload (ppp_send_netbuf protocol nb))
    → recv_netbuf stack mem (length (payload (ppp_send_netbuf protocol nb))) c
      ≡ ((c, []), some (pc, length (nb.network ++ (nb.transport ++ nb.application))))
unfolding ppp_send_netbuf recv_netbuf deliver
ppp_send_netbuf-recv_netbuf stack mem c protocol nb pc p other size found h =
    let rest = length (nb.network ++ (nb.transport ++ nb.application)) in
    let by : read16 mem 0 ≡ protocol = omega (arith, h.0, h.1.0) in
    let less : (suc (suc rest) + 2 ^ 32 - 2) % 2 ^ 32 ≡ rest = omega arith in
    rw by rw other rw less rw found refl

-- A packet that a client of a link sends by the server of its protocol, which is not the control protocol of
-- the link, goes over the serial line to the client of the same protocol at the other end: the framing
-- driver there, with no frame begun, hands on just the frame that the server made of it, and the link gives
-- it to the client with the packet's size, is left as it was, and sends nothing. The packet's layers fit a
-- frame.
pub send_frames-recv_netbuf :
    (accm : ℕ) (fresh : List ℕ) (fresh_size : length fresh ≡ mru) (stack : ℕ → ℕ) (pai : Instance)
    (c : Control Link) (protocol : ℕ) (nb : Netbuf) (pc : Client)
    → HasBuffer pai
    → pai.client ≡ true
    → delivery pai ≡ none
    → Fits (ppp_send_netbuf protocol nb)
    → protocol < 2 ^ 16
    → (protocol == lcp_protocol) ≡ false
    → find_client protocol c.options.client_list ≡ some pc
    → let frame = payload (ppp_send_netbuf protocol nb) in
      (map contents (recv fresh pai (send_frames accm (ppp_send_netbuf protocol nb ∷ []))).1
        ≡ frame ∷ [])
      × (recv_netbuf stack (memory frame) (length frame) c
          ≡ ((c, []), some (pc, length (nb.network ++ (nb.transport ++ nb.application)))))
unfolding ppp_send_netbuf
send_frames-recv_netbuf accm fresh fresh_size stack pai c protocol nb pc buffer client idle fits p
      other found =
    let sent = ppp_send_netbuf protocol nb in
    (
      send_frames-recv accm fresh fresh_size pai sent [] buffer client (fits, tt)
          ∙ ap (λ d. map contents (push d []) ++ payload sent ∷ []) idle,
      ppp_send_netbuf-recv_netbuf stack (memory (payload sent)) c protocol nb pc p other
          (omega (arith, fits.0)) found (memory-Holds (payload sent)),
    )
