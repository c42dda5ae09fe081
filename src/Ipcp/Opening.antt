-- ===== src/Ipcp/Opening.antt =====
-- How two instances of IP over PPP open their link, src/lib/ppp_ip/ppp_ip.c.
use liquorice.Base.{
  ℕ, ◌^◌, ◌<◌, ◌≡◌, refl, ◌∙◌, sym, subst, true, false, List, [], ◌∷◌, ◌==◌, if◌then◌else◌, arith,
}
use liquorice.Octets.{read32, octets32, slice, Holds}
use liquorice.Control
use liquorice.Control.{Control, Effect, sent, released, packet}
use liquorice.Control.Replies.{Reply, usage_ack, frame_ack}
use liquorice.Lcp.Parse.{walk_options}
use liquorice.Ipcp.{handle_event, recv_conf_req, recv_conf_ack, recv_ipcp}
use liquorice.Ipcp.Instance.{IpLink, ipcp, build_req}
use liquorice.Ipcp.Parse.{check_option, check_options, check_request, ack_option, check_ack}

abbrev pub offer : ℕ → List ℕ
offer addr = 0x03 ∷ 6 ∷ octets32 addr

read32-octets32 :
    (mem : ℕ → ℕ) (addr : ℕ) → addr < 2 ^ 32 → Holds mem 6 (octets32 addr) → read32 mem 6 ≡ addr
read32-octets32 mem addr bound h = omega arith

slice-octets32 :
    (mem : ℕ → ℕ) (addr : ℕ) → Holds mem 6 (octets32 addr) → slice mem 6 4 ≡ octets32 addr
slice-octets32 mem addr h = cc (h.0, h.1.0, h.1.1.0, h.1.1.1.0)

offer-check_option :
    (mem : ℕ → ℕ) (addr : ℕ) (pii : IpLink) (r : Reply)
    → addr < 2 ^ 32
    → Holds mem 6 (octets32 addr)
    → check_option mem 6 3 6 (pii, r)
      ≡ (record pii { remote_ip_addr = addr }, frame_ack r 3 6 (octets32 addr))
unfolding check_option
offer-check_option mem addr pii r bound h =
    rw (read32-octets32 mem addr bound h) rw (slice-octets32 mem addr h) refl

offer-check_request :
    (mem : ℕ → ℕ) (addr : ℕ) (pii : IpLink)
    → addr < 2 ^ 32
    → Holds mem 4 (offer addr)
    → check_request mem 6 4 pii ≡ (
      record pii { remote_ip_addr = addr },
      record { parse_state = usage_ack; code = 2; options = offer addr },
    )
unfolding check_request check_options frame_ack
offer-check_request mem addr pii bound h =
    let fresh : Reply = record { parse_state = usage_ack; code = 2; options = [] } in
    rw h.0 rw h.1.0 (offer-check_option mem addr pii fresh bound h.1.1)

module _ {Options : Type 0} (layer : Control.Layer Options) where
  event_rcr_p-lem :
      (c : Control Options) (octets : List ℕ)
      → c.state ≡ Control.state_req_sent
      → c.send ≡ Control.held octets
      → Control.handle_event layer Control.event_rcr_p c
        ≡ (record c { state = Control.state_ack_sent; send = released }, sent octets ∷ [])
  unfolding Control.handle_event
  event_rcr_p-lem c octets s h = rw s rw h refl

  event_rca-lem :
      (c : Control Options)
      → c.state ≡ Control.state_ack_sent
      → Control.handle_event layer Control.event_rca c ≡ (
        record c {
          phase = Control.phase_network;
          state = Control.state_opened;
          is_attached = false;
          restart_counter =
              if Control.is_terminate c.phase
              then Control.restart_max_terminate
              else Control.restart_max_configure;
        },
        layer.up c.options,
      )
  unfolding Control.handle_event
  event_rca-lem c s = rw s refl

recv_ipcp-conf_req :
    (mem : ℕ → ℕ) (ident addr : ℕ) (c : Control IpLink)
    → Holds mem 0 (packet 1 ident (offer addr))
    → recv_ipcp mem 10 c ≡ recv_conf_req mem ident 6 c
unfolding recv_ipcp
recv_ipcp-conf_req mem ident addr c h = rw h.0 rw h.1.0 rw h.1.1.0 rw h.1.1.1.0 refl

recv_ipcp-conf_ack :
    (mem : ℕ → ℕ) (ident addr : ℕ) (c : Control IpLink)
    → Holds mem 0 (packet 2 ident (offer addr))
    → recv_ipcp mem 10 c ≡ recv_conf_ack mem ident 6 c
unfolding recv_ipcp
recv_ipcp-conf_ack mem ident addr c h = rw h.0 rw h.1.0 rw h.1.1.0 rw h.1.1.1.0 refl

recv_conf_req-offer :
    (mem : ℕ → ℕ) (ident addr : ℕ) (c : Control IpLink)
    → c.state ≡ Control.state_req_sent
    → addr < 2 ^ 32
    → Holds mem 4 (offer addr)
    → recv_conf_req mem ident 6 c ≡ (
      record c {
        state = Control.state_ack_sent;
        send = released;
        options = record c.options { remote_ip_addr = addr };
      },
      sent (packet 2 ident (offer addr)) ∷ [],
    )
unfolding recv_conf_req
recv_conf_req-offer mem ident addr c s bound h =
    let c' : Control IpLink = record c {
      send = Control.held (packet 2 ident (offer addr));
      options = record c.options { remote_ip_addr = addr };
    } in
    rw (offer-check_request mem addr c.options bound h)
      (event_rcr_p-lem ipcp c' (packet 2 ident (offer addr)) s refl)

offer-check_ack :
    (mem : ℕ → ℕ) (addr : ℕ) (pii : IpLink)
    → addr < 2 ^ 32
    → Holds mem 4 (offer addr)
    → check_ack mem 6 4 pii ≡ record pii { local_ip_addr = addr; local_ip_addr_usage = usage_ack }
unfolding check_ack walk_options ack_option
offer-check_ack mem addr pii bound h =
    rw h.0 rw h.1.0 rw (read32-octets32 mem addr bound h.1.1) refl

recv_conf_ack-offer :
    (mem : ℕ → ℕ) (addr : ℕ) (c : Control IpLink)
    → c.state ≡ Control.state_ack_sent
    → addr < 2 ^ 32
    → Holds mem 4 (offer addr)
    → recv_conf_ack mem c.ident 6 c
      ≡ handle_event Control.event_rca (record c {
        options = record c.options { local_ip_addr = addr; local_ip_addr_usage = usage_ack };
      })
unfolding recv_conf_ack
recv_conf_ack-offer mem addr c s bound h =
    let same : (c.ident == c.ident) ≡ true = ground arith in
    rw same rw (offer-check_ack mem addr c.options bound h) refl

-- An instance that is up, with the two addresses.
abbrev pub IsUp : Control IpLink → ℕ → ℕ → Type 0
IsUp c local remote =
    (c.state ≡ Control.state_opened)
    × ((c.phase ≡ Control.phase_network)
        × ((c.options.local_ip_addr ≡ local) × (c.options.remote_ip_addr ≡ remote)))

build_req-offer :
    (pii : IpLink) → pii.local_ip_addr_usage ≡ usage_ack → build_req pii ≡ offer pii.local_ip_addr
unfolding build_req
build_req-offer pii u =
    let same : (pii.local_ip_addr_usage == usage_ack) ≡ true = ground arith in rw same refl

-- One side of the exchange.
side :
    (c peer : Control IpLink) (req ack : ℕ → ℕ)
    → c.state ≡ Control.state_req_sent
    → c.options.local_ip_addr_usage ≡ usage_ack
    → peer.options.local_ip_addr_usage ≡ usage_ack
    → c.options.local_ip_addr < 2 ^ 32
    → peer.options.local_ip_addr < 2 ^ 32
    → Holds req 0 (packet 1 peer.ident (build_req peer.options))
    → Holds ack 0 (packet 2 c.ident (build_req c.options))
    → let (c₁, effects) = recv_ipcp req 10 c in
      (effects ≡ sent (packet 2 peer.ident (build_req peer.options)) ∷ [])
      × IsUp (recv_ipcp ack 10 c₁).0 c.options.local_ip_addr peer.options.local_ip_addr
side c peer req ack s u v bound bound' asks acks =
    let asked =
      subst (λ octets. Holds req 0 (packet 1 peer.ident octets)) (build_req-offer peer.options v)
        asks in
    let acked =
      subst (λ octets. Holds ack 0 (packet 2 c.ident octets)) (build_req-offer c.options u) acks in
    let local = c.options.local_ip_addr in
    let remote = peer.options.local_ip_addr in
    let c₁ : Control IpLink = record c {
      state = Control.state_ack_sent;
      send = released;
      options = record c.options { remote_ip_addr = remote };
    } in
    let first : recv_ipcp req 10 c ≡ (c₁, sent (packet 2 peer.ident (offer remote)) ∷ []) =
      recv_ipcp-conf_req req peer.ident remote c asked
      ∙ recv_conf_req-offer req peer.ident remote c s bound' asked.1.1.1.1 in
    let second =
      recv_ipcp-conf_ack ack c.ident local c₁ acked
      ∙ recv_conf_ack-offer ack local c₁ refl bound acked.1.1.1.1
      ∙ event_rca-lem ipcp
          (record c₁ {
            options = record c₁.options { local_ip_addr = local; local_ip_addr_usage = usage_ack };
          })
          refl in
    rw first rw (build_req-offer peer.options v)
      (refl, subst (λ out. IsUp out.0 local remote) (sym second) (refl, (refl, (refl, refl))))

-- Two instances that have each sent a configure-request for their address, of 32 bits, open their link by
-- the four packets of the exchange: each answers the other's request by the acknowledgement of it, and when
-- it has the other's acknowledgement of its own, it is opened and in the network phase, with its own address
-- as before and the other's as the remote one.
pub recv_ipcp-IsUp :
    (a b : Control IpLink) (req_a req_b ack_a ack_b : ℕ → ℕ)
    → a.state ≡ Control.state_req_sent
    → b.state ≡ Control.state_req_sent
    → a.options.local_ip_addr_usage ≡ usage_ack
    → b.options.local_ip_addr_usage ≡ usage_ack
    → a.options.local_ip_addr < 2 ^ 32
    → b.options.local_ip_addr < 2 ^ 32
    → Holds req_a 0 (packet 1 a.ident (build_req a.options))
    → Holds req_b 0 (packet 1 b.ident (build_req b.options))
    → Holds ack_a 0 (packet 2 b.ident (build_req b.options))
    → Holds ack_b 0 (packet 2 a.ident (build_req a.options))
    → let (a₁, from_a) = recv_ipcp req_b 10 a in
      let (b₁, from_b) = recv_ipcp req_a 10 b in
      ((from_a ≡ sent (packet 2 b.ident (build_req b.options)) ∷ [])
        × IsUp (recv_ipcp ack_b 10 a₁).0 a.options.local_ip_addr b.options.local_ip_addr)
      × ((from_b ≡ sent (packet 2 a.ident (build_req a.options)) ∷ [])
          × IsUp (recv_ipcp ack_a 10 b₁).0 b.options.local_ip_addr a.options.local_ip_addr)
recv_ipcp-IsUp a b req_a req_b ack_a ack_b s s' u u' m m' asks asks' acks acks' =
    (side a b req_b ack_b s u u' m m' asks' acks', side b a req_a ack_a s' u' u m' m asks acks)
