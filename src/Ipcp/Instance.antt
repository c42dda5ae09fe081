-- ===== src/Ipcp/Instance.antt =====
-- The options of IP over PPP, and its copy of the automaton, src/lib/ppp_ip/ppp_ip.c.
use liquorice.Base.{ℕ, false, Option, List, [], ◌∷◌, ◌==◌, if◌then◌else◌}
use liquorice.Octets.{octets32}
use liquorice.Control.{Layer}
use liquorice.Control.Replies.{usage_ack}

-- The part of `struct ppp_ip_instance` that is not the automaton's: the local address with its usage, the
-- remote address, and the client that stands above, `idi_client`.
pub record IpLink : Type 0 where
  pub local_ip_addr : ℕ
  pub local_ip_addr_usage : ℕ
  pub remote_ip_addr : ℕ
  pub client : Option ℕ

-- `ipcp_build_req()`, from `reply_start` on.
unfoldable pub build_req : IpLink → List ℕ
build_req pii =
    if pii.local_ip_addr_usage == usage_ack then 0x03 ∷ 6 ∷ octets32 pii.local_ip_addr else []

-- `ipcp_default_options()`
abbrev pub default_options : IpLink → IpLink
default_options pii = pii

-- The layer's copy of the automaton: it tells nobody that it is up, and SER does nothing.
unfoldable pub ipcp : Layer IpLink
ipcp = record {
  build_req = build_req;
  default_options = default_options;
  defaulted = λ pii. [];
  up = λ pii. [];
  has_echo = false;
}
