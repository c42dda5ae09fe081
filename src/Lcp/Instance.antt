-- ===== src/Lcp/Instance.antt =====
-- The options and the clients of a link, and its copy of the automaton, src/lib/ppp/ppp.c.
use liquorice.Base.{ℕ, bit_and, Bool, true, false, ◌&&◌, List, [], ◌∷◌, ◌++◌, ◌==◌, if◌then◌else◌}
use liquorice.Octets.{octets16, octets32}
use liquorice.Control.{Layer, Effect, link_up, set_accm}
use liquorice.Control.Replies.{usage_ack, usage_rej}

-- `struct ppp_client`: whether it has a `pc_link_up`, and the server that it was given.
pub record Client : Type 0 where
  pub protocol : ℕ
  pub has_link_up : Bool
  pub server : ℕ

-- The part of `struct ppp_instance` that is not the automaton's.
pub record Link : Type 0 where
  pub mru : ℕ
  pub mru_usage : ℕ
  pub accm : ℕ
  pub accm_usage : ℕ
  pub local_magic_number : ℕ
  pub local_magic_number_usage : ℕ
  pub remote_magic_number : ℕ
  pub pfc : Bool
  pub pfc_usage : ℕ
  pub acfc : Bool
  pub acfc_usage : ℕ
  pub client_list : List Client

-- `lcp_build_req()`, from `reply_start` on.
abbrev pub build_mru : Link → List ℕ
build_mru pi = if pi.mru_usage == usage_ack then 0x01 ∷ 4 ∷ octets16 pi.mru else []

abbrev pub build_accm : Link → List ℕ
build_accm pi = if pi.accm_usage == usage_ack then 0x02 ∷ 6 ∷ octets32 pi.accm else []

unfoldable pub build_req : Link → List ℕ
build_req pi = build_mru pi ++ build_accm pi

-- `lcp_implement_options()`
unfoldable pub implement_options : Link → List Effect
implement_options pi = if pi.accm_usage == usage_ack then set_accm pi.accm ∷ [] else []

-- `lcp_default_options()`, before it implements them.
unfoldable pub default_options : Link → Link
default_options pi = record pi {
  mru = 1500;
  mru_usage = usage_ack;
  accm = 0xffffffff;
  accm_usage = usage_ack;
  local_magic_number = 0;
  local_magic_number_usage = usage_rej;
  remote_magic_number = 0;
  pfc = false;
  pfc_usage = usage_rej;
  acfc = false;
  acfc_usage = usage_rej;
}

-- The walk of TLU along the clients.
unfoldable pub notify : List Client → List Effect
notify [] = []
notify (pc ∷ clients) =
    if (bit_and pc.protocol 0xff00 == 0x8000) && pc.has_link_up
    then link_up pc.protocol ∷ notify clients
    else notify clients

-- The link's copy of the automaton.
unfoldable pub lcp : Layer Link
lcp = record {
  build_req = build_req;
  default_options = default_options;
  defaulted = implement_options;
  up = λ pi. implement_options pi ++ notify pi.client_list;
  has_echo = true;
}
