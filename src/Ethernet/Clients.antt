-- ===== src/Ethernet/Clients.antt =====
-- The list of clients as a map from types to clients.
use liquorice.Base.{
  ℕ, ◌≡◌, ◌≢◌, refl, ap, ◌∙◌, not, ◌&&◌, Option, none, some, List, [], ◌∷◌, arith, ◌==◌,
  if◌then◌else◌, is_some, Bool-cases, inl, inr,
}
use liquorice.Ethernet.{EthernetClient, Instance, find_client, attach_found, client_attach, detach}

attach_found-find_client :
    (ec : EthernetClient) (server q : ℕ) (ei : Instance) (found : Option EthernetClient)
    → find_client ec.type_ ei.client_list ≡ found
    → find_client q (attach_found ec server ei found).0.client_list ≡ (
        if (ec.type_ == q) && not (is_some (find_client q ei.client_list))
        then some (record ec { server = server })
        else find_client q ei.client_list)
unfolding find_client
attach_found-find_client ec server q ei none e = elim (Bool-cases (ec.type_ == q)) [
  | inl same ↦
      let same' : q ≡ ec.type_ = ground arith in
      let missing : find_client q ei.client_list ≡ none =
        ap (λ p. find_client p ei.client_list) same' ∙ e in
      rw same rw missing refl
  | inr other ↦ rw other refl
]
attach_found-find_client ec server q ei (some p) e = elim (Bool-cases (ec.type_ == q)) [
  | inl same ↦
      let same' : q ≡ ec.type_ = ground arith in
      let there : find_client q ei.client_list ≡ some p =
        ap (λ p. find_client p ei.client_list) same' ∙ e in
      rw same rw there refl
  | inr other ↦ rw other refl
]

-- Attaching a client gives it its server unless its type has a client, which then stays as it was; no other
-- type's client changes.
pub client_attach-find_client :
    (ec : EthernetClient) (server q : ℕ) (ei : Instance)
    → find_client q (client_attach ec server ei).0.client_list ≡ (
        if (ec.type_ == q) && not (is_some (find_client q ei.client_list))
        then some (record ec { server = server })
        else find_client q ei.client_list)
unfolding client_attach
client_attach-find_client ec server q ei =
    attach_found-find_client ec server q ei (find_client ec.type_ ei.client_list) refl

-- Detaching a server leaves every client of another server where it was.
pub detach-others :
    (server q : ℕ) (clients : List EthernetClient) (ec : EthernetClient)
    → find_client q clients ≡ some ec
    → ec.server ≢ server
    → find_client q (detach server clients) ≡ some ec
unfolding detach find_client
detach-others server q [] ec found other = cc
detach-others server q (p ∷ clients) ec found other =
    ground (arith, detach-others server q clients ec)
