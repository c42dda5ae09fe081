-- ===== src/Ppp/Clients.antt =====
-- The list of clients as a map from protocols to clients.
use liquorice.Base.{
  ℕ, ◌≡◌, ◌≢◌, refl, ap, ◌∙◌, sym, false, Option, none, some, List, [], ◌∷◌, arith, ◌==◌,
  if◌then◌else◌, Bool-cases, inl, inr, subst,
}
use liquorice.Lcp.Instance.{Client}
use liquorice.Ppp.{find_client, attach_found, client_attach, client_detach}

-- No two clients have a protocol in common, nor a server.
abbrev pub IsApart : Client → Client → Type 0
IsApart pc pc' = (pc.protocol ≢ pc'.protocol) × (pc.server ≢ pc'.server)

abbrev pub AllApart : Client → List Client → Type 0
AllApart pc [] = Unit {0}
AllApart pc (pc' ∷ clients) = IsApart pc pc' × AllApart pc clients

abbrev pub AreApart : List Client → Type 0
AreApart [] = Unit {0}
AreApart (pc ∷ clients) = AllApart pc clients × AreApart clients

-- A map's entry for a protocol, without the client of a server.
abbrev pub drop_server : ℕ → Option Client → Option Client
drop_server server none = none
drop_server server (some pc) = if pc.server == server then none else some pc

abbrev pub put : Client → ℕ → Option Client → Option Client
put pc server none = some (record pc { server = server })
put pc server (some pc') = some pc'

attach_found-find_client :
    (pc : Client) (server q : ℕ) (clients : List Client) (found : Option Client)
    → find_client pc.protocol clients ≡ found
    → find_client q (attach_found pc server clients found).0
      ≡ (if pc.protocol == q then put pc server (find_client q clients) else find_client q clients)
unfolding attach_found find_client
attach_found-find_client pc server q clients none e = elim (Bool-cases (pc.protocol == q)) [
  | inl same ↦
      let same' : q ≡ pc.protocol = ground arith in
      let missing : find_client q clients ≡ none = ap (λ p. find_client p clients) same' ∙ e in
      rw same rw missing refl
  | inr other ↦ rw other refl
]
attach_found-find_client pc server q clients (some p) e = elim (Bool-cases (pc.protocol == q)) [
  | inl same ↦
      let same' : q ≡ pc.protocol = ground arith in
      let there : find_client q clients ≡ some p = ap (λ p. find_client p clients) same' ∙ e in
      rw same rw there refl
  | inr other ↦ rw other refl
]

-- Attaching a client adds it to the map under its protocol unless the protocol has one, which then stays, and
-- no other protocol's entry changes.
pub client_attach-find_client :
    (pc : Client) (server q : ℕ) (clients : List Client)
    → find_client q (client_attach pc server clients).0
      ≡ (if pc.protocol == q then put pc server (find_client q clients) else find_client q clients)
unfolding client_attach
client_attach-find_client pc server q clients =
    attach_found-find_client pc server q clients (find_client pc.protocol clients) refl

find_client-apart :
    (pc : Client) (clients : List Client)
    → AllApart pc clients
    → find_client pc.protocol clients ≡ none
unfolding find_client
find_client-apart pc [] apart = refl
find_client-apart pc (pc' ∷ clients) (here, rest) =
    let ih = find_client-apart pc clients rest in
    elim (Bool-cases (pc'.protocol == pc.protocol)) [
      | inl e ↦ let e' : pc.protocol ≡ pc'.protocol = ground arith in absurd (here.0 e')
      | inr e ↦ rw e ih
    ]

drop_server-apart :
    (pc : Client) (q : ℕ) (clients : List Client)
    → AllApart pc clients
    → drop_server pc.server (find_client q clients) ≡ find_client q clients
unfolding find_client
drop_server-apart pc q [] apart = refl
drop_server-apart pc q (pc' ∷ clients) (here, rest) =
    let ih = drop_server-apart pc q clients rest in
    elim (Bool-cases (pc'.protocol == q)) [
      | inl e ↦
          let apart : (pc'.server == pc.server) ≡ false = ground (arith, here.1) in
          rw e rw apart refl
      | inr e ↦ rw e ih
    ]

-- Detaching a server takes its client, and no other, out of the map, where no two clients have a protocol or
-- a server in common.
pub client_detach-find_client :
    (server q : ℕ) (clients : List Client)
    → AreApart clients
    → find_client q (client_detach server clients) ≡ drop_server server (find_client q clients)
unfolding client_detach find_client
client_detach-find_client server q [] apart = refl
client_detach-find_client server q (pc ∷ clients) (others, apart) =
    let ih = client_detach-find_client server q clients apart in
    elim (Bool-cases (pc.server == server)) [
      | inl s ↦
          let s' : pc.server ≡ server = ground arith in
          elim (Bool-cases (pc.protocol == q)) [
            | inl p ↦
                let p' : pc.protocol ≡ q = ground arith in
                let gone : find_client q clients ≡ none =
                  ap (λ p. find_client p clients) (sym p') ∙ find_client-apart pc clients others in
                rw s rw p rw gone rw s refl
            | inr p ↦
                let stays : drop_server server (find_client q clients) ≡ find_client q clients =
                  subst (λ n. drop_server n (find_client q clients) ≡ find_client q clients) s'
                    (drop_server-apart pc q clients others) in
                rw s rw p (sym stays)
          ]
      | inr s ↦ elim (Bool-cases (pc.protocol == q)) [
        | inl p ↦ rw s rw p rw s refl
        | inr p ↦ rw s rw p ih
      ]
    ]
