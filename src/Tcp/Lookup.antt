-- ===== src/Tcp/Lookup.antt =====
-- Which socket of src/lib/tcp/tcp.c a segment goes to, among the sockets that its list can hold.
use liquorice.Base.{
  ℕ, ◌≡◌, refl, ap, ◌∙◌, Bool, true, false, not, ◌&&◌, ◌||◌, Option, some, none, List, [], ◌∷◌,
  ◌++◌, ◌==◌, ◌⊎◌, inl, inr, if◌then◌else◌, arith, All, if_then, if_else, branch, Bool-cases,
}
use liquorice.Tcp.Socket.{Segment, Socket}
use liquorice.Tcp.Sockets.{
  Attached, is_listen, is_clash, has_clash, tcp_socket_attach, tcp_socket_detach, find_socket,
}

-- A connection that a segment belongs to, and a listener that it may start one with.
abbrev pub is_owner : Segment → ℕ → Socket → Bool
is_owner seg src_addr ts =
    ((ts.local_port == seg.dest_port) && not (is_listen ts.state))
    && ((ts.remote_addr == src_addr) && (ts.remote_port == seg.src_port))

abbrev pub is_listener : Segment → Socket → Bool
is_listener seg ts = (ts.local_port == seg.dest_port) && is_listen ts.state

-- The sockets of which no two clash or stand at one address.
abbrev pub is_same : Attached → Attached → Bool
is_same a b = is_clash a.sock b.sock || (a.at == b.at)

abbrev pub IsDistinct : List Attached → Type 0
IsDistinct [] = Unit
IsDistinct (a ∷ rest) = All (λ b. is_same a b ≡ false) rest × IsDistinct rest

-- An address at which no socket of the list stands.
abbrev pub IsFresh : ℕ → List Attached → Type 0
IsFresh at socks = All (λ b. (at == b.at) ≡ false) socks

no_clash :
    (at : ℕ) (sock : Socket) (socks : List Attached)
    → has_clash sock socks ≡ false
    → IsFresh at socks
    → All (λ b. is_same (record { at = at; sock = sock }) b ≡ false) socks
no_clash at sock [] e f = tt
no_clash at sock (b ∷ rest) e (n, f) = (ground arith, no_clash at sock rest (ground arith) f)

pub tcp_socket_attach-IsDistinct :
    (at : ℕ) (sock : Socket) (socks : List Attached)
    → IsFresh at socks
    → IsDistinct socks
    → IsDistinct (tcp_socket_attach at sock socks)
unfolding tcp_socket_attach
tcp_socket_attach-IsDistinct at sock socks f d = elim (Bool-cases (has_clash sock socks)) [
  | inl e ↦ rw e d
  | inr e ↦ rw e (no_clash at sock socks e f, d)
]

detach-All {κ} :
    (P : Attached → Type κ) (at : ℕ) (socks : List Attached)
    → All P socks
    → All P (tcp_socket_detach at socks)
unfolding tcp_socket_detach
detach-All P at [] h = tt
detach-All P at (a ∷ rest) (p, h) =
    branch (All P) (a.at == at) rest (a ∷ tcp_socket_detach at rest) h (p, detach-All P at rest h)

pub tcp_socket_detach-IsDistinct :
    (at : ℕ) (socks : List Attached) → IsDistinct socks → IsDistinct (tcp_socket_detach at socks)
unfolding tcp_socket_detach
tcp_socket_detach-IsDistinct at [] d = tt
tcp_socket_detach-IsDistinct at (a ∷ rest) (h, d) =
    branch IsDistinct (a.at == at) rest (a ∷ tcp_socket_detach at rest) d
      (detach-All (λ b. is_same a b ≡ false) at rest h, tcp_socket_detach-IsDistinct at rest d)

pub find-cons :
    (seg : Segment) (src_addr : ℕ) (found : Option Attached) (a : Attached) (rest : List Attached)
    → ((is_owner seg src_addr a.sock ≡ true) × (find_socket seg src_addr found (a ∷ rest) ≡ some a))
      ⊎ ((is_owner seg src_addr a.sock ≡ false)
          × (find_socket seg src_addr found (a ∷ rest)
              ≡ find_socket seg src_addr (if is_listener seg a.sock then some a else found) rest))
unfolding find_socket
find-cons seg src_addr found a rest = ground arith

-- Where the sockets are connected to one segment, they clash.
same-is_clash :
    (seg : Segment) (src_addr : ℕ) (ts sock : Socket)
    → is_owner seg src_addr ts ≡ true
    → is_owner seg src_addr sock ≡ true
    → is_clash ts sock ≡ true
same-is_clash seg src_addr ts sock p q = ground arith

Bool-clash : {b : Bool} → b ≡ true → b ≡ false → ⊥
Bool-clash p q = absurd (cc)

pub All-parts {κ} :
    (P : Attached → Type κ) (xs ys : List Attached) → All P (xs ++ ys) → All P xs × All P ys
All-parts P [] ys h = (tt, h)
All-parts P (x ∷ xs) ys (p, h) = let rest = All-parts P xs ys h in ((p, rest.0), rest.1)

same_port-is_clash :
    (seg : Segment) (ts sock : Socket)
    → is_listener seg ts ≡ true
    → is_listener seg sock ≡ true
    → is_clash ts sock ≡ true
same_port-is_clash seg ts sock p q = ground arith

no_same : (a b : Attached) → is_same a b ≡ false → is_clash a.sock b.sock ≡ false
no_same a b e = ground arith

module _ (seg : Segment) (src_addr : ℕ) where
  find_owner :
      (found : Option Attached) (before after : List Attached) (a : Attached)
      → IsDistinct (before ++ a ∷ after)
      → is_owner seg src_addr a.sock ≡ true
      → find_socket seg src_addr found (before ++ a ∷ after) ≡ some a
  find_owner found [] after a d o = elim (find-cons seg src_addr found a after) [
    | inl (e, f) ↦ f
    | inr (e, f) ↦ absurd (cc)
  ]
  find_owner found (b ∷ before) after a (h, d) o =
      let other : is_clash b.sock a.sock ≡ false =
        no_same b a (All-parts (λ c. is_same b c ≡ false) before (a ∷ after) h).1.0 in
      elim (find-cons seg src_addr found b (before ++ a ∷ after)) [
        | inl (e, f) ↦ absurd (Bool-clash (same-is_clash seg src_addr b.sock a.sock e o) other)
        | inr (e, f) ↦
            f ∙ find_owner (if is_listener seg b.sock then some b else found) before after a d o
      ]

  abbrev IsStranger : Attached → Type 0
  IsStranger b = is_owner seg src_addr b.sock ≡ false

  find_none :
      (found : Option Attached) (socks : List Attached)
      → All IsStranger socks
      → All (λ b. is_listener seg b.sock ≡ false) socks
      → find_socket seg src_addr found socks ≡ found
  unfolding find_socket
  find_none found [] h l = refl
  find_none found (b ∷ rest) (n, h) (m, l) = elim (find-cons seg src_addr found b rest) [
    | inl (e, f) ↦ absurd (cc)
    | inr (e, f) ↦
        f
        ∙ ap (λ x. find_socket seg src_addr x rest) (if_else _ (some b) found m)
        ∙ find_none found rest h l
  ]

  none_listens :
      (a : Attached) (socks : List Attached)
      → is_listener seg a.sock ≡ true
      → All (λ b. is_same a b ≡ false) socks
      → All (λ b. is_listener seg b.sock ≡ false) socks
  none_listens a [] l h = tt
  none_listens a (b ∷ rest) l (e, h) = (
    elim (Bool-cases (is_listener seg b.sock)) [
      | inl m ↦ absurd (Bool-clash (same_port-is_clash seg a.sock b.sock l m) (no_same a b e))
      | inr m ↦ m
    ],
    none_listens a rest l h,
  )

  find_listener :
      (found : Option Attached) (before after : List Attached) (a : Attached)
      → IsDistinct (before ++ a ∷ after)
      → is_listener seg a.sock ≡ true
      → All IsStranger (before ++ a ∷ after)
      → find_socket seg src_addr found (before ++ a ∷ after) ≡ some a
  find_listener found [] after a (h, d) l (n, s) = elim (find-cons seg src_addr found a after) [
    | inl (e, f) ↦ f
    | inr (e, f) ↦
        f
        ∙ ap (λ x. find_socket seg src_addr x after) (if_then _ (some a) found l)
        ∙ find_none (some a) after s (none_listens a after l h)
  ]
  find_listener found (b ∷ before) after a (h, d) l (n, s) =
      elim (find-cons seg src_addr found b (before ++ a ∷ after)) [
        | inl (e, f) ↦ absurd (cc)
        | inr (e, f) ↦
            f
            ∙ find_listener (if is_listener seg b.sock then some b else found) before after a d l s
      ]

  -- Among sockets of which no two clash, a segment goes to the connection that it belongs to, wherever that stands in
  -- the list, and to the listener on its port where it belongs to no connection.
  pub find_socket-sole :
      (before after : List Attached) (a : Attached)
      → IsDistinct (before ++ a ∷ after)
      → (is_owner seg src_addr a.sock ≡ true)
        ⊎ ((is_listener seg a.sock ≡ true) × All IsStranger (before ++ a ∷ after))
      → find_socket seg src_addr none (before ++ a ∷ after) ≡ some a
  find_socket-sole before after a d (inl o) = find_owner none before after a d o
  find_socket-sole before after a d (inr (l, s)) = find_listener none before after a d l s
