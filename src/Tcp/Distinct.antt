-- ===== src/Tcp/Distinct.antt =====
-- No two sockets of src/lib/tcp/tcp.c clash, whatever segments arrive.
use liquorice.Base.{
  ℕ, zero, suc, ◌≡◌, refl, ap, sym, ◌∙◌, subst, true, false, ◌&&◌, ◌||◌, Option, some, none, List,
  [], ◌∷◌, ◌++◌, ◌==◌, ltb, ◌+◌, ◌-◌, if◌then◌else◌, arith, All, branch, if_then, if_else,
  Bool-cases, Option-cases, ◌⊎◌, inl, inr, ==_iff,
}
use liquorice.Octets.{read16}
use liquorice.Tcp.Socket.{Segment, Socket, Event, Step}
use liquorice.Tcp.Machine.{tcp_recv_state_machine}
use liquorice.Tcp.Binding.{binding}
use liquorice.Tcp.Sockets.{
  Attached, find_socket, tcp_recv_options, put, is_detached, settled, tcp_recv_netbuf, recv_found,
  tcp_socket_detach,
}
use liquorice.Tcp.Lookup.{
  is_listener, is_same, IsDistinct, tcp_socket_detach-IsDistinct, find-cons, All-parts,
}
use liquorice.Tcp.Traffic.{IsAlike, tcp_recv_state_machine-IsAlike}

IsAlike-trans :
    (a b c : Socket)
    → IsAlike a b × (binding a ≡ binding b)
    → IsAlike b c × (binding b ≡ binding c)
    → IsAlike a c × (binding a ≡ binding c)
IsAlike-trans a b c (((p, l), x), e) (((q, m), y), f) = (((p ∙ q, l ∙ m), inr (e ∙ f)), e ∙ f)

options-IsAlike :
    (fuel : ℕ) (mem : ℕ → ℕ) (p size : ℕ) (sock : Socket)
    → IsAlike (tcp_recv_options fuel mem p size sock) sock
      × (binding (tcp_recv_options fuel mem p size sock) ≡ binding sock)
unfolding tcp_recv_options
options-IsAlike zero mem p size sock = (((refl, refl), inr refl), refl)
options-IsAlike (suc fuel) mem p size sock =
    let P : Socket → Type 0 = λ s. IsAlike s sock × (binding s ≡ binding sock) in
    let same : P sock = (((refl, refl), inr refl), refl) in
    let sized = record sock { remote_mss = read16 mem (p + 2) } in
    let sock1 : Socket = if (mem p == 2) && (mem (p + 1) == 2) then sized else sock in
    let same1 : P sock1 = branch P ((mem p == 2) && (mem (p + 1) == 2)) sized sock same same in
    branch P ((size == 0) || (mem p == 0)) sock _ same (
      branch P (mem p == 1) (tcp_recv_options fuel mem (p + 1) (size - 1) sock) _
        (options-IsAlike fuel mem (p + 1) (size - 1) sock)
        (branch P ((size == 1) || (ltb (mem (p + 1)) 2 || ltb size (mem (p + 1)))) sock _ same (
          IsAlike-trans (tcp_recv_options fuel mem (p + mem (p + 1)) (size - mem (p + 1)) sock1)
            sock1 sock (options-IsAlike fuel mem (p + mem (p + 1)) (size - mem (p + 1)) sock1)
            same1)))

is_same-left :
    (s : Socket) (a b : Attached)
    → IsAlike s a.sock
    → is_same a b ≡ false
    → is_same (record { at = a.at; sock = s }) b ≡ false
is_same-left s a b ((p, l), inl y) e = ground arith
is_same-left s a b ((p, l), inr x) e =
    let port : s.remote_port ≡ a.sock.remote_port = ap (λ (k : ℕ × ℕ × ℕ). k.1) x in
    let addr : s.remote_addr ≡ a.sock.remote_addr = ap (λ (k : ℕ × ℕ × ℕ). k.2) x in ground arith

is_same-right :
    (s : Socket) (a b : Attached)
    → IsAlike s a.sock
    → is_same b a ≡ false
    → is_same b (record { at = a.at; sock = s }) ≡ false
is_same-right s a b ((p, l), inl y) e = ground arith
is_same-right s a b ((p, l), inr x) e =
    let port : s.remote_port ≡ a.sock.remote_port = ap (λ (k : ℕ × ℕ × ℕ). k.1) x in
    let addr : s.remote_addr ≡ a.sock.remote_addr = ap (λ (k : ℕ × ℕ × ℕ). k.2) x in ground arith

All-alike :
    (s : Socket) (a : Attached) (socks : List Attached)
    → IsAlike s a.sock
    → All (λ b. is_same a b ≡ false) socks
    → All (λ b. is_same (record { at = a.at; sock = s }) b ≡ false) socks
All-alike s a [] k h = tt
All-alike s a (b ∷ rest) k (e, h) = (is_same-left s a b k e, All-alike s a rest k h)

put-All {κ} :
    (P : Attached → Type κ) (at : ℕ) (s : Socket) (socks : List Attached)
    → P (record { at = at; sock = s })
    → All P socks
    → All P (put at s socks)
put-All P at s [] p h = tt
put-All P at s (a ∷ rest) p (q, h) = elim (Bool-cases (a.at == at)) [
  | inl e ↦
      rw e (subst (λ (i : ℕ). P (record { at = i; sock = s })) (sym ((==_iff a.at at).0 e)) p, h)
  | inr e ↦ rw e (q, put-All P at s rest p h)
]

-- A socket in the list is replaced by one that is alike.
put-IsDistinct :
    (before after : List Attached) (a : Attached) (s : Socket)
    → IsAlike s a.sock
    → IsDistinct (before ++ a ∷ after)
    → IsDistinct (put a.at s (before ++ a ∷ after))
put-IsDistinct [] after a s k (h, d) =
    let here : (a.at == a.at) ≡ true = ground arith in rw here (All-alike s a after k h, d)
put-IsDistinct (b ∷ before) after a s k (h, d) =
    let at_a : is_same b a ≡ false =
      (All-parts (λ c. is_same b c ≡ false) before (a ∷ after) h).1.0 in
    let other : (b.at == a.at) ≡ false = ground arith in
    rw other (
      put-All (λ c. is_same b c ≡ false) a.at s (before ++ a ∷ after) (is_same-right s a b k at_a)
          h,
      put-IsDistinct before after a s k d,
    )

-- A socket that the search finds stands in the list.
Stands : Attached → List Attached → Type 0
Stands a socks = (before after : List Attached) × (socks ≡ before ++ a ∷ after)

Stands-cons : (a b : Attached) (socks : List Attached) → Stands a socks → Stands a (b ∷ socks)
unfolding Stands
Stands-cons a b socks (before, after, e) = (b ∷ before, after, ap (λ l. b ∷ l) e)

some-injective : {a b : Attached} → some a ≡ some b → a ≡ b
some-injective e = cc

IsAlike-through :
    (a b c : Socket) → IsAlike a b → IsAlike b c × (binding b ≡ binding c) → IsAlike a c
IsAlike-through a b c ((p, l), inl y) (((q, m), x), f) = ((p ∙ q, l ∙ m), inl (sym m ∙ y))
IsAlike-through a b c ((p, l), inr e) (((q, m), x), f) = ((p ∙ q, l ∙ m), inr (e ∙ f))

find-Stands :
    (seg : Segment) (src_addr : ℕ) (found : Option Attached) (socks : List Attached) (a : Attached)
    → find_socket seg src_addr found socks ≡ some a
    → (found ≡ some a) ⊎ Stands a socks
unfolding find_socket Stands
find-Stands seg src_addr found [] a e = inl e
find-Stands seg src_addr found (b ∷ rest) a e = elim (find-cons seg src_addr found b rest) [
  | inl (o, f) ↦ inr ([], rest, ap (λ c. c ∷ rest) (some-injective (sym f ∙ e)))
  | inr (o, f) ↦
      elim (find-Stands seg src_addr (if is_listener seg b.sock then some b else found) rest a
        (sym f ∙ e)) [
          | inr s ↦ inr (Stands-cons a b rest s)
          | inl g ↦ elim (Bool-cases (is_listener seg b.sock)) [
            | inl y ↦ inr (
              [],
              rest,
              ap (λ c. c ∷ rest) (some-injective (sym (if_then _ (some b) found y) ∙ g)),
            )
            | inr n ↦ inl (sym (if_else _ (some b) found n) ∙ g)
          ]
        ]
]

settled-IsDistinct :
    (at : ℕ) (socks : List Attached) (m : Step)
    → IsDistinct (put at m.0 socks)
    → IsDistinct (settled at socks m).0
settled-IsDistinct at socks m d =
    branch IsDistinct (is_detached m.1) (tcp_socket_detach at (put at m.0 socks)) (put at m.0 socks)
      (tcp_socket_detach-IsDistinct at (put at m.0 socks) d) d

-- The list behind a segment, as it was where the segment is answered with a port unreachable message.
abbrev pub socks_after : List Attached → Option (List Attached × List Event) → List Attached
socks_after socks none = socks
socks_after socks (some r) = r.0

Stands-IsDistinct :
    (now src_addr : ℕ) (seg : Segment) (mem : ℕ → ℕ) (p size : ℕ) (socks : List Attached)
    (a : Attached)
    → IsDistinct socks
    → Stands a socks
    → IsDistinct (
        put a.at
          (tcp_recv_state_machine now (tcp_recv_options size mem p size a.sock) src_addr seg).0
          socks)
unfolding Stands
Stands-IsDistinct now src_addr seg mem p size socks a d (before, after, e) =
    let s1 = tcp_recv_options size mem p size a.sock in
    let m = tcp_recv_state_machine now s1 src_addr seg in
    let alike : IsAlike m.0 a.sock =
      IsAlike-through m.0 s1 a.sock (tcp_recv_state_machine-IsAlike now src_addr seg s1)
        (options-IsAlike size mem p size a.sock) in
    subst (λ l. IsDistinct (put a.at m.0 l)) (sym e)
      (put-IsDistinct before after a m.0 alike (subst IsDistinct e d))

-- Whatever segment arrives, with whatever options, of the sockets in the list no two come to clash.
pub tcp_recv_netbuf-IsDistinct :
    (now src_addr : ℕ) (seg : Segment) (mem : ℕ → ℕ) (p size : ℕ) (socks : List Attached)
    → IsDistinct socks
    → IsDistinct (socks_after socks (tcp_recv_netbuf now src_addr seg mem p size socks))
unfolding tcp_recv_netbuf
tcp_recv_netbuf-IsDistinct now src_addr seg mem p size socks d =
    let P : Option Attached → Type 0 =
      λ o. IsDistinct (socks_after socks (recv_found now src_addr seg mem p size socks o)) in
    elim (Option-cases (find_socket seg src_addr none socks)) [
      | inl e ↦ subst P (sym e) d
      | inr (a, e) ↦ elim (find-Stands seg src_addr none socks a e) [
        | inl f ↦ absurd (cc)
        | inr s ↦ subst P (sym e) (
            settled-IsDistinct a.at socks
              (tcp_recv_state_machine now (tcp_recv_options size mem p size a.sock) src_addr seg)
              (Stands-IsDistinct now src_addr seg mem p size socks a d s))
      ]
    ]
