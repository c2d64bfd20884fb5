-- ===== src/Network/Interface/Kept.antt =====
-- What a call of `Interface::sock` keeps (src/flashptp/network/interface.cpp).
use flashptpd.Prelude.{
  ℕ, ◌≡◌, refl, sym, ◌∙◌, inl, inr, Bool, true, false, List, [], ◌∷◌, ◌++◌, Option, none, some,
  Bool-cases, All,
}
use mathlib.Core.Path.{subst}
use flashptpd.Client.Sequence.{TimestampLevel}
use flashptpd.Network.Address.{Family}
use flashptpd.Network.Interface.{
  Interface, Socket, Opening, Search, Sock, timestamp_level, is_some, get_family_addr, new_socket,
  valid_socket, find_sock, sock,
}
use flashptpd.Network.Interface.Sockets.{
  with_sock, Outcome, follows_null, finds, has_no_address, is_refused, opens, sock-Outcome,
}

-- The interface with other pointers.
abbrev pub with_socks : List (Option Socket) → Interface → Interface
with_socks socks i = record i { socks = socks }

-- A property of the pointers holds of the one that `sock` returns, if that is a socket.
abbrev pub Returned : (Option Socket → Type 0) → Option Socket → Type 0
Returned P none = Unit {0}
Returned P (some s) = P (some s)

All-snoc :
    (P : Option Socket → Type 0) (socks : List (Option Socket)) (o : Option Socket)
    → All P socks
    → P o
    → All P (socks ++ o ∷ [])
All-snoc P [] o h v = (v, tt)
All-snoc P (x ∷ socks) o h v = (h.0, All-snoc P socks o h.1 v)

find_sock-All :
    (P : Option Socket → Type 0) (p : Socket → Bool) (socks : List (Option Socket)) (s : Socket)
    → All P socks
    → find_sock p socks ≡ Search.found s
    → P (some s)
unfolding find_sock
find_sock-All P p [] s h e = absurd (cc)
find_sock-All P p (none ∷ socks) s h e = absurd (cc)
find_sock-All P p (some t ∷ socks) s h e = elim (Bool-cases (p t)) [
  | inl f ↦
      let same : Search.found t ≡ Search.found s = sym (rw f refl) ∙ e in
      let equal : t ≡ s = cc same in subst (λ x. P (some x)) equal h.0
  | inr f ↦ find_sock-All P p socks s h.1 (sym (rw f refl) ∙ e)
]

abbrev Kept : (Option Socket → Type 0) → Interface → Interface × Option Socket → Type 0
Kept P i (j, o) = (j ≡ with_socks j.socks i) × All P j.socks × Returned P o

result-Kept :
    (P : Option Socket → Type 0) (i k j : Interface) (o p : Option Socket)
    → Sock.result k o ≡ Sock.result j p
    → Kept P i (k, o)
    → Kept P i (j, p)
result-Kept P i k j o p e h =
    let same : k ≡ j = cc e in
    let equal : o ≡ p = cc e in
    let pair : (k, o) ≡ (j, p) = cc (same, equal) in subst (Kept P i) pair h

Outcome-All :
    (P : Option Socket → Type 0) (how : Opening) (family : Family) (level : TimestampLevel)
    (port : ℕ) (i j : Interface) (o : Option Socket) (r : Sock)
    → (valid_socket (new_socket how (timestamp_level i) family level port) ≡ false → P none)
    → (is_some (get_family_addr family i) ≡ true
        → P (some (new_socket how (timestamp_level i) family level port)))
    → All P i.socks
    → Outcome how family level port i r
    → r ≡ Sock.result j o
    → Kept P i (j, o)
Outcome-All P how family level port i j o _ n k h (follows_null f) e = absurd (cc e)
Outcome-All P how family level port i j o _ n k h (finds s f) e =
    result-Kept P i i j (some s) o e (refl, h, find_sock-All P _ i.socks s h f)
Outcome-All P how family level port i j o _ n k h (has_no_address g) e =
    result-Kept P i i j none o e (refl, h, tt)
Outcome-All P how family level port i j o _ n k h (is_refused v) e =
    result-Kept P i (with_sock none i) j none o e (refl, All-snoc P i.socks none h (n v), tt)
Outcome-All P how family level port i j o _ n k h (opens f g) e =
    let new = new_socket how (timestamp_level i) family level port in
    result-Kept P i (with_sock (some new) i) j (some new) o e
      (refl, All-snoc P i.socks (some new) h (k g), k g)

-- What holds of the pointers that an interface has, and of the one that a new socket is stored as, holds
-- of all that it has after a call of `sock`, which changes nothing else.
pub sock-All :
    (P : Option Socket → Type 0) (how : Opening) (family : Family) (level : TimestampLevel)
    (port : ℕ) (i j : Interface) (o : Option Socket)
    → (valid_socket (new_socket how (timestamp_level i) family level port) ≡ false → P none)
    → (is_some (get_family_addr family i) ≡ true
        → P (some (new_socket how (timestamp_level i) family level port)))
    → All P i.socks
    → sock how family level port i ≡ Sock.result j o
    → (j ≡ with_socks j.socks i) × All P j.socks × Returned P o
sock-All P how family level port i j o n k h e =
    Outcome-All P how family level port i j o (sock how family level port i) n k h
      (sock-Outcome how family level port i) e
