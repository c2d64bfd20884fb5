-- ===== src/Network/Interface/Again.antt =====
-- What a second call of `Interface::sock` finds (src/flashptp/network/interface.cpp).
use flashptpd.Prelude.{ℕ, ◌≡◌, refl, ap, ◌∙◌, true, false, Option, none, some}
use mathlib.Core.Path.{subst}
use flashptpd.Client.Sequence.{TimestampLevel}
use flashptpd.Network.Address.{Family}
use flashptpd.Network.Interface.{
  Interface, Socket, Opening, Search, Sock, above, timestamp_level, is_some, get_family_addr,
  new_socket, matches, find_sock, sock,
}
use flashptpd.Network.Interface.Sockets.{
  Outcome, follows_null, finds, has_no_address, is_refused, opens, sock-Outcome, find_sock-append,
  find_sock-one, find_sock_null, new_socket-matches, sock-found, sock_null, sock-refused, with_sock,
}

result-injective :
    {i j : Interface} {o p : Option Socket} → Sock.result i o ≡ Sock.result j p → (i ≡ j) × (o ≡ p)
result-injective e = (cc e, cc e)

Outcome-again :
    (how how' : Opening) (family : Family) (level : TimestampLevel) (port : ℕ) (i j : Interface)
    (s : Socket) (r : Sock)
    → above level (timestamp_level i) ≡ false
    → Outcome how family level port i r
    → r ≡ Sock.result j (some s)
    → sock how' family level port j ≡ Sock.result j (some s)
Outcome-again how how' family level port i j s _ l (follows_null f) e = absurd (cc e)
Outcome-again how how' family level port i j s _ l (finds t f) e =
    let same = result-injective e in
    subst (λ k. sock how' family level port k ≡ Sock.result k (some s)) same.0
      (sock-found how' family level port i t f ∙ ap (Sock.result i) same.1)
Outcome-again how how' family level port i j s _ l (has_no_address g) e =
    absurd (cc (result-injective e).1)
Outcome-again how how' family level port i j s _ l (is_refused v) e =
    absurd (cc (result-injective e).1)
Outcome-again how how' family level port i j s _ l (opens f g) e =
    let new = new_socket how (timestamp_level i) family level port in
    let same = result-injective e in
    let there =
      find_sock-append (matches family level port) i.socks (some new) f
      ∙ find_sock-one (matches family level port) new
          (new_socket-matches how (timestamp_level i) family level port l) in
    subst (λ k. sock how' family level port k ≡ Sock.result k (some s)) same.0
      (sock-found how' family level port (with_sock (some new) i) new there
        ∙ ap (Sock.result (with_sock (some new) i)) same.1)

-- The same call again, whatever the system would answer then, returns the same socket and leaves the
-- interface as it is, if the level asked for is one that the interface has.
pub sock-again :
    (how how' : Opening) (family : Family) (level : TimestampLevel) (port : ℕ) (i j : Interface)
    (s : Socket)
    → above level (timestamp_level i) ≡ false
    → sock how family level port i ≡ Sock.result j (some s)
    → sock how' family level port j ≡ Sock.result j (some s)
sock-again how how' family level port i j s l e =
    Outcome-again how how' family level port i j s (sock how family level port i) l
      (sock-Outcome how family level port i) e

-- If no socket matches a call, of a family that the interface has an address of, and the system
-- refuses a new one, then the call returns none, and each later call that no socket before it
-- matches follows a null pointer.
pub sock-null_pointer :
    (how : Opening) (family family' : Family) (level level' : TimestampLevel) (port port' : ℕ)
    (i : Interface)
    → find_sock (matches family level port) i.socks ≡ Search.missing
    → is_some (get_family_addr family i) ≡ true
    → find_sock (matches family' level' port') i.socks ≡ Search.missing
    → (j : Interface) × (sock Opening.refused family level port i ≡ Sock.result j none)
      × (sock how family' level' port' j ≡ Sock.null_pointer)
unfolding new_socket
sock-null_pointer how family family' level level' port port' i e h f = (
  with_sock none i,
  sock-refused Opening.refused family level port i e h refl,
  sock_null how family' level' port' (with_sock none i) (
      find_sock-append (matches family' level' port') i.socks none f
      ∙ find_sock_null (matches family' level' port')),
)
