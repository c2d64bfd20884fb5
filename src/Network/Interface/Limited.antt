-- ===== src/Network/Interface/Limited.antt =====
-- The levels of the sockets stay within the interface's (src/flashptp/network/interface.cpp).
use flashptpd.Prelude.{ℕ, ◌≤◌, ◌≡◌, refl, ap, ◌∙◌, false, List, Option, none, some, arith, All}
use flashptpd.Client.Sequence.{TimestampLevel}
use flashptpd.Window.{level_number}
use flashptpd.Network.Address.{Family}
use flashptpd.Network.Interface.{
  Interface, Socket, Opening, Sock, above, at_most, timestamp_level, sock,
}
use flashptpd.Network.Interface.Kept.{Returned, with_socks, sock-All}
use flashptpd.Network.Interface.Sockets.{new_socket-fields}

-- The socket's level is at most the given one.
abbrev pub IsLimited : TimestampLevel → Option Socket → Type 0
IsLimited best none = Unit {0}
IsLimited best (some s) = level_number s.timestamp_level ≤ level_number best

abbrev pub AllLimited : Interface → Type 0
AllLimited i = All (IsLimited (timestamp_level i)) i.socks

pub timestamp_level_socks :
    (socks : List (Option Socket)) (i : Interface)
    → timestamp_level (with_socks socks i) ≡ timestamp_level i
unfolding timestamp_level
timestamp_level_socks socks i = refl

pub at_most-above : (best level : TimestampLevel) → above (at_most best level) best ≡ false
at_most-above best level = ground arith

pub below : (a b : TimestampLevel) → above a b ≡ false → level_number a ≤ level_number b
below a b h = ground arith

returned :
    (best : TimestampLevel) (o : Option Socket) → Returned (IsLimited best) o → IsLimited best o
returned best none v = tt
returned best (some s) v = v

-- A socket of a level within the interface's is stored and returned with a level within it.
pub sock-AllLimited :
    (how : Opening) (family : Family) (level : TimestampLevel) (port : ℕ) (i j : Interface)
    (o : Option Socket)
    → above level (timestamp_level i) ≡ false
    → AllLimited i
    → sock how family level port i ≡ Sock.result j o
    → (timestamp_level j ≡ timestamp_level i) × AllLimited j × IsLimited (timestamp_level j) o
sock-AllLimited how family level port i j o l h e =
    let best = timestamp_level i in
    let fields = new_socket-fields how best family level port l in
    let kept =
      sock-All (IsLimited best) how family level port i j o (λ v. tt)
        (λ g. rw fields.1 (below level best l)) h e in
    let same : timestamp_level j ≡ best =
      ap timestamp_level kept.0 ∙ timestamp_level_socks j.socks i in
    (same, rw same kept.1, rw same (returned best o kept.2))
