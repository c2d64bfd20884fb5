-- ===== src/Network/Interface/Sound.antt =====
-- When the sockets of an interface can be used (src/flashptp/network/interface.cpp).
use flashptpd.Prelude.{
  ℕ, ◌≡◌, ◌≢◌, refl, sym, ap, ◌∙◌, inl, inr, Bool, true, false, not, ◌&&◌, if◌then◌else◌, List, [],
  ◌∷◌, ◌++◌, Option, none, some, All, Bool-cases, Option-cases, get_elem?, erase_idx, ◌==◌,
}
use flashptpd.Client.Sequence.{TimestampLevel}
use flashptpd.Network.Address.{Family, Saddr, Address, InetNtop, same_family, family_of, equals}
use flashptpd.Network.Interface.{
  Interface, Socket, Opening, Search, Sock, above, timestamp_level, is_some, get_family_addr,
  close_family, erase_ip_addr, set_properties, new_socket, valid_socket, find_sock, matches, sock,
}
use flashptpd.Network.Interface.Kept.{Returned, sock-All}
use flashptpd.Network.Interface.Sockets.{
  Outcome, follows_null, finds, has_no_address, is_refused, opens, sock-Outcome, same_family→≡,
  find_sock-found, new_socket-fields, with_sock,
}
use flashptpd.Network.Interface.Served.{
  IsServed, AllServed, erase_ip_addr-AllServed, set_properties-AllServed, sock-AllServed,
}
use flashptpd.Network.Interface.Limited.{IsLimited, AllLimited, sock-AllLimited}

-- The pointer is no null pointer.
abbrev pub IsPresent : Option Socket → Type 0
IsPresent o = is_some o ≡ true

-- No pointer to a socket is null, each socket has a level of the interface, and the interface has an
-- address of the family of each.
pub record IsSound (i : Interface) : Type 0 where
  pub present : All IsPresent i.socks
  pub limited : AllLimited i
  pub served : AllServed i

close_family-All :
    (P : Option Socket → Type 0) (f : Family) (socks : List (Option Socket))
    → All P socks
    → All P (close_family f socks)
unfolding close_family
close_family-All P f [] h = tt
close_family-All P f (none ∷ socks) h = (h.0, close_family-All P f socks h.1)
close_family-All P f (some s ∷ socks) h = elim (Bool-cases (same_family s.family f)) [
  | inl e ↦ rw e (close_family-All P f socks h.1)
  | inr e ↦ rw e (h.0, close_family-All P f socks h.1)
]

-- What a change of an interface may do to its sockets.
pub record Shrinks (i j : Interface) : Type 1 where
  pub level : timestamp_level j ≡ timestamp_level i
  pub socks : (P : Option Socket → Type 0) → All P i.socks → All P j.socks

pub Shrinks-IsSound : (i j : Interface) → Shrinks i j → AllServed j → IsSound i → IsSound j
Shrinks-IsSound i j s v h = record {
  present = s.socks IsPresent h.present;
  limited = rw s.level (s.socks (IsLimited (timestamp_level i)) h.limited);
  served = v;
}

pub append-Shrinks :
    (i : Interface) (ys : List Address) → Shrinks i (record i { ip_addrs = i.ip_addrs ++ ys })
unfolding timestamp_level
append-Shrinks i ys = record { level = refl; socks = λ P h. h }

erase_ip_addr-Shrinks : (n : ℕ) (i : Interface) → Shrinks i (erase_ip_addr n i)
unfolding erase_ip_addr timestamp_level
erase_ip_addr-Shrinks n i = elim (Option-cases (get_elem? i.ip_addrs n)) [
  | inl e ↦ rw (e, erase_ip_addr) (record { level = refl; socks = λ P h. h })
  | inr (a, e) ↦
      elim (Bool-cases (
        is_some (get_family_addr (family_of a) (record i { ip_addrs = erase_idx i.ip_addrs n })))) [
          | inl g ↦ rw (e, g, erase_ip_addr) (record { level = refl; socks = λ P h. h })
          | inr g ↦
              rw (e, g, erase_ip_addr)
                (record { level = refl; socks = λ P. close_family-All P (family_of a) i.socks })
        ]
]

set_properties-Shrinks :
    (N : InetNtop) (index : ℕ) (up : Bool) (mac : Saddr) (i : Interface)
    → Shrinks i (set_properties N index up mac i)
unfolding set_properties timestamp_level
set_properties-Shrinks N index up mac i =
    elim (Bool-cases (i.index == index && (if i.up then up else not up) && equals i.mac_addr mac)) [
      | inl e ↦ rw e (record { level = refl; socks = λ P h. h })
      | inr e ↦ rw e (record { level = refl; socks = λ P h. tt })
    ]

pub erase_ip_addr-IsSound : (n : ℕ) (i : Interface) → IsSound i → IsSound (erase_ip_addr n i)
erase_ip_addr-IsSound n i h =
    Shrinks-IsSound i (erase_ip_addr n i) (erase_ip_addr-Shrinks n i)
      (erase_ip_addr-AllServed n i h.served) h

pub set_properties-IsSound :
    (N : InetNtop) (index : ℕ) (up : Bool) (mac : Saddr) (i : Interface)
    → IsSound i
    → IsSound (set_properties N index up mac i)
set_properties-IsSound N index up mac i h =
    Shrinks-IsSound i (set_properties N index up mac i) (set_properties-Shrinks N index up mac i)
      (set_properties-AllServed N index up mac i h.served) h

-- No null pointer is followed.
find_sock-present :
    (p : Socket → Bool) (socks : List (Option Socket))
    → All IsPresent socks
    → find_sock p socks ≢ Search.null_pointer
unfolding find_sock
find_sock-present p [] h e = cc e
find_sock-present p (none ∷ socks) h e = cc h.0
find_sock-present p (some s ∷ socks) h e = elim (Bool-cases (p s)) [
  | inl f ↦ (let same : Search.found s ≡ Search.null_pointer = sym (rw f refl) ∙ e in cc same)
  | inr f ↦ find_sock-present p socks h.1 (sym (rw f refl) ∙ e)
]

new_socket-valid :
    (how : Opening) (best : TimestampLevel) (family : Family) (level : TimestampLevel) (port : ℕ)
    → how ≢ Opening.refused
    → valid_socket (new_socket how best family level port) ≡ true
unfolding new_socket
new_socket-valid Opening.refused best family level port h = absurd (h refl)
new_socket-valid (Opening.broken fd b) best family level port h = refl
new_socket-valid (Opening.opened fd) best family level port h = refl

not-false : (b : Bool) {X : Type 0} → b ≡ true → b ≡ false → X
not-false b h k = absurd (cc (h, k))

Outcome-present :
    (how : Opening) (family : Family) (level : TimestampLevel) (port : ℕ) (i : Interface) (r : Sock)
    → All IsPresent i.socks
    → Outcome how family level port i r
    → r ≢ Sock.null_pointer
Outcome-present how family level port i _ h (follows_null f) e =
    find_sock-present (matches family level port) i.socks h f
Outcome-present how family level port i _ h (finds s f) e = cc e
Outcome-present how family level port i _ h (has_no_address g) e = cc e
Outcome-present how family level port i _ h (is_refused v) e = cc e
Outcome-present how family level port i _ h (opens f g) e = cc e

matches-family :
    (family : Family) (level : TimestampLevel) (port : ℕ) (s : Socket)
    → matches family level port s ≡ true
    → s.family ≡ family
unfolding matches
matches-family family level port s h = elim (Bool-cases (same_family family s.family)) [
  | inl e ↦ sym (same_family→≡ family s.family e)
  | inr e ↦ absurd (let no : false ≡ true = sym (rw e refl) ∙ h in cc no)
]

result-family :
    (family : Family) (i j : Interface) (s : Socket) (o : Option Socket)
    → Sock.result i o ≡ Sock.result j (some s)
    → Returned (λ p. elim p [ none ↦ Unit {0} | some t ↦ t.family ≡ family ]) o
    → s.family ≡ family
result-family family i j s none e h = absurd (let f : none ≡ some s = cc e in cc f)
result-family family i j s (some t) e h = (let f : t ≡ s = cc e in sym (ap (λ x. x.family) f) ∙ h)

Outcome-family :
    (how : Opening) (family : Family) (level : TimestampLevel) (port : ℕ) (i j : Interface)
    (s : Socket) (r : Sock)
    → above level (timestamp_level i) ≡ false
    → Outcome how family level port i r
    → r ≡ Sock.result j (some s)
    → s.family ≡ family
Outcome-family how family level port i j s _ l (follows_null f) e = absurd (cc e)
Outcome-family how family level port i j s _ l (finds t f) e =
    result-family family i j s (some t) e
      (matches-family family level port t (find_sock-found (matches family level port) i.socks t f))
Outcome-family how family level port i j s _ l (has_no_address g) e =
    result-family family i j s none e tt
Outcome-family how family level port i j s _ l (is_refused v) e =
    result-family family (with_sock none i) j s none e tt
Outcome-family how family level port i j s _ l (opens f g) e =
    let new = new_socket how (timestamp_level i) family level port in
    result-family family (with_sock (some new) i) j s (some new) e
      (new_socket-fields how (timestamp_level i) family level port l).0

-- The socket that `sock` returns is of the family that is asked for.
pub sock-family :
    (how : Opening) (family : Family) (level : TimestampLevel) (port : ℕ) (i j : Interface)
    (s : Socket)
    → above level (timestamp_level i) ≡ false
    → sock how family level port i ≡ Sock.result j (some s)
    → s.family ≡ family
sock-family how family level port i j s l e =
    Outcome-family how family level port i j s (sock how family level port i) l
      (sock-Outcome how family level port i) e

Sock-cases :
    (r : Sock)
    → r ≢ Sock.null_pointer
    → (j : Interface) × (o : Option Socket) × (r ≡ Sock.result j o)
Sock-cases Sock.null_pointer h = absurd (h refl)
Sock-cases (Sock.result j o) h = (j, o, refl)

-- Where the system refuses no socket, a call of `sock` for a level of the interface follows no null
-- pointer, and leaves the sockets as usable as it finds them.
pub sock-IsSound :
    (how : Opening) (family : Family) (level : TimestampLevel) (port : ℕ) (i : Interface)
    → how ≢ Opening.refused
    → above level (timestamp_level i) ≡ false
    → IsSound i
    → (j : Interface) × (o : Option Socket) × (sock how family level port i ≡ Sock.result j o)
      × IsSound j
      × IsServed j o
sock-IsSound how family level port i r l h =
    let done = Sock-cases (sock how family level port i) (
      Outcome-present how family level port i (sock how family level port i) h.present
        (sock-Outcome how family level port i)) in
    let j = done.0 in
    let o = done.1 in
    let valid = new_socket-valid how (timestamp_level i) family level port r in
    let present =
      sock-All IsPresent how family level port i j o (λ v. not-false _ valid v) (λ g. refl)
        h.present done.2 in
    let limited = sock-AllLimited how family level port i j o l h.limited done.2 in
    let served = sock-AllServed how family level port i j o l h.served done.2 in
    (j, o, done.2, record { present = present.1; limited = limited.1; served = served.0 }, served.1)
