-- ===== src/Network/Interface/Served.antt =====
-- An interface has an address for each of its sockets (src/flashptp/network/interface.cpp).
use flashptpd.Prelude.{
  ℕ, zero, suc, ◌≡◌, refl, inl, inr, Bool, true, false, not, ◌&&◌, ◌==◌, if◌then◌else◌, List, [],
  ◌∷◌, Option, none, some, arith, Bool-cases, Option-cases, All, All-mono, get_elem?, erase_idx,
}
use mathlib.Core.Option.{some-injective}
use flashptpd.Client.Sequence.{TimestampLevel}
use flashptpd.Network.Address.{Family, Saddr, Address, InetNtop, same_family, family_of, equals}
use flashptpd.Network.Interface.{
  Interface, Socket, Opening, Sock, above, timestamp_level, is_some, find_family, get_family_addr,
  close_family, erase_ip_addr, set_properties, sock,
}
use flashptpd.Network.Interface.Kept.{Returned, sock-All}
use flashptpd.Network.Interface.Sockets.{same_family→≡, new_socket-fields}

-- A socket of a family that the interface has an address of.
abbrev pub IsServed : Interface → Option Socket → Type 0
IsServed i none = Unit {0}
IsServed i (some s) = is_some (get_family_addr s.family i) ≡ true

abbrev pub AllServed : Interface → Type 0
AllServed i = All (IsServed i) i.socks

abbrev pub Has : Family → Interface → Type 0
Has f i = is_some (get_family_addr f i) ≡ true

get_family_addr_socks :
    (f : Family) (i : Interface) (socks : List (Option Socket))
    → get_family_addr f (record i { socks = socks }) ≡ get_family_addr f i
unfolding get_family_addr
get_family_addr_socks Family.unspec i socks = refl
get_family_addr_socks Family.packet i socks = refl
get_family_addr_socks Family.ip4 i socks = refl
get_family_addr_socks Family.ip6 i socks = refl

-- Served sockets stay served where the addresses of their families stay.
pub IsServed-keep :
    (i j : Interface) (o : Option Socket)
    → ((f : Family) → Has f i → Has f j)
    → IsServed i o
    → IsServed j o
IsServed-keep i j none h v = tt
IsServed-keep i j (some s) h v = h s.family v

returned : (i : Interface) (o : Option Socket) → Returned (IsServed i) o → IsServed i o
returned i none v = tt
returned i (some s) v = v

-- `sock` keeps it so: it opens no socket of a family without an address.
pub sock-AllServed :
    (how : Opening) (family : Family) (level : TimestampLevel) (port : ℕ) (i j : Interface)
    (o : Option Socket)
    → above level (timestamp_level i) ≡ false
    → AllServed i
    → sock how family level port i ≡ Sock.result j o
    → AllServed j × IsServed j o
sock-AllServed how family level port i j o l h e =
    let fields = new_socket-fields how (timestamp_level i) family level port l in
    let kept =
      sock-All (IsServed i) how family level port i j o (λ v. tt) (λ g. rw fields.0 g) h e in
    let to : (p : Option Socket) → IsServed i p → IsServed j p =
      λ p. IsServed-keep i j p (λ f g. rw kept.0 (rw (get_family_addr_socks f i j.socks) g)) in
    (All-mono j.socks to kept.1, to o (returned i o kept.2))

-- The sockets that `close_family` leaves have another family.
close_family-left :
    (f : Family) (P Q : Option Socket → Type 0) (socks : List (Option Socket))
    → Q none
    → ((s : Socket) → same_family s.family f ≡ false → P (some s) → Q (some s))
    → All P socks
    → All Q (close_family f socks)
unfolding close_family
close_family-left f P Q [] n k h = tt
close_family-left f P Q (none ∷ socks) n k h = (n, close_family-left f P Q socks n k h.1)
close_family-left f P Q (some s ∷ socks) n k h = elim (Bool-cases (same_family s.family f)) [
  | inl e ↦ rw e (close_family-left f P Q socks n k h.1)
  | inr e ↦ rw e (k s e h.0, close_family-left f P Q socks n k h.1)
]

differs : (f g : Family) → same_family f g ≡ false → same_family g f ≡ false
differs f g h = ground arith

-- Another family's first address is not erased.
find_family_erase :
    (f : Family) (n : ℕ) (addrs : List Address) (a : Address)
    → get_elem? addrs n ≡ some a
    → same_family f (family_of a) ≡ false
    → find_family f (erase_idx addrs n) ≡ find_family f addrs
unfolding find_family
find_family_erase f n [] a e h = refl
find_family_erase f zero (x ∷ addrs) a e h =
    rw (some-injective x a e) (rw (differs f (family_of a) h) refl)
find_family_erase f (suc n) (x ∷ addrs) a e h = elim (Bool-cases (same_family (family_of x) f)) [
  | inl g ↦ rw g refl
  | inr g ↦ rw g (find_family_erase f n addrs a e h)
]

get_family_addr_erase :
    (f : Family) (n : ℕ) (i : Interface) (a : Address)
    → get_elem? i.ip_addrs n ≡ some a
    → same_family f (family_of a) ≡ false
    → Has f i
    → Has f (record i { ip_addrs = erase_idx i.ip_addrs n })
unfolding get_family_addr
get_family_addr_erase Family.unspec n i a e h g = g
get_family_addr_erase Family.packet n i a e h g = g
get_family_addr_erase Family.ip4 n i a e h g =
    rw (find_family_erase Family.ip4 n i.ip_addrs a e h) g
get_family_addr_erase Family.ip6 n i a e h g =
    rw (find_family_erase Family.ip6 n i.ip_addrs a e h) g

-- Without its `n`-th address the interface still serves its sockets, but for those of the family of the
-- address.
erased : ℕ → Interface → Interface
erased n i = record i { ip_addrs = erase_idx i.ip_addrs n }

closed : Family → ℕ → Interface → Interface
unfolding erased
closed f n i = record (erased n i) { socks = close_family f i.socks }

erase_kept :
    (n : ℕ) (i : Interface) (a : Address)
    → get_elem? i.ip_addrs n ≡ some a
    → Has (family_of a) (erased n i)
    → erase_ip_addr n i ≡ erased n i
unfolding erased erase_ip_addr
erase_kept n i a e g = cc (e, g)

erase_lost :
    (n : ℕ) (i : Interface) (a : Address)
    → get_elem? i.ip_addrs n ≡ some a
    → is_some (get_family_addr (family_of a) (erased n i)) ≡ false
    → erase_ip_addr n i ≡ closed (family_of a) n i
unfolding closed erase_ip_addr
erase_lost n i a e g = cc (e, g)

erase_none : (n : ℕ) (i : Interface) → get_elem? i.ip_addrs n ≡ none → erase_ip_addr n i ≡ i
unfolding erase_ip_addr
erase_none n i e = cc e

-- Erasing an address closes the sockets of its family when it was the last of it, so that the others
-- are served as before.
pub erase_ip_addr-AllServed : (n : ℕ) (i : Interface) → AllServed i → AllServed (erase_ip_addr n i)
unfolding closed
erase_ip_addr-AllServed n i h = elim (Option-cases (get_elem? i.ip_addrs n)) [
  | inl e ↦ rw (erase_none n i e) h
  | inr (a, e) ↦ elim (Bool-cases (is_some (get_family_addr (family_of a) (erased n i)))) [
    | inl g ↦
        let keep : (f : Family) → Has f i → Has f (erased n i) = λ f v.
          elim (Bool-cases (same_family f (family_of a))) [
            | inl s ↦ rw (same_family→≡ f (family_of a) s) g
            | inr s ↦ get_family_addr_erase f n i a e s v
          ] in
        rw (erase_kept n i a e g) (All-mono i.socks (λ o. IsServed-keep i (erased n i) o keep) h)
    | inr g ↦ rw (erase_lost n i a e g) (
        close_family-left (family_of a) (IsServed i) (IsServed (closed (family_of a) n i)) i.socks
          tt
          (λ s d v.
            rw (get_family_addr_socks s.family (erased n i) (close_family (family_of a) i.socks))
              (get_family_addr_erase s.family n i a e d v))
          h)
  ]
]

-- A change of an interface's properties closes all of its sockets.
pub set_properties-AllServed :
    (N : InetNtop) (index : ℕ) (up : Bool) (mac : Saddr) (i : Interface)
    → AllServed i
    → AllServed (set_properties N index up mac i)
unfolding set_properties
set_properties-AllServed N index up mac i h =
    elim (Bool-cases (i.index == index && (if i.up then up else not up) && equals i.mac_addr mac)) [
      | inl e ↦ rw e h
      | inr e ↦ rw e tt
    ]
