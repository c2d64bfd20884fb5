-- ===== src/Network/Interface/Sockets.antt =====
-- The sockets that an interface keeps (src/flashptp/network/interface.cpp).
use flashptpd.Prelude.{
  ℕ, ◌≡◌, refl, sym, ◌∙◌, inl, inr, ◌⊎◌, Bool, true, false, if◌then◌else◌, List, [], ◌∷◌, ◌++◌,
  Option, none, some, arith, Bool-cases,
}
use flashptpd.Client.Sequence.{TimestampLevel}
use flashptpd.Network.Address.{Family, same_family}
use flashptpd.Network.Interface.{
  Interface, Socket, Opening, Search, Sock, above, at_most, timestamp_level, is_some,
  get_family_addr, new_socket, valid_socket, matches, find_sock, sock,
}

pub same_family→≡ : (a b : Family) → same_family a b ≡ true → a ≡ b
same_family→≡ Family.unspec Family.unspec h = refl
same_family→≡ Family.packet Family.packet h = refl
same_family→≡ Family.ip4 Family.ip4 h = refl
same_family→≡ Family.ip6 Family.ip6 h = refl
same_family→≡ Family.unspec Family.packet h = absurd (cc h)
same_family→≡ Family.unspec Family.ip4 h = absurd (cc h)
same_family→≡ Family.unspec Family.ip6 h = absurd (cc h)
same_family→≡ Family.packet Family.unspec h = absurd (cc h)
same_family→≡ Family.packet Family.ip4 h = absurd (cc h)
same_family→≡ Family.packet Family.ip6 h = absurd (cc h)
same_family→≡ Family.ip4 Family.unspec h = absurd (cc h)
same_family→≡ Family.ip4 Family.packet h = absurd (cc h)
same_family→≡ Family.ip4 Family.ip6 h = absurd (cc h)
same_family→≡ Family.ip6 Family.unspec h = absurd (cc h)
same_family→≡ Family.ip6 Family.packet h = absurd (cc h)
same_family→≡ Family.ip6 Family.ip4 h = absurd (cc h)

pub same_family_refl : (f : Family) → same_family f f ≡ true
same_family_refl Family.unspec = refl
same_family_refl Family.packet = refl
same_family_refl Family.ip4 = refl
same_family_refl Family.ip6 = refl

-- What `find_sock` finds matches, and is among the sockets.
pub find_sock-found :
    (p : Socket → Bool) (socks : List (Option Socket)) (s : Socket)
    → find_sock p socks ≡ Search.found s
    → p s ≡ true
unfolding find_sock
find_sock-found p [] s e = absurd (cc)
find_sock-found p (none ∷ socks) s e = absurd (cc)
find_sock-found p (some t ∷ socks) s e = elim (Bool-cases (p t)) [
  | inl f ↦ let same : Search.found t ≡ Search.found s = sym (rw f refl) ∙ e in cc (same, f)
  | inr f ↦ find_sock-found p socks s (sym (rw f refl) ∙ e)
]

pub find_sock-append :
    (p : Socket → Bool) (socks : List (Option Socket)) (o : Option Socket)
    → find_sock p socks ≡ Search.missing
    → find_sock p (socks ++ o ∷ []) ≡ find_sock p (o ∷ [])
unfolding find_sock
find_sock-append p [] o e = refl
find_sock-append p (none ∷ socks) o e = absurd (cc)
find_sock-append p (some t ∷ socks) o e = elim (Bool-cases (p t)) [
  | inl f ↦
      absurd
        (let none_there : Search.found t ≡ Search.missing = sym (rw f refl) ∙ e in cc none_there)
  | inr f ↦ rw f (find_sock-append p socks o (sym (rw f refl) ∙ e))
]

pub find_sock-one :
    (p : Socket → Bool) (s : Socket) → p s ≡ true → find_sock p (some s ∷ []) ≡ Search.found s
unfolding find_sock
find_sock-one p s e = rw e refl

pub find_sock_null : (p : Socket → Bool) → find_sock p (none ∷ []) ≡ Search.null_pointer
unfolding find_sock
find_sock_null p = refl

pub at_most-below :
    (best level : TimestampLevel) → above level best ≡ false → at_most best level ≡ level
at_most-below best level h = rw h refl

pub new_socket-fields :
    (how : Opening) (best : TimestampLevel) (family : Family) (level : TimestampLevel) (port : ℕ)
    → above level best ≡ false
    → let s = new_socket how best family level port in
      (s.family ≡ family)
      × (s.timestamp_level ≡ level)
      × (s.src_port ≡ (if same_family family Family.packet then 0 else port))
unfolding new_socket
new_socket-fields Opening.refused best family level port h = (refl, refl, refl)
new_socket-fields (Opening.broken fd true) best family level port h =
    (refl, at_most-below best level h, refl)
new_socket-fields (Opening.broken fd false) best family level port h = (refl, refl, refl)
new_socket-fields (Opening.opened fd) best family level port h =
    (refl, at_most-below best level h, refl)

matches_lem :
    (family : Family) (level : TimestampLevel) (port : ℕ) (s : Socket)
    → s.family ≡ family
    → s.timestamp_level ≡ level
    → s.src_port ≡ (if same_family family Family.packet then 0 else port)
    → matches family level port s ≡ true
unfolding matches
matches_lem Family.unspec level port s e f g = rw (e, f) (ground arith)
matches_lem Family.packet level port s e f g = rw (e, f) (ground arith)
matches_lem Family.ip4 level port s e f g = rw (e, f, g) (ground arith)
matches_lem Family.ip6 level port s e f g = rw (e, f, g) (ground arith)

-- A socket that is opened for a level within the interface's matches what it was opened for.
pub new_socket-matches :
    (how : Opening) (best : TimestampLevel) (family : Family) (level : TimestampLevel) (port : ℕ)
    → above level best ≡ false
    → matches family level port (new_socket how best family level port) ≡ true
new_socket-matches how best family level port h =
    let fields = new_socket-fields how best family level port h in
    matches_lem family level port _ fields.0 fields.1 fields.2

pub Search-cases :
    (r : Search)
    → (r ≡ Search.null_pointer) ⊎ (r ≡ Search.missing) ⊎ ((s : Socket) × (r ≡ Search.found s))
Search-cases Search.null_pointer = inl refl
Search-cases Search.missing = inr (inl refl)
Search-cases (Search.found s) = inr (inr (s, refl))

-- What `sock` does in its cases.
pub sock-found :
    (how : Opening) (family : Family) (level : TimestampLevel) (port : ℕ) (i : Interface)
    (s : Socket)
    → find_sock (matches family level port) i.socks ≡ Search.found s
    → sock how family level port i ≡ Sock.result i (some s)
unfolding sock
sock-found how family level port i s e = cc e

pub sock_null :
    (how : Opening) (family : Family) (level : TimestampLevel) (port : ℕ) (i : Interface)
    → find_sock (matches family level port) i.socks ≡ Search.null_pointer
    → sock how family level port i ≡ Sock.null_pointer
unfolding sock
sock_null how family level port i e = cc e

pub sock-homeless :
    (how : Opening) (family : Family) (level : TimestampLevel) (port : ℕ) (i : Interface)
    → find_sock (matches family level port) i.socks ≡ Search.missing
    → is_some (get_family_addr family i) ≡ false
    → sock how family level port i ≡ Sock.result i none
unfolding sock
sock-homeless how family level port i e h = cc (e, h)

-- The interface with one more pointer.
abbrev pub with_sock : Option Socket → Interface → Interface
with_sock o i = record i { socks = i.socks ++ o ∷ [] }

pub sock-opened :
    (how : Opening) (family : Family) (level : TimestampLevel) (port : ℕ) (i : Interface)
    → find_sock (matches family level port) i.socks ≡ Search.missing
    → is_some (get_family_addr family i) ≡ true
    → valid_socket (new_socket how (timestamp_level i) family level port) ≡ true
    → let s = new_socket how (timestamp_level i) family level port in
      sock how family level port i ≡ Sock.result (with_sock (some s) i) (some s)
unfolding sock
sock-opened how family level port i e h v = cc (e, h, v)

pub sock-refused :
    (how : Opening) (family : Family) (level : TimestampLevel) (port : ℕ) (i : Interface)
    → find_sock (matches family level port) i.socks ≡ Search.missing
    → is_some (get_family_addr family i) ≡ true
    → valid_socket (new_socket how (timestamp_level i) family level port) ≡ false
    → sock how family level port i ≡ Sock.result (with_sock none i) none
unfolding sock
sock-refused how family level port i e h v = cc (e, h, v)

-- The ways in which `sock` ends, with what it returns.
pub data Outcome (how : Opening) (family : Family) (level : TimestampLevel) (port : ℕ)
    (i : Interface) : Sock → Type 0 where
  follows_null :
      find_sock (matches family level port) i.socks ≡ Search.null_pointer
      → Outcome how family level port i Sock.null_pointer
  finds :
      (s : Socket)
      → find_sock (matches family level port) i.socks ≡ Search.found s
      → Outcome how family level port i (Sock.result i (some s))
  has_no_address :
      is_some (get_family_addr family i) ≡ false
      → Outcome how family level port i (Sock.result i none)
  is_refused :
      valid_socket (new_socket how (timestamp_level i) family level port) ≡ false
      → Outcome how family level port i (Sock.result (with_sock none i) none)
  opens :
      find_sock (matches family level port) i.socks ≡ Search.missing
      → is_some (get_family_addr family i) ≡ true
      → Outcome how family level port i (
          Sock.result
            (with_sock (some (new_socket how (timestamp_level i) family level port)) i)
            (some (new_socket how (timestamp_level i) family level port)))

pub sock-Outcome :
    (how : Opening) (family : Family) (level : TimestampLevel) (port : ℕ) (i : Interface)
    → Outcome how family level port i (sock how family level port i)
sock-Outcome how family level port i =
    let new = new_socket how (timestamp_level i) family level port in
    elim (Search-cases (find_sock (matches family level port) i.socks)) [
      | inl f ↦ rw (sock_null how family level port i f) (follows_null f)
      | inr (inr (s, f)) ↦ rw (sock-found how family level port i s f) (finds s f)
      | inr (inl f) ↦ elim (Bool-cases (is_some (get_family_addr family i))) [
        | inr g ↦ rw (sock-homeless how family level port i f g) (has_no_address g)
        | inl g ↦ elim (Bool-cases (valid_socket new)) [
          | inr v ↦ rw (sock-refused how family level port i f g v) (is_refused v)
          | inl v ↦ rw (sock-opened how family level port i f g v) (opens f g)
        ]
      ]
    ]
