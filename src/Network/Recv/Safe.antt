-- ===== src/Network/Recv/Safe.antt =====
-- The sockets that `Inventory::recv` listens on (src/flashptp/network/inventory.cpp).
use flashptpd.Prelude.{
  ◌≡◌, ◌≢◌, refl, sym, ap, ◌∙◌, inl, inr, Bool, true, false, not, if◌then◌else◌, List, [], ◌∷◌,
  Option, none, some, All, Bool-cases, Option-cases,
}
use mathlib.Core.Path.{subst}
use mathlib.Core.Option.{some-injective}
use flashptpd.Prelude.Texts.{Text, same_codes}
use flashptpd.Network.Interface.{
  Interface, Socket, Opening, Sock, at_most, timestamp_level, get_family_addr, is_some,
}
use flashptpd.Network.Interface.Limited.{at_most-above}
use flashptpd.Network.Interface.Served.{IsServed}
use flashptpd.Network.Interface.Sound.{IsSound, sock-family, sock-IsSound}
use flashptpd.Network.Inventory.{find_interface, modify_named}
use flashptpd.Network.Inventory.Keeps.{modify_named-All}
use flashptpd.Network.Recv.{
  SocketSpecs, Listened, Listening, limit, has_fd, add_listened, add_sock, listen_one, listen,
}

-- No null pointer is followed, and the interfaces' sockets are usable.
abbrev pub IsListening : Listening → Type 0
IsListening none = ⊥
IsListening (some (is, fds)) = All IsSound is

add_listened-IsListening :
    (sp : SocketSpecs) (i : Interface) (s : Socket) (is : List Interface) (fds : List Listened)
    → is_some (get_family_addr sp.family i) ≡ true
    → All IsSound is
    → IsListening (add_listened sp i s is fds)
unfolding add_listened
add_listened-IsListening sp i s is fds e h = elim (Bool-cases (has_fd s.fd fds)) [
  | inl f ↦ rw f h
  | inr f ↦ elim (Option-cases (get_family_addr sp.family i)) [
    | inl g ↦ absurd (cc (e, g))
    | inr (a, g) ↦ rw (f, g, add_listened) h
  ]
]

add_sock-IsListening :
    (sp : SocketSpecs) (is : List Interface) (fds : List Listened) (j : Interface)
    (o : Option Socket)
    → ((s : Socket) → o ≡ some s → s.family ≡ sp.family)
    → IsSound j
    → IsServed j o
    → All IsSound is
    → IsListening (add_sock sp is fds (Sock.result j o))
unfolding add_sock
add_sock-IsListening sp is fds j none k v w h =
    modify_named-All IsSound sp.interface (λ i. j) is (λ i u. v) h
add_sock-IsListening sp is fds j (some s) k v w h =
    add_listened-IsListening sp j s (modify_named sp.interface (λ i. j) is) fds
      (subst (λ f. is_some (get_family_addr f j) ≡ true) (k s refl) w)
      (modify_named-All IsSound sp.interface (λ i. j) is (λ i u. v) h)

find_interface-All :
    (P : Interface → Type 0) (name : Text) (is : List Interface) (i : Interface)
    → All P is
    → find_interface name is ≡ some i
    → P i
unfolding find_interface
find_interface-All P name [] i h e = absurd (cc)
find_interface-All P name (x ∷ is) i h e = elim (Bool-cases (same_codes x.name name)) [
  | inl f ↦
      (let same : some x ≡ some i = sym (rw f refl) ∙ e in subst P (some-injective x i same) h.0)
  | inr f ↦ find_interface-All P name is i h.1 (sym (rw f refl) ∙ e)
]

chosen-IsListening :
    (b : Bool) (x y : Listening) → IsListening x → IsListening y → IsListening (if b then x else y)
chosen-IsListening true x y h k = h
chosen-IsListening false x y h k = k

listen_one-IsListening :
    (how : Opening) (sp : SocketSpecs) (is : List Interface) (fds : List Listened)
    → how ≢ Opening.refused
    → All IsSound is
    → IsListening (listen_one how sp is fds)
unfolding listen_one
listen_one-IsListening how sp is fds r h = elim (Option-cases (find_interface sp.interface is)) [
  | inl e ↦ rw (e, listen_one) h
  | inr (i, e) ↦
      let level = at_most (timestamp_level i) sp.timestamp_level in
      let l = at_most-above (timestamp_level i) sp.timestamp_level in
      let sound = find_interface-All IsSound sp.interface is i h e in
      let done = sock-IsSound how sp.family level sp.src_port i r l sound in
      let j = done.0 in
      let o = done.1 in
      let added =
        add_sock-IsListening (limit i sp) is fds j o
          (λ s f.
            sock-family how sp.family level sp.src_port i j s l (done.2 ∙ ap (Sock.result j) f))
          done.3 done.4 h in
      rw (e, listen_one)
        (chosen-IsListening (not i.up) _ _ h
          (subst (λ x. IsListening (add_sock (limit i sp) is fds x)) (sym done.2) added))
]

-- Where the system refuses no socket and the sockets there are can be used, `recv` follows no null
-- pointer when it collects its sockets, neither to a socket nor to an address of its interface,
-- whatever the specifications, and it leaves all sockets usable.
pub listen-IsListening :
    (how : SocketSpecs → Opening) (specs : List SocketSpecs) (is : List Interface)
    (fds : List Listened)
    → ((sp : SocketSpecs) → how sp ≢ Opening.refused)
    → All IsSound is
    → IsListening (listen how specs is fds)
unfolding listen
listen-IsListening how [] is fds r h = h
listen-IsListening how (sp ∷ specs) is fds r h =
    elim (Option-cases (listen_one (how sp) sp is fds)) [
      | inl e ↦ absurd (subst IsListening e (listen_one-IsListening (how sp) sp is fds (r sp) h))
      | inr ((js, gs), e) ↦
          rw (e, listen)
            (listen-IsListening how specs js gs r
              (subst IsListening e (listen_one-IsListening (how sp) sp is fds (r sp) h)))
    ]
