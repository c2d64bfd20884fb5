-- ===== src/Network/Inventory/Identity.antt =====
-- What an update does not change of an interface, its name, and which indices it has (src/flashptp/network/inventory.cpp).
use flashptpd.Prelude.{
  ℕ, ◌≡◌, refl, sym, ap, ◌∙◌, inl, inr, Bool, true, not, ◌&&◌, ◌==◌, if◌then◌else◌, List, [], ◌∷◌,
  ◌++◌, map, arith, Bool-cases, Option-cases, All, All-mono, get_elem?, erase_idx,
}
use flashptpd.Prelude.Texts.{Text, same_codes}
use flashptpd.Selection.{is_member}
use flashptpd.Network.Address.{Saddr, InetNtop, family_of, equals}
use flashptpd.Network.Interface.{Interface, set_properties, erase_ip_addr, is_some, get_family_addr}
use flashptpd.Network.Inventory.Keeps.{refresh_lem}
use flashptpd.Network.Inventory.{Ifaddr, modify_named, refresh}

-- What neither the addresses nor the sockets of an interface change.
abbrev SameIdentity : Interface → Interface → Type 0
SameIdentity i j = (i.name ≡ j.name) × (i.index ≡ j.index)

abbrev pub names : List Interface → List Text
names = map (λ i. i.name)

-- The index of each interface is one that was seen.
abbrev pub AllSeen : List ℕ → List Interface → Type 0
AllSeen indices = All (λ i. is_member i.index indices ≡ true)

identity_trans : (i j k : Interface) → SameIdentity i j → SameIdentity j k → SameIdentity i k
identity_trans i j k h g = (h.0 ∙ g.0, h.1 ∙ g.1)

erase_ip_addr-identity : (k : ℕ) (i : Interface) → SameIdentity (erase_ip_addr k i) i
unfolding erase_ip_addr
erase_ip_addr-identity k i = elim (Option-cases (get_elem? i.ip_addrs k)) [
  | inl e ↦ (cc e, cc e)
  | inr (a, e) ↦
      elim (Bool-cases (
        is_some (get_family_addr (family_of a) (record i { ip_addrs = erase_idx i.ip_addrs k })))) [
          | inl g ↦ (cc (e, g), cc (e, g))
          | inr g ↦ (cc (e, g), cc (e, g))
        ]
]

pub refresh-identity :
    (N : InetNtop) (initialized : Bool) (listing : List Ifaddr) (i : Interface)
    → SameIdentity (refresh N initialized listing i) i
refresh-identity N initialized listing i =
    refresh_lem (λ j. SameIdentity j i) (λ j ys h. h)
      (λ k j h. identity_trans (erase_ip_addr k j) j i (erase_ip_addr-identity k j) h) N initialized
      listing i (refl, refl)

first_true : (a b : Bool) → a && b ≡ true → a ≡ true
first_true a b h = ground arith

equal : (a b : ℕ) → a == b ≡ true → a ≡ b
equal a b h = ground arith

pub set_properties-identity :
    (N : InetNtop) (index : ℕ) (up : Bool) (mac : Saddr) (i : Interface)
    → ((set_properties N index up mac i).name ≡ i.name)
      × ((set_properties N index up mac i).index ≡ index)
unfolding set_properties
set_properties-identity N index up mac i =
    elim (Bool-cases (i.index == index && (if i.up then up else not up) && equals i.mac_addr mac)) [
      | inl e ↦ rw e (
        refl,
        equal i.index index (
            first_true (i.index == index) (if i.up then up else not up)
              (first_true _ (equals i.mac_addr mac) e)),
      )
      | inr e ↦ rw e (refl, refl)
    ]

is_member-left : (n : ℕ) (xs ys : List ℕ) → is_member n xs ≡ true → is_member n (xs ++ ys) ≡ true
unfolding is_member
is_member-left n [] ys h = absurd (cc)
is_member-left n (x ∷ xs) ys h = elim (Bool-cases (n == x)) [
  | inl e ↦ rw e refl
  | inr e ↦ rw e (is_member-left n xs ys (sym (rw e refl) ∙ h))
]

pub is_member-last : (n : ℕ) (xs : List ℕ) → is_member n (xs ++ n ∷ []) ≡ true
unfolding is_member
is_member-last n [] = ground arith
is_member-last n (x ∷ xs) = elim (Bool-cases (n == x)) [
  | inl e ↦ rw e refl
  | inr e ↦ rw e (is_member-last n xs)
]

pub AllSeen-grow :
    (indices more : List ℕ) (is : List Interface)
    → AllSeen indices is
    → AllSeen (indices ++ more) is
AllSeen-grow indices more is h = All-mono is (λ i. is_member-left i.index indices more) h

pub AllSeen-append :
    (indices : List ℕ) (is js : List Interface)
    → AllSeen indices is
    → AllSeen indices js
    → AllSeen indices (is ++ js)
AllSeen-append indices [] js h g = g
AllSeen-append indices (i ∷ is) js h g = (h.0, AllSeen-append indices is js h.1 g)

pub names-append : (is js : List Interface) → names (is ++ js) ≡ names is ++ names js
names-append [] js = refl
names-append (i ∷ is) js = ap (λ ns. i.name ∷ ns) (names-append is js)

-- A change of one interface that keeps its name and gives it an index that was seen.
pub modify_named-keeps :
    (indices : List ℕ) (name : Text) (f : Interface → Interface) (is : List Interface)
    → ((i : Interface) → ((f i).name ≡ i.name) × (is_member (f i).index indices ≡ true))
    → AllSeen indices is
    → (names (modify_named name f is) ≡ names is) × AllSeen indices (modify_named name f is)
unfolding modify_named
modify_named-keeps indices name f [] k h = (refl, tt)
modify_named-keeps indices name f (i ∷ is) k h = elim (Bool-cases (same_codes i.name name)) [
  | inl e ↦ rw e (ap (λ n. n ∷ names is) (k i).0, ((k i).1, h.1))
  | inr e ↦
      let rest = modify_named-keeps indices name f is k h.1 in
      rw e (ap (λ ns. i.name ∷ ns) rest.0, (h.0, rest.1))
]
