-- ===== src/Network/Inventory/Keeps.antt =====
-- What an update keeps of each interface (src/flashptp/network/inventory.cpp).
use flashptpd.Prelude.{
  ℕ, zero, suc, ◌+◌, ◌≡◌, refl, inl, inr, Bool, true, false, if◌then◌else◌, List, [], ◌∷◌, ◌++◌,
  Option, none, some, Bool-cases, Option-cases, All, get_elem?,
}
use flashptpd.Prelude.Texts.{Text, same_codes}
use flashptpd.Selection.{is_member}
use flashptpd.Network.Address.{Family, Saddr, Address, InetNtop, same_family}
use flashptpd.Network.Interface.{
  Interface, Phc, TimestampInfo, set_properties, new_interface, erase_ip_addr,
}
use flashptpd.Network.Inventory.{
  Inventory, Ifaddr, find_interface, modify_named, add_missing, erase_missing, place, detect_link,
  detect, detect_all, collect, refresh, refresh_all, erase_gone, update, has_str,
}

-- The interface with one address that is new.
abbrev added : Address → Interface → Interface
added a i = if has_str a.str i.ip_addrs then i else record i { ip_addrs = i.ip_addrs ++ a ∷ [] }

pub modify_named-All :
    (P : Interface → Type 0) (name : Text) (f : Interface → Interface) (is : List Interface)
    → ((i : Interface) → P i → P (f i))
    → All P is
    → All P (modify_named name f is)
unfolding modify_named
modify_named-All P name f [] k h = tt
modify_named-All P name f (i ∷ is) k h = elim (Bool-cases (same_codes i.name name)) [
  | inl e ↦ rw e (k i h.0, h.1)
  | inr e ↦ rw e (h.0, modify_named-All P name f is k h.1)
]

All-snoc :
    (P : Interface → Type 0) (is : List Interface) (i : Interface)
    → All P is
    → P i
    → All P (is ++ i ∷ [])
All-snoc P [] i h v = (v, tt)
All-snoc P (x ∷ is) i h v = (h.0, All-snoc P is i h.1 v)

erase_gone-All :
    (P : Interface → Type 0) (indices : List ℕ) (is : List Interface)
    → All P is
    → All P (erase_gone indices is)
unfolding erase_gone
erase_gone-All P indices [] h = tt
erase_gone-All P indices (i ∷ is) h = elim (Bool-cases (is_member i.index indices)) [
  | inl e ↦ rw e (h.0, erase_gone-All P indices is h.1)
  | inr e ↦ rw e (erase_gone-All P indices is h.1)
]

left-All :
    (P : Interface → Type 0) (b : Bool) (indices : List ℕ) (is : List Interface)
    → All P is
    → All P (if b then erase_gone indices is else is)
left-All P true indices is h = erase_gone-All P indices is h
left-All P false indices is h = h

module _ (P : Interface → Type 0)
    (append : (i : Interface) (ys : List Address)
      → P i
      → P (record i { ip_addrs = i.ip_addrs ++ ys }))
    (erase : (n : ℕ) (i : Interface) → P i → P (erase_ip_addr n i)) where
  added_lem : (a : Address) (i : Interface) → P i → P (added a i)
  added_lem a i h = elim (Bool-cases (has_str a.str i.ip_addrs)) [
    | inl e ↦ rw e h
    | inr e ↦ rw e (append i (a ∷ []) h)
  ]

  add_missing_lem : (listed : List Address) (i : Interface) → P i → P (add_missing listed i)
  unfolding add_missing
  add_missing_lem [] i h = h
  add_missing_lem (a ∷ listed) i h = add_missing_lem listed (added a i) (added_lem a i h)

  erase_missing_lem :
      (listed : List Address) (n k : ℕ) (i : Interface) → P i → P (erase_missing listed n k i)
  unfolding erase_missing
  erase_missing_lem listed zero k i h = h
  erase_missing_lem listed (suc n) k i h = elim (Option-cases (get_elem? i.ip_addrs k)) [
    | inl e ↦ rw (e, erase_missing) h
    | inr (a, e) ↦ elim (Bool-cases (has_str a.str listed)) [
      | inl f ↦ rw (e, f, erase_missing) (erase_missing_lem listed n (k + 1) i h)
      | inr f ↦
          rw (e, f, erase_missing) (erase_missing_lem listed n k (erase_ip_addr k i) (erase k i h))
    ]
  ]

  pub refresh_lem :
      (N : InetNtop) (initialized : Bool) (listing : List Ifaddr) (i : Interface)
      → P i
      → P (refresh N initialized listing i)
  unfolding refresh
  refresh_lem N true listing i h =
      let listed = collect N i.name listing in
      erase_missing_lem listed _ 0 (add_missing listed i) (add_missing_lem listed i h)
  refresh_lem N false listing i h = append i (collect N i.name listing) h

  refresh_all-All :
      (N : InetNtop) (initialized : Bool) (listing : List Ifaddr) (is : List Interface)
      → All P is
      → All P (refresh_all N initialized listing is)
  unfolding refresh_all
  refresh_all-All N initialized listing [] h = tt
  refresh_all-All N initialized listing (i ∷ is) h =
      (refresh_lem N initialized listing i h.0, refresh_all-All N initialized listing is h.1)

  module _ (N : InetNtop) (describe : Text → TimestampInfo × Phc)
      (set : (index : ℕ) (up : Bool) (mac : Saddr) (i : Interface)
        → P i
        → P (set_properties N index up mac i))
      (fresh : (i : Interface) → i.socks ≡ [] → P i) where
    new_interface_lem :
        (name : Text) (index : ℕ) (up : Bool) (mac : Saddr) (info : TimestampInfo) (phc : Phc)
        → P (new_interface N name index up mac info phc)
    unfolding new_interface
    new_interface_lem name index up mac info phc = set index up mac _ (fresh _ refl)

    place-All :
        (e : Ifaddr) (mac : Saddr) (known : Option Interface) (is : List Interface)
        → All P is
        → All P (place N describe e mac known is)
    unfolding place
    place-All e mac none is h =
        let asked = describe e.name in
        All-snoc P is (new_interface N e.name e.index e.up mac asked.0 asked.1) h
          (new_interface_lem e.name e.index e.up mac asked.0 asked.1)
    place-All e mac (some i) is h =
        modify_named-All P e.name (set_properties N e.index e.up mac) is (set e.index e.up mac) h

    detect-All :
        (e : Ifaddr) (v : Inventory) → All P v.interfaces → All P (detect N describe e v).interfaces
    unfolding detect detect_link
    detect-All e v h = elim (Option-cases e.addr) [
      | inl f ↦ rw (f, detect) h
      | inr (mac, f) ↦ elim (Bool-cases (same_family mac.family Family.packet)) [
        | inl g ↦
            let known = if v.initialized then find_interface e.name v.interfaces else none in
            rw (f, g, detect) (place-All e mac known v.interfaces h)
        | inr g ↦ rw (f, g, detect) h
      ]
    ]

    detect_all-All :
        (listing : List Ifaddr) (v : Inventory)
        → All P v.interfaces
        → All P (detect_all N describe listing v).interfaces
    unfolding detect_all
    detect_all-All [] v h = h
    detect_all-All (e ∷ listing) v h =
        detect_all-All listing (detect N describe e v) (detect-All e v h)

    -- An update keeps what each of its steps keeps of an interface.
    pub update-All :
        (listing : List Ifaddr) (v : Inventory)
        → All P v.interfaces
        → All P (update N describe listing v).interfaces
    unfolding update
    update-All listing v h =
        let seen = detect_all N describe listing v in
        refresh_all-All N v.initialized listing _
          (left-All P v.initialized seen.indices seen.interfaces (detect_all-All listing v h))
