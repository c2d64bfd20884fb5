-- ===== src/Network/Inventory/Steady.antt =====
-- An update leaves the sockets of an interface usable (src/flashptp/network/inventory.cpp).
use flashptpd.Prelude.{
  ◌≡◌, refl, sym, ◌∙◌, inl, inr, true, List, [], ◌∷◌, ◌++◌, Bool-cases, All, All-mono,
}
use flashptpd.Prelude.Texts.{Text}
use flashptpd.Network.Address.{Family, Address, InetNtop, same_family, family_of}
use flashptpd.Network.Interface.{
  Interface, Phc, TimestampInfo, find_family, get_family_addr, is_some,
}
use flashptpd.Network.Interface.Served.{AllServed, Has, IsServed-keep}
use flashptpd.Network.Interface.Sound.{
  IsSound, append-Shrinks, Shrinks-IsSound, erase_ip_addr-IsSound, set_properties-IsSound,
}
use flashptpd.Network.Inventory.Keeps.{update-All}
use flashptpd.Network.Inventory.{updates, Inventory, Ifaddr, update}

find_family-append :
    (f : Family) (xs ys : List Address)
    → is_some (find_family f xs) ≡ true
    → is_some (find_family f (xs ++ ys)) ≡ true
unfolding find_family
find_family-append f [] ys h = absurd (cc)
find_family-append f (a ∷ xs) ys h = elim (Bool-cases (same_family (family_of a) f)) [
  | inl e ↦ rw e refl
  | inr e ↦ rw e (find_family-append f xs ys (sym (rw e refl) ∙ h))
]

get_family_addr-append :
    (f : Family) (i : Interface) (ys : List Address)
    → Has f i
    → Has f (record i { ip_addrs = i.ip_addrs ++ ys })
unfolding get_family_addr
get_family_addr-append Family.unspec i ys h = h
get_family_addr-append Family.packet i ys h = h
get_family_addr-append Family.ip4 i ys h = find_family-append Family.ip4 i.ip_addrs ys h
get_family_addr-append Family.ip6 i ys h = find_family-append Family.ip6 i.ip_addrs ys h

append-AllServed :
    (i : Interface) (ys : List Address)
    → AllServed i
    → AllServed (record i { ip_addrs = i.ip_addrs ++ ys })
append-AllServed i ys h =
    All-mono i.socks
      (λ o.
        IsServed-keep i (record i { ip_addrs = i.ip_addrs ++ ys }) o
          (λ f. get_family_addr-append f i ys))
      h

append-IsSound :
    (i : Interface) (ys : List Address)
    → IsSound i
    → IsSound (record i { ip_addrs = i.ip_addrs ++ ys })
append-IsSound i ys h =
    Shrinks-IsSound i (record i { ip_addrs = i.ip_addrs ++ ys }) (append-Shrinks i ys)
      (append-AllServed i ys h.served) h

fresh-IsSound : (i : Interface) → i.socks ≡ [] → IsSound i
fresh-IsSound i e = record { present = rw e tt; limited = rw e tt; served = rw e tt }

-- However often the inventory is updated, whatever addresses and interfaces come and go, the
-- interfaces keep their sockets usable, if they are so at first: no pointer to one is null, each
-- has a level of its interface, and the interface has an address of the family of each.
pub updates-IsSound :
    (N : InetNtop) (describe : Text → TimestampInfo × Phc) (listings : List (List Ifaddr))
    (v : Inventory)
    → All IsSound v.interfaces
    → All IsSound (updates N describe listings v).interfaces
unfolding updates
updates-IsSound N describe [] v h = h
updates-IsSound N describe (listing ∷ rest) v h =
    updates-IsSound N describe rest (update N describe listing v) (
      update-All IsSound append-IsSound erase_ip_addr-IsSound N describe (set_properties-IsSound N)
        fresh-IsSound listing v h)
