-- ===== src/Network/Inventory/Never.antt =====
-- No update removes an interface (src/flashptp/network/inventory.cpp).
use flashptpd.Prelude.{
  ℕ, ◌≡◌, refl, sym, ap, ◌∙◌, inl, inr, Bool, true, false, if◌then◌else◌, List, [], ◌∷◌, ◌++◌,
  Option, none, some, Bool-cases, Option-cases,
}
use mathlib.Core.List.{append_assoc, append-nil}
use flashptpd.Prelude.Texts.{Text}
use flashptpd.Selection.{is_member}
use flashptpd.Network.Address.{Family, Saddr, InetNtop, same_family}
use flashptpd.Network.Interface.{Interface, Phc, TimestampInfo, set_properties, new_interface}
use flashptpd.Network.Inventory.Identity.{
  names, AllSeen, refresh-identity, set_properties-identity, is_member-last, AllSeen-grow,
  AllSeen-append, names-append, modify_named-keeps,
}
use flashptpd.Network.Inventory.{
  Inventory, Ifaddr, find_interface, place, detect_link, detect, detect_all, refresh_all,
  erase_gone, update, updates,
}

-- An inventory whose interfaces include those of another, by their names, in their order.
record IsGrown (before : List Interface) (after : Inventory) : Type 0 where
  more : List Text
  kept : names after.interfaces ≡ names before ++ more
  seen : AllSeen after.indices after.interfaces

IsGrown-trans :
    (a : List Interface) (b c : Inventory) → IsGrown a b → IsGrown b.interfaces c → IsGrown a c
IsGrown-trans a b c h g = record {
  more = h.more ++ g.more;
  kept = g.kept ∙ ap (λ ns. ns ++ g.more) h.kept ∙ append_assoc (names a) h.more g.more;
  seen = g.seen;
}

module _ (N : InetNtop) (describe : Text → TimestampInfo × Phc) where
  new_interface-identity :
      (name : Text) (index : ℕ) (up : Bool) (mac : Saddr) (info : TimestampInfo) (phc : Phc)
      → ((new_interface N name index up mac info phc).name ≡ name)
        × ((new_interface N name index up mac info phc).index ≡ index)
  unfolding new_interface
  new_interface-identity name index up mac info phc = set_properties-identity N index up mac _

  place-keeps :
      (e : Ifaddr) (mac : Saddr) (known : Option Interface) (indices : List ℕ) (is : List Interface)
      → AllSeen indices is
      → let after = place N describe e mac known is in
        (more : List Text) × (names after ≡ names is ++ more)
        × AllSeen (indices ++ e.index ∷ []) after
  unfolding place
  place-keeps e mac none indices is h =
      let asked = describe e.name in
      let new = new_interface N e.name e.index e.up mac asked.0 asked.1 in
      let last : is_member new.index (indices ++ e.index ∷ []) ≡ true =
        rw (new_interface-identity e.name e.index e.up mac asked.0 asked.1).1
          (is_member-last e.index indices) in
      (
        new.name ∷ [],
        names-append is (new ∷ []),
        AllSeen-append (indices ++ e.index ∷ []) is (new ∷ [])
            (AllSeen-grow indices (e.index ∷ []) is h) (last, tt),
      )
  place-keeps e mac (some i) indices is h =
      let kept =
        modify_named-keeps (indices ++ e.index ∷ []) e.name (set_properties N e.index e.up mac) is
          (λ j.
            let same = set_properties-identity N e.index e.up mac j in
            (same.0, rw same.1 (is_member-last e.index indices)))
          (AllSeen-grow indices (e.index ∷ []) is h) in
      ([], kept.0 ∙ sym (append-nil (names is)), kept.1)

  detect_link-IsGrown :
      (e : Ifaddr) (mac : Saddr) (v : Inventory)
      → AllSeen v.indices v.interfaces
      → IsGrown v.interfaces (detect_link N describe e mac v)
  unfolding detect_link
  detect_link-IsGrown e mac v h =
      let known = if v.initialized then find_interface e.name v.interfaces else none in
      let (more, kept, seen) = place-keeps e mac known v.indices v.interfaces h in
      record { more = more; kept = kept; seen = seen }

  same-IsGrown : (v : Inventory) → AllSeen v.indices v.interfaces → IsGrown v.interfaces v
  same-IsGrown v h = record { more = []; kept = sym (append-nil (names v.interfaces)); seen = h }

  detect-IsGrown :
      (e : Ifaddr) (v : Inventory)
      → AllSeen v.indices v.interfaces
      → IsGrown v.interfaces (detect N describe e v)
  unfolding detect
  detect-IsGrown e v h = elim (Option-cases e.addr) [
    | inl f ↦ rw (f, detect) (same-IsGrown v h)
    | inr (mac, f) ↦ elim (Bool-cases (same_family mac.family Family.packet)) [
      | inl g ↦ rw (f, g, detect) (detect_link-IsGrown e mac v h)
      | inr g ↦ rw (f, g, detect) (same-IsGrown v h)
    ]
  ]

  detect_all-IsGrown :
      (listing : List Ifaddr) (v : Inventory)
      → AllSeen v.indices v.interfaces
      → IsGrown v.interfaces (detect_all N describe listing v)
  unfolding detect_all
  detect_all-IsGrown [] v h = same-IsGrown v h
  detect_all-IsGrown (e ∷ listing) v h =
      let one = detect-IsGrown e v h in
      IsGrown-trans v.interfaces (detect N describe e v) _ one
        (detect_all-IsGrown listing (detect N describe e v) one.seen)

  erase_gone-AllSeen :
      (indices : List ℕ) (is : List Interface) → AllSeen indices is → erase_gone indices is ≡ is
  unfolding erase_gone
  erase_gone-AllSeen indices [] h = refl
  erase_gone-AllSeen indices (i ∷ is) h =
      rw h.0 (ap (λ js. i ∷ js) (erase_gone-AllSeen indices is h.1))

  refresh_all-keeps :
      (initialized : Bool) (listing : List Ifaddr) (indices : List ℕ) (is : List Interface)
      → AllSeen indices is
      → (names (refresh_all N initialized listing is) ≡ names is)
        × AllSeen indices (refresh_all N initialized listing is)
  unfolding refresh_all
  refresh_all-keeps initialized listing indices [] h = (refl, tt)
  refresh_all-keeps initialized listing indices (i ∷ is) h =
      let same = refresh-identity N initialized listing i in
      let rest = refresh_all-keeps initialized listing indices is h.1 in
      (
        ap (λ n. n ∷ names (refresh_all N initialized listing is)) same.0
            ∙ ap (λ ns. i.name ∷ ns) rest.0,
        (rw same.1 h.0, rest.1),
      )

  if_erase_gone :
      (b : Bool) (indices : List ℕ) (is : List Interface)
      → AllSeen indices is
      → (if b then erase_gone indices is else is) ≡ is
  if_erase_gone true indices is h = erase_gone-AllSeen indices is h
  if_erase_gone false indices is h = refl

  update-IsGrown :
      (listing : List Ifaddr) (v : Inventory)
      → AllSeen v.indices v.interfaces
      → IsGrown v.interfaces (update N describe listing v)
  unfolding update
  update-IsGrown listing v h =
      let seen = detect_all-IsGrown listing v h in
      let found = detect_all N describe listing v in
      let left =
        if v.initialized then erase_gone found.indices found.interfaces else found.interfaces in
      let same : left ≡ found.interfaces =
        if_erase_gone v.initialized found.indices found.interfaces seen.seen in
      let fresh =
        refresh_all-keeps v.initialized listing found.indices found.interfaces seen.seen in
      record { more = seen.more; kept = rw same (fresh.0 ∙ seen.kept); seen = rw same fresh.1 }

  -- However often the inventory is updated, and whatever the system lists then, even nothing at
  -- all: no interface is ever removed, if the index of each is among those that were seen at first.
  -- The names of the interfaces stay, in their order, and new ones are only added behind.
  pub updates-kept :
      (listings : List (List Ifaddr)) (v : Inventory)
      → AllSeen v.indices v.interfaces
      → (more : List Text) × (names (updates N describe listings v).interfaces
          ≡ names v.interfaces ++ more)
        × AllSeen (updates N describe listings v).indices (updates N describe listings v).interfaces
  unfolding updates
  updates-kept [] v h = ([], sym (append-nil (names v.interfaces)), h)
  updates-kept (listing ∷ rest) v h =
      let one = update-IsGrown listing v h in
      let later = updates-kept rest (update N describe listing v) one.seen in
      (
        one.more ++ later.0,
        later.1
            ∙ ap (λ ns. ns ++ later.0) one.kept
            ∙ append_assoc (names v.interfaces) one.more later.0,
        later.2,
      )
