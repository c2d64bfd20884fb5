-- ===== src/Network/Inventory.antt =====
-- Class Inventory (src/flashptp/network/inventory.cpp): the interfaces that are known, the questions about
-- them, and the update that the thread makes every ten seconds. The list of `getifaddrs`, with what
-- `if_nametoindex` says of each name, is an argument, and so is what the constructor of Interface asks.
pub mod Mirror
pub mod Identity
pub mod Never
pub mod Keeps
pub mod Steady
use flashptpd.Prelude.{
  ℕ, zero, suc, ◌+◌, Bool, true, false, not, ◌&&◌, ◌||◌, ◌==◌, if◌then◌else◌, List, [], ◌∷◌, ◌++◌,
  map, Option, none, some, length, get_elem?,
}
use flashptpd.Prelude.Int.{ℤ, negsuc}
use flashptpd.Prelude.Texts.{Text, same_codes}
use flashptpd.Client.Sequence.{TimestampLevel}
use flashptpd.Selection.{is_member}
use flashptpd.Network.Address.{
  Family, Saddr, Address, InetNtop, same_family, family_of, new_address,
}
use flashptpd.Network.Interface.{
  Interface, Phc, TimestampInfo, valid_phc, timestamp_level, ptp2_clock_id, set_properties,
  new_interface, get_family_addr, is_some, find_family, erase_ip_addr,
}

-- `indices` is the vector of that name in `threadFunc`, which lives as long as the thread.
pub record Inventory : Type 0 where
  pub interfaces : List Interface
  pub initialized : Bool
  pub indices : List ℕ

abbrev pub new_inventory : Inventory
new_inventory = record { interfaces = []; initialized = false; indices = [] }

-- An entry of `getifaddrs`.
pub record Ifaddr : Type 0 where
  pub name : Text
  pub index : ℕ
  pub up : Bool
  pub addr : Option Saddr
  pub netmask : Option Saddr

-- `findInterface`
unfoldable pub find_interface : Text → List Interface → Option Interface
find_interface name [] = none
find_interface name (i ∷ is) =
    let rest = find_interface name is in if same_codes i.name name then some i else rest

-- `hasInterface`
abbrev pub has_interface : Text → Inventory → Bool
has_interface name v = is_some (find_interface name v.interfaces)

unfoldable pub get_interface_timestamp_level : Text → Inventory → TimestampLevel
get_interface_timestamp_level name v = elim (find_interface name v.interfaces) [
  | none ↦ TimestampLevel.invalid
  | some i ↦ timestamp_level i
]

unfoldable pub get_interface_ptp_clock_id : Text → Inventory → Option (List ℕ)
get_interface_ptp_clock_id name v = elim (find_interface name v.interfaces) [
  | none ↦ none
  | some i ↦ some (ptp2_clock_id i.mac_addr.saddr.bytes)
]

unfoldable pub get_interface_phc_info : Text → Inventory → Option Phc
get_interface_phc_info name v = elim (find_interface name v.interfaces) [
  | none ↦ none
  | some i ↦ if valid_phc i.phc then some i.phc else none
]

-- The loop of `getPHCClockIDByName`.
unfoldable pub find_phc : Text → List Interface → ℤ
find_phc name [] = negsuc 0
find_phc name (i ∷ is) =
    let rest = find_phc name is in
    if valid_phc i.phc && same_codes i.phc.name name then i.phc.id else rest

unfoldable pub has_text : Text → List Address → Bool
has_text t [] = false
has_text t (a ∷ addrs) =
    let rest = has_text t addrs in if same_codes a.short_str t then true else rest

-- The address is the interface's.
unfoldable pub owns : Address → Interface → Bool
owns a i =
    if same_family (family_of a) Family.packet
    then same_codes i.mac_addr.short_str a.short_str
    else has_text a.short_str i.ip_addrs

-- `hasAddress` with the name of the interface.
unfoldable pub has_address : Address → List Interface → Option Text
has_address a [] = none
has_address a (i ∷ is) = let rest = has_address a is in if owns a i then some i.name else rest

-- `getFamilyAddress`
unfoldable pub get_family_address : Text → Family → Inventory → Option Address
get_family_address name family v = elim (find_interface name v.interfaces) [
  | none ↦ none
  | some i ↦
      if same_family family Family.packet then some i.mac_addr else find_family family i.ip_addrs
]

-- The first interface with the name is changed.
unfoldable pub modify_named : Text → (Interface → Interface) → List Interface → List Interface
modify_named name f [] = []
modify_named name f (i ∷ is) =
    let rest = modify_named name f is in if same_codes i.name name then f i ∷ is else i ∷ rest

-- A name up to its colon.
unfoldable pub base_name : Text → Text
base_name [] = []
base_name (c ∷ cs) = let rest = base_name cs in if c == b':' then [] else c ∷ rest

-- One of the addresses has this text, with its prefix.
unfoldable pub has_str : Text → List Address → Bool
has_str t [] = false
has_str t (a ∷ addrs) = let rest = has_str t addrs in if same_codes t a.str then true else rest

-- The loop that adds the addresses that are new.
unfoldable pub add_missing : List Address → Interface → Interface
add_missing [] i = i
add_missing (a ∷ listed) i =
    add_missing listed
      (if has_str a.str i.ip_addrs then i else record i { ip_addrs = i.ip_addrs ++ a ∷ [] })

-- The loop that erases the addresses that are gone, at the index `k` with `n` addresses left.
unfoldable pub erase_missing : List Address → ℕ → ℕ → Interface → Interface
erase_missing listed zero k i = i
erase_missing listed (suc n) k i = elim (get_elem? i.ip_addrs k) [
  | none ↦ i
  | some a ↦ elim (has_str a.str listed) [
    | true ↦ erase_missing listed n (k + 1) i
    | false ↦ erase_missing listed n k (erase_ip_addr k i)
  ]
]

-- The loop that removes the interfaces whose index is not among the indices.
unfoldable pub erase_gone : List ℕ → List Interface → List Interface
erase_gone indices [] = []
erase_gone indices (i ∷ is) =
    let rest = erase_gone indices is in if is_member i.index indices then i ∷ rest else rest

module _ (N : InetNtop) where
  -- The addresses of one interface, in the list.
  unfoldable pub collect : Text → List Ifaddr → List Address
  collect name [] = []
  collect name (e ∷ listing) =
      let rest = collect name listing in
      elim e.addr [
        | none ↦ rest
        | some s ↦
            if same_family s.family Family.packet || not (same_codes (base_name e.name) name)
            then rest
            else new_address N s e.netmask ∷ rest
      ]

  -- The addresses of an interface: at first all are added, later the differences.
  unfoldable pub refresh : Bool → List Ifaddr → Interface → Interface
  refresh initialized listing i =
      let listed = collect i.name listing in
      if initialized
      then (let j = add_missing listed i in erase_missing listed (length j.ip_addrs) 0 j)
      else record i { ip_addrs = i.ip_addrs ++ listed }

  unfoldable pub refresh_all : Bool → List Ifaddr → List Interface → List Interface
  refresh_all initialized listing [] = []
  refresh_all initialized listing (i ∷ is) =
      refresh initialized listing i ∷ refresh_all initialized listing is

module _ (N : InetNtop) (describe : Text → TimestampInfo × Phc) where
  -- The first loop, for one entry, where `known` is the interface that is found: a new one is added, or
  -- the known one gets new properties.
  unfoldable pub place : Ifaddr → Saddr → Option Interface → List Interface → List Interface
  place e mac none is =
      let asked = describe e.name in
      is ++ new_interface N e.name e.index e.up mac asked.0 asked.1 ∷ []
  place e mac (some i) is = modify_named e.name (set_properties N e.index e.up mac) is

  unfoldable pub detect_link : Ifaddr → Saddr → Inventory → Inventory
  detect_link e mac v =
      let known = if v.initialized then find_interface e.name v.interfaces else none in
      record v { indices = v.indices ++ e.index ∷ []; interfaces = place e mac known v.interfaces }

  unfoldable pub detect : Ifaddr → Inventory → Inventory
  detect e v = elim e.addr [
    | none ↦ v
    | some mac ↦ if same_family mac.family Family.packet then detect_link e mac v else v
  ]

  unfoldable pub detect_all : List Ifaddr → Inventory → Inventory
  detect_all [] v = v
  detect_all (e ∷ listing) v = detect_all listing (detect e v)

  -- One update, where `getifaddrs` succeeds; otherwise nothing changes.
  unfoldable pub update : List Ifaddr → Inventory → Inventory
  update listing v =
      let seen = detect_all listing v in
      let left =
        if v.initialized then erase_gone seen.indices seen.interfaces else seen.interfaces in
      record seen { interfaces = refresh_all N v.initialized listing left; initialized = true }

  -- The updates that a thread makes one after the other.
  unfoldable pub updates : List (List Ifaddr) → Inventory → Inventory
  updates [] v = v
  updates (listing ∷ rest) v = updates rest (update listing v)
