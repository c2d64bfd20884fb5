-- ===== src/Network/Interface.antt =====
-- Classes Interface, Socket and PHC (src/flashptp/network/interface.cpp, socket.cpp and phc.cpp). What the
-- system answers when a socket is opened is an argument.
pub mod Sockets
pub mod Kept
pub mod Again
pub mod Served
pub mod Limited
pub mod Sound
use flashptpd.Prelude.{
  ℕ, zero, suc, ◌+◌, ◌-◌, ◌*◌, ◌%◌, ◌^◌, Bool, true, false, not, ◌&&◌, ◌||◌, ltb, ◌==◌,
  if◌then◌else◌, List, [], ◌∷◌, ◌++◌, Option, none, some, get_elem?, erase_idx, drop,
}
use flashptpd.Prelude.Int.{ℤ, pos, eqb_ℤ}
use flashptpd.Prelude.Texts.{Text, same_codes}
use flashptpd.Client.Sequence.{TimestampLevel}
use flashptpd.Window.{level_number}
use flashptpd.Config.{to_signed}
use flashptpd.Network.Address.{
  Family, Saddr, Address, InetNtop, same_family, family_of, equals, new_address, no_saddr,
}

-- `PHC`, by its name and clock.
pub record Phc : Type 0 where
  pub name : Text
  pub id : ℤ

-- `valid()`: the id is not `CLOCK_REALTIME`.
abbrev pub valid_phc : Phc → Bool
valid_phc phc = not (eqb_ℤ phc.id (pos 0))

-- `(((unsigned int)~_sock) << 3) | 3` as a `clockid_t`, for a file descriptor.
unfoldable pub phc_id : ℕ → ℤ
phc_id fd = to_signed 32 (pos ((2 ^ 32 - 1 - fd) * 8 % 2 ^ 32 + 3))

-- The bits of `ethtool_ts_info` that are tested.
pub record TimestampInfo : Type 0 where
  pub tx_on : Bool
  pub tx_hardware : Bool
  pub rx_hardware : Bool
  pub raw_hardware : Bool
  pub tx_software : Bool
  pub rx_software : Bool
  pub software : Bool

-- The members of a Socket; `is_open` says whether the descriptor still is.
pub record Socket : Type 0 where
  pub family : Family
  pub timestamp_level : TimestampLevel
  pub src_port : ℕ
  pub fd : Option ℕ
  pub is_open : Bool

-- An Interface; `none` among the sockets is a null pointer.
pub record Interface : Type 0 where
  pub name : Text
  pub index : ℕ
  pub up : Bool
  pub mac_addr : Address
  pub ip_addrs : List Address
  pub timestamp_info : TimestampInfo
  pub phc : Phc
  pub socks : List (Option Socket)

abbrev pub above : TimestampLevel → TimestampLevel → Bool
above a b = ltb (level_number b) (level_number a)

abbrev pub at_most : TimestampLevel → TimestampLevel → TimestampLevel
at_most bound level = if above level bound then bound else level

-- `Interface::timestampLevel`
unfoldable pub timestamp_level : Interface → TimestampLevel
timestamp_level i =
    let info = i.timestamp_info in
    if valid_phc i.phc && info.tx_on && info.tx_hardware && info.rx_hardware && info.raw_hardware
    then TimestampLevel.hardware
    else if info.tx_software && info.rx_software && info.software
    then TimestampLevel.socket
    else TimestampLevel.user

-- `Interface::ptp2ClockID` on the bytes of the MAC address.
unfoldable pub ptp2_clock_id : List ℕ → List ℕ
ptp2_clock_id (a ∷ b ∷ c ∷ d ∷ e ∷ f ∷ rest) = a ∷ b ∷ c ∷ 0xff ∷ 0xfe ∷ d ∷ e ∷ f ∷ []
ptp2_clock_id _ = 0 ∷ 0 ∷ 0 ∷ 0xff ∷ 0xfe ∷ 0 ∷ 0 ∷ 0 ∷ []

-- `Interface::clearSocks`
abbrev pub clear_socks : Interface → Interface
clear_socks i = record i { socks = [] }

-- `Interface::setProperties`
unfoldable pub set_properties : InetNtop → ℕ → Bool → Saddr → Interface → Interface
set_properties N index up mac i =
    if i.index == index && (if i.up then up else not up) && equals i.mac_addr mac
    then i
    else record (clear_socks i) { index = index; up = up; mac_addr = new_address N mac none }

-- The constructor, where `info` and `phc` are what the system says of the name.
unfoldable pub new_interface : InetNtop → Text → ℕ → Bool → Saddr → TimestampInfo → Phc → Interface
new_interface N name index up mac info phc = set_properties N index up mac (record {
  name = name;
  index = 0;
  up = false;
  mac_addr = record { saddr = no_saddr; prefix = 0; short_str = []; str = [] };
  ip_addrs = [];
  timestamp_info = info;
  phc = phc;
  socks = [];
})

-- The first IP address of a family.
unfoldable pub find_family : Family → List Address → Option Address
find_family family [] = none
find_family family (a ∷ addrs) =
    let rest = find_family family addrs in if same_family (family_of a) family then some a else rest

-- `Interface::getFamilyAddr`
unfoldable pub get_family_addr : Family → Interface → Option Address
get_family_addr Family.packet i = some i.mac_addr
get_family_addr Family.unspec i = none
get_family_addr Family.ip4 i = find_family Family.ip4 i.ip_addrs
get_family_addr Family.ip6 i = find_family Family.ip6 i.ip_addrs

abbrev pub is_some : {A : Type 0} → Option A → Bool
is_some none = false
is_some (some a) = true

-- The loop that deletes the sockets of a family; at a null pointer, which it follows, the behaviour is
-- undefined, and the pointer is kept here.
unfoldable pub close_family : Family → List (Option Socket) → List (Option Socket)
close_family family [] = []
close_family family (none ∷ socks) = none ∷ close_family family socks
close_family family (some s ∷ socks) =
    let rest = close_family family socks in
    if same_family s.family family then rest else some s ∷ rest

-- `Interface::eraseIPAddr`
unfoldable pub erase_ip_addr : ℕ → Interface → Interface
erase_ip_addr n i = elim (get_elem? i.ip_addrs n) [
  | none ↦ i
  | some a ↦
      let j = record i { ip_addrs = erase_idx i.ip_addrs n } in
      if is_some (get_family_addr (family_of a) j)
      then j
      else record j { socks = close_family (family_of a) j.socks }
]

-- How the constructor of Socket ends: no descriptor; an error behind that, with the descriptor closed,
-- before or after the level is limited; or well.
pub data Opening : Type 0 where
  refused : Opening
  broken : ℕ → Bool → Opening
  opened : ℕ → Opening

-- `Socket::Socket`, which is called for a known family only.
unfoldable pub new_socket : Opening → TimestampLevel → Family → TimestampLevel → ℕ → Socket
new_socket how best family level port =
    let s : Socket = record {
      family = family;
      timestamp_level = level;
      src_port = if same_family family Family.packet then 0 else port;
      fd = none;
      is_open = false;
    } in
    elim how [
      | Opening.refused ↦ s
      | Opening.broken fd limited ↦ record s {
        fd = some fd;
        timestamp_level = if limited then at_most best level else level;
      }
      | Opening.opened fd ↦ record s {
        fd = some fd;
        is_open = true;
        timestamp_level = at_most best level;
      }
    ]

-- `Socket::valid`
abbrev pub valid_socket : Socket → Bool
valid_socket s = is_some s.fd

abbrev pub is_ip : Family → Bool
is_ip Family.ip4 = true
is_ip Family.ip6 = true
is_ip _ = false

-- `Socket::matches`
unfoldable pub matches : Family → TimestampLevel → ℕ → Socket → Bool
matches family level port s =
    if not (same_family family s.family) || above level s.timestamp_level
    then false
    else if is_ip family
    then port == s.src_port
    else true

-- What a search finds, or that it follows a null pointer.
pub data Search : Type 0 where
  null_pointer missing : Search
  found : Socket → Search

-- The loop of `Interface::sock`.
unfoldable pub find_sock : (Socket → Bool) → List (Option Socket) → Search
find_sock is_match [] = Search.missing
find_sock is_match (none ∷ socks) = Search.null_pointer
find_sock is_match (some s ∷ socks) =
    let rest = find_sock is_match socks in if is_match s then Search.found s else rest

-- `Interface::sock`: `null_pointer` where one is followed, else the interface and the socket, if there is one.
-- A socket that is refused is stored as a null pointer.
pub data Sock : Type 0 where
  null_pointer : Sock
  result : Interface → Option Socket → Sock

unfoldable pub sock : Opening → Family → TimestampLevel → ℕ → Interface → Sock
sock how family level port i = elim (find_sock (matches family level port) i.socks) [
  | Search.null_pointer ↦ Sock.null_pointer
  | Search.found s ↦ Sock.result i (some s)
  | Search.missing ↦
      if not (is_some (get_family_addr family i))
      then Sock.result i none
      else (let s = new_socket how (timestamp_level i) family level port in
          let kept = if valid_socket s then some s else none in
          Sock.result (record i { socks = i.socks ++ kept ∷ [] }) kept)
]
