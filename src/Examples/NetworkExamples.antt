-- ===== src/Examples/NetworkExamples.antt =====
-- The theorems on the network component, at concrete inputs.
use flashptpd.Prelude.{◌*◌, ◌/◌, ◌≡◌, refl, true, List, [], ◌∷◌, ◌++◌, none, some, All, arith}
use flashptpd.Prelude.Int.{pos}
use flashptpd.Prelude.Texts.{Text}
use flashptpd.Client.Sequence.{TimestampLevel}
use flashptpd.Selection.{is_member}
use flashptpd.Network.Address.{Family, Saddr, InetNtop, no_saddr, new_address, saddr_to_prefix}
use flashptpd.Network.Address.Masks.{netmask, saddr_to_prefix-netmask}
use flashptpd.Network.Interface.{
  Interface, Socket, Phc, TimestampInfo, Opening, Sock, sock, timestamp_level, get_family_addr,
  find_family, find_sock, matches, new_socket,
}
use flashptpd.Network.Interface.Again.{sock-again, sock-null_pointer}
use flashptpd.Network.Interface.Sound.{IsSound}
use flashptpd.Network.Inventory.{Inventory, Ifaddr, collect, has_str, refresh, updates}
use flashptpd.Network.Inventory.Mirror.{refresh-collect}
use flashptpd.Network.Inventory.Identity.{names, AllSeen}
use flashptpd.Network.Inventory.Never.{updates-kept}
use flashptpd.Network.Inventory.Steady.{updates-IsSound}
use flashptpd.Network.Stamps.{Control, receive_controls}
use flashptpd.Network.Stamps.Levels.{IsStamped, by_user, receive_controls-IsStamped}
use flashptpd.Network.Recv.{SocketSpecs, Listened, listen}
use flashptpd.Network.Recv.Safe.{IsListening, listen-IsListening}
use flashptpd.Examples.ClientExamples.{at}

-- Bytes as their own text.
abbrev pub ntop : InetNtop
ntop = record { of_ip4 = λ b. b; of_ip6 = λ b. b }

abbrev pub eth0 : Text
eth0 = b'e' ∷ b't' ∷ b'h' ∷ b'0' ∷ []

abbrev pub mac : Saddr
mac = record { family = Family.packet; bytes = 1 ∷ 2 ∷ 3 ∷ 4 ∷ 5 ∷ 6 ∷ [] }

abbrev pub host : Saddr
host = record { family = Family.ip4; bytes = 10 ∷ 0 ∷ 0 ∷ 1 ∷ [] }

-- A system whose interfaces have time stamps of the kernel and of the hardware.
abbrev pub describe : Text → TimestampInfo × Phc
describe name = (
  record {
    tx_on = true;
    tx_hardware = true;
    rx_hardware = true;
    raw_hardware = true;
    tx_software = true;
    rx_software = true;
    software = true;
  },
  record { name = b'p' ∷ []; id = pos 3 },
)

abbrev entry : Saddr → Ifaddr
entry s = record { name = eth0; index = 2; up = true; addr = some s; netmask = none }

abbrev listing : List Ifaddr
listing = entry mac ∷ entry host ∷ []

-- An interface with a socket of level hardware at port 319.
abbrev pub link : Interface
link = record {
  name = eth0;
  index = 2;
  up = true;
  mac_addr = new_address ntop mac none;
  ip_addrs = new_address ntop host none ∷ [];
  timestamp_info = (describe eth0).0;
  phc = (describe eth0).1;
  socks =
      some (record {
        family = Family.ip4;
        timestamp_level = TimestampLevel.hardware;
        src_port = 319;
        fd = some 7;
        is_open = true;
      })
      ∷ [];
}

abbrev pub known : Inventory
known = record { interfaces = link ∷ []; initialized = true; indices = 2 ∷ [] }

abbrev pub specs : SocketSpecs
specs = record {
  interface = eth0;
  family = Family.ip4;
  src_port = 319;
  timestamp_level = TimestampLevel.socket;
}

abbrev pub listened : Listened
listened = record { fd = some 7; specs = specs; family_saddr = host }

pub link-IsSound : IsSound link
unfolding timestamp_level get_family_addr find_family new_address
link-IsSound = record { present = (refl, tt); limited = (omega arith, tt); served = (refl, tt) }

saddr_to_prefix-netmask_example :
    (saddr_to_prefix (record { family = Family.ip4; bytes = netmask 4 0 20 }) ≡ 20 / 8 * 8)
    × (saddr_to_prefix (record { family = Family.ip6; bytes = netmask 16 0 50 }) ≡ 50 / 8 * 8)
saddr_to_prefix-netmask_example = saddr_to_prefix-netmask 20 50 (omega arith) (omega arith)

updates-IsSound_example :
    All IsSound (updates ntop describe (listing ∷ (entry mac ∷ []) ∷ []) known).interfaces
updates-IsSound_example =
    updates-IsSound ntop describe (listing ∷ (entry mac ∷ []) ∷ []) known (link-IsSound, tt)

refresh-collect_example :
    has_str (b'1' ∷ []) (refresh ntop true listing link).ip_addrs
    ≡ has_str (b'1' ∷ []) (collect ntop eth0 listing)
refresh-collect_example = refresh-collect ntop listing link (b'1' ∷ [])

updates-kept_example :
    (more : List Text) × (names (updates ntop describe ([] ∷ listing ∷ []) known).interfaces
      ≡ names known.interfaces ++ more)
    × AllSeen
        (updates ntop describe ([] ∷ listing ∷ []) known).indices
        (updates ntop describe ([] ∷ listing ∷ []) known).interfaces
unfolding is_member
updates-kept_example = updates-kept ntop describe ([] ∷ listing ∷ []) known (refl, tt)

listen-IsListening_example :
    IsListening (listen (λ sp. Opening.opened 8) (specs ∷ []) (link ∷ []) [])
listen-IsListening_example =
    listen-IsListening (λ sp. Opening.opened 8) (specs ∷ []) (link ∷ []) [] (λ sp e. cc e)
      (link-IsSound, tt)

receive_controls-IsStamped_example : IsStamped TimestampLevel.hardware (at 5) (
    receive_controls TimestampLevel.hardware
      (Control.timestamping 64 (at 3) (at 4) ∷ [])
      (record { dst = no_saddr; level = TimestampLevel.user; time = at 5 }))
receive_controls-IsStamped_example =
    receive_controls-IsStamped TimestampLevel.hardware (at 5)
      (Control.timestamping 64 (at 3) (at 4) ∷ [])
      (record { dst = no_saddr; level = TimestampLevel.user; time = at 5 }) (by_user refl refl)

-- The interface before and after a socket is opened for port 320.
abbrev opened : Socket
opened = record {
  family = Family.ip4;
  timestamp_level = TimestampLevel.socket;
  src_port = 320;
  fd = some 8;
  is_open = true;
}

abbrev with_opened : Interface
with_opened = record link { socks = link.socks ++ some opened ∷ [] }

sock-again_example :
    sock (Opening.opened 9) Family.ip4 TimestampLevel.socket 320 with_opened
    ≡ Sock.result with_opened (some opened)
unfolding sock find_sock matches get_family_addr find_family new_socket timestamp_level new_address
sock-again_example =
    sock-again (Opening.opened 8) (Opening.opened 9) Family.ip4 TimestampLevel.socket 320 link
      with_opened opened refl refl

sock-null_pointer_example :
    (j : Interface) × (sock Opening.refused Family.packet TimestampLevel.socket 0 link
      ≡ Sock.result j none)
    × (sock (Opening.opened 9) Family.packet TimestampLevel.user 0 j ≡ Sock.null_pointer)
unfolding find_sock matches get_family_addr
sock-null_pointer_example =
    sock-null_pointer (Opening.opened 9) Family.packet Family.packet TimestampLevel.socket
      TimestampLevel.user 0 0 link refl refl refl
