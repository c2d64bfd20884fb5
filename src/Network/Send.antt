-- ===== src/Network/Send.antt =====
-- The sending of a message: `Inventory::send` (src/flashptp/network/inventory.cpp) with `Socket::send`
-- (socket.cpp). What the system answers is an argument.
pub mod Stamped
use flashptpd.Prelude.{
  ℕ, ◌+◌, ◌*◌, ◌/◌, ◌%◌, Bool, true, false, not, ◌&&◌, ◌||◌, ◌==◌, if◌then◌else◌, List, [], ◌∷◌,
  ◌++◌, Option, none, some,
}
use flashptpd.Prelude.Texts.{Text}
use flashptpd.Wire.Timestamp.{Timespec, of_timespec}
use flashptpd.Wire.Message.{Message, write_message, two_step}
use flashptpd.Client.Sequence.{TimestampLevel}
use flashptpd.Network.Address.{Family, Address, same_family, family_of}
use flashptpd.Network.Interface.{
  Interface, Socket, Opening, Sock, at_most, is_ip, timestamp_level, ptp2_clock_id, sock,
}
use flashptpd.Network.Inventory.{Inventory, find_interface, modify_named}
use flashptpd.Network.Stamps.{Stamp, Poll, transmit_timestamp}

-- The answers of the system: to the opening of a socket, the clock before and after the sending, whether
-- `sendto` sends all bytes, and what `poll` says behind it.
pub record Answers : Type 0 where
  pub opening : Opening
  pub now : Timespec
  pub later : Option Timespec
  pub accepted : Bool
  pub polls : List Poll

-- The eight bytes of a clock identity as the number that they are on the wire.
abbrev pub clock_number : ℕ → List ℕ → ℕ
clock_number n [] = n
clock_number n (b ∷ bytes) = clock_number (n * 256 + b) bytes

-- `msg->flags.timescale = 1`
unfoldable pub set_timescale : Message → Message
set_timescale m = record m { flags1 = if m.flags1 / 8 % 2 == 1 then m.flags1 else m.flags1 + 8 }

-- `msg->portIdentity` of an interface.
unfoldable pub identify : Interface → Message → Message
identify i m = record m {
  clock_id = clock_number 0 (ptp2_clock_id i.mac_addr.saddr.bytes);
  port_id = 1;
}

-- The level that is left for the message, before it is sent.
abbrev pub desired_level : Message → TimestampLevel → TimestampLevel
desired_level m level = if two_step m then level else TimestampLevel.user

-- What the level makes of the message and of the caller's time.
unfoldable pub prepare : Timespec → TimestampLevel → Timespec → Message → Message × Timespec
prepare now TimestampLevel.user old m = (record m { timestamp = of_timespec now }, now)
prepare now TimestampLevel.hardware old m = (set_timescale m, old)
prepare now TimestampLevel.invalid old m = (m, old)
prepare now TimestampLevel.socket old m = (m, old)

-- What `send` ends with: it follows a null pointer, it returns false, or it has sent bytes to a socket and
-- returns true with the level and time that the caller asked for.
pub data Ending : Type 0 where
  fault : Ending
  failed : List Interface → Ending
  sent : List Interface → Socket → List ℕ → Option Stamp → Ending

-- The part of `send` behind `Interface::sock`, where the caller asks for a time stamp or not.
unfoldable pub send_on :
    Answers → Message → List ℕ → Option Stamp → Interface → List Interface → Socket → Ending
send_on a m tail none i is s =
    if a.accepted
    then Ending.sent is s (write_message (identify i m) ++ tail) none
    else Ending.failed is
send_on a m tail (some (level, old)) i is s =
    let desired = desired_level m level in
    let prepared = prepare a.now desired old (identify i m) in
    let bytes = write_message prepared.0 ++ tail in
    let stamp = transmit_timestamp s.timestamp_level bytes a.polls a.later desired prepared.1 in
    if a.accepted then Ending.sent is s bytes (some stamp) else Ending.failed is

-- The level that is asked of the socket.
abbrev pub asked_level : Interface → Option Stamp → TimestampLevel
asked_level i none = TimestampLevel.invalid
asked_level i (some (level, old)) = at_most (timestamp_level i) level

abbrev pub clamp : Interface → Option Stamp → Option Stamp
clamp i none = none
clamp i (some (level, old)) = some (at_most (timestamp_level i) level, old)

unfoldable pub settle :
    Answers → Message → List ℕ → Option Stamp → Interface → List Interface → Sock → Ending
settle a m tail wanted i is Sock.null_pointer = Ending.fault
settle a m tail wanted i is (Sock.result j none) = Ending.failed (modify_named i.name (λ k. j) is)
settle a m tail wanted i is (Sock.result j (some s)) =
    send_on a m tail wanted j (modify_named i.name (λ k. j) is) s

-- The arguments are refused.
unfoldable pub is_refused : Text → ℕ → Address → ℕ → Bool
is_refused name src_port dst dst_port =
    (elim name [ [] ↦ true | c ∷ cs ↦ false ])
    || same_family (family_of dst) Family.unspec
    || (is_ip (family_of dst) && (src_port == 0 || dst_port == 0))

-- `Inventory::send` of a message with `tail` behind it; `wanted` is what the two pointers point to, if
-- both are given.
unfoldable pub send :
    Answers → Message → List ℕ → Text → ℕ → Address → ℕ → Option Stamp → Inventory → Ending
send a m tail name src_port dst dst_port wanted v =
    if is_refused name src_port dst dst_port
    then Ending.failed v.interfaces
    else elim (find_interface name v.interfaces) [
      | none ↦ Ending.failed v.interfaces
      | some i ↦
          if not i.up
          then Ending.failed v.interfaces
          else settle a m tail (clamp i wanted) i v.interfaces
              (sock a.opening (family_of dst) (asked_level i wanted) src_port i)
    ]
