-- ===== src/Network/Stamps.antt =====
-- The time stamps that come with control messages: `Socket::transmitTimestamp`
-- (src/flashptp/network/socket.cpp) and the loop over the control messages in `Inventory::recv`
-- (inventory.cpp). The control messages and the clock are arguments.
pub mod Levels
use flashptpd.Prelude.{
  ℕ, ◌-◌, ◌*◌, Bool, ◌&&◌, not, ltb, if◌then◌else◌, List, [], ◌∷◌, Option, none, some, length, drop,
}
use flashptpd.Prelude.Texts.{same_codes}
use flashptpd.Wire.Timestamp.{Timespec}
use flashptpd.Client.Sequence.{TimestampLevel}
use flashptpd.Window.{same_level}
use flashptpd.ServerMode.Respond.{is_hardware}
use flashptpd.Network.Address.{Family, Saddr}
use flashptpd.Network.Interface.{above}

-- A control message: the address of `IP_PKTINFO` or `IPV6_PKTINFO`, `SO_TIMESTAMPING` with the length of
-- the message and the first and the third of its times, or another.
pub data Control : Type 0 where
  ip4_pktinfo ip6_pktinfo : List ℕ → Control
  timestamping : ℕ → Timespec → Timespec → Control
  other : Control

-- A level and a time.
abbrev pub Stamp : Type 0
Stamp = TimestampLevel × Timespec

-- `sizeof(struct timespec)`
abbrev pub timespec_size : ℕ
timespec_size = 16

abbrev pub is_given : ℕ → ℕ → Timespec → Bool
is_given size len t = not (ltb len size) && ltb 0 t.tv_sec

-- The body of the loop of `transmitTimestamp` over the control messages, which ends at the first with times.
unfoldable pub transmit_stamp : TimestampLevel → List Control → Option Stamp
transmit_stamp level [] = none
transmit_stamp level (Control.timestamping len software hardware ∷ controls) =
    if is_given (3 * timespec_size) len hardware && is_hardware level
    then some (TimestampLevel.hardware, hardware)
    else if is_given timespec_size len software
    then some (TimestampLevel.socket, software)
    else none
transmit_stamp level (_ ∷ controls) = transmit_stamp level controls

-- What `poll` says of the error queue: the time is over or `poll` fails, something else than an error is
-- pending, or `recvmsg` returns bytes (none when it fails) and control messages.
pub data Poll : Type 0 where
  over : Poll
  pending : Poll
  queued : List ℕ → List Control → Poll

-- The bytes of the message end what is returned.
unfoldable pub is_echo : List ℕ → List ℕ → Bool
is_echo msg bytes =
    not (ltb (length bytes) (length msg)) && same_codes msg (drop (length bytes - length msg) bytes)

-- The loop at `get_so_timestamp`, on the answers of `poll`, after which the time is over.
unfoldable pub poll_stamp : TimestampLevel → List ℕ → List Poll → Option Stamp
poll_stamp level msg [] = none
poll_stamp level msg (Poll.over ∷ polls) = none
poll_stamp level msg (Poll.pending ∷ polls) = poll_stamp level msg polls
poll_stamp level msg (Poll.queued bytes controls ∷ polls) =
    let rest = poll_stamp level msg polls in
    if is_echo msg bytes then transmit_stamp level controls else rest

-- `get_usr_timestamp`, where `now` is what `clock_gettime` returns, if it does not fail, and `old` what
-- `timestamp` points to.
unfoldable pub user_stamp : Option Timespec → Timespec → Option Stamp → Stamp
user_stamp now old (some stamp) = stamp
user_stamp none old none = (TimestampLevel.invalid, old)
user_stamp (some t) old none = (TimestampLevel.user, t)

-- `Socket::transmitTimestamp` of a socket of level `level`.
unfoldable pub transmit_timestamp :
    TimestampLevel → List ℕ → List Poll → Option Timespec → TimestampLevel → Timespec → Stamp
transmit_timestamp level msg polls now desired old =
    user_stamp now old
      (if above TimestampLevel.socket desired then none else poll_stamp level msg polls)

-- What `recv` has found so far: the destination address, and the time stamp.
pub record Found : Type 0 where
  pub dst : Saddr
  pub level : TimestampLevel
  pub time : Timespec

-- The body of the loop of `recv` over the control messages, for a specification of level `level`.
unfoldable pub receive_control : TimestampLevel → Found → Control → Found
receive_control level f (Control.ip4_pktinfo bytes) = record f {
  dst = record { family = Family.ip4; bytes = bytes };
}
receive_control level f (Control.ip6_pktinfo bytes) = record f {
  dst = record { family = Family.ip6; bytes = bytes };
}
receive_control level f (Control.timestamping len software hardware) =
    if is_given (3 * timespec_size) len hardware && is_hardware level
    then record f { level = TimestampLevel.hardware; time = hardware }
    else if is_given timespec_size len software && not (above TimestampLevel.socket level)
    then record f { level = TimestampLevel.socket; time = software }
    else f
receive_control level f Control.other = f

unfoldable pub receive_controls : TimestampLevel → List Control → Found → Found
receive_controls level [] f = f
receive_controls level (c ∷ controls) f =
    receive_controls level controls (receive_control level f c)
