-- ===== src/Network/Send/Stamped.antt =====
-- The time stamps that `Inventory::send` returns (src/flashptp/network/inventory.cpp).
use flashptpd.Prelude.{
  ℕ, ◌≤◌, ◌≡◌, refl, inl, inr, Bool, true, false, not, if◌then◌else◌, List, ◌++◌, none, some, arith,
  Bool-cases,
}
use mathlib.Core.Path.{subst}
use flashptpd.Prelude.Texts.{Text}
use flashptpd.Wire.Timestamp.{Timespec}
use flashptpd.Wire.Message.{Message, write_message, two_step}
use flashptpd.Client.Sequence.{TimestampLevel}
use flashptpd.Window.{level_number}
use flashptpd.Network.Address.{Family, Address, family_of}
use flashptpd.Network.Interface.{Interface, Socket, Sock, above, at_most, timestamp_level, sock}
use flashptpd.Network.Interface.Limited.{AllLimited, at_most-above, below, sock-AllLimited}
use flashptpd.Network.Inventory.{Inventory, find_interface}
use flashptpd.Network.Stamps.{Stamp, Poll, transmit_timestamp}
use flashptpd.Network.Stamps.Levels.{transmit_timestamp-level}
use flashptpd.Network.Send.{
  Answers, Ending, identify, desired_level, prepare, send_on, settle, is_refused, send,
}

desired-below :
    (m : Message) (level best : TimestampLevel)
    → above TimestampLevel.user best ≡ false
    → above level best ≡ false
    → above (desired_level m level) best ≡ false
desired-below m level best h k = elim (Bool-cases (two_step m)) [ inl e ↦ rw e k | inr e ↦ rw e h ]

timestamp_level-user : (i : Interface) → above TimestampLevel.user (timestamp_level i) ≡ false
unfolding timestamp_level
timestamp_level-user i = ground arith

transmit_timestamp-below :
    (level best : TimestampLevel) (msg : List ℕ) (polls : List Poll) (t : Timespec)
    (desired : TimestampLevel) (old : Timespec)
    → level_number level ≤ level_number best
    → above TimestampLevel.user best ≡ false
    → above desired best ≡ false
    → level_number (transmit_timestamp level msg polls (some t) desired old).0 ≤ level_number best
transmit_timestamp-below level best msg polls t desired old h k d =
    elim (transmit_timestamp-level level msg polls t desired old) [
      | inl e ↦ rw e (below TimestampLevel.user best k)
      | inr (f, inl e) ↦ rw e (ground arith)
      | inr (f, inr (e, g)) ↦ rw e (subst (λ x. level_number x ≤ level_number best) g h)
    ]

-- The level of a time stamp that is returned is within the given one.
abbrev pub IsWithin : TimestampLevel → Ending → Type 0
IsWithin best Ending.fault = Unit {0}
IsWithin best (Ending.failed is) = Unit {0}
IsWithin best (Ending.sent is s bytes none) = Unit {0}
IsWithin best (Ending.sent is s bytes (some (level, at))) = level_number level ≤ level_number best

sent-IsWithin :
    (best : TimestampLevel) (b : Bool) (is : List Interface) (s : Socket) (bytes : List ℕ)
    (stamp : Stamp)
    → level_number stamp.0 ≤ level_number best
    → IsWithin best (if b then Ending.sent is s bytes (some stamp) else Ending.failed is)
sent-IsWithin best true is s bytes stamp h = h
sent-IsWithin best false is s bytes stamp h = tt

send_on-IsWithin :
    (best : TimestampLevel) (a : Answers) (t : Timespec) (m : Message) (tail : List ℕ)
    (level : TimestampLevel) (old : Timespec) (i : Interface) (is : List Interface) (s : Socket)
    → a.later ≡ some t
    → level_number s.timestamp_level ≤ level_number best
    → above TimestampLevel.user best ≡ false
    → above level best ≡ false
    → IsWithin best (send_on a m tail (some (level, old)) i is s)
unfolding send_on
send_on-IsWithin best a t m tail level old i is s e h u k =
    let desired = desired_level m level in
    let prepared = prepare a.now desired old (identify i m) in
    let bytes = write_message prepared.0 ++ tail in
    sent-IsWithin best a.accepted is s bytes _ (
      rw e (
        transmit_timestamp-below s.timestamp_level best bytes a.polls t desired prepared.1 h u
          (desired-below m level best u k)))

settle-IsWithin :
    (a : Answers) (t : Timespec) (m : Message) (tail : List ℕ) (level : TimestampLevel)
    (old : Timespec) (family : Family) (port : ℕ) (i : Interface) (is : List Interface) (r : Sock)
    → a.later ≡ some t
    → above level (timestamp_level i) ≡ false
    → AllLimited i
    → sock a.opening family level port i ≡ r
    → IsWithin (timestamp_level i) (settle a m tail (some (level, old)) i is r)
unfolding settle
settle-IsWithin a t m tail level old family port i is Sock.null_pointer e h v f = tt
settle-IsWithin a t m tail level old family port i is (Sock.result j none) e h v f = tt
settle-IsWithin a t m tail level old family port i is (Sock.result j (some s)) e h v f =
    let kept = sock-AllLimited a.opening family level port i j (some s) h v f in
    send_on-IsWithin (timestamp_level i) a t m tail level old j _ s e
      (subst (λ x. level_number s.timestamp_level ≤ level_number x) kept.0 kept.2)
      (timestamp_level-user i) h

chosen-IsWithin :
    (best : TimestampLevel) (b : Bool) (x y : Ending)
    → IsWithin best x
    → IsWithin best y
    → IsWithin best (if b then x else y)
chosen-IsWithin best true x y h k = h
chosen-IsWithin best false x y h k = k

-- Whatever level the caller of `send` asks for and whatever the system answers, the level of the time
-- stamp that it gets is one that the interface has, if those of the interface's sockets are and the clock
-- can be read.
pub send-IsWithin :
    (a : Answers) (t : Timespec) (m : Message) (tail : List ℕ) (name : Text) (src_port : ℕ)
    (dst : Address) (dst_port : ℕ) (level : TimestampLevel) (old : Timespec) (v : Inventory)
    (i : Interface)
    → a.later ≡ some t
    → find_interface name v.interfaces ≡ some i
    → AllLimited i
    → IsWithin (timestamp_level i) (send a m tail name src_port dst dst_port (some (level, old)) v)
unfolding send
send-IsWithin a t m tail name src_port dst dst_port level old v i e f h =
    let best = timestamp_level i in
    let asked = at_most best level in
    let r = sock a.opening (family_of dst) asked src_port i in
    rw f (
      chosen-IsWithin best (is_refused name src_port dst dst_port) _ _ tt (
        chosen-IsWithin best (not i.up) _ _ tt (
          settle-IsWithin a t m tail asked old (family_of dst) src_port i v.interfaces r e
            (at_most-above best level) h refl)))
