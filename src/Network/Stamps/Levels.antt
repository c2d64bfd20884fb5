-- ===== src/Network/Stamps/Levels.antt =====
-- The levels of the time stamps (src/flashptp/network/socket.cpp and inventory.cpp).
use flashptpd.Prelude.{
  ℕ, ◌≤◌, ◌<◌, ◌*◌, ◌≡◌, refl, inl, inr, ◌⊎◌, Bool, true, false, not, ◌&&◌, if◌then◌else◌, List, [],
  ◌∷◌, Option, none, some, arith, Bool-cases,
}
use flashptpd.Wire.Timestamp.{Timespec}
use flashptpd.Client.Sequence.{TimestampLevel}
use flashptpd.Window.{level_number}
use flashptpd.ServerMode.Respond.{is_hardware}
use flashptpd.Network.Address.{Saddr}
use flashptpd.Network.Interface.{above}
use flashptpd.Network.Interface.Limited.{below}
use flashptpd.Network.Stamps.{
  Control, Stamp, Poll, Found, timespec_size, is_given, is_echo, transmit_stamp, poll_stamp,
  user_stamp, transmit_timestamp, receive_control, receive_controls,
}

-- A socket of the level gives such a stamp.
pub data Gives (level : TimestampLevel) : Option Stamp → Type 0 where
  nothing : Gives level none
  by_socket : (t : Timespec) → Gives level (some (TimestampLevel.socket, t))
  by_hardware :
      (t : Timespec)
      → level ≡ TimestampLevel.hardware
      → Gives level (some (TimestampLevel.hardware, t))

is_hardware→≡ :
    (level : TimestampLevel) → is_hardware level ≡ true → level ≡ TimestampLevel.hardware
is_hardware→≡ TimestampLevel.hardware h = refl
is_hardware→≡ TimestampLevel.invalid h = absurd (cc h)
is_hardware→≡ TimestampLevel.user h = absurd (cc h)
is_hardware→≡ TimestampLevel.socket h = absurd (cc h)

both : (a b : Bool) → a && b ≡ true → b ≡ true
both a b h = ground arith

chosen-Gives :
    (a b : Bool) (level : TimestampLevel) (software hardware : Timespec)
    → (a ≡ true → level ≡ TimestampLevel.hardware)
    → Gives level (
        if a
        then some (TimestampLevel.hardware, hardware)
        else if b
        then some (TimestampLevel.socket, software)
        else none)
chosen-Gives true b level software hardware h = by_hardware hardware (h refl)
chosen-Gives false true level software hardware h = by_socket software
chosen-Gives false false level software hardware h = nothing

transmit_stamp-Gives :
    (level : TimestampLevel) (controls : List Control) → Gives level (transmit_stamp level controls)
unfolding transmit_stamp
transmit_stamp-Gives level [] = nothing
transmit_stamp-Gives level (Control.ip4_pktinfo b ∷ controls) = transmit_stamp-Gives level controls
transmit_stamp-Gives level (Control.ip6_pktinfo b ∷ controls) = transmit_stamp-Gives level controls
transmit_stamp-Gives level (Control.other ∷ controls) = transmit_stamp-Gives level controls
transmit_stamp-Gives level (Control.timestamping len software hardware ∷ controls) =
    let third = is_given (3 * timespec_size) len hardware in
    chosen-Gives (third && is_hardware level) (is_given timespec_size len software) level software
      hardware (λ e. is_hardware→≡ level (both third (is_hardware level) e))

poll_stamp-Gives :
    (level : TimestampLevel) (msg : List ℕ) (polls : List Poll)
    → Gives level (poll_stamp level msg polls)
unfolding poll_stamp
poll_stamp-Gives level msg [] = nothing
poll_stamp-Gives level msg (Poll.over ∷ polls) = nothing
poll_stamp-Gives level msg (Poll.pending ∷ polls) = poll_stamp-Gives level msg polls
poll_stamp-Gives level msg (Poll.queued bytes controls ∷ polls) =
    elim (Bool-cases (is_echo msg bytes)) [
      | inl e ↦ rw e (transmit_stamp-Gives level controls)
      | inr e ↦ rw e (poll_stamp-Gives level msg polls)
    ]

user_stamp-level :
    (level : TimestampLevel) (t old : Timespec) (o : Option Stamp)
    → Gives level o
    → let stamp = user_stamp (some t) old o in
      (stamp ≡ (TimestampLevel.user, t))
      ⊎ (stamp.0 ≡ TimestampLevel.socket)
      ⊎ ((stamp.0 ≡ TimestampLevel.hardware) × (level ≡ TimestampLevel.hardware))
unfolding user_stamp
user_stamp-level level t old none nothing = inl refl
user_stamp-level level t old _ (by_socket s) = inr (inl refl)
user_stamp-level level t old _ (by_hardware s e) = inr (inr (refl, e))

-- Where the clock can be read, there is always a time stamp of the sending. It is the clock's at level
-- user; or one of level socket, or of level hardware if that is the socket's level, and these two only
-- where at least level socket is desired.
pub transmit_timestamp-level :
    (level : TimestampLevel) (msg : List ℕ) (polls : List Poll) (t : Timespec)
    (desired : TimestampLevel) (old : Timespec)
    → let stamp = transmit_timestamp level msg polls (some t) desired old in
      (stamp ≡ (TimestampLevel.user, t))
      ⊎ ((above TimestampLevel.socket desired ≡ false)
          × ((stamp.0 ≡ TimestampLevel.socket)
              ⊎ ((stamp.0 ≡ TimestampLevel.hardware) × (level ≡ TimestampLevel.hardware))))
unfolding transmit_timestamp user_stamp
transmit_timestamp-level level msg polls t desired old =
    elim (Bool-cases (above TimestampLevel.socket desired)) [
      | inl e ↦ rw e (inl refl)
      | inr e ↦
          rw e
            (elim (user_stamp-level level t old (poll_stamp level msg polls)
              (poll_stamp-Gives level msg polls)) [ inl f ↦ inl f | inr f ↦ inr (refl, f) ])
    ]

-- The time is the clock's at level user, or of a level above that and within the given one.
pub data IsStamped (level : TimestampLevel) (now : Timespec) (f : Found) : Type 0 where
  by_user : f.level ≡ TimestampLevel.user → f.time ≡ now → IsStamped level now f
  above_user :
      level_number TimestampLevel.user < level_number f.level
      → level_number f.level ≤ level_number level
      → IsStamped level now f

-- With a change of the destination or none.
readdressed-IsStamped :
    (level : TimestampLevel) (now : Timespec) (f : Found) (s : Saddr)
    → IsStamped level now f
    → IsStamped level now (record f { dst = s })
readdressed-IsStamped level now f s (by_user e g) = by_user e g
readdressed-IsStamped level now f s (above_user e g) = above_user e g

-- With a time stamp or none.
chosen-IsStamped :
    (a b : Bool) (level : TimestampLevel) (now software hardware : Timespec) (f : Found)
    → (a ≡ true → level ≡ TimestampLevel.hardware)
    → (b ≡ true → above TimestampLevel.socket level ≡ false)
    → IsStamped level now f
    → IsStamped level now (
        if a
        then record f { level = TimestampLevel.hardware; time = hardware }
        else if b
        then record f { level = TimestampLevel.socket; time = software }
        else f)
chosen-IsStamped true b level now software hardware f h k v =
    above_user (omega arith) (rw (h refl) (omega arith))
chosen-IsStamped false true level now software hardware f h k v =
    above_user (omega arith) (below TimestampLevel.socket level (k refl))
chosen-IsStamped false false level now software hardware f h k v = v

receive_control-IsStamped :
    (level : TimestampLevel) (now : Timespec) (f : Found) (c : Control)
    → IsStamped level now f
    → IsStamped level now (receive_control level f c)
unfolding receive_control
receive_control-IsStamped level now f (Control.ip4_pktinfo bytes) v =
    readdressed-IsStamped level now f _ v
receive_control-IsStamped level now f (Control.ip6_pktinfo bytes) v =
    readdressed-IsStamped level now f _ v
receive_control-IsStamped level now f Control.other v = v
receive_control-IsStamped level now f (Control.timestamping len software hardware) v =
    let third = is_given (3 * timespec_size) len hardware in
    let first = is_given timespec_size len software in
    chosen-IsStamped (third && is_hardware level) (first && not (above TimestampLevel.socket level))
      level now software hardware f (λ e. is_hardware→≡ level (both third (is_hardware level) e))
      (λ e. ground arith) v

-- Whatever the control messages of a received message: its time is the one at which the sockets
-- were ready, at level user, or it is of level socket or hardware, and within the level of the
-- specification, if it is so at first.
pub receive_controls-IsStamped :
    (level : TimestampLevel) (now : Timespec) (controls : List Control) (f : Found)
    → IsStamped level now f
    → IsStamped level now (receive_controls level controls f)
unfolding receive_controls
receive_controls-IsStamped level now [] f v = v
receive_controls-IsStamped level now (c ∷ controls) f v =
    receive_controls-IsStamped level now controls (receive_control level f c)
      (receive_control-IsStamped level now f c v)
