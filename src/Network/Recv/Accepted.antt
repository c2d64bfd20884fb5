-- ===== src/Network/Recv/Accepted.antt =====
-- What one host sends, another receives: `Inventory::send` and `Inventory::recv` (src/flashptp/network/inventory.cpp).
use flashptpd.Prelude.{
  ℕ, ◌+◌, ◌==◌, ◌^◌, ◌/◌, ◌%◌, ◌<◌, ◌≡◌, refl, sym, ap, ◌⊎◌, inl, inr, ◌∙◌, Bool, true, false,
  if◌then◌else◌, List, [], ◌∷◌, ◌++◌, Option, none, some, arith,
}
use flashptpd.Wire.Timestamp.{Timespec, Timestamp, of_timespec}
use flashptpd.Wire.Message.{
  new_message, Message, IsMessage, read_message, write_message, read_message-write_message,
}
use flashptpd.Client.Sequence.{TimestampLevel}
use flashptpd.Network.Address.{Saddr}
use flashptpd.Network.Address.Masks.{AreBytes}
use flashptpd.Network.Interface.{Interface, Socket, ptp2_clock_id}
use flashptpd.Network.Stamps.{Stamp, Control}
use flashptpd.ServerMode.Respond.{is_hardware}
use flashptpd.Network.Send.{
  Answers, Ending, clock_number, set_timescale, identify, desired_level, prepare, send_on,
}
use flashptpd.Network.Recv.{Listened, Ready, is_ours, delivered, receive}

clock_number_lt : (bytes : List ℕ) → AreBytes bytes → clock_number 0 (ptp2_clock_id bytes) < 2 ^ 64
unfolding ptp2_clock_id
clock_number_lt [] h = ground arith
clock_number_lt (a ∷ []) h = ground arith
clock_number_lt (a ∷ b ∷ []) h = ground arith
clock_number_lt (a ∷ b ∷ c ∷ []) h = ground arith
clock_number_lt (a ∷ b ∷ c ∷ d ∷ []) h = ground arith
clock_number_lt (a ∷ b ∷ c ∷ d ∷ e ∷ []) h = ground arith
clock_number_lt (a ∷ b ∷ c ∷ d ∷ e ∷ f ∷ rest) h = ground arith

-- The level that a message is sent with, `invalid` where the caller asks for no time stamp.
abbrev pub sent_level : Message → Option Stamp → TimestampLevel
sent_level m none = TimestampLevel.invalid
sent_level m (some (level, old)) = desired_level m level

abbrev is_user : TimestampLevel → Bool
is_user TimestampLevel.user = true
is_user _ = false

-- The message on the wire is the one that the mode has built, but for the identity of the interface, the
-- time `now`, which is put in at level user, and the bit `timescale`, which is set at level hardware.
pub record Carries (i : Interface) (now : Timespec) (level : TimestampLevel) (m n : Message)
    : Type 0 where
  pub valid : IsMessage n
  pub same : n ≡ record m {
    clock_id = n.clock_id;
    port_id = n.port_id;
    flags1 = n.flags1;
    timestamp = n.timestamp;
  }
  pub clock_id : n.clock_id ≡ clock_number 0 (ptp2_clock_id i.mac_addr.saddr.bytes)
  pub port_id : n.port_id ≡ 1
  pub timestamp : n.timestamp ≡ (if is_user level then of_timespec now else m.timestamp)
  pub timescale : n.flags1 / 8 % 2 ≡ (if is_hardware level then 1 else m.flags1 / 8 % 2)
  pub low_flags : n.flags1 % 8 ≡ m.flags1 % 8
  pub high_flags : n.flags1 / 16 ≡ m.flags1 / 16

of_timespec-ns : (t : Timespec) → (of_timespec t).ns < 2 ^ 32
unfolding of_timespec
of_timespec-ns t = omega arith

filled-IsMessage :
    (i : Interface) (m : Message) (flags : ℕ) (t : Timestamp)
    → AreBytes i.mac_addr.saddr.bytes
    → t.ns < 2 ^ 32
    → IsMessage m
    → IsMessage (record m {
      clock_id = clock_number 0 (ptp2_clock_id i.mac_addr.saddr.bytes);
      port_id = 1;
      flags1 = flags;
      timestamp = t;
    })
filled-IsMessage i m flags t b h v = record {
  msg_type_lt = v.msg_type_lt;
  total_len_lt = v.total_len_lt;
  correction_lt = v.correction_lt;
  msg_type_specific_lt = v.msg_type_specific_lt;
  clock_id_lt = clock_number_lt i.mac_addr.saddr.bytes b;
  port_id_lt = omega arith;
  seq_id_lt = v.seq_id_lt;
  ns_lt = h;
}

-- The flags with the bit set.
abbrev with_timescale : ℕ → ℕ
with_timescale f = if f / 8 % 2 == 1 then f else f + 8

timescale_set : (f : ℕ) → with_timescale f / 8 % 2 ≡ 1
timescale_set f = ground arith

timescale_low : (f : ℕ) → with_timescale f % 8 ≡ f % 8
timescale_low f = ground arith

timescale_high : (f : ℕ) → with_timescale f / 16 ≡ f / 16
timescale_high f = ground arith

prepare-Carries :
    (now old : Timespec) (level : TimestampLevel) (i : Interface) (m : Message)
    → AreBytes i.mac_addr.saddr.bytes
    → IsMessage m
    → Carries i now level m (prepare now level old (identify i m)).0
unfolding prepare set_timescale identify
prepare-Carries now old TimestampLevel.invalid i m b v = record {
  valid = filled-IsMessage i m m.flags1 m.timestamp b v.ns_lt v;
  same = refl;
  clock_id = refl;
  port_id = refl;
  timestamp = refl;
  timescale = refl;
  low_flags = refl;
  high_flags = refl;
}
prepare-Carries now old TimestampLevel.socket i m b v = record {
  valid = filled-IsMessage i m m.flags1 m.timestamp b v.ns_lt v;
  same = refl;
  clock_id = refl;
  port_id = refl;
  timestamp = refl;
  timescale = refl;
  low_flags = refl;
  high_flags = refl;
}
prepare-Carries now old TimestampLevel.user i m b v = record {
  valid = filled-IsMessage i m m.flags1 (of_timespec now) b (of_timespec-ns now) v;
  same = refl;
  clock_id = refl;
  port_id = refl;
  timestamp = refl;
  timescale = refl;
  low_flags = refl;
  high_flags = refl;
}
prepare-Carries now old TimestampLevel.hardware i m b v = record {
  valid = filled-IsMessage i m (with_timescale m.flags1) m.timestamp b v.ns_lt v;
  same = refl;
  clock_id = refl;
  port_id = refl;
  timestamp = refl;
  timescale = timescale_set m.flags1;
  low_flags = timescale_low m.flags1;
  high_flags = timescale_high m.flags1;
}

is_ours-same :
    (i : Interface) (now : Timespec) (level : TimestampLevel) (m n : Message)
    → Carries i now level m n
    → is_ours n ≡ is_ours m
unfolding is_ours
is_ours-same i now level m n c = ap is_ours c.same

sent-bytes :
    (b : Bool) (is js : List Interface) (s t : Socket) (x y : List ℕ) (u v : Option Stamp)
    → (if b then Ending.sent is s x u else Ending.failed is) ≡ Ending.sent js t y v
    → x ≡ y
sent-bytes true is js s t x y u v e = cc e
sent-bytes false is js s t x y u v e = absurd (cc e)

-- The bytes that `send` sends are a message that it has filled in.
send_on-Carries :
    (a : Answers) (m : Message) (tail : List ℕ) (wanted : Option Stamp) (i : Interface)
    (is js : List Interface) (s t : Socket) (bytes : List ℕ) (stamp : Option Stamp)
    → AreBytes i.mac_addr.saddr.bytes
    → IsMessage m
    → send_on a m tail wanted i is s ≡ Ending.sent js t bytes stamp
    → (n : Message) × Carries i a.now (sent_level m wanted) m n × (write_message n ++ tail ≡ bytes)
unfolding send_on
send_on-Carries a m tail none i is js s t bytes stamp b v e = (
  identify i m,
  unfold prepare in prepare-Carries a.now a.now TimestampLevel.invalid i m b v,
  sent-bytes a.accepted is js s t _ bytes _ stamp e,
)
send_on-Carries a m tail (some (level, old)) i is js s t bytes stamp b v e =
    let desired = desired_level m level in
    (
      (prepare a.now desired old (identify i m)).0,
      prepare-Carries a.now old desired i m b v,
      sent-bytes a.accepted is js s t _ bytes _ stamp e,
    )

-- The program's messages: PTP 2.0 or 2.1, SDO ID and domain 0, unicast.
pub record IsOurs (m : Message) : Type 0 where
  pub version : (m.version ≡ 2) ⊎ (m.version ≡ 0x12)
  pub sdo_id_major : m.sdo_id_major ≡ 0
  pub sdo_id_minor : m.sdo_id_minor ≡ 0
  pub domain : m.domain ≡ 0
  pub unicast : m.flags0 / 4 % 2 ≡ 1

IsOurs-is_ours : (m : Message) → IsOurs m → is_ours m ≡ true
unfolding is_ours
IsOurs-is_ours m h = elim h.version [
  | inl v ↦ rw (v, h.sdo_id_major, h.sdo_id_minor, h.domain, h.unicast) refl
  | inr v ↦ rw (v, h.sdo_id_major, h.sdo_id_minor, h.domain, h.unicast) refl
]

-- Such are those that the constructor of PTP2Message makes for these versions.
pub new_message-IsOurs :
    (v type_ len : ℕ) (ts : Bool) → (v ≡ 2) ⊎ (v ≡ 0x12) → IsOurs (new_message v type_ len ts)
unfolding new_message
new_message-IsOurs v type_ len true h = record {
  version = h;
  sdo_id_major = refl;
  sdo_id_minor = refl;
  domain = refl;
  unicast = refl;
}
new_message-IsOurs v type_ len false h = record {
  version = h;
  sdo_id_major = refl;
  sdo_id_minor = refl;
  domain = refl;
  unicast = refl;
}

receive-ours :
    (now : Timespec) (l : Listened) (bytes : List ℕ) (src : Saddr) (controls : List Control)
    (m : Message) (rest : List ℕ)
    → read_message bytes ≡ some (m, rest)
    → is_ours m ≡ true
    → receive now l (Ready.message bytes src controls) ≡ some (delivered now l bytes src controls)
unfolding receive
receive-ours now l bytes src controls m rest e h = rw (e, h, receive) refl

-- What `send` sends of a message of the program, which is one of PTP 2.0 or 2.1 with SDO ID and domain 0
-- and the unicast flag, and whose fields fit their types, another host that receives it reads as that
-- message and hands to its mode. Every field is as the sender has set it, but for the identity, which is
-- that of the sending interface, the time stamp, which is the time before the sending at level user, and
-- the flag `timescale`, which is set at level hardware. The address of the interface is of bytes.
pub receive-send_on :
    (a : Answers) (m : Message) (tail : List ℕ) (wanted : Option Stamp) (i : Interface)
    (is js : List Interface) (s t : Socket) (bytes : List ℕ) (stamp : Option Stamp) (now : Timespec)
    (l : Listened) (src : Saddr) (controls : List Control)
    → AreBytes i.mac_addr.saddr.bytes
    → IsMessage m
    → IsOurs m
    → send_on a m tail wanted i is s ≡ Ending.sent js t bytes stamp
    → (n : Message) × Carries i a.now (sent_level m wanted) m n
      × (read_message bytes ≡ some (n, tail))
      × (receive now l (Ready.message bytes src controls)
          ≡ some (delivered now l bytes src controls))
receive-send_on a m tail wanted i is js s t bytes stamp now l src controls b v o e =
    let made = send_on-Carries a m tail wanted i is js s t bytes stamp b v e in
    let n = made.0 in
    let c : Carries i a.now (sent_level m wanted) m n = made.1 in
    let read = sym (ap read_message made.2) ∙ (read_message-write_message n tail c.valid).0 in
    (
      n,
      c,
      read,
      receive-ours now l bytes src controls n tail read
          (is_ours-same i a.now (sent_level m wanted) m n c ∙ IsOurs-is_ours m o),
    )
