-- ===== src/Wire/Message.antt =====
-- `PTP2Message` with its flags, port identity and layout (include/flashptp/common/defines.h).
use flashptpd.Prelude.{
  ℕ, ◌+◌, ◌*◌, ◌/◌, ◌%◌, ◌^◌, ◌<◌, ◌≡◌, refl, Bool, ◌==◌, if◌then◌else◌, List, ◌∷◌, ◌++◌, some,
  arith, length,
}
use flashptpd.Wire.Timestamp.{Timestamp, zero_timestamp}
use flashptpd.Wire.Bytes.{
  Reader, ◌>>=◌, return, read8, read16, read32, read64, write16, write32, write64,
}
use flashptpd.Wire.Tlv.{read_timestamp, write_timestamp, message_size}

-- The two bytes of `PTP2Flags` are kept as numbers; its bit fields are read off them below.
pub record Message : Type 0 where
  pub msg_type : ℕ
  pub sdo_id_major : ℕ
  pub version : ℕ
  pub total_len : ℕ
  pub domain : ℕ
  pub sdo_id_minor : ℕ
  pub flags0 : ℕ
  pub flags1 : ℕ
  pub correction : ℕ
  pub msg_type_specific : ℕ
  pub clock_id : ℕ
  pub port_id : ℕ
  pub seq_id : ℕ
  pub msg_ctrl : ℕ
  pub log_msg_period : ℕ
  pub timestamp : Timestamp

abbrev pub two_step : Message → Bool
two_step m = m.flags0 / 2 % 2 == 1

abbrev pub utc_reasonable : Message → Bool
utc_reasonable m = m.flags1 / 4 % 2 == 1

-- `PTPMessageType::sync` and `PTPMessageType::followUp`
abbrev pub sync : ℕ
sync = 0

abbrev pub follow_up : ℕ
follow_up = 8

-- `logMsgPeriod` of every response.
abbrev pub response_period : ℕ
response_period = 0x7f

-- `PTP2Message(v, type, length, twoStep)`: `init`, and the members' own initialisers. `flags` is set
-- to zero but for the bits `twoStep` and `unicast`.
unfoldable pub new_message : ℕ → ℕ → ℕ → Bool → Message
new_message v type len ts = record {
  msg_type = type;
  sdo_id_major = 0;
  version = v;
  total_len = len;
  domain = 0;
  sdo_id_minor = 0;
  flags0 = (if ts then 2 else 0) + 4;
  flags1 = 0;
  correction = 0;
  msg_type_specific = 0;
  clock_id = 0;
  port_id = 0;
  seq_id = 0;
  msg_ctrl = if type == sync then 0 else if type == follow_up then 2 else 5;
  log_msg_period = response_period;
  timestamp = zero_timestamp;
}

-- The packed struct in network order: layout and `reorder(true)`.
unfoldable pub read_message : Reader Message
unfolding read8 read16 read32 read64
read_message = do
  b ← read8
  v ← read8
  l ← read16
  d ← read8
  sm ← read8
  f0 ← read8
  f1 ← read8
  c ← read64
  sp ← read32
  id ← read64
  port ← read16
  seq ← read16
  mc ← read8
  lp ← read8
  ts ← read_timestamp
  return (record {
    msg_type = b % 16;
    sdo_id_major = b / 16;
    version = v;
    total_len = l;
    domain = d;
    sdo_id_minor = sm;
    flags0 = f0;
    flags1 = f1;
    correction = c;
    msg_type_specific = sp;
    clock_id = id;
    port_id = port;
    seq_id = seq;
    msg_ctrl = mc;
    log_msg_period = lp;
    timestamp = ts;
  })

-- Layout and `reorder(false)`.
unfoldable pub write_message : Message → List ℕ
write_message m =
    (m.msg_type + m.sdo_id_major * 16)
    ∷ m.version
    ∷ (write16 m.total_len
        ++ (m.domain
            ∷ m.sdo_id_minor
            ∷ m.flags0
            ∷ m.flags1
            ∷ (write64 m.correction
                ++ (write32 m.msg_type_specific
                    ++ (write64 m.clock_id
                        ++ (write16 m.port_id
                            ++ (write16 m.seq_id
                                ++ (m.msg_ctrl
                                    ∷ m.log_msg_period
                                    ∷ write_timestamp m.timestamp))))))))

-- The ranges that the fields' types give.
pub record IsMessage (m : Message) : Type 0 where
  pub msg_type_lt : m.msg_type < 16
  pub total_len_lt : m.total_len < 2 ^ 16
  pub correction_lt : m.correction < 2 ^ 64
  pub msg_type_specific_lt : m.msg_type_specific < 2 ^ 32
  pub clock_id_lt : m.clock_id < 2 ^ 64
  pub port_id_lt : m.port_id < 2 ^ 16
  pub seq_id_lt : m.seq_id < 2 ^ 16
  pub ns_lt : m.timestamp.ns < 2 ^ 32

-- A message whose fields fit their types takes 44 bytes, and is read back from them.
pub read_message-write_message :
    (m : Message) (r : List ℕ)
    → IsMessage m
    → (read_message (write_message m ++ r) ≡ some (m, r))
      × (length (write_message m) ≡ message_size)
unfolding read_message write_message read_timestamp write_timestamp read32
read_message-write_message m r v = (ground arith, refl)
