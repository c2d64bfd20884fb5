-- ===== src/ServerMode.antt =====
-- The requests that the server mode collects: class `Request` (include/flashptp/server/request.h) and the
-- store of class `ServerMode` (src/flashptp/server/serverMode.cpp). A socket address is its family and
-- address as one number, and its port; `none` for a TLV is one that is not valid. Members that the
-- constructor leaves open are 0.
pub mod Store
pub mod Respond
use flashptpd.Prelude.{
  ℕ, ◌+◌, ◌*◌, Bool, true, false, not, ◌&&◌, ◌||◌, ◌==◌, if◌then◌else◌, List, [], ◌∷◌, ◌++◌, Option,
  none, some,
}
use flashptpd.Prelude.Int.{ℤ, pos, ltb_ℤ}
use flashptpd.Wire.Timestamp.{Timespec, Timestamp, zero_timestamp, of_timespec, subtract_timespecs}
use flashptpd.Wire.Interval.{add_interval}
use flashptpd.Wire.Tlv.{TlvHdr}
use flashptpd.Wire.Message.{Message, two_step, sync, follow_up}
use flashptpd.Client.Sequence.{TimestampLevel, is_valid_level}

pub record SockAddr : Type 0 where
  pub host : ℕ
  pub port : ℕ

pub record Request : Type 0 where
  pub ts : Timespec
  pub src_address : SockAddr
  pub src_event_port : ℕ
  pub src_general_port : ℕ
  pub dst_address : SockAddr
  pub dst_event_port : ℕ
  pub dst_general_port : ℕ
  pub sequence_id : ℕ
  pub sync_correction : ℕ
  pub follow_up_correction : ℕ
  pub correction : ℕ
  pub ptp_version : ℕ
  pub timestamp_level : TimestampLevel
  pub ingress_timestamp : Timestamp
  pub flags : ℕ
  pub sync_tlv : Bool
  pub one_step : Bool
  pub sync_received : Bool
  pub follow_up_received : Bool
  pub tlv_received : Bool

-- `complete()`
abbrev pub complete : Request → Bool
complete q = q.sync_received && (q.one_step || q.follow_up_received) && q.tlv_received

-- `FLASH_PTP_DEFAULT_TIMEOUT_MS`
abbrev pub timeout_ms : ℕ
timeout_ms = 2000

-- `timedOut()` at the time `now`.
unfoldable pub timed_out : Timespec → Request → Bool
timed_out now q = ltb_ℤ (pos (timeout_ms * 1000000)) (subtract_timespecs now q.ts)

-- `matches`; the port is not compared.
abbrev pub matches : SockAddr → ℕ → Request → Bool
matches addr id q = q.src_address.host == addr.host && q.sequence_id == id

abbrev pub is_there : {A : Type 0} → Option A → Bool
is_there none = false
is_there (some x) = true

-- The first part of `merge`; `none` is its early return.
unfoldable pub merge_message :
    Message
    → Option TlvHdr
    → SockAddr
    → SockAddr
    → TimestampLevel
    → Option Timespec
    → Request
    → Option Request
merge_message msg tlv src dst level timestamp q =
    if msg.msg_type == sync && is_valid_level level && is_there timestamp
    then some (record q {
      src_event_port = src.port;
      dst_event_port = dst.port;
      ptp_version = msg.version;
      timestamp_level = level;
      ingress_timestamp = elim timestamp [ none ↦ q.ingress_timestamp | some t ↦ of_timespec t ];
      one_step = not (two_step msg);
      sync_correction = msg.correction;
      sync_tlv = is_there tlv;
      sync_received = true;
    })
    else if msg.msg_type == follow_up
    then some (record q {
      src_general_port = src.port;
      dst_general_port = dst.port;
      follow_up_correction = msg.correction;
      follow_up_received = true;
    })
    else none

-- `if (tlv->valid && !_tlvReceived)`
unfoldable pub merge_tlv : Option TlvHdr → Request → Request
merge_tlv none q = q
merge_tlv (some hdr) q =
    if q.tlv_received then q else record q { flags = hdr.flags; tlv_received = true }

-- `if (complete())`
unfoldable pub merge_correction : Request → Request
merge_correction q =
    if complete q
    then record q { correction = add_interval q.sync_correction q.follow_up_correction }
    else q

-- `merge`
unfoldable pub merge :
    Message
    → Option TlvHdr
    → SockAddr
    → SockAddr
    → TimestampLevel
    → Option Timespec
    → Request
    → Request
merge msg tlv src dst level timestamp q = elim (merge_message msg tlv src dst level timestamp q) [
  | none ↦ q
  | some q' ↦ merge_correction (merge_tlv tlv q')
]

-- The constructor.
unfoldable pub new_request :
    Timespec
    → Message
    → Option TlvHdr
    → SockAddr
    → SockAddr
    → TimestampLevel
    → Option Timespec
    → Request
new_request now msg tlv src dst level timestamp = merge msg tlv src dst level timestamp (record {
  ts = now;
  src_address = src;
  src_event_port = 0;
  src_general_port = 0;
  dst_address = dst;
  dst_event_port = 0;
  dst_general_port = 0;
  sequence_id = msg.seq_id;
  sync_correction = 0;
  follow_up_correction = 0;
  correction = 0;
  ptp_version = 0;
  timestamp_level = TimestampLevel.invalid;
  ingress_timestamp = zero_timestamp;
  flags = 0;
  sync_tlv = false;
  one_step = false;
  sync_received = false;
  follow_up_received = false;
  tlv_received = false;
})

-- The loop of `obtainRequest` behind the requests `done`, and what follows it: the store and the request
-- that is returned.
unfoldable pub obtain :
    Timespec
    → Message
    → Option TlvHdr
    → SockAddr
    → SockAddr
    → TimestampLevel
    → Option Timespec
    → List Request
    → List Request
    → List Request × Option Request
obtain now msg tlv src dst level timestamp done [] =
    let q = new_request now msg tlv src dst level timestamp in
    (if complete q then done else done ++ q ∷ [], some q)
obtain now msg tlv src dst level timestamp done (q ∷ rest) =
    let merged = merge msg tlv src dst level timestamp q in
    elim (matches src msg.seq_id q) [
      | false ↦ obtain now msg tlv src dst level timestamp (done ++ q ∷ []) rest
      | true ↦
          if timed_out now q
          then (done ++ rest, none)
          else (if complete merged then done ++ rest else done ++ merged ∷ rest, some merged)
    ]

-- `obtainRequest`
unfoldable pub obtain_request :
    Timespec
    → Message
    → Option TlvHdr
    → SockAddr
    → SockAddr
    → TimestampLevel
    → Option Timespec
    → List Request
    → List Request × Option Request
obtain_request now msg tlv src dst level timestamp requests =
    obtain now msg tlv src dst level timestamp [] requests

-- `checkRequestTimeouts`
unfoldable pub check_request_timeouts : Timespec → List Request → List Request
check_request_timeouts now [] = []
check_request_timeouts now (q ∷ requests) =
    let rest = check_request_timeouts now requests in if timed_out now q then rest else q ∷ rest
