-- ===== src/Wire/Tlv.antt =====
-- The TLVs attached to Sync and Follow Up messages: `FlashPTPTLVHdr`, `FlashPTPServerStateDS`,
-- `FlashPTPReqTLV` and `FlashPTPRespTLV` (include/flashptp/common/defines.h). A TLV whose `valid` flag
-- is not set is `none`; a valid one is its fields in host order.
pub mod Laws
pub mod Accept
use flashptpd.Prelude.{
  ℕ, ◌+◌, ◌-◌, ◌%◌, Bool, true, false, ◌&&◌, ◌||◌, ltb, leb, ◌==◌, if◌then◌else◌, List, [], ◌∷◌,
  ◌++◌, Option, none, some, length, drop, replicate,
}
use flashptpd.Wire.Timestamp.{Timestamp, zero_timestamp}
use flashptpd.Wire.Bytes.{
  Reader, ◌>>=◌, return, read8, read16, read32, read64, write16, write32, write64,
}

pub record TlvHdr : Type 0 where
  pub tlv_type : ℕ
  pub tlv_length : ℕ
  pub org0 : ℕ
  pub org1 : ℕ
  pub org2 : ℕ
  pub sub0 : ℕ
  pub sub1 : ℕ
  pub sub2 : ℕ
  pub flags : ℕ

-- `sizeof(PTP2Message)`, `sizeof(FlashPTPTLVHdr)` and `sizeof(FlashPTPServerStateDS)`, all packed.
abbrev pub message_size : ℕ
message_size = 44

abbrev pub hdr_size : ℕ
hdr_size = 14

abbrev pub ds_size : ℕ
ds_size = 18

-- `sizeof(uint16_t) + sizeof(PTP2Timestamp) + sizeof(PTP2TimeInterval) + sizeof(int16_t)`
abbrev pub body_size : ℕ
body_size = 22

-- `flags & FLASH_PTP_FLAG_SERVER_STATE_DS`, the lowest bit.
abbrev pub wants_ds : ℕ → Bool
wants_ds flags = flags % 2 == 1

-- The header in network order: the struct's layout and `reorder(true)`.
pub read_hdr : Reader TlvHdr
unfolding read8 read16 read32
read_hdr = do
  t ← read16
  l ← read16
  o0 ← read8
  o1 ← read8
  o2 ← read8
  s0 ← read8
  s1 ← read8
  s2 ← read8
  f ← read32
  return (record {
    tlv_type = t;
    tlv_length = l;
    org0 = o0;
    org1 = o1;
    org2 = o2;
    sub0 = s0;
    sub1 = s1;
    sub2 = s2;
    flags = f;
  })

-- The header's layout and `reorder(false)`.
unfoldable pub write_hdr : TlvHdr → List ℕ
write_hdr h =
    write16 h.tlv_type
    ++ (write16 h.tlv_length
        ++ (h.org0 ∷ h.org1 ∷ h.org2 ∷ h.sub0 ∷ h.sub1 ∷ h.sub2 ∷ write32 h.flags))

is_meinberg : TlvHdr → Bool
is_meinberg h =
    h.tlv_type == 3
    && ltb hdr_size h.tlv_length
    && h.org0 == 0xec
    && h.org1 == 0x46
    && h.org2 == 0x70

pub is_sync_request : TlvHdr → Bool
unfolding is_meinberg
is_sync_request h = is_meinberg h && h.sub0 == 0x52 && h.sub1 == 0x65 && h.sub2 == 0x71

pub is_sync_response : TlvHdr → Bool
unfolding is_meinberg
is_sync_response h = is_meinberg h && h.sub0 == 0x52 && h.sub1 == 0x65 && h.sub2 == 0x73

validate_hdr : ℕ → Option (TlvHdr × List ℕ) → Option Bool
validate_hdr len none = none
validate_hdr len (some (h, _)) =
    if leb (message_size + h.tlv_length) len && (is_sync_request h || is_sync_response h)
    then some (is_sync_request h)
    else none

-- `FlashPTPTLVHdr::validate` on a received message: `none` for false, else `*isRequest`.
pub validate : List ℕ → Option Bool
unfolding validate_hdr
validate msg =
    if ltb (length msg) (message_size + hdr_size)
    then none
    else validate_hdr (length msg) (read_hdr (drop message_size msg))

pub record ServerStateDs : Type 0 where
  pub gm_priority1 : ℕ
  pub gm_clock_class : ℕ
  pub gm_clock_accuracy : ℕ
  pub gm_clock_variance : ℕ
  pub gm_priority2 : ℕ
  pub gm_clock_id : ℕ
  pub steps_removed : ℕ
  pub time_source : ℕ
  pub reserved : ℕ

-- `FlashPTPServerStateDS()`
abbrev pub zero_ds : ServerStateDs
zero_ds = record {
  gm_priority1 = 0;
  gm_clock_class = 0;
  gm_clock_accuracy = 0;
  gm_clock_variance = 0;
  gm_priority2 = 0;
  gm_clock_id = 0;
  steps_removed = 0;
  time_source = 0;
  reserved = 0;
}

-- The eight bytes of `gmClockID` are read as one number, which `memcmp` orders as it orders them.
pub read_ds : Reader ServerStateDs
unfolding read8 read16 read64
read_ds = do
  p1 ← read8
  cc ← read8
  ca ← read8
  cv ← read16
  p2 ← read8
  id ← read64
  sr ← read16
  ts ← read8
  rs ← read8
  return (record {
    gm_priority1 = p1;
    gm_clock_class = cc;
    gm_clock_accuracy = ca;
    gm_clock_variance = cv;
    gm_priority2 = p2;
    gm_clock_id = id;
    steps_removed = sr;
    time_source = ts;
    reserved = rs;
  })

pub write_ds : ServerStateDs → List ℕ
write_ds d =
    (d.gm_priority1 ∷ d.gm_clock_class ∷ d.gm_clock_accuracy ∷ [])
    ++ (write16 d.gm_clock_variance
        ++ (d.gm_priority2 ∷ []
            ++ (write64 d.gm_clock_id
                ++ (write16 d.steps_removed ++ (d.time_source ∷ d.reserved ∷ [])))))

-- `PTP2Timestamp`: six bytes of seconds as they stand, and `ns` in network order.
unfoldable pub read_timestamp : Reader Timestamp
unfolding read8 read32
read_timestamp = do
  s0 ← read8
  s1 ← read8
  s2 ← read8
  s3 ← read8
  s4 ← read8
  s5 ← read8
  n ← read32
  return (record { sec0 = s0; sec1 = s1; sec2 = s2; sec3 = s3; sec4 = s4; sec5 = s5; ns = n })

unfoldable pub write_timestamp : Timestamp → List ℕ
write_timestamp t = t.sec0 ∷ t.sec1 ∷ t.sec2 ∷ t.sec3 ∷ t.sec4 ∷ t.sec5 ∷ write32 t.ns

abbrev hdr_padlen : ℕ → ℕ
hdr_padlen flags = body_size + (if wants_ds flags then ds_size else 0)

req_rx_pad : Option (TlvHdr × List ℕ) → Option TlvHdr
req_rx_pad none = none
req_rx_pad (some (h, rest)) = if ltb (length rest) (hdr_padlen h.flags) then none else some h

-- `FlashPTPReqTLV::rxRestore` and `reorder(true)` on the bytes behind the message.
pub req_rx_restore : List ℕ → Option TlvHdr
unfolding req_rx_pad
req_rx_restore bytes = req_rx_pad (read_hdr bytes)

-- The header that `txPrepare` writes, with the last byte of the subtype.
unfoldable pub new_hdr : ℕ → ℕ → ℕ → TlvHdr
new_hdr sub2 len flags = record {
  tlv_type = 3;
  tlv_length = len;
  org0 = 0xec;
  org1 = 0x46;
  org2 = 0x70;
  sub0 = 0x52;
  sub1 = 0x65;
  sub2 = sub2;
  flags = flags;
}

-- `FlashPTPReqTLV::txPrepare` on a buffer of `len` bytes, and `reorder(false)`.
unfoldable pub req_tx_prepare : ℕ → ℕ → Option (List ℕ)
unfolding new_hdr
req_tx_prepare len flags =
    if ltb len hdr_size
    then none
    else if ltb (len - hdr_size) (hdr_padlen flags)
    then none
    else some (
        write_hdr (new_hdr 0x71 (hdr_size + hdr_padlen flags) flags)
        ++ replicate (hdr_padlen flags) 0)

-- `utc_offset` is the pattern of the `int16_t`.
pub record RespTlv : Type 0 where
  pub hdr : TlvHdr
  pub error : ℕ
  pub req_ingress_timestamp : Timestamp
  pub req_correction_field : ℕ
  pub utc_offset : ℕ
  pub server_state_ds : Option ServerStateDs

read_opt_ds : Bool → Reader (Option ServerStateDs)
read_opt_ds true = do d ← read_ds; return (some d)
read_opt_ds false = return none

read_resp : Reader RespTlv
unfolding read16 read64 read_opt_ds
read_resp = do
  h ← read_hdr
  e ← read16
  t ← read_timestamp
  c ← read64
  u ← read16
  d ← read_opt_ds (wants_ds h.flags)
  return (record {
    hdr = h;
    error = e;
    req_ingress_timestamp = t;
    req_correction_field = c;
    utc_offset = u;
    server_state_ds = d;
  })

value {ℓ} : {A : Type ℓ} → Option (A × List ℕ) → Option A
value none = none
value (some (a, _)) = some a

-- `FlashPTPRespTLV::rxRestore` and `reorder(true)`.
pub resp_rx_restore : List ℕ → Option RespTlv
unfolding read_resp value
resp_rx_restore bytes = value (read_resp bytes)

-- `FlashPTPRespTLV::txPrepare` on a buffer of `len` bytes.
pub resp_tx_prepare : ℕ → ℕ → Option RespTlv
unfolding new_hdr
resp_tx_prepare len flags =
    if ltb len (hdr_size + hdr_padlen flags)
    then none
    else some (record {
      hdr = new_hdr 0x73 (hdr_size + hdr_padlen flags) flags;
      error = 0;
      req_ingress_timestamp = zero_timestamp;
      req_correction_field = 0;
      utc_offset = 0;
      server_state_ds = if wants_ds flags then some zero_ds else none;
    })

write_opt_ds : Option ServerStateDs → List ℕ
write_opt_ds none = []
write_opt_ds (some d) = write_ds d

-- The layout of a Response TLV and `reorder(false)`.
pub resp_to_bytes : RespTlv → List ℕ
unfolding write_opt_ds
resp_to_bytes t =
    write_hdr t.hdr
    ++ (write16 t.error
        ++ (write_timestamp t.req_ingress_timestamp
            ++ (write64 t.req_correction_field
                ++ (write16 t.utc_offset ++ write_opt_ds t.server_state_ds))))
