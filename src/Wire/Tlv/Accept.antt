-- ===== src/Wire/Tlv/Accept.antt =====
-- The two ends agree: what one side's `txPrepare` builds, the other side's `validate` and
-- `rxRestore` take (include/flashptp/common/defines.h).
use flashptpd.Prelude.{
  ℕ, ◌+◌, ◌^◌, ◌<◌, ◌≤◌, ◌≡◌, refl, ap, ◌∙◌, true, false, List, ◌++◌, Option, none, some, arith,
  length, if◌then◌else◌, Bool, sym, length-append, length-replicate, drop-append, replicate,
}
use flashptpd.Wire.Tlv.{
  TlvHdr, write_hdr, validate_hdr, validate, is_sync_request, is_sync_response, req_rx_restore,
  req_tx_prepare, new_hdr, hdr_padlen, message_size, hdr_size, RespTlv, ServerStateDs, wants_ds,
  ds_size, resp_tx_prepare, zero_ds, resp_to_bytes, write_opt_ds, write_ds, write_timestamp,
}
use flashptpd.Wire.Timestamp.{zero_timestamp}
use flashptpd.Wire.Bytes.{write16, write64}
use flashptpd.Wire.Tlv.Laws.{IsTlvHdr, IsRespTlv, IsOptDs, read_hdr-write_hdr}

-- A message of the PTP header's size, a TLV header and a body are validated by the header alone.
validate-append :
    (m body : List ℕ) (h : TlvHdr)
    → length m ≡ message_size
    → IsTlvHdr h
    → hdr_size + length body ≡ h.tlv_length
    → validate (m ++ (write_hdr h ++ body))
      ≡ validate_hdr (message_size + h.tlv_length) (some (h, body))
unfolding validate write_hdr
validate-append m body h e v l = ground (
  arith,
  length-append {0} m (unfold write_hdr in write_hdr h ++ body),
  drop-append message_size m (write_hdr h ++ body) e,
  read_hdr-write_hdr h body v,
)

hdr_padlen-le : (flags : ℕ) → hdr_padlen flags ≤ 40
hdr_padlen-le flags = ground arith

abbrev req_hdr : ℕ → TlvHdr
req_hdr flags = new_hdr 0x71 (hdr_size + hdr_padlen flags) flags

req_hdr-IsTlvHdr : (flags : ℕ) → flags < 2 ^ 32 → IsTlvHdr (req_hdr flags)
unfolding new_hdr
req_hdr-IsTlvHdr flags v = omega (arith, hdr_padlen-le flags)

abbrev req_pad : ℕ → List ℕ
req_pad flags = replicate (hdr_padlen flags) 0

length-req_pad : (flags : ℕ) → length (req_pad flags) ≡ hdr_padlen flags
length-req_pad flags = length-replicate {A = ℕ} (hdr_padlen flags) 0

req_hdr_validated :
    (flags : ℕ)
    → validate_hdr (message_size + (req_hdr flags).tlv_length) (some (req_hdr flags, req_pad flags))
      ≡ some true
unfolding validate_hdr is_sync_request is_sync_response new_hdr
req_hdr_validated flags = ground arith

req_tx_prepare-eq :
    (len flags : ℕ) {bytes : List ℕ}
    → req_tx_prepare len flags ≡ some bytes
    → bytes ≡ write_hdr (req_hdr flags) ++ req_pad flags
unfolding req_tx_prepare
req_tx_prepare-eq len flags p = ground arith

req_rx_restored :
    (flags : ℕ)
    → flags < 2 ^ 32
    → req_rx_restore (write_hdr (req_hdr flags) ++ req_pad flags) ≡ some (req_hdr flags)
unfolding req_rx_restore new_hdr
req_rx_restored flags v = ground (
  arith,
  read_hdr-write_hdr (req_hdr flags) (req_pad flags) (req_hdr-IsTlvHdr flags v),
  length-req_pad flags,
)

-- A request that `txPrepare` has put behind a message header is validated as a request, and
-- `rxRestore` reads its header with the flags that were asked for.
pub accept_request :
    (m bytes : List ℕ) (len flags : ℕ)
    → length m ≡ message_size
    → flags < 2 ^ 32
    → req_tx_prepare len flags ≡ some bytes
    → (validate (m ++ bytes) ≡ some true)
      × ((h : TlvHdr) × (req_rx_restore bytes ≡ some h) × (h.flags ≡ flags))
accept_request m bytes len flags e v p = rw (req_tx_prepare-eq len flags p) (
  validate-append m (req_pad flags) (req_hdr flags) e (req_hdr-IsTlvHdr flags v)
        (unfold new_hdr in ap (λ (n : ℕ). hdr_size + n) (length-req_pad flags))
      ∙ req_hdr_validated flags,
  (req_hdr flags, req_rx_restored flags v, unfold new_hdr in refl),
)

-- The header of a response, as `txPrepare` leaves it.
abbrev pub resp_hdr : ℕ → TlvHdr
resp_hdr flags = new_hdr 0x73 (hdr_size + hdr_padlen flags) flags

pub resp_hdr-IsTlvHdr : (flags : ℕ) → flags < 2 ^ 32 → IsTlvHdr (resp_hdr flags)
unfolding new_hdr
resp_hdr-IsTlvHdr flags v = omega (arith, hdr_padlen-le flags)

resp_hdr_validated :
    (flags : ℕ) (body : List ℕ)
    → validate_hdr (message_size + (resp_hdr flags).tlv_length) (some (resp_hdr flags, body))
      ≡ some false
unfolding validate_hdr is_sync_request is_sync_response new_hdr
resp_hdr_validated flags body = ground arith

-- The bytes of a response behind its header.
resp_body : RespTlv → List ℕ
resp_body t =
    write16 t.error
    ++ (write_timestamp t.req_ingress_timestamp
        ++ (write64 t.req_correction_field
            ++ (write16 t.utc_offset ++ write_opt_ds t.server_state_ds)))

length-write_opt_ds :
    (b : Bool) (o : Option ServerStateDs)
    → IsOptDs b o
    → length (write_opt_ds o) ≡ (if b then ds_size else 0)
unfolding write_opt_ds write_ds
length-write_opt_ds true (some d) v = refl
length-write_opt_ds true none v = elim v [ ]
length-write_opt_ds false (some d) v = elim v [ ]
length-write_opt_ds false none v = refl

length-resp_body :
    (t : RespTlv)
    → IsOptDs (wants_ds t.hdr.flags) t.server_state_ds
    → length (resp_body t) ≡ hdr_padlen t.hdr.flags
unfolding resp_body write_timestamp
length-resp_body t v = omega (arith, length-write_opt_ds (wants_ds t.hdr.flags) t.server_state_ds v)

resp_to_bytes-eq : (t : RespTlv) → resp_to_bytes t ≡ write_hdr t.hdr ++ resp_body t
unfolding resp_to_bytes resp_body
resp_to_bytes-eq t = refl

resp_length :
    (t : RespTlv) (flags : ℕ)
    → t.hdr ≡ resp_hdr flags
    → IsRespTlv t
    → hdr_size + length (resp_body t) ≡ t.hdr.tlv_length
unfolding new_hdr
resp_length t flags h v =
    ap (λ (n : ℕ). hdr_size + n)
      (length-resp_body t v.ds_ok ∙ ap (λ (k : TlvHdr). hdr_padlen k.flags) h)
    ∙ sym (ap (λ (k : TlvHdr). k.tlv_length) h)

-- Behind a message header, a response with the header of `txPrepare` is validated as a response.
pub accept_response :
    (m : List ℕ) (t : RespTlv) (flags : ℕ)
    → length m ≡ message_size
    → t.hdr ≡ resp_hdr flags
    → IsRespTlv t
    → validate (m ++ resp_to_bytes t) ≡ some false
accept_response m t flags e h v = rw (resp_to_bytes-eq t) (
    validate-append m (resp_body t) t.hdr e v.hdr_ok (resp_length t flags h v)
    ∙ ap (λ (k : TlvHdr). validate_hdr (message_size + k.tlv_length) (some (k, resp_body t))) h
    ∙ resp_hdr_validated flags (resp_body t))

-- What `txPrepare` leaves of a response with the flags.
abbrev pub prepared : ℕ → RespTlv
prepared flags = record {
  hdr = resp_hdr flags;
  error = 0;
  req_ingress_timestamp = zero_timestamp;
  req_correction_field = 0;
  utc_offset = 0;
  server_state_ds = if wants_ds flags then some zero_ds else none;
}

pub resp_tx_prepare-prepared :
    (len flags : ℕ) → 54 ≤ len → resp_tx_prepare len flags ≡ some (prepared flags)
unfolding resp_tx_prepare
resp_tx_prepare-prepared len flags h = ground (arith, hdr_padlen-le flags)

pub length-no_tlv : (m : List ℕ) → length m ≡ message_size → validate m ≡ none
unfolding validate
length-no_tlv m e = ground arith
