-- ===== src/Wire/Tlv/Laws.antt =====
-- What a TLV's writer puts on the wire, its reader takes off it; what each side prepares, the other
-- side accepts.
use flashptpd.Prelude.{
  ℕ, ◌^◌, ◌<◌, ◌≡◌, refl, ap, Bool, true, false, List, ◌++◌, Option, none, some, arith,
}
use mathlib.Core.List.{append_assoc}
use flashptpd.Wire.Timestamp.{Timestamp}
use flashptpd.Wire.Bytes.{read8, read16, read32, read64, write16, write64, ◌>>=◌}
use flashptpd.Wire.Tlv.{
  TlvHdr, ServerStateDs, RespTlv, wants_ds, read_hdr, write_hdr, read_ds, write_ds, read_timestamp,
  write_timestamp, read_opt_ds, write_opt_ds, read_resp, value, resp_rx_restore, resp_to_bytes,
}

-- The ranges that the fields' types give.
pub record IsTlvHdr (h : TlvHdr) : Type 0 where
  pub tlv_type_lt : h.tlv_type < 2 ^ 16
  pub tlv_length_lt : h.tlv_length < 2 ^ 16
  pub flags_lt : h.flags < 2 ^ 32

pub record IsServerStateDs (d : ServerStateDs) : Type 0 where
  pub gm_clock_variance_lt : d.gm_clock_variance < 2 ^ 16
  pub gm_clock_id_lt : d.gm_clock_id < 2 ^ 64
  pub steps_removed_lt : d.steps_removed < 2 ^ 16

abbrev pub IsOptDs : Bool → Option ServerStateDs → Type 0
IsOptDs true (some d) = IsServerStateDs d
IsOptDs true none = ⊥
IsOptDs false (some d) = ⊥
IsOptDs false none = Unit {0}

-- The data set is there exactly when the flag is set.
pub record IsRespTlv (t : RespTlv) : Type 0 where
  pub hdr_ok : IsTlvHdr t.hdr
  pub error_lt : t.error < 2 ^ 16
  pub ingress_ok : t.req_ingress_timestamp.ns < 2 ^ 32
  pub correction_lt : t.req_correction_field < 2 ^ 64
  pub utc_offset_lt : t.utc_offset < 2 ^ 16
  pub ds_ok : IsOptDs (wants_ds t.hdr.flags) t.server_state_ds

pub read_hdr-write_hdr :
    (h : TlvHdr) (r : List ℕ) → IsTlvHdr h → read_hdr (write_hdr h ++ r) ≡ some (h, r)
unfolding read_hdr write_hdr read16 read32
read_hdr-write_hdr h r v = ground arith

read_timestamp-write_timestamp :
    (t : Timestamp) (r : List ℕ)
    → t.ns < 2 ^ 32
    → read_timestamp (write_timestamp t ++ r) ≡ some (t, r)
unfolding read_timestamp write_timestamp read32
read_timestamp-write_timestamp t r v = ground arith

read_ds-write_ds :
    (d : ServerStateDs) (r : List ℕ) → IsServerStateDs d → read_ds (write_ds d ++ r) ≡ some (d, r)
unfolding read_ds write_ds read16 read64
read_ds-write_ds d r v = ground arith

read_opt_ds-write_opt_ds :
    (b : Bool) (o : Option ServerStateDs) (r : List ℕ)
    → IsOptDs b o
    → read_opt_ds b (write_opt_ds o ++ r) ≡ some (o, r)
unfolding read_opt_ds write_opt_ds
read_opt_ds-write_opt_ds true (some d) r v = ground (arith, read_ds-write_ds d r v)
read_opt_ds-write_opt_ds true none r v = elim v [ ]
read_opt_ds-write_opt_ds false (some d) r v = elim v [ ]
read_opt_ds-write_opt_ds false none r v = refl

-- The bytes that follow the time stamp, and those that follow the error field.
abbrev after_timestamp : RespTlv → List ℕ → List ℕ
after_timestamp t r =
    write64 t.req_correction_field
    ++ (write16 t.utc_offset ++ (write_opt_ds t.server_state_ds ++ r))

abbrev after_error : RespTlv → List ℕ → List ℕ
after_error t r = write_timestamp t.req_ingress_timestamp ++ after_timestamp t r

read_resp-bytes :
    (t : RespTlv) (r : List ℕ)
    → IsRespTlv t
    → read_resp (write_hdr t.hdr ++ (write16 t.error ++ after_error t r)) ≡ some (t, r)
unfolding read_resp read_timestamp write_timestamp read8 read16 read32 read64
read_resp-bytes t r v =
    rw (read_hdr-write_hdr t.hdr (write16 t.error ++ after_error t r) v.hdr_ok, ◌>>=◌)
      (ground (arith, read_opt_ds-write_opt_ds (wants_ds t.hdr.flags) t.server_state_ds r v.ds_ok))

-- A Response TLV whose fields fit their types, and that carries the state data set just when its
-- flag asks for it, is read back from its bytes, whatever follows them.
pub resp_rx_restore-resp_to_bytes :
    (t : RespTlv) (r : List ℕ) → IsRespTlv t → resp_rx_restore (resp_to_bytes t ++ r) ≡ some t
unfolding resp_rx_restore resp_to_bytes
resp_rx_restore-resp_to_bytes t r v = simp append_assoc (ap value (read_resp-bytes t r v))
