-- ===== src/Exchange/Responses.antt =====
-- The messages of the server mode's answer and how the client mode reads them (src/flashptp/server/serverMode.cpp
-- and src/flashptp/client/clientMode.cpp).
use Prim.Native.String.{String}
use flashptpd.Prelude.{
  ℕ, ◌^◌, ◌<◌, ◌≤◌, ◌≡◌, refl, ap, sym, ◌∙◌, inl, inr, ◌↔◌, ◌⊎◌, Bool, true, false, if◌then◌else◌,
  List, [], ◌++◌, Option, none, some, arith, Bool-cases, length, drop, drop-append,
}
use flashptpd.Prelude.Int.{ℤ, pos, negsuc, eqb_ℤ}
use flashptpd.Wire.Timestamp.{Timespec, Timestamp, of_timespec-IsTimestamp}
use flashptpd.Wire.Tlv.{
  ServerStateDs, RespTlv, wants_ds, new_hdr, resp_rx_restore, resp_to_bytes, message_size, zero_ds,
}
use flashptpd.Wire.Tlv.Laws.{IsRespTlv, IsServerStateDs, IsOptDs, resp_rx_restore-resp_to_bytes}
use flashptpd.Wire.Tlv.Accept.{
  accept_response, resp_hdr, resp_hdr-IsTlvHdr, prepared, length-no_tlv,
}
use mathlib.Core.List.{append-nil}
use flashptpd.Wire.Message.{
  Message, IsMessage, write_message, read_message-write_message, new_message, response_period,
}
use flashptpd.Client.Sequence.{Sequence, TimestampLevel}
use flashptpd.Client.Sequence.Merge.Completes.{IsAnswered}
use flashptpd.Window.{same_level}
use flashptpd.ServerMode.{Request}
use flashptpd.ServerMode.Respond.{
  no_offset, utc_of, sync_tlv_of, sync_of, follow_up_of, follow_up_tlv_of, own_ds,
}
use flashptpd.Config.{to_unsigned}
use flashptpd.Config.Modes.{Listener}
use flashptpd.Exchange.{Mode, Verdict, route, take_response}
use flashptpd.Exchange.Routing.{route-client}

-- What a request's fields can hold: those of the store do.
pub record IsRequest (q : Request) : Type 0 where
  pub sequence_id_lt : q.sequence_id < 2 ^ 16
  pub flags_lt : q.flags < 2 ^ 32
  pub ingress_lt : q.ingress_timestamp.ns < 2 ^ 32
  pub correction_lt : q.correction < 2 ^ 64

pub restamp :
    {a b c d t4 : Timestamp} {tlv : RespTlv} {s : Sequence}
    → a ≡ b
    → c ≡ d
    → IsAnswered a c t4 tlv s
    → IsAnswered b d t4 tlv s
restamp e f k = record {
  whole = k.whole;
  t2_is = k.t2_is ∙ e;
  t2_correction_is = k.t2_correction_is;
  t3_is = k.t3_is ∙ f;
  t4_is = k.t4_is;
  error_is = k.error_is;
}

-- A response to the client mode is taken in with its TLV, or without one.
pub route-no_tlv :
    (m : Message)
    → IsMessage m
    → m.log_msg_period ≡ response_period
    → route Mode.client_mode (write_message m ++ []) ≡ Verdict.response m none
unfolding take_response
route-no_tlv m v p =
    let r = read_message-write_message m [] v in
    let none_there =
      length-no_tlv (write_message m ++ []) (ap length (append-nil (write_message m)) ∙ r.1) in
    route-client (write_message m ++ []) m [] r.0 ∙ cc (p, none_there)

pub route-tlv :
    (m : Message) (t : RespTlv) (flags : ℕ)
    → IsMessage m
    → m.log_msg_period ≡ response_period
    → t.hdr ≡ resp_hdr flags
    → IsRespTlv t
    → route Mode.client_mode (write_message m ++ resp_to_bytes t) ≡ Verdict.response m (some t)
unfolding take_response
route-tlv m t flags v p h w =
    let bytes = write_message m ++ resp_to_bytes t in
    let r = read_message-write_message m (resp_to_bytes t) v in
    let valid = accept_response (write_message m) t flags r.1 h w in
    let rest = drop-append message_size (write_message m) (resp_to_bytes t) r.1 in
    let read : resp_rx_restore (drop message_size bytes) ≡ some t =
      ap resp_rx_restore (rest ∙ sym (append-nil (resp_to_bytes t)))
      ∙ resp_rx_restore-resp_to_bytes t [] w in
    route-client bytes m (resp_to_bytes t) r.0 ∙ cc (p, valid, read)

module _ (interface_of : ℕ → Option String) (clock_id_of : String → ℕ) (listeners : List Listener)
    (ds : ServerStateDs) (interface : String) (q : Request) where
  -- The TLV of the response.
  abbrev pub answer_tlv : TimestampLevel → RespTlv
  answer_tlv level =
      let utc = utc_of interface listeners q in
      follow_up_tlv_of level utc q (sync_tlv_of (clock_id_of interface) ds utc q (prepared q.flags))

  pub sync_of-IsMessage :
      (now : Timespec) (utc : ℤ) (len : ℕ)
      → IsRequest q
      → q.sync_tlv ≡ false
      → q.one_step ≡ false
      → IsMessage (sync_of now utc len q)
  unfolding sync_of new_message
  sync_of-IsMessage now utc len v e f =
      rw (e, f)
        (record {
          msg_type_lt = omega arith;
          total_len_lt = omega arith;
          correction_lt = omega arith;
          msg_type_specific_lt = omega arith;
          clock_id_lt = omega arith;
          port_id_lt = omega arith;
          seq_id_lt = v.sequence_id_lt;
          ns_lt = omega arith;
        })

  pub sync_tlv_of-fields :
      (utc : ℤ)
      → ((sync_tlv_of (clock_id_of interface) ds utc q (prepared q.flags)).req_ingress_timestamp
          ≡ q.ingress_timestamp)
        × ((sync_tlv_of (clock_id_of interface) ds utc q (prepared q.flags)).req_correction_field
            ≡ q.correction)
  unfolding sync_tlv_of
  sync_tlv_of-fields utc = (refl, refl)

  pub follow_up_of-IsMessage :
      (level : TimestampLevel) (at : Timespec) (utc : ℤ) (len : ℕ)
      → len ≤ 54
      → IsRequest q
      → q.sync_tlv ≡ false
      → IsMessage (follow_up_of level at utc len q)
  unfolding follow_up_of new_message
  follow_up_of-IsMessage level at utc len l v e = rw e (record {
    msg_type_lt = omega arith;
    total_len_lt = omega arith;
    correction_lt = omega arith;
    msg_type_specific_lt = omega arith;
    clock_id_lt = omega arith;
    port_id_lt = omega arith;
    seq_id_lt = v.sequence_id_lt;
    ns_lt = (of_timespec-IsTimestamp at).ns_lt;
  })

  to_unsigned-lt : (z : ℤ) → to_unsigned 16 z < 2 ^ 16
  unfolding to_unsigned
  to_unsigned-lt (pos n) = omega arith
  to_unsigned-lt (negsuc n) = omega arith

  own_ds-IsServerStateDs :
      clock_id_of interface < 2 ^ 64
      → IsServerStateDs ds
      → IsServerStateDs (own_ds (clock_id_of interface) ds)
  unfolding own_ds
  own_ds-IsServerStateDs h v = ground arith

  wants_ds-IsOptDs :
      (flags : ℕ)
      → clock_id_of interface < 2 ^ 64
      → IsServerStateDs ds
      → IsOptDs (wants_ds flags) (
          if wants_ds flags
          then some (own_ds (clock_id_of interface) ds)
          else if wants_ds flags
          then some zero_ds
          else none)
  wants_ds-IsOptDs flags h v = elim (Bool-cases (wants_ds flags)) [
    | inl e ↦ rw e (own_ds-IsServerStateDs h v)
    | inr e ↦ rw e tt
  ]

  utc-lt : (b : Bool) (z : ℤ) → (if b then to_unsigned 16 z else 0) < 2 ^ 16
  utc-lt true z = to_unsigned-lt z
  utc-lt false z = omega arith

  pub sync_tlv_of-IsRespTlv :
      (utc : ℤ)
      → IsRequest q
      → clock_id_of interface < 2 ^ 64
      → IsServerStateDs ds
      → IsRespTlv (sync_tlv_of (clock_id_of interface) ds utc q (prepared q.flags))
        × ((sync_tlv_of (clock_id_of interface) ds utc q (prepared q.flags)).error ≡ 0)
        × ((sync_tlv_of (clock_id_of interface) ds utc q (prepared q.flags)).hdr ≡ resp_hdr q.flags)
  unfolding sync_tlv_of new_hdr
  sync_tlv_of-IsRespTlv utc v h w = (
    record {
      hdr_ok = resp_hdr-IsTlvHdr q.flags v.flags_lt;
      error_lt = omega arith;
      ingress_ok = v.ingress_lt;
      correction_lt = v.correction_lt;
      utc_offset_lt = utc-lt _ utc;
      ds_ok = wants_ds-IsOptDs q.flags h w;
    },
    refl,
    refl,
  )

  -- What the Follow Up's TLV keeps of the Sync's.
  pub record IsKept (level : TimestampLevel) (utc : ℤ) (t r : RespTlv) : Type 0 where
    pub valid : IsRespTlv r
    pub same_hdr : r.hdr ≡ t.hdr
    pub same_ingress : r.req_ingress_timestamp ≡ t.req_ingress_timestamp
    pub same_correction : r.req_correction_field ≡ t.req_correction_field
    pub error_marked :
        (r.error ≡ 0) ↔ ((eqb_ℤ utc no_offset ≡ true) ⊎ (same_level level q.timestamp_level ≡ true))

  not_both : {a b : Bool} → a ≡ false → b ≡ false → (a ≡ true) ⊎ (b ≡ true) → ⊥
  not_both e f (inl g) = cc
  not_both e f (inr g) = cc

  pub follow_up_tlv_of-IsKept :
      (level : TimestampLevel) (utc : ℤ) (t : RespTlv)
      → IsRespTlv t
      → t.error ≡ 0
      → IsKept level utc t (follow_up_tlv_of level utc q t)
  unfolding follow_up_tlv_of
  follow_up_tlv_of-IsKept level utc t v e = elim (Bool-cases (eqb_ℤ utc no_offset)) [
    | inl u ↦
        rw (u, follow_up_tlv_of)
          (record {
            valid = v;
            same_hdr = refl;
            same_ingress = refl;
            same_correction = refl;
            error_marked = (λ x. inl u, λ x. e);
          })
    | inr u ↦ elim (Bool-cases (same_level level q.timestamp_level)) [
      | inl l ↦
          rw (u, follow_up_tlv_of)
            (rw l (record {
              valid = record {
                hdr_ok = v.hdr_ok;
                error_lt = v.error_lt;
                ingress_ok = v.ingress_ok;
                correction_lt = v.correction_lt;
                utc_offset_lt = to_unsigned-lt utc;
                ds_ok = v.ds_ok;
              };
              same_hdr = refl;
              same_ingress = refl;
              same_correction = refl;
              error_marked = (λ x. inr l, λ x. e);
            }))
      | inr l ↦
          rw (u, follow_up_tlv_of)
            (rw l (record {
              valid = record {
                hdr_ok = v.hdr_ok;
                error_lt = omega (arith, e);
                ingress_ok = v.ingress_ok;
                correction_lt = v.correction_lt;
                utc_offset_lt = v.utc_offset_lt;
                ds_ok = v.ds_ok;
              };
              same_hdr = refl;
              same_ingress = refl;
              same_correction = refl;
              error_marked = (λ x. absurd (omega (arith, x)), λ x. absurd (not_both u l x));
            }))
    ]
  ]
