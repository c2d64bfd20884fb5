-- ===== src/Exchange/Answered.antt =====
-- What a client makes of a server's answer (src/flashptp/server/serverMode.cpp and
-- src/flashptp/client/clientMode.cpp): the two messages that `processRequest` sends complete the sequence.
use Prim.Native.String.{String}
use flashptpd.Prelude.{
  ℕ, ◌^◌, ◌<◌, ◌≤◌, ◌≡◌, refl, ap, ◌∙◌, ◌↔◌, ◌⊎◌, true, false, ◌&&◌, List, [], ◌∷◌, ◌++◌, Option,
  none, some, arith,
}
use flashptpd.Prelude.Int.{eqb_ℤ}
use flashptpd.Wire.Timestamp.{Timespec, of_timespec}
use flashptpd.Wire.Tlv.{ServerStateDs, RespTlv, new_hdr, resp_to_bytes}
use flashptpd.Wire.Tlv.Laws.{IsRespTlv, IsServerStateDs}
use flashptpd.Wire.Tlv.Accept.{resp_hdr, prepared, resp_tx_prepare-prepared}
use flashptpd.Wire.Message.{
  Message, write_message, new_message, two_step, response_period, sync, follow_up,
}
use flashptpd.Client.Sequence.{Sequence, TimestampLevel, is_valid_level, has, merge}
use flashptpd.Client.Sequence.Merge.{IsFresh}
use flashptpd.Client.Sequence.Merge.Completes.{IsAnswered, merge-IsAnswered}
use flashptpd.Window.{same_level}
use flashptpd.ServerMode.{Request}
use flashptpd.ServerMode.Respond.{
  Sent, no_offset, resp_buffer, utc_of, sync_tlv_of, sync_of, follow_up_of, respond,
  process_request,
}
use flashptpd.Config.Modes.{Listener}
use flashptpd.Exchange.{Mode, Verdict, route}
use flashptpd.Exchange.Responses.{
  IsRequest, restamp, route-no_tlv, route-tlv, answer_tlv, sync_of-IsMessage, sync_tlv_of-fields,
  follow_up_of-IsMessage, sync_tlv_of-IsRespTlv, follow_up_tlv_of-IsKept,
}

module _ (interface_of : ℕ → Option String) (clock_id_of : String → ℕ) (listeners : List Listener)
    (ds : ServerStateDs) (interface : String) (q : Request) where
  -- What the server sends for a two-step request whose Sync carried no TLV.
  abbrev pub sync_response : Timespec → Message
  sync_response now = sync_of now (utc_of interface listeners q) (prepared q.flags).hdr.tlv_length q

  abbrev pub follow_up_response : TimestampLevel → Timespec → Message
  follow_up_response level at =
      follow_up_of level at (utc_of interface listeners q) (prepared q.flags).hdr.tlv_length q

  process_request-eq :
      (now at : Timespec) (level : TimestampLevel)
      → interface_of q.dst_address.host ≡ some interface
      → q.sync_tlv ≡ false
      → q.one_step ≡ false
      → (one two : Sent) × (process_request interface_of clock_id_of listeners ds now
            (some (level, at))
            q
          ≡ one ∷ two ∷ [])
        × (one.bytes ≡ write_message (sync_response now) ++ [])
        × (two.bytes
            ≡ write_message (follow_up_response level at)
              ++ resp_to_bytes (answer_tlv interface_of clock_id_of listeners ds interface q level))
  unfolding process_request respond
  process_request-eq now at level i e f =
      let one : Sent = record {
        bytes = write_message (sync_response now) ++ [];
        interface = interface;
        src_port = q.dst_event_port;
        dst_host = q.src_address.host;
        dst_port = q.src_event_port;
      } in
      let two : Sent = record {
        bytes =
            write_message (follow_up_response level at)
            ++ resp_to_bytes (answer_tlv interface_of clock_id_of listeners ds interface q level);
        interface = interface;
        src_port = q.dst_general_port;
        dst_host = q.src_address.host;
        dst_port = q.src_general_port;
      } in
      (
        one,
        two,
        cc (i, resp_tx_prepare-prepared resp_buffer q.flags (omega arith), e, f),
        refl,
        refl,
      )

  sync_of-is_sync :
      (now : Timespec)
      → q.one_step ≡ false
      → ((sync_response now).msg_type ≡ sync)
        × (two_step (sync_response now) ≡ true)
        × ((sync_response now).seq_id ≡ q.sequence_id)
        × ((sync_response now).log_msg_period ≡ response_period)
  unfolding sync_of new_message
  sync_of-is_sync now f = (refl, rw f refl, refl, refl)

  follow_up_of-is_follow_up :
      (level : TimestampLevel) (at : Timespec)
      → ((follow_up_response level at).msg_type ≡ follow_up)
        × ((follow_up_response level at).seq_id ≡ q.sequence_id)
        × ((follow_up_response level at).log_msg_period ≡ response_period)
        × ((follow_up_response level at).timestamp ≡ of_timespec at)
  unfolding follow_up_of new_message
  follow_up_of-is_follow_up level at = (refl, refl, refl, refl)

  length-prepared : (prepared q.flags).hdr.tlv_length ≤ 54
  unfolding new_hdr
  length-prepared = ground arith

  answer_tlv-IsKept :
      (level : TimestampLevel)
      → IsRequest q
      → clock_id_of interface < 2 ^ 64
      → IsServerStateDs ds
      → IsRespTlv (answer_tlv interface_of clock_id_of listeners ds interface q level)
        × ((answer_tlv interface_of clock_id_of listeners ds interface q level).hdr
            ≡ resp_hdr q.flags)
        × ((answer_tlv interface_of clock_id_of listeners ds interface q
              level).req_ingress_timestamp
            ≡ q.ingress_timestamp)
        × ((answer_tlv interface_of clock_id_of listeners ds interface q level).req_correction_field
            ≡ q.correction)
        × (((answer_tlv interface_of clock_id_of listeners ds interface q level).error ≡ 0) ↔ (
            (eqb_ℤ (utc_of interface listeners q) no_offset ≡ true)
            ⊎ (same_level level q.timestamp_level ≡ true)))
  answer_tlv-IsKept level v h w =
      let utc = utc_of interface listeners q in
      let base =
        sync_tlv_of-IsRespTlv interface_of clock_id_of listeners ds interface q utc v h w in
      let t = sync_tlv_of (clock_id_of interface) ds utc q (prepared q.flags) in
      let k =
        follow_up_tlv_of-IsKept interface_of clock_id_of listeners ds interface q level utc t base.0
          base.1 in
      let fields = sync_tlv_of-fields interface_of clock_id_of listeners ds interface q utc in
      (
        k.valid,
        k.same_hdr ∙ base.2,
        k.same_ingress ∙ fields.0,
        k.same_correction ∙ fields.1,
        k.error_marked,
      )

  -- The answer completes the measurement. To a complete two-step request whose Sync had no TLV, sent to
  -- an address of an interface, the server mode sends two messages, which the client mode takes in as
  -- responses with the request's number, the second one with the TLV. Once both are merged, each
  -- with the level and time of its reception, a sequence that waits for its response is complete: with the server's time stamp and corrections of the
  -- request, the time at which the server sent, and the client's time stamp of the Sync of the response. It has no
  -- error exactly if there is no UTC offset to be sent or the server has sent with the level it wanted.
  pub process_request-answers :
      (now at t t' : Timespec) (level heard heard' : TimestampLevel) (s : Sequence)
      → interface_of q.dst_address.host ≡ some interface
      → q.sync_tlv ≡ false
      → q.one_step ≡ false
      → IsRequest q
      → clock_id_of interface < 2 ^ 64
      → IsServerStateDs ds
      → IsFresh s
      → is_valid_level heard ≡ true
      → (has s.t1 && has q.ingress_timestamp && has (of_timespec at) && has (of_timespec t)) ≡ true
      → (one two : Sent) × (sy fu : Message) × (tlv : RespTlv) × (process_request interface_of
            clock_id_of listeners ds now
            (some (level, at))
            q
          ≡ one ∷ two ∷ [])
        × (route Mode.client_mode one.bytes ≡ Verdict.response sy none)
        × (route Mode.client_mode two.bytes ≡ Verdict.response fu (some tlv))
        × (sy.seq_id ≡ q.sequence_id)
        × (fu.seq_id ≡ q.sequence_id)
        × (tlv.req_correction_field ≡ q.correction)
        × IsAnswered q.ingress_timestamp
            (of_timespec at)
            (of_timespec t)
            tlv
            (merge fu (some tlv) heard' (some t') (merge sy none heard (some t) s))
        × ((tlv.error ≡ 0) ↔ (
            (eqb_ℤ (utc_of interface listeners q) no_offset ≡ true)
            ⊎ (same_level level q.timestamp_level ≡ true)))
  process_request-answers now at t t' level heard heard' s i e f v h w fresh valid all =
      let (one, two, sent, first, second) = process_request-eq now at level i e f in
      let (tlv_ok, hdr, ingress, correction, error) = answer_tlv-IsKept level v h w in
      let (type1, two1, id1, period1) = sync_of-is_sync now f in
      let (type2, id2, period2, time2) = follow_up_of-is_follow_up level at in
      let utc = utc_of interface listeners q in
      (
        one,
        two,
        sync_response now,
        follow_up_response level at,
        answer_tlv interface_of clock_id_of listeners ds interface q level,
        sent,
        ap (route Mode.client_mode) first
            ∙ route-no_tlv (sync_response now)
                (sync_of-IsMessage interface_of clock_id_of listeners ds interface q now utc _ v e
                  f)
                period1,
        ap (route Mode.client_mode) second
            ∙ route-tlv (follow_up_response level at)
                (answer_tlv interface_of clock_id_of listeners ds interface q level) q.flags
                (follow_up_of-IsMessage interface_of clock_id_of listeners ds interface q level at
                  utc _ length-prepared v e)
                period2 hdr tlv_ok,
        id1,
        id2,
        correction,
        restamp ingress time2 (
            merge-IsAnswered (sync_response now) (follow_up_response level at)
              (answer_tlv interface_of clock_id_of listeners ds interface q level) heard heard' t
              (some t') s type1 two1 type2 valid fresh (rw (ingress, time2) all)),
        error,
      )
