-- ===== src/ServerMode/Respond.antt =====
-- What the server mode answers: `ServerMode::processRequest` (src/flashptp/server/serverMode.cpp). The
-- network component is a parameter: the interface that has the request's destination address, what
-- `network::send` makes of the time stamp level, and the clock identity of an interface.
use Prim.Native.String.{String}
use flashptpd.Prelude.{
  ℕ, ◌+◌, ◌-◌, ◌%◌, Bool, true, false, not, ◌&&◌, ◌==◌, if◌then◌else◌, List, [], ◌∷◌, ◌++◌, Option,
  none, some,
}
use flashptpd.Prelude.Int.{ℤ, pos, eqb_ℤ}
use flashptpd.Wire.Timestamp.{Timespec, of_timespec}
use flashptpd.Wire.Tlv.{
  ServerStateDs, RespTlv, message_size, wants_ds, resp_tx_prepare, resp_to_bytes,
}
use flashptpd.Wire.Message.{Message, new_message, write_message, sync, follow_up}
use flashptpd.Client.Sequence.{TimestampLevel}
use flashptpd.Window.{same_level}
use flashptpd.ServerMode.{Request}
use flashptpd.Config.{to_unsigned}
use flashptpd.Config.Names.{same_text}
use flashptpd.Config.Modes.{Listener}

-- A call of `network::send`: the bytes, the interface and ports, and the address.
pub record Sent : Type 0 where
  pub bytes : List ℕ
  pub interface : String
  pub src_port : ℕ
  pub dst_host : ℕ
  pub dst_port : ℕ

-- What `send` returns for an event message: `none` for false, else level and time of transmission.
abbrev pub Stamped : Type 0
Stamped = Option (TimestampLevel × Timespec)

-- `INT16_MAX`, which stands for no offset.
abbrev pub no_offset : ℤ
no_offset = pos 0x7fff

-- `sizeof(_respbuf) - sizeof(*ptp)`
abbrev pub resp_buffer : ℕ
resp_buffer = 1024 - message_size

-- `FLASH_PTP_ERROR_TX_TIMESTAMP_INVALID`
abbrev pub tx_timestamp_invalid : ℕ
tx_timestamp_invalid = 1

-- `flags.utcReasonable = 1; flags.timescale = 1;` on flags that are not set.
abbrev pub utc_flags : ℕ
utc_flags = 12

-- The loop over the listeners.
unfoldable pub listener_offset : String → List Listener → ℤ
listener_offset interface [] = no_offset
listener_offset interface (l ∷ ls) =
    if same_text l.interface interface then l.utc_offset else listener_offset interface ls

abbrev pub is_hardware : TimestampLevel → Bool
is_hardware TimestampLevel.hardware = true
is_hardware _ = false

-- The time stamp level that is asked for.
abbrev pub level_of : Request → TimestampLevel
level_of q = if q.one_step then TimestampLevel.user else q.timestamp_level

unfoldable pub utc_of : String → List Listener → Request → ℤ
utc_of interface listeners q =
    if is_hardware (level_of q) then listener_offset interface listeners else no_offset

-- The data set that is appended, with the interface's own clock identity where it is the grandmaster.
unfoldable pub own_ds : ℕ → ServerStateDs → ServerStateDs
own_ds clock_id ds = if ds.steps_removed == 0 then record ds { gm_clock_id = clock_id } else ds

-- The TLV as it stands when the Sync is sent, built on what `txPrepare` has left.
unfoldable pub sync_tlv_of : ℕ → ServerStateDs → ℤ → Request → RespTlv → RespTlv
sync_tlv_of clock_id ds utc q tlv = record tlv {
  req_ingress_timestamp = q.ingress_timestamp;
  req_correction_field = q.correction;
  utc_offset =
      if q.sync_tlv && not (eqb_ℤ utc no_offset) then to_unsigned 16 utc else tlv.utc_offset;
  server_state_ds =
      if wants_ds tlv.hdr.flags then some (own_ds clock_id ds) else tlv.server_state_ds;
}

-- The Sync Response; a one-step response carries the time `now`.
unfoldable pub sync_of : Timespec → ℤ → ℕ → Request → Message
sync_of now utc len q =
    let m =
      new_message q.ptp_version sync (if q.sync_tlv then message_size + len else message_size)
        (not q.one_step) in
    record m {
      seq_id = q.sequence_id;
      timestamp = if q.one_step then of_timespec now else m.timestamp;
      flags1 = if q.sync_tlv && not (eqb_ℤ utc no_offset) then utc_flags else m.flags1;
    }

-- The Follow Up Response, with the time at which the Sync was sent.
unfoldable pub follow_up_of : TimestampLevel → Timespec → ℤ → ℕ → Request → Message
follow_up_of level sent_at utc len q =
    let m =
      new_message q.ptp_version follow_up (if q.sync_tlv then message_size else message_size + len)
        false in
    record m {
      seq_id = q.sequence_id;
      timestamp = of_timespec sent_at;
      flags1 =
          if not q.sync_tlv && not (eqb_ℤ utc no_offset) && same_level level q.timestamp_level
          then utc_flags
          else m.flags1;
    }

-- The TLV that is sent with the Follow Up.
unfoldable pub follow_up_tlv_of : TimestampLevel → ℤ → Request → RespTlv → RespTlv
follow_up_tlv_of level utc q tlv =
    if eqb_ℤ utc no_offset
    then tlv
    else if same_level level q.timestamp_level
    then record tlv { utc_offset = to_unsigned 16 utc }
    else record tlv { error = tlv.error - tlv.error % 2 + tx_timestamp_invalid }

module _ (interface_of : ℕ → Option String) (clock_id_of : String → ℕ) (listeners : List Listener)
    (ds : ServerStateDs) where
  -- The Sync and the Follow Up of the response to a request that came to an address of `interface`.
  unfoldable pub respond : String → Timespec → Stamped → Request → RespTlv → List Sent
  respond interface now stamped q prepared =
      let utc = utc_of interface listeners q in
      let len = prepared.hdr.tlv_length in
      let tlv = sync_tlv_of (clock_id_of interface) ds utc q prepared in
      let first : Sent = record {
        bytes =
            write_message (sync_of now utc len q) ++ (if q.sync_tlv then resp_to_bytes tlv else []);
        interface = interface;
        src_port = q.dst_event_port;
        dst_host = q.src_address.host;
        dst_port = q.src_event_port;
      } in
      elim stamped [
        | none ↦ first ∷ []
        | some (level, at) ↦
            if q.one_step
            then first ∷ []
            else first
              ∷ record {
                bytes =
                    write_message (follow_up_of level at utc len q)
                    ++ (if q.sync_tlv
                        then []
                        else resp_to_bytes (follow_up_tlv_of level utc q tlv));
                interface = interface;
                src_port = q.dst_general_port;
                dst_host = q.src_address.host;
                dst_port = q.src_general_port;
              }
              ∷ []
      ]

  -- `processRequest`: what it sends. The buffer is large enough for every TLV.
  unfoldable pub process_request : Timespec → Stamped → Request → List Sent
  process_request now stamped q = elim (interface_of q.dst_address.host) [
    | none ↦ []
    | some interface ↦ elim (resp_tx_prepare resp_buffer q.flags) [
      | none ↦ []
      | some tlv ↦ respond interface now stamped q tlv
    ]
  ]
