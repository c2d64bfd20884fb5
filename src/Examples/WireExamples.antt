-- ===== src/Examples/WireExamples.antt =====
-- The theorems on what is on the wire, at concrete inputs.
use flashptpd.Prelude.{ℕ, ◌-◌, ◌^◌, ◌≡◌, ◌++◌, refl, true, List, [], ◌∷◌, none, some, length, arith}
use flashptpd.Prelude.Int.{pos, ◌+ℤ◌, ◌≤ℤ◌, ◌<ℤ◌}
use flashptpd.Wire.Words.{signed64}
use flashptpd.Wire.Timestamp.{Timestamp}
use flashptpd.Wire.Interval.{nanoseconds, floor_nanoseconds, nanoseconds_negative}
use flashptpd.Wire.Tlv.{
  ServerStateDs, RespTlv, resp_rx_restore, resp_to_bytes, req_tx_prepare, message_size,
}
use flashptpd.Wire.Tlv.Laws.{IsRespTlv, resp_rx_restore-resp_to_bytes}
use flashptpd.Wire.Message.{
  Message, read_message, write_message, IsMessage, read_message-write_message, new_message,
}

abbrev early : Timestamp
early = record { sec0 = 0; sec1 = 0; sec2 = 0; sec3 = 0; sec4 = 1; sec5 = 0; ns = 7 }

-- A correction of -1 ns.
nanoseconds_negative_example :
    (nanoseconds (2 ^ 64 - 2 ^ 16) ≡ floor_nanoseconds (2 ^ 64 - 2 ^ 16) +ℤ pos (2 ^ 48))
    × (pos 0 ≤ℤ nanoseconds (2 ^ 64 - 2 ^ 16))
    × (signed64 (2 ^ 64 - 2 ^ 16) <ℤ pos 0)
nanoseconds_negative_example = nanoseconds_negative (2 ^ 64 - 2 ^ 16) (omega arith) (omega arith)

abbrev state_ds : ServerStateDs
state_ds = record {
  gm_priority1 = 128;
  gm_clock_class = 6;
  gm_clock_accuracy = 0x20;
  gm_clock_variance = 0x4e5d;
  gm_priority2 = 127;
  gm_clock_id = 0xa1b2c3d4e5f60718;
  steps_removed = 1;
  time_source = 0x20;
  reserved = 0;
}

abbrev response : RespTlv
response = record {
  hdr = record {
    tlv_type = 3;
    tlv_length = 60;
    org0 = 0xec;
    org1 = 0x46;
    org2 = 0x70;
    sub0 = 0x52;
    sub1 = 0x65;
    sub2 = 0x72;
    flags = 1;
  };
  error = 0;
  req_ingress_timestamp = early;
  req_correction_field = 0;
  utc_offset = 37;
  server_state_ds = some state_ds;
}

response-IsRespTlv : IsRespTlv response
response-IsRespTlv = record {
  hdr_ok = record {
    tlv_type_lt = omega arith;
    tlv_length_lt = omega arith;
    flags_lt = omega arith;
  };
  error_lt = omega arith;
  ingress_ok = omega arith;
  correction_lt = omega arith;
  utc_offset_lt = omega arith;
  ds_ok = record {
    gm_clock_variance_lt = omega arith;
    gm_clock_id_lt = omega arith;
    steps_removed_lt = omega arith;
  };
}

resp_rx_restore-resp_to_bytes_example :
    resp_rx_restore (resp_to_bytes response ++ 9 ∷ []) ≡ some response
resp_rx_restore-resp_to_bytes_example =
    resp_rx_restore-resp_to_bytes response (9 ∷ []) response-IsRespTlv

abbrev two_step_sync : Message
two_step_sync = new_message 2 0 44 true

two_step_sync-IsMessage : IsMessage two_step_sync
unfolding new_message
two_step_sync-IsMessage = record {
  msg_type_lt = omega arith;
  total_len_lt = omega arith;
  correction_lt = omega arith;
  msg_type_specific_lt = omega arith;
  clock_id_lt = omega arith;
  port_id_lt = omega arith;
  seq_id_lt = omega arith;
  ns_lt = omega arith;
}

read_message-write_message_example :
    (read_message (write_message two_step_sync ++ 1 ∷ []) ≡ some (two_step_sync, 1 ∷ []))
    × (length (write_message two_step_sync) ≡ message_size)
read_message-write_message_example =
    read_message-write_message two_step_sync (1 ∷ []) two_step_sync-IsMessage

-- A request for the state data set, as it leaves the client.
abbrev request_bytes : List ℕ
request_bytes = elim (req_tx_prepare 980 1) [ none ↦ [] | some bytes ↦ bytes ]

request-bytes : req_tx_prepare 980 1 ≡ some request_bytes
unfolding req_tx_prepare
request-bytes = refl
