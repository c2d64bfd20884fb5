-- ===== src/Examples/ExchangeExamples.antt =====
-- The theorems on the exchange between a client and a server, at concrete messages.
use Prim.Native.String.{String}
use flashptpd.Prelude.{
  ℕ, ◌≡◌, ◌≢◌, ◌<◌, ◌↔◌, ◌⊎◌, refl, true, false, List, [], ◌∷◌, ◌++◌, Option, none, some, arith,
  ◌^◌,
}
use flashptpd.Prelude.Int.{ℤ, pos, negsuc, eqb_ℤ, ◌-ℤ◌}
use flashptpd.Wire.Timestamp.{empty, of_timespec, subtract_timespecs}
use flashptpd.Wire.Tlv.{write_timestamp, RespTlv, TlvHdr, resp_to_bytes, zero_ds, new_hdr}
use flashptpd.Wire.Tlv.Laws.{IsRespTlv, IsServerStateDs}
use flashptpd.Wire.Tlv.Accept.{prepared, accept_response, length-no_tlv}
use flashptpd.Wire.Message.{
  Message, IsMessage, new_message, write_message, read_message-write_message,
}
use flashptpd.Client.Sequence.{TimestampLevel, merge}
use flashptpd.Client.Sequence.Merge.Completes.{IsAnswered}
use flashptpd.Client.Request.{send_request, sequence_of}
use flashptpd.Config.Names.{Version}
use flashptpd.Config.Peers.{Peer}
use flashptpd.Window.{same_level}
use flashptpd.ServerMode.{SockAddr, Request, obtain_request, complete}
use flashptpd.ServerMode.Respond.{Sent, process_request, utc_of, no_offset}
use flashptpd.Exchange.{Mode, Verdict, route, dispatch}
use flashptpd.Exchange.Routing.{
  Agrees, Contradicts, always_active, outcome, owner, dispatch-ends, dispatch-forever,
}
use flashptpd.Exchange.Responses.{IsRequest}
use flashptpd.Exchange.Answered.{process_request-answers}
use flashptpd.Exchange.Asked.{send_request-asks}
use flashptpd.Examples.ServerExamples.{server}
use flashptpd.Examples.ClientExamples.{at, request, request-IsFresh}

abbrev event : SockAddr
event = record { host = 1; port = 319 }

abbrev general : SockAddr
general = record { host = 1; port = 320 }

abbrev here : SockAddr
here = record { host = 2; port = 319 }

-- A Sync Response, and a message with the period of a request.
abbrev answer : Message
answer = record (new_message 2 0 44 true) { seq_id = 7 }

abbrev mixed : Message
mixed = record (new_message 2 8 80 false) { seq_id = 7; log_msg_period = 0 }

answer-IsMessage : IsMessage answer
unfolding new_message
answer-IsMessage = omega arith

mixed-IsMessage : IsMessage mixed
unfolding new_message
mixed-IsMessage = omega arith

prepared-IsRespTlv : IsRespTlv (prepared 0)
unfolding new_hdr
prepared-IsRespTlv = omega arith

dispatch-ends_example :
    (dispatch 2 always_active Mode.server_mode (write_message answer ++ [])
      ≡ some (
          outcome always_active Mode.server_mode
            (owner answer)
            (route (owner answer) (write_message answer ++ []))))
    × (route (owner answer) (write_message answer ++ []) ≢ Verdict.passed_on)
dispatch-ends_example =
    dispatch-ends always_active Mode.server_mode (write_message answer ++ []) answer [] none
      (read_message-write_message answer [] answer-IsMessage).0
      (length-no_tlv (write_message answer ++ []) (unfold write_message write_timestamp in refl))
      Agrees.no_tlv

dispatch-forever_example :
    dispatch 1000 always_active Mode.client_mode (write_message mixed ++ resp_to_bytes (prepared 0))
    ≡ none
dispatch-forever_example =
    dispatch-forever 1000 Mode.client_mode (write_message mixed ++ resp_to_bytes (prepared 0)) mixed
      (resp_to_bytes (prepared 0)) (some false)
      (read_message-write_message mixed (resp_to_bytes (prepared 0)) mixed-IsMessage).0
      (accept_response (write_message mixed) (prepared 0) 0
        (read_message-write_message mixed [] mixed-IsMessage).1 refl prepared-IsRespTlv)
      (Contradicts.untimed_response (unfold new_message in refl))

-- A complete request, with the server's time stamp, that came to the interface eth0.
abbrev asked : Request
asked = record {
  ts = at 0;
  src_address = event;
  src_event_port = 319;
  src_general_port = 320;
  dst_address = here;
  dst_event_port = 319;
  dst_general_port = 320;
  sequence_id = 7;
  sync_correction = 0;
  follow_up_correction = 0;
  correction = 0;
  ptp_version = 2;
  timestamp_level = TimestampLevel.hardware;
  ingress_timestamp = of_timespec (at 1080);
  flags = 1;
  sync_tlv = false;
  one_step = false;
  sync_received = true;
  follow_up_received = true;
  tlv_received = true;
}

asked-IsRequest : IsRequest asked
unfolding of_timespec
asked-IsRequest = record {
  sequence_id_lt = omega arith;
  flags_lt = omega arith;
  ingress_lt = omega arith;
  correction_lt = omega arith;
}

zero_ds-IsServerStateDs : IsServerStateDs zero_ds
zero_ds-IsServerStateDs = record {
  gm_clock_variance_lt = omega arith;
  gm_clock_id_lt = omega arith;
  steps_removed_lt = omega arith;
}

abbrev eth0 : ℕ → Option String
eth0 host = some "eth0"

abbrev identity : String → ℕ
identity interface = 1

process_request-answers_example :
    (one two : Sent) × (sy fu : Message) × (tlv : RespTlv) × (process_request eth0 identity []
        zero_ds
        (at 1500)
        (some (TimestampLevel.socket, at 2030))
        asked
      ≡ one ∷ two ∷ [])
    × (route Mode.client_mode one.bytes ≡ Verdict.response sy none)
    × (route Mode.client_mode two.bytes ≡ Verdict.response fu (some tlv))
    × (sy.seq_id ≡ 7)
    × (fu.seq_id ≡ 7)
    × (tlv.req_correction_field ≡ 0)
    × IsAnswered (of_timespec (at 1080)) (of_timespec (at 2030)) (of_timespec (at 2050)) tlv (
        merge fu
          (some tlv)
          TimestampLevel.user
          (some (at 2060))
          (merge sy none TimestampLevel.hardware (some (at 2050)) request))
    × ((tlv.error ≡ 0) ↔ (
        (eqb_ℤ (utc_of "eth0" [] asked) no_offset ≡ true)
        ⊎ (same_level TimestampLevel.socket TimestampLevel.hardware ≡ true)))
unfolding empty of_timespec
process_request-answers_example =
    process_request-answers eth0 identity [] zero_ds "eth0" asked (at 1500) (at 2030) (at 2050)
      (at 2060) TimestampLevel.socket TimestampLevel.hardware TimestampLevel.user request refl refl
      refl asked-IsRequest (omega arith) zero_ds-IsServerStateDs request-IsFresh refl refl

-- A server object that asks twice a second, in two steps.
abbrev peer : Peer ℤ
peer = record {
  invalid = false;
  dst_address = "ptp.example.org";
  dst_event_port = 319;
  dst_general_port = 320;
  src_interface = "eth0";
  src_event_port = 319;
  src_general_port = 320;
  one_step = false;
  sync_tlv = false;
  interval = negsuc 0;
  state_interval = pos 4;
  ms_timeout = 100;
  ptp_version = Version.v2_0;
  timestamp_level = TimestampLevel.hardware;
  server = server;
}

send_request-asks_example :
    (first second : List ℕ) × (sy fu : Message) × (hdr : TlvHdr) × (q : Request) × (send_request
        peer
        (at 0)
        7
        true
        (some (TimestampLevel.hardware, at 1000))
        true
      ≡ (
        first ∷ second ∷ [],
        some (sequence_of peer (at 0) 7 true TimestampLevel.hardware (at 1000)),
      ))
    × (route Mode.server_mode first ≡ Verdict.request sy none)
    × (route Mode.server_mode second ≡ Verdict.request fu (some hdr))
    × (let one =
          obtain_request (at 0) sy none event here TimestampLevel.hardware (some (at 1080)) [] in
        obtain_request (at 9) fu (some hdr) general here TimestampLevel.user (some (at 1090)) one.0
        ≡ ([], some q))
    × (complete q ≡ true)
    × (q.sequence_id ≡ 7)
    × (q.ingress_timestamp ≡ of_timespec (at 1080))
    × (q.flags ≡ 1)
    × (q.sync_tlv ≡ false)
    × (q.one_step ≡ false)
    × (q.dst_address ≡ here)
    × (q.timestamp_level ≡ TimestampLevel.hardware)
    × (q.correction < 2 ^ 64)
unfolding ◌-ℤ◌ subtract_timespecs
send_request-asks_example =
    send_request-asks peer refl refl (ground arith) (ground arith) (at 0) (at 1000) 7 true
      TimestampLevel.hardware (at 0) (at 9) (at 1080) (at 1090) event here general here
      TimestampLevel.hardware TimestampLevel.user [] (omega arith) refl refl refl tt
