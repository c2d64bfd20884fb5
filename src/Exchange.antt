-- ===== src/Exchange.antt =====
-- How the two modes share the messages that come in: `ClientMode::onMsgReceived` and
-- `ServerMode::onMsgReceived`, which pass a message on to each other through the class FlashPTP
-- (include/flashptp/flashptp.h). A message is its bytes; both modes are enabled and run where the flags
-- say so. The network component delivers no message shorter than its header.
pub mod Routing
pub mod Responses
pub mod Answered
pub mod Asked
use Prim.Native.String.{String}
use flashptpd.Prelude.{
  ℕ, zero, suc, ◌+◌, Bool, true, false, not, ◌&&◌, ◌==◌, if◌then◌else◌, List, [], ◌∷◌, ◌++◌, Option,
  none, some, drop,
}
use flashptpd.Prelude.Doubles.{Doubles}
use flashptpd.Wire.Timestamp.{Timespec}
use flashptpd.Wire.Tlv.{
  TlvHdr, RespTlv, validate, req_rx_restore, resp_rx_restore, message_size, ServerStateDs,
}
use flashptpd.Wire.Message.{Message, read_message, response_period}
use flashptpd.Client.Sequence.{Sequence, TimestampLevel}
use flashptpd.Client.Server.{Server, process_message}
use flashptpd.ServerMode.{Request, SockAddr, obtain_request}
use flashptpd.ServerMode as server
use flashptpd.ServerMode.Respond.{Sent, Stamped, process_request}
use flashptpd.Config.Modes.{Listener}

pub data Mode : Type 0 where
  client_mode server_mode : Mode

abbrev pub other : Mode → Mode
other Mode.client_mode = Mode.server_mode
other Mode.server_mode = Mode.client_mode

-- What a mode does with a message.
pub data Verdict : Type 0 where
  dropped passed_on : Verdict
  -- taken in by the client mode or the server mode, with the TLV if one is valid
  response : Message → Option RespTlv → Verdict
  request : Message → Option TlvHdr → Verdict

-- A valid header, `isRequest`, is followed by a TLV that must be restored.
unfoldable pub take_response : Message → List ℕ → Option Bool → Verdict
take_response m bytes none = response m none
take_response m bytes (some true) = passed_on
take_response m bytes (some false) = elim (resp_rx_restore (drop message_size bytes)) [
  | none ↦ dropped
  | some tlv ↦ response m (some tlv)
]

unfoldable pub take_request : Message → List ℕ → Option Bool → Verdict
take_request m bytes none = request m none
take_request m bytes (some false) = passed_on
take_request m bytes (some true) = elim (req_rx_restore (drop message_size bytes)) [
  | none ↦ dropped
  | some hdr ↦ request m (some hdr)
]

route_message : Mode → List ℕ → Option (Message × List ℕ) → Verdict
route_message mode bytes none = dropped
route_message Mode.client_mode bytes (some (m, rest)) =
    if m.log_msg_period == response_period
    then take_response m bytes (validate bytes)
    else passed_on
route_message Mode.server_mode bytes (some (m, rest)) =
    if m.log_msg_period == response_period then passed_on else take_request m bytes (validate bytes)

-- The two `onMsgReceived` up to the point where they take the message in.
unfoldable pub route : Mode → List ℕ → Verdict
unfolding take_response take_request route_message
route mode bytes = route_message mode bytes (read_message bytes)

-- Only a message that is passed on needs more calls.
unfoldable pub settle : Verdict → Option Verdict → Option Verdict
settle passed_on rest = rest
settle dropped rest = some dropped
settle (response m tlv) rest = some (response m tlv)
settle (request m hdr) rest = some (request m hdr)

-- The calls of `onMsgReceived` that one message causes, `fuel` of them at most: `none` if they are not
-- over then. `active` says whether a mode is enabled and runs.
unfoldable pub dispatch : ℕ → (Mode → Bool) → Mode → List ℕ → Option Verdict
dispatch zero active mode bytes = none
dispatch (suc fuel) active mode bytes =
    let rest = dispatch fuel active (other mode) bytes in
    if active mode then settle (route mode bytes) rest else some dropped

-- The loop over the servers: the first whose address is the source's takes the message.
unfoldable pub deliver : {S : Type 0} → (S → Bool) → (S → S) → List S → List S
deliver is_source take [] = []
deliver is_source take (s ∷ servers) =
    let rest = deliver is_source take servers in if is_source s then take s ∷ servers else s ∷ rest

-- What the server mode does with a request's message: the store, and what is sent.
unfoldable pub serve :
    (ℕ → Option String)
    → (String → ℕ)
    → List Listener
    → ServerStateDs
    → Timespec
    → Timespec
    → Stamped
    → Message
    → Option TlvHdr
    → SockAddr
    → SockAddr
    → TimestampLevel
    → Option Timespec
    → List Request
    → List Request × List Sent
serve interface_of clock_id_of listeners ds now real stamped msg hdr src dst level timestamp
      requests =
    let r = obtain_request now msg hdr src dst level timestamp requests in
    (
      r.0,
      elim r.1 [
        | none ↦ []
        | some q ↦
            if server.complete q
            then process_request interface_of clock_id_of listeners ds real stamped q
            else []
      ],
    )
