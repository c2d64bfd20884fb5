-- ===== src/Client/Request.antt =====
-- What a client's server object sends: the middle of the loop of `Server::threadFunc`
-- (src/flashptp/client/server.cpp). What `network::send` makes of a message is an argument.
use flashptpd.Prelude.{
  ℕ, ◌+◌, ◌-◌, Bool, false, not, if◌then◌else◌, List, [], ◌∷◌, ◌++◌, Option, none, some, length,
}
use flashptpd.Wire.Timestamp.{Timespec}
use flashptpd.Wire.Tlv.{message_size, req_tx_prepare}
use flashptpd.Wire.Message.{Message, new_message, write_message, sync, follow_up}
use flashptpd.Client.Sequence.{Sequence, TimestampLevel, new_sequence}
use flashptpd.ServerMode.Respond.{Stamped, is_hardware}
use flashptpd.Config.{to_unsigned}
use flashptpd.Config.Names.{Version}
use flashptpd.Config.Peers.{Peer}

-- The enumerators' numbers, which the message carries.
abbrev pub version_number : Version → ℕ
version_number Version.invalid = 0
version_number Version.v1 = 1
version_number Version.v2_0 = 2
version_number Version.v2_1 = 0x12

-- `sizeof(buf) - sizeof(*ptp)`
abbrev pub req_buffer : ℕ
req_buffer = 1024 - message_size

-- `requestServerStateDS ? FLASH_PTP_FLAG_SERVER_STATE_DS : 0`
abbrev pub request_flags : Bool → ℕ
request_flags wants_ds = if wants_ds then 1 else 0

module _ {F : Type 0} (p : Peer F) where
  -- The Sync Request and the Follow Up Request, with a TLV of `len` bytes on one of them.
  unfoldable pub sync_request : ℕ → ℕ → Message
  sync_request id len =
      record (new_message (version_number p.ptp_version) sync
        (if p.sync_tlv then message_size + len else message_size) (not p.one_step)) {
          seq_id = id;
          log_msg_period = to_unsigned 8 p.interval;
        }

  unfoldable pub follow_up_request : TimestampLevel → ℕ → ℕ → Message
  follow_up_request level id len =
      record (new_message (version_number p.ptp_version) follow_up
        (if p.sync_tlv then message_size else message_size + len) false) {
          seq_id = id;
          log_msg_period = to_unsigned 8 p.interval;
          flags1 = if is_hardware level then 8 else 0;
        }

  -- The sequence that is stored.
  unfoldable pub sequence_of : Timespec → ℕ → Bool → TimestampLevel → Timespec → Sequence
  sequence_of now id wants_ds level at = new_sequence now p.ms_timeout id level at wants_ds

  -- One request: the bytes of the messages that are sent, and the sequence, if one is stored. `stamped`
  -- is what `send` returns for the Sync, `followed` for the Follow Up.
  unfoldable pub send_tlv :
      Timespec → ℕ → Bool → Stamped → Bool → List ℕ → List (List ℕ) × Option Sequence
  send_tlv now id wants_ds stamped followed tlv =
      let first =
        write_message (sync_request id (length tlv)) ++ (if p.sync_tlv then tlv else []) in
      elim stamped [
        | none ↦ (first ∷ [], none)
        | some (level, at) ↦
            let s = sequence_of now id wants_ds level at in
            if p.one_step then (first ∷ [], some s) else (
              first
                  ∷ (write_message (follow_up_request level id (length tlv))
                      ++ (if p.sync_tlv then [] else tlv))
                  ∷ [],
              if followed then some s else none,
            )
      ]

  -- The buffer is large enough for every TLV.
  unfoldable pub send_request :
      Timespec → ℕ → Bool → Stamped → Bool → List (List ℕ) × Option Sequence
  send_request now id wants_ds stamped followed =
      elim (req_tx_prepare req_buffer (request_flags wants_ds)) [
        | none ↦ ([], none)
        | some tlv ↦ send_tlv now id wants_ds stamped followed tlv
      ]
