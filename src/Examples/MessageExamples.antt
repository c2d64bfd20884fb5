-- ===== src/Examples/MessageExamples.antt =====
-- The theorems on the sending and receiving of messages, at concrete inputs.
use flashptpd.Prelude.{ℕ, ◌≡◌, refl, inl, true, List, [], ◌∷◌, ◌++◌, none, some, arith}
use flashptpd.Prelude.Texts.{same_codes}
use flashptpd.Wire.Message.{Message, IsMessage, new_message, read_message, write_message}
use flashptpd.Client.Sequence.{TimestampLevel}
use flashptpd.Network.Address.{Family, new_address}
use flashptpd.Network.Interface.{Socket, Opening, timestamp_level}
use flashptpd.Network.Inventory.{find_interface}
use flashptpd.Network.Send.{Answers, identify, send_on, send}
use flashptpd.Network.Send.Stamped.{IsWithin, send-IsWithin}
use flashptpd.Network.Recv.{Ready, delivered, receive, is_ours}
use flashptpd.Network.Recv.Accepted.{Carries, new_message-IsOurs, receive-send_on}
use flashptpd.Examples.ClientExamples.{at}
use flashptpd.Examples.NetworkExamples.{ntop, eth0, host, link, known, listened, link-IsSound}

abbrev answers : Answers
answers = record {
  opening = Opening.opened 8;
  now = at 5;
  later = some (at 6);
  accepted = true;
  polls = [];
}

abbrev sync_message : Message
sync_message = new_message 2 0 44 true

sync_message-IsMessage : IsMessage sync_message
unfolding new_message
sync_message-IsMessage = omega arith

-- The socket of the interface.
abbrev event_socket : Socket
event_socket = record {
  family = Family.ip4;
  timestamp_level = TimestampLevel.hardware;
  src_port = 319;
  fd = some 7;
  is_open = true;
}

abbrev sent_bytes : List ℕ
sent_bytes = write_message (identify link sync_message) ++ []

receive-send_on_example :
    (n : Message) × Carries link (at 5) TimestampLevel.invalid sync_message n
    × (read_message sent_bytes ≡ some (n, []))
    × (receive (at 7) listened (Ready.message sent_bytes host [])
        ≡ some (delivered (at 7) listened sent_bytes host []))
unfolding send_on is_ours new_message new_address
receive-send_on_example =
    receive-send_on answers sync_message [] none link (link ∷ []) (link ∷ []) event_socket
      event_socket sent_bytes none (at 7) listened host []
      (omega arith, (omega arith, (omega arith, (omega arith, (omega arith, (omega arith, tt))))))
      sync_message-IsMessage (new_message-IsOurs 2 0 44 true (inl refl)) refl

send-IsWithin_example : IsWithin (timestamp_level link) (
    send answers sync_message [] eth0 319
      (new_address ntop host none)
      319
      (some (TimestampLevel.hardware, at 0))
      known)
unfolding find_interface same_codes
send-IsWithin_example =
    send-IsWithin answers (at 6) sync_message [] eth0 319 (new_address ntop host none) 319
      TimestampLevel.hardware (at 0) known link refl refl link-IsSound.limited
