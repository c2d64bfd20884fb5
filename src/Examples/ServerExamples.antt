-- ===== src/Examples/ServerExamples.antt =====
-- The theorems on a server that a client asks, at concrete inputs.
use flashptpd.Prelude.{◌≡◌, refl, false, List, [], ◌∷◌, none, arith, replicate}
use flashptpd.Prelude.Int.{ℤ, negsuc, max_ℤ}
use flashptpd.Wire.Tlv.{zero_ds}
use flashptpd.Wire.Message.{Message, new_message}
use flashptpd.Client.Sequence.{Sequence, TimestampLevel}
use flashptpd.Filter.{Filter}
use flashptpd.Window.Laws.{IsWindow-nil}
use flashptpd.Client.Server.{Server, ServerState, process_message}
use flashptpd.Client.Server.Invariant.{IsServer}
use flashptpd.Client.Server.Messages.{process_message-IsServer}
use flashptpd.Client.Server.Timeouts.{time_out_all, IsLost, time_out_all-IsLost}
use flashptpd.Examples.Integers.{integers}
use flashptpd.Examples.Sorting.{insertion_sort}
use flashptpd.Examples.ClientExamples.{at, request, lucky, mean, window-IsWindow}
open insertion_sort use {sort}

abbrev pub lucky_packet : Filter
lucky_packet = record lucky { unfiltered = [] }

abbrev pub server : Server ℤ
server = record {
  no_select = false;
  filters = lucky_packet ∷ [];
  calculation = mean;
  state = ServerState.ready;
  reach = 0xffff;
  error_count = 0;
  server_state_ds_valid = false;
  server_state_ds = zero_ds;
  clock_name = [];
  clock_id = negsuc 0;
  sequences = request ∷ [];
  std_dev_history = replicate 16 max_ℤ;
  std_dev_index = 0;
  std_dev = max_ℤ;
}

server-IsServer : IsServer integers server
server-IsServer = record {
  reach16 = omega arith;
  errors = omega arith;
  filters_ =
      (record { real = λ e. cc; window = IsWindow-nil 3 (omega arith); waits = omega arith }, tt);
  calculation_ = window-IsWindow;
  history = refl;
  index = omega arith;
}

abbrev answer : Message
answer = record (new_message 2 8 44 false) { seq_id = 7 }

process_message-IsServer_example :
    IsServer integers
      (process_message integers sort (at 100) answer none TimestampLevel.invalid none server)
process_message-IsServer_example =
    process_message-IsServer integers sort (at 100) answer none TimestampLevel.invalid none server
      server-IsServer

abbrev lost : List Sequence
lost = replicate 16 request

time_out_all-IsLost_example :
    ((time_out_all integers lost server).reach ≡ 0)
    × IsLost integers (time_out_all integers lost server)
time_out_all-IsLost_example = time_out_all-IsLost integers lost server (omega arith) (omega arith)
