-- ===== src/Client/Server.antt =====
-- A server the client asks: class `Server` (include/flashptp/client/server.h and
-- src/flashptp/client/server.cpp). What only logs or prints is left out, and so are the addresses;
-- `sort` is the `std::sort` that the filters call.
pub mod Filters
pub mod Invariant
pub mod Timeouts
pub mod Errors
pub mod Messages
use flashptpd.Prelude.{
  ℕ, zero, suc, ◌+◌, ◌*◌, ◌%◌, ◌^◌, Bool, true, false, not, ◌&&◌, ◌==◌, ltb, leb, if◌then◌else◌,
  List, [], ◌∷◌, ◌++◌, Option, none, some, length, set, replicate,
}
use flashptpd.Prelude.Int.{ℤ, pos, negsuc, ◌-ℤ◌, max_ℤ, eqb_ℤ}
use flashptpd.Prelude.Doubles.{Doubles}
use flashptpd.Wire.Timestamp.{Timespec}
use flashptpd.Wire.Tlv.{ServerStateDs, RespTlv}
use flashptpd.Wire.Message.{Message, sync, follow_up}
use flashptpd.Client.Sequence.{
  Sequence, TimestampLevel, timed_out, has, complete, merge, finish, has_error,
}
use flashptpd.Filter as filters
use flashptpd.Filter.{Filter, full, filter}
use flashptpd.Calculation as calculations
use flashptpd.Calculation.{Calculation, fully_loaded, calculate, reset, remove}

pub data ServerState : Type 0 where
  initializing unreachable faulty collecting ready falseticker candidate selected : ServerState

-- The numbers of the enumerators.
abbrev pub state_number : ServerState → ℕ
state_number ServerState.initializing = 0
state_number ServerState.unreachable = 1
state_number ServerState.faulty = 2
state_number ServerState.collecting = 3
state_number ServerState.ready = 4
state_number ServerState.falseticker = 5
state_number ServerState.candidate = 6
state_number ServerState.selected = 7

abbrev pub error_limit : ℕ
error_limit = 3

abbrev pub history_size : ℕ
history_size = 16

pub record Server (F : Type 0) : Type 0 where
  pub no_select : Bool
  pub filters : List Filter
  pub calculation : Calculation F
  pub state : ServerState
  -- `uint16_t`, the last outcome in the lowest bit
  pub reach : ℕ
  pub error_count : ℕ
  pub server_state_ds_valid : Bool
  pub server_state_ds : ServerStateDs
  pub clock_name : List ℕ
  pub clock_id : ℤ
  pub sequences : List Sequence
  -- `INT64_MAX`, `max_ℤ`, marks an entry without offset
  pub std_dev_history : List ℤ
  pub std_dev_index : ℕ
  pub std_dev : ℤ

-- The loop of `onSequenceComplete` that feeds one filter.
unfoldable pub feed :
    (List Sequence → List Sequence)
    → Filter
    → List Sequence
    → List Sequence
    → Filter × List Sequence
feed sort f [] next = (f, next)
feed sort f (s ∷ seqs) next =
    let g = filters.insert s f in
    let r = if full g then filter sort g.type_ g next else (g, next) in feed sort r.0 seqs r.1

-- The loop over the filters: each is fed what the one before it let pass.
unfoldable pub run_filters :
    (List Sequence → List Sequence) → List Filter → List Sequence → List Filter × List Sequence
run_filters sort [] seqs = ([], seqs)
run_filters sort (f ∷ fs) seqs =
    let r = feed sort f seqs [] in let rest = run_filters sort fs r.1 in (r.0 ∷ rest.0, rest.1)

-- `if (++_stdDevIndex == …) _stdDevIndex = 0`
abbrev pub next_index : ℕ → ℕ
next_index i = if i + 1 == history_size then 0 else i + 1

unfoldable pub clear_filters : List Filter → List Filter
clear_filters [] = []
clear_filters (f ∷ fs) = (if filters.empty f then f else filters.clear f) ∷ clear_filters fs

-- `onSequenceTimeout` clears a filter, so that the calculation's entry stays.
unfoldable pub some_filled : List Filter → Bool
some_filled [] = false
some_filled (f ∷ fs) = if filters.empty f then some_filled fs else true

-- The message is one that the sequence still waits for.
unfoldable pub is_awaited : Message → Sequence → Bool
is_awaited msg s =
    if msg.msg_type == sync
    then not (has s.t4)
    else if msg.msg_type == follow_up
    then not (has s.t3)
    else false

module _ (D : Doubles) where
  open D use {Double, of_int, to_int, add, sub, div, square, sqrt}

  -- The two loops of `calcStdDev`.
  unfoldable pub history_sum : List ℤ → Double → ℕ → Double × ℕ
  history_sum [] mean cnt = (mean, cnt)
  history_sum (h ∷ hs) mean cnt =
      if eqb_ℤ h max_ℤ
      then history_sum hs mean cnt
      else history_sum hs (add mean (of_int h)) (cnt + 1)

  unfoldable pub history_var : List ℤ → Double → Double → Double
  history_var [] mean var = var
  history_var (h ∷ hs) mean var =
      if eqb_ℤ h max_ℤ
      then history_var hs mean var
      else history_var hs mean (add var (square (sub (of_int h) mean)))

  unfoldable pub calc_std_dev : Server Double → Server Double
  unfolding history_sum history_var
  calc_std_dev srv =
      let (total, cnt) = history_sum srv.std_dev_history (of_int (pos 0)) 0 in
      let mean = div total (of_int (pos cnt)) in
      if leb cnt 1
      then record srv { std_dev = max_ℤ }
      else (let var = history_var srv.std_dev_history mean (of_int (pos 0)) in
          record srv { std_dev = to_int (sqrt (div var (of_int (pos cnt -ℤ pos 1)))) })

  -- The loop that enters what has passed the filters.
  unfoldable pub enter : List Sequence → Server Double → Server Double
  enter [] srv = srv
  enter (s ∷ seqs) srv = enter seqs (record srv {
    std_dev_history = set srv.std_dev_history srv.std_dev_index s.offset;
    std_dev_index = next_index srv.std_dev_index;
    calculation = calculations.insert s srv.calculation;
  })

  -- The end of `onSequenceComplete`: calculate, and raise the state.
  unfoldable pub evaluate : Server Double → Server Double
  evaluate srv =
      let s = calc_std_dev srv in
      let c = calculate D s.calculation in
      record s {
        calculation = c;
        state =
            if fully_loaded c
            then if ltb (state_number s.state) 4 then ServerState.ready else s.state
            else if ltb (state_number s.state) 3
            then ServerState.collecting
            else s.state;
      }

  unfoldable pub note_ds : Sequence → Server Double → Server Double
  note_ds seq srv =
      if seq.server_state_ds_requested
      then record srv {
        server_state_ds_valid = seq.server_state_ds_valid;
        server_state_ds =
            if seq.server_state_ds_valid then seq.server_state_ds else srv.server_state_ds;
      }
      else srv

  -- `_reach <<= 1; _reach |= 1;`
  abbrev pub shift_one : Server Double → Server Double
  shift_one srv = record srv { reach = (srv.reach * 2) % 2 ^ 16 + 1 }

  abbrev pub clear_errors : Server Double → Server Double
  clear_errors srv = record srv { error_count = 0 }

  -- What `onSequenceComplete` does with the sequences that have passed the filters.
  unfoldable pub take_in : List Sequence → Server Double → Server Double
  take_in [] srv = srv
  take_in (s ∷ seqs) srv = evaluate (enter (s ∷ seqs) srv)

  -- `onSequenceComplete`
  unfoldable pub on_sequence_complete :
      (List Sequence → List Sequence) → Sequence → Server Double → Server Double
  on_sequence_complete sort seq srv =
      let noted = note_ds seq (clear_errors (shift_one srv)) in
      let r = run_filters sort noted.filters (seq ∷ []) in
      take_in r.1 (record noted { filters = r.0 })

  -- `if (_reach == 0)`: the server is lost.
  unfoldable pub lose : Server Double → Server Double
  lose srv =
      if srv.reach == 0
      then record srv {
        state = ServerState.unreachable;
        calculation = reset D srv.calculation;
        server_state_ds_valid = false;
      }
      else srv

  -- The four lowest bits of `_reach` are 0: the filters are cleared, and only where all were empty the
  -- calculation loses an entry.
  unfoldable pub thin_out : Server Double → Server Double
  thin_out srv =
      if srv.reach % 2 ^ 4 == 0
      then record srv {
        filters = clear_filters srv.filters;
        calculation = if some_filled srv.filters then srv.calculation else remove D srv.calculation;
      }
      else record srv { calculation = remove D srv.calculation }

  -- The start of `onSequenceTimeout`.
  abbrev pub shift_zero : Sequence → Server Double → Server Double
  shift_zero seq srv = record srv {
    reach = (srv.reach * 2) % 2 ^ 16;
    error_count = 0;
    server_state_ds_valid =
        if seq.server_state_ds_requested then false else srv.server_state_ds_valid;
  }

  -- `_stdDevHistory[_stdDevIndex] = INT64_MAX`, and the next index.
  abbrev pub blank_entry : Server Double → Server Double
  blank_entry srv = record srv {
    std_dev_history = set srv.std_dev_history srv.std_dev_index max_ℤ;
    std_dev_index = next_index srv.std_dev_index;
  }

  -- `onSequenceTimeout`
  unfoldable pub on_sequence_timeout : Sequence → Server Double → Server Double
  on_sequence_timeout seq srv = calc_std_dev (blank_entry (thin_out (lose (shift_zero seq srv))))

  -- `onSequenceError`
  unfoldable pub on_sequence_error : Server Double → Server Double
  on_sequence_error srv =
      let reached = shift_one srv in
      if state_number reached.state == 2
      then reached
      else if ltb reached.error_count error_limit
      then record reached { error_count = reached.error_count + 1 }
      else record reached {
        state = ServerState.faulty;
        filters = clear_filters reached.filters;
        calculation = reset D reached.calculation;
        std_dev_history = replicate history_size max_ℤ;
        std_dev_index = 0;
        std_dev = max_ℤ;
      }

  -- `resetState()`
  unfoldable pub reset_state : Server Double → Server Double
  reset_state srv = record srv {
    calculation = reset D srv.calculation;
    state = ServerState.initializing;
    reach = 0;
    error_count = 0;
    server_state_ds_valid = false;
    clock_name = [];
    clock_id = negsuc 0;
    sequences = [];
    std_dev_history = replicate history_size max_ℤ;
    std_dev_index = 0;
    std_dev = max_ℤ;
  }

  -- The loop of `checkSequenceTimeouts`: `done` are the sequences that stay.
  unfoldable pub sweep : Timespec → List Sequence → List Sequence → Server Double → Server Double
  sweep now done [] srv = record srv { sequences = done }
  sweep now done (s ∷ rest) srv =
      let t = timed_out now s in
      elim t.1 [
        | true ↦ sweep now done rest (on_sequence_timeout t.0 srv)
        | false ↦ sweep now (done ++ t.0 ∷ []) rest srv
      ]

  -- `checkSequenceTimeouts()` at the time `now`.
  unfoldable pub check_sequence_timeouts : Timespec → Server Double → Server Double
  check_sequence_timeouts now srv = sweep now [] srv.sequences srv

  -- What becomes of a complete sequence.
  unfoldable pub conclude :
      (List Sequence → List Sequence) → Sequence → Server Double → Server Double
  conclude sort s srv =
      if has_error s then on_sequence_error srv else on_sequence_complete sort s srv

  -- The loop of `processMessage`: the sequences before `rest` are `done`. After a completed sequence
  -- the loop goes on, but `++i` passes over the one that has moved to its place: `skip`.
  unfoldable pub scan :
      (List Sequence → List Sequence)
      → Timespec
      → Message
      → Option RespTlv
      → TimestampLevel
      → Option Timespec
      → Bool
      → List Sequence
      → List Sequence
      → Server Double
      → Server Double
  scan sort now msg tlv level timestamp skip done [] srv = record srv { sequences = done }
  scan sort now msg tlv level timestamp true done (s ∷ rest) srv =
      scan sort now msg tlv level timestamp false (done ++ s ∷ []) rest srv
  scan sort now msg tlv level timestamp false done (s ∷ rest) srv =
      let t = timed_out now s in
      let m = complete (merge msg tlv level timestamp t.0) in
      elim (s.sequence_id == msg.seq_id) [
        | false ↦ scan sort now msg tlv level timestamp false (done ++ s ∷ []) rest srv
        | true ↦ elim t.1 [
          | true ↦ on_sequence_timeout t.0 (record srv { sequences = done ++ rest })
          | false ↦ elim (is_awaited msg t.0) [
            | false ↦ record srv { sequences = done ++ t.0 ∷ rest }
            | true ↦ elim m.1 [
              | false ↦ record srv { sequences = done ++ m.0 ∷ rest }
              | true ↦
                  scan sort now msg tlv level timestamp true done rest
                    (conclude sort (finish m.0) srv)
            ]
          ]
        ]
      ]

  -- `processMessage`, which returns a null pointer on every path.
  unfoldable pub process_message :
      (List Sequence → List Sequence)
      → Timespec
      → Message
      → Option RespTlv
      → TimestampLevel
      → Option Timespec
      → Server Double
      → Server Double
  process_message sort now msg tlv level timestamp srv =
      scan sort now msg tlv level timestamp false [] srv.sequences srv
