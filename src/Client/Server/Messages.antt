-- ===== src/Client/Server/Messages.antt =====
-- Messages and the clock keep a server's invariant (src/flashptp/client/server.cpp).
use flashptpd.Prelude.{
  inl, inr, Bool, true, false, ◌==◌, ltb, List, [], ◌∷◌, ◌++◌, arith, Bool-cases, length-replicate,
  Option, ltb→lt,
}
use flashptpd.Prelude.Int.{max_ℤ}
use flashptpd.Prelude.Doubles.{Doubles}
use flashptpd.Wire.Timestamp.{Timespec}
use flashptpd.Wire.Tlv.{RespTlv}
use flashptpd.Wire.Message.{Message}
use flashptpd.Client.Sequence.{
  Sequence, TimestampLevel, timed_out, complete, merge, finish, has_error,
}
use flashptpd.Calculation.Keeps.{reset-HasWindow}
use flashptpd.Client.Server.{
  Server, error_limit, history_size, shift_one, on_sequence_error, reset_state,
}
use flashptpd.Client.Server.{
  conclude, scan, sweep, is_awaited, process_message, check_sequence_timeouts, error_limit,
  state_number,
}
use flashptpd.Client.Server.Filters.{clear_filters-IsFilter}
use flashptpd.Client.Server.Invariant.{
  IsServer, on_sequence_complete-IsServer, on_sequence_timeout-IsServer,
}
use flashptpd.Calculation.Keeps.{reset-HasWindow}

module _ (D : Doubles) where
  open D use {Double}

  IsServer-shift : (srv : Server Double) → IsServer D srv → IsServer D (shift_one D srv)
  IsServer-shift srv h = record {
    reach16 = omega arith;
    errors = h.errors;
    filters_ = h.filters_;
    calculation_ = h.calculation_;
    history = h.history;
    index = h.index;
  }

  IsServer-sequences :
      (xs : List Sequence) (srv : Server Double)
      → IsServer D srv
      → IsServer D (record srv { sequences = xs })
  IsServer-sequences xs srv h = record {
    reach16 = h.reach16;
    errors = h.errors;
    filters_ = h.filters_;
    calculation_ = h.calculation_;
    history = h.history;
    index = h.index;
  }

  on_sequence_error-IsServer :
      (srv : Server Double) → IsServer D srv → IsServer D (on_sequence_error D srv)
  unfolding on_sequence_error
  on_sequence_error-IsServer srv h = elim (Bool-cases (state_number srv.state == 2)) [
    | inl e ↦ rw e (IsServer-shift srv h)
    | inr e ↦ elim (Bool-cases (ltb srv.error_count error_limit)) [
      | inl l ↦
          rw (e, l)
            (record {
              reach16 = omega arith;
              errors = omega (arith, ltb→lt _ _ l);
              filters_ = h.filters_;
              calculation_ = h.calculation_;
              history = h.history;
              index = h.index;
            })
      | inr l ↦
          rw (e, l)
            (record {
              reach16 = omega arith;
              errors = h.errors;
              filters_ = clear_filters-IsFilter srv.filters h.filters_;
              calculation_ = reset-HasWindow D srv.calculation h.calculation_;
              history = length-replicate history_size max_ℤ;
              index = omega arith;
            })
    ]
  ]

  pub reset_state-IsServer : (srv : Server Double) → IsServer D srv → IsServer D (reset_state D srv)
  unfolding reset_state
  reset_state-IsServer srv h = record {
    reach16 = omega arith;
    errors = omega arith;
    filters_ = h.filters_;
    calculation_ = reset-HasWindow D srv.calculation h.calculation_;
    history = length-replicate history_size max_ℤ;
    index = omega arith;
  }

  conclude-IsServer :
      (sort : List Sequence → List Sequence) (s : Sequence) (srv : Server Double)
      → IsServer D srv
      → IsServer D (conclude D sort s srv)
  unfolding conclude
  conclude-IsServer sort s srv h = elim (Bool-cases (has_error s)) [
    | inl e ↦ rw e (on_sequence_error-IsServer srv h)
    | inr e ↦ rw e (on_sequence_complete-IsServer D sort s srv h)
  ]

  sweep-IsServer :
      (now : Timespec) (rest done : List Sequence) (srv : Server Double)
      → IsServer D srv
      → IsServer D (sweep D now done rest srv)
  unfolding sweep
  sweep-IsServer now [] done srv h = IsServer-sequences done srv h
  sweep-IsServer now (s ∷ rest) done srv h = elim (Bool-cases (timed_out now s).1) [
    | inl e ↦
        rw (e, sweep)
          (sweep-IsServer now rest done _
            (on_sequence_timeout-IsServer D (timed_out now s).0 srv h))
    | inr e ↦ rw (e, sweep) (sweep-IsServer now rest (done ++ (timed_out now s).0 ∷ []) srv h)
  ]

  -- The check for timeouts keeps a server's invariant at any time of the clock, however many of its
  -- sequences are late.
  check_sequence_timeouts-IsServer :
      (now : Timespec) (srv : Server Double)
      → IsServer D srv
      → IsServer D (check_sequence_timeouts D now srv)
  unfolding check_sequence_timeouts
  check_sequence_timeouts-IsServer now srv h = sweep-IsServer now srv.sequences [] srv h

  module _ (sort : List Sequence → List Sequence) (now : Timespec) (msg : Message)
      (tlv : Option RespTlv) (level : TimestampLevel) (timestamp : Option Timespec) where
    scan-IsServer :
        (skip : Bool) (rest done : List Sequence) (srv : Server Double)
        → IsServer D srv
        → IsServer D (scan D sort now msg tlv level timestamp skip done rest srv)
    unfolding scan
    scan-IsServer true [] done srv h = IsServer-sequences done srv h
    scan-IsServer false [] done srv h = IsServer-sequences done srv h
    scan-IsServer true (s ∷ rest) done srv h = scan-IsServer false rest (done ++ s ∷ []) srv h
    scan-IsServer false (s ∷ rest) done srv h =
        let t = timed_out now s in
        let m = complete (merge msg tlv level timestamp t.0) in
        elim (Bool-cases (s.sequence_id == msg.seq_id)) [
          | inr e ↦ rw (e, scan) (scan-IsServer false rest (done ++ s ∷ []) srv h)
          | inl e ↦ elim (Bool-cases t.1) [
            | inl late ↦
                rw (e, scan)
                  (rw (late) (
                    on_sequence_timeout-IsServer D t.0 _ (IsServer-sequences (done ++ rest) srv h)))
            | inr late ↦ elim (Bool-cases (is_awaited msg t.0)) [
              | inr w ↦
                  rw (e, scan) (rw (late) (rw w (IsServer-sequences (done ++ t.0 ∷ rest) srv h)))
              | inl w ↦ elim (Bool-cases m.1) [
                | inr c ↦
                    rw (e, scan)
                      (rw (late) (rw w (rw c (IsServer-sequences (done ++ m.0 ∷ rest) srv h))))
                | inl c ↦
                    rw (e, scan)
                      (rw (late) (
                        rw w (
                          rw c (
                            scan-IsServer true rest done _
                              (conclude-IsServer sort (finish m.0) srv h)))))
              ]
            ]
          ]
        ]

    -- Whatever message comes in, with whatever TLV and time stamp, a server keeps its invariant: reach
    -- within 16 bits, at most `ERROR_LIMIT` counted errors, no filter full or mixed, the calculation's
    -- window within its size, and a history of 16 entries with an index in it.
    pub process_message-IsServer :
        (srv : Server Double)
        → IsServer D srv
        → IsServer D (process_message D sort now msg tlv level timestamp srv)
    unfolding process_message
    process_message-IsServer srv h = scan-IsServer false srv.sequences [] srv h
