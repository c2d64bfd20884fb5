-- ===== src/Client/Server/Invariant.antt =====
-- What every method of class `Server` keeps (src/flashptp/client/server.cpp).
use flashptpd.Prelude.{
  ℕ, ◌%◌, ◌^◌, ◌≡◌, ◌≤◌, ◌<◌, inl, inr, ◌==◌, leb, List, [], ◌∷◌, arith, Bool-cases, length,
  length-set, All, ◌∙◌,
}
use flashptpd.Prelude.Int.{pos, max_ℤ}
use flashptpd.Prelude.Doubles.{Doubles}
use flashptpd.Client.Sequence.{Sequence}
use flashptpd.Calculation.Keeps.{
  HasWindow, insert-HasWindow, calculate-HasWindow, reset-HasWindow, remove-HasWindow,
}
use flashptpd.Client.Server.{
  Server, some_filled, history_sum, error_limit, next_index, history_size, calc_std_dev, enter,
  evaluate, note_ds, take_in, on_sequence_complete, lose, thin_out, shift_zero, shift_one,
  clear_errors, blank_entry, on_sequence_timeout,
}
use flashptpd.Client.Server.Filters.{IsFilter, run_filters-IsFilter, clear_filters-IsFilter}

module _ (D : Doubles) where
  open D use {Double}

  -- What holds of a server between two calls.
  pub record IsServer (srv : Server Double) : Type 0 where
    pub reach16 : srv.reach < 2 ^ 16
    pub errors : srv.error_count ≤ error_limit
    pub filters_ : All IsFilter srv.filters
    pub calculation_ : HasWindow D srv.calculation
    pub history : length srv.std_dev_history ≡ history_size
    pub index : srv.std_dev_index < history_size

  pub calc_std_dev-IsServer : (srv : Server Double) → IsServer srv → IsServer (calc_std_dev D srv)
  unfolding calc_std_dev
  calc_std_dev-IsServer srv h =
      let cnt = (history_sum D srv.std_dev_history (D.of_int (pos 0)) 0).1 in
      elim (Bool-cases (leb cnt 1)) [
        | inl e ↦ rw e (record {
          reach16 = h.reach16;
          errors = h.errors;
          filters_ = h.filters_;
          calculation_ = h.calculation_;
          history = h.history;
          index = h.index;
        })
        | inr e ↦ rw e (record {
          reach16 = h.reach16;
          errors = h.errors;
          filters_ = h.filters_;
          calculation_ = h.calculation_;
          history = h.history;
          index = h.index;
        })
      ]

  next_index-lt : (i : ℕ) → i < history_size → next_index i < history_size
  next_index-lt i h = ground arith

  enter-IsServer :
      (seqs : List Sequence) (srv : Server Double) → IsServer srv → IsServer (enter D seqs srv)
  unfolding enter
  enter-IsServer [] srv h = h
  enter-IsServer (s ∷ seqs) srv h = enter-IsServer seqs _ (record {
    reach16 = h.reach16;
    errors = h.errors;
    filters_ = h.filters_;
    calculation_ = insert-HasWindow D s srv.calculation h.calculation_;
    history = length-set srv.std_dev_history srv.std_dev_index s.offset ∙ h.history;
    index = next_index-lt srv.std_dev_index h.index;
  })

  evaluate-IsServer : (srv : Server Double) → IsServer srv → IsServer (evaluate D srv)
  unfolding evaluate
  evaluate-IsServer srv h =
      let k = calc_std_dev-IsServer srv h in
      record {
        reach16 = k.reach16;
        errors = k.errors;
        filters_ = k.filters_;
        calculation_ = calculate-HasWindow D (calc_std_dev D srv).calculation k.calculation_;
        history = k.history;
        index = k.index;
      }

  take_in-IsServer :
      (seqs : List Sequence) (srv : Server Double) → IsServer srv → IsServer (take_in D seqs srv)
  unfolding take_in
  take_in-IsServer [] srv h = h
  take_in-IsServer (s ∷ seqs) srv h = evaluate-IsServer _ (enter-IsServer (s ∷ seqs) srv h)

  note_ds-keeps :
      (seq : Sequence) (srv : Server Double) → IsServer srv → IsServer (note_ds D seq srv)
  unfolding note_ds
  note_ds-keeps seq srv h = elim (Bool-cases seq.server_state_ds_requested) [
    | inl e ↦ rw e (record {
      reach16 = h.reach16;
      errors = h.errors;
      filters_ = h.filters_;
      calculation_ = h.calculation_;
      history = h.history;
      index = h.index;
    })
    | inr e ↦ rw e h
  ]

  -- A completed sequence, whatever the filters make of it, keeps the invariant.
  pub on_sequence_complete-IsServer :
      (sort : List Sequence → List Sequence) (seq : Sequence) (srv : Server Double)
      → IsServer srv
      → IsServer (on_sequence_complete D sort seq srv)
  unfolding on_sequence_complete
  on_sequence_complete-IsServer sort seq srv h =
      let noted : Server Double = note_ds D seq (clear_errors D (shift_one D srv)) in
      let k : IsServer noted = note_ds-keeps seq (clear_errors D (shift_one D srv)) (record {
        reach16 = omega arith;
        errors = omega arith;
        filters_ = h.filters_;
        calculation_ = h.calculation_;
        history = h.history;
        index = h.index;
      }) in
      take_in-IsServer _ _ (record {
        reach16 = k.reach16;
        errors = k.errors;
        filters_ = run_filters-IsFilter sort noted.filters (seq ∷ []) k.filters_;
        calculation_ = k.calculation_;
        history = k.history;
        index = k.index;
      })

  lose-IsServer : (srv : Server Double) → IsServer srv → IsServer (lose D srv)
  unfolding lose
  lose-IsServer srv h = elim (Bool-cases (srv.reach == 0)) [
    | inl e ↦ rw e (record {
      reach16 = h.reach16;
      errors = h.errors;
      filters_ = h.filters_;
      calculation_ = reset-HasWindow D srv.calculation h.calculation_;
      history = h.history;
      index = h.index;
    })
    | inr e ↦ rw e h
  ]

  thin_out-IsServer : (srv : Server Double) → IsServer srv → IsServer (thin_out D srv)
  unfolding thin_out
  thin_out-IsServer srv h =
      let removed = remove-HasWindow D srv.calculation h.calculation_ in
      elim (Bool-cases (srv.reach % 2 ^ 4 == 0)) [
        | inl e ↦ rw e (record {
          reach16 = h.reach16;
          errors = h.errors;
          filters_ = clear_filters-IsFilter srv.filters h.filters_;
          calculation_ = elim (Bool-cases (some_filled srv.filters)) [
            | inl p ↦ rw p h.calculation_
            | inr p ↦ rw p removed
          ];
          history = h.history;
          index = h.index;
        })
        | inr e ↦ rw e (record {
          reach16 = h.reach16;
          errors = h.errors;
          filters_ = h.filters_;
          calculation_ = removed;
          history = h.history;
          index = h.index;
        })
      ]

  pub on_sequence_timeout-IsServer :
      (seq : Sequence) (srv : Server Double)
      → IsServer srv
      → IsServer (on_sequence_timeout D seq srv)
  unfolding on_sequence_timeout
  on_sequence_timeout-IsServer seq srv h =
      let k = thin_out-IsServer _ (
        lose-IsServer (shift_zero D seq srv) (record {
          reach16 = omega arith;
          errors = omega arith;
          filters_ = h.filters_;
          calculation_ = h.calculation_;
          history = h.history;
          index = h.index;
        })) in
      let thinned : Server Double = thin_out D (lose D (shift_zero D seq srv)) in
      calc_std_dev-IsServer (blank_entry D thinned) (record {
        reach16 = k.reach16;
        errors = k.errors;
        filters_ = k.filters_;
        calculation_ = k.calculation_;
        history = length-set thinned.std_dev_history thinned.std_dev_index max_ℤ ∙ k.history;
        index = next_index-lt thinned.std_dev_index k.index;
      })
