-- ===== src/Examples/ClientExamples.antt =====
-- The theorems on sequences, filters and calculations, at concrete inputs.
use flashptpd.Prelude.{
  ℕ, ◌-◌, ◌≡◌, ◌≤◌, ◌++◌, refl, inl, true, false, List, [], ◌∷◌, none, some, length, min, arith,
  All, Perm,
}
use flashptpd.Prelude.Int.{ℤ, pos, ◌+ℤ◌, ◌-ℤ◌, quot}
use flashptpd.Wire.Timestamp.{Timespec, Timestamp, seconds, nanos, zero_timestamp}
use flashptpd.Wire.Tlv.{zero_ds}
use flashptpd.Wire.Interval.{nanoseconds}
use flashptpd.Wire.Message.{Message, new_message}
use flashptpd.Client.Sequence.{Sequence, TimestampLevel, merge, finish, mean_path_delay}
use flashptpd.Client.Sequence.Finish.{finish_exact, finish_utc}
use flashptpd.Client.Sequence.Merge.{IsFresh, merge_comm}
use flashptpd.Window.Laws.{IsWindow}
use flashptpd.Filter.{Filter, FilterType, delay_of, lucky_filter, median_filter}
use flashptpd.Filter.Lucky.{IsPickable, lucky_filter-least}
use flashptpd.Filter.Lucky as lucky_laws
use flashptpd.Filter.Median.{median_filter-count}
use flashptpd.Calculation.{Calculation, CalculationType, arithmetic_mean_calculate}
use flashptpd.Calculation.Bounds.{IsMean, arithmetic_mean_calculate-IsMean}
use flashptpd.Examples.Integers.{integers}
use flashptpd.Examples.Sorting.{insertion_sort}

abbrev pub at : ℕ → Timespec
at n = record { tv_sec = 100; tv_nsec = n }

abbrev pub time : ℕ → Timestamp
time n = record { sec0 = 0; sec1 = 0; sec2 = 0; sec3 = 0; sec4 = 0; sec5 = 100; ns = n }

-- A request sent at 1000 ns past a full second.
abbrev pub request : Sequence
request = record {
  ts = at 0;
  timed_out_flag = false;
  complete_flag = false;
  sequence_id = 7;
  ms_timeout = 100;
  timestamp_level = TimestampLevel.hardware;
  t1 = time 1000;
  t2 = zero_timestamp;
  t2_correction = 0;
  t3 = zero_timestamp;
  t4 = zero_timestamp;
  sync_correction = 0;
  follow_up_correction = 0;
  t4_correction = 0;
  error = 0;
  utc_correction = pos 0;
  server_state_ds_requested = false;
  server_state_ds_valid = false;
  server_state_ds = zero_ds;
  c2s_delay = pos 0;
  s2c_delay = pos 0;
  offset = pos 0;
}

-- The server's clock is 30 ns ahead, and each way takes 50 ns.
abbrev pub answered : Sequence
answered = record request { t2 = time 1080; t3 = time 2030; t4 = time 2050 }

-- A finished sequence with an offset and a mean path delay.
abbrev pub measured : ℕ → ℕ → Sequence
measured offs delay = record request {
  offset = pos offs;
  c2s_delay = pos delay;
  s2c_delay = pos delay;
}

finish_exact_example :
    ((finish answered).offset ≡ pos 30) × (mean_path_delay (finish answered) ≡ pos 50)
unfolding nanos seconds nanoseconds ◌-ℤ◌ ◌+ℤ◌
finish_exact_example = finish_exact answered (pos 30) (pos 50) refl refl

finish_utc_example :
    let f = finish (record answered { utc_correction = pos 37 }) in
    (n : ℤ) × (f.offset ≡ quot n 2)
    × (f.c2s_delay -ℤ f.s2c_delay ≡ n -ℤ pos 37 -ℤ pos 37)
    × ((finish (record answered { utc_correction = pos 0 })).offset ≡ f.offset)
finish_utc_example = finish_utc (record answered { utc_correction = pos 37 }) (pos 0)

abbrev two_step_sync : Message
two_step_sync = new_message 2 0 44 true

abbrev follow_up_message : Message
follow_up_message = new_message 2 8 44 false

pub request-IsFresh : IsFresh request
request-IsFresh = record { incomplete = refl; no_t2 = refl; no_t3 = refl; no_t4 = refl }

merge_comm_example :
    merge follow_up_message none TimestampLevel.user
      (some (at 2060))
      (merge two_step_sync none TimestampLevel.hardware (some (at 2050)) request)
    ≡ merge two_step_sync none TimestampLevel.hardware
        (some (at 2050))
        (merge follow_up_message none TimestampLevel.user (some (at 2060)) request)
unfolding new_message
merge_comm_example =
    merge_comm two_step_sync follow_up_message TimestampLevel.hardware (at 2050) request refl refl
      refl refl request-IsFresh none none TimestampLevel.user (some (at 2060)) (inl refl)

abbrev pub window : List Sequence
window = measured 10 40 ∷ measured 30 20 ∷ measured 20 60 ∷ []

abbrev pub lucky : Filter
lucky = record { type_ = FilterType.lucky_packet; size = 3; pick = 2; unfiltered = window }

abbrev median : Filter
median = record { type_ = FilterType.median_offset; size = 3; pick = 1; unfiltered = window }

pub window-IsWindow : IsWindow 3 window
window-IsWindow = record {
  size_pos = omega arith;
  bounded = omega arith;
  level = TimestampLevel.hardware;
  uniform = (refl, (refl, (refl, tt)));
}

window-IsPickable : IsPickable window
unfolding delay_of mean_path_delay quot ◌+ℤ◌
window-IsPickable = (omega arith, (omega arith, (omega arith, tt)))

lucky_filter-least_example :
    (ps : List Sequence) × (rest : List Sequence) × (lucky_filter lucky []
      ≡ (record lucky { unfiltered = [] }, [] ++ ps))
    × Perm window (ps ++ rest)
    × (length ps ≡ min 2 3)
    × lucky_laws.IsAscending ps
    × All (λ p. All (λ q. delay_of p ≤ delay_of q) rest) ps
lucky_filter-least_example = lucky_filter-least lucky [] (omega arith) window-IsPickable

open insertion_sort use {sort}

median_filter-count_example :
    (ps : List Sequence) × (rest : List Sequence) × (median_filter sort median []
      ≡ (record median { unfiltered = [] }, [] ++ ps))
    × Perm window (ps ++ rest)
    × (length ps ≡ min 1 (3 - 2))
median_filter-count_example = median_filter-count insertion_sort median [] (omega arith)

abbrev pub mean : Calculation ℤ
mean = record {
  type_ = CalculationType.arithmetic_mean;
  size = 3;
  compensation_value = pos 0;
  sequences = window;
  timestamp_level = TimestampLevel.hardware;
  is_valid = false;
  delay_value = pos 0;
  offset_value = pos 0;
  drift_value = pos 0;
  adjustment = false;
  prev_seq_valid = false;
  prev_seq_timestamp = zero_timestamp;
  prev_seq_offset = pos 0;
}

arithmetic_mean_calculate-IsMean_example :
    IsMean integers window 3 (arithmetic_mean_calculate integers mean)
arithmetic_mean_calculate-IsMean_example =
    arithmetic_mean_calculate-IsMean integers mean (omega arith)
