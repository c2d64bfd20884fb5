-- ===== src/Calculation.antt =====
-- The calculations: include/flashptp/calculation and src/flashptp/calculation. The mutex, which
-- each method holds while it runs, is not modelled.
pub mod Bounds
pub mod Insert
pub mod Keeps
use flashptpd.Prelude.{
  ℕ, zero, suc, Bool, true, false, not, ◌&&◌, ltb, leb, ◌==◌, if◌then◌else◌, List, [], ◌∷◌, ◌++◌,
  Option, none, some, length, get_last?, head?,
}
use flashptpd.Prelude.Int.{ℤ, pos, ◌+ℤ◌, ◌-ℤ◌, ltb_ℤ, quot, max_ℤ, min_ℤ}
use flashptpd.Prelude.Doubles.{Doubles}
use flashptpd.Wire.Timestamp.{Timestamp, zero_timestamp, ◌-ₜ◌}
use flashptpd.Client.Sequence.{Sequence, TimestampLevel, mean_path_delay}
use flashptpd.Window.{level_changed, trim}

pub data CalculationType : Type 0 where
  invalid pass_through arithmetic_mean : CalculationType

pub record Calculation (F : Type 0) : Type 0 where
  pub type_ : CalculationType
  pub size : ℕ
  pub compensation_value : ℤ
  pub sequences : List Sequence
  pub timestamp_level : TimestampLevel
  pub is_valid : Bool
  pub delay_value : ℤ
  pub offset_value : ℤ
  pub drift_value : F
  pub adjustment : Bool
  pub prev_seq_valid : Bool
  pub prev_seq_timestamp : Timestamp
  pub prev_seq_offset : ℤ

-- The loops of `minOffset` and `maxOffset`.
min_from : ℤ → List Sequence → ℤ
min_from m [] = m
min_from m (x ∷ xs) = min_from (if ltb_ℤ x.offset m then x.offset else m) xs

max_from : ℤ → List Sequence → ℤ
max_from m [] = m
max_from m (x ∷ xs) = max_from (if ltb_ℤ m x.offset then x.offset else m) xs

module _ {F : Type 0} where
  -- `clearLocked`, which is `clear` too.
  unfoldable pub clear : Calculation F → Calculation F
  clear c = record c { prev_seq_valid = false; sequences = [] }

  -- `if (_sequences.size() > 0) { _prevSeqValid = true; … }`
  unfoldable pub note_previous : Calculation F → Calculation F
  note_previous c = elim (get_last? c.sequences) [
    | none ↦ c
    | some last ↦ record c {
      prev_seq_valid = true;
      prev_seq_timestamp = last.t1;
      prev_seq_offset = last.offset;
    }
  ]

  unfoldable pub insert : Sequence → Calculation F → Calculation F
  unfolding clear note_previous
  insert seq c =
      let cleared = if level_changed c.sequences seq then clear c else c in
      let noted = note_previous cleared in
      record noted {
        sequences = trim noted.size noted.sequences ++ seq ∷ [];
        timestamp_level = seq.timestamp_level;
      }

  -- `fullyLoaded()`
  pub fully_loaded : Calculation F → Bool
  fully_loaded c = leb c.size (length c.sequences)

  -- `offset()`
  pub offset : Calculation F → ℤ
  offset c = c.offset_value -ℤ c.compensation_value

  -- `hasAdjustment()` and `setAdjustment()`
  unfoldable pub has_adjustment : Calculation F → Bool
  has_adjustment c = c.is_valid && c.adjustment

  unfoldable pub set_adjustment : Bool → Calculation F → Calculation F
  set_adjustment b c = record c { adjustment = b }

  -- `minOffset()`
  pub min_offset : Calculation F → ℤ
  unfolding min_from
  min_offset c = min_from max_ℤ c.sequences

  -- `maxOffset()`
  pub max_offset : Calculation F → ℤ
  unfolding max_from
  max_offset c = max_from min_ℤ c.sequences

module _ (D : Doubles) where
  open D use {Double, of_int, to_int, add, mul, div}

  -- `(double)(b.offset - a.offset) / (double)(b.t1 - a.t1)`
  unfoldable pub slope : ℤ → Timestamp → Sequence → Double
  slope prev_offset prev_t1 s = div (of_int (s.offset -ℤ prev_offset)) (of_int (s.t1 -ₜ prev_t1))

  -- The sums of `ArithmeticMean::calculate` from index 1 on; `prev` is `_sequences[i - 1]`.
  sum_rest : Sequence → List Sequence → ℤ → ℤ → Double → ℤ × ℤ × Double
  sum_rest prev [] delay offs drift = (delay, offs, drift)
  sum_rest prev (x ∷ xs) delay offs drift =
      sum_rest x xs (delay +ℤ mean_path_delay x) (offs +ℤ x.offset)
        (add drift (slope prev.offset prev.t1 x))

  mean_of : List Sequence → Calculation Double → Calculation Double
  unfolding sum_rest
  mean_of [] c = c
  mean_of (x ∷ []) c = c
  mean_of (x ∷ y ∷ xs) c =
      let n = length (x ∷ y ∷ xs) in
      let (delay, offs, drift) =
        sum_rest x (y ∷ xs) (pos 0 +ℤ mean_path_delay x) (pos 0 +ℤ x.offset) (of_int (pos 0)) in
      record c {
        delay_value = quot delay n;
        offset_value = quot offs n;
        drift_value = div drift (of_int (pos (length (y ∷ xs))));
        is_valid = true;
        adjustment = leb c.size n;
      }

  -- `ArithmeticMean::calculate`
  unfoldable pub arithmetic_mean_calculate : Calculation Double → Calculation Double
  unfolding mean_of
  arithmetic_mean_calculate c = mean_of c.sequences c

  pass_last : Sequence → Calculation Double → Calculation Double
  pass_last s c =
      if c.prev_seq_valid
      then record c {
        is_valid = true;
        delay_value = mean_path_delay s;
        offset_value = s.offset;
        drift_value = slope c.prev_seq_offset c.prev_seq_timestamp s;
        adjustment = true;
      }
      else record c {
        is_valid = true;
        delay_value = mean_path_delay s;
        offset_value = s.offset;
        drift_value = of_int (pos 0);
        adjustment = false;
      }

  -- `PassThrough::calculate`
  unfoldable pub pass_through_calculate : Calculation Double → Calculation Double
  unfolding pass_last
  pass_through_calculate c = elim (get_last? c.sequences) [
    | none ↦ record c { is_valid = false }
    | some s ↦ pass_last s c
  ]

  -- The virtual call `_calculation->calculate()`; no calculation of the type `invalid` is ever made.
  unfoldable pub calculate : Calculation Double → Calculation Double
  calculate c = elim c.type_ [
    | CalculationType.invalid ↦ c
    | CalculationType.pass_through ↦ pass_through_calculate c
    | CalculationType.arithmetic_mean ↦ arithmetic_mean_calculate c
  ]

  -- `reset()`
  unfoldable pub reset : Calculation Double → Calculation Double
  reset c = record c {
    prev_seq_valid = false;
    sequences = [];
    timestamp_level = TimestampLevel.invalid;
    is_valid = false;
    delay_value = pos 0;
    offset_value = pos 0;
    drift_value = of_int (pos 0);
    adjustment = false;
  }

  unfoldable pub remove_first : List Sequence → List Sequence
  remove_first [] = []
  remove_first (x ∷ xs) = xs

  -- `remove()`
  unfoldable pub remove : Calculation Double → Calculation Double
  unfolding remove_first
  remove c =
      let c' = record c { prev_seq_valid = false; sequences = remove_first c.sequences } in
      if length c'.sequences == 0 then reset c' else c'

  -- `sampleRate()`
  pub sample_rate : Calculation Double → Double
  sample_rate c = elim (get_last? c.sequences) [
    | none ↦ of_int (pos 0)
    | some s ↦
        if c.prev_seq_valid
        then div (of_int (s.t1 -ₜ c.prev_seq_timestamp)) (of_int (pos 1000000000))
        else of_int (pos 0)
  ]

  window_of : Option Sequence → Option Sequence → ℤ
  window_of (some back) (some front) = back.t1 -ₜ front.t1
  window_of _ _ = pos 0

  -- `windowDuration()`
  pub window_duration : Calculation Double → ℤ
  unfolding window_of
  window_duration c =
      if length c.sequences == 0
      then pos 0
      else if length c.sequences == 1
      then to_int (mul (sample_rate c) (of_int (pos 1000000000)))
      else window_of (get_last? c.sequences) (head? c.sequences)
