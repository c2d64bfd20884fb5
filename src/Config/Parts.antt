-- ===== src/Config/Parts.antt =====
-- The configuration of the parts of a client: `validateConfig`, `setConfig` and `make` of Filter,
-- Calculation, Selection, Adjustment and PIDController.
use Prim.Native.String.{String}
use flashptpd.Prelude.{
  ℕ, Bool, true, false, not, ◌&&◌, ltb, ◌==◌, if◌then◌else◌, List, [], Option, none, some,
}
use flashptpd.Prelude.Int.{ℤ, pos, negsuc}
use flashptpd.Prelude.Doubles.{Doubles}
use flashptpd.Wire.Timestamp.{zero_timestamp}
use flashptpd.Client.Sequence.{TimestampLevel}
use flashptpd.Filter.{Filter, FilterType}
use flashptpd.Calculation.{Calculation, CalculationType}
use flashptpd.Adjustment.{Adjustment, AdjustmentType, PidController}
use flashptpd.Config.{
  JsonApi, ConfigError, Report, nested, check, first_of, key_of, value_or, typed, a_string,
  an_unsigned, object, start, to_unsigned, to_signed,
}
use flashptpd.Config.Names.{
  SelectionType, filter_type_from_str, calculation_type_from_str, selection_type_from_str,
  adjustment_type_from_str, is_filter, is_calculation, is_selection, is_adjustment,
}

-- The members of a Selection as the configuration gives them.
pub record SelectionConfig : Type 0 where
  pub type_ : SelectionType
  pub pick : ℕ
  pub delay_threshold : ℤ
  pub intersection_padding : ℤ
  pub max_offset_difference : ℤ

module _ (D : Doubles) where
  open D use {Double, of_int, div}

  -- `new PassThrough()` starts with a size of 1, `new ArithmeticMean()` with the default.
  abbrev pub new_calculation : CalculationType → Calculation Double
  new_calculation type = record {
    type_ = type;
    size = elim type [
      | CalculationType.pass_through ↦ 1
      | CalculationType.arithmetic_mean ↦ 8
      | CalculationType.invalid ↦ 8
    ];
    compensation_value = pos 0;
    sequences = [];
    timestamp_level = TimestampLevel.invalid;
    is_valid = false;
    delay_value = pos 0;
    offset_value = pos 0;
    drift_value = of_int (pos 0);
    adjustment = false;
    prev_seq_valid = false;
    prev_seq_timestamp = zero_timestamp;
    prev_seq_offset = pos 0;
  }

  -- The quotient of two whole numbers, for the decimal fractions of the source.
  abbrev pub ratio : ℕ → ℕ → Double
  ratio m n = div (of_int (pos m)) (of_int (pos n))

module _ (D : Doubles) (J : JsonApi D) where
  open D use {Double, of_int, less}
  open J use {
    Json, is_string, is_number, is_number_unsigned, find, get_string, get_integer, get_double,
  }

  -- What `*it` says of the type of a part.
  abbrev type_name : Json → String
  type_name j = value_or get_string "" (find "type" j)

  -- `Filter::validateConfig`
  unfoldable pub validate_filter : Json → List ConfigError → Report
  validate_filter = object D J "filters" λ j r.
      check "pick" false (an_unsigned D J (λ n. not (n == 0))) (find "pick" j) (
        check "size" false (an_unsigned D J (λ n. not (n == 0))) (find "size" j) (
          check "type" true (a_string D J (λ s. is_filter (filter_type_from_str s))) (find "type" j)
            r))

  -- `Filter::setConfig` on a new filter of the type.
  abbrev pub set_filter : FilterType → Json → Filter
  set_filter type j = record {
    type_ = type;
    size = value_or (λ i. to_unsigned 32 (get_integer i)) 16 (find "size" j);
    pick = value_or (λ i. to_unsigned 32 (get_integer i)) 1 (find "pick" j);
    unfiltered = [];
  }

  -- `Filter::make`; `none` is the null pointer.
  unfoldable pub make_filter : Json → Option Filter
  make_filter j =
      let type = filter_type_from_str (type_name j) in
      if is_filter type then some (set_filter type j) else none

  -- `Calculation::validateConfig`
  unfoldable pub validate_calculation : Json → List ConfigError → Report
  validate_calculation = object D J "calculation" λ j r.
      check "compensationValue" false (λ i. typed (is_number i) true) (find "compensationValue" j)
        (check "size" false (an_unsigned D J (λ n. not (ltb n 2))) (find "size" j) (
          check "type" true (a_string D J (λ s. is_calculation (calculation_type_from_str s)))
            (find "type" j) r))

  -- `Calculation::setConfig` on a new calculation: the default size replaces a size of 0 only.
  abbrev pub set_calculation : Calculation Double → Json → Calculation Double
  set_calculation c j = record c {
    size =
        value_or (λ i. to_unsigned 32 (get_integer i)) (if c.size == 0 then 8 else c.size)
          (find "size" j);
    compensation_value = value_or get_integer (pos 0) (find "compensationValue" j);
  }

  -- `Calculation::make`
  unfoldable pub make_calculation : Json → Option (Calculation Double)
  make_calculation j =
      let type = calculation_type_from_str (type_name j) in
      if is_calculation type then some (set_calculation (new_calculation D type) j) else none

  -- `Selection::validateConfig`
  unfoldable pub validate_selection : Json → List ConfigError → Report
  validate_selection = object D J "selection" λ j r.
      check "maxOffsetDifference" false (λ i. typed (is_number_unsigned i) true)
        (find "maxOffsetDifference" j)
        (check "intersectionPadding" false (λ i. typed (is_number_unsigned i) true)
          (find "intersectionPadding" j)
          (check "delayThreshold" false (an_unsigned D J (λ n. not (n == 0)))
            (find "delayThreshold" j)
            (check "pick" false (an_unsigned D J (λ n. not (n == 0))) (find "pick" j) (
              check "type" true (a_string D J (λ s. is_selection (selection_type_from_str s)))
                (find "type" j) r))))

  -- `Selection::setConfig` on a new selection of the type.
  abbrev pub selection_of : SelectionType → Json → SelectionConfig
  selection_of type j = record {
    type_ = type;
    pick = value_or (λ i. to_unsigned 32 (get_integer i)) 1 (find "pick" j);
    delay_threshold =
        value_or (λ i. to_signed 64 (get_integer i)) (pos 1500000000) (find "delayThreshold" j);
    intersection_padding =
        value_or (λ i. to_signed 64 (get_integer i)) (pos 0) (find "intersectionPadding" j);
    max_offset_difference =
        value_or (λ i. to_signed 64 (get_integer i)) (pos 0) (find "maxOffsetDifference" j);
  }

  -- `Selection::make`; `none` is the null pointer.
  unfoldable pub make_selection : Json → Option SelectionConfig
  make_selection j =
      let type = selection_type_from_str (type_name j) in
      if is_selection type then some (selection_of type j) else none

  -- A ratio between two limits, under one of two keys.
  check_ratio : String → String → Double → Double → Json → Report → Report
  check_ratio a b lo hi j r =
      check (key_of a b (find a j)) false
        (λ i. typed (is_number i) (not (less (get_double i) lo) && not (less hi (get_double i))))
        (first_of (find a j) (find b j)) r

  -- `PIDController::validateConfig`
  unfoldable pub validate_pid : Json → Report → Report
  unfolding check_ratio
  validate_pid j r =
      check "stepThreshold" false (λ i. typed (is_number_unsigned i) true) (find "stepThreshold" j)
        (check_ratio "differentialRatio" "dRatio" (ratio D 0 1) (ratio D 1 1) j (
          check_ratio "integralRatio" "iRatio" (ratio D 5 1000) (ratio D 5 10) j
            (check_ratio "proportionalRatio" "pRatio" (ratio D 1 100) (ratio D 1 1) j r)))

  -- `type == AdjustmentType::pidController`, where the type is read only from a string.
  unfoldable pub is_pid : Json → Bool
  is_pid j = elim (find "type" j) [
    | none ↦ false
    | some i ↦
        if is_string i
        then elim (adjustment_type_from_str (get_string i)) [
          | AdjustmentType.pid_controller ↦ true
          | AdjustmentType.adjtimex ↦ false
          | AdjustmentType.invalid ↦ false
        ]
        else false
  ]

  -- `Adjustment::validateConfig`
  unfoldable pub validate_adjustment : Json → List ConfigError → Report
  validate_adjustment = object D J "adjustments" λ j r.
      let s =
        check "clock" true (λ i. typed (is_string i) true) (find "clock" j)
          (check "type" true (a_string D J (λ s. is_adjustment (adjustment_type_from_str s)))
            (find "type" j) r) in
      if is_pid j then nested (λ errs. validate_pid j (start errs)) s else s

  -- The members that `PIDController::setConfig` sets.
  unfoldable pub set_pid : Json → PidController Double
  set_pid j = record {
    kp =
        value_or get_double (ratio D 2 10)
          (first_of (find "proportionalRatio" j) (find "pRatio" j));
    ki = value_or get_double (ratio D 5 100) (first_of (find "integralRatio" j) (find "iRatio" j));
    kd =
        value_or get_double (ratio D 0 1) (first_of (find "differentialRatio" j) (find "dRatio" j));
    step_threshold =
        value_or (λ i. to_unsigned 64 (get_integer i)) 1000000 (find "stepThreshold" j);
    integral = of_int (pos 0);
    proportional = of_int (pos 0);
    differential = of_int (pos 0);
  }

  -- Both `setConfig` on a new adjustment of the type.
  abbrev pub set_adjustment : AdjustmentType → Json → Adjustment Double
  set_adjustment type j = record {
    type_ = type;
    clock_name = value_or get_string "" (find "clock" j);
    clock_id = negsuc 0;
    time_addend = pos 0;
    freq_addend = of_int (pos 0);
    freq_aggregate = of_int (pos 0);
    pid = elim type [
      | AdjustmentType.pid_controller ↦ some (set_pid j)
      | AdjustmentType.adjtimex ↦ none
      | AdjustmentType.invalid ↦ none
    ];
  }

  -- `Adjustment::make`; `none` is the null pointer.
  unfoldable pub make_adjustment : Json → Option (Adjustment Double)
  make_adjustment j =
      let type = adjustment_type_from_str (type_name j) in
      if is_adjustment type then some (set_adjustment type j) else none
