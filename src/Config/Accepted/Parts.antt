-- ===== src/Config/Accepted/Parts.antt =====
-- What validation promises of a selection and an adjustment (src/flashptp/selection/selection.cpp,
-- src/flashptp/adjustment/adjustment.cpp).
use flashptpd.Prelude.{
  ℕ, ◌<◌, Bool, true, false, not, ◌≡◌, refl, List, Option, none, some, arith, ap, sym, ◌≢◌, ◌==◌,
  if◌then◌else◌,
}
use flashptpd.Prelude.Int.{pos}
use flashptpd.Prelude.Doubles.{Doubles}
use flashptpd.Adjustment.{Adjustment, AdjustmentType, PidController}
use flashptpd.Config.{
  JsonApi, ConfigError, Report, nested, a_string, start, first_of, value_or, to_unsigned,
}
use flashptpd.Config.Names.{
  is_selection, is_adjustment, selection_type_from_str, adjustment_type_from_str,
}
use flashptpd.Config.Sound.{
  Passes, Accepts, check-valid, object-valid, Passes-value_or, Passes-required, nested-valid,
}
use flashptpd.Config.Parts.{
  SelectionConfig, validate_selection, validate_adjustment, make_selection, make_adjustment,
  selection_of, set_adjustment, set_pid, is_pid, validate_pid, ratio,
}
use flashptpd.Config.Limits.{typed-both, IsRatio, accepted-IsRatio, nonzero_threshold}

without_pid :
    (b : Bool) (v : List ConfigError → Report) (r : Report)
    → (if b then nested v r else r).valid ≡ true
    → r.valid ≡ true
without_pid true v r h = (nested-valid v r h).0
without_pid false v r h = h

module _ (D : Doubles) (J : JsonApi D) where
  open D use {Double}
  open J use {Json, find, get_string, get_integer, is_string, is_number_unsigned}

  -- A selection of a real type that picks something, with a threshold.
  abbrev pub IsSelection : SelectionConfig → Type 0
  IsSelection s = (is_selection s.type_ ≡ true) × (0 < s.pick) × (s.delay_threshold ≢ pos 0)

  -- The ratios of a PID controller are within their limits, or the defaults.
  abbrev IsPid : Option (PidController Double) → Type 0
  IsPid none = Unit
  IsPid (some p) =
      IsRatio D J (ratio D 2 10) (ratio D 1 100) (ratio D 1 1) p.kp
      × IsRatio D J (ratio D 5 100) (ratio D 5 1000) (ratio D 5 10) p.ki
      × IsRatio D J (ratio D 0 1) (ratio D 0 1) (ratio D 1 1) p.kd

  -- An adjustment of a real type, with a PID controller exactly if it is one.
  abbrev pub IsAdjustment : Adjustment Double → Type 0
  IsAdjustment a = (is_adjustment a.type_ ≡ true) × IsPid a.pid

  pick_positive : (n : ℕ) → not (n == 0) ≡ true → 0 < n
  pick_positive n h = ground arith

  pub make_selection-IsSelection :
      (j : Json)
      → Accepts (validate_selection D J) j
      → (s : SelectionConfig) × (make_selection D J j ≡ some s) × IsSelection s
  unfolding validate_selection make_selection
  make_selection-IsSelection j (e, h) =
      let limited =
        check-valid _ _ _ (find "maxOffsetDifference" j) _ (object-valid D J _ _ j e h) in
      let padded = check-valid _ _ _ (find "intersectionPadding" j) _ limited.0 in
      let delayed = check-valid _ _ _ (find "delayThreshold" j) _ padded.0 in
      let picked = check-valid _ _ _ (find "pick" j) _ delayed.0 in
      let named = check-valid _ _ _ (find "type" j) _ picked.0 in
      let real =
        Passes-required is_string get_string (λ s. is_selection (selection_type_from_str s)) ""
          (find "type" j) named.1 in
      let type = selection_type_from_str (value_or get_string "" (find "type" j)) in
      (
        selection_of D J type j,
        rw real refl,
        (
          real,
          pick_positive _ (
              Passes-value_or is_number_unsigned (λ i. to_unsigned 32 (get_integer i))
                (λ n. not (n == 0)) 1 (find "pick" j) refl picked.1),
          nonzero_threshold D J (find "delayThreshold" j) delayed.1,
        ),
      )

  accepted-IsPid :
      (j : Json) (r : Report) → (validate_pid D J j r).valid ≡ true → IsPid (some (set_pid D J j))
  unfolding validate_pid set_pid
  accepted-IsPid j r h =
      let stepped = check-valid _ _ _ (find "stepThreshold" j) _ h in
      let differential =
        check-valid _ _ _ (first_of (find "differentialRatio" j) (find "dRatio" j)) _ stepped.0 in
      let integral =
        check-valid _ _ _ (first_of (find "integralRatio" j) (find "iRatio" j)) _ differential.0 in
      let proportional =
        check-valid _ _ _ (first_of (find "proportionalRatio" j) (find "pRatio" j)) _ integral.0 in
      (
        accepted-IsRatio D J _ _ _ _ proportional.1,
        accepted-IsRatio D J _ _ _ _ integral.1,
        accepted-IsRatio D J _ _ _ _ differential.1,
      )

  pid_of :
      (j : Json) (i : Json) (t : AdjustmentType)
      → find "type" j ≡ some i
      → is_string i ≡ true
      → adjustment_type_from_str (get_string i) ≡ t
      → (is_pid D J j ≡ true → IsPid (some (set_pid D J j)))
      → IsPid (set_adjustment D J t j).pid
  unfolding is_pid
  pid_of j i AdjustmentType.pid_controller e b k h = h (rw (e, is_pid) (rw (b, k) refl))
  pid_of j i AdjustmentType.adjtimex e b k h = tt
  pid_of j i AdjustmentType.invalid e b k h = tt

  nested-IsPid :
      (b : Bool) (j : Json) (r : Report)
      → (if b then nested (λ errs. validate_pid D J j (start errs)) r else r).valid ≡ true
      → b ≡ true
      → IsPid (some (set_pid D J j))
  nested-IsPid true j r h e = accepted-IsPid j _ (nested-valid _ r h).1
  nested-IsPid false j r h e = absurd (cc)

  a_type :
      (found : Option Json)
      → Passes true (a_string D J (λ s. is_adjustment (adjustment_type_from_str s))) found
      → (i : Json) × (found ≡ some i) × (is_string i ≡ true)
  a_type none h = absurd (cc)
  a_type (some i) h = (i, refl, (typed-both (is_string i) _ h).0)

  pub make_adjustment-IsAdjustment :
      (j : Json)
      → Accepts (validate_adjustment D J) j
      → (a : Adjustment Double) × (make_adjustment D J j ≡ some a) × IsAdjustment a
  unfolding validate_adjustment make_adjustment
  make_adjustment-IsAdjustment j (e, h) =
      let whole = object-valid D J _ _ j e h in
      let clocked = check-valid _ _ _ (find "clock" j) _ (without_pid _ _ _ whole) in
      let named = check-valid _ _ _ (find "type" j) _ clocked.0 in
      let real =
        Passes-required is_string get_string (λ s. is_adjustment (adjustment_type_from_str s)) ""
          (find "type" j) named.1 in
      let type = adjustment_type_from_str (value_or get_string "" (find "type" j)) in
      let (i, n, b) = a_type (find "type" j) named.1 in
      let same = ap (λ (f : Option Json). adjustment_type_from_str (value_or get_string "" f)) n in
      let controlled = pid_of j i type n b (sym same) (nested-IsPid _ j _ whole) in
      (set_adjustment D J type j, rw real refl, (real, controlled))
