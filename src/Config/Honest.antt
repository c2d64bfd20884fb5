-- ===== src/Config/Honest.antt =====
-- The validation reports what it finds: the result is false exactly when an error has been reported.
use Prim.Native.String.{String}
use flashptpd.Prelude.{
  Bool, true, false, ◌≡◌, refl, sym, ◌∙◌, ap, List, [], ◌∷◌, ◌++◌, Option, none, some, inl, inr,
  Bool-cases, Option-cases, if◌then◌else◌,
}
use flashptpd.Prelude.Int.{ℤ}
use flashptpd.Prelude.Doubles.{Doubles}
use flashptpd.Config.{
  JsonApi, ErrorKind, ConfigError, Report, start, fail, nested, nested_all, check, check_nested,
  check_items, object,
}
use flashptpd.Config.Parts.{
  validate_filter, validate_calculation, validate_selection, validate_adjustment, validate_pid,
  is_pid,
}
use flashptpd.Config.Peers.{NetworkApi, validate_server}
use flashptpd.Config.Modes.{validate_listener, validate_server_mode, validate_client_mode}
use mathlib.Core.List

abbrev pub is_nil {ℓ} : {A : Type ℓ} → List A → Bool
is_nil [] = true
is_nil (x ∷ xs) = false

-- The report appends to `errs`, and is valid exactly if it appends nothing.
pub record IsHonest (errs : List ConfigError) (r : Report) : Type 0 where
  pub added : List ConfigError
  pub appended : r.errs ≡ errs ++ added
  pub judged : r.valid ≡ is_nil added

is_nil-append :
    (xs ys : List ConfigError) → is_nil (xs ++ ys) ≡ (if is_nil xs then is_nil ys else false)
is_nil-append [] ys = refl
is_nil-append (x ∷ xs) ys = refl

is_nil-snoc : (xs : List ConfigError) (x : ConfigError) → is_nil (xs ++ x ∷ []) ≡ false
is_nil-snoc [] x = refl
is_nil-snoc (y ∷ xs) x = refl

pub start-IsHonest : (errs : List ConfigError) → IsHonest errs (start errs)
unfolding start
start-IsHonest errs = record { added = []; appended = sym (List.append-nil errs); judged = refl }

pub fail-IsHonest :
    {errs : List ConfigError} {r : Report} (key : String) (kind : ErrorKind)
    → IsHonest errs r
    → IsHonest errs (fail key kind r)
unfolding fail
fail-IsHonest {errs} {r} key kind h = record {
  added = h.added ++ record { key = key; kind = kind } ∷ [];
  appended = rw h.appended (List.append_assoc errs h.added _);
  judged = sym (is_nil-snoc h.added _);
}

nested-IsHonest :
    {errs : List ConfigError} {r : Report} {v : List ConfigError → Report}
    → ((e : List ConfigError) → IsHonest e (v e))
    → IsHonest errs r
    → IsHonest errs (nested v r)
unfolding nested
nested-IsHonest {errs} {r} {v} f h =
    let g = f r.errs in
    record {
      added = h.added ++ g.added;
      appended =
          g.appended
          ∙ ap (λ (l : List ConfigError). l ++ g.added) h.appended
          ∙ List.append_assoc errs h.added g.added;
      judged = rw (h.judged, g.judged) (sym (is_nil-append h.added g.added));
    }

nested_all-IsHonest :
    {A : Type 0} {errs : List ConfigError} {v : A → List ConfigError → Report} (xs : List A)
    (f : (x : A) (e : List ConfigError) → IsHonest e (v x e)) (r : Report)
    → IsHonest errs r
    → IsHonest errs (nested_all v xs r)
unfolding nested_all
nested_all-IsHonest [] f r h = h
nested_all-IsHonest {A} {errs} {v} (x ∷ xs) f r h =
    nested_all-IsHonest xs f (nested (v x) r) (nested-IsHonest (f x) h)

pub check-IsHonest :
    {A : Type 0} {errs : List ConfigError} {r : Report} (key : String) (required : Bool)
    (test : A → Option ErrorKind) (found : Option A)
    → IsHonest errs r
    → IsHonest errs (check key required test found r)
unfolding check
check-IsHonest key true test none h = fail-IsHonest key ErrorKind.missing h
check-IsHonest key false test none h = h
check-IsHonest key required test (some j) h = elim (Option-cases (test j)) [
  | inl e ↦ rw (e, check) h
  | inr (k, e) ↦ rw (e, check) (fail-IsHonest key k h)
]

pub check_nested-IsHonest :
    {A : Type 0} {errs : List ConfigError} {r : Report} (v : A → List ConfigError → Report)
    (found : Option A)
    → ((x : A) (e : List ConfigError) → IsHonest e (v x e))
    → IsHonest errs r
    → IsHonest errs (check_nested v found r)
unfolding check_nested
check_nested-IsHonest v none f h = h
check_nested-IsHonest v (some j) f h = nested-IsHonest (f j) h

module _ (D : Doubles) (J : JsonApi D) where
  open J use {Json, is_object, is_array, items}

  object-IsHonest :
      (name : String) (rest : Json → Report → Report) (j : Json) (errs : List ConfigError)
      → ((r : Report) → IsHonest errs r → IsHonest errs (rest j r))
      → IsHonest errs (object D J name rest j errs)
  unfolding object
  object-IsHonest name rest j errs f = elim (Bool-cases (is_object j)) [
    | inl e ↦ rw e (f (start errs) (start-IsHonest errs))
    | inr e ↦ rw e (fail-IsHonest name ErrorKind.wrong_type (start-IsHonest errs))
  ]

  check_items-IsHonest :
      {errs : List ConfigError} {r : Report} (key : String) (v : Json → List ConfigError → Report)
      (found : Option Json)
      → ((x : Json) (e : List ConfigError) → IsHonest e (v x e))
      → IsHonest errs r
      → IsHonest errs (check_items D J key v found r)
  unfolding check_items
  check_items-IsHonest key v none f h = h
  check_items-IsHonest {errs} {r} key v (some j) f h = elim (Bool-cases (is_array j)) [
    | inl e ↦ rw e (nested_all-IsHonest (items j) f r h)
    | inr e ↦ rw e (fail-IsHonest key ErrorKind.wrong_type h)
  ]

  ruleset honest = (check-IsHonest, check_nested-IsHonest, check_items-IsHonest)

  validate_filter-IsHonest :
      (j : Json) (errs : List ConfigError) → IsHonest errs (validate_filter D J j errs)
  unfolding validate_filter
  validate_filter-IsHonest j errs = object-IsHonest _ _ j errs λ r h. search honest

  validate_calculation-IsHonest :
      (j : Json) (errs : List ConfigError) → IsHonest errs (validate_calculation D J j errs)
  unfolding validate_calculation
  validate_calculation-IsHonest j errs = object-IsHonest _ _ j errs λ r h. search honest

  validate_selection-IsHonest :
      (j : Json) (errs : List ConfigError) → IsHonest errs (validate_selection D J j errs)
  unfolding validate_selection
  validate_selection-IsHonest j errs = object-IsHonest _ _ j errs λ r h. search honest

  validate_pid-IsHonest :
      {errs : List ConfigError} {r : Report} (j : Json)
      → IsHonest errs r
      → IsHonest errs (validate_pid D J j r)
  unfolding validate_pid
  validate_pid-IsHonest j h = search honest

  validate_adjustment-IsHonest :
      (j : Json) (errs : List ConfigError) → IsHonest errs (validate_adjustment D J j errs)
  unfolding validate_adjustment
  validate_adjustment-IsHonest j errs = object-IsHonest _ _ j errs λ r h.
      let typed_ = check-IsHonest "type" true _ (J.find "type" j) h in
      let clocked = check-IsHonest "clock" true _ (J.find "clock" j) typed_ in
      elim (Bool-cases (is_pid D J j)) [
        | inl e ↦ rw e (nested-IsHonest (λ l. validate_pid-IsHonest j (start-IsHonest l)) clocked)
        | inr e ↦ rw e clocked
      ]

module _ (D : Doubles) (J : JsonApi D) (N : NetworkApi) where
  open J use {Json}

  validate_server-IsHonest :
      (garbage : ℤ) (j : Json) (errs : List ConfigError)
      → IsHonest errs (validate_server D J N garbage j errs)
  unfolding validate_server
  validate_server-IsHonest garbage j errs = object-IsHonest D J _ _ j errs λ r h.
      search (honest, validate_filter-IsHonest D J, validate_calculation-IsHonest D J) depth 24

  -- Whatever the configuration of a client mode, its validation appends its errors to those before, and
  -- the result is true exactly if it appends none: no configuration is refused without a message, and
  -- none is accepted with one.
  pub validate_client_mode-IsHonest :
      (hex : String → ℤ) (garbage : ℤ) (j : Json) (errs : List ConfigError)
      → IsHonest errs (validate_client_mode D J N hex garbage j errs)
  unfolding validate_client_mode
  validate_client_mode-IsHonest hex garbage j errs = object-IsHonest D J _ _ j errs λ r h.
      search
        (
          honest,
          validate_server-IsHonest garbage,
          validate_selection-IsHonest D J,
          validate_adjustment-IsHonest D J,
        )
        depth 12

  validate_listener-IsHonest :
      (hex : String → ℤ) (j : Json) (errs : List ConfigError)
      → IsHonest errs (validate_listener D J N hex j errs)
  unfolding validate_listener
  validate_listener-IsHonest hex j errs =
      object-IsHonest D J _ _ j errs λ r h. search honest depth 12

  -- The same of the validation of a server mode: it appends its errors to those before, and the result
  -- is true exactly if it appends none.
  pub validate_server_mode-IsHonest :
      (hex : String → ℤ) (j : Json) (errs : List ConfigError)
      → IsHonest errs (validate_server_mode D J N hex j errs)
  unfolding validate_server_mode
  validate_server_mode-IsHonest hex j errs =
      object-IsHonest D J _ _ j errs λ r h. search (honest, validate_listener-IsHonest hex) depth 12
