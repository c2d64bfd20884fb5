-- ===== src/Config/Sound.antt =====
-- What an accepted configuration has passed: the tests of `check` and the nested validators.
use Prim.Native.String.{String}
use flashptpd.Prelude.{
  Bool, true, false, ◌≡◌, refl, List, [], ◌∷◌, Option, none, some, arith, inl, inr, Bool-cases,
  Option-cases, All,
}
use flashptpd.Prelude.Doubles.{Doubles}
use flashptpd.Config.{
  JsonApi, ErrorKind, ConfigError, Report, start, fail, nested, nested_all, check, check_nested,
  check_items, object, value_or, typed,
}

-- A property that `check` does not report.
abbrev pub Passes : {A : Type 0} → Bool → (A → Option ErrorKind) → Option A → Type 0
Passes required test none = required ≡ false
Passes required test (some j) = test j ≡ none

-- A value that a validator accepts, whatever errors there are before.
abbrev pub Accepts : {A : Type 0} → (A → List ConfigError → Report) → A → Type 0
Accepts v x = (e : List ConfigError) × ((v x e).valid ≡ true)

-- The accepted elements of an array, or the accepted object, if there is one.
abbrev pub AcceptsItems :
    {A B : Type 0} → (A → List B) → (B → List ConfigError → Report) → Option A → Type 0
AcceptsItems items v none = Unit
AcceptsItems items v (some j) = All (Accepts v) (items j)

abbrev pub AcceptsNested : {A : Type 0} → (A → List ConfigError → Report) → Option A → Type 0
AcceptsNested v none = Unit
AcceptsNested v (some j) = Accepts v j

pub nested-valid :
    (v : List ConfigError → Report) (r : Report)
    → (nested v r).valid ≡ true
    → (r.valid ≡ true) × ((v r.errs).valid ≡ true)
unfolding nested
nested-valid v r h = ground arith

module _ {A : Type 0} where
  pub check-valid :
      (key : String) (required : Bool) (test : A → Option ErrorKind) (found : Option A) (r : Report)
      → (check key required test found r).valid ≡ true
      → (r.valid ≡ true) × Passes required test found
  unfolding check fail
  check-valid key true test none r h = absurd (cc)
  check-valid key false test none r h = (h, refl)
  check-valid key required test (some j) r h = elim (Option-cases (test j)) [
    | inl e ↦ (ground arith, e)
    | inr (k, e) ↦ absurd (ground arith)
  ]

  nested_all-valid :
      (v : A → List ConfigError → Report) (xs : List A) (r : Report)
      → (nested_all v xs r).valid ≡ true
      → (r.valid ≡ true) × All (Accepts v) xs
  unfolding nested_all
  nested_all-valid v [] r h = (h, tt)
  nested_all-valid v (x ∷ xs) r h =
      let rest = nested_all-valid v xs (nested (v x) r) h in
      let first = nested-valid (v x) r rest.0 in (first.0, ((r.errs, first.1), rest.1))

  pub check_nested-valid :
      (v : A → List ConfigError → Report) (found : Option A) (r : Report)
      → (check_nested v found r).valid ≡ true
      → (r.valid ≡ true) × AcceptsNested v found
  unfolding check_nested
  check_nested-valid v none r h = (h, tt)
  check_nested-valid v (some j) r h =
      let both = nested-valid (v j) r h in (both.0, (r.errs, both.1))

  -- A tested value, or the default that passes the test itself.
  pub Passes-value_or :
      {B : Type 0} (c : A → Bool) (get : A → B) (good : B → Bool) (default : B) (found : Option A)
      → good default ≡ true
      → Passes false (λ j. typed (c j) (good (get j))) found
      → good (value_or get default found) ≡ true
  Passes-value_or c get good default none d h = d
  Passes-value_or c get good default (some j) d h = ground arith

  pub Passes-required :
      {B : Type 0} (c : A → Bool) (get : A → B) (good : B → Bool) (default : B) (found : Option A)
      → Passes true (λ j. typed (c j) (good (get j))) found
      → good (value_or get default found) ≡ true
  Passes-required c get good default none h = absurd (cc)
  Passes-required c get good default (some j) h = ground arith

module _ (D : Doubles) (J : JsonApi D) where
  open J use {Json, is_object, is_array, items}

  pub check_items-valid :
      (key : String) (v : Json → List ConfigError → Report) (found : Option Json) (r : Report)
      → (check_items D J key v found r).valid ≡ true
      → (r.valid ≡ true) × AcceptsItems items v found
  unfolding check_items fail
  check_items-valid key v none r h = (h, tt)
  check_items-valid key v (some j) r h = elim (Bool-cases (is_array j)) [
    | inl e ↦ nested_all-valid v (items j) r (ground arith)
    | inr e ↦ absurd (ground arith)
  ]

  pub object-valid :
      (name : String) (rest : Json → Report → Report) (j : Json) (errs : List ConfigError)
      → (object D J name rest j errs).valid ≡ true
      → (rest j (start errs)).valid ≡ true
  unfolding object fail
  object-valid name rest j errs h = ground arith
