-- ===== src/Config.antt =====
-- The configuration: `validateConfig`, `setConfig` and `make` of the classes. The JSON library is an
-- interface, JsonApi; an error message is its key and its kind.
pub mod Names
pub mod Parts
pub mod Peers
pub mod Modes
pub mod Honest
pub mod Sound
pub mod Limits
pub mod Accepted
pub mod Client
pub mod Program
pub mod Whole
use Prim.Native.String.{String}
use flashptpd.Prelude.{
  ℕ, ◌+◌, ◌-◌, ◌%◌, ◌^◌, Bool, true, false, not, ◌&&◌, ltb, if◌then◌else◌, List, [], ◌∷◌, ◌++◌,
  Option, none, some,
}
use flashptpd.Prelude.Int.{ℤ, pos, negsuc, ◌-ℤ◌, ltb_ℤ}
use flashptpd.Prelude.Doubles.{Doubles}

-- What the code calls of nlohmann's json: the tests of a value's type, `find` on an object (`none` for
-- `end()`), the elements of an array, and a value's text, truth value, whole number and `double`.
pub record JsonApi (D : Doubles) : Type 1 where
  pub Json : Type 0
  pub is_object : Json → Bool
  pub is_array : Json → Bool
  pub is_string : Json → Bool
  pub is_boolean : Json → Bool
  pub is_number : Json → Bool
  pub is_number_integer : Json → Bool
  pub is_number_unsigned : Json → Bool
  pub find : String → Json → Option Json
  pub items : Json → List Json
  pub get_string : Json → String
  pub get_bool : Json → Bool
  pub get_integer : Json → ℤ
  pub get_double : Json → D.Double

-- The conversion of a whole number to an unsigned, and to a signed, type of `w` bits, as in
-- `get<uint32_t>()` and `get<int8_t>()`.
unfoldable pub to_unsigned : ℕ → ℤ → ℕ
to_unsigned w (pos n) = n % 2 ^ w
to_unsigned w (negsuc n) = 2 ^ w - 1 - n % 2 ^ w

unfoldable pub to_signed : ℕ → ℤ → ℤ
to_signed w z =
    let n = to_unsigned w z in if ltb n (2 ^ (w - 1)) then pos n else pos n -ℤ pos (2 ^ w)

pub data ErrorKind : Type 0 where
  missing wrong_type bad_value : ErrorKind

pub record ConfigError : Type 0 where
  pub key : String
  pub kind : ErrorKind

-- The local variable `valid` and the messages in `*errs`.
pub record Report : Type 0 where
  pub valid : Bool
  pub errs : List ConfigError

unfoldable pub start : List ConfigError → Report
start errs = record { valid = true; errs = errs }

-- `errs->push_back(…); valid = false;`
unfoldable pub fail : String → ErrorKind → Report → Report
fail key kind r = record { valid = false; errs = r.errs ++ record { key = key; kind = kind } ∷ [] }

-- `if (valid) valid = V(…, errs); else V(…, errs);`
unfoldable pub nested : (List ConfigError → Report) → Report → Report
nested validate r =
    let s = validate r.errs in record { valid = if r.valid then s.valid else false; errs = s.errs }

-- The same for each element of an array.
unfoldable pub nested_all :
    {A : Type 0} → (A → List ConfigError → Report) → List A → Report → Report
nested_all validate [] r = r
nested_all validate (x ∷ xs) r = nested_all validate xs (nested (validate x) r)

-- One property: what was found under its key is tested, and is missed if it is required.
unfoldable pub check :
    {A : Type 0} → String → Bool → (A → Option ErrorKind) → Option A → Report → Report
check key required test none r = if required then fail key missing r else r
check key required test (some j) r = elim (test j) [ none ↦ r | some kind ↦ fail key kind r ]

-- A property that is an array of objects, or an object, with a validator of its own.
unfoldable pub check_nested :
    {A : Type 0} → (A → List ConfigError → Report) → Option A → Report → Report
check_nested validate none r = r
check_nested validate (some j) r = nested (validate j) r

-- `it = config.find(a); if (it == config.end()) it = config.find(b);`
abbrev pub first_of : {A : Type 0} → Option A → Option A → Option A
first_of none b = b
first_of (some x) b = some x

-- What `get_to` stores, or the default.
abbrev pub value_or : {A B : Type 0} → (A → B) → B → Option A → B
value_or get default none = default
value_or get default (some j) = get j

-- A type test, then a test of the value.
abbrev pub typed : Bool → Bool → Option ErrorKind
typed false good = some wrong_type
typed true false = some bad_value
typed true true = none

-- The key of the property that was found, where two are looked up: `it.key()`.
abbrev pub key_of : {A : Type 0} → String → String → Option A → String
key_of a b none = b
key_of a b (some j) = a

-- `v.push_back(make(…))` for each element; `none` if one of them is a null pointer.
unfoldable pub make_all : {A B : Type 0} → (A → Option B) → List A → Option (List B)
make_all make [] = some []
make_all make (x ∷ xs) = elim (make x) [
  | none ↦ none
  | some y ↦ elim (make_all make xs) [ none ↦ none | some ys ↦ some (y ∷ ys) ]
]

module _ (D : Doubles) (J : JsonApi D) where
  open J use {
    Json, is_object, is_array, is_string, is_boolean, is_number_integer, is_number_unsigned, find,
    items, get_string, get_integer,
  }

  -- The tests that the validators share.
  abbrev pub a_boolean : Json → Option ErrorKind
  a_boolean j = typed (is_boolean j) true

  abbrev pub a_string : (String → Bool) → Json → Option ErrorKind
  a_string good j = typed (is_string j) (good (get_string j))

  abbrev pub an_unsigned : (ℕ → Bool) → Json → Option ErrorKind
  an_unsigned good j = typed (is_number_unsigned j) (good (to_unsigned 32 (get_integer j)))

  -- `get<int>()`, or `get<int8_t>()`, between two limits.
  abbrev pub an_integer : ℕ → ℤ → ℤ → Json → Option ErrorKind
  an_integer w lo hi j =
      let n = to_signed w (get_integer j) in
      typed (is_number_integer j) (not (ltb_ℤ n lo) && not (ltb_ℤ hi n))

  abbrev pub a_port : Json → Option ErrorKind
  a_port j = an_integer 32 (pos 0) (pos 65535) j

  -- An object, or an error and an early return.
  unfoldable pub object : String → (Json → Report → Report) → Json → List ConfigError → Report
  object name rest j errs =
      if is_object j then rest j (start errs) else fail name wrong_type (start errs)

  -- A property that is an array, each of whose elements has a validator of its own.
  unfoldable pub check_items :
      String → (Json → List ConfigError → Report) → Option Json → Report → Report
  check_items key validate none r = r
  check_items key validate (some j) r =
      if is_array j then nested_all validate (items j) r else fail key wrong_type r
