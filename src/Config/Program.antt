-- ===== src/Config/Program.antt =====
-- The validation of a whole configuration: `FlashPTP::validateConfig` (src/flashptp/flashptp.cpp). The names
-- of cppLog and the members of a JSON object are an interface, LogApi.
use Prim.Native.String.{String}
use flashptpd.Prelude.{Bool, false, not, if◌then◌else◌, List, [], ◌∷◌, Option, none, some}
use flashptpd.Prelude.Int.{ℤ}
use flashptpd.Prelude.Doubles.{Doubles}
use flashptpd.Config.{
  JsonApi, ErrorKind, ConfigError, Report, start, fail, check, check_nested, a_boolean, a_string,
}
use flashptpd.Config.Peers.{NetworkApi}
use flashptpd.Config.Modes.{validate_server_mode, validate_client_mode}

-- `items()` with `key()` and `value()` of an object, whether a name is one of a type of log, of the type
-- `file`, or of a severity; and what `get<bool>()` yields through `end()`, which is undefined.
pub record LogApi (D : Doubles) (J : JsonApi D) : Type 0 where
  pub members : J.Json → List (String × J.Json)
  pub is_log_type : String → Bool
  pub is_file : String → Bool
  pub is_severity : String → Bool
  pub past_end : Bool

module _ (D : Doubles) (J : JsonApi D) (N : NetworkApi) (hex : String → ℤ) (L : LogApi D J) where
  open J use {Json, is_object, is_boolean, find, get_bool}

  -- `else if (!iit->get<bool>()) continue;`
  unfoldable pub is_skipped : Option Json → Bool
  is_skipped none = not L.past_end
  is_skipped (some j) = if is_boolean j then not (get_bool j) else false

  -- The body of the loop over the instances behind the test of `enabled`.
  unfoldable pub validate_enabled : String → Json → Report → Report
  validate_enabled key j r =
      check "filename" (L.is_file key) (λ f. none) (find "filename" j)
        (check "severity" false (a_string D J L.is_severity) (find "severity" j) r)

  unfoldable pub validate_instance : String × Json → Report → Report
  validate_instance (key, j) r =
      let s = check "enabled" false (a_boolean D J) (find "enabled" j) r in
      if not (L.is_log_type key)
      then fail key ErrorKind.bad_value r
      else if is_skipped (find "enabled" j)
      then s
      else validate_enabled key j s

  unfoldable pub validate_instances : List (String × Json) → Report → Report
  validate_instances [] r = r
  validate_instances (m ∷ ms) r = validate_instances ms (validate_instance m r)

  unfoldable pub validate_logging : Option Json → Report → Report
  validate_logging none r = r
  validate_logging (some j) r =
      if is_object j
      then validate_instances (L.members j) r
      else fail "logging" ErrorKind.wrong_type r

  -- `FlashPTP::validateConfig`, which clears `errs` first.
  unfoldable pub validate_config : ℤ → Json → List ConfigError → Report
  validate_config garbage j errs =
      check_nested (validate_server_mode D J N hex) (find "serverMode" j) (
        check_nested (validate_client_mode D J N hex garbage) (find "clientMode" j)
          (validate_logging (find "logging" j) (start [])))
