-- ===== src/Config/Whole.antt =====
-- The validation of a whole configuration reports what it finds (src/flashptp/flashptp.cpp).
use Prim.Native.String.{String}
use flashptpd.Prelude.{false, ◌≡◌, refl, List, [], ◌∷◌, Option, none, some, inl, inr, Bool-cases}
use flashptpd.Prelude.Int.{ℤ}
use flashptpd.Prelude.Doubles.{Doubles}
use flashptpd.Config.{JsonApi, ErrorKind, ConfigError, Report, a_boolean}
use flashptpd.Config.Peers.{NetworkApi}
use flashptpd.Config.Honest.{
  IsHonest, is_nil, start-IsHonest, fail-IsHonest, check-IsHonest, check_nested-IsHonest,
  validate_client_mode-IsHonest, validate_server_mode-IsHonest,
}
use flashptpd.Config.Program.{
  LogApi, is_skipped, validate_enabled, validate_instance, validate_instances, validate_logging,
  validate_config,
}

module _ (D : Doubles) (J : JsonApi D) (N : NetworkApi) (hex : String → ℤ) (L : LogApi D J) where
  open J use {Json, is_object, find}

  validate_instance-IsHonest :
      {errs : List ConfigError} {r : Report} (key : String) (j : Json)
      → IsHonest errs r
      → IsHonest errs (validate_instance D J N hex L (key, j) r)
  unfolding validate_instance validate_enabled
  validate_instance-IsHonest key j h =
      let enabled = check-IsHonest "enabled" false (a_boolean D J) (find "enabled" j) h in
      elim (Bool-cases (L.is_log_type key)) [
        | inr e ↦ rw e (fail-IsHonest key ErrorKind.bad_value h)
        | inl e ↦ elim (Bool-cases (is_skipped D J N hex L (find "enabled" j))) [
          | inl f ↦ rw (e, f) enabled
          | inr f ↦
              rw (e, f)
                (check-IsHonest "filename" (L.is_file key) _ (find "filename" j)
                  (check-IsHonest "severity" false _ (find "severity" j) enabled))
        ]
      ]

  validate_instances-IsHonest :
      {errs : List ConfigError} (ms : List (String × Json)) (r : Report)
      → IsHonest errs r
      → IsHonest errs (validate_instances D J N hex L ms r)
  unfolding validate_instances
  validate_instances-IsHonest [] r h = h
  validate_instances-IsHonest ((key, j) ∷ ms) r h =
      validate_instances-IsHonest ms (validate_instance D J N hex L (key, j) r)
        (validate_instance-IsHonest key j h)

  validate_logging-IsHonest :
      {errs : List ConfigError} (found : Option Json) (r : Report)
      → IsHonest errs r
      → IsHonest errs (validate_logging D J N hex L found r)
  unfolding validate_logging
  validate_logging-IsHonest none r h = h
  validate_logging-IsHonest (some j) r h = elim (Bool-cases (is_object j)) [
    | inl e ↦ rw e (validate_instances-IsHonest (L.members j) r h)
    | inr e ↦ rw e (fail-IsHonest "logging" ErrorKind.wrong_type h)
  ]

  -- Whatever a configuration and whatever errors are handed in, its validation forgets these, and the
  -- result is true exactly if it reports none of its own: no configuration is refused without a message,
  -- and none is accepted with one.
  pub validate_config-IsHonest :
      (garbage : ℤ) (j : Json) (errs : List ConfigError)
      → let r = validate_config D J N hex L garbage j errs in r.valid ≡ is_nil r.errs
  unfolding validate_config
  validate_config-IsHonest garbage j errs =
      let logged = validate_logging-IsHonest (find "logging" j) _ (start-IsHonest []) in
      let client =
        check_nested-IsHonest _ (find "clientMode" j)
          (λ c e. validate_client_mode-IsHonest D J N hex garbage c e) logged in
      let h =
        check_nested-IsHonest _ (find "serverMode" j)
          (λ s e. validate_server_mode-IsHonest D J N hex s e) client in
      rw (h.judged, h.appended) refl
