-- ===== src/Config/Modes.antt =====
-- The configuration of the two modes: Listener, ServerMode and ClientMode (src/flashptp/server,
-- src/flashptp/client/clientMode.cpp). `hex` is `strtol` with base 16 behind an optional "0x".
use Prim.Native.String.{String}
use flashptpd.Prelude.{
  ℕ, ◌+◌, ◌%◌, ◌^◌, Bool, true, false, not, ◌&&◌, if◌then◌else◌, List, [], ◌∷◌, Option, none, some,
}
use flashptpd.Prelude.Int.{ℤ, pos, negsuc, ltb_ℤ}
use flashptpd.Prelude.Doubles.{Doubles}
use flashptpd.Wire.Tlv.{ServerStateDs}
use flashptpd.Client.Sequence.{TimestampLevel, is_valid_level}
use flashptpd.Selection.{clock_realtime}
use flashptpd.ServerMode.{Request}
use flashptpd.Adjustment.{Adjustment, AdjustmentType}
use flashptpd.Config.{
  JsonApi, ConfigError, Report, check, check_nested, check_items, first_of, key_of, value_or, typed,
  a_boolean, a_string, an_integer, a_port, object, to_unsigned, to_signed, make_all,
}
use flashptpd.Config.Names.{
  Protocol, SelectionType, protocol_from_str, level_from_short_str, is_protocol,
}
use flashptpd.Config.Parts.{
  SelectionConfig, validate_selection, validate_adjustment, make_selection, make_adjustment,
}
use flashptpd.Config.Peers.{Peer, NetworkApi, validate_server, set_server, udp_event_port}

pub record Listener : Type 0 where
  pub invalid : Bool
  pub interface : String
  pub event_port : ℕ
  pub general_port : ℕ
  pub protocol : Protocol
  pub timestamp_level : TimestampLevel
  pub utc_offset : ℤ

pub record ServerMode : Type 0 where
  pub enabled : Bool
  pub server_state_ds : ServerStateDs
  pub listeners : List Listener
  pub requests : List Request

pub record ClientMode (F : Type 0) : Type 0 where
  pub enabled : Bool
  pub servers : List (Peer F)
  pub selection : SelectionConfig
  pub adjustments : List (Adjustment F)
  pub state_file : String
  pub state_table : Bool

-- `new selection::StdDev()`
abbrev pub default_selection : SelectionConfig
default_selection = record {
  type_ = SelectionType.std_dev;
  pick = 1;
  delay_threshold = pos 1500000000;
  intersection_padding = pos 0;
  max_offset_difference = pos 0;
}

module _ (D : Doubles) where
  -- `new adjustment::Adjtimex()`
  abbrev pub default_adjustment : Adjustment D.Double
  default_adjustment = record {
    type_ = AdjustmentType.adjtimex;
    clock_name = "system";
    clock_id = clock_realtime;
    time_addend = pos 0;
    freq_addend = D.of_int (pos 0);
    freq_aggregate = D.of_int (pos 0);
    pid = none;
  }

module _ (D : Doubles) (J : JsonApi D) (N : NetworkApi) (hex : String → ℤ) where
  open D use {Double}
  open J use {Json, is_string, is_number_integer, find, items, get_string, get_bool, get_integer}

  -- `Listener::validateConfig`
  unfoldable pub validate_listener : Json → List ConfigError → Report
  validate_listener = object D J "listeners" λ j r.
      check "utcOffset" false (an_integer D J 32 (negsuc 0x7fff) (pos 0x7fff)) (find "utcOffset" j)
        (check "timestampLevel" false (a_string D J (λ s. is_valid_level (level_from_short_str s)))
          (find "timestampLevel" j)
          (check "protocol" false (a_string D J (λ s. is_protocol (protocol_from_str s)))
            (find "protocol" j)
            (check "generalPort" false (a_port D J) (find "generalPort" j) (
              check (key_of "eventPort" "port" (find "eventPort" j)) false (a_port D J)
                (first_of (find "eventPort" j) (find "port" j))
                (check "interface" true (a_string D J (λ s. true)) (find "interface" j) r)))))

  -- `Listener::setConfig` of a listener that does not run; a missing interface, which is undefined
  -- behaviour, is read as empty text.
  unfoldable pub set_listener : Json → Listener
  set_listener j =
      let interface = value_or get_string "" (find "interface" j) in
      let event =
        value_or (λ i. to_unsigned 16 (get_integer i)) udp_event_port
          (first_of (find "eventPort" j) (find "port" j)) in
      record {
        invalid = not (N.has_interface interface);
        interface = interface;
        event_port = event;
        general_port =
            value_or (λ i. to_unsigned 16 (get_integer i)) ((event + 1) % 2 ^ 16)
              (find "generalPort" j);
        protocol =
            value_or (λ i. protocol_from_str (get_string i)) Protocol.invalid (find "protocol" j);
        timestamp_level =
            value_or (λ i. level_from_short_str (get_string i)) TimestampLevel.hardware
              (find "timestampLevel" j);
        utc_offset = value_or (λ i. to_signed 16 (get_integer i)) (pos 37) (find "utcOffset" j);
      }

  -- A whole number, or a hexadecimal text, between two limits.
  check_number : String → ℕ → Json → Report → Report
  check_number key hi j r = check key false (an_integer D J 32 (pos 0) (pos hi)) (find key j) r

  check_hex : String → ℤ → ℤ → Json → Report → Report
  check_hex key lo hi j r =
      check key false
        (λ i.
          let d = to_signed 32 (hex (get_string i)) in
          typed (is_string i) (not (ltb_ℤ d lo) && not (ltb_ℤ hi d)))
        (find key j) r

  -- `ServerMode::validateConfig`
  unfoldable pub validate_server_mode : Json → List ConfigError → Report
  unfolding check_number check_hex
  validate_server_mode = object D J "serverMode" λ j r.
      check_items D J "listeners" validate_listener (find "listeners" j) (
        check_hex "timeSource" (pos 0x10) (pos 0xfe) j (
          check_number "priority2" 255 j (
            check_number "clockVariance" 65535 j (
              check_hex "clockAccuracy" (pos 0x17) (pos 0x31) j (
                check_number "clockClass" 255 j (
                  check_number "priority1" 255 j
                    (check "enabled" false (a_boolean D J) (find "enabled" j) r)))))))

  number_or : ℕ → ℕ → Option Json → ℕ
  number_or w default found = value_or (λ i. to_unsigned w (get_integer i)) default found

  hex_or : ℕ → Option Json → ℕ
  hex_or default found = value_or (λ i. to_unsigned 8 (hex (get_string i))) default found

  set_listeners : List Json → List Listener
  set_listeners [] = []
  set_listeners (j ∷ js) = set_listener j ∷ set_listeners js

  -- The part of `ServerMode::setConfig` that follows its guards.
  unfoldable pub fill_server_mode : Json → ServerMode
  unfolding number_or hex_or set_listeners
  fill_server_mode j = record {
    enabled = value_or get_bool false (find "enabled" j);
    server_state_ds = record {
      gm_priority1 = number_or 8 128 (find "priority1" j);
      gm_clock_class = number_or 8 248 (find "clockClass" j);
      gm_clock_accuracy = hex_or 0x2f (find "clockAccuracy" j);
      gm_clock_variance = number_or 16 65535 (find "clockVariance" j);
      gm_priority2 = number_or 8 128 (find "priority2" j);
      gm_clock_id = 0;
      steps_removed = 0;
      time_source = hex_or 0x60 (find "timeSource" j);
      reserved = 0;
    };
    listeners = value_or (λ a. set_listeners (items a)) [] (find "listeners" j);
    requests = [];
  }

  -- `ServerMode::setConfig` with `errs` not null, on a mode that runs or not: the mode, the result and
  -- the errors.
  unfoldable pub set_server_mode :
      Bool → Json → List ConfigError → ServerMode → ServerMode × Bool × List ConfigError
  set_server_mode running j errs mode =
      let r = validate_server_mode j errs in
      if not r.valid
      then (mode, false, r.errs)
      else if running
      then (mode, false, r.errs)
      else (fill_server_mode j, true, r.errs)

  -- `ClientMode::validateConfig`
  unfoldable pub validate_client_mode : ℤ → Json → List ConfigError → Report
  validate_client_mode garbage = object D J "clientMode" λ j r.
      check "stateTable" false (a_boolean D J) (find "stateTable" j) (
        check "stateFile" false (a_string D J (λ s. true)) (find "stateFile" j) (
          check_items D J "adjustments" (validate_adjustment D J) (find "adjustments" j) (
            check_nested (validate_selection D J) (find "selection" j) (
              check_items D J "servers" (validate_server D J N garbage) (find "servers" j)
                (check "enabled" false (a_boolean D J) (find "enabled" j) r)))))

  -- The parts of a client; `none` if a null pointer is among them.
  unfoldable pub set_servers : Option Json → Option (List (Peer Double))
  set_servers none = some []
  set_servers (some a) = make_all (set_server D J N) (items a)

  unfoldable pub set_selection : Option Json → Option SelectionConfig
  set_selection none = some default_selection
  set_selection (some i) = make_selection D J i

  unfoldable pub set_adjustments : Option Json → Option (List (Adjustment Double))
  set_adjustments none = some (default_adjustment D ∷ [])
  set_adjustments (some a) = make_all (make_adjustment D J) (items a)

  -- The members that `ClientMode::setConfig` sets.
  abbrev pub client_of :
      Json → List (Peer Double) → SelectionConfig → List (Adjustment Double) → ClientMode Double
  client_of j servers selection adjustments = record {
    enabled = value_or get_bool false (find "enabled" j);
    servers = servers;
    selection = selection;
    adjustments = adjustments;
    state_file = value_or get_string "" (find "stateFile" j);
    state_table = value_or get_bool false (find "stateTable" j);
  }

  -- The part of `ClientMode::setConfig` that follows its guards.
  unfoldable pub fill_client_mode : Json → Option (ClientMode Double)
  fill_client_mode j = elim (set_servers (find "servers" j)) [
    | none ↦ none
    | some servers ↦ elim (set_selection (find "selection" j)) [
      | none ↦ none
      | some selection ↦ elim (set_adjustments (find "adjustments" j)) [
        | none ↦ none
        | some adjustments ↦ some (client_of j servers selection adjustments)
      ]
    ]
  ]

  -- What `ClientMode::setConfig` with `errs` not null does.
  pub data SetClient : Type 0 where
    -- refused, or the mode runs: the mode stays
    refused : List ConfigError → SetClient
    -- a null pointer is stored, which any use then follows
    null_pointer : SetClient
    accepted : ClientMode Double → SetClient

  -- `ClientMode::setConfig` with `errs` not null, on a mode that runs or not.
  unfoldable pub set_client_mode : ℤ → Bool → Json → List ConfigError → SetClient
  set_client_mode garbage running j errs =
      let r = validate_client_mode garbage j errs in
      if not r.valid
      then refused r.errs
      else if running
      then refused r.errs
      else elim (fill_client_mode j) [ none ↦ null_pointer | some c ↦ accepted c ]
