-- ===== src/Config/Peers.antt =====
-- The configuration of a server that the client asks: `Server::validateConfig` and `Server::setConfig`
-- (src/flashptp/client/server.cpp). What the network component says of an address or an interface is a
-- parameter.
use Prim.Native.String.{String}
use flashptpd.Prelude.{
  ℕ, ◌+◌, ◌%◌, ◌^◌, Bool, true, false, not, ◌&&◌, ltb, if◌then◌else◌, List, [], ◌∷◌, Option, none,
  some, replicate,
}
use flashptpd.Prelude.Int.{ℤ, pos, negsuc, max_ℤ}
use flashptpd.Prelude.Doubles.{Doubles}
use flashptpd.Wire.Tlv.{zero_ds}
use flashptpd.Client.Sequence.{TimestampLevel, is_valid_level}
use flashptpd.Client.Server.{Server, ServerState}
use flashptpd.Filter.{Filter}
use flashptpd.Calculation.{Calculation, CalculationType}
use flashptpd.Config.{
  JsonApi, ConfigError, Report, check, check_nested, check_items, first_of, key_of, value_or,
  a_boolean, a_string, an_unsigned, an_integer, a_port, object, to_unsigned, to_signed, make_all,
}
use flashptpd.Config.Names.{Version, version_from_str, level_from_short_str, is_version_2}
use flashptpd.Config.Parts.{
  validate_filter, validate_calculation, make_filter, make_calculation, new_calculation,
}

-- The members that `setConfig` sets, and the object that the rest of the class works on. An address is
-- its text.
pub record Peer (F : Type 0) : Type 0 where
  pub invalid : Bool
  pub dst_address : String
  pub dst_event_port : ℕ
  pub dst_general_port : ℕ
  pub src_interface : String
  pub src_event_port : ℕ
  pub src_general_port : ℕ
  pub one_step : Bool
  pub sync_tlv : Bool
  pub interval : ℤ
  pub state_interval : ℤ
  pub ms_timeout : ℕ
  pub ptp_version : Version
  pub timestamp_level : TimestampLevel
  pub server : Server F

-- `FLASH_PTP_UDP_EVENT_PORT`
abbrev pub udp_event_port : ℕ
udp_event_port = 319

-- `getFamilyAddress` and `hasInterface` of the namespace network, and `Address::saddrFromStr`.
pub record NetworkApi : Type 0 where
  pub saddr_from_str : String → Bool
  pub has_interface : String → Bool
  pub has_family_address : String → String → Bool

module _ (D : Doubles) where
  open D use {Double}

  -- A server as its members' initialisers leave it: `{ INT64_MAX }` sets the first entry only.
  abbrev pub new_server : Bool → List Filter → Calculation Double → Server Double
  new_server no_select filters calculation = record {
    no_select = no_select;
    filters = filters;
    calculation = calculation;
    state = ServerState.initializing;
    reach = 0;
    error_count = 0;
    server_state_ds_valid = false;
    server_state_ds = zero_ds;
    clock_name = [];
    clock_id = negsuc 0;
    sequences = [];
    std_dev_history = max_ℤ ∷ replicate 15 (pos 0);
    std_dev_index = 0;
    std_dev = max_ℤ;
  }

module _ (D : Doubles) (J : JsonApi D) (N : NetworkApi) where
  open D use {Double}
  open J use {Json, is_number_integer, find, items, get_string, get_bool, get_integer}

  -- A port under one key, or under one of two.
  check_port : String → Json → Report → Report
  check_port key j r = check key false (a_port D J) (find key j) r

  check_either_port : String → String → Json → Report → Report
  check_either_port a b j r =
      check (key_of a b (find a j)) false (a_port D J) (first_of (find a j) (find b j)) r

  -- The local variable `requestInterval`, which is only set where it is a whole number: `garbage` is
  -- what it holds before.
  request_interval : ℤ → Json → ℤ
  request_interval garbage j = elim (first_of (find "requestInterval" j) (find "interval" j)) [
    | none ↦ garbage
    | some i ↦ if is_number_integer i then to_signed 8 (get_integer i) else garbage
  ]

  -- The addresses and ports.
  validate_addresses : Json → Report → Report
  unfolding check_port check_either_port
  validate_addresses j r = check_port "srcGeneralPort" j (
      check_either_port "srcEventPort" "srcPort" j (
        check "srcInterface" true (a_string D J (λ s. true)) (find "srcInterface" j) (
          check_port "dstGeneralPort" j (
            check_either_port "dstEventPort" "dstPort" j
              (check "dstAddress" true (a_string D J N.saddr_from_str) (find "dstAddress" j) r)))))

  -- The intervals, the timeout and the flags.
  validate_timing : ℤ → Json → Report → Report
  unfolding request_interval
  validate_timing garbage j r = check "noSelect" false (a_boolean D J) (find "noSelect" j) (
      check "msTimeout" false (an_unsigned D J (λ n. not (ltb n 10) && not (ltb 10000 n)))
        (find "msTimeout" j)
        (check "stateInterval" false (an_integer D J 8 (request_interval garbage j) (pos 7))
          (find "stateInterval" j)
          (check (key_of "requestInterval" "interval" (find "requestInterval" j)) false
            (an_integer D J 8 (negsuc 6) (pos 7))
            (first_of (find "requestInterval" j) (find "interval" j))
            (check "syncTLV" false (a_boolean D J) (find "syncTLV" j)
              (check "oneStep" false (a_boolean D J) (find "oneStep" j) r)))))

  -- The version, the level, the filters and the calculation.
  validate_parts : Json → Report → Report
  validate_parts j r = check_nested (validate_calculation D J) (find "calculation" j) (
      check_items D J "filters" (validate_filter D J) (find "filters" j) (
        check "timestampLevel" false (a_string D J (λ s. is_valid_level (level_from_short_str s)))
          (find "timestampLevel" j)
          (check "ptpVersion" false (a_string D J (λ s. is_version_2 (version_from_str s)))
            (find "ptpVersion" j) r)))

  -- `Server::validateConfig`
  unfoldable pub validate_server : ℤ → Json → List ConfigError → Report
  unfolding validate_addresses validate_timing validate_parts
  validate_server garbage =
      object D J "servers"
        λ j r. validate_parts j (validate_timing garbage j (validate_addresses j r))

  unfoldable pub set_filters : Option Json → Option (List Filter)
  set_filters none = some []
  set_filters (some a) = make_all (make_filter D J) (items a)

  unfoldable pub find_calculation : Option Json → Option (Calculation Double)
  find_calculation none = some (new_calculation D CalculationType.arithmetic_mean)
  find_calculation (some i) = make_calculation D J i

  -- The filters and the calculation; `none` if one of them is a null pointer.
  unfoldable pub set_parts : Json → Option (List Filter × Calculation Double)
  set_parts j = elim (set_filters (find "filters" j)) [
    | none ↦ none
    | some filters ↦ elim (find_calculation (find "calculation" j)) [
      | none ↦ none
      | some calculation ↦ some (filters, calculation)
    ]
  ]

  abbrev port_or : ℕ → Option Json → ℕ
  port_or default found = value_or (λ i. to_unsigned 16 (get_integer i)) default found

  -- The members that `Server::setConfig` sets beside the filters and the calculation. A missing address or
  -- interface, which is undefined behaviour, is read as empty text.
  abbrev pub peer_of : Json → List Filter → Calculation Double → Peer Double
  peer_of j filters calculation =
      let dst = value_or get_string "" (find "dstAddress" j) in
      let interface = value_or get_string "" (find "srcInterface" j) in
      let dst_event =
        port_or udp_event_port (first_of (find "dstEventPort" j) (find "dstPort" j)) in
      let src_event =
        port_or udp_event_port (first_of (find "srcEventPort" j) (find "srcPort" j)) in
      let one = value_or get_bool false (find "oneStep" j) in
      record {
        invalid = not (N.has_interface interface && N.has_family_address interface dst);
        dst_address = dst;
        dst_event_port = dst_event;
        dst_general_port = port_or ((dst_event + 1) % 2 ^ 16) (find "dstGeneralPort" j);
        src_interface = interface;
        src_event_port = src_event;
        src_general_port = port_or ((src_event + 1) % 2 ^ 16) (find "srcGeneralPort" j);
        one_step = one;
        sync_tlv = if one then true else value_or get_bool false (find "syncTLV" j);
        interval =
            value_or (λ i. to_signed 8 (get_integer i)) (pos 0)
              (first_of (find "requestInterval" j) (find "interval" j));
        state_interval =
            value_or (λ i. to_signed 8 (get_integer i)) (pos 0x7f) (find "stateInterval" j);
        ms_timeout = value_or (λ i. to_unsigned 32 (get_integer i)) 2000 (find "msTimeout" j);
        ptp_version =
            value_or (λ i. version_from_str (get_string i)) Version.v2_1 (find "ptpVersion" j);
        timestamp_level =
            value_or (λ i. level_from_short_str (get_string i)) TimestampLevel.hardware
              (find "timestampLevel" j);
        server = new_server D (value_or get_bool false (find "noSelect" j)) filters calculation;
      }

  -- `Server::setConfig` of a server that does not run; `none` if a filter or the calculation is a null
  -- pointer.
  unfoldable pub set_server : Json → Option (Peer Double)
  set_server j = elim (set_parts j) [ none ↦ none | some parts ↦ some (peer_of j parts.0 parts.1) ]
