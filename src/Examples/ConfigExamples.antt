-- ===== src/Examples/ConfigExamples.antt =====
-- The theorems on the configuration, at concrete values of a small type of JSON.
use Prim.Native.String.{String}
use flashptpd.Prelude.{
  ◌≡◌, refl, Bool, true, false, List, [], ◌∷◌, Option, none, some, if◌then◌else◌,
}
use flashptpd.Prelude.Int.{ℤ, pos, negsuc, ◌-ℤ◌}
use flashptpd.Config as config
use flashptpd.Prelude.Texts.{codes, same_codes}
use flashptpd.Config.{JsonApi, ErrorKind, Report}
use flashptpd.Config.Names.{
  same_text, from_name, same_name, filter_type_from_str, selection_type_from_str,
  level_from_short_str, version_from_str,
}
use flashptpd.Config.Parts.{validate_filter, validate_selection}
use flashptpd.Config.Peers.{NetworkApi, validate_server}
use flashptpd.Config.Modes.{validate_client_mode}
use flashptpd.Config.Honest.{is_nil}
use flashptpd.Config.Program.{LogApi, validate_config}
use flashptpd.Config.Whole.{validate_config-IsHonest}
use flashptpd.Examples.Integers.{integers}

mutual
  data Value : Type 0 where
    text : String → Value
    number : ℤ → Value
    boolean : Bool → Value
    array : Values → Value
    object : Members → Value

  data Values : Type 0 where
    nil : Values
    cons : Value → Values → Values

  data Members : Type 0 where
    empty : Members
    member : String → Value → Members → Members

abbrev find_member : String → Members → Option Value
find_member key empty = none
find_member key (member k v ms) =
    let rest = find_member key ms in if same_text key k then some v else rest

abbrev to_list : Values → List Value
to_list nil = []
to_list (cons v vs) = v ∷ to_list vs

abbrev json : JsonApi integers
json = record {
  Json = Value;
  is_object = λ v. elim v [ object ms ↦ true | _ ↦ false ];
  is_array = λ v. elim v [ array vs ↦ true | _ ↦ false ];
  is_string = λ v. elim v [ text s ↦ true | _ ↦ false ];
  is_boolean = λ v. elim v [ boolean b ↦ true | _ ↦ false ];
  is_number = λ v. elim v [ number n ↦ true | _ ↦ false ];
  is_number_integer = λ v. elim v [ number n ↦ true | _ ↦ false ];
  is_number_unsigned = λ v. elim v [ number (pos n) ↦ true | _ ↦ false ];
  find = λ key v. elim v [ object ms ↦ find_member key ms | _ ↦ none ];
  items = λ v. elim v [ array vs ↦ to_list vs | _ ↦ [] ];
  get_string = λ v. elim v [ text s ↦ s | _ ↦ "" ];
  get_bool = λ v. elim v [ boolean b ↦ b | _ ↦ false ];
  get_integer = λ v. elim v [ number n ↦ n | _ ↦ pos 0 ];
  get_double = λ v. elim v [ number n ↦ n | _ ↦ pos 0 ];
}

-- Any address is valid, and there is one interface.
abbrev network : NetworkApi
network = record {
  saddr_from_str = λ s. true;
  has_interface = λ s. same_text s "eth0";
  has_family_address = λ s a. true;
}

abbrev no_hex : String → ℤ
no_hex s = pos 0x20

abbrev lucky_config : Value
lucky_config = object (member "type" (text "luckyPacket") (member "size" (number (pos 4)) empty))

abbrev server_config : Value
server_config = object (
    member "dstAddress" (text "192.0.2.1") (
      member "srcInterface" (text "eth0") (
        member "interval" (number (negsuc 1)) (
          member "stateInterval" (number (pos 3)) (
            member "dstEventPort" (number (pos 10319))
              (member "filters" (array (cons lucky_config nil)) empty))))))

abbrev client_config : Value
client_config = object (
    member "enabled" (boolean true) (
      member "servers" (array (cons server_config nil))
        (member "selection" (object (member "type" (text "BTCA") empty)) empty)))

abbrev member_list : Members → List (String × Value)
member_list empty = []
member_list (member k v ms) = (k, v) ∷ member_list ms

-- A program with one log, to a file.
abbrev logs : LogApi integers json
logs = record {
  members = λ v. elim v [ object ms ↦ member_list ms | _ ↦ [] ];
  is_log_type = λ s. same_text s "file";
  is_file = λ s. same_text s "file";
  is_severity = λ s. same_text s "info";
  past_end = true;
}

-- The name of the file is missing.
abbrev whole_config : Value
whole_config = object (
    member "logging" (object (member "file" (object (member "enabled" (boolean true) empty)) empty))
      (member "clientMode" client_config empty))

validate_config-IsHonest_example :
    let r = validate_config integers json network no_hex logs (pos 0) whole_config [] in
    r.valid ≡ is_nil r.errs
validate_config-IsHonest_example =
    validate_config-IsHonest integers json network no_hex logs (pos 0) whole_config []

-- The configuration is accepted.
client_is_accepted :
    (validate_client_mode integers json network no_hex (pos 0) client_config []).valid ≡ true
unfolding validate_client_mode config.object config.check config.check_items config.check_nested
    config.nested config.nested_all config.start config.to_signed config.to_unsigned config.fail
    same_text ◌-ℤ◌ validate_server validate_filter filter_type_from_str from_name same_name
    validate_selection selection_type_from_str level_from_short_str version_from_str same_codes
    codes
client_is_accepted = refl
