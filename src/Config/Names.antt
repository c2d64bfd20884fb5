-- ===== src/Config/Names.antt =====
-- The names of enumerators in the configuration: `typeToStr`, `typeFromStr` and the like.
use Prim.Native.String.{String}
use flashptpd.Prelude.{
  ℕ, ◌+◌, Bool, true, false, ◌&&◌, ◌||◌, leb, if◌then◌else◌, List, [], ◌∷◌, map, ◌≡◌, refl,
}
use flashptpd.Prelude.Texts.{codes, same_codes}
use flashptpd.Filter.{FilterType}
use flashptpd.Adjustment.{AdjustmentType}
use flashptpd.Calculation.{CalculationType}
use flashptpd.Client.Sequence.{TimestampLevel}

to_lower : ℕ → ℕ
to_lower c = if leb b'A' c && leb c b'Z' then c + 32 else c

-- `strcmp(a, b) == 0` and `strcasecmp(a, b) == 0`
unfoldable pub same_text : String → String → Bool
same_text a b = same_codes (codes a) (codes b)

unfoldable pub same_name : String → String → Bool
unfolding to_lower
same_name a b = same_codes (map to_lower (codes a)) (map to_lower (codes b))

-- The loop of the `FromStr` functions over the enumerators in order, with the one or two names they
-- are compared with (one name stands twice); `other` is `invalid`.
unfoldable pub from_name : {A : Type 0} → A → List (A × String × String) → String → A
from_name other [] s = other
from_name other ((t, a, b) ∷ rest) s =
    if same_name s a || same_name s b then t else from_name other rest s

pub data SelectionType : Type 0 where
  invalid std_dev btca : SelectionType

pub data Protocol : Type 0 where
  invalid ip4 ip6 ieee_802_3 : Protocol

pub data Version : Type 0 where
  invalid v1 v2_0 v2_1 : Version

abbrev pub filter_type_to_str : FilterType → String
filter_type_to_str FilterType.lucky_packet = "luckyPacket"
filter_type_to_str FilterType.median_offset = "medianOffset"
filter_type_to_str FilterType.invalid = "invalid"

unfoldable pub filter_type_from_str : String → FilterType
filter_type_from_str s =
    from_name FilterType.invalid
      ((FilterType.lucky_packet, "luckyPacket", "luckyPacket")
        ∷ (FilterType.median_offset, "medianOffset", "medianOffset")
        ∷ [])
      s

abbrev pub calculation_type_to_str : CalculationType → String
calculation_type_to_str CalculationType.pass_through = "passThrough"
calculation_type_to_str CalculationType.arithmetic_mean = "arithmeticMean"
calculation_type_to_str CalculationType.invalid = "invalid"

unfoldable pub calculation_type_from_str : String → CalculationType
calculation_type_from_str s =
    from_name CalculationType.invalid
      ((CalculationType.pass_through, "passThrough", "passThrough")
        ∷ (CalculationType.arithmetic_mean, "arithmeticMean", "arithmeticMean")
        ∷ [])
      s

abbrev pub selection_type_to_str : SelectionType → String
selection_type_to_str SelectionType.std_dev = "stdDev"
selection_type_to_str SelectionType.btca = "btca"
selection_type_to_str SelectionType.invalid = "invalid"

abbrev pub selection_type_to_long_str : SelectionType → String
selection_type_to_long_str SelectionType.std_dev = "bestStandardDeviation"
selection_type_to_long_str SelectionType.btca = "bestTimeTransmitterClock"
selection_type_to_long_str SelectionType.invalid = "invalid"

unfoldable pub selection_type_from_str : String → SelectionType
selection_type_from_str s =
    from_name SelectionType.invalid
      ((SelectionType.std_dev, "stdDev", "bestStandardDeviation")
        ∷ (SelectionType.btca, "btca", "bestTimeTransmitterClock")
        ∷ [])
      s

abbrev pub adjustment_type_to_str : AdjustmentType → String
adjustment_type_to_str AdjustmentType.adjtimex = "adjtimex"
adjustment_type_to_str AdjustmentType.pid_controller = "pidController"
adjustment_type_to_str AdjustmentType.invalid = "invalid"

unfoldable pub adjustment_type_from_str : String → AdjustmentType
adjustment_type_from_str s =
    from_name AdjustmentType.invalid
      ((AdjustmentType.adjtimex, "adjtimex", "adjtimex")
        ∷ (AdjustmentType.pid_controller, "pidController", "pidController")
        ∷ [])
      s

abbrev pub protocol_to_short_str : Protocol → String
protocol_to_short_str Protocol.ip4 = "ip4"
protocol_to_short_str Protocol.ip6 = "ip6"
protocol_to_short_str Protocol.ieee_802_3 = "ll2"
protocol_to_short_str Protocol.invalid = "inv"

unfoldable pub protocol_from_str : String → Protocol
protocol_from_str s =
    from_name Protocol.invalid
      ((Protocol.ip4, "ip4", "IPv4")
        ∷ (Protocol.ip6, "ip6", "IPv6")
        ∷ (Protocol.ieee_802_3, "ll2", "IEEE 802.3")
        ∷ [])
      s

abbrev pub version_to_short_str : Version → String
version_to_short_str Version.v1 = "v1"
version_to_short_str Version.v2_0 = "v2"
version_to_short_str Version.v2_1 = "v2.1"
version_to_short_str Version.invalid = "inv"

-- `ptpVersionFromStr`; its loop skips the numbers between the enumerators.
unfoldable pub version_from_str : String → Version
version_from_str s =
    from_name Version.invalid
      ((Version.v1, "v1", "PTPv1")
        ∷ (Version.v2_0, "v2", "PTPv2")
        ∷ (Version.v2_1, "v2.1", "PTPv2.1")
        ∷ [])
      s

abbrev pub level_to_short_str : TimestampLevel → String
level_to_short_str TimestampLevel.invalid = "no"
level_to_short_str TimestampLevel.user = "usr"
level_to_short_str TimestampLevel.socket = "so"
level_to_short_str TimestampLevel.hardware = "hw"

-- `ptpTimestampLevelFromShortStr`, which compares the case too.
unfoldable pub level_from_short_str : String → TimestampLevel
level_from_short_str s =
    if same_text "usr" s
    then TimestampLevel.user
    else if same_text "so" s
    then TimestampLevel.socket
    else if same_text "hw" s
    then TimestampLevel.hardware
    else TimestampLevel.invalid

-- The tests of the enumerators that the validation refuses.
abbrev pub is_filter : FilterType → Bool
is_filter FilterType.invalid = false
is_filter FilterType.lucky_packet = true
is_filter FilterType.median_offset = true

abbrev pub is_calculation : CalculationType → Bool
is_calculation CalculationType.invalid = false
is_calculation CalculationType.pass_through = true
is_calculation CalculationType.arithmetic_mean = true

abbrev pub is_selection : SelectionType → Bool
is_selection SelectionType.invalid = false
is_selection SelectionType.std_dev = true
is_selection SelectionType.btca = true

abbrev pub is_adjustment : AdjustmentType → Bool
is_adjustment AdjustmentType.invalid = false
is_adjustment AdjustmentType.adjtimex = true
is_adjustment AdjustmentType.pid_controller = true

abbrev pub is_protocol : Protocol → Bool
is_protocol Protocol.invalid = false
is_protocol Protocol.ip4 = true
is_protocol Protocol.ip6 = true
is_protocol Protocol.ieee_802_3 = true

-- `version == PTPVersion::invalid || version == PTPVersion::v1` is refused.
abbrev pub is_version_2 : Version → Bool
is_version_2 Version.invalid = false
is_version_2 Version.v1 = false
is_version_2 Version.v2_0 = true
is_version_2 Version.v2_1 = true

filter_type_from_str-filter_type_to_str :
    (t : FilterType) → filter_type_from_str (filter_type_to_str t) ≡ t
unfolding filter_type_from_str from_name same_name codes same_codes
filter_type_from_str-filter_type_to_str FilterType.invalid = refl
filter_type_from_str-filter_type_to_str FilterType.lucky_packet = refl
filter_type_from_str-filter_type_to_str FilterType.median_offset = refl

calculation_type_from_str-calculation_type_to_str :
    (t : CalculationType) → calculation_type_from_str (calculation_type_to_str t) ≡ t
unfolding calculation_type_from_str from_name same_name codes same_codes
calculation_type_from_str-calculation_type_to_str CalculationType.invalid = refl
calculation_type_from_str-calculation_type_to_str CalculationType.pass_through = refl
calculation_type_from_str-calculation_type_to_str CalculationType.arithmetic_mean = refl

selection_type_from_str-selection_type_to_str :
    (t : SelectionType) → selection_type_from_str (selection_type_to_str t) ≡ t
unfolding selection_type_from_str from_name same_name codes same_codes
selection_type_from_str-selection_type_to_str SelectionType.invalid = refl
selection_type_from_str-selection_type_to_str SelectionType.std_dev = refl
selection_type_from_str-selection_type_to_str SelectionType.btca = refl

selection_type_from_str-selection_type_to_long_str :
    (t : SelectionType) → selection_type_from_str (selection_type_to_long_str t) ≡ t
unfolding selection_type_from_str from_name same_name codes same_codes
selection_type_from_str-selection_type_to_long_str SelectionType.invalid = refl
selection_type_from_str-selection_type_to_long_str SelectionType.std_dev = refl
selection_type_from_str-selection_type_to_long_str SelectionType.btca = refl

adjustment_type_from_str-adjustment_type_to_str :
    (t : AdjustmentType) → adjustment_type_from_str (adjustment_type_to_str t) ≡ t
unfolding adjustment_type_from_str from_name same_name codes same_codes
adjustment_type_from_str-adjustment_type_to_str AdjustmentType.invalid = refl
adjustment_type_from_str-adjustment_type_to_str AdjustmentType.adjtimex = refl
adjustment_type_from_str-adjustment_type_to_str AdjustmentType.pid_controller = refl

protocol_from_str-protocol_to_short_str :
    (t : Protocol) → protocol_from_str (protocol_to_short_str t) ≡ t
unfolding protocol_from_str from_name same_name codes same_codes
protocol_from_str-protocol_to_short_str Protocol.invalid = refl
protocol_from_str-protocol_to_short_str Protocol.ip4 = refl
protocol_from_str-protocol_to_short_str Protocol.ip6 = refl
protocol_from_str-protocol_to_short_str Protocol.ieee_802_3 = refl

version_from_str-version_to_short_str :
    (t : Version) → version_from_str (version_to_short_str t) ≡ t
unfolding version_from_str from_name same_name codes same_codes
version_from_str-version_to_short_str Version.invalid = refl
version_from_str-version_to_short_str Version.v1 = refl
version_from_str-version_to_short_str Version.v2_0 = refl
version_from_str-version_to_short_str Version.v2_1 = refl

level_from_short_str-level_to_short_str :
    (t : TimestampLevel) → level_from_short_str (level_to_short_str t) ≡ t
unfolding level_from_short_str same_text codes same_codes
level_from_short_str-level_to_short_str TimestampLevel.invalid = refl
level_from_short_str-level_to_short_str TimestampLevel.user = refl
level_from_short_str-level_to_short_str TimestampLevel.socket = refl
level_from_short_str-level_to_short_str TimestampLevel.hardware = refl

-- The names that the program writes are read back: of every filter, calculation, selection (the short
-- and the long one) and adjustment, with `invalid` for the name of no type; of every protocol, version
-- and time stamp level that is not `invalid`, whose name is read as `invalid`.
from_name-names :
    ((t : FilterType) → filter_type_from_str (filter_type_to_str t) ≡ t)
    × ((t : CalculationType) → calculation_type_from_str (calculation_type_to_str t) ≡ t)
    × ((t : SelectionType) → selection_type_from_str (selection_type_to_str t) ≡ t)
    × ((t : SelectionType) → selection_type_from_str (selection_type_to_long_str t) ≡ t)
    × ((t : AdjustmentType) → adjustment_type_from_str (adjustment_type_to_str t) ≡ t)
    × ((p : Protocol) → protocol_from_str (protocol_to_short_str p) ≡ p)
    × ((v : Version) → version_from_str (version_to_short_str v) ≡ v)
    × ((l : TimestampLevel) → level_from_short_str (level_to_short_str l) ≡ l)
from_name-names = (
  filter_type_from_str-filter_type_to_str, calculation_type_from_str-calculation_type_to_str,
  selection_type_from_str-selection_type_to_str, selection_type_from_str-selection_type_to_long_str,
  adjustment_type_from_str-adjustment_type_to_str, protocol_from_str-protocol_to_short_str,
  version_from_str-version_to_short_str, level_from_short_str-level_to_short_str,
)
