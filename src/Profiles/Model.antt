-- ===== src/Profiles/Model.antt =====
-- gateway/app/profiles/models.py: the profile and the semantic rules of its parts. The limits that
-- `Field` puts on the length or the pattern of a text are pydantic's and are not modelled.
use seed_mg.Prelude.{
  ℕ, String, Bool, true, false, not, ◌&&◌, ◌||◌, Option, none, some, List, [], ◌∷◌, leb, ltb,
  str_eq, is_some, length, any, all, map, mem_text, if◌then◌else◌,
}
use seed_mg.Models.Values.{Decimal, decimal_lt}
use seed_mg.Models.States.{FilterType, same_filter}

pub data ProfileStatus : Type 0 where
  draft unverified verified deprecated disabled : ProfileStatus

pub data InterfaceType : Type 0 where
  analog built_in i2c spi uart digital : InterfaceType

pub data RawDataType : Type 0 where
  integer float boolean : RawDataType

pub data RawUnit : Type 0 where
  adc_count digital_state g dps volt percent : RawUnit

pub data ChannelKind : Type 0 where
  raw filtered calibrated derived : ChannelKind

pub data ConversionType : Type 0 where
  unconfigured identity linear piecewise_linear polynomial lookup_table : ConversionType

pub record Provenance : Type 0 where
  pub source : String
  pub verified : Bool
  pub verified_by : Option String
  pub verified_at : Option String
  pub reference : Option String

pub record InterfaceDefinition : Type 0 where
  pub type : InterfaceType
  pub supported_inputs : List String
  pub supply_voltage : Option Decimal
  pub signal_min : Option Decimal
  pub signal_max : Option Decimal
  pub required_signal_conditioning : Option String
  pub wiring_notes : List String
  pub exclusive : Bool

-- `low is None or high is None or low < high`
unfoldable pub below : Option Decimal → Option Decimal → Bool
below (some low) (some high) = decimal_lt low high
below _ _ = true

unfoldable pub valid_signal_range : InterfaceDefinition → Bool
valid_signal_range i = below i.signal_min i.signal_max

pub record MeasurementChannelDefinition : Type 0 where
  pub channel_id : String
  pub display_name : String
  pub quantity : Option String
  pub raw_data_type : RawDataType
  pub raw_unit : RawUnit
  pub engineering_unit : Option String
  pub range_min : Option Decimal
  pub range_max : Option Decimal
  pub value_kind : ChannelKind

unfoldable pub valid_range : MeasurementChannelDefinition → Bool
valid_range c = below c.range_min c.range_max

pub record ConversionDefinition : Type 0 where
  pub type : ConversionType
  pub gain : Option Decimal
  pub offset : Option Decimal
  pub coefficients : Option (List Decimal)
  pub points : Option (List (Decimal × Decimal))

-- The inputs of the points are strictly increasing.
unfoldable pub increasing : List (Decimal × Decimal) → Bool
increasing [] = true
increasing (p ∷ []) = true
increasing (p ∷ q ∷ rest) = decimal_lt p.0 q.0 && increasing (q ∷ rest)

unfoldable pub enough_points : Option (List (Decimal × Decimal)) → Bool
unfolding increasing
enough_points none = false
enough_points (some points) = leb 2 (length points) && increasing points

unfoldable pub some_coefficients : Option (List Decimal) → Bool
some_coefficients none = false
some_coefficients (some cs) = ltb 0 (length cs) && leb (length cs) 6

unfoldable pub no_parameters : ConversionDefinition → Bool
no_parameters c =
    not (is_some c.gain || is_some c.offset || is_some c.coefficients || is_some c.points)

abbrev parameters_for : ConversionType → ConversionDefinition → Bool
unfolding enough_points some_coefficients no_parameters
parameters_for linear c = is_some c.gain && is_some c.offset
parameters_for polynomial c = some_coefficients c.coefficients
parameters_for piecewise_linear c = enough_points c.points
parameters_for lookup_table c = enough_points c.points
parameters_for unconfigured c = no_parameters c
parameters_for identity c = no_parameters c

unfoldable pub validate_parameters : ConversionDefinition → Bool
unfolding enough_points some_coefficients no_parameters
validate_parameters c = parameters_for c.type c

pub record SamplingDefinition : Type 0 where
  pub minimum_interval_ms : Option ℕ
  pub default_interval_ms : Option ℕ
  pub maximum_interval_ms : Option ℕ

unfoldable pub ordered_intervals : Option ℕ → Option ℕ → Option ℕ → Bool
ordered_intervals (some a) (some b) (some c) = leb a b && leb b c
ordered_intervals _ _ _ = true

unfoldable pub ordered : SamplingDefinition → Bool
unfolding ordered_intervals
ordered s = ordered_intervals s.minimum_interval_ms s.default_interval_ms s.maximum_interval_ms

pub record FilterDefinition : Type 0 where
  pub supported : List FilterType
  pub default : FilterType
  pub maximum_window : ℕ

unfoldable pub default_supported : FilterDefinition → Bool
default_supported f = any (same_filter f.default) f.supported

pub record AlarmDefinition : Type 0 where
  pub supported : Bool
  pub defaults_enabled : Bool
  pub warning_low : Option Decimal
  pub warning_high : Option Decimal
  pub alarm_low : Option Decimal
  pub alarm_high : Option Decimal

unfoldable pub safe_defaults : AlarmDefinition → Bool
safe_defaults a =
    let given =
      is_some a.warning_low
      || is_some a.warning_high
      || is_some a.alarm_low
      || is_some a.alarm_high in
    if a.defaults_enabled then a.supported && given else not given

pub record FirmwareRequirement : Type 0 where
  pub minimum_version : Option String
  pub required_capabilities : List String

pub record SensorProfile : Type 0 where
  pub profile_id : String
  pub profile_version : String
  pub manufacturer : String
  pub model : String
  pub display_name : String
  pub description : String
  pub category : String
  pub datasheet_reference : Option String
  pub status : ProfileStatus
  pub interface : InterfaceDefinition
  pub measurement_channels : List MeasurementChannelDefinition
  pub conversion : ConversionDefinition
  pub sampling : SamplingDefinition
  pub filter : FilterDefinition
  pub alarms : AlarmDefinition
  pub firmware : FirmwareRequirement
  pub provenance : Provenance
  pub deprecated_by : Option String

-- The texts of a list are pairwise distinct: `len(ids) == len(set(ids))`.
unfoldable pub distinct : List String → Bool
distinct [] = true
distinct (x ∷ xs) = not (mem_text x xs) && distinct xs

-- `not text` for a text that may be `None`.
abbrev pub is_blank : Option String → Bool
is_blank none = true
is_blank (some t) = str_eq t ""

abbrev is_calibrated : ConversionType → Bool
is_calibrated unconfigured = false
is_calibrated identity = false
is_calibrated _ = true

abbrev status_rule : ProfileStatus → SensorProfile → Bool
status_rule ProfileStatus.verified p =
    p.provenance.verified
    && not (is_blank p.provenance.verified_by)
    && not (is_blank p.provenance.reference)
status_rule ProfileStatus.deprecated p = not (is_blank p.deprecated_by)
status_rule _ p = true

unfoldable pub semantic_rules : SensorProfile → Bool
unfolding distinct
semantic_rules p =
    distinct (map (λ c. c.channel_id) p.measurement_channels)
    && (if is_calibrated p.conversion.type
        then all (λ c. is_some c.engineering_unit) p.measurement_channels
        else true)
    && status_rule p.status p

abbrev pub catalog_key : SensorProfile → String × String
catalog_key p = (p.profile_id, p.profile_version)
