-- ===== src/Telemetry/Parser.antt =====
-- gateway/app/ble/telemetry_parser.py: the checks of a value. `parse_telemetry` stands in
-- Parser.Message, and the three kinds of messages in the modules beside it. The numbers of a
-- message are decimals: the parser returns a number as it came.
pub mod Vibration
pub mod Legacy
pub mod Versioned
pub mod Message
pub mod Bounds
pub mod Wire
use seed_mg.Prelude.{
  ℕ, suc, ◌-◌, ◌^◌, String, Bool, true, false, not, ◌&&◌, ◌||◌, Option, none, some, List, [], ◌∷◌,
  ◌++◌, map, str_eq, if◌then◌else◌, leb, ltb, ◌==◌, length, Result, ok, err, ◌>>=◌, ◌>>◌, require,
  text_length,
}
use seed_mg.Models.Values.{Decimal, decimal_lt, Quality}
use seed_mg.Models.Json.{
  Number, integer, float, not_finite, Json, numeric, text, array, Items, nil, cons, Fields,
  find_field, whole, truncate,
}
use seed_mg.Models.Telemetry.{Numeric, ChannelValue, ChannelData, ValueKind}

-- The messages of `TelemetryParseError`, what pydantic refuses, and the two exceptions that are no
-- ValueError: `TypeError` of a set that is asked for a list, `OverflowError` of `float`.
pub data ParseError : Type 0 where
  too_large not_json not_an_object not_numeric not_a_finite_number out_of_range bad_length :
      ParseError
  unexpected_fields unsupported_version invalid_validity unsupported_type invalid_id : ParseError
  invalid_channel invalid_quality invalid_kind invalid_event refused_by_schema : ParseError
  unhashable float_overflow : ParseError

-- From this integer on, `float` raises: it is half-way from the largest float to 2 ^ 1024.
float_limit : ℕ
float_limit = 2 ^ 1024 - 2 ^ 970

-- `_finite_number` without bounds.
unfoldable pub finite_number : Json → Result ParseError Decimal
unfolding float_limit
finite_number (numeric (integer sign n)) =
    if leb float_limit n
    then err float_overflow
    else ok (record { negative = sign; mantissa = n; scale = 0 })
finite_number (numeric (float d)) = ok d
finite_number (numeric not_finite) = err not_a_finite_number
finite_number _ = err not_numeric

abbrev pub is_within : ℕ → ℕ → Decimal → Bool
is_within lo hi d = not (decimal_lt d (whole lo)) && not (decimal_lt (whole hi) d)

abbrev pub within : ℕ → ℕ → Decimal → Result ParseError Decimal
within lo hi d = if is_within lo hi d then ok d else err out_of_range

-- `_finite_number` with both bounds.
unfoldable pub bounded_number : ℕ → ℕ → Json → Result ParseError Decimal
bounded_number lo hi j = finite_number j >>= within lo hi

abbrev pub max_uint32 : ℕ
max_uint32 = 0xffff_ffff

-- `int(_finite_number(value, field, lo, hi))`
unfoldable pub bounded_int : ℕ → ℕ → Json → Result ParseError ℕ
bounded_int lo hi j = bounded_number lo hi j >>= λ d. ok (truncate d)

unfoldable pub uint32 : Json → Result ParseError ℕ
unfolding bounded_int
uint32 = bounded_int 0 max_uint32

-- `_uint32(payload[key], key) if key in payload else None`
abbrev pub optional_uint32 : Option Json → Result ParseError (Option ℕ)
optional_uint32 none = ok none
optional_uint32 (some j) = uint32 j >>= λ n. ok (some n)

abbrev pub items_length : Items → ℕ
items_length nil = 0
items_length (cons j js) = suc (items_length js)

unfoldable pub finite_numbers : Items → Result ParseError (List Decimal)
finite_numbers nil = ok []
finite_numbers (cons j js) = finite_number j >>= λ d. finite_numbers js >>= λ ds. ok (d ∷ ds)

abbrev pub has_length : Option ℕ → ℕ → ℕ → Bool
has_length none maximum n = leb n maximum
has_length (some exact) maximum n = leb n maximum && n == exact

-- `_array`
unfoldable pub array_of : Option ℕ → ℕ → Json → Result ParseError (List Decimal)
unfolding finite_numbers
array_of exact maximum (array js) =
    if has_length exact maximum (items_length js) then finite_numbers js else err bad_length
array_of exact maximum _ = err bad_length

-- `channels[name] = value` of a dictionary that keeps its order.
unfoldable pub put_channel :
    String → ChannelValue → List (String × ChannelValue) → List (String × ChannelValue)
put_channel name value [] = (name, value) ∷ []
put_channel name value (c ∷ cs) =
    let rest = put_channel name value cs in if str_eq c.0 name then (name, value) ∷ cs else c ∷ rest

abbrev pub decimal_data : Decimal → ChannelData
decimal_data d = ChannelData.numeric (Numeric.number d)

abbrev pub channel : Decimal → Option Decimal → Option String → Quality → ValueKind → ChannelValue
channel value raw unit quality kind = record {
  value = decimal_data value;
  raw_value = raw_number raw;
  unit = unit;
  quality = quality;
  value_kind = kind;
}
  where
    raw_number : Option Decimal → Option Numeric
    raw_number none = none
    raw_number (some d) = some (Numeric.number d)

-- A text of at most `n` characters.
abbrev pub fits : ℕ → String → Bool
fits n t = leb (text_length t) n
