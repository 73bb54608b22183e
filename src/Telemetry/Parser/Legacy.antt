-- ===== src/Telemetry/Parser/Legacy.antt =====
-- telemetry_parser.py: `_parse_legacy`.
use seed_mg.Prelude.{
  ℕ, String, false, Option, none, some, List, [], ◌∷◌, if◌then◌else◌, Result, ok, err, ◌>>=◌,
}
use seed_mg.Models.Values.{Decimal, Quality}
use seed_mg.Models.Json.{
  Json, null, text, numeric, object, array, Number, nil, cons, Fields, find_field, or_null,
  get_field,
}
use seed_mg.Models.Telemetry.{NormalizedTelemetry, ChannelValue, ValueKind}
use seed_mg.Telemetry.Parser.{
  ParseError, invalid_id, finite_number, bounded_int, optional_uint32, array_of, put_channel,
  channel, fits,
}

abbrev Channels : Type 0
Channels = List (String × ChannelValue)

abbrev pub first_of : Option Json → Option Json → Option Json
first_of (some j) other = some j
first_of none other = other

-- `work.get(...)`: the compact name, or else the long one.
abbrev pub either : String → String → Fields → Option Json
either compact long fs = first_of (find_field compact fs) (find_field long fs)

abbrev raw_if : ValueKind → Decimal → Option Decimal
raw_if ValueKind.raw d = some d
raw_if _ d = none

-- One round of the loop over `mapping`.
abbrev pub scalar :
    Option Json → String → String → ValueKind → Quality → Channels → Result ParseError Channels
scalar none name unit kind quality cs = ok cs
scalar (some j) name unit kind quality cs = do
  d ← finite_number j
  ok (put_channel name (channel d (raw_if kind d) (some unit) quality kind) cs)

abbrev xyz : Fields → Json
xyz fs = array (cons (get_field "x" fs) (cons (get_field "y" fs) (cons (get_field "z" fs) nil)))

-- The short array, or else the object of the long name.
abbrev pub vector_of : Json → Json → Json
vector_of null (object fs) = xyz fs
vector_of j _ = j

abbrev put_all : List String → String → List Decimal → Channels → Channels
put_all [] unit ds cs = cs
put_all (n ∷ ns) unit [] cs = cs
put_all (n ∷ ns) unit (d ∷ ds) cs =
    put_all ns unit ds
      (put_channel n (channel d none (some unit) Quality.good ValueKind.calibrated) cs)

abbrev pub vector : Json → List String → String → Channels → Result ParseError Channels
vector null names unit cs = ok cs
vector j names unit cs = array_of (some 3) 16 j >>= λ ds. ok (put_all names unit ds cs)

abbrev pub analog_names : List String
analog_names =
    "analog_0" ∷ "analog_1" ∷ "analog_2" ∷ "analog_3" ∷ "analog_4" ∷ "analog_5" ∷ "analog_6"
    ∷ "analog_7" ∷ "analog_8" ∷ "analog_9" ∷ "analog_10" ∷ "analog_11" ∷ "analog_12" ∷ "analog_13"
    ∷ "analog_14" ∷ "analog_15" ∷ []

abbrev put_analog : List String → List Decimal → Channels → Channels
put_analog [] ds cs = cs
put_analog (n ∷ ns) [] cs = cs
put_analog (n ∷ ns) (d ∷ ds) cs =
    put_analog ns ds
      (put_channel n (channel d (some d) (some "adc_count") Quality.uncalibrated ValueKind.raw) cs)

abbrev pub analog : Json → Channels → Result ParseError Channels
analog null cs = ok cs
analog j cs = array_of none 16 j >>= λ ds. ok (put_analog analog_names ds cs)

unfoldable pub legacy_channels : Fields → Result ParseError Channels
legacy_channels fs = do
  c1 ← scalar (either "m" "mic" fs) "microphone_raw" "adc_count" ValueKind.raw Quality.good []
  c2 ←
      scalar (either "mp" "mic_pct" fs) "microphone_percent" "percent" ValueKind.derived
        Quality.estimated c1
  c3 ←
      scalar (either "bv" "battery_v" fs) "battery_voltage" "V" ValueKind.calibrated Quality.good c2
  c4 ← scalar (either "l" "led" fs) "led_brightness" "pwm_count" ValueKind.state Quality.good c3
  c5 ←
      vector (vector_of (get_field "a" fs) (get_field "accel" fs))
        ("acceleration_x" ∷ "acceleration_y" ∷ "acceleration_z" ∷ []) "g" c4
  c6 ←
      vector (vector_of (get_field "g" fs) (get_field "gyro" fs))
        ("angular_velocity_x" ∷ "angular_velocity_y" ∷ "angular_velocity_z" ∷ []) "dps" c5
  analog (or_null (either "n" "analog" fs)) c6

-- `payload.get("id")`, where the empty text is an identity.
abbrev pub identity_of : Json → Result ParseError (Option String)
identity_of null = ok none
identity_of (text t) = if fits 96 t then ok (some t) else err invalid_id
identity_of _ = err invalid_id

abbrev pub default_version : Option Json → Json
default_version none = numeric (Number.integer false 1)
default_version (some j) = j

unfoldable pub parse_legacy : Fields → ℕ → Result ParseError NormalizedTelemetry
unfolding legacy_channels
parse_legacy fs received = do
  channels' ← legacy_channels fs
  uptime ← optional_uint32 (find_field "ms" fs)
  sequence ← optional_uint32 (find_field "s" fs)
  schema ← bounded_int 1 255 (default_version (find_field "v" fs))
  id ← identity_of (get_field "id" fs)
  ok (record {
    schema_version = schema;
    device_id = id;
    device_type = "xiao_mg24_sense";
    record_type = "measurement";
    device_uptime_ms = uptime;
    sequence_number = sequence;
    received_at = received;
    delayed = false;
    event = none;
    channels = channels';
  })
