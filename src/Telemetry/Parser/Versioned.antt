-- ===== src/Telemetry/Parser/Versioned.antt =====
-- telemetry_parser.py: `_parse_versioned`. The metadata of a message, which no service reads, is
-- left out.
use seed_mg.Prelude.{
  ℕ, String, Bool, false, not, ◌&&◌, Option, none, some, List, [], ◌∷◌, str_eq, if◌then◌else◌, ◌==◌,
  Result, ok, err, ◌>>=◌, ◌>>◌, require, is_some,
}
use seed_mg.Models.Values.{Decimal, Quality}
use seed_mg.Models.Json.{Json, null, text, array, object, Fields, find_field, get_field, is_truthy}
use seed_mg.Models.Telemetry.{NormalizedTelemetry, ChannelValue, ChannelData, ValueKind}
use seed_mg.Telemetry.Parser.{
  ParseError, unsupported_type, unsupported_version, invalid_id, invalid_channel, invalid_quality,
  invalid_kind, invalid_event, refused_by_schema, unhashable, finite_number, bounded_int, uint32,
  optional_uint32, put_channel, channel, fits,
}

abbrev Channels : Type 0
Channels = List (String × ChannelValue)

-- `record_types`, by its keys.
abbrev pub record_type_of : String → Option String
record_type_of t =
    if str_eq t "m"
    then some "measurement"
    else if str_eq t "e"
    then some "event"
    else if str_eq t "h"
    then some "heartbeat"
    else if str_eq t "ca"
    then some "config_ack"
    else if str_eq t "ce"
    then some "config_error"
    else if str_eq t "b"
    then some "burst_fragment"
    else none

abbrev pub quality_named : String → Option Quality
quality_named t =
    if str_eq t "good"
    then some Quality.good
    else if str_eq t "estimated"
    then some Quality.estimated
    else if str_eq t "uncalibrated"
    then some Quality.uncalibrated
    else if str_eq t "invalid"
    then some Quality.invalid
    else if str_eq t "sensor_fault"
    then some Quality.sensor_fault
    else if str_eq t "stale"
    then some Quality.stale
    else none

abbrev pub kind_named : String → Option ValueKind
kind_named t =
    if str_eq t "raw"
    then some ValueKind.raw
    else if str_eq t "filtered"
    then some ValueKind.filtered
    else if str_eq t "calibrated"
    then some ValueKind.calibrated
    else if str_eq t "derived"
    then some ValueKind.derived
    else if str_eq t "state"
    then some ValueKind.state
    else if str_eq t "health"
    then some ValueKind.health
    else none

abbrev pub or_raise : {A : Type 0} → Option A → ParseError → Result ParseError A
or_raise none e = err e
or_raise (some a) e = ok a

-- `value in table`, and the entry: a list or a dictionary cannot be looked up.
abbrev pub named : {A : Type 0} → (String → Option A) → ParseError → Json → Result ParseError A
named table e (text t) = or_raise (table t) e
named table e (array js) = err unhashable
named table e (object fs) = err unhashable
named table e _ = err e

-- `payload.get(key, default)`, looked up in a table.
abbrev pub named_or :
    {A : Type 0} → (String → Option A) → ParseError → A → Option Json → Result ParseError A
named_or table e default none = ok default
named_or table e default (some j) = named table e j

-- `_finite_number(payload[key], key) if payload.get(key) is not None else None`
abbrev pub optional_number : Json → Result ParseError (Option Decimal)
optional_number null = ok none
optional_number j = finite_number j >>= λ d. ok (some d)

abbrev pub identifier_of : Json → Result ParseError (Option String)
identifier_of null = ok none
identifier_of (text t) = if not (str_eq t "") && fits 96 t then ok (some t) else err invalid_id
identifier_of _ = err invalid_id

abbrev pub event_of : Json → Result ParseError (Option String)
event_of null = ok none
event_of (text t) = if fits 96 t then ok (some t) else err invalid_event
event_of _ = err invalid_event

-- The constraint of the schema on `unit`.
abbrev pub unit_of : Json → Result ParseError (Option String)
unit_of null = ok none
unit_of (text t) = if fits 32 t then ok (some t) else err refused_by_schema
unit_of _ = err refused_by_schema

abbrev pub channel_value :
    Option Decimal → Option Decimal → Option String → Quality → ValueKind → ChannelValue
channel_value (some n) (some r) unit quality kind = channel n (some r) unit quality kind
channel_value (some n) none unit quality kind = channel n none unit quality kind
channel_value none (some r) unit quality kind = channel r (some r) unit quality kind
channel_value none none unit quality kind = record {
  value = ChannelData.absent;
  raw_value = none;
  unit = unit;
  quality = quality;
  value_kind = kind;
}

-- The `if channel is not None` block; the schema checks the unit last.
abbrev pub channel_named : Json → Fields → Result ParseError Channels
channel_named null fs = ok []
channel_named (text name) fs = do
  require (not (str_eq name "") && fits 96 name) invalid_channel
  raw ← optional_number (get_field "rv" fs)
  normalized ← optional_number (get_field "nv" fs)
  quality ← named_or quality_named invalid_quality Quality.good (find_field "q" fs)
  kind ←
      named_or kind_named invalid_kind
        (if is_some normalized then ValueKind.calibrated else ValueKind.raw) (find_field "k" fs)
  unit ← unit_of (get_field "u" fs)
  ok ((name, channel_value normalized raw unit quality kind) ∷ [])
channel_named _ fs = err invalid_channel

abbrev pub battery : Option Json → Channels → Result ParseError Channels
battery none cs = ok cs
battery (some j) cs = do
  d ← finite_number j
  ok (
      put_channel "battery_voltage" (channel d none (some "V") Quality.good ValueKind.calibrated)
        cs)

abbrev pub counter : Option Json → String → Channels → Result ParseError Channels
counter none name cs = ok cs
counter (some j) name cs = do
  n ← uint32 j
  ok (
      put_channel name
        (channel (record { negative = false; mantissa = n; scale = 0 }) none (some "count")
          Quality.good ValueKind.health)
        cs)

unfoldable pub heartbeat : Fields → Channels → Result ParseError Channels
heartbeat fs cs = do
  c1 ← battery (find_field "bv" fs) cs
  c2 ← counter (find_field "bu" fs) "buffer_utilization" c1
  c3 ← counter (find_field "dr" fs) "dropped_record_count" c2
  c4 ← counter (find_field "pe" fs) "processing_error_count" c3
  counter (find_field "se" fs) "sensor_error_count" c4

abbrev pub channels_for : String → Fields → Channels → Result ParseError Channels
channels_for type fs cs = if str_eq type "heartbeat" then heartbeat fs cs else ok cs

abbrev is_present : Option Json → Bool
is_present none = false
is_present (some j) = is_truthy j

unfoldable pub parse_versioned : Fields → ℕ → Result ParseError NormalizedTelemetry
parse_versioned fs received = do
  type ← named record_type_of unsupported_type (get_field "t" fs)
  version ← bounded_int 1 255 (get_field "v" fs)
  require (version == 1) unsupported_version
  id ← identifier_of (get_field "id" fs)
  uptime ← optional_uint32 (find_field "ms" fs)
  sequence ← optional_uint32 (find_field "s" fs)
  given ← channel_named (get_field "c" fs) fs
  event ← event_of (get_field "e" fs)
  all_channels ← channels_for type fs given
  ok (record {
    schema_version = version;
    device_id = id;
    device_type = "xiao_mg24_sense";
    record_type = type;
    device_uptime_ms = uptime;
    sequence_number = sequence;
    received_at = received;
    delayed = is_present (find_field "d" fs);
    event = event;
    channels = all_channels;
  })
