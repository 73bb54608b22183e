-- ===== src/Telemetry/Parser/Message.antt =====
-- telemetry_parser.py: `parse_telemetry`. Decoding and `json.loads` are Python's: the argument
-- `loads` gives the value of the bytes, or `none` where they are no UTF-8 or no JSON.
use seed_mg.Prelude.{
  ℕ, ◌||◌, Option, none, some, List, if◌then◌else◌, ltb, length, Result, ok, err, ◌>>=◌,
}
use seed_mg.Models.Json.{Json, object, Fields, get_field, equals_text, is_truthy, is_hashable}
use seed_mg.Models.Vibration.{VibrationSummary}
use seed_mg.Models.Telemetry.{NormalizedTelemetry}
use seed_mg.Vibration.Statistics.{Floats}
use seed_mg.Telemetry.Parser.{ParseError, too_large, not_json, not_an_object, unhashable}
use seed_mg.Telemetry.Parser.Vibration.{parse_vibration, vibration_record}
use seed_mg.Telemetry.Parser.Legacy.{parse_legacy}
use seed_mg.Telemetry.Parser.Versioned.{parse_versioned}

-- A normalized packet, and its field `vibration`.
pub record Parsed (F : Type 0) : Type 0 where
  pub payload : NormalizedTelemetry
  pub summary : Option (VibrationSummary F)

-- `payload.get("t") or payload.get("type")`
abbrev pub kind_of : Fields → Json
kind_of fs = if is_truthy (get_field "t" fs) then get_field "t" fs else get_field "type" fs

module _ {F : Type 0} (floats : Floats F) (received : ℕ) where
  abbrev pub plain : NormalizedTelemetry → Parsed F
  plain p = record { payload = p; summary = none }

  abbrev pub with_summary : VibrationSummary F → Parsed F
  with_summary s = record { payload = vibration_record floats s received; summary = some s }

  abbrev pub by_kind : Fields → Json → Result ParseError (Parsed F)
  by_kind fs kind =
      if equals_text kind "tele" || equals_text kind "telemetry"
      then (parse_legacy fs received >>= λ p. ok (plain p))
      else if equals_text kind "v"
      then (parse_vibration floats fs >>= λ s. ok (with_summary s))
      else (parse_versioned fs received >>= λ p. ok (plain p))

  unfoldable pub parse_value : Json → Result ParseError (Parsed F)
  parse_value (object fs) =
      if is_hashable (kind_of fs) then by_kind fs (kind_of fs) else err unhashable
  parse_value _ = err not_an_object

  abbrev pub parse_loaded : Option Json → Result ParseError (Parsed F)
  parse_loaded none = err not_json
  parse_loaded (some j) = parse_value j

  unfoldable pub parse_telemetry :
      (List ℕ → Option Json) → ℕ → List ℕ → Result ParseError (Parsed F)
  unfolding parse_value
  parse_telemetry loads max_payload_bytes raw =
      if ltb max_payload_bytes (length raw) then err too_large else parse_loaded (loads raw)
