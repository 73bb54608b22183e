-- ===== src/Telemetry/Parser/Vibration.antt =====
-- telemetry_parser.py: `_parse_vibration`. The divisions of Python's floats are those of `floats`.
use seed_mg.Prelude.{
  ℕ, String, Bool, false, not, ◌&&◌, none, some, List, [], ◌∷◌, if◌then◌else◌, all, mem_text, ◌==◌,
  Result, ok, err, ◌>>=◌, ◌>>◌, require,
}
use seed_mg.Models.Values.{Decimal}
use seed_mg.Models.Json.{Json, Fields, end, field, get_field, equals_number, is_hashable, whole}
use seed_mg.Models.Vibration.{Axes, Validity, VibrationSummary}
use seed_mg.Models.Telemetry.{NormalizedTelemetry}
use seed_mg.Vibration.Statistics.{Floats}
use seed_mg.Telemetry.Parser.{
  ParseError, unexpected_fields, unsupported_version, invalid_validity, refused_by_schema,
  bad_length, unhashable, within, bounded_number, uint32, array_of,
}

abbrev pub vibration_keys : List String
vibration_keys =
    "t" ∷ "v" ∷ "s" ∷ "m" ∷ "a" ∷ "f" ∷ "q" ∷ "r" ∷ "p" ∷ "c" ∷ "k" ∷ "d" ∷ "x" ∷ "g" ∷ []

abbrev pub keys_of : Fields → List String
keys_of end = []
keys_of (field k v fs) = k ∷ keys_of fs

-- `set(payload) == {...}`
unfoldable pub has_keys : List String → Fields → Bool
has_keys expected fs =
    all (λ k. mem_text k expected) (keys_of fs) && all (λ k. mem_text k (keys_of fs)) expected

-- The bounds of `_bounded_axis`, for the three values of the array.
abbrev pub axes_within : ℕ → List Decimal → Result ParseError (Axes Decimal)
axes_within maximum (x ∷ y ∷ z ∷ []) = do
  x' ← within 0 maximum x
  y' ← within 0 maximum y
  z' ← within 0 maximum z
  ok (record { along_x = x'; along_y = y'; along_z = z' })
axes_within maximum _ = err bad_length

-- `_bounded_axis`
unfoldable pub bounded_axis : ℕ → Json → Result ParseError (Axes Decimal)
bounded_axis maximum j = array_of (some 3) 16 j >>= axes_within maximum

-- `quality not in {0, 1}` and `"valid" if quality == 1 else "invalid"`
unfoldable pub validity_of : Json → Result ParseError Validity
validity_of q =
    if not (is_hashable q)
    then err unhashable
    else if equals_number q 1
    then ok Validity.valid
    else if equals_number q 0
    then ok Validity.invalid
    else err invalid_validity

abbrev pub check_version : Fields → Result ParseError Unit
check_version fs =
    require (equals_number (get_field "v" fs) 1 && equals_number (get_field "a" fs) 1)
      unsupported_version

-- The constraint of the schema on `window_sequence`.
abbrev pub positive : ℕ → Result ParseError ℕ
positive n = if n == 0 then err refused_by_schema else ok n

module _ {F : Type 0} (floats : Floats F) where
  -- `float(value) / n`
  abbrev pub scaled : ℕ → Decimal → F
  scaled n d = floats.divide (floats.literal d) (floats.literal (whole n))

  abbrev pub scaled_axes : ℕ → Axes Decimal → Axes F
  scaled_axes n a = record {
    along_x = scaled n a.along_x;
    along_y = scaled n a.along_y;
    along_z = scaled n a.along_z;
  }

  abbrev pub axis : Fields → String → ℕ → ℕ → Result ParseError (Axes F)
  axis fs key maximum unit = do a ← bounded_axis maximum (get_field key fs); ok (scaled_axes unit a)

  unfoldable pub summary_of : Fields → Validity → Result ParseError (VibrationSummary F)
  summary_of fs validity = do
    sequence ← uint32 (get_field "s" fs)
    uptime ← uint32 (get_field "m" fs)
    rate ← bounded_number 1 5000 (get_field "f" fs)
    rms ← axis fs "r" 16000 1000
    peak ← axis fs "p" 16000 1000
    crest_factor ← axis fs "c" 1000 10
    kurt ← axis fs "k" 10000 10
    frequency ← axis fs "d" 2500 10
    amplitude ← axis fs "x" 16000 1000
    gyro ← axis fs "g" 20000 10
    window ← positive sequence
    ok (record {
      schema_version = 1;
      algorithm_version = 1;
      window_sequence = window;
      device_uptime_ms = uptime;
      effective_sample_rate_hz = scaled 10 rate;
      validity = validity;
      accel_rms_g = rms;
      accel_peak_g = peak;
      crest_factor = crest_factor;
      kurtosis = kurt;
      dominant_frequency_hz = frequency;
      dominant_amplitude_g = amplitude;
      gyro_rms_dps = gyro;
    })

  abbrev pub vibration_record : VibrationSummary F → ℕ → NormalizedTelemetry
  vibration_record s received = record {
    schema_version = 1;
    device_id = none;
    device_type = "xiao_mg24_sense";
    record_type = "vibration";
    device_uptime_ms = some s.device_uptime_ms;
    sequence_number = some s.window_sequence;
    received_at = received;
    delayed = false;
    event = none;
    channels = [];
  }

  unfoldable pub parse_vibration : Fields → Result ParseError (VibrationSummary F)
  unfolding summary_of
  parse_vibration fs = do
    require (has_keys vibration_keys fs) unexpected_fields
    check_version fs
    validity ← validity_of (get_field "q" fs)
    summary_of fs validity
