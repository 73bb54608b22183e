-- ===== src/Telemetry/Parser/Wire.antt =====
-- telemetry_parser.py, against the messages that the nodes send: `message` is the object that
-- `encodeVibrationSummary` of sensor_package/firmware/libraries/SeedMg24Vibration/src/
-- vibration_summary.cpp writes, with its rounded numbers, and `decode` says which summary it is.
use seed_mg.Prelude.{ℕ, ◌≤◌, ◌<◌, ◌≡◌, refl, true, false, ◌>>=◌, arith, ap, ok, ◌∙◌, String}
use seed_mg.Models.Values.{Decimal, decimal_lt}
use seed_mg.Models.Json.{
  Json, Number, numeric, text, array, object, nil, cons, Fields, end, field, find_field, get_field,
  whole, truncate, decimal_eq,
}
use seed_mg.Models.Vibration.{Axes, Validity, VibrationSummary}
use seed_mg.Vibration.Statistics.{Floats}
use seed_mg.Telemetry.Parser.{finite_number, within, bounded_number, uint32, array_of}
use seed_mg.Telemetry.Parser.Vibration.{
  has_keys, vibration_keys, check_version, validity_of, bounded_axis, scaled, scaled_axes, axis,
  positive, summary_of, parse_vibration,
}
use seed_mg.Telemetry.Parser.Message.{with_summary, parse_value}

pub record Wire : Type 0 where
  pub sequence : ℕ
  pub uptime : ℕ
  pub rate : ℕ
  pub validity : Validity
  pub rms : Axes ℕ
  pub peak : Axes ℕ
  pub crest : Axes ℕ
  pub kurtosis : Axes ℕ
  pub frequency : Axes ℕ
  pub amplitude : Axes ℕ
  pub gyro : Axes ℕ

abbrev pub int : ℕ → Json
int n = numeric (Number.integer false n)

abbrev pub ints : Axes ℕ → Json
ints a = array (cons (int a.along_x) (cons (int a.along_y) (cons (int a.along_z) nil)))

abbrev pub code_of : Validity → ℕ
code_of Validity.valid = 1
code_of Validity.invalid = 0

unfoldable pub message : Wire → Fields
message w = field "t" (text "v") (
    field "v" (int 1) (
      field "s" (int w.sequence) (
        field "m" (int w.uptime) (
          field "a" (int 1) (
            field "f" (int w.rate) (
              field "q" (int (code_of w.validity)) (
                field "r" (ints w.rms) (
                  field "p" (ints w.peak) (
                    field "c" (ints w.crest) (
                      field "k" (ints w.kurtosis) (
                        field "d" (ints w.frequency)
                          (field "x" (ints w.amplitude) (field "g" (ints w.gyro) end)))))))))))))

abbrev pub AllAtMost : ℕ → Axes ℕ → Type 0
AllAtMost n a = (a.along_x ≤ n) × (a.along_y ≤ n) × (a.along_z ≤ n)

pub record IsSendable (w : Wire) : Type 0 where
  pub sequence : (0 < w.sequence) × (w.sequence ≤ 0xffff_ffff)
  pub uptime : w.uptime ≤ 0xffff_ffff
  pub rate : (1 ≤ w.rate) × (w.rate ≤ 5000)
  pub rms : AllAtMost 16000 w.rms
  pub peak : AllAtMost 16000 w.peak
  pub crest : AllAtMost 1000 w.crest
  pub kurtosis : AllAtMost 10000 w.kurtosis
  pub frequency : AllAtMost 2500 w.frequency
  pub amplitude : AllAtMost 16000 w.amplitude
  pub gyro : AllAtMost 20000 w.gyro

abbrev wholes : Axes ℕ → Axes Decimal
wholes a = record {
  along_x = whole a.along_x;
  along_y = whole a.along_y;
  along_z = whole a.along_z;
}

finite-int : (n : ℕ) → n ≤ 0xffff_ffff → finite_number (int n) ≡ ok (whole n)
unfolding finite_number
finite-int n h = ground arith

within-whole : (lo hi n : ℕ) → lo ≤ n → n ≤ hi → within lo hi (whole n) ≡ ok (whole n)
unfolding decimal_lt
within-whole lo hi n l h = ground arith

bounded-int :
    (lo hi n : ℕ) → lo ≤ n → n ≤ hi → hi ≤ 0xffff_ffff → bounded_number lo hi (int n) ≡ ok (whole n)
unfolding bounded_number
bounded-int lo hi n l h m = rw (finite-int n (omega arith)) (within-whole lo hi n l h)

uint32-int : (n : ℕ) → n ≤ 0xffff_ffff → uint32 (int n) ≡ ok n
unfolding uint32
uint32-int n h =
    let e : truncate (whole n) ≡ n = omega arith in
    rw (bounded-int 0 0xffff_ffff n (omega arith) h (omega arith)) (ap ok e)

axes-ints :
    (n : ℕ) (a : Axes ℕ) → n ≤ 20000 → AllAtMost n a → bounded_axis n (ints a) ≡ ok (wholes a)
unfolding bounded_axis array_of
axes-ints n a m h = rw (
  finite-int a.along_x (omega arith),
  finite-int a.along_y (omega arith),
  finite-int a.along_z (omega arith),
  within-whole 0 n a.along_x (omega arith) h.0,
  within-whole 0 n a.along_y (omega arith) h.1,
  within-whole 0 n a.along_z (omega arith) h.2,
)

module _ {F : Type 0} (floats : Floats F) where
  -- The summary that a message stands for.
  abbrev pub decode : Wire → VibrationSummary F
  decode w = record {
    schema_version = 1;
    algorithm_version = 1;
    window_sequence = w.sequence;
    device_uptime_ms = w.uptime;
    effective_sample_rate_hz = scaled floats 10 (whole w.rate);
    validity = w.validity;
    accel_rms_g = scaled_axes floats 1000 (wholes w.rms);
    accel_peak_g = scaled_axes floats 1000 (wholes w.peak);
    crest_factor = scaled_axes floats 10 (wholes w.crest);
    kurtosis = scaled_axes floats 10 (wholes w.kurtosis);
    dominant_frequency_hz = scaled_axes floats 10 (wholes w.frequency);
    dominant_amplitude_g = scaled_axes floats 1000 (wholes w.amplitude);
    gyro_rms_dps = scaled_axes floats 10 (wholes w.gyro);
  }

  axis-ints :
      (fs : Fields) (key : String) (n unit : ℕ) (a : Axes ℕ)
      → get_field key fs ≡ ints a
      → n ≤ 20000
      → AllAtMost n a
      → axis floats fs key n unit ≡ ok (scaled_axes floats unit (wholes a))
  axis-ints fs key n unit a there m h =
      ap (λ j. bounded_axis n j >>= λ x. ok (scaled_axes floats unit x)) there
      ∙ ap (λ r. r >>= λ x. ok (scaled_axes floats unit x)) (axes-ints n a m h)

  uint32-message :
      (fs : Fields) (key : String) (n : ℕ)
      → get_field key fs ≡ int n
      → n ≤ 0xffff_ffff
      → uint32 (get_field key fs) ≡ ok n
  uint32-message fs key n there h = rw there (uint32-int n h)

  positive-gt : (n : ℕ) → 0 < n → positive n ≡ ok n
  positive-gt n h = ground arith

  summary-message :
      (w : Wire) → IsSendable w → summary_of floats (message w) w.validity ≡ ok (decode w)
  unfolding summary_of message find_field
  summary-message w h = rw (
    uint32-int w.sequence h.sequence.1,
    uint32-int w.uptime h.uptime,
    bounded-int 1 5000 w.rate h.rate.0 h.rate.1 (omega arith),
    axes-ints 16000 w.rms (omega arith) h.rms,
    axes-ints 16000 w.peak (omega arith) h.peak,
    axes-ints 1000 w.crest (omega arith) h.crest,
    axes-ints 10000 w.kurtosis (omega arith) h.kurtosis,
    axes-ints 2500 w.frequency (omega arith) h.frequency,
    axes-ints 16000 w.amplitude (omega arith) h.amplitude,
    axes-ints 20000 w.gyro (omega arith) h.gyro,
    positive-gt w.sequence h.sequence.0,
  )

  keys-message : (w : Wire) → has_keys vibration_keys (message w) ≡ true
  unfolding has_keys message
  keys-message w = refl

  version-message : (w : Wire) → check_version (message w) ≡ ok tt
  unfolding message find_field decimal_eq decimal_lt
  version-message w = refl

  validity-code : (v : Validity) → validity_of (int (code_of v)) ≡ ok v
  unfolding validity_of decimal_eq decimal_lt
  validity-code Validity.valid = refl
  validity-code Validity.invalid = refl

  validity-message : (w : Wire) → validity_of (get_field "q" (message w)) ≡ ok w.validity
  unfolding message find_field
  validity-message w = validity-code w.validity

  vibration-message : (w : Wire) → IsSendable w → parse_vibration floats (message w) ≡ ok (decode w)
  unfolding parse_vibration
  vibration-message w h =
      rw (keys-message w, version-message w, validity-message w) (summary-message w h)

  -- What a node writes for a window whose numbers lie in their ranges is accepted, as the summary
  -- that the message stands for and a packet of the type `vibration` with its numbers.
  pub parse_value-message :
      (received : ℕ) (w : Wire)
      → IsSendable w
      → parse_value floats received (object (message w))
        ≡ ok (with_summary floats received (decode w))
  unfolding parse_value message find_field
  parse_value-message received w h =
      ap (λ m. m >>= λ s. ok (with_summary floats received s)) (vibration-message w h)
