-- ===== src/Tests/Monitoring.antt =====
-- The theorems on vibration monitoring and on the intake of telemetry, at small inputs. The floats
-- are natural numbers.
use seed_mg.Prelude.{
  ℕ, ◌≡◌, inl, ◌≤◌, ◌+◌, ◌-◌, ◌*◌, refl, true, false, Option, none, some, List, [], ◌∷◌, Result, ok,
  err, leb, ltb, if◌then◌else◌, length, row, set_row, arith,
}
use seed_mg.Models.Values.{Quality}
use seed_mg.Models.Vibration.{
  Axes, Validity, VibrationSummary, VibrationBaseline, BaselineStatus, ConditionState,
}
use seed_mg.Models.Device.{Reading}
use seed_mg.Models.Telemetry.{ChannelData, Numeric, ValueKind}
use seed_mg.Node.Capabilities.{capabilities}
use seed_mg.Provisioning.Database.{Database}
use seed_mg.Vibration.Statistics.{Floats}
use seed_mg.Vibration.Condition.{Judged, judge}
use seed_mg.Vibration.Condition.Baseline.{Advances, judge-Advances}
use seed_mg.Vibration.Service.{VibrationError, Tables, Relearned, relearn_baseline}
use seed_mg.Vibration.Service.Laws.{relearn_baseline-relearn_baseline}
use seed_mg.Telemetry.Session.{by_sequence, is_duplicate, remember, session_for}
use seed_mg.Telemetry.Session.Laws.{remember_bounded}
use seed_mg.Telemetry.Persistence.{Packet, PersistenceError, reading, persist}
use seed_mg.Telemetry.Persistence.Laws.{Persisted, persist-eq_ok}
use seed_mg.Telemetry.Service.{IngestError, Arrival, Intake, ingest}
use seed_mg.Telemetry.Service.Laws.{Ignored, ingest-ingest}
use seed_mg.Tests.Data.{node, in_state, tables}
use seed_mg.Models.States.{ProvisioningState}

abbrev pub floats : Floats ℕ
floats = record {
  plus = λ a b. a + b;
  minus = λ a b. a - b;
  times = λ a b. a * b;
  divide = λ a b. a;
  magnitude = λ a. a;
  square_root = λ a. a;
  maximum = λ a b. if ltb a b then b else a;
  minimum = λ a b. if ltb b a then b else a;
  at_least = λ a b. leb b a;
  literal = λ d. d.mantissa;
  of_int = λ n. n;
  is_finite = λ a. true;
}

abbrev pub still : Axes ℕ
still = record { along_x = 1; along_y = 2; along_z = 3 }

abbrev summary : VibrationSummary ℕ
summary = record {
  schema_version = 1;
  algorithm_version = 1;
  window_sequence = 7;
  device_uptime_ms = 1000;
  effective_sample_rate_hz = 416;
  validity = Validity.valid;
  accel_rms_g = still;
  accel_peak_g = still;
  crest_factor = still;
  kurtosis = still;
  dominant_frequency_hz = still;
  dominant_amplitude_g = still;
  gyro_rms_dps = still;
}

abbrev baseline : VibrationBaseline ℕ
baseline = record {
  id = 1;
  registered_device_id = 1;
  installation_id = none;
  baseline_version = 1;
  algorithm_version = 1;
  status = BaselineStatus.building;
  sample_count = 99;
  minimum_samples = 100;
  statistics_json = λ f a. none;
  last_session_id = none;
  last_window_sequence = none;
  created_at = 0;
  established_at = none;
  reason = none;
  last_relearn_request_id = none;
  updated_at = 0;
}

abbrev judged : Option (Judged floats) → Judged floats
judged none = record {
  state = ConditionState.invalid;
  score = none;
  factors = [];
  baseline = baseline;
}
judged (some j) = j

judge_example : judge floats 50 summary baseline ≡ some (judged (judge floats 50 summary baseline))
unfolding judge
judge_example = refl

judge-Advances_example :
    Advances floats 50 summary baseline (judged (judge floats 50 summary baseline)).baseline
judge-Advances_example =
    judge-Advances floats 50 summary baseline (judged (judge floats 50 summary baseline))
      (inl (refl, ground arith)) judge_example

abbrev rows : Tables floats
rows = record {
  devices = node ∷ [];
  installations = [];
  baselines = baseline ∷ [];
  history = [];
  conditions = [];
  windows = [];
}

abbrev relearned : Tables floats
relearned = (relearn_baseline floats 60 none (some "request-1") "node-1" rows).1

abbrev answer : Result VibrationError (Relearned floats) → Relearned floats
answer (ok r) = r
answer (err e) = record { baseline = baseline; duplicate = true }

relearn_example :
    (relearn_baseline floats 60 none (some "request-1") "node-1" rows).0
    ≡ ok (answer (relearn_baseline floats 60 none (some "request-1") "node-1" rows).0)
unfolding relearn_baseline
relearn_example = refl

relearn_baseline-relearn_baseline_example :
    relearn_baseline floats 70 (some "again") (some "request-1") "node-1" relearned ≡ (
      ok (record {
        baseline =
            (answer (relearn_baseline floats 60 none (some "request-1") "node-1" rows).0).baseline;
        duplicate = true;
      }),
      relearned,
    )
relearn_baseline-relearn_baseline_example =
    relearn_baseline-relearn_baseline floats 60 70 none (some "again") "request-1" refl "node-1"
      rows (answer (relearn_baseline floats 60 none (some "request-1") "node-1" rows).0)
      relearn_example

remember_bounded_example :
    (length (remember (by_sequence "measurement" 2) (by_sequence "measurement" 1 ∷ [])) ≤ 256)
    × (is_duplicate
          (by_sequence "measurement" 2)
          (remember (by_sequence "measurement" 2) (by_sequence "measurement" 1 ∷ []))
        ≡ true)
remember_bounded_example =
    remember_bounded (by_sequence "measurement" 2) (by_sequence "measurement" 1 ∷ []) (omega arith)

abbrev packet : Packet
packet = record {
  payload = record {
    schema_version = 1;
    device_id = none;
    device_type = "xiao_mg24_sense";
    record_type = "measurement";
    device_uptime_ms = some 5;
    sequence_number = some 2;
    received_at = 70000000;
    delayed = false;
    event = none;
    channels =
        (
          "microphone_raw",
          record {
            value = ChannelData.numeric (Numeric.boolean true);
            raw_value = none;
            unit = none;
            quality = Quality.good;
            value_kind = ValueKind.raw;
          },
        )
        ∷ [];
  };
  session_id = "session-2";
  measured_at = none;
  encoded_original = "{}";
  gateway_id = "gateway";
  uuid = λ channel. channel;
  now = 80000000;
}

abbrev intake : Database
intake = tables (in_state ProvisioningState.active none ∷ [])

abbrev stored : Result PersistenceError (List Reading) → List Reading
stored (ok rs) = rs
stored (err e) = []

persist_example :
    persist "node-1" packet intake
    ≡ (ok (stored (persist "node-1" packet intake).0), (persist "node-1" packet intake).1)
unfolding persist reading row set_row capabilities
persist_example = refl

persist-eq_ok_example :
    Persisted "node-1" packet intake
      (persist "node-1" packet intake).1
      (stored (persist "node-1" packet intake).0)
persist-eq_ok_example =
    persist-eq_ok "node-1" packet intake (persist "node-1" packet intake).1
      (stored (persist "node-1" packet intake).0) persist_example

abbrev pub arrival : Arrival floats
arrival = record {
  payload = packet.payload;
  summary = none;
  digest = "digest";
  encoded_original = "{}";
  too_large = false;
  fresh_session = "session-2";
  fresh_baseline = 1;
  gateway_id = "gateway";
  uuid = λ channel. channel;
  monitoring = record {
    gateway_id = "gateway";
    minimum_windows = 100;
    persistence_windows = 3;
    persistence_interval = 5000000;
  };
  now = 80000000;
}

abbrev pub start : Intake floats
start = record {
  db = intake;
  vibration = rows;
  session = none;
  dedupe = [];
  counters = record {
    received = 0;
    duplicates = 0;
    rejected = 0;
    baseline_eligible = 0;
    baseline_excluded = 0;
    database_writes = 0;
  };
}

abbrev taken : Result IngestError (List Reading) → List Reading
taken (ok rs) = rs
taken (err e) = []

ingest_example :
    (ingest floats "node-1" arrival start).0 ≡ ok (taken (ingest floats "node-1" arrival start).0)
unfolding ingest persist reading row set_row capabilities session_for remember
ingest_example = refl

-- The same bytes again, a second later, with new ids.
abbrev repetition : Arrival floats
repetition = record arrival {
  payload = record (arrival.payload) { received_at = 81000000; delayed = true };
  fresh_session = "session-3";
  fresh_baseline = 2;
  uuid = λ channel. "again";
  now = 81000000;
}

ingest-ingest_example :
    Ignored floats "node-1" arrival
      (taken (ingest floats "node-1" arrival start).0)
      repetition
      (ingest floats "node-1" arrival start).1
ingest-ingest_example =
    ingest-ingest floats "node-1" arrival (taken (ingest floats "node-1" arrival start).0)
      repetition start
      (record {
        device = refl;
        record_type = refl;
        sequence_number = refl;
        device_uptime = refl;
        digest = refl;
      })
      (omega arith) ingest_example
