-- ===== src/Telemetry/Service.antt =====
-- telemetry_service.py: `ingest`, from the packet that the parser gives. The floats of a vibration
-- summary and their arithmetic are those of vibration monitoring.
pub mod Laws
use seed_mg.Prelude.{
  ℕ, suc, ◌+◌, ◌-◌, ◌*◌, String, Bool, true, false, not, Option, none, some, List, [], str_eq,
  if◌then◌else◌, Result, ok, err,
}
use seed_mg.Models.Device.{Reading}
use seed_mg.Models.Telemetry.{NormalizedTelemetry}
use seed_mg.Models.Vibration.{VibrationSummary, Validity}
use seed_mg.Provisioning.Database.{Database}
use seed_mg.Telemetry.Session.{
  NodeSession, BootTime, session_for, DedupeKey, dedupe_key, is_duplicate, remember,
}
use seed_mg.Telemetry.Persistence.{PersistenceError, Packet, persist}
use seed_mg.Vibration.Statistics.{Floats}
use seed_mg.Vibration.Service.{Tables, VibrationError, Outcome, Service, process}

pub data IngestError : Type 0 where
  device_mismatch payload_too_large no_summary : IngestError
  vibration_failed : VibrationError → IngestError
  persistence_failed : PersistenceError → IngestError

-- `vibration_counters`
pub record Counters : Type 0 where
  pub received : ℕ
  pub duplicates : ℕ
  pub rejected : ℕ
  pub baseline_eligible : ℕ
  pub baseline_excluded : ℕ
  pub database_writes : ℕ

abbrev pub is_vibration : NormalizedTelemetry → Bool
is_vibration p = str_eq p.record_type "vibration"

-- `payload.device_id is not None and payload.device_id != registered_device_id`
abbrev pub is_mismatched : String → Option String → Bool
is_mismatched node none = false
is_mismatched node (some id) = not (str_eq id node)

-- `measured_at` of `_session_for`: within a session the uptime is at least that of its start.
abbrev pub measured_at_of : Option BootTime → Option ℕ → Option ℕ
measured_at_of none uptime = none
measured_at_of (some b) none = none
measured_at_of (some b) (some u) = some (b.received_at + 1000 * u - 1000 * b.uptime)

module _ {F : Type 0} (floats : Floats F) where
  -- The rows, and the entries of one node in the dictionaries of the service.
  pub record Intake : Type 0 where
    pub db : Database
    pub vibration : Tables floats
    pub session : Option NodeSession
    pub dedupe : List DedupeKey
    pub counters : Counters

  -- One message: the parsed packet, its summary, and what the service is given from outside.
  pub record Arrival : Type 0 where
    pub payload : NormalizedTelemetry
    pub summary : Option (VibrationSummary F)
    pub digest : String
    pub encoded_original : String
    pub too_large : Bool
    pub fresh_session : String
    pub fresh_baseline : ℕ
    pub gateway_id : String
    pub uuid : String → String
    pub monitoring : Service floats
    pub now : ℕ

  abbrev pub key_of : Arrival → DedupeKey
  key_of a = dedupe_key a.payload a.digest

  abbrev count_duplicate : Bool → Counters → Counters
  count_duplicate true c = record c { duplicates = suc c.duplicates }
  count_duplicate false c = c

  abbrev count_rejected : Counters → Counters
  count_rejected c = record c { rejected = suc c.rejected }

  abbrev count_validity : Validity → Counters → Counters
  count_validity Validity.valid c = record c { baseline_eligible = suc c.baseline_eligible }
  count_validity Validity.invalid c = record c { baseline_excluded = suc c.baseline_excluded }

  abbrev count_write : Bool → Counters → Counters
  count_write true c = record c { database_writes = suc c.database_writes }
  count_write false c = c

  abbrev pub session_of : Arrival → Intake → NodeSession
  session_of a s =
      session_for a.fresh_session a.payload.received_at s.session a.payload.device_uptime_ms

  -- The rows that both kinds of monitoring read.
  abbrev tables_of : Intake → Tables floats
  tables_of s = record (s.vibration) { devices = s.db.devices; installations = s.db.installations }

  abbrev pub packet_of : Arrival → NodeSession → Packet
  packet_of a session = record {
    payload = a.payload;
    session_id = session.session_id;
    measured_at = measured_at_of session.boot_time a.payload.device_uptime_ms;
    encoded_original = a.encoded_original;
    gateway_id = a.gateway_id;
    uuid = a.uuid;
    now = a.now;
  }

  module _ (node : String) (a : Arrival) where
    abbrev pub processed :
        VibrationSummary F
        → Intake
        → Result VibrationError (Outcome floats) × Tables floats
        → Result IngestError (List Reading) × Intake
    processed v s (err e, t) =
        (err (vibration_failed e), record s { counters = count_rejected s.counters })
    processed v s (ok o, t) = (
      ok [],
      record s {
        vibration = t;
        counters = count_write o.persisted (count_validity v.validity s.counters);
        dedupe = remember (key_of a) s.dedupe;
      },
    )

    abbrev pub ingest_vibration :
        String → Intake → Option (VibrationSummary F) → Result IngestError (List Reading) × Intake
    ingest_vibration session s none =
        (err no_summary, record s { counters = count_rejected s.counters })
    ingest_vibration session s (some v) = processed v s (
        process floats a.monitoring session a.payload.received_at a.now v node a.fresh_baseline
          (tables_of s))

    abbrev pub persisted :
        Intake
        → Result PersistenceError (List Reading) × Database
        → Result IngestError (List Reading) × Intake
    persisted s (err e, db) = (err (persistence_failed e), s)
    persisted s (ok rows, db) =
        (ok rows, record s { db = db; dedupe = remember (key_of a) s.dedupe })

    abbrev pub ingest_kind :
        NodeSession → Intake → Bool → Result IngestError (List Reading) × Intake
    ingest_kind session s true =
        ingest_vibration session.session_id
          (record s { counters = record (s.counters) { received = suc s.counters.received } })
          a.summary
    ingest_kind session s false = persisted s (persist node (packet_of a session) s.db)

    abbrev pub ingest_sized : Intake → Bool → Result IngestError (List Reading) × Intake
    ingest_sized s true = (err payload_too_large, s)
    ingest_sized s false =
        let session = session_of a s in
        ingest_kind session (record s { session = some session }) (is_vibration a.payload)

    abbrev pub ingest_new : Intake → Bool → Result IngestError (List Reading) × Intake
    ingest_new s true =
        (ok [], record s { counters = count_duplicate (is_vibration a.payload) s.counters })
    ingest_new s false = ingest_sized s a.too_large

    abbrev pub ingest_own : Intake → Bool → Result IngestError (List Reading) × Intake
    ingest_own s true = (err device_mismatch, s)
    ingest_own s false = ingest_new s (is_duplicate (key_of a) s.dedupe)

    unfoldable pub ingest : Intake → Result IngestError (List Reading) × Intake
    ingest s = ingest_own s (is_mismatched node a.payload.device_id)
