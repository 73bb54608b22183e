-- ===== src/Telemetry/Receive/Laws.antt =====
-- telemetry_service.py: the parser and `ingest` agree on what a vibration packet is.
use seed_mg.Prelude.{
  ℕ, String, ◌≡◌, ◌≢◌, refl, Bool, true, false, Option, none, some, List, Result, ok, err, ◌∙◌,
  is_some,
}
use seed_mg.Models.Device.{Reading}
use seed_mg.Models.Json.{Json}
use seed_mg.Models.Vibration.{VibrationSummary}
use seed_mg.Provisioning.Database.{Database}
use seed_mg.Vibration.Statistics.{Floats}
use seed_mg.Vibration.Service.{Tables, VibrationError, Outcome}
use seed_mg.Telemetry.Persistence.{PersistenceError}
use seed_mg.Telemetry.Session.{NodeSession, is_duplicate}
use seed_mg.Telemetry.Service.{
  IngestError, no_summary, Intake, Arrival, is_vibration, is_mismatched, key_of, session_of,
  processed, ingest_vibration, persisted, ingest_kind, ingest_sized, ingest_new, ingest_own, ingest,
}
use seed_mg.Telemetry.Parser.{ParseError}
use seed_mg.Telemetry.Parser.Message.{Parsed, parse_telemetry}
use seed_mg.Telemetry.Parser.Bounds.Packets.{parse_telemetry-Accepted}
use seed_mg.Telemetry.Receive.{refused, arrival_of, as_received, receive_parsed, receive}

module _ {F : Type 0} (floats : Floats F) (node : String) where
  abbrev HasSummary : Result IngestError (List Reading) × Intake floats → Type 0
  HasSummary r = r.0 ≢ err no_summary

  module _ (a : Arrival floats) (agree : is_some a.summary ≡ is_vibration a.payload) where
    processed-HasSummary :
        (v : VibrationSummary F) (s : Intake floats)
        (x : Result VibrationError (Outcome floats) × Tables floats)
        → HasSummary (processed floats node a v s x)
    processed-HasSummary v s (err e, t) h = cc
    processed-HasSummary v s (ok o, t) h = cc

    vibration-HasSummary :
        (session : String) (s : Intake floats) (o : Option (VibrationSummary F))
        → is_some o ≡ true
        → HasSummary (ingest_vibration floats node a session s o)
    vibration-HasSummary session s none e h = cc
    vibration-HasSummary session s (some v) e h = processed-HasSummary v s _ h

    persisted-HasSummary :
        (s : Intake floats) (x : Result PersistenceError (List Reading) × Database)
        → HasSummary (persisted floats node a s x)
    persisted-HasSummary s (err e, db) h = cc
    persisted-HasSummary s (ok rs, db) h = cc

    kind-HasSummary :
        (session : NodeSession) (s : Intake floats) (k : Bool)
        → is_vibration a.payload ≡ k
        → HasSummary (ingest_kind floats node a session s k)
    kind-HasSummary session s true e h =
        vibration-HasSummary session.session_id _ a.summary (agree ∙ e) h
    kind-HasSummary session s false e h = persisted-HasSummary s _ h

    sized-HasSummary : (s : Intake floats) (k : Bool) → HasSummary (ingest_sized floats node a s k)
    sized-HasSummary s true h = cc
    sized-HasSummary s false h =
        kind-HasSummary (session_of floats a s) _ (is_vibration a.payload) refl h

    new-HasSummary : (s : Intake floats) (k : Bool) → HasSummary (ingest_new floats node a s k)
    new-HasSummary s true h = cc
    new-HasSummary s false h = sized-HasSummary s a.too_large h

    ingest-HasSummary : (s : Intake floats) → HasSummary (ingest floats node a s)
    unfolding ingest
    ingest-HasSummary s h = own (is_mismatched node a.payload.device_id) h
      where
        own : (m : Bool) → HasSummary (ingest_own floats node a s m)
        own true k = cc
        own false k = new-HasSummary s (is_duplicate (key_of floats a) s.dedupe) k

  refused-injective :
      (x : Result IngestError (List Reading) × Intake floats) (e : IngestError)
      → (as_received floats x).0 ≡ err (refused e)
      → x.0 ≡ err e
  refused-injective (err d, s) e h = cc
  refused-injective (ok rows, s) e h = cc

  -- Whatever bytes a node sends, and in whatever state the intake is, `ingest` never finds a packet
  -- of the type `vibration` without a summary: the parser has refused such a packet before.
  pub receive-ne-no_summary :
      (loads : List ℕ → Option Json) (limit received : ℕ) (a : Arrival floats) (raw : List ℕ)
      (s : Intake floats)
      → (receive floats loads limit received node a raw s).0 ≢ err (refused no_summary)
  unfolding receive
  receive-ne-no_summary loads limit received a raw s h =
      of_parsed (parse_telemetry floats received loads limit raw) refl h
    where
      of_parsed :
          (r : Result ParseError (Parsed F))
          → parse_telemetry floats received loads limit raw ≡ r
          → (receive_parsed floats loads limit received node a s r).0 ≢ err (refused no_summary)
      of_parsed (err e) p k = cc
      of_parsed (ok x) p k =
          ingest-HasSummary (arrival_of floats a x)
            (parse_telemetry-Accepted floats received x loads limit raw p).summary_if_vibration s
            (refused-injective (ingest floats node (arrival_of floats a x) s) no_summary k)
