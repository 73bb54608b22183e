-- ===== src/Telemetry/Receive.antt =====
-- telemetry_service.py: `ingest` from the bytes of a notification on, the parser included.
pub mod Laws
use seed_mg.Prelude.{ℕ, String, Option, none, some, List, Result, ok, err}
use seed_mg.Models.Device.{Reading}
use seed_mg.Models.Json.{Json}
use seed_mg.Vibration.Statistics.{Floats}
use seed_mg.Telemetry.Parser.{ParseError}
use seed_mg.Telemetry.Parser.Message.{Parsed, parse_telemetry}
use seed_mg.Telemetry.Service.{IngestError, Intake, Arrival, ingest}

pub data ReceiveError : Type 0 where
  unreadable : ParseError → ReceiveError
  refused : IngestError → ReceiveError

module _ {F : Type 0} (floats : Floats F) where
  -- The packet and its summary, in the circumstances `a`.
  abbrev pub arrival_of : Arrival floats → Parsed F → Arrival floats
  arrival_of a p = record a { payload = p.payload; summary = p.summary }

  abbrev pub as_received :
      Result IngestError (List Reading) × Intake floats
      → Result ReceiveError (List Reading) × Intake floats
  as_received (err e, s) = (err (refused e), s)
  as_received (ok rows, s) = (ok rows, s)

  module _ (loads : List ℕ → Option Json) (max_payload_bytes received : ℕ) (node : String)
      (a : Arrival floats) where
    abbrev pub receive_parsed :
        Intake floats
        → Result ParseError (Parsed F)
        → Result ReceiveError (List Reading) × Intake floats
    receive_parsed s (err e) = (err (unreadable e), s)
    receive_parsed s (ok p) = as_received (ingest floats node (arrival_of a p) s)

    unfoldable pub receive :
        List ℕ → Intake floats → Result ReceiveError (List Reading) × Intake floats
    receive raw s = receive_parsed s (parse_telemetry floats received loads max_payload_bytes raw)
