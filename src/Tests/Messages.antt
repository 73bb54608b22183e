-- ===== src/Tests/Messages.antt =====
-- The theorems on the telemetry parser, at a message of a vibration window.
use seed_mg.Prelude.{ℕ, ◌≡◌, ◌≢◌, arith, Option, some, List, [], ◌∷◌, ok, err}
use seed_mg.Models.Json.{Json, object}
use seed_mg.Models.Vibration.{Validity}
use seed_mg.Telemetry.Parser.Message.{with_summary, parse_value, parse_telemetry}
use seed_mg.Telemetry.Parser.Wire.{Wire, IsSendable, message, decode, parse_value-message}
use seed_mg.Telemetry.Parser.Bounds.Packets.{Accepted, parse_telemetry-Accepted}
use seed_mg.Telemetry.Service.{no_summary}
use seed_mg.Telemetry.Receive.{receive, refused}
use seed_mg.Telemetry.Receive.Laws.{receive-ne-no_summary}
use seed_mg.Tests.Monitoring.{floats, still, arrival, start}

abbrev window : Wire
window = record {
  sequence = 7;
  uptime = 1000;
  rate = 4160;
  validity = Validity.valid;
  rms = still;
  peak = still;
  crest = still;
  kurtosis = still;
  frequency = still;
  amplitude = still;
  gyro = still;
}

abbrev window-IsSendable : IsSendable window
window-IsSendable = record {
  sequence = (omega arith, omega arith);
  uptime = omega arith;
  rate = (omega arith, omega arith);
  rms = (omega arith, omega arith, omega arith);
  peak = (omega arith, omega arith, omega arith);
  crest = (omega arith, omega arith, omega arith);
  kurtosis = (omega arith, omega arith, omega arith);
  frequency = (omega arith, omega arith, omega arith);
  amplitude = (omega arith, omega arith, omega arith);
  gyro = (omega arith, omega arith, omega arith);
}

parse_value-message_example :
    parse_value floats 5 (object (message window))
    ≡ ok (with_summary floats 5 (decode floats window))
parse_value-message_example = parse_value-message floats 5 window window-IsSendable

-- The bytes of any notification are read as the window.
abbrev loads : List ℕ → Option Json
loads raw = some (object (message window))

parse_example :
    parse_telemetry floats 5 loads 512 (123 ∷ 125 ∷ [])
    ≡ ok (with_summary floats 5 (decode floats window))
unfolding parse_telemetry
parse_example = parse_value-message floats 5 window window-IsSendable

parse_telemetry-Accepted_example : Accepted floats 5 (with_summary floats 5 (decode floats window))
parse_telemetry-Accepted_example =
    parse_telemetry-Accepted floats 5 (with_summary floats 5 (decode floats window)) loads 512
      (123 ∷ 125 ∷ []) parse_example

receive-ne-no_summary_example :
    (receive floats loads 512 5 "node-1" arrival (123 ∷ 125 ∷ []) start).0
    ≢ err (refused no_summary)
receive-ne-no_summary_example =
    receive-ne-no_summary floats "node-1" loads 512 5 arrival (123 ∷ 125 ∷ []) start
