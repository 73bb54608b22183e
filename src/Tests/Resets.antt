-- ===== src/Tests/Resets.antt =====
-- The theorems on a factory reset over USB, at a sensor that answers and is seen again.
use seed_mg.Prelude.{◌≡◌, ◌⊎◌, refl, Bool, true, false, some, none, List, [], ◌∷◌, err}
use seed_mg.Models.Json.{Json, text, Fields, end, field}
use seed_mg.UsbReset.{
  UsbError, mismatched_confirmation, Confirmation, Subject, authorize, cancel, queued,
  physical_complete, failed, Operation, reply, protocol_error, Sensor, run,
}
use seed_mg.UsbReset.Sound.{IsSound}
use seed_mg.UsbReset.Runs.{run-IsSound}
use seed_mg.UsbReset.Ends.{run-ends}
use seed_mg.UsbReset.Confirmations.{authorize-authorize}

abbrev before : Fields
before =
    field "hardware_id" (text "0x0123456789ABCDEF")
      (field "node_id" (text "MG24-1") (field "firmware_version" (text "1.0.0") end))

abbrev after : Fields
after =
    field "hardware_id" (text "0x0123456789ABCDEF")
      (field "identity_status" (text "unprovisioned") (field "firmware_version" (text "1.0.0") end))

abbrev challenge : Fields
challenge =
    field "hardware_id" (text "0x0123456789ABCDEF")
      (field "operation_id" (text "A1") (field "challenge" (text "C1") end))

-- The first challenge is lost; the sensor is seen again at the second poll.
abbrev sensor : Sensor
sensor = record {
  ports = "COM3" ∷ [];
  first_state = reply before;
  second_state = protocol_error;
  first_challenge = protocol_error;
  second_challenge = reply challenge;
  confirmation = reply challenge;
  polls = [] ∷ (none ∷ some after ∷ []) ∷ [];
}

abbrev operation : Operation
operation = record {
  record_id = 1;
  operation_id = "operation-1";
  device_id = "MG24-1";
  hardware_id = "0x0123456789ABCDEF";
  port = "COM3";
  state = queued;
  progress = [];
  error = none;
  physical_reset_complete = false;
  post_reset = none;
  reset_command_accepted = false;
}

abbrev same : Json → Json → Bool
same a b = true

run-IsSound_example : IsSound same sensor operation (run same sensor operation)
run-IsSound_example = run-IsSound same sensor operation refl

run-ends_example :
    ((run same sensor operation).operation.state ≡ physical_complete)
    ⊎ (((run same sensor operation).operation.state ≡ failed)
        × ((e : UsbError) × ((run same sensor operation).operation.error ≡ some e)))
run-ends_example = run-ends same sensor operation

abbrev subject : Subject
subject = record {
  record_id = 1;
  device_id = "MG24-1";
  hardware_id = "0x0123456789ABCDEF";
  port = "COM3";
}

abbrev issued : List Confirmation
issued =
    record {
      token = "token";
      record_id = 1;
      device_id = "MG24-1";
      hardware_id = "0x0123456789ABCDEF";
      port = "COM3";
      deadline = 120;
    }
    ∷ []

authorize-authorize_example :
    ((authorize "token" subject 6 (authorize "token" subject 5 issued).1).0
      ≡ err mismatched_confirmation)
    × ((cancel "token" subject (authorize "token" subject 5 issued).1).0
        ≡ err mismatched_confirmation)
    × ((authorize "token" subject 6 (cancel "token" subject issued).1).0
        ≡ err mismatched_confirmation)
    × ((cancel "token" subject (cancel "token" subject issued).1).0 ≡ err mismatched_confirmation)
authorize-authorize_example = authorize-authorize "token" subject subject 5 6 issued
