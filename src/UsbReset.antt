-- ===== src/UsbReset.antt =====
-- gateway/app/services/usb_factory_reset.py: the confirmations of a factory reset, and the task that
-- performs one. The sensor on the serial port is an argument: its answers in the order of the requests,
-- and what the polls until the deadline see. Python's `==` on values of JSON is an argument too.
pub mod Polls
pub mod Sound
pub mod Runs
pub mod Ends
pub mod Confirmations
use seed_mg.Prelude.{
  ℕ, ◌+◌, String, Bool, true, false, not, ◌&&◌, ◌||◌, Option, none, some, List, [], ◌∷◌, ◌++◌,
  if◌then◌else◌, leb, ltb, ◌==◌, str_eq, keep, length, Result, ok, err,
}
use seed_mg.Models.Json.{Json, Fields, find_field, get_field, equals_text, is_null, is_truthy}
use seed_mg.Ble.Task.{Task, ◌>>=◌, ◌>>◌, pure, raise, demand, demand_some}

pub data UsbError : Type 0 where
  one_board_required identity_unreadable wrong_sensor mismatched_confirmation already_active :
      UsbError
  challenge_timed_out challenge_mismatch correlation_mismatch not_readable_again : UsbError
  still_provisioned firmware_changed : UsbError
  key_error client_failed : UsbError

pub record Confirmation : Type 0 where
  pub token : String
  pub record_id : ℕ
  pub device_id : String
  pub hardware_id : String
  pub port : String
  pub deadline : ℕ

-- What a confirmation is for; its scope is always the same.
pub record Subject : Type 0 where
  pub record_id : ℕ
  pub device_id : String
  pub hardware_id : String
  pub port : String

abbrev pub is_for : Subject → Confirmation → Bool
is_for s c =
    c.record_id == s.record_id
    && str_eq c.device_id s.device_id
    && str_eq c.hardware_id s.hardware_id
    && str_eq c.port s.port

unfoldable pub pending : String → List Confirmation → Option Confirmation
pending token [] = none
pending token (c ∷ cs) = if str_eq c.token token then some c else pending token cs

-- `self._confirmations.pop(token, None)`
abbrev pub without : String → List Confirmation → List Confirmation
without token = keep (λ c. not (str_eq c.token token))

-- `prepare`, of the state that `inspect` read. The token and the clock are arguments.
unfoldable pub prepare :
    Subject → Fields → String → ℕ → List Confirmation → Result UsbError Unit × List Confirmation
prepare s state token now cs =
    if not (equals_text (get_field "hardware_id" state) s.hardware_id)
      || not (equals_text (get_field "node_id" state) s.device_id)
    then (err wrong_sensor, cs)
    else (
      ok tt,
      record {
        token = token;
        record_id = s.record_id;
        device_id = s.device_id;
        hardware_id = s.hardware_id;
        port = s.port;
        deadline = now + 120;
      }
          ∷ without token cs,
    )

abbrev pub cancelled : Subject → Option Confirmation → Result UsbError Unit
cancelled s none = err mismatched_confirmation
cancelled s (some c) = if is_for s c then ok tt else err mismatched_confirmation

unfoldable pub cancel :
    String → Subject → List Confirmation → Result UsbError Unit × List Confirmation
unfolding pending
cancel token s cs = (cancelled s (pending token cs), without token cs)

abbrev pub authorized : Subject → ℕ → Option Confirmation → Result UsbError Unit
authorized s now none = err mismatched_confirmation
authorized s now (some c) =
    if is_for s c && ltb now c.deadline then ok tt else err mismatched_confirmation

unfoldable pub authorize :
    String → Subject → ℕ → List Confirmation → Result UsbError Unit × List Confirmation
unfolding pending
authorize token s now cs = (authorized s now (pending token cs), without token cs)

pub data ResetState : Type 0 where
  queued preparing rebooting physical_complete failed : ResetState

pub record Operation : Type 0 where
  pub record_id : ℕ
  pub operation_id : String
  pub device_id : String
  pub hardware_id : String
  pub port : String
  pub state : ResetState
  pub progress : List String
  pub error : Option UsbError
  pub physical_reset_complete : Bool
  pub post_reset : Option Fields
  pub reset_command_accepted : Bool

-- `launch`, up to the task that it creates; `locked` says whether the lock of the sensor is held.
abbrev pub launch : Bool → Subject → String → Result UsbError Operation
launch locked s id =
    if locked
    then err already_active
    else ok (record {
      record_id = s.record_id;
      operation_id = id;
      device_id = s.device_id;
      hardware_id = s.hardware_id;
      port = s.port;
      state = queued;
      progress = [];
      error = none;
      physical_reset_complete = false;
      post_reset = none;
      reset_command_accepted = false;
    })

-- `start`
abbrev pub launched :
    Bool
    → Subject
    → String
    → Result UsbError Unit × List Confirmation
    → Result UsbError Operation × List Confirmation
launched locked s id (ok done, cs) = (launch locked s id, cs)
launched locked s id (err e, cs) = (err e, cs)

unfoldable pub start :
    String
    → Subject
    → ℕ
    → Bool
    → String
    → List Confirmation
    → Result UsbError Operation × List Confirmation
unfolding authorize
start token s now locked id cs = launched locked s id (authorize token s now cs)

pub data Request : Type 0 where
  read_node_state prepare_factory_reset : Request
  confirm_factory_reset : Json → Json → Request

-- The answer of the sensor: its `result`, a `ProtocolError`, or another exception.
pub data Answer : Type 0 where
  reply : Fields → Answer
  protocol_error other_error : Answer

pub record Sensor : Type 0 where
  pub ports : List String
  pub first_state : Answer
  pub second_state : Answer
  pub first_challenge : Answer
  pub second_challenge : Answer
  pub confirmation : Answer
  pub polls : List (List (Option Fields))

-- The operation, and the requests sent so far.
pub record Run : Type 0 where
  pub operation : Operation
  pub requests : List Request

abbrev pub Step : Type 0 → Type 0
Step A = Task UsbError Run A

abbrev pub edit : (Operation → Operation) → Step (Unit {0})
edit f = record { run = λ s. (ok tt, record s { operation = f s.operation }) }

abbrev pub note : String → Step (Unit {0})
note t = edit (λ o. record o { progress = o.progress ++ (t ∷ []) })

abbrev pub ask : Request → Answer → Step Answer
ask r a = record { run = λ s. (ok a, record s { requests = s.requests ++ (r ∷ []) }) }

-- The second of two attempts.
abbrev pub at_last : UsbError → Answer → Step Fields
at_last e (reply fs) = pure fs
at_last e protocol_error = raise e
at_last e other_error = raise client_failed

abbrev pub first_seen : String → List (Option Fields) → Option Fields
first_seen hardware [] = none
first_seen hardware (none ∷ cs) = first_seen hardware cs
first_seen hardware (some fs ∷ cs) =
    let rest = first_seen hardware cs in
    if equals_text (get_field "hardware_id" fs) hardware then some fs else rest

-- The loop until the deadline.
unfoldable pub verified_in : String → List (List (Option Fields)) → Option Fields
verified_in hardware [] = none
verified_in hardware (p ∷ ps) = or_later (first_seen hardware p) (verified_in hardware ps)
  where
    or_later : Option Fields → Option Fields → Option Fields
    or_later none later = later
    or_later (some fs) later = some fs

module _ (same : Json → Json → Bool) (sensor : Sensor) (o : Operation) where
  abbrev pub retry_state : Answer → Step Fields
  retry_state (reply fs) = pure fs
  retry_state protocol_error =
      ask read_node_state sensor.second_state >>= at_last identity_unreadable
  retry_state other_error = raise client_failed

  abbrev pub retry_challenge : Answer → Step Fields
  retry_challenge (reply fs) = pure fs
  retry_challenge protocol_error = do
    note "retrying_device_reset_challenge"
    answer ← ask prepare_factory_reset sensor.second_challenge
    at_last challenge_timed_out answer
  retry_challenge other_error = raise client_failed

  abbrev pub is_selected : Fields → Bool
  is_selected before =
      equals_text (get_field "hardware_id" before) o.hardware_id
      && equals_text (get_field "node_id" before) o.device_id

  abbrev pub taken : Answer → Step Fields
  taken (reply fs) = pure fs
  taken _ = raise client_failed

  -- The sensor accepts the reset with the challenge `prepared`.
  abbrev pub confirm_reset : Fields → Fields → Step Fields
  confirm_reset before prepared = do
    id ← demand_some (find_field "operation_id" prepared) key_error
    secret ← demand_some (find_field "challenge" prepared) key_error
    answer ← ask (confirm_factory_reset id secret) sensor.confirmation
    accepted ← taken answer
    demand (same (get_field "operation_id" accepted) id) correlation_mismatch
    pure before

  -- The challenge for the sensor that was read, and its confirmation.
  abbrev pub challenge_sensor : Fields → Step Fields
  challenge_sensor before = do
    note "physical_identity_verified"
    note "requesting_device_reset_challenge"
    challenge ← ask prepare_factory_reset sensor.first_challenge
    prepared ← retry_challenge challenge
    note "device_challenge_received"
    demand (equals_text (get_field "hardware_id" prepared) o.hardware_id) challenge_mismatch
    note "confirming_device_bound_reset"
    confirm_reset before prepared

  -- The dialogue with the sensor: its state before the reset that it accepted.
  abbrev pub converse : Step Fields
  converse = do
    state ← ask read_node_state sensor.first_state
    before ← retry_state state
    demand (is_selected before) wrong_sensor
    challenge_sensor before

  abbrev pub is_unprovisioned : Fields → Bool
  is_unprovisioned after =
      is_null (get_field "node_id" after)
      && equals_text (get_field "identity_status" after) "unprovisioned"

  abbrev pub keeps_firmware : Fields → Fields → Bool
  keeps_firmware before after =
      is_truthy (get_field "firmware_version" before)
      && same (get_field "firmware_version" after) (get_field "firmware_version" before)

  abbrev pub completed : Fields → Operation → Operation
  completed after p = record p {
    post_reset = some after;
    physical_reset_complete = true;
    state = physical_complete;
    progress =
        p.progress ++ ("same_hardware_reenumerated" ∷ "post_reset_unprovisioned_verified" ∷ []);
  }

  abbrev pub begun : Operation → Operation
  begun p = record p { state = preparing }

  abbrev pub was_accepted : Operation → Operation
  was_accepted p = record p {
    reset_command_accepted = true;
    state = rebooting;
    progress = p.progress ++ ("pre_reboot_key_deletion_verified" ∷ []);
  }

  -- What happens under `try`.
  unfoldable pub perform : Step (Unit {0})
  unfolding verified_in
  perform = do
    edit begun
    demand (length (keep (λ q. str_eq q o.port) sensor.ports) == 1) one_board_required
    before ← converse
    edit was_accepted
    after ← demand_some (verified_in o.hardware_id sensor.polls) not_readable_again
    demand (is_unprovisioned after) still_provisioned
    demand (keeps_firmware before after) firmware_changed
    edit (completed after)

  abbrev pub ended : Result UsbError (Unit {0}) × Run → Run
  ended (ok done, s) = s
  ended (err e, s) = record s {
    operation = record (s.operation) { state = failed; error = some e };
  }

  -- `_run`
  unfoldable pub run : Run
  unfolding perform
  run = ended ((perform).run (record { operation = o; requests = [] }))
