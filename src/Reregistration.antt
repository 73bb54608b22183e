-- ===== src/Reregistration.antt =====
-- gateway/app/services/reset_reregister_workflow.py: the durable state of the workflow that resets a
-- sensor and registers it again, and the row `SensorReregistrationWorkflow` of models.py.
pub mod Progress
pub mod Starting
pub mod Reach
use seed_mg.Prelude.{
  ℕ, ◌+◌, ◌-◌, String, Bool, true, false, not, ◌&&◌, ◌||◌, Option, none, some, List, [], ◌∷◌, ◌++◌,
  map, if◌then◌else◌, ltb, leb, ◌==◌, str_eq, length, keep, row, set_row, Result, ok, err, ◌>>=◌,
  ◌>>◌, require, require_some,
}
use seed_mg.Models.Json.{Json, null, text, array, Items, nil, cons, Fields, end, field, find_field}
use seed_mg.Models.Device.{RegisteredDevice}
use seed_mg.Models.Installation.{SensorInstallation, InstallationConfiguration}

pub data WorkflowState : Type 0 where
  sensor_selected usb_connection_required physical_identity_verified : WorkflowState
  configuration_backup_ready reset_confirmation_required reset_in_progress : WorkflowState
  waiting_for_usb_reenumeration post_reset_verification unprovisioned_ready_for_registration :
      WorkflowState
  registration_details_required searching_for_reset_sensor_ble ble_identity_matched : WorkflowState
  provisioning_in_progress gateway_registration_in_progress network_verification_in_progress :
      WorkflowState
  complete recoverable_error manual_recovery_required : WorkflowState

abbrev pub names : List (String × WorkflowState)
names =
    ("sensor_selected", sensor_selected)
    ∷ ("usb_connection_required", usb_connection_required)
    ∷ ("physical_identity_verified", physical_identity_verified)
    ∷ ("configuration_backup_ready", configuration_backup_ready)
    ∷ ("reset_confirmation_required", reset_confirmation_required)
    ∷ ("reset_in_progress", reset_in_progress)
    ∷ ("waiting_for_usb_reenumeration", waiting_for_usb_reenumeration)
    ∷ ("post_reset_verification", post_reset_verification)
    ∷ ("unprovisioned_ready_for_registration", unprovisioned_ready_for_registration)
    ∷ ("registration_details_required", registration_details_required)
    ∷ ("searching_for_reset_sensor_ble", searching_for_reset_sensor_ble)
    ∷ ("ble_identity_matched", ble_identity_matched)
    ∷ ("provisioning_in_progress", provisioning_in_progress)
    ∷ ("gateway_registration_in_progress", gateway_registration_in_progress)
    ∷ ("network_verification_in_progress", network_verification_in_progress)
    ∷ ("complete", complete)
    ∷ ("recoverable_error", recoverable_error)
    ∷ ("manual_recovery_required", manual_recovery_required)
    ∷ []

-- `state in STATES`, and the state that the text names.
unfoldable pub state_named : String → List (String × WorkflowState) → Option WorkflowState
state_named t [] = none
state_named t (n ∷ ns) = if str_eq n.0 t then some n.1 else state_named t ns

pub record BackupRow : Type 0 where
  pub installation_id : String
  pub display_name : String
  pub location : Option String
  pub configuration : InstallationConfiguration

pub record Backup : Type 0 where
  pub configuration : Fields
  pub installations : List BackupRow

pub record Workflow : Type 0 where
  pub operation_id : String
  pub source_record_id : ℕ
  pub source_device_id : String
  pub source_display_name : String
  pub hardware_id : String
  pub source_ble_address : Option String
  pub state : WorkflowState
  pub selected_port : Option String
  pub reset_operation_id : Option String
  pub backup_status : String
  pub backup_json : Option Backup
  pub registration_choice : Option String
  pub target_device_id : Option String
  pub target_display_name : Option String
  pub target_location : Option String
  pub target_ble_address : Option String
  pub configuration_json : Option Fields
  pub progress_json : List String
  pub result_json : Fields
  pub error_code : Option String
  pub error_message : Option String
  pub started_at : ℕ
  pub updated_at : ℕ

pub data WorkflowError : Type 0 where
  hardware_id_required workflow_not_found invalid_state : WorkflowError

abbrev pub is_finished : WorkflowState → Bool
is_finished complete = true
is_finished manual_recovery_required = true
is_finished _ = false

abbrev pub is_active : ℕ → Workflow → Bool
is_active record_id w = w.source_record_id == record_id && not (is_finished w.state)

-- The first row of `order_by(started_at.desc())`; of rows with the same time, the first.
abbrev pub newer : Workflow → Option Workflow → Option Workflow
newer w none = some w
newer w (some v) = if ltb w.started_at v.started_at then some v else some w

unfoldable pub newest : List Workflow → Option Workflow
newest [] = none
newest (w ∷ ws) = newer w (newest ws)

abbrev pub active : ℕ → List Workflow → Option Workflow
active record_id ws = newest (keep (is_active record_id) ws)

abbrev pub or_null : Option String → Json
or_null none = null
or_null (some t) = text t

-- The id, the clock and `isoformat` are arguments.
abbrev pub new_workflow : RegisteredDevice → String → String → ℕ → (ℕ → String) → Workflow
new_workflow d hardware id now isoformat = record {
  operation_id = id;
  source_record_id = d.id;
  source_device_id = d.device_id;
  source_display_name = d.display_name;
  hardware_id = hardware;
  source_ble_address = d.ble_address;
  state = usb_connection_required;
  selected_port = none;
  reset_operation_id = none;
  backup_status = "pending";
  backup_json = none;
  registration_choice = none;
  target_device_id = none;
  target_display_name = none;
  target_location = none;
  target_ble_address = none;
  configuration_json = none;
  progress_json = [];
  result_json =
      field "firmware_version" (or_null d.firmware_version)
        (field "last_telemetry_at" (seen d.last_seen_at) end);
  error_code = none;
  error_message = none;
  started_at = now;
  updated_at = now;
}
  where
    seen : Option ℕ → Json
    seen none = null
    seen (some t) = text (isoformat t)

abbrev pub started :
    RegisteredDevice
    → String
    → String
    → ℕ
    → (ℕ → String)
    → List Workflow
    → Option Workflow
    → Workflow × List Workflow
started d hardware id now isoformat ws (some w) = (w, ws)
started d hardware id now isoformat ws none = (
  new_workflow d hardware id now isoformat,
  ws ++ (new_workflow d hardware id now isoformat ∷ []),
)

abbrev pub with_hardware : RegisteredDevice → Option String → Result WorkflowError String
with_hardware d none = err hardware_id_required
with_hardware d (some h) = if str_eq h "" then err hardware_id_required else ok h

unfoldable pub start :
    RegisteredDevice
    → String
    → ℕ
    → (ℕ → String)
    → List Workflow
    → Result WorkflowError (Workflow × List Workflow)
unfolding newest
start d id now isoformat ws = with_hardware d d.hardware_id >>= λ hardware.
    ok (started d hardware id now isoformat ws (active d.id ws))

unfoldable pub get : String → List Workflow → Result WorkflowError Workflow
get id ws = require_some (row (λ w. w.operation_id) id ws) workflow_not_found

abbrev pub or_else : String → Option String → String
or_else x none = x
or_else x (some y) = y

-- `entries[-1]`, if there is one.
unfoldable pub last : List String → Option String
last [] = none
last (x ∷ xs) = some (or_else x (last xs))

abbrev pub ends_with : String → Option String → Bool
ends_with t none = false
ends_with t (some u) = str_eq u t

unfoldable pub drop : ℕ → List String → List String
drop n [] = []
drop n (x ∷ xs) = let rest = drop (n - 1) xs in if ltb 0 n then rest else x ∷ xs

-- `entries[-40:]`
abbrev pub last_forty : List String → List String
last_forty xs = drop (length xs - 40) xs

-- `if progress and (not entries or entries[-1] != progress): entries.append(progress)`
abbrev pub appended : Option String → List String → List String
appended none entries = entries
appended (some t) entries =
    if not (str_eq t "") && not (ends_with t (last entries)) then entries ++ (t ∷ []) else entries

unfoldable pub progress_after : Option String → List String → List String
unfolding last drop
progress_after progress entries = last_forty (appended progress entries)

abbrev pub moved :
    WorkflowState → Option String → Option String → Option String → ℕ → Workflow → Workflow
moved state progress code message now w = record w {
  progress_json = progress_after progress w.progress_json;
  state = state;
  error_code = code;
  error_message = message;
  updated_at = now;
}

-- `transition` of the row with the id.
unfoldable pub transition :
    String
    → String
    → Option String
    → Option String
    → Option String
    → ℕ
    → List Workflow
    → Result WorkflowError (List Workflow)
transition id state progress code message now ws =
    require_some (state_named state names) invalid_state >>= λ s.
    ok (set_row (λ w. w.operation_id) id (moved s progress code message now) ws)

-- The keys of a readback that a backup keeps, in this order.
abbrev pub allowed_keys : List String
allowed_keys = "sample" ∷ "process" ∷ "report" ∷ "heartbeat" ∷ "filter" ∷ "window" ∷ "enabled" ∷ []

abbrev pub kept_field : String → Option Json → Fields → Fields
kept_field k none fs = fs
kept_field k (some j) fs = field k j fs

-- `{key: readback[key] for key in (...) if key in readback}`
unfoldable pub selected : List String → Fields → Fields
selected [] fs = end
selected (k ∷ ks) fs = kept_field k (find_field k fs) (selected ks fs)

-- `result[key] = value`
unfoldable pub set_field : String → Json → Fields → Fields
set_field k j end = field k j end
set_field k j (field n v fs) =
    let rest = set_field k j fs in if str_eq n k then field n j fs else field n v rest

abbrev pub backup_row : SensorInstallation → BackupRow
backup_row r = record {
  installation_id = r.installation_id;
  display_name = r.display_name;
  location = r.location;
  configuration = r.configuration_json;
}

abbrev pub backup_of : Fields → String → List SensorInstallation → Backup
backup_of readback device_id installations = record {
  configuration = selected allowed_keys readback;
  installations = map backup_row (keep (λ r. str_eq r.node_id device_id) installations);
}

abbrev pub categories : Json
categories = array (
    cons (text "identity") (
      cons (text "sampling") (
        cons (text "filtering")
          (cons (text "reporting") (cons (text "installation metadata") nil)))))

-- `sensor_state.get("configuration", sensor_state.get("readback", {}))`, whose values are dictionaries.
abbrev pub readback_of : Option Fields → Option Fields → Fields
readback_of (some fs) _ = fs
readback_of none (some fs) = fs
readback_of none none = end

abbrev pub backed_up : Fields → List SensorInstallation → Workflow → Workflow
backed_up readback installations w = record w {
  backup_json = some (backup_of readback w.source_device_id installations);
  backup_status = "complete";
  result_json = set_field "backup_categories" categories w.result_json;
}

unfoldable pub safe_backup :
    String
    → Option Fields
    → Option Fields
    → List SensorInstallation
    → ℕ
    → List Workflow
    → Result WorkflowError (List Workflow)
unfolding selected set_field transition
safe_backup id configuration readback installations now ws =
    transition id "configuration_backup_ready" (some "Application configuration backup verified")
      none none now
      (set_row (λ w. w.operation_id) id
        (backed_up (readback_of configuration readback) installations) ws)
