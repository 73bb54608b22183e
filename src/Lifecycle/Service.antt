-- ===== src/Lifecycle/Service.antt =====
-- gateway/app/services/device_lifecycle_service.py. The clock, `uuid4` and whether the database
-- accepts the commit are arguments; a commit that fails is rolled back and its exception goes on.
pub mod Identity
pub mod Tables
pub mod Restoration
pub mod Laws
use seed_mg.Prelude.{
  ℕ, ◌+◌, ◌-◌, String, Bool, true, false, not, ◌&&◌, ◌||◌, Option, none, some, List, [], ◌∷◌, ◌++◌,
  map, str_eq, if◌then◌else◌, Result, ok, err, leb, ltb, keep, length, find, opt_str_eq, ◌==◌, row,
  set_row, is_some, eq_iff, codes,
}
use seed_mg.Models.States.{ProvisioningState}
use seed_mg.Models.Device.{
  LifecycleState, ConnectionStatus, RegisteredDevice, LifecycleEventType, LifecycleDetail,
  DeviceLifecycleEvent,
}
use seed_mg.Models.Installation.{SensorInstallation}
use seed_mg.Provisioning.Database.{Database, get_device, device_key}

pub data LifecycleError : Type 0 where
  device_not_found hardware_identity_mismatch ble_identity_mismatch : LifecycleError
  hardware_identity_conflict commit_failed : LifecycleError

pub record LifecycleResult : Type 0 where
  pub operation_id : String
  pub status : LifecycleState
  pub device_id : String
  pub lifecycle_state : LifecycleState
  pub already_applied : Bool
  pub telemetry_preserved : Bool
  pub physical_sensor_changed : Bool

abbrev pub result : String → LifecycleState → String → Bool → LifecycleResult
result operation state device already = record {
  operation_id = operation;
  status = state;
  device_id = device;
  lifecycle_state = state;
  already_applied = already;
  telemetry_preserved = true;
  physical_sensor_changed = false;
}

abbrev pub is_removed : LifecycleState → Bool
is_removed LifecycleState.removed = true
is_removed LifecycleState.active = false

abbrev pub lower : ℕ → ℕ
lower c = if leb b'A' c && leb c b'Z' then c + 32 else c

abbrev pub same_codes : List ℕ → List ℕ → Bool
same_codes [] [] = true
same_codes [] (_ ∷ _) = false
same_codes (_ ∷ _) [] = false
same_codes (a ∷ as') (b ∷ bs) = a == b && same_codes as' bs

-- `a.casefold() == b.casefold()` for ASCII texts, as Bluetooth addresses are.
unfoldable pub same_folded : String → String → Bool
same_folded a b = same_codes (map lower (codes a)) (map lower (codes b))

-- `a` is not `None` and not empty: the truth value of a text.
abbrev pub is_given : Option String → Bool
is_given none = false
is_given (some t) = not (str_eq t "")

-- What the caller, the clock and the database decide.
pub record Request : Type 0 where
  pub reason : Option String
  pub connectivity_state : String
  pub method : String
  pub factory_reset_requested : Bool
  pub operation_id : String
  pub now : ℕ
  pub commits : Bool

abbrev pub removed_device : Request → RegisteredDevice → RegisteredDevice
removed_device q d = record d {
  archived = true;
  enabled = false;
  lifecycle_state = LifecycleState.removed;
  removed_at = some q.now;
  removal_reason = q.reason;
  connection_status = ConnectionStatus.disabled;
  updated_at = q.now;
}

abbrev pub removed_installation : ℕ → SensorInstallation → SensorInstallation
removed_installation now i = record i {
  archived = true;
  enabled = false;
  provisioning_state = ProvisioningState.removed;
  updated_at = now;
}

abbrev pub on_node : String → SensorInstallation → Bool
on_node node i = str_eq i.node_id node

-- The loop over the installations of the node.
unfoldable pub remove_installations : String → ℕ → List SensorInstallation → List SensorInstallation
remove_installations node now = map (λ i. if on_node node i then removed_installation now i else i)

abbrev removal_event : Request → RegisteredDevice → ℕ → DeviceLifecycleEvent
removal_event q d archived = record {
  operation_id = q.operation_id;
  event_type = LifecycleEventType.gateway_removed;
  device_id = d.device_id;
  display_name = d.display_name;
  hardware_id = d.hardware_id;
  ble_address = d.ble_address;
  connectivity_state = q.connectivity_state;
  method = q.method;
  factory_reset_requested = q.factory_reset_requested;
  result = "success";
  detail_json = LifecycleDetail.removal (is_given q.reason) archived;
  created_at = q.now;
}

abbrev pub is_gone : RegisteredDevice → Bool
is_gone d = d.archived || is_removed d.lifecycle_state

-- What `remove` commits.
unfoldable pub removed_tables : Request → String → RegisteredDevice → Database → Database
unfolding remove_installations
removed_tables q id d db = record db {
  devices = set_row device_key id (removed_device q) db.devices;
  installations = remove_installations id q.now db.installations;
  events = db.events ++ removal_event q d (length (keep (on_node id) db.installations)) ∷ [];
}

unfoldable pub remove_device :
    Request
    → String
    → Database
    → Option RegisteredDevice
    → Result LifecycleError LifecycleResult × Database
unfolding removed_tables
remove_device q id db none = (err device_not_found, db)
remove_device q id db (some d) =
    if is_gone d
    then (ok (result "existing" LifecycleState.removed id true), db)
    else if q.commits
    then (ok (result q.operation_id LifecycleState.removed id false), removed_tables q id d db)
    else (err commit_failed, db)

unfoldable pub remove :
    Request → String → Database → Result LifecycleError LifecycleResult × Database
unfolding remove_device
remove q id db = remove_device q id db (get_device id db)

abbrev pub restored_device : ℕ → RegisteredDevice → RegisteredDevice
restored_device now d = record d {
  archived = false;
  enabled = true;
  lifecycle_state = LifecycleState.active;
  removed_at = none;
  removal_reason = none;
  connection_status = ConnectionStatus.disconnected;
  updated_at = now;
}

abbrev restoration_event : Request → RegisteredDevice → DeviceLifecycleEvent
restoration_event q d = record {
  operation_id = q.operation_id;
  event_type = LifecycleEventType.gateway_restored;
  device_id = d.device_id;
  display_name = d.display_name;
  hardware_id = d.hardware_id;
  ble_address = d.ble_address;
  connectivity_state = "disconnected";
  method = "dashboard_confirmed";
  factory_reset_requested = false;
  result = "success";
  detail_json = LifecycleDetail.restoration true;
  created_at = q.now;
}

-- `device.hardware_id and expected_hardware_id != device.hardware_id`
abbrev pub hardware_differs : Option String → Option String → Bool
hardware_differs recorded expected = is_given recorded && not (opt_str_eq expected recorded)

abbrev pub address_of : Option String → String
address_of none = ""
address_of (some a) = a

-- `device.ble_address and (not expected or expected.casefold() != device.ble_address.casefold())`
unfoldable pub address_differs : Option String → Option String → Bool
unfolding same_folded
address_differs recorded expected =
    is_given recorded
    && (not (is_given expected) || not (same_folded (address_of expected) (address_of recorded)))

-- `get_other_by_hardware_id`
abbrev pub other_with : Option String → ℕ → RegisteredDevice → Bool
other_with hardware id d = opt_str_eq d.hardware_id hardware && not (d.id == id)

unfoldable pub has_conflict : RegisteredDevice → List RegisteredDevice → Bool
has_conflict d devices =
    is_given d.hardware_id && is_some (find (other_with d.hardware_id d.id) devices)

-- What `restore` commits.
unfoldable pub restored_tables : Request → String → RegisteredDevice → Database → Database
restored_tables q id d db = record db {
  devices = set_row device_key id (restored_device q.now) db.devices;
  events = db.events ++ restoration_event q d ∷ [];
}

unfoldable pub restore_device :
    Request
    → String
    → Option String
    → Option String
    → Database
    → Option RegisteredDevice
    → Result LifecycleError LifecycleResult × Database
unfolding address_differs has_conflict restored_tables
restore_device q id hardware address db none = (err device_not_found, db)
restore_device q id hardware address db (some d) =
    if not d.archived && not (is_removed d.lifecycle_state)
    then (ok (result "existing" LifecycleState.active id true), db)
    else if hardware_differs d.hardware_id hardware
    then (err hardware_identity_mismatch, db)
    else if address_differs d.ble_address address
    then (err ble_identity_mismatch, db)
    else if has_conflict d db.devices
    then (err hardware_identity_conflict, db)
    else if q.commits
    then (ok (result q.operation_id LifecycleState.active id false), restored_tables q id d db)
    else (err commit_failed, db)

unfoldable pub restore :
    Request
    → String
    → Option String
    → Option String
    → Database
    → Result LifecycleError LifecycleResult × Database
unfolding restore_device
restore q id hardware address db = restore_device q id hardware address db (get_device id db)
