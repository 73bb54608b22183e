-- ===== src/Registration.antt =====
-- gateway/app/services/device_service.py over the writes of repositories/device_repository.py, with the
-- requests `Discovery`, `DeviceCreate` and `DeviceUpdate` of schemas.py.
pub mod Registry
use seed_mg.Prelude.{
  ℕ, String, Bool, true, false, not, ◌&&◌, ◌||◌, Option, none, some, List, [], ◌∷◌, ◌++◌,
  if◌then◌else◌, str_eq, is_some, find, set_row, Result, ok, err, ◌>>=◌, ◌>>◌, require,
}
use seed_mg.Models.Device.{
  LifecycleState, ConnectionStatus, CompatibilityStatus, FactoryResetStatus, RegisteredDevice,
}
use seed_mg.Provisioning.Database.{Database, device_key, get_device}

-- The fields of a discovery that are read.
pub record Discovery : Type 0 where
  pub address : String
  pub name : Option String
  pub compatible : Bool
  pub stable_device_id : Option String

pub record DeviceCreate : Type 0 where
  pub device_id : String
  pub display_name : String
  pub discovery_address : String
  pub device_type : String
  pub location : Option String
  pub description : Option String
  pub allow_incompatible : Bool

-- A field is `none` if it was not sent, and `some none` if `null` was sent.
pub record DeviceUpdate : Type 0 where
  pub display_name : Option (Option String)
  pub location : Option (Option String)
  pub description : Option (Option String)
  pub enabled : Option (Option Bool)

-- The messages of `DeviceValidationError` and `DuplicateDeviceError`, and the exception of a write that
-- the database refuses.
pub data RegistrationError : Type 0 where
  bad_identifier discovery_changed not_compatible address_taken : RegistrationError
  identity_registered identity_mismatch already_registered integrity_error : RegistrationError

abbrev pub is_at : String → Option String → Bool
is_at address none = false
is_at address (some a) = str_eq a address

unfoldable pub get_by_ble_address : String → Database → Option RegisteredDevice
get_by_ble_address address db = find (λ d. is_at address d.ble_address && not d.archived) db.devices

-- `DeviceRepository.create`; the key and the clock are arguments, the rest are the column's defaults.
abbrev pub new_device : DeviceCreate → Discovery → ℕ → ℕ → RegisteredDevice
new_device r d key now = record {
  id = key;
  device_id = r.device_id;
  display_name = r.display_name;
  device_type = r.device_type;
  ble_address = some d.address;
  ble_advertised_name = d.name;
  enabled = true;
  archived = false;
  location = r.location;
  description = r.description;
  firmware_version = none;
  telemetry_schema_version = none;
  sensor_package_version = none;
  protocol_version = none;
  configuration_schema_version = none;
  build_identifier = none;
  firmware_git_commit = none;
  compatibility_status = CompatibilityStatus.metadata_missing;
  compatibility_message = none;
  created_at = now;
  updated_at = now;
  last_seen_at = none;
  last_connected_at = none;
  connection_status = ConnectionStatus.disconnected;
  hardware_id = none;
  lifecycle_state = LifecycleState.active;
  removed_at = none;
  removal_reason = none;
  factory_reset_status = FactoryResetStatus.not_requested;
}

unfoldable pub create :
    RegisteredDevice → Database → Result RegistrationError (RegisteredDevice × Database)
create d db =
    if is_some (get_device d.device_id db)
    then err already_registered
    else ok (d, record db { devices = db.devices ++ (d ∷ []) })

-- `if discovery.stable_device_id: ...`
abbrev pub check_identity :
    DeviceCreate → Option String → Database → Result RegistrationError (Unit {0})
check_identity r none db = ok tt
check_identity r (some id) db = if str_eq id "" then ok tt else (do
  require (not (is_some (get_device id db))) identity_registered
  require (str_eq id r.device_id) identity_mismatch)

unfoldable pub register :
    (String → Bool)
    → DeviceCreate
    → Discovery
    → ℕ
    → ℕ
    → Database
    → Result RegistrationError (RegisteredDevice × Database)
unfolding get_by_ble_address create
register pattern r d key now db = do
  require (pattern r.device_id) bad_identifier
  require (str_eq r.discovery_address d.address) discovery_changed
  require (d.compatible || r.allow_incompatible) not_compatible
  require (not (is_some (get_by_ble_address d.address db))) address_taken
  check_identity r d.stable_device_id db
  create (new_device r d key now) db

abbrev pub assigned {ℓ} : {A : Type ℓ} → Option A → A → A
assigned none old = old
assigned (some new) old = new

-- A column that may not be NULL.
abbrev pub is_null_sent {ℓ} : {A : Type ℓ} → Option (Option A) → Bool
is_null_sent (some none) = true
is_null_sent _ = false

abbrev pub sent {ℓ} : {A : Type ℓ} → Option (Option A) → A → A
sent (some (some new)) old = new
sent _ old = old

abbrev pub updated : DeviceUpdate → ℕ → RegisteredDevice → RegisteredDevice
updated u now d = record d {
  display_name = sent u.display_name d.display_name;
  location = assigned u.location d.location;
  description = assigned u.description d.description;
  enabled = sent u.enabled d.enabled;
  updated_at = now;
}

-- `DeviceService.update`, of the row with the id.
unfoldable pub update : String → DeviceUpdate → ℕ → Database → Result RegistrationError Database
update id u now db =
    if is_null_sent u.display_name || is_null_sent u.enabled
    then err integrity_error
    else ok (record db { devices = set_row device_key id (updated u now) db.devices })

abbrev pub or_old {ℓ} : {A : Type ℓ} → Option A → Option A → Option A
or_old none old = old
or_old (some new) old = some new

abbrev pub given {ℓ} : {A : Type ℓ} → Option A → A → A
given none old = old
given (some new) old = new

-- `DeviceRepository.update_runtime`, on the row.
abbrev pub update_runtime :
    Option ConnectionStatus
    → Option ℕ
    → Option ℕ
    → Option String
    → ℕ
    → RegisteredDevice
    → RegisteredDevice
update_runtime status seen connected address now d = record d {
  connection_status = given status d.connection_status;
  last_seen_at = or_old seen d.last_seen_at;
  last_connected_at = or_old connected d.last_connected_at;
  ble_address = or_old address d.ble_address;
  updated_at = now;
}
