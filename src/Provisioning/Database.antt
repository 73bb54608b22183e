-- ===== src/Provisioning/Database.antt =====
-- gateway/app/repositories/installation_repository.py and the reads of device_repository.py.
-- A table is the list of its rows in storage order. `scalar` gives the first row that passes the
-- `where` clause; a method that mutates the session gives the new tables.
pub mod Laws
use seed_mg.Prelude.{
  ℕ, ◌+◌, String, ◌≡◌, refl, Bool, true, false, not, ◌&&◌, ◌||◌, Option, none, some, List, [], ◌∷◌,
  ◌++◌, str_eq, is_some, find, row, set_row, row-set_row, if◌then◌else◌, Result, ok, err, any, leb,
  ltb, keep,
}
use seed_mg.Models.Values.{is_usable}
use seed_mg.Models.States.{ProvisioningState, Failure, Message}
use seed_mg.Models.Device.{RegisteredDevice, Reading, DeviceLifecycleEvent}
use seed_mg.Models.Installation.{InstallationConfiguration, SensorInstallation, ProvisioningAttempt}

pub record Database : Type 0 where
  pub devices : List RegisteredDevice
  pub installations : List SensorInstallation
  pub attempts : List ProvisioningAttempt
  pub readings : List Reading
  pub events : List DeviceLifecycleEvent

abbrev pub device_key : RegisteredDevice → String
device_key d = d.device_id

abbrev pub installation_key : SensorInstallation → String
installation_key i = i.installation_id

abbrev pub attempt_key : ProvisioningAttempt → String
attempt_key a = a.transaction_id

-- `DeviceRepository.get`
abbrev pub get_device : String → Database → Option RegisteredDevice
get_device id db = row device_key id db.devices

-- `InstallationRepository.get`
abbrev pub get : String → Database → Option SensorInstallation
get id db = row installation_key id db.installations

abbrev pub get_by_device_id : String → Database → Option SensorInstallation
get_by_device_id id db = find (λ i. str_eq i.device_id id) db.installations

-- `if exclude_installation_id: statement.where(... != exclude_installation_id)`
abbrev is_other : Option String → SensorInstallation → Bool
is_other none i = true
is_other (some excluded) i = str_eq excluded "" || not (str_eq i.installation_id excluded)

abbrev pub occupies : String → String → Option String → SensorInstallation → Bool
occupies node interface excluded i =
    str_eq i.node_id node
    && str_eq i.interface_id interface
    && not i.archived
    && i.enabled
    && is_other excluded i

unfoldable pub occupied_interface :
    String → String → Option String → Database → Option SensorInstallation
occupied_interface node interface excluded db =
    find (occupies node interface excluded) db.installations

abbrev pub touch :
    ℕ → (SensorInstallation → SensorInstallation) → SensorInstallation → SensorInstallation
touch now f i = record (f i) { updated_at = now }

-- `update`: the assignments `f`, and the time of the change. The services assign no key.
unfoldable pub update : String → (SensorInstallation → SensorInstallation) → ℕ → Database → Database
update id f now db = record db {
  installations = set_row installation_key id (touch now f) db.installations;
}

abbrev pub get_attempt : String → Database → Option ProvisioningAttempt
get_attempt tx db = row attempt_key tx db.attempts

-- `add_attempt`: `none` is the IntegrityError of the unique column `transaction_id`.
unfoldable pub add_attempt : ProvisioningAttempt → Database → Option Database
add_attempt a db =
    if is_some (get_attempt a.transaction_id db)
    then none
    else some (record db { attempts = db.attempts ++ a ∷ [] })

abbrev pub touch_attempt :
    ℕ → (ProvisioningAttempt → ProvisioningAttempt) → ProvisioningAttempt → ProvisioningAttempt
touch_attempt now f a = record (f a) { updated_at = now }

unfoldable pub update_attempt :
    String → (ProvisioningAttempt → ProvisioningAttempt) → ℕ → Database → Database
update_attempt tx f now db = record db {
  attempts = set_row attempt_key tx (touch_attempt now f) db.attempts;
}

-- `create`: `none` is the `DuplicateInstallationError` of the two unique columns.
unfoldable pub create : SensorInstallation → Database → Option Database
create i db =
    if is_some (get i.installation_id db) || is_some (get_by_device_id i.device_id db)
    then none
    else some (record db { installations = db.installations ++ i ∷ [] })
