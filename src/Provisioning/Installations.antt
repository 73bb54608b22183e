-- ===== src/Provisioning/Installations.antt =====
-- gateway/app/services/installation_service.py, and the routes of gateway/app/api/installations.py
-- that change an installation: `upgrade-profile`, `disable` and the deletion that archives.
pub mod Upgrade
pub mod Drafts
use seed_mg.Prelude.{
  ℕ, ◌+◌, String, ◌≡◌, refl, Bool, true, false, not, ◌&&◌, ◌||◌, Option, none, some, List, [], ◌∷◌,
  ◌++◌, str_eq, is_some, find, row, set_row, if◌then◌else◌, Result, ok, err, ◌>>=◌, ◌>>◌, require,
  require_some, leb, ltb, keep, mem_text, ◌==◌,
}
use seed_mg.Models.States.{
  ProvisioningState, VerificationStatus, CalibrationStatus, ConfigurationError, Failure, Message,
  is_active,
}
use seed_mg.Models.Device.{RegisteredDevice}
use seed_mg.Models.Installation.{InstallationConfiguration, SensorInstallation}
use seed_mg.Profiles.Model.{SensorProfile, ConversionType}
use seed_mg.Node.Capabilities.{Versions, NodeInterface, NodeCapabilities, capabilities}
use seed_mg.Node.Configuration
use seed_mg.Node.Configuration.{interface_of}
use seed_mg.Provisioning.Database.{
  Database, get_device, get, get_by_device_id, occupied_interface, update, create,
}
use seed_mg.Provisioning.Validation.{live}

-- The messages of `InstallationValidationError`, and the other exceptions of these operations.
pub data InstallationError : Type 0 where
  bad_device_id device_id_assigned device_id_is_node profile_not_found : InstallationError
  invalid_configuration : ConfigurationError → InstallationError
  interface_assigned : String → InstallationError
  installation_not_found node_missing stop_iteration duplicate attribute_error : InstallationError
  null_display_name hard_delete_unsupported : InstallationError

pub record InstallationCreate : Type 0 where
  pub node_id : String
  pub device_id : String
  pub display_name : String
  pub sensor_profile_id : String
  pub sensor_profile_version : String
  pub interface_id : String
  pub location : Option String
  pub description : Option String
  pub configuration : InstallationConfiguration

-- A field of a request that may be left out, and may be null.
pub data Field : Type 0 where
  unset : Field
  given : Option String → Field

pub record InstallationUpdate : Type 0 where
  pub display_name : Field
  pub location : Field
  pub description : Field
  pub configuration : Option InstallationConfiguration

-- The equipment pattern, the profile registry, the clock and `uuid4` of the gateway.
pub record Gateway : Type 0 where
  pub matches : String → Bool
  pub versions : Versions
  pub profile : String → String → Option SensorProfile
  pub now : ℕ
  pub new_installation : String

abbrev pub as_installation : Result ConfigurationError Unit → Result InstallationError Unit
as_installation (ok u) = ok u
as_installation (err e) = err (invalid_configuration e)

abbrev calibration_status : ConversionType → CalibrationStatus
calibration_status ConversionType.unconfigured = CalibrationStatus.not_configured
calibration_status _ = CalibrationStatus.profile_configured

abbrev pub free : NodeInterface → Option SensorInstallation → Result InstallationError Unit
free i none = ok tt
free i (some occupied) = if i.exclusive then err (interface_assigned occupied.device_id) else ok tt

-- The checks of `create_draft`, up to the row.
unfoldable pub check_request :
    Gateway → InstallationCreate → Database → Result InstallationError SensorProfile
check_request g r db = do
  require (g.matches r.device_id) bad_device_id
  require (not (is_some (get_by_device_id r.device_id db))) device_id_assigned
  require (not (is_some (get_device r.device_id db))) device_id_is_node
  profile ← require_some (g.profile r.sensor_profile_id r.sensor_profile_version) profile_not_found
  able ← require_some (capabilities (get_device r.node_id db) none) node_missing
  as_installation (Configuration.validate g.versions profile able r.interface_id r.configuration)
  interface ← require_some (interface_of able r.interface_id) stop_iteration
  free interface (occupied_interface r.node_id r.interface_id none db)
  ok profile

abbrev pub draft_row : Gateway → InstallationCreate → SensorProfile → SensorInstallation
draft_row g r p = record {
  installation_id = g.new_installation;
  node_id = r.node_id;
  device_id = r.device_id;
  display_name = r.display_name;
  sensor_profile_id = p.profile_id;
  sensor_profile_version = p.profile_version;
  interface_id = r.interface_id;
  enabled = false;
  archived = false;
  location = r.location;
  description = r.description;
  configuration_json = r.configuration;
  previous_configuration_json = none;
  calibration_status = calibration_status p.conversion.type;
  verification_status = VerificationStatus.pending;
  provisioning_state = ProvisioningState.draft;
  provisioning_error = none;
  active_transaction_id = none;
  created_at = g.now;
  updated_at = g.now;
  last_seen_at = none;
  last_valid_reading_at = none;
}

unfoldable pub store_draft : Database → Option Database → Result InstallationError Unit × Database
store_draft db none = (err duplicate, db)
store_draft db (some db') = (ok tt, db')

unfoldable pub create_checked :
    Gateway
    → InstallationCreate
    → Database
    → Result InstallationError SensorProfile
    → Result InstallationError Unit × Database
unfolding store_draft
create_checked g r db (err e) = (err e, db)
create_checked g r db (ok p) = store_draft db (create (draft_row g r p) db)

unfoldable pub create_draft :
    Gateway → InstallationCreate → Database → Result InstallationError Unit × Database
unfolding create_checked
create_draft g r db = create_checked g r db (check_request g r db)

abbrev assign : Field → Option String → Option String
assign unset old = old
assign (given value) old = value

-- `none` is the refusal of the column `display_name`, which is not nullable.
abbrev display_name_of : Field → String → Option String
display_name_of unset old = some old
display_name_of (given value) old = value

-- What a new configuration writes; that of an active sensor is kept for the way back.
abbrev pub reconfigure : InstallationConfiguration → SensorInstallation → SensorInstallation
reconfigure c r =
    if is_active r.provisioning_state
    then record r {
      configuration_json = c;
      previous_configuration_json = some r.configuration_json;
      provisioning_state = ProvisioningState.ready_to_apply;
      verification_status = VerificationStatus.pending;
      enabled = false;
    }
    else record r { configuration_json = c }

abbrev pub set_texts : InstallationUpdate → String → SensorInstallation → SensorInstallation
set_texts u name r = record r {
  display_name = name;
  location = assign u.location r.location;
  description = assign u.description r.description;
}

-- `validate` looks the interface up before it reads the profile, which may be `None`.
abbrev check_profile :
    Gateway
    → Option SensorProfile
    → NodeCapabilities
    → String
    → InstallationConfiguration
    → Result InstallationError Unit
check_profile g (some p) able id c = as_installation (Configuration.validate g.versions p able id c)
check_profile g none able id c =
    if is_some (interface_of able id)
    then err attribute_error
    else err (invalid_configuration ConfigurationError.unreported_interface)

unfoldable pub check_update :
    Gateway
    → SensorInstallation
    → InstallationConfiguration
    → Database
    → Result InstallationError Unit
check_update g i c db = do
  able ← require_some (capabilities (get_device i.node_id db) none) node_missing
  check_profile g (g.profile i.sensor_profile_id i.sensor_profile_version) able i.interface_id c

abbrev write :
    Gateway
    → InstallationUpdate
    → (SensorInstallation → SensorInstallation)
    → SensorInstallation
    → Database
    → Result InstallationError Unit × Database
write g u f i db = elim (display_name_of u.display_name i.display_name) [
  | none ↦ (err null_display_name, db)
  | some name ↦ (ok tt, update i.installation_id (λ r. set_texts u name (f r)) g.now db)
]

-- The route `PATCH`, with `update` of the service.
unfoldable pub patch :
    Gateway → String → InstallationUpdate → Database → Result InstallationError Unit × Database
unfolding check_update
patch g id u db = elim (live (get id db)) [
  | none ↦ (err installation_not_found, db)
  | some i ↦ elim u.configuration [
    | none ↦ write g u (λ r. r) i db
    | some c ↦ elim (check_update g i c db) [
      | err e ↦ (err e, db)
      | ok done ↦ write g u (reconfigure c) i db
    ]
  ]
]

abbrev pub set_upgraded : String → SensorInstallation → SensorInstallation
set_upgraded version r = record r {
  sensor_profile_version = version;
  previous_configuration_json = some r.configuration_json;
  provisioning_state = ProvisioningState.ready_to_apply;
  verification_status = VerificationStatus.pending;
  enabled = false;
}

unfoldable pub upgrade_checked :
    Gateway
    → String
    → String
    → Database
    → Result ConfigurationError Unit
    → Result InstallationError Unit × Database
upgrade_checked g id version db (err e) = (err (invalid_configuration e), db)
upgrade_checked g id version db (ok done) = (ok tt, update id (set_upgraded version) g.now db)

unfoldable pub upgrade_able :
    Gateway
    → String
    → String
    → SensorInstallation
    → SensorProfile
    → Database
    → Option NodeCapabilities
    → Result InstallationError Unit × Database
unfolding upgrade_checked
upgrade_able g id version i p db none = (err node_missing, db)
upgrade_able g id version i p db (some able) =
    upgrade_checked g id version db
      (Configuration.validate g.versions p able i.interface_id i.configuration_json)

unfoldable pub upgrade_to :
    Gateway
    → String
    → String
    → SensorInstallation
    → Database
    → Option SensorProfile
    → Result InstallationError Unit × Database
unfolding upgrade_able
upgrade_to g id version i db none = (err profile_not_found, db)
upgrade_to g id version i db (some p) =
    if str_eq version i.sensor_profile_version
    then (ok tt, db)
    else upgrade_able g id version i p db (capabilities (get_device i.node_id db) none)

unfoldable pub upgrade_row :
    Gateway
    → String
    → String
    → Database
    → Option SensorInstallation
    → Result InstallationError Unit × Database
unfolding upgrade_to
upgrade_row g id version db none = (err installation_not_found, db)
upgrade_row g id version db (some i) =
    upgrade_to g id version i db (g.profile i.sensor_profile_id version)

-- The route `upgrade-profile`.
unfoldable pub upgrade_profile :
    Gateway → String → String → Database → Result InstallationError Unit × Database
unfolding upgrade_row
upgrade_profile g id version db = upgrade_row g id version db (get id db)

unfoldable pub disable : Gateway → String → Database → Result InstallationError Unit × Database
disable g id db =
    if is_some (get id db)
    then (
      ok tt,
      update id (λ r. record r { enabled = false; provisioning_state = ProvisioningState.disabled })
          g.now db,
    )
    else (err installation_not_found, db)

unfoldable pub archive :
    Gateway → String → Bool → Database → Result InstallationError Unit × Database
archive g id hard_delete db =
    if is_some (get id db)
    then (if hard_delete then (err hard_delete_unsupported, db) else (
      ok tt,
      update id
          (λ r. record r {
            archived = true;
            enabled = false;
            provisioning_state = ProvisioningState.disabled;
          })
          g.now db,
    ))
    else (err installation_not_found, db)
