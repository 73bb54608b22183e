-- ===== src/Provisioning/Validation.antt =====
-- gateway/app/services/provisioning_service.py: `SensorProvisioningService`.
-- A method is a function from the tables to its result and the new tables. The configurator (the
-- firmware behind BLE), the clock, `uuid4`, the profile registry and what other tasks do to the
-- tables while a method waits are fields of the `World`.
use seed_mg.Prelude.{
  ℕ, String, Bool, true, false, Option, none, some, if◌then◌else◌, Result, ok, err, ◌>>=◌, ◌>>◌,
  require, require_some,
}
use seed_mg.Models
use seed_mg.Models.States.{
  ProvisioningState, VerificationStatus, Failure, Message, is_active, is_ready, is_in_progress,
}
use seed_mg.Models.Installation.{InstallationConfiguration, SensorInstallation}
use seed_mg.Profiles.Model.{SensorProfile}
use seed_mg.Node.Capabilities.{Versions, capabilities}
use seed_mg.Node.Configuration
use seed_mg.Node.Configuration.{interface_of}
use seed_mg.Provisioning.Database.{Database, get_device, get, update}

pub data ErrorCode : Type 0 where
  configuration_error interface_configuration_unsupported validation_failed : ErrorCode
  acknowledgement_timeout transport_failure device_rejected : ErrorCode

pub data DeviceState : Type 0 where
  unchanged unknown : DeviceState

pub data NextAction : Type 0 where
  revalidate select_supported_interface authoritative_readback : NextAction

pub record ProvisioningError : Type 0 where
  pub code : ErrorCode
  pub message : Message
  pub transaction_id : Option String
  pub device_state : DeviceState
  pub retry_allowed : Bool
  pub next_action : NextAction

-- The exceptions that leave a method: its own, and those of Python and the repositories.
pub data Raised : Type 0 where
  provisioning : ProvisioningError → Raised
  node_missing stop_iteration attribute_error integrity_error other_exception : Raised

-- What `configurator.apply` did within the timeout; `refused` is a ValueError, with the name of
-- its class and its text, and `apply_escaped` an exception of any other class but `TimeoutError` and
-- `ConnectionError`, such as a `BleakError`.
pub data Acknowledgement : Type 0 where
  acknowledged : InstallationConfiguration → Acknowledgement
  timed_out connection_lost : Acknowledgement
  refused : String → String → Acknowledgement
  apply_escaped : Acknowledgement

-- What `configurator.read_back` did; `unread` is an exception that is caught, with the name of its
-- class, and `read_escaped` one of another class.
pub data Readback : Type 0 where
  returned : InstallationConfiguration → Readback
  unread : String → Readback
  read_escaped : Readback

pub record World : Type 0 where
  pub versions : Versions
  pub profile : String → String → Option SensorProfile
  pub supports_interface : Option (String → Bool)
  pub now : ℕ
  pub new_transaction : String
  pub apply : String → String → String → InstallationConfiguration → Acknowledgement
  pub read_back : String → String → String → Readback
  pub while_locking : Database → Database
  pub while_applying : Database → Database
  pub while_reading : Database → Database

-- `ProvisioningError(message)`, with the defaults of the constructor.
abbrev pub plain : Message → ProvisioningError
plain m = record {
  code = configuration_error;
  message = m;
  transaction_id = none;
  device_state = unchanged;
  retry_allowed = false;
  next_action = revalidate;
}

abbrev invalid : Message → ProvisioningError
invalid m = record (plain m) { code = validation_failed }

-- The exceptions of `DefaultChannelConfigurationService().validate`, as `validate` passes them on.
abbrev as_invalid : Result Models.States.ConfigurationError Unit → Result ProvisioningError Unit
as_invalid (ok u) = ok u
as_invalid (err e) = err (invalid (Message.invalid_configuration e))

abbrev supported : Option (String → Bool) → String → Bool
supported none id = true
supported (some supports) id = supports id

-- The `try` block of `validate`.
unfoldable pub check : World → Database → SensorInstallation → Result ProvisioningError Unit
check w db i = do
  profile ←
      require_some (w.profile i.sensor_profile_id i.sensor_profile_version)
        (plain Message.profile_unavailable)
  able ← require_some (capabilities (get_device i.node_id db) none) (invalid Message.node_not_found)
  as_invalid (Configuration.validate w.versions profile able i.interface_id i.configuration_json)
  require (supported w.supports_interface i.interface_id)
      (record (plain (Message.interface_unsupported i.interface_id)) {
        code = interface_configuration_unsupported;
        next_action = select_supported_interface;
      })

abbrev conclude_validation :
    World
    → SensorInstallation
    → Database
    → Result ProvisioningError Unit
    → Result Raised Unit × Database
conclude_validation w i db (err e) = (
  err (provisioning e),
  update i.installation_id
      (λ r. record r {
        provisioning_state = ProvisioningState.failed;
        verification_status = VerificationStatus.failed;
        provisioning_error = some (Failure.validation_message e.message);
        enabled = false;
      })
      w.now db,
)
conclude_validation w i db (ok u) = (
  ok tt,
  update i.installation_id
      (λ r. record r {
        provisioning_state = ProvisioningState.ready_to_apply;
        provisioning_error = none;
      })
      w.now db,
)

abbrev pub set_validating : SensorInstallation → SensorInstallation
set_validating r = record r {
  provisioning_state = ProvisioningState.validating;
  provisioning_error = none;
}

-- `session.scalar(...)` is `None`, or the row is archived.
abbrev pub live : Option SensorInstallation → Option SensorInstallation
live none = none
live (some i) = if i.archived then none else some i

abbrev pub not_found : Raised
not_found = provisioning (plain Message.installation_not_found)

unfoldable pub validate : World → String → Database → Result Raised Unit × Database
unfolding check
validate w id db = elim (live (get id db)) [
  | none ↦ (err not_found, db)
  | some i ↦
      conclude_validation w i (update i.installation_id set_validating w.now db) (check w db i)
]
