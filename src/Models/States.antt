-- ===== src/Models/States.antt =====
-- The closed lists of texts that the columns of an installation hold, and what its error column
-- says: one constructor for each message of provisioning_service.py and
-- channel_configuration_service.py.
use seed_mg.Prelude.{ℕ, String, Bool, true, false, ◌==◌, ◌≡◌, arith}
use seed_mg.Models.Device.{CompatibilityStatus}

-- The texts of `provisioning_state`, of an installation and of an attempt.
pub data ProvisioningState : Type 0 where
  draft validating ready_to_apply applying verifying active failed : ProvisioningState
  reconciling disabled removed : ProvisioningState

pub data VerificationStatus : Type 0 where
  pending verified failed : VerificationStatus

pub data CalibrationStatus : Type 0 where
  not_configured profile_configured : CalibrationStatus

pub data FilterType : Type 0 where
  none ema moving_average median digital_debounce : FilterType

abbrev pub is_active : ProvisioningState → Bool
is_active ProvisioningState.active = true
is_active _ = false

abbrev pub is_ready : ProvisioningState → Bool
is_ready ProvisioningState.ready_to_apply = true
is_ready _ = false

-- `state in {"applying", "verifying", "active"}`
abbrev pub is_in_progress : ProvisioningState → Bool
is_in_progress ProvisioningState.applying = true
is_in_progress ProvisioningState.verifying = true
is_in_progress ProvisioningState.active = true
is_in_progress _ = false

abbrev filter_code : FilterType → ℕ
filter_code FilterType.none = 0
filter_code FilterType.ema = 1
filter_code FilterType.moving_average = 2
filter_code FilterType.median = 3
filter_code FilterType.digital_debounce = 4

abbrev pub same_filter : FilterType → FilterType → Bool
same_filter a b = filter_code a == filter_code b

pub same_filter→eq : (a b : FilterType) → same_filter a b ≡ true → a ≡ b
same_filter→eq a b h = ground arith

-- The messages of `ConfigurationValidationError`; `invalid_version` is `InvalidVersion` of the
-- version library.
pub data ConfigurationError : Type 0 where
  unreported_interface unusable_profile incompatible_type missing_capabilities : ConfigurationError
  invalid_version old_firmware below_minimum above_maximum : ConfigurationError
  profile_filter node_filter window calibration calibration_parameters : ConfigurationError
  alarms_unconfirmed thresholds_without_alarms not_reconfigurable : ConfigurationError

-- The messages of `ProvisioningError`.
pub data Message : Type 0 where
  installation_not_found profile_unavailable node_not_found : Message
  interface_unsupported : String → Message
  invalid_configuration : ConfigurationError → Message
  incompatible_node : CompatibilityStatus → Message
  exclusive_interface : String → Message
  wrong_state : ProvisioningState → Message
  acknowledgement_missing transport_failed : Message
  rejected : String → Message
  no_transaction readback_failed readback_mismatch no_telemetry : Message

-- What `provisioning_error` says, without the cut at 500 characters.
pub data Failure : Type 0 where
  acknowledgement_timeout transport_failure : Failure
  configuration_readback_mismatch no_recent_valid_telemetry : Failure
  exception_named : String → Failure
  validation_message : Message → Failure
  replacement_failed : Failure → Failure
  replacement_uncertain : Failure → Failure
