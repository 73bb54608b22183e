-- ===== src/Models/Installation.antt =====
-- models.py: `SensorInstallation` and `ProvisioningAttempt`, and the configuration of schemas.py
-- that they carry as JSON.
use seed_mg.Prelude.{ℕ, String, Bool, Option, String-discrete, ℕ_discrete}
use seed_mg.Models.Values.{Decimal}
use seed_mg.Models.States.{
  ProvisioningState, VerificationStatus, CalibrationStatus, FilterType, Failure,
}

pub record HardwareInformation : Type 0 where
  pub manufacturer : Option String
  pub model : Option String
  pub datasheet : Option String
  pub electrical_interface : Option String
  pub measurement_range : Option String
  pub signal_conditioning : Option String

pub record InstallationConfiguration : Type 0 where
  pub sample_interval_ms : ℕ
  pub processing_interval_ms : ℕ
  pub report_interval_ms : ℕ
  pub heartbeat_interval_ms : ℕ
  pub filter_type : FilterType
  pub filter_window : ℕ
  pub change_deadband : Option Decimal
  pub calibration_enabled : Bool
  pub calibration_gain : Option Decimal
  pub calibration_offset : Option Decimal
  pub alarms_enabled : Bool
  pub warning_low : Option Decimal
  pub warning_high : Option Decimal
  pub alarm_low : Option Decimal
  pub alarm_high : Option Decimal
  pub hardware_information : Option HardwareInformation

pub record SensorInstallation : Type 0 where
  pub installation_id : String
  pub node_id : String
  pub device_id : String
  pub display_name : String
  pub sensor_profile_id : String
  pub sensor_profile_version : String
  pub interface_id : String
  pub enabled : Bool
  pub archived : Bool
  pub location : Option String
  pub description : Option String
  pub configuration_json : InstallationConfiguration
  pub previous_configuration_json : Option InstallationConfiguration
  pub calibration_status : CalibrationStatus
  pub verification_status : VerificationStatus
  pub provisioning_state : ProvisioningState
  pub provisioning_error : Option Failure
  pub active_transaction_id : Option String
  pub created_at : ℕ
  pub updated_at : ℕ
  pub last_seen_at : Option ℕ
  pub last_valid_reading_at : Option ℕ

pub record ProvisioningAttempt : Type 0 where
  pub transaction_id : String
  pub installation_id : String
  pub requested_configuration_json : InstallationConfiguration
  pub applied_configuration_json : Option InstallationConfiguration
  pub state : ProvisioningState
  pub error : Option Failure
  pub created_at : ℕ
  pub updated_at : ℕ

unfoldable pub InstallationConfiguration-discrete : Discrete InstallationConfiguration
InstallationConfiguration-discrete = hlevel (ℕ_discrete, String-discrete)
