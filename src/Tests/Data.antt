-- ===== src/Tests/Data.antt =====
-- The constants of the tests.
use seed_mg.Prelude.{String, true, false, Option, none, some, List, [], ◌∷◌}
use seed_mg.Models.Values.{Quality}
use seed_mg.Models.States.{ProvisioningState, VerificationStatus, CalibrationStatus, FilterType}
use seed_mg.Models.Device.{
  RegisteredDevice, Reading, LifecycleState, ConnectionStatus, CompatibilityStatus,
  FactoryResetStatus,
}
use seed_mg.Models.Installation.{InstallationConfiguration, SensorInstallation}
use seed_mg.Profiles.Model.{SensorProfile, ProfileStatus, InterfaceType, ConversionType}
use seed_mg.Node.Capabilities.{Versions}
use seed_mg.Provisioning.Database.{Database}
use seed_mg.Provisioning.Validation.{World, Acknowledgement, Readback}
use seed_mg.Provisioning.Installations.{Gateway, InstallationCreate}
use seed_mg.Lifecycle.Service.{Request}

abbrev pub versions : Versions
versions = record { accepts = λ v. true; less = λ v w. false }

abbrev pub profile : SensorProfile
profile = record {
  profile_id = "microphone";
  profile_version = "1.0.0";
  manufacturer = "Seeed Studio";
  model = "XIAO MG24 Sense";
  display_name = "Microphone";
  description = "Sound level";
  category = "audio";
  datasheet_reference = none;
  status = ProfileStatus.unverified;
  interface = record {
    type = InterfaceType.built_in;
    supported_inputs = [];
    supply_voltage = none;
    signal_min = none;
    signal_max = none;
    required_signal_conditioning = none;
    wiring_notes = [];
    exclusive = true;
  };
  measurement_channels = [];
  conversion = record {
    type = ConversionType.unconfigured;
    gain = none;
    offset = none;
    coefficients = none;
    points = none;
  };
  sampling = record {
    minimum_interval_ms = some 20;
    default_interval_ms = some 100;
    maximum_interval_ms = some 60000;
  };
  filter = record {
    supported = FilterType.none ∷ [];
    default = FilterType.none;
    maximum_window = 9;
  };
  alarms = record {
    supported = false;
    defaults_enabled = false;
    warning_low = none;
    warning_high = none;
    alarm_low = none;
    alarm_high = none;
  };
  firmware = record { minimum_version = none; required_capabilities = "built_in_microphone" ∷ [] };
  provenance = record {
    source = "board";
    verified = false;
    verified_by = none;
    verified_at = none;
    reference = none;
  };
  deprecated_by = none;
}

abbrev pub configuration : InstallationConfiguration
configuration = record {
  sample_interval_ms = 100;
  processing_interval_ms = 100;
  report_interval_ms = 200;
  heartbeat_interval_ms = 30000;
  filter_type = FilterType.none;
  filter_window = 1;
  change_deadband = none;
  calibration_enabled = false;
  calibration_gain = none;
  calibration_offset = none;
  alarms_enabled = false;
  warning_low = none;
  warning_high = none;
  alarm_low = none;
  alarm_high = none;
  hardware_information = none;
}

abbrev pub node : RegisteredDevice
node = record {
  id = 1;
  device_id = "node-1";
  display_name = "Pump";
  device_type = "xiao_mg24_sense";
  ble_address = some "AA:BB";
  ble_advertised_name = none;
  enabled = true;
  archived = false;
  location = none;
  description = none;
  firmware_version = some "1.2.0";
  telemetry_schema_version = some 1;
  sensor_package_version = none;
  protocol_version = none;
  configuration_schema_version = none;
  build_identifier = none;
  firmware_git_commit = none;
  compatibility_status = CompatibilityStatus.compatible;
  compatibility_message = none;
  created_at = 0;
  updated_at = 0;
  last_seen_at = none;
  last_connected_at = none;
  connection_status = ConnectionStatus.connected;
  hardware_id = some "0x0011223344556677";
  lifecycle_state = LifecycleState.active;
  removed_at = none;
  removal_reason = none;
  factory_reset_status = FactoryResetStatus.not_requested;
}

abbrev pub in_state : ProvisioningState → Option String → SensorInstallation
in_state state transaction = record {
  installation_id = "installation-1";
  node_id = "node-1";
  device_id = "pump-sound";
  display_name = "Pump sound";
  sensor_profile_id = "microphone";
  sensor_profile_version = "1.0.0";
  interface_id = "MIC";
  enabled = false;
  archived = false;
  location = none;
  description = none;
  configuration_json = configuration;
  previous_configuration_json = none;
  calibration_status = CalibrationStatus.not_configured;
  verification_status = VerificationStatus.pending;
  provisioning_state = state;
  provisioning_error = none;
  active_transaction_id = transaction;
  created_at = 0;
  updated_at = 0;
  last_seen_at = none;
  last_valid_reading_at = none;
}

abbrev pub sound : Reading
sound = record {
  reading_uuid = "reading-1";
  gateway_id = "gateway";
  registered_device_id = 1;
  received_at = 70000000;
  measured_at = none;
  measured_at_device_uptime = none;
  device_uptime_ms = some 5;
  sequence_number = some 1;
  session_id = "session";
  record_type = "measurement";
  channel = "microphone_raw";
  raw_value = none;
  normalized_value = none;
  unit = none;
  quality = Quality.good;
  payload_json = "{}";
  delayed = false;
  installation_id = none;
  interface_id = some "MIC";
}

abbrev pub tables : List SensorInstallation → Database
tables rows = record {
  devices = node ∷ [];
  installations = rows;
  attempts = [];
  readings = sound ∷ [];
  events = [];
}

-- A device that applies and reads back what it was sent, and whose operator confirms.
abbrev pub world : World
world = record {
  versions = versions;
  profile = λ id version. some profile;
  supports_interface = none;
  now = 80000000;
  new_transaction = "transaction-1";
  apply = λ n i t c. Acknowledgement.acknowledged c;
  read_back = λ n i t. Readback.returned configuration;
  while_locking = λ db. db;
  while_applying = λ db. db;
  while_reading = λ db. db;
}

-- A device that does not answer.
abbrev pub silent : World
silent = record world { apply = λ n i t c. Acknowledgement.timed_out }

abbrev pub gateway : Gateway
gateway = record {
  matches = λ t. true;
  versions = versions;
  profile = λ id version. some profile;
  now = 80000000;
  new_installation = "installation-1";
}

abbrev pub draft_request : InstallationCreate
draft_request = record {
  node_id = "node-1";
  device_id = "pump-sound";
  display_name = "Pump sound";
  sensor_profile_id = "microphone";
  sensor_profile_version = "1.0.0";
  interface_id = "MIC";
  location = none;
  description = none;
  configuration = configuration;
}

abbrev pub request : Request
request = record {
  reason = none;
  connectivity_state = "connected";
  method = "gateway";
  factory_reset_requested = false;
  operation_id = "operation-1";
  now = 90000000;
  commits = true;
}
