-- ===== src/Models/Device.antt =====
-- models.py: `RegisteredDevice`, `DeviceLifecycleEvent` and `Reading`.
use seed_mg.Prelude.{ℕ, String, Bool, Option}
use seed_mg.Models.Values.{Decimal, Quality}

pub data LifecycleState : Type 0 where
  active removed : LifecycleState

-- The texts of `connection_status`: those of `DeviceConnection` and of a removed registration.
pub data ConnectionStatus : Type 0 where
  disconnected connecting connected backoff error disabled : ConnectionStatus

-- The texts of `compatibility_status`: those of compatibility_service.py.
pub data CompatibilityStatus : Type 0 where
  metadata_missing protocol_unsupported sensor_update_required : CompatibilityStatus
  gateway_update_required unknown compatible : CompatibilityStatus

pub data FactoryResetStatus : Type 0 where
  not_requested reset_pending reset_failed complete : FactoryResetStatus

pub record RegisteredDevice : Type 0 where
  pub id : ℕ
  pub device_id : String
  pub display_name : String
  pub device_type : String
  pub ble_address : Option String
  pub ble_advertised_name : Option String
  pub enabled : Bool
  pub archived : Bool
  pub location : Option String
  pub description : Option String
  pub firmware_version : Option String
  pub telemetry_schema_version : Option ℕ
  pub sensor_package_version : Option String
  pub protocol_version : Option String
  pub configuration_schema_version : Option ℕ
  pub build_identifier : Option String
  pub firmware_git_commit : Option String
  pub compatibility_status : CompatibilityStatus
  pub compatibility_message : Option String
  pub created_at : ℕ
  pub updated_at : ℕ
  pub last_seen_at : Option ℕ
  pub last_connected_at : Option ℕ
  pub connection_status : ConnectionStatus
  pub hardware_id : Option String
  pub lifecycle_state : LifecycleState
  pub removed_at : Option ℕ
  pub removal_reason : Option String
  pub factory_reset_status : FactoryResetStatus

pub data LifecycleEventType : Type 0 where
  gateway_removed gateway_restored : LifecycleEventType

-- `detail_json` of the two events.
pub data LifecycleDetail : Type 0 where
  removal : Bool → ℕ → LifecycleDetail
  restoration : Bool → LifecycleDetail

pub record DeviceLifecycleEvent : Type 0 where
  pub operation_id : String
  pub event_type : LifecycleEventType
  pub device_id : String
  pub display_name : String
  pub hardware_id : Option String
  pub ble_address : Option String
  pub connectivity_state : String
  pub method : String
  pub factory_reset_requested : Bool
  pub result : String
  pub detail_json : LifecycleDetail
  pub created_at : ℕ

pub record Reading : Type 0 where
  pub reading_uuid : String
  pub gateway_id : String
  pub registered_device_id : ℕ
  pub received_at : ℕ
  pub measured_at : Option ℕ
  pub measured_at_device_uptime : Option ℕ
  pub device_uptime_ms : Option ℕ
  pub sequence_number : Option ℕ
  pub session_id : String
  pub record_type : String
  pub channel : String
  pub raw_value : Option Decimal
  pub normalized_value : Option Decimal
  pub unit : Option String
  pub quality : Quality
  pub payload_json : String
  pub delayed : Bool
  pub installation_id : Option String
  pub interface_id : Option String
