-- ===== src/Node/Capabilities.antt =====
-- gateway/app/services/node_capability_service.py, with `NodeInterface` and `NodeCapabilities` of
-- gateway/app/schemas.py. `packaging.version` is third-party: a parameter.
use seed_mg.Prelude.{
  ℕ, String, Bool, true, false, not, ◌&&◌, Option, none, some, List, [], ◌∷◌, str_eq, find, all,
  keep, mem_text, if◌then◌else◌, ◌==◌,
}
use mathlib.Core.List.{reverse}
use seed_mg.Prelude.{◌≡◌, refl}
use seed_mg.Models.Device.{RegisteredDevice}
use seed_mg.Profiles.Model.{InterfaceType}

-- `Version(text)` of `packaging.version`: which texts it accepts, and its order on those.
pub record Versions : Type 0 where
  pub accepts : String → Bool
  pub less : String → String → Bool

pub data Persistence : Type 0 where
  not_persistent volatile persistent : Persistence

pub record NodeInterface : Type 0 where
  pub interface_id : String
  pub type : InterfaceType
  pub capabilities : List String
  pub telemetry_channels : List String
  pub exclusive : Bool
  pub configuration_supported : Bool
  pub configuration_persistence : Persistence

pub record NodeCapabilities : Type 0 where
  pub node_id : String
  pub firmware_version : Option String
  pub interfaces : List NodeInterface
  pub filters : List String
  pub reporting_modes : List String
  pub minimum_interval_ms : ℕ
  pub maximum_interval_ms : ℕ
  pub configuration_readback : Bool

-- The capability document that a node sent; `processing` is `none` where it is no object.
pub record ReportedInterface : Type 0 where
  pub interface_id : String
  pub type : Option InterfaceType
  pub capabilities : List String

pub record Processing : Type 0 where
  pub filters : List String
  pub reporting_modes : List String

pub record Reported : Type 0 where
  pub interfaces : List ReportedInterface
  pub processing : Option Processing
  pub firmware_version : Option String

abbrev interface_code : InterfaceType → ℕ
interface_code InterfaceType.analog = 0
interface_code InterfaceType.built_in = 1
interface_code InterfaceType.i2c = 2
interface_code InterfaceType.spi = 3
interface_code InterfaceType.uart = 4
interface_code InterfaceType.digital = 5

abbrev pub same_type : InterfaceType → InterfaceType → Bool
same_type a b = interface_code a == interface_code b

abbrev pub microphone : NodeInterface
microphone = record {
  interface_id = "MIC";
  type = InterfaceType.built_in;
  capabilities = "built_in_microphone" ∷ [];
  telemetry_channels = "microphone_raw" ∷ "microphone_percent" ∷ [];
  exclusive = true;
  configuration_supported = true;
  configuration_persistence = Persistence.persistent;
}

abbrev imu : NodeInterface
imu = record {
  interface_id = "IMU0";
  type = InterfaceType.built_in;
  capabilities = "built_in_imu_accelerometer" ∷ "built_in_imu_gyroscope" ∷ [];
  telemetry_channels =
      "acceleration_x" ∷ "acceleration_y" ∷ "acceleration_z" ∷ "angular_velocity_x"
      ∷ "angular_velocity_y" ∷ "angular_velocity_z" ∷ [];
  exclusive = false;
  configuration_supported = false;
  configuration_persistence = Persistence.not_persistent;
}

abbrev battery : NodeInterface
battery = record {
  interface_id = "VBAT";
  type = InterfaceType.built_in;
  capabilities = "built_in_battery" ∷ [];
  telemetry_channels = "battery_voltage" ∷ [];
  exclusive = true;
  configuration_supported = false;
  configuration_persistence = Persistence.not_persistent;
}

abbrev analog_input : String → String → NodeInterface
analog_input pin channel = record {
  interface_id = pin;
  type = InterfaceType.analog;
  capabilities = "raw_adc" ∷ [];
  telemetry_channels = channel ∷ [];
  exclusive = true;
  configuration_supported = false;
  configuration_persistence = Persistence.not_persistent;
}

abbrev pub built_in_interfaces : List NodeInterface
built_in_interfaces =
    microphone
    ∷ imu
    ∷ battery
    ∷ analog_input "D0" "analog_0"
    ∷ analog_input "D1" "analog_1"
    ∷ analog_input "D2" "analog_2"
    ∷ analog_input "D3" "analog_3"
    ∷ analog_input "D4" "analog_4"
    ∷ analog_input "D5" "analog_5"
    ∷ []

if-eq_some :
    (b : Bool) (a c : NodeCapabilities)
    → (if b then none else some a) ≡ some c
    → (b ≡ false) × (a ≡ c)
if-eq_some true a c h = cc
if-eq_some false a c h = (refl, cc)

-- A later entry of the document with the same `interface_id` replaces an earlier one.
unfoldable pub reported_interface : String → List ReportedInterface → Option ReportedInterface
reported_interface id items = find (λ r. str_eq r.interface_id id) (reverse items)

abbrev type_agrees : Option InterfaceType → InterfaceType → Bool
type_agrees none t = false
type_agrees (some u) t = same_type u t

abbrev confirms : Option ReportedInterface → NodeInterface → Bool
confirms none item = false
confirms (some r) item =
    type_agrees r.type item.type && all (λ c. mem_text c r.capabilities) item.capabilities

unfoldable pub is_confirmed : List ReportedInterface → NodeInterface → Bool
is_confirmed items item = confirms (reported_interface item.interface_id items) item

-- `reported.get("firmware_version") or result.firmware_version`
abbrev or_text : Option String → Option String → Option String
or_text none other = other
or_text (some t) other = if str_eq t "" then other else some t

abbrev narrow : Option Processing → NodeCapabilities → NodeCapabilities
narrow none c = c
narrow (some p) c = record c {
  filters = keep (λ f. mem_text f p.filters) c.filters;
  reporting_modes = keep (λ m. mem_text m p.reporting_modes) c.reporting_modes;
}

unfoldable pub restrict : Option Reported → NodeCapabilities → NodeCapabilities
unfolding is_confirmed reported_interface
restrict none c = c
restrict (some r) c =
    let c' =
      narrow r.processing
        (record c { interfaces = keep (is_confirmed r.interfaces) c.interfaces }) in
    record c' { firmware_version = or_text r.firmware_version c'.firmware_version }

unfoldable pub base_capabilities : RegisteredDevice → NodeCapabilities
base_capabilities node = record {
  node_id = node.device_id;
  firmware_version = node.firmware_version;
  interfaces = built_in_interfaces;
  filters = "none" ∷ "ema" ∷ "moving_average" ∷ "median" ∷ "digital_debounce" ∷ [];
  reporting_modes = "periodic" ∷ "change" ∷ "event" ∷ "heartbeat" ∷ [];
  minimum_interval_ms = 50;
  maximum_interval_ms = 5000;
  configuration_readback = false;
}

-- `get`; the argument is the row that the repository found. `none` is `NodeNotFoundError`.
unfoldable pub capabilities : Option RegisteredDevice → Option Reported → Option NodeCapabilities
unfolding restrict base_capabilities
capabilities none reported = none
capabilities (some node) reported =
    if node.archived then none else some (restrict reported (base_capabilities node))

-- With no report from the node, the capabilities are those of this repository's firmware.
pub capabilities-eq_some :
    (device : RegisteredDevice) (c : NodeCapabilities)
    → capabilities (some device) none ≡ some c
    → (device.archived ≡ false) × (base_capabilities device ≡ c)
unfolding capabilities
capabilities-eq_some device c h =
    if-eq_some device.archived (restrict none (base_capabilities device)) c h

-- `none` is `InvalidVersion`.
unfoldable pub firmware_satisfies : Versions → Option String → Option String → Option Bool
firmware_satisfies v current none = some true
firmware_satisfies v none (some minimum) = some false
firmware_satisfies v (some current) (some minimum) =
    if v.accepts current && v.accepts minimum then some (not (v.less current minimum)) else none
