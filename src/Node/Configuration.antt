-- ===== src/Node/Configuration.antt =====
-- gateway/app/services/channel_configuration_service.py: the checks on a configuration, in order.
pub mod Accepted
use seed_mg.Prelude.{
  ℕ, String, Bool, true, false, not, ◌&&◌, ◌||◌, Option, none, some, List, [], ◌∷◌, str_eq, is_some,
  find, all, any, mem_text, if◌then◌else◌, Result, ok, err, ◌>>=◌, ◌>>◌, require, require_some,
  ◌==◌, leb,
}
use seed_mg.Models.States.{
  FilterType, same_filter, ConfigurationError, unreported_interface, unusable_profile,
  incompatible_type, missing_capabilities, invalid_version, old_firmware, below_minimum,
  above_maximum, profile_filter, node_filter, window, calibration, calibration_parameters,
  alarms_unconfirmed, thresholds_without_alarms, not_reconfigurable,
}
use seed_mg.Models.Installation.{InstallationConfiguration}
use seed_mg.Profiles.Model.{ProfileStatus, SensorProfile, SamplingDefinition}
use seed_mg.Node.Capabilities.{
  Versions, NodeInterface, NodeCapabilities, same_type, firmware_satisfies,
}

abbrev pub usable_status : ProfileStatus → Bool
usable_status ProfileStatus.disabled = false
usable_status ProfileStatus.deprecated = false
usable_status _ = true

abbrev pub at_least : ℕ → Option ℕ → Bool
at_least value none = true
at_least value (some minimum) = leb minimum value

abbrev pub at_most : ℕ → Option ℕ → Bool
at_most value none = true
at_most value (some maximum) = leb value maximum

-- The names that a node reports its filters under.
abbrev pub filter_name : FilterType → String
filter_name FilterType.none = "none"
filter_name FilterType.ema = "ema"
filter_name FilterType.moving_average = "moving_average"
filter_name FilterType.median = "median"
filter_name FilterType.digital_debounce = "digital_debounce"

-- `any(value is not None for value in thresholds)`
abbrev pub has_threshold : InstallationConfiguration → Bool
has_threshold c =
    is_some c.warning_low || is_some c.warning_high || is_some c.alarm_low || is_some c.alarm_high

abbrev pub is_established : InstallationConfiguration → Bool
is_established c =
    c.sample_interval_ms == 100
    && c.processing_interval_ms == 100
    && c.report_interval_ms == 100
    && c.heartbeat_interval_ms == 30000

check_interval : SamplingDefinition → ℕ → Result ConfigurationError Unit
check_interval s value = do
  require (at_least value s.minimum_interval_ms) below_minimum
  require (at_most value s.maximum_interval_ms) above_maximum

check_timing : SensorProfile → InstallationConfiguration → Result ConfigurationError Unit
unfolding check_interval
check_timing p c = do
  check_interval p.sampling c.sample_interval_ms
  check_interval p.sampling c.processing_interval_ms
  check_interval p.sampling c.report_interval_ms

check_filter :
    SensorProfile → NodeCapabilities → InstallationConfiguration → Result ConfigurationError Unit
check_filter p n c = do
  require (any (same_filter c.filter_type) p.filter.supported) profile_filter
  require (mem_text (filter_name c.filter_type) n.filters) node_filter
  require (leb c.filter_window p.filter.maximum_window) window

check_thresholds : SensorProfile → InstallationConfiguration → Result ConfigurationError Unit
check_thresholds p c = do
  require (not c.calibration_enabled) calibration
  require (not (is_some c.calibration_gain || is_some c.calibration_offset)) calibration_parameters
  require (not (c.alarms_enabled && (not p.alarms.supported || not (has_threshold c))))
      alarms_unconfirmed
  require (not (not c.alarms_enabled && has_threshold c)) thresholds_without_alarms

check_established :
    SensorProfile → NodeInterface → InstallationConfiguration → Result ConfigurationError Unit
check_established p i c =
    require
      (i.configuration_supported
        || (is_established c && same_filter c.filter_type p.filter.default))
      not_reconfigurable

check_profile :
    Versions → SensorProfile → NodeCapabilities → NodeInterface → Result ConfigurationError Unit
check_profile v p n i = do
  require (usable_status p.status) unusable_profile
  require (same_type p.interface.type i.type) incompatible_type
  require (all (λ c. mem_text c i.capabilities) p.firmware.required_capabilities)
      missing_capabilities
  satisfied ←
      require_some (firmware_satisfies v n.firmware_version p.firmware.minimum_version)
        invalid_version
  require satisfied old_firmware

unfoldable pub interface_of : NodeCapabilities → String → Option NodeInterface
interface_of n id = find (λ i. str_eq i.interface_id id) n.interfaces

unfoldable pub validate :
    Versions
    → SensorProfile
    → NodeCapabilities
    → String
    → InstallationConfiguration
    → Result ConfigurationError Unit
unfolding check_profile check_timing check_filter check_thresholds check_established
validate v p n id c = do
  i ← require_some (interface_of n id) unreported_interface
  check_profile v p n i
  check_timing p c
  check_filter p n c
  check_thresholds p c
  check_established p i c
