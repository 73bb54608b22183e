-- ===== src/Node/Configuration/Accepted.antt =====
-- What the checks of channel_configuration_service.py accept, said without their order.
use seed_mg.Prelude.{
  ℕ, ◌≤◌, String, ◌≡◌, ◌≢◌, ◌↔◌, true, false, Option, none, some, any, all, mem_text, arith, ok,
  require_some-bind-eq_ok, unit-bind-eq_ok,
}
use seed_mg.Models.States.{same_filter, same_filter→eq, unreported_interface}
use seed_mg.Models.Installation.{InstallationConfiguration}
use seed_mg.Profiles.Model.{InterfaceType, ProfileStatus, SensorProfile, SamplingDefinition}
use seed_mg.Node.Capabilities.{
  Versions, NodeInterface, NodeCapabilities, same_type, firmware_satisfies,
}
use seed_mg.Node.Configuration.{
  filter_name, has_threshold, check_interval, check_timing, check_filter, check_thresholds,
  check_established, check_profile, interface_of, validate,
}

-- The interval lies within the bounds that the profile sets.
abbrev pub Within : ℕ → Option ℕ → Option ℕ → Type 0
Within value none none = Unit
Within value (some low) none = low ≤ value
Within value none (some high) = value ≤ high
Within value (some low) (some high) = (low ≤ value) × (value ≤ high)

-- What the profile and the interface must agree on.
pub record ProfileFits (v : Versions) (p : SensorProfile) (n : NodeCapabilities) (i : NodeInterface)
    : Type 0 where
  pub not_disabled : p.status ≢ ProfileStatus.disabled
  pub not_deprecated : p.status ≢ ProfileStatus.deprecated
  pub same_interface : p.interface.type ≡ i.type
  pub capable : all (λ c. mem_text c i.capabilities) p.firmware.required_capabilities ≡ true
  pub firmware : firmware_satisfies v n.firmware_version p.firmware.minimum_version ≡ some true

-- What the configuration must keep to.
pub record ValuesFit (p : SensorProfile) (n : NodeCapabilities) (c : InstallationConfiguration)
    : Type 0 where
  pub sample :
      Within c.sample_interval_ms p.sampling.minimum_interval_ms p.sampling.maximum_interval_ms
  pub processing :
      Within c.processing_interval_ms p.sampling.minimum_interval_ms p.sampling.maximum_interval_ms
  pub report :
      Within c.report_interval_ms p.sampling.minimum_interval_ms p.sampling.maximum_interval_ms
  pub filter_in_profile : any (same_filter c.filter_type) p.filter.supported ≡ true
  pub filter_on_node : mem_text (filter_name c.filter_type) n.filters ≡ true
  pub window : c.filter_window ≤ p.filter.maximum_window
  pub no_calibration : c.calibration_enabled ≡ false
  pub no_gain : c.calibration_gain ≡ none
  pub no_offset : c.calibration_offset ≡ none
  pub alarms : c.alarms_enabled ≡ true → (p.alarms.supported ≡ true) × (has_threshold c ≡ true)
  pub no_alarms : c.alarms_enabled ≡ false → has_threshold c ≡ false

-- The defaults that an interface with no runtime configuration is held to.
pub record IsDefault (p : SensorProfile) (c : InstallationConfiguration) : Type 0 where
  pub sample : c.sample_interval_ms ≡ 100
  pub processing : c.processing_interval_ms ≡ 100
  pub report : c.report_interval_ms ≡ 100
  pub heartbeat : c.heartbeat_interval_ms ≡ 30000
  pub filter : c.filter_type ≡ p.filter.default

check_interval_iff :
    (s : SamplingDefinition) (value : ℕ)
    → (check_interval s value ≡ ok tt) ↔ Within value s.minimum_interval_ms s.maximum_interval_ms
unfolding check_interval
check_interval_iff s value = (λ h. ground arith, λ h. ground arith)

same_type→eq : (a b : InterfaceType) → same_type a b ≡ true → a ≡ b
same_type→eq a b h = ground arith

check_profile→fits :
    (v : Versions) (p : SensorProfile) (n : NodeCapabilities) (i : NodeInterface)
    → check_profile v p n i ≡ ok tt
    → ProfileFits v p n i
unfolding check_profile
check_profile→fits v p n i h = ground (arith, same_type→eq p.interface.type i.type)

fits→check_profile :
    (v : Versions) (p : SensorProfile) (n : NodeCapabilities) (i : NodeInterface)
    → ProfileFits v p n i
    → check_profile v p n i ≡ ok tt
unfolding check_profile
fits→check_profile v p n i f = ground arith

thresholds→fit :
    (p : SensorProfile) (c : InstallationConfiguration)
    → check_thresholds p c ≡ ok tt
    → (c.calibration_enabled ≡ false)
      × (c.calibration_gain ≡ none)
      × (c.calibration_offset ≡ none)
      × (c.alarms_enabled ≡ true → (p.alarms.supported ≡ true) × (has_threshold c ≡ true))
      × (c.alarms_enabled ≡ false → has_threshold c ≡ false)
unfolding check_thresholds
thresholds→fit p c h = ground arith

timing→fit :
    (p : SensorProfile) (c : InstallationConfiguration)
    → check_timing p c ≡ ok tt
    → let s = p.sampling in
      Within c.sample_interval_ms s.minimum_interval_ms s.maximum_interval_ms
      × Within c.processing_interval_ms s.minimum_interval_ms s.maximum_interval_ms
      × Within c.report_interval_ms s.minimum_interval_ms s.maximum_interval_ms
unfolding check_timing check_interval
timing→fit p c h = ground arith

filter→fit :
    (p : SensorProfile) (n : NodeCapabilities) (c : InstallationConfiguration)
    → check_filter p n c ≡ ok tt
    → (any (same_filter c.filter_type) p.filter.supported ≡ true)
      × (mem_text (filter_name c.filter_type) n.filters ≡ true)
      × (c.filter_window ≤ p.filter.maximum_window)
unfolding check_filter
filter→fit p n c h = ground arith

fit→values :
    (p : SensorProfile) (n : NodeCapabilities) (c : InstallationConfiguration)
    → ValuesFit p n c
    → (check_timing p c ≡ ok tt) × (check_filter p n c ≡ ok tt) × (check_thresholds p c ≡ ok tt)
unfolding check_timing check_interval check_filter check_thresholds
fit→values p n c f = (ground arith, ground arith, ground arith)

established→default :
    (p : SensorProfile) (i : NodeInterface) (c : InstallationConfiguration)
    → check_established p i c ≡ ok tt
    → i.configuration_supported ≡ false
    → IsDefault p c
unfolding check_established
established→default p i c h fixed = ground (arith, same_filter→eq c.filter_type p.filter.default)

default→established :
    (p : SensorProfile) (i : NodeInterface) (c : InstallationConfiguration)
    → (i.configuration_supported ≡ false → IsDefault p c)
    → check_established p i c ≡ ok tt
unfolding check_established
default→established p i c d = ground arith

values-fit :
    (p : SensorProfile) (n : NodeCapabilities) (c : InstallationConfiguration)
    → check_timing p c ≡ ok tt
    → check_filter p n c ≡ ok tt
    → check_thresholds p c ≡ ok tt
    → ValuesFit p n c
values-fit p n c timing filters thresholds =
    let t = timing→fit p c timing in
    let f = filter→fit p n c filters in
    let a = thresholds→fit p c thresholds in
    record {
      sample = t.0;
      processing = t.1;
      report = t.2;
      filter_in_profile = f.0;
      filter_on_node = f.1;
      window = f.2;
      no_calibration = a.0;
      no_gain = a.1;
      no_offset = a.2;
      alarms = a.3;
      no_alarms = a.4;
    }

-- A configuration is accepted exactly when the interface is reported, the profile fits it, the
-- values keep to the profile, and an interface with no runtime configuration gets its defaults.
pub validate_iff :
    (v : Versions) (p : SensorProfile) (n : NodeCapabilities) (id : String)
    (c : InstallationConfiguration)
    → (validate v p n id c ≡ ok tt) ↔ (
        (i : NodeInterface) × (interface_of n id ≡ some i)
        × ProfileFits v p n i
        × ValuesFit p n c
        × (i.configuration_supported ≡ false → IsDefault p c))
unfolding validate
validate_iff v p n id c = (accepted, λ r. fits r.0 r.1 r.2 r.3 r.4)
  where
    accepted :
        validate v p n id c ≡ ok tt
        → (i : NodeInterface) × (interface_of n id ≡ some i)
          × ProfileFits v p n i
          × ValuesFit p n c
          × (i.configuration_supported ≡ false → IsDefault p c)
    accepted h =
        let (i, found, h1) = require_some-bind-eq_ok (interface_of n id) unreported_interface _ h in
        let (h2, h3) = unit-bind-eq_ok (check_profile v p n i) _ h1 in
        let (h4, h5) = unit-bind-eq_ok (check_timing p c) _ h3 in
        let (h6, h7) = unit-bind-eq_ok (check_filter p n c) _ h5 in
        let (h8, h9) = unit-bind-eq_ok (check_thresholds p c) _ h7 in
        (
          i,
          found,
          check_profile→fits v p n i h2,
          values-fit p n c h4 h6 h8,
          established→default p i c h9,
        )

    fits :
        (i : NodeInterface)
        → interface_of n id ≡ some i
        → ProfileFits v p n i
        → ValuesFit p n c
        → (i.configuration_supported ≡ false → IsDefault p c)
        → validate v p n id c ≡ ok tt
    fits i found f g d =
        let (timing, filters, thresholds) = fit→values p n c g in
        rw found (
          rw (fits→check_profile v p n i f)
            (rw timing (rw filters (rw thresholds (default→established p i c d)))))
