-- ===== src/Node/Compatibility.antt =====
-- gateway/app/services/compatibility_service.py. `Version` of `packaging.version` is a parameter, and
-- the metadata is the record of its five texts, `none` where a key is absent.
pub mod Laws
use seed_mg.Prelude.{
  String, Bool, true, false, not, ◌&&◌, ◌||◌, Option, none, some, List, str_eq, mem_text,
  if◌then◌else◌,
}
use seed_mg.Models.Device.{CompatibilityStatus}
use seed_mg.Profiles.Model.{is_blank}
use seed_mg.Node.Capabilities.{Versions}

pub record Metadata : Type 0 where
  pub sensor_package_version : Option String
  pub firmware_version : Option String
  pub protocol_version : Option String
  pub configuration_schema_version : Option String
  pub build_identifier : Option String

pub record Matrix : Type 0 where
  pub supported_protocol_versions : List String
  pub minimum : String
  pub maximum_exclusive : String

-- The value of a text column, where an absent one is the empty text.
abbrev pub text_of : Option String → String
text_of none = ""
text_of (some t) = t

unfoldable pub is_incomplete : Metadata → Bool
is_incomplete m =
    is_blank m.sensor_package_version
    || is_blank m.firmware_version
    || is_blank m.protocol_version
    || is_blank m.configuration_schema_version
    || is_blank m.build_identifier

-- The `try` block: the versions are read in the order of the code, so that an invalid limit is
-- noticed only where it is compared with.
abbrev pub evaluate_package : Versions → Matrix → String → CompatibilityStatus
evaluate_package v x sensor =
    if not (v.accepts sensor) || not (v.accepts x.minimum)
    then CompatibilityStatus.unknown
    else if v.less sensor x.minimum
    then CompatibilityStatus.sensor_update_required
    else if not (v.accepts x.maximum_exclusive)
    then CompatibilityStatus.unknown
    else if not (v.less sensor x.maximum_exclusive)
    then CompatibilityStatus.gateway_update_required
    else CompatibilityStatus.compatible

unfoldable pub evaluate : Versions → Matrix → Metadata → CompatibilityStatus
unfolding is_incomplete
evaluate v x m =
    if is_incomplete m
    then CompatibilityStatus.metadata_missing
    else if not (mem_text (text_of m.protocol_version) x.supported_protocol_versions)
    then CompatibilityStatus.protocol_unsupported
    else evaluate_package v x (text_of m.sensor_package_version)
