-- ===== src/Node/Compatibility/Laws.antt =====
-- compatibility_service.py: which nodes are compatible.
use seed_mg.Prelude.{◌≡◌, ◌↔◌, true, false, mem_text, arith}
use seed_mg.Models.Device.{CompatibilityStatus}
use seed_mg.Node.Capabilities.{Versions}
use seed_mg.Node.Compatibility.{Metadata, Matrix, text_of, is_incomplete, evaluate}

-- What the gateway asks of a compatible node.
pub record Suits (v : Versions) (x : Matrix) (m : Metadata) : Type 0 where
  pub complete : is_incomplete m ≡ false
  pub protocol : mem_text (text_of m.protocol_version) x.supported_protocol_versions ≡ true
  pub versions :
      (v.accepts (text_of m.sensor_package_version) ≡ true)
      × (v.accepts x.minimum ≡ true)
      × (v.accepts x.maximum_exclusive ≡ true)
  pub at_least : v.less (text_of m.sensor_package_version) x.minimum ≡ false
  pub below : v.less (text_of m.sensor_package_version) x.maximum_exclusive ≡ true

-- A node is compatible exactly when its metadata is complete, its protocol is supported, its package
-- and the limits are versions, and the package is at least the minimum and below the maximum.
pub evaluate_iff :
    (v : Versions) (x : Matrix) (m : Metadata)
    → (evaluate v x m ≡ CompatibilityStatus.compatible) ↔ Suits v x m
unfolding evaluate
evaluate_iff v x m = (
  λ h. record {
    complete = ground arith;
    protocol = ground arith;
    versions = (ground arith, ground arith, ground arith);
    at_least = ground arith;
    below = ground arith;
  },
  λ s. ground (
    arith, s.complete, s.protocol, s.versions.0, s.versions.1, s.versions.2, s.at_least, s.below,
  ),
)
