-- ===== src/Tests/Upkeep.antt =====
-- The theorems on compatibility and on retention, at small inputs.
use seed_mg.Prelude.{◌≡◌, ◌↔◌, some, [], ◌∷◌}
use seed_mg.Models.Device.{CompatibilityStatus}
use seed_mg.Node.Compatibility.{Metadata, Matrix, evaluate}
use seed_mg.Node.Compatibility.Laws.{Suits, evaluate_iff}
use seed_mg.Telemetry.Retention.Laws.{Cleaned, delete_before-Cleaned}
use seed_mg.Tests.Data.{versions}

abbrev metadata : Metadata
metadata = record {
  sensor_package_version = some "1.0.0";
  firmware_version = some "1.2.0";
  protocol_version = some "1";
  configuration_schema_version = some "1";
  build_identifier = some "build";
}

abbrev matrix : Matrix
matrix = record {
  supported_protocol_versions = "1" ∷ [];
  minimum = "1.0.0";
  maximum_exclusive = "2.0.0";
}

evaluate_iff_example :
    (evaluate versions matrix metadata ≡ CompatibilityStatus.compatible)
    ↔ Suits versions matrix metadata
evaluate_iff_example = evaluate_iff versions matrix metadata

delete_before-Cleaned_example : Cleaned (λ n. n) 10 1 (5 ∷ 12 ∷ 7 ∷ [])
delete_before-Cleaned_example = delete_before-Cleaned (λ n. n) 10 1 (5 ∷ 12 ∷ 7 ∷ [])
