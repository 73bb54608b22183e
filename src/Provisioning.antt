-- ===== src/Provisioning.antt =====
-- The life of an attached sensor: gateway/app/services/installation_service.py and
-- provisioning_service.py over gateway/app/repositories/installation_repository.py.
pub mod Database
pub mod Validation
pub mod Apply
pub mod Installations
