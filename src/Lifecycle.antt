-- ===== src/Lifecycle.antt =====
-- Removal and restoration of a node: gateway/app/services/device_lifecycle_service.py, and the
-- one-time confirmations of gateway/app/services/lifecycle_confirmation.py that guard them.
pub mod Confirmation
pub mod Service
