-- ===== src/Telemetry.antt =====
-- The intake of telemetry: gateway/app/services/telemetry_service.py, telemetry_persistence.py and
-- telemetry_retention.py.
pub mod Session
pub mod Persistence
pub mod Service
pub mod Retention
pub mod Parser
pub mod Receive
