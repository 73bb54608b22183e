-- ===== src/Vibration.antt =====
-- Vibration condition monitoring: gateway/app/services/vibration_condition.py.
pub mod Statistics
pub mod Condition
pub mod Service
