-- ===== src/Models.antt =====
-- gateway/app/models.py: the rows of the gateway's tables, one record for each table.
-- A column that holds one of the texts of a closed list is an enumeration, a time is the number of
-- microseconds since the epoch, and a JSON column is the value that its text stands for.
pub mod Values
pub mod Device
pub mod States
pub mod Installation
pub mod Json
pub mod Vibration
pub mod Telemetry
