-- ===== src/Firmware.antt =====
-- gateway/app/services/firmware_installation.py: which firmware images may be installed.
pub mod Hex
pub mod Catalog
