-- ===== src/Ble.antt =====
-- gateway/app/ble and the services over it: what the gateway says to a node over Bluetooth.
pub mod Onboarding
pub mod Task
pub mod Provisioner
pub mod Connection
pub mod Manager
