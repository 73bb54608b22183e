-- ===== src/Tests.antt =====
-- The theorems at concrete inputs: one microphone on one node, its installation in the states that
-- the services bring it to, and the answers of a device that works and of one that does not.
mod Data
mod Provisioning
mod Registration
mod Monitoring
mod Upkeep
mod Messages
mod Conversations
mod Images
mod Workflows
mod Resets
mod Devices
mod Connections
