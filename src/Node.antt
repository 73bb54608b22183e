-- ===== src/Node.antt =====
-- What a node can do, and which configurations its channels accept.
pub mod Capabilities
pub mod Configuration
pub mod Compatibility
