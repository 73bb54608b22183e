-- ===== src/Profiles.antt =====
-- gateway/app/profiles: the declarative sensor profiles.
pub mod Model
