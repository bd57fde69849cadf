-- ===== src/Config.antt =====
-- src/config: the settings.
pub mod Schema
pub mod Limits
