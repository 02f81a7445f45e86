-- ===== src/Config.antt =====
-- MetricsConfiguration of collector/config.go: its sections, `merge` and `validate`. The sections are
-- the modules below.
pub mod Connect
pub mod Availability
pub mod Detection
pub mod Operational
pub mod Activity
pub mod Plans
pub mod Output
pub mod Vault
pub mod Validate
pub mod Scope
pub mod Defaults
