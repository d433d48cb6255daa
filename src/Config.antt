-- ===== src/Config.antt =====
-- crates/config: the settings.
pub mod Account
pub mod Enums
pub mod DialPlan
