-- ===== src/Zrtp.antt =====
-- crates/sip-core/src/zrtp: ZRTP media encryption.
pub mod Wire
pub mod Crypto
pub mod Cache
pub mod Engine
