-- ===== src/Sip.antt =====
-- crates/sip-core outside ZRTP: framing, messages and header values.
pub mod Framing
pub mod Util
pub mod Message
pub mod Builders
pub mod Auth
pub mod Hosts
pub mod Dns
pub mod Dialog
pub mod Calls
pub mod Registration
