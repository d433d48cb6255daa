-- ===== src/Zrtp/Wire.antt =====
-- crates/sip-core/src/zrtp/wire.rs: the packet and message format.
pub mod Types
pub mod Encode
pub mod Decode
mod Cursor
mod Sizes
mod Bodies
pub mod RoundTrip
pub mod Bounds
pub mod Panics
mod Tests
