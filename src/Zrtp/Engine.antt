-- ===== src/Zrtp/Engine.antt =====
-- crates/sip-core/src/zrtp/engine.rs: the handshake state machine.
pub mod Types
pub mod Build
pub mod Steps
pub mod Handlers
pub mod Handshake
pub mod Safety
mod Tests
pub mod Toy
