-- ===== src/Media.antt =====
-- crates/media-engine: the parts of the media path that compute on bytes and counters.
pub mod Rtp
pub mod VideoRtp
pub mod Dtmf
pub mod Vad
pub mod G711
pub mod ZrtpSession
