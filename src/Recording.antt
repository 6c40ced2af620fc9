-- ===== src/Recording.antt =====
-- The recording of sessions: src/asciinema.
pub mod Quantizer
pub mod Utf8
pub mod Session
pub mod Cast
pub mod Idle
mod Sample
mod Tests
