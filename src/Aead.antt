-- ===== src/Aead.antt =====
-- lib/shadowsocks/src/tcp/aead.rs: the encrypted TCP stream.
pub mod Frames
pub mod Reader
pub mod Writer
pub mod Stream
mod Tests
