-- ===== src/Encoding.antt =====
-- The encoding polyfill (polyfill/encoding.c).
pub mod Base64
pub mod Hex
pub mod Bindings
