-- ===== src/Crypto.antt =====
-- src/crypto/rsa.rs: natural numbers as bytes, the decoding of keys, and the decryption of blocks.
pub mod Naturals
pub mod Rsa
pub mod Agrees
pub mod InPlace
pub mod Reader
pub mod Stream
pub mod Value
mod Tests
