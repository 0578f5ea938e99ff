-- ===== src/Bhd5.antt =====
-- src/dvdbnd/bhd5.rs and src/dvdbnd/bhd5/: the headers of the archives.
pub mod Fields
pub mod Header
pub mod Entry
pub mod Buckets
pub mod File
pub mod Typed
pub mod Validated
pub mod Valid
pub mod Order
pub mod Tests
