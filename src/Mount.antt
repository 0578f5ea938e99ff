-- ===== src/Mount.antt =====
-- src/dvdbnd/mount.rs and src/dvdbnd/mount/: the mounted filesystem.
pub mod Read
pub mod Fuser
pub mod Handlers
pub mod Replies
pub mod Listing
pub mod Decrypt
pub mod Projfs
pub mod Plain
pub mod Open
mod Opened
mod OpenTests
mod Tests
