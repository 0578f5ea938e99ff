-- ===== src/Rofs.antt =====
-- The read-only filesystem: src/filesystem.rs and src/filesystem/object.rs.
pub mod Path
pub mod Object
pub mod Node
pub mod Layout
pub mod Lookup
pub mod Find
pub mod Refine
pub mod Serve
pub mod Archives
pub mod Tests
mod ObjectTests
