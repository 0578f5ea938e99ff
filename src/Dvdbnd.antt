-- ===== src/Dvdbnd.antt =====
-- src/dvdbnd/: from the headers of the archives and the dictionary to the list of files.
pub mod Dictionary
pub mod Builder
pub mod Files
pub mod Paths
pub mod Walk
pub mod Tree
pub mod Keys
pub mod Matched
pub mod Pems
pub mod Finish
mod Tests
mod KeyTests
