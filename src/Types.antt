-- ===== src/Types.antt =====
-- lib/decafs_types: the types that the parts of the Barista share.
pub mod Client
pub mod File
mod Tests
