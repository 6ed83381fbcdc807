-- ===== src/Espresso.antt =====
-- The Espresso storage node.
pub mod Extents
pub mod Descriptor
pub mod Allocator
pub mod Storage
pub mod Memory
mod Tests
