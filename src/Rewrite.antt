-- ===== src/Rewrite.antt =====
-- The rewrite of the crate: hazptr_rewrite/src.
pub mod Config
pub mod Hazard
pub mod HazardList
pub mod Queue
pub mod Retire
pub mod Local
pub mod Guard
