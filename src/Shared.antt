-- ===== src/Shared.antt =====
-- src/shared: what the modules of the program are built from.
pub mod Age
pub mod Errors
pub mod Exec
pub mod Mongo
pub mod Tier
pub mod User
pub mod Double
pub mod Tds
