-- ===== src/Tests.antt =====
-- Examples: a runner with one release and one request, and what the theorems say of it.
pub mod Data
pub mod Tables
pub mod Workers
pub mod Runs
pub mod Peers
pub mod Catalogs
pub mod Builds
pub mod PublishData
pub mod Publishes
