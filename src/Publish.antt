-- ===== src/Publish.antt =====
-- publish_service: operators with the versions of their contracts, the variants that a contract is
-- compiled to, and the jobs that publish them.
pub mod Rows
pub mod Store
pub mod Selection
pub mod Backends
pub mod Service
pub mod App
