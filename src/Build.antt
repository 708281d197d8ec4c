-- ===== src/Build.antt =====
-- build_service: runtime environments, each an image with the packages of a lock, that are looked up,
-- shared and built.
pub mod Lock
pub mod Model
pub mod Rows
pub mod Store
pub mod Builder
pub mod Service
pub mod App
