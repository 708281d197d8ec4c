-- ===== src/Pool.antt =====
-- runner_engine/pool.py: `WorkerPool`, the warm sandboxes by tenant, runtime and profile.
pub mod Cells
pub mod Destroy
pub mod Acquire
pub mod Reap
pub mod Evolution
pub mod Recording
pub mod Rules
pub mod Ready
pub mod Isolation
pub mod Accounting
