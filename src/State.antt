-- ===== src/State.antt =====
-- runner_engine/state.py: `RunnerDB`, the durable leases, execution history and idempotency claims.
-- The modules below hold its tables, one module for each group of operations, and the proofs.
pub mod Rows
pub mod Codec
pub mod Leases
pub mod Claims
pub mod Maintenance
pub mod Consistency
pub mod Replay
pub mod Reach
