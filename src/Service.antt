-- ===== src/Service.antt =====
-- runner_engine/service.py: `RunnerService`, which runs a request under its lease, its idempotency
-- key and its policy.
pub mod Attributes
pub mod Cells
pub mod Invoke
pub mod Outcome
pub mod Invocations
pub mod Repeats
pub mod Requests
pub mod Workers
pub mod Restart
