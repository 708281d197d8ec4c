-- ===== src/Service/Cells.antt =====
-- The state of `RunnerService` (runner_engine/service.py), and what its methods are given.
-- `catalog` is `Catalog.get`, which reads the release's files. A method reads the clocks once for
-- each of its calls that reads them.
use managed_python_runner_en.Prelude.{ℕ, String, Dict}
use managed_python_runner_en.Errors.{Result}
use managed_python_runner_en.Model.{OperatorRelease, SecurityPolicy}
use managed_python_runner_en.State.Rows.{Clocks, Db}
use managed_python_runner_en.Pool.Cells.{Pool}
use managed_python_runner_en.Service.Attributes.{Hashing}

-- `worker` is the place of the worker's cell in the pool.
pub record ActiveRun : Type 0 where
  pub tenant_id : String
  pub lease_id : String
  pub release_id : String
  pub worker : ℕ

pub record Service (S : Type 0) : Type 0 where
  pub db : Db
  pub pool : Pool S
  pub active : Dict String ActiveRun

pub record Settings : Type 0 where
  pub catalog : String → Result OperatorRelease
  pub policies : Dict String SecurityPolicy
  pub lease_ttl_ms : ℕ
  pub idempotency_retention_ms : ℕ
  pub run_retention_ms : ℕ
  pub hashing : Hashing

-- The clocks of an invocation: of the lease's check, of the claim and of its end; and the monotonic
-- ones of `acquire` and `release`.
pub record Times : Type 0 where
  pub checked : Clocks
  pub claimed : Clocks
  pub ended : Clocks
  pub acquired : ℕ
  pub released : ℕ
