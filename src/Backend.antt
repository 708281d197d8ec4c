-- ===== src/Backend.antt =====
-- runner_engine/sandbox/backend.py: `SandboxBackend`, the boundary to the sandbox infrastructure.
-- What lies behind it is a state that every call may read and change. A method that raises leaves
-- the state that it had reached.
use managed_python_runner_en.Prelude.{ℕ, String, Option, [], false, true}
use managed_python_runner_en.Errors.{Result}
use managed_python_runner_en.Model.{OperatorRelease, SecurityPolicy, RunRequest, RunResult, Worker}

-- What a backend chooses of a new `Worker`. The other fields are the same in every backend:
-- those of the request, and the defaults.
pub record NewSandbox : Type 0 where
  pub id : String
  pub endpoint : String
  pub token : String
  pub backend_group : String
  pub now : ℕ
  pub sandbox_expires_monotonic : Option ℕ

abbrev pub new_worker : String → OperatorRelease → NewSandbox → Worker
new_worker tenant_id release sandbox = record {
  id = sandbox.id;
  endpoint = sandbox.endpoint;
  token = sandbox.token;
  tenant_id = tenant_id;
  runtime_id = release.runtime.id;
  profile = release.profile;
  backend_group = sandbox.backend_group;
  created_monotonic = sandbox.now;
  last_used_monotonic = sandbox.now;
  installed_release_ids = [];
  sandbox_expires_monotonic = sandbox.sandbox_expires_monotonic;
  runs = 0;
  healthy = true;
  destroyed = false;
}

pub record Backend (S : Type 0) : Type 0 where
  pub create : String → OperatorRelease → SecurityPolicy → ℕ → S → Result NewSandbox × S
  -- The new `sandbox_expires_monotonic` of the worker.
  pub renew : Worker → ℕ → S → Result (Option ℕ) × S
  pub install : Worker → OperatorRelease → S → Result (Unit {0}) × S
  pub run : Worker → OperatorRelease → RunRequest → ℕ → S → Result RunResult × S
  pub destroy : Worker → S → Result (Unit {0}) × S
  pub cleanup_managed : S → Result ℕ × S
