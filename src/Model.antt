-- ===== src/Model.antt =====
-- runner_engine/model.py: the values that the runner's parts exchange.
-- A `bytes` is the list of its numbers. A dict with text keys is the list of its items, in order;
-- `Value` is what a dict that is meant to be `dict[str, str]` may hold when it comes from JSON.
use managed_python_runner_en.Prelude.{ℕ, String, Bool, Option, List}

pub data Value : Type 0 where
  string : String → Value
  not_string : Value

abbrev pub Attributes : Type 0
Attributes = List (String × Value)

abbrev pub Bytes : Type 0
Bytes = List ℕ

pub record RuntimeEnv : Type 0 where
  pub id : String
  pub image : String
  pub python : String

pub record OperatorRelease : Type 0 where
  pub id : String
  pub artifact_path : String
  pub artifact_sha256 : String
  pub runtime : RuntimeEnv
  pub entrypoint : String
  pub profile : String
  pub input_attributes : List String
  pub output_attributes : List String

pub record SecurityPolicy : Type 0 where
  pub name : String
  pub sandbox_cluster : String
  pub cpu : String
  pub memory : String
  pub max_timeout_ms : ℕ
  pub network_allow : List String
  pub reuse_sandbox : Bool

pub record Lease : Type 0 where
  pub id : String
  pub tenant_id : String
  pub project_id : String
  pub processor_id : String
  pub release_id : String
  pub expires_at_ms : ℕ

pub record RunRequest : Type 0 where
  pub tenant_id : String
  pub lease_id : String
  pub release_id : String
  pub invocation_id : String
  pub idempotency_key : String
  pub content : Bytes
  pub attributes : Attributes
  pub parameters : Attributes
  pub timeout_ms : ℕ

pub record RunResult : Type 0 where
  pub status : String
  pub relationship : String
  pub content : Bytes
  pub attributes : Attributes
  pub retryable : Bool
  pub error_code : String
  pub error_message : String
  pub worker_id : String
  pub duration_ms : ℕ

-- A sandbox worker. The `_monotonic` times are in milliseconds of the process's own clock.
pub record Worker : Type 0 where
  pub id : String
  pub endpoint : String
  pub token : String
  pub tenant_id : String
  pub runtime_id : String
  pub profile : String
  pub backend_group : String
  pub created_monotonic : ℕ
  pub last_used_monotonic : ℕ
  pub installed_release_ids : List String
  pub sandbox_expires_monotonic : Option ℕ
  pub runs : ℕ
  pub healthy : Bool
  pub destroyed : Bool
