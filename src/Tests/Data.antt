-- ===== src/Tests/Data.antt =====
-- One tenant's release, request and result, and a backend that always succeeds.
use managed_python_runner_en.Prelude.{ℕ, ◌+◌, true, false, none, [], ◌∷◌}
use managed_python_runner_en.Errors.{ok}
use managed_python_runner_en.Model.{OperatorRelease, SecurityPolicy, RunRequest, RunResult, string}
use managed_python_runner_en.Backend.{Backend}
use managed_python_runner_en.Quota.{Quota}
use managed_python_runner_en.State.Rows.{Clocks, Db, LeaseRow, empty_db}
use managed_python_runner_en.State.Claims.{ClaimRequest}
use managed_python_runner_en.State.Claims.Outcomes.{with_run, with_new_key}
use managed_python_runner_en.State.Consistency.Endings.{finish_state}
use managed_python_runner_en.Pool.Cells.{Pool}
use managed_python_runner_en.Service.Cells.{Service, Settings, Times}
use managed_python_runner_en.Service.Invoke.{Admitted}

abbrev pub at : ℕ → Clocks
at now = record { runner = now; database = now }

abbrev pub hello_result : RunResult
hello_result = record {
  status = "SUCCEEDED";
  relationship = "success";
  content = 104 ∷ 105 ∷ [];
  attributes = [];
  retryable = false;
  error_code = "";
  error_message = "";
  worker_id = "w";
  duration_ms = 12;
}

abbrev pub try_later : RunResult
try_later = record hello_result {
  status = "FAILED";
  relationship = "retry";
  retryable = true;
  error_code = "TIMEOUT";
}

abbrev pub hello_lease : LeaseRow
hello_lease = record {
  id = "lease-1";
  tenant_id = "acme";
  project_id = "p";
  processor_id = "q";
  release_id = "hello-1";
  expires_at = 900000000;
  created_at = 0;
  updated_at = 0;
}

abbrev pub leased_db : Db
leased_db = record empty_db { leases = hello_lease ∷ [] }

abbrev pub hello_claim : ClaimRequest
hello_claim = record {
  key = "key-1";
  tenant_id = "acme";
  project_id = "p";
  processor_id = "q";
  lease_id = "lease-1";
  release_id = "hello-1";
  invocation_id = "call-1";
  request_fingerprint = "hello-1";
}

abbrev pub held_db : Db
held_db =
    with_run (at 1000) "run-1" hello_claim (with_new_key (at 1000) "run-1" hello_claim leased_db)

abbrev pub finished_db : Db
finished_db = finish_state (at 2000) "run-1" "key-1" "acme" "hello-1" hello_result 5000 held_db

abbrev pub hello_release : OperatorRelease
hello_release = record {
  id = "hello-1";
  artifact_path = "hello-1.tar";
  artifact_sha256 = "00";
  runtime = record { id = "py311"; image = "python"; python = "3.11" };
  entrypoint = "main:process";
  profile = "small";
  input_attributes = [];
  output_attributes = [];
}

abbrev pub small_policy : SecurityPolicy
small_policy = record {
  name = "small";
  sandbox_cluster = "c";
  cpu = "1";
  memory = "1Gi";
  max_timeout_ms = 30000;
  network_allow = [];
  reuse_sandbox = true;
}

-- The state counts the sandboxes that were made.
abbrev pub calm_backend : Backend ℕ
calm_backend = record {
  create = λ tenant_id release policy ttl made. (
    ok (record {
      id = "sandbox";
      endpoint = "e";
      token = "t";
      backend_group = "g";
      now = 0;
      sandbox_expires_monotonic = none;
    }),
    made + 1,
  );
  renew = λ worker ttl made. (ok none, made);
  install = λ worker release made. (ok tt, made);
  run = λ worker release request timeout_ms made. (ok hello_result, made);
  destroy = λ worker made. (ok tt, made);
  cleanup_managed = λ made. (ok 0, made);
}

abbrev pub small_quota : Quota
small_quota = record {
  max_creating = 2;
  max_live = 4;
  max_live_per_tenant = 2;
  creating = 0;
  live = 0;
  tenant_live = [];
}

abbrev pub empty_pool : Pool ℕ
empty_pool = record {
  config = record {
    idle_seconds = 60;
    orphan_ttl_seconds = 600;
    renew_before_seconds = 120;
    max_installed_releases = 4;
  };
  quota = small_quota;
  workers = [];
  idle = [];
  backend = 0;
}

abbrev pub hello_settings : Settings
hello_settings = record {
  catalog = λ release_id. ok hello_release;
  policies = ("small", small_policy) ∷ [];
  lease_ttl_ms = 900000;
  idempotency_retention_ms = 5000;
  run_retention_ms = 100000;
  hashing = record {
    content_sha256 = λ content. "content";
    identity_sha256 = λ identity. identity.release_id;
  };
}

abbrev pub hello_request : RunRequest
hello_request = record {
  tenant_id = "acme";
  lease_id = "lease-1";
  release_id = "hello-1";
  invocation_id = "call-1";
  idempotency_key = "key-1";
  content = 7 ∷ [];
  attributes = ("path", string "a.csv") ∷ [];
  parameters = ("mode", string "fast") ∷ [];
  timeout_ms = 60000;
}

abbrev pub hello_admitted : Admitted
hello_admitted = record {
  lease = record {
    id = "lease-1";
    tenant_id = "acme";
    project_id = "p";
    processor_id = "q";
    release_id = "hello-1";
    expires_at_ms = 900000;
  };
  release = hello_release;
  policy = small_policy;
  request = record hello_request { attributes = []; timeout_ms = 30000 };
  fingerprint = "hello-1";
}

abbrev pub hello_times : ℕ → Times
hello_times now = record {
  checked = at now;
  claimed = at now;
  ended = at now;
  acquired = 5;
  released = 9;
}

abbrev pub hello_service : Service ℕ
hello_service = record { db = leased_db; pool = empty_pool; active = [] }
