-- ===== src/Service/Invoke.antt =====
-- `invoke` of `RunnerService` (runner_engine/service.py): its steps are functions, in the order of
-- the source.
use managed_python_runner_en.Prelude.{
  ℕ, String, Bool, true, false, ◌||◌, Option, none, some, [], ◌∷◌, ltb, min, max, length, ◌==◌,
  if◌then◌else◌, get_elem?, string_eq, get, put, pop,
}
use managed_python_runner_en.Errors.{
  Result, ok, err, Error, runner_error, raised_error, exception, runner, raise, raise_if, ◌>>=◌,
  ◌>>◌,
}
use managed_python_runner_en.Model.{Lease, OperatorRelease, SecurityPolicy, RunRequest, RunResult}
use managed_python_runner_en.Backend.{Backend}
use managed_python_runner_en.State.Rows.{Db}
use managed_python_runner_en.State.Leases.{require_lease}
use managed_python_runner_en.State.Claims.{
  RunClaim, ClaimRequest, begin_run, finish_run, abandon_run,
}
use managed_python_runner_en.Pool.Cells.{Pool}
use managed_python_runner_en.Pool.Destroy.{invalidate, release}
use managed_python_runner_en.Pool.Acquire.{acquire, contains}
use managed_python_runner_en.Service.Attributes.{
  after, max_inline_bytes, filter_attributes, validate_attributes, request_fingerprint,
}
use managed_python_runner_en.Service.Cells.{ActiveRun, Service, Settings, Times}

-- What is known once nothing more is to be checked: `request` is the source's `safe_request`.
pub record Admitted : Type 0 where
  pub lease : Lease
  pub release : OperatorRelease
  pub policy : SecurityPolicy
  pub request : RunRequest
  pub fingerprint : String

abbrev policy_of : Settings → String → Result SecurityPolicy
policy_of settings profile = elim (get profile settings.policies) [
  | none ↦ raise runner "UNKNOWN_SECURITY_POLICY" (after "unknown profile " profile) false
  | some policy ↦ ok policy
]

-- min(max(1, request.timeout_ms), policy.max_timeout_ms)
unfoldable pub bounded_timeout : ℕ → SecurityPolicy → ℕ
bounded_timeout timeout_ms policy = min (max 1 timeout_ms) policy.max_timeout_ms

-- The body of `invoke` up to the request's fingerprint, which changes nothing.
unfoldable pub admit : Settings → Times → RunRequest → Db → Result Admitted
unfolding bounded_timeout
admit settings times request db = do
  raise_if (ltb max_inline_bytes (length request.content)) runner "INLINE_CONTENT_TOO_LARGE"
      "inline content exceeds 8 MiB" false
  raise_if (request.idempotency_key == "") runner "IDEMPOTENCY_REQUIRED"
      "idempotency_key is required" false
  lease ←
      require_lease times.checked request.lease_id request.tenant_id (some request.release_id) db
  release ← settings.catalog request.release_id
  policy ← policy_of settings release.profile
  let safe_attributes = filter_attributes request.attributes release.input_attributes
  validate_attributes safe_attributes
  validate_attributes request.parameters
  let safe_request : RunRequest = record request {
    attributes = safe_attributes;
    timeout_ms = bounded_timeout request.timeout_ms policy;
  }
  ok (record {
    lease = lease;
    release = release;
    policy = policy;
    request = safe_request;
    fingerprint = request_fingerprint settings.hashing safe_request;
  })

abbrev pub claim_request : Admitted → ClaimRequest
claim_request a = record {
  key = a.request.idempotency_key;
  tenant_id = a.request.tenant_id;
  project_id = a.lease.project_id;
  processor_id = a.lease.processor_id;
  lease_id = a.request.lease_id;
  release_id = a.request.release_id;
  invocation_id = a.request.invocation_id;
  request_fingerprint = a.fingerprint;
}

-- What `run` returned, with the attributes that may leave.
unfoldable pub safe_output : OperatorRelease → RunResult → Result RunResult
safe_output release result = do
  let safe_output_attributes = filter_attributes result.attributes release.output_attributes
  validate_attributes safe_output_attributes
  raise_if (ltb max_inline_bytes (length result.content)) runner "OUTPUT_TOO_LARGE"
      "operator output exceeds 8 MiB" false
  ok (record result { attributes = safe_output_attributes })

-- After these results the worker is used again.
unfoldable pub is_reusable : RunResult → Bool
is_reusable result =
    result.status == "SUCCEEDED"
    || contains result.error_code (
        "TIMEOUT" ∷ "USER_EXCEPTION" ∷ "USER_PROCESS_EXITED" ∷ "OUTPUT_LIMIT"
        ∷ "INVALID_CHILD_RESPONSE" ∷ "OPERATOR_REPORTED_FAILURE" ∷ [])

-- `error_code` and `error_message` of `abandon_run`, in the two `except` clauses.
abbrev pub abandon_code : Error → String
abandon_code (runner_error e) = e.code
abandon_code (raised_error c message) = "RUNNER_INFRASTRUCTURE_ERROR"
abandon_code (exception message) = "RUNNER_INFRASTRUCTURE_ERROR"

abbrev pub abandon_message : Error → String
abandon_message (runner_error e) = e.message
abandon_message (raised_error c message) = message
abandon_message (exception message) = message

-- What the two `except` clauses raise.
abbrev pub reraised : Error → Error
reraised (runner_error e) = runner_error e
reraised (raised_error c message) = runner_error (record {
  raised_as = runner;
  code = "RUNNER_INFRASTRUCTURE_ERROR";
  message = message;
  retryable = true;
})
reraised (exception message) = runner_error (record {
  raised_as = runner;
  code = "RUNNER_INFRASTRUCTURE_ERROR";
  message = message;
  retryable = true;
})

abbrev pub became_active : Error
became_active = runner_error (record {
  raised_as = runner;
  code = "INVOCATION_ID_IN_USE";
  message = "invocation id became active concurrently";
  retryable = false;
})

module _ {S : Type 0} (b : Backend S) (settings : Settings) (times : Times) (run_id : String) where
  -- An `invalidate` whose exception is logged and dropped.
  abbrev pub drop_worker : Option ℕ → Pool S → Pool S
  drop_worker none p = p
  drop_worker (some i) p = (invalidate b i p).1

  -- The `except` clauses, where `run_finished` is False.
  unfoldable pub failed : Admitted → Option ℕ → Error → Service S → Result RunResult × Service S
  failed a worker e s = (
    err (reraised e),
    record s {
      pool = drop_worker worker s.pool;
      db =
          abandon_run times.ended run_id a.request.idempotency_key a.request.tenant_id
            a.request.release_id (abandon_code e) (abandon_message e) s.db;
    },
  )

  -- The worker goes back to the pool or is destroyed; an exception is logged and dropped.
  abbrev pub hand_back : Admitted → ℕ → RunResult → Pool S → Pool S
  hand_back a i result p =
      if is_reusable result then (release b times.released i a.policy p).1 else (invalidate b i p).1

  unfoldable pub persisted :
      Admitted → ℕ → RunResult → Result (Unit {0} × Db) → Service S → Result RunResult × Service S
  unfolding failed
  persisted a i result (ok (_, db)) s =
      (ok result, record s { db = db; pool = hand_back a i result s.pool })
  persisted a i result (err e) s = failed a (some i) e s

  unfoldable pub completed :
      Admitted → ℕ → Result RunResult → Service S → Result RunResult × Service S
  unfolding persisted failed
  completed a i (ok result) s =
      persisted a i result
        (finish_run times.ended run_id a.request.idempotency_key a.request.tenant_id
          a.request.release_id result settings.idempotency_retention_ms s.db)
        s
  completed a i (err e) s = failed a (some i) e s

  -- The worker runs the request.
  unfoldable pub ran :
      Admitted → ℕ → Result RunResult × S → Service S → Result RunResult × Service S
  unfolding completed
  ran a i (answer, backend) s =
      completed a i (answer >>= safe_output a.release)
        (record s { pool = record s.pool { backend = backend } })

  abbrev pub active_run : Admitted → ℕ → ActiveRun
  active_run a i = record {
    tenant_id = a.request.tenant_id;
    lease_id = a.request.lease_id;
    release_id = a.request.release_id;
    worker = i;
  }

  -- `invalidate` of the worker of an invocation whose identifier became active: where that raises,
  -- `worker` is still set, and is invalidated again.
  unfoldable pub in_use :
      Admitted → ℕ → Result (Unit {0}) × Pool S → Service S → Result RunResult × Service S
  unfolding failed
  in_use a i (ok _, p) s = failed a none became_active (record s { pool = p })
  in_use a i (err e, p) s = failed a (some i) e (record s { pool = p })

  -- A worker that `acquire` returned is a cell: there is no other case.
  unfoldable pub acquired : Admitted → Result ℕ × Pool S → Service S → Result RunResult × Service S
  unfolding failed in_use ran
  acquired a (err e, p) s = failed a none e (record s { pool = p })
  acquired a (ok i, p) s = elim (get a.request.invocation_id s.active) [
    | some _ ↦ in_use a i (invalidate b i p) s
    | none ↦ elim (get_elem? p.workers i) [
      | none ↦ failed a none (exception "") (record s { pool = p })
      | some w ↦
          ran a i (b.run w a.release a.request a.request.timeout_ms p.backend)
            (record s { pool = p; active = put a.request.invocation_id (active_run a i) s.active })
    ]
  ]

  -- The `try` statement and its `finally`.
  unfoldable pub execute : Admitted → Service S → Result RunResult × Service S
  unfolding acquired
  execute a s =
      let (answer, ended) =
        acquired a (acquire b times.acquired a.request.tenant_id a.release a.policy s.pool) s in
      (answer, record ended { active = pop a.request.invocation_id ended.active })

  unfoldable pub claimed :
      Admitted → Result (RunClaim × Db) → Service S → Result RunResult × Service S
  unfolding execute
  claimed a (err e) s = (err e, s)
  claimed a (ok (claim, db)) s =
      let executed = execute a (record s { db = db }) in
      elim claim.cached_result [
        | some result ↦ (ok result, record s { db = db })
        | none ↦ elim claim.run_id [
          | none ↦ (
            raise runner "RUN_STATE_INVALID" "new execution did not receive a run id" true,
            record s { db = db },
          )
          | some _ ↦ executed
        ]
      ]

  unfoldable pub admitted_run : Admitted → Service S → Result RunResult × Service S
  unfolding claimed
  admitted_run a s = elim (get a.request.invocation_id s.active) [
    | some _ ↦ (raise runner "INVOCATION_ID_IN_USE" "invocation id is already active" false, s)
    | none ↦ claimed a (begin_run times.claimed run_id (claim_request a) s.db) s
  ]

  unfoldable pub invoke : RunRequest → Service S → Result RunResult × Service S
  unfolding admit admitted_run
  invoke request s = elim (admit settings times request s.db) [
    | err e ↦ (err e, s)
    | ok a ↦ admitted_run a s
  ]
