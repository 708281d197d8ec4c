-- ===== src/State/Claims.antt =====
-- `begin_run`, `finish_run` and `abandon_run` of `RunnerDB` (runner_engine/state.py): an
-- idempotency key is claimed by one run at a time, and keeps that run's result for replay.
pub mod Outcomes
use managed_python_runner_en.Prelude.{
  ℕ, ◌+◌, String, Bool, true, false, not, ◌&&◌, Option, none, some, ◌∷◌, ltb, eqb, ◌==◌,
  if◌then◌else◌, update, delete, rowcount,
}
use managed_python_runner_en.Errors.{
  Result, ok, err, exception, runner, raise, raise_if, ◌>>=◌, ◌>>◌,
}
use managed_python_runner_en.Model.{RunResult}
use managed_python_runner_en.State.Rows.{
  Clocks, RunRow, RunState, KeyRow, KeyState, ResultDict, OutcomeClass, infrastructure_failure, Db,
  Tx, has_run_id, has_key, is_running, is_key_running, run_row, key_row, unique_violation,
}
use managed_python_runner_en.State.Codec.{outcome_class, result_to_dict, result_from_dict}
use managed_python_runner_en.State.Leases.{after_ms}

pub record RunClaim : Type 0 where
  pub run_id : Option String
  pub cached_result : Option RunResult

-- The keyword arguments of `begin_run`.
pub record ClaimRequest : Type 0 where
  pub key : String
  pub tenant_id : String
  pub project_id : String
  pub processor_id : String
  pub lease_id : String
  pub release_id : String
  pub invocation_id : String
  pub request_fingerprint : String

abbrev is_some {ℓ} : {A : Type ℓ} → Option A → Bool
is_some none = false
is_some (some a) = true

abbrev is_later : ℕ → Option ℕ → Bool
is_later now none = false
is_later now (some at) = ltb now at

unfoldable pub cache_valid : ℕ → KeyRow → Bool
cache_valid now row =
    not (is_key_running row)
    && (row.replayable && (is_some row.result_json && is_later now row.expires_at))

-- The row that INSERT INTO runner.idempotency_keys writes.
abbrev pub new_key_row : Clocks → String → ClaimRequest → KeyRow
new_key_row t run_id c = record {
  tenant_id = c.tenant_id;
  release_id = c.release_id;
  idempotency_key = c.key;
  request_fingerprint = c.request_fingerprint;
  state = KeyState.key_running;
  current_run_id = run_id;
  lease_id = c.lease_id;
  invocation_id = c.invocation_id;
  replayable = false;
  result_json = none;
  expires_at = none;
  replay_count = 0;
  last_replayed_at = none;
  created_at = t.database;
  updated_at = t.database;
}

-- The UPDATE that claims a finished key again.
abbrev pub reclaimed : Clocks → String → ClaimRequest → KeyRow → KeyRow
reclaimed t run_id c row = record row {
  state = KeyState.key_running;
  current_run_id = run_id;
  lease_id = c.lease_id;
  invocation_id = c.invocation_id;
  replayable = false;
  result_json = none;
  expires_at = none;
  updated_at = t.database;
}

abbrev pub replayed : Clocks → KeyRow → KeyRow
replayed t row = record row {
  replay_count = row.replay_count + 1;
  last_replayed_at = some t.database;
  updated_at = t.database;
}

-- The row that INSERT INTO runner.runs writes.
abbrev pub new_run_row : Clocks → String → ClaimRequest → RunRow
new_run_row t run_id c = record {
  run_id = run_id;
  tenant_id = c.tenant_id;
  project_id = some c.project_id;
  processor_id = some c.processor_id;
  release_id = c.release_id;
  lease_id = c.lease_id;
  invocation_id = c.invocation_id;
  idempotency_key = c.key;
  request_fingerprint = c.request_fingerprint;
  state = RunState.running;
  outcome_class = none;
  status = none;
  relationship = none;
  retryable = none;
  error_code = none;
  error_message = none;
  worker_id = none;
  duration_ms = none;
  replayable = false;
  idempotency_expires_at = none;
  started_at = t.database;
  completed_at = none;
  created_at = t.database;
  updated_at = t.database;
}

abbrev pub claims_key : ClaimRequest → KeyRow → Bool
claims_key c = has_key c.tenant_id c.release_id c.key

abbrev insert_run : Clocks → String → ClaimRequest → Db → Tx RunClaim
insert_run t run_id c db = elim (run_row db run_id) [
  | some _ ↦ unique_violation
  | none ↦ ok (
    record { run_id = some run_id; cached_result = none },
    record db { runs = new_run_row t run_id c ∷ db.runs },
  )
]

abbrev replay : Option ResultDict → Result RunResult
replay none = err (exception "TypeError")
replay (some raw) = result_from_dict raw

abbrev replay_claim : Clocks → ClaimRequest → KeyRow → Db → Tx RunClaim
replay_claim t c row db = do
  result ← replay row.result_json
  ok (
    record { run_id = none; cached_result = some result },
    record db { idempotency_keys = update (claims_key c) (replayed t) db.idempotency_keys },
  )

abbrev claim_again : Clocks → String → ClaimRequest → Db → Tx RunClaim
claim_again t run_id c db = insert_run t run_id c (record db {
  idempotency_keys = update (claims_key c) (reclaimed t run_id c) db.idempotency_keys;
})

abbrev claim_existing : Clocks → String → ClaimRequest → KeyRow → Db → Tx RunClaim
claim_existing t run_id c row db = do
  raise_if (not (row.request_fingerprint == c.request_fingerprint)) runner "IDEMPOTENCY_CONFLICT"
      "idempotency key was reused for different request content" false
  raise_if (is_key_running row) runner "RUN_IN_PROGRESS" "same logical request is already running"
      true
  if cache_valid t.runner row then replay_claim t c row db else claim_again t run_id c db

-- `run_id` is the new `uuid4`.
unfoldable pub begin_run : Clocks → String → ClaimRequest → Db → Tx RunClaim
unfolding cache_valid
begin_run t run_id c db = elim (key_row db c.tenant_id c.release_id c.key) [
  | none ↦
      insert_run t run_id c
        (record db { idempotency_keys = new_key_row t run_id c ∷ db.idempotency_keys })
  | some row ↦ claim_existing t run_id c row db
]

-- WHERE run_id = … AND state = 'RUNNING'
abbrev pub is_running_as : String → RunRow → Bool
is_running_as run_id row = has_run_id run_id row && is_running row

-- WHERE tenant_id = … AND release_id = … AND idempotency_key = … AND current_run_id = …
--   AND state = 'RUNNING'
abbrev pub is_claimed_by : String → String → String → String → KeyRow → Bool
is_claimed_by run_id tenant_id release_id key row =
    has_key tenant_id release_id key row && (row.current_run_id == run_id && is_key_running row)

abbrev pub finished_run : Clocks → RunResult → ℕ → RunRow → RunRow
finished_run t result expires_at row = record row {
  state = RunState.done;
  outcome_class = some (outcome_class result);
  status = some result.status;
  relationship = some result.relationship;
  retryable = some result.retryable;
  error_code = some result.error_code;
  error_message = some result.error_message;
  worker_id = some result.worker_id;
  duration_ms = some result.duration_ms;
  replayable = not result.retryable;
  idempotency_expires_at = some expires_at;
  completed_at = some t.database;
  updated_at = t.database;
}

abbrev pub finished_key : Clocks → RunResult → ℕ → KeyRow → KeyRow
finished_key t result expires_at row = record row {
  state = KeyState.key_done;
  replayable = not result.retryable;
  result_json = some (result_to_dict result);
  expires_at = some expires_at;
  updated_at = t.database;
}

abbrev pub replay_expiry : ℕ → RunResult → ℕ → ℕ
replay_expiry now result retention_ms =
    if not result.retryable then after_ms now retention_ms else now

unfoldable pub finish_run :
    Clocks → String → String → String → String → RunResult → ℕ → Db → Tx (Unit {0})
finish_run t run_id key tenant_id release_id result idempotency_retention_ms db = do
  let expires_at = replay_expiry t.runner result idempotency_retention_ms
  raise_if (not (eqb (rowcount (is_running_as run_id) db.runs) 1)) runner "RUN_STATE_LOST"
      "RUNNING audit row disappeared before completion" true
  raise_if
      (not (eqb (rowcount (is_claimed_by run_id tenant_id release_id key) db.idempotency_keys) 1))
      runner "IDEMPOTENCY_STATE_LOST" "idempotency claim disappeared before completion" true
  ok (
    tt,
    record db {
      runs = update (is_running_as run_id) (finished_run t result expires_at) db.runs;
      idempotency_keys =
          update (is_claimed_by run_id tenant_id release_id key) (finished_key t result expires_at)
            db.idempotency_keys;
    },
  )

-- What `abandon_run` and `reset_running` write over a RUNNING row.
abbrev pub abandoned_run : Clocks → String → String → RunRow → RunRow
abandoned_run t error_code error_message row = record row {
  state = RunState.abandoned;
  outcome_class = some infrastructure_failure;
  status = some "FAILED";
  relationship = some "retry";
  retryable = some true;
  error_code = some error_code;
  error_message = some error_message;
  replayable = false;
  idempotency_expires_at = some t.database;
  completed_at = some t.database;
  updated_at = t.database;
}

unfoldable pub abandon_run : Clocks → String → String → String → String → String → String → Db → Db
abandon_run t run_id key tenant_id release_id error_code error_message db = record db {
  runs = update (is_running_as run_id) (abandoned_run t error_code error_message) db.runs;
  idempotency_keys = delete (is_claimed_by run_id tenant_id release_id key) db.idempotency_keys;
}
