-- ===== src/State/Rows.antt =====
-- The tables of schema `runner` (runner_engine/state.py): leases, runs and idempotency_keys.
-- Times are microseconds since the epoch. A statement reads two clocks, the runner's
-- `datetime.now` and the database's `now()`. A method's `with self.pool.connection()` block is one
-- transaction: what it raises undoes what it wrote, so its result has a new state only when `ok`.
use managed_python_runner_en.Prelude.{
  ℕ, String, Bool, true, false, ◌&&◌, Option, List, [], select, ◌==◌,
}
use managed_python_runner_en.Errors.{Result, err, exception}
use managed_python_runner_en.Model.{Attributes}

pub record Clocks : Type 0 where
  pub runner : ℕ
  pub database : ℕ

pub record LeaseRow : Type 0 where
  pub id : String
  pub tenant_id : String
  pub project_id : String
  pub processor_id : String
  pub release_id : String
  pub expires_at : ℕ
  pub created_at : ℕ
  pub updated_at : ℕ

-- CHECK (state IN ('RUNNING', 'DONE', 'ABANDONED'))
pub data RunState : Type 0 where
  running done abandoned : RunState

pub data OutcomeClass : Type 0 where
  success retryable_failure user_failure infrastructure_failure : OutcomeClass

pub record RunRow : Type 0 where
  pub run_id : String
  pub tenant_id : String
  pub project_id : Option String
  pub processor_id : Option String
  pub release_id : String
  pub lease_id : String
  pub invocation_id : String
  pub idempotency_key : String
  pub request_fingerprint : String
  pub state : RunState
  pub outcome_class : Option OutcomeClass
  pub status : Option String
  pub relationship : Option String
  pub retryable : Option Bool
  pub error_code : Option String
  pub error_message : Option String
  pub worker_id : Option String
  pub duration_ms : Option ℕ
  pub replayable : Bool
  pub idempotency_expires_at : Option ℕ
  pub started_at : ℕ
  pub completed_at : Option ℕ
  pub created_at : ℕ
  pub updated_at : ℕ

-- The JSON object that `_result_to_dict` builds and `_result_from_dict` reads, which defaults each
-- key but `status`.
pub record ResultDict : Type 0 where
  pub status : Option String
  pub relationship : Option String
  pub content_b64 : Option (List ℕ)
  pub attributes : Option Attributes
  pub retryable : Option Bool
  pub error_code : Option String
  pub error_message : Option String
  pub worker_id : Option String
  pub duration_ms : Option ℕ

-- CHECK (state IN ('RUNNING', 'DONE'))
pub data KeyState : Type 0 where
  key_running key_done : KeyState

pub record KeyRow : Type 0 where
  pub tenant_id : String
  pub release_id : String
  pub idempotency_key : String
  pub request_fingerprint : String
  pub state : KeyState
  pub current_run_id : String
  pub lease_id : String
  pub invocation_id : String
  pub replayable : Bool
  pub result_json : Option ResultDict
  pub expires_at : Option ℕ
  pub replay_count : ℕ
  pub last_replayed_at : Option ℕ
  pub created_at : ℕ
  pub updated_at : ℕ

pub record Db : Type 0 where
  pub leases : List LeaseRow
  pub runs : List RunRow
  pub idempotency_keys : List KeyRow

abbrev pub empty_db : Db
empty_db = record { leases = []; runs = []; idempotency_keys = [] }

-- A method's block: its value and the state it commits, or what it raises.
abbrev pub Tx : Type 0 → Type 0
Tx A = Result (A × Db)

-- An INSERT of a key that is there raises.
abbrev pub unique_violation {ℓ} : {A : Type ℓ} → Result A
unique_violation = err (exception "UniqueViolation")

-- What the WHERE clauses test.
abbrev pub has_lease_id : String → LeaseRow → Bool
has_lease_id lease_id row = row.id == lease_id

abbrev pub has_run_id : String → RunRow → Bool
has_run_id run_id row = row.run_id == run_id

-- The primary key of idempotency_keys.
abbrev pub has_key : String → String → String → KeyRow → Bool
has_key tenant_id release_id key row =
    row.tenant_id == tenant_id && (row.release_id == release_id && row.idempotency_key == key)

abbrev pub is_running : RunRow → Bool
is_running row = elim row.state [ RunState.running ↦ true | _ ↦ false ]

abbrev pub is_key_running : KeyRow → Bool
is_key_running row = elim row.state [ KeyState.key_running ↦ true | _ ↦ false ]

abbrev pub lease_row : Db → String → Option LeaseRow
lease_row db lease_id = select (has_lease_id lease_id) db.leases

abbrev pub run_row : Db → String → Option RunRow
run_row db run_id = select (has_run_id run_id) db.runs

abbrev pub key_row : Db → String → String → String → Option KeyRow
key_row db tenant_id release_id key = select (has_key tenant_id release_id key) db.idempotency_keys
