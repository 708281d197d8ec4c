-- ===== src/Build/Rows.antt =====
-- The tables of schema `build` (build_service/store.py). Times are microseconds since the epoch, of
-- the database's clock. A method's block is one transaction: what it raises undoes what it wrote.
use managed_python_runner_en.Prelude.{ℕ, String, Bool, true, false, Option, List, [], select, ◌==◌}
use managed_python_runner_en.Build.Lock.{Packages}

-- CHECK (status IN ('PENDING', 'BUILDING', 'VERIFYING', 'READY', 'FAILED'))
pub data EnvStatus : Type 0 where
  env_pending env_building env_verifying env_ready env_failed : EnvStatus

pub record EnvRow : Type 0 where
  pub id : String
  pub env_key : String
  pub base_image : String
  pub python_version : String
  pub platform : String
  pub build_policy_version : String
  pub lock_sha256 : String
  pub requirements_lock : String
  pub packages : Packages
  pub package_count : ℕ
  pub image_ref : Option String
  pub status : EnvStatus
  pub last_error : Option String
  pub created_at : ℕ
  pub updated_at : ℕ

-- CHECK (resolution_kind IN ('exact', 'superset'))
pub data ResolutionKind : Type 0 where
  exact superset : ResolutionKind

pub record AliasRow : Type 0 where
  pub request_env_key : String
  pub env_id : String
  pub resolution_kind : ResolutionKind
  pub created_at : ℕ

-- CHECK (status IN ('BUILDING', 'VERIFYING', 'READY', 'FAILED'))
pub data JobStatus : Type 0 where
  job_building job_verifying job_ready job_failed : JobStatus

pub record JobRow : Type 0 where
  pub id : String
  pub env_id : String
  pub status : JobStatus
  pub error_message : Option String
  pub created_at : ℕ
  pub started_at : Option ℕ
  pub finished_at : Option ℕ

pub record BuildDb : Type 0 where
  pub environments : List EnvRow
  pub aliases : List AliasRow
  pub jobs : List JobRow

abbrev pub empty_build_db : BuildDb
empty_build_db = record { environments = []; aliases = []; jobs = [] }

abbrev pub has_env_id : String → EnvRow → Bool
has_env_id env_id row = row.id == env_id

abbrev pub has_env_key : String → EnvRow → Bool
has_env_key env_key row = row.env_key == env_key

abbrev pub has_request_key : String → AliasRow → Bool
has_request_key request_env_key row = row.request_env_key == request_env_key

abbrev pub has_job_id : String → JobRow → Bool
has_job_id job_id row = row.id == job_id

abbrev pub env_row : BuildDb → String → Option EnvRow
env_row db env_id = select (has_env_id env_id) db.environments

abbrev pub alias_row : BuildDb → String → Option AliasRow
alias_row db request_env_key = select (has_request_key request_env_key) db.aliases

abbrev pub job_row : BuildDb → String → Option JobRow
job_row db job_id = select (has_job_id job_id) db.jobs

abbrev pub is_pending : EnvRow → Bool
is_pending row = elim row.status [ env_pending ↦ true | _ ↦ false ]

abbrev pub is_ready : EnvRow → Bool
is_ready row = elim row.status [ env_ready ↦ true | _ ↦ false ]

abbrev pub is_failed : EnvRow → Bool
is_failed row = elim row.status [ env_failed ↦ true | _ ↦ false ]

-- Some worker is at it.
abbrev pub is_busy : EnvRow → Bool
is_busy row = elim row.status [ env_building ↦ true | env_verifying ↦ true | _ ↦ false ]

abbrev pub is_open : JobRow → Bool
is_open row = elim row.status [ job_building ↦ true | job_verifying ↦ true | _ ↦ false ]
