-- ===== src/Publish/Store.antt =====
-- The methods of `PublishStore` (publish_service/store.py). A new `uuid4` is an argument.
pub mod Versions
pub mod Saves
pub mod Steps
use managed_python_runner_en.Prelude.{
  ℕ, ◌+◌, String, Bool, true, false, Option, none, some, List, [], ◌∷◌, ltb, eqb, max, ◌==◌,
  if◌then◌else◌, select, update,
}
use managed_python_runner_en.Errors.{Result, ok, err, exception, runtime_error, raise_error, ◌>>=◌}
use managed_python_runner_en.State.Rows.{unique_violation}
use managed_python_runner_en.Build.Store.{last_chars}
use managed_python_runner_en.Authoring.Model.{Json, VirtualOperatorContract}
use managed_python_runner_en.Publish.Rows.{
  OperatorRow, ContractRow, VariantStatus, variant_compiled, variant_published, variant_failed,
  VariantRow, PublishJobStatus, publish_pending, publish_running, publish_ready, publish_failed,
  PublishJobRow, PublishDb, has_operator_id, has_name, has_contract_id, is_of_operator, has_digest,
  has_variant_id, has_variant_key, has_publish_job_id, variant_row, is_published,
}

abbrev pub new_operator : ℕ → String → String → VirtualOperatorContract → OperatorRow
new_operator now operator_id workspace contract = record {
  id = operator_id;
  workspace = workspace;
  name = contract.metadata.name;
  display_name = contract.metadata.display_name;
  description = contract.metadata.description;
  created_at = now;
  updated_at = now;
}

abbrev pub renamed : ℕ → VirtualOperatorContract → OperatorRow → OperatorRow
renamed now contract row = record row {
  display_name = contract.metadata.display_name;
  description = contract.metadata.description;
  updated_at = now;
}

-- ON CONFLICT (workspace, name) DO UPDATE; an identifier that is there raises.
unfoldable pub put_operator :
    ℕ → String → String → VirtualOperatorContract → PublishDb → Result PublishDb
put_operator now operator_id workspace contract db =
    elim (select (has_name workspace contract.metadata.name) db.operators) [
      | some _ ↦ ok (record db {
        operators =
            update (has_name workspace contract.metadata.name) (renamed now contract) db.operators;
      })
      | none ↦ elim (select (has_operator_id operator_id) db.operators) [
        | some _ ↦ unique_violation
        | none ↦ ok (record db {
          operators = new_operator now operator_id workspace contract ∷ db.operators;
        })
      ]
    ]

-- COALESCE(MAX(version), 0) of the operator's contracts
unfoldable pub max_version : String → List ContractRow → ℕ
max_version operator_id [] = 0
max_version operator_id (row ∷ rows) =
    let rest = max_version operator_id rows in
    if is_of_operator operator_id row then max row.version rest else rest

abbrev pub new_contract :
    ℕ → String → String → ℕ → String → String → VirtualOperatorContract → ContractRow
new_contract now contract_id operator_id version source_ref digest contract = record {
  id = contract_id;
  operator_id = operator_id;
  version = version;
  source_revision = contract.source.source_revision;
  source_ref = source_ref;
  contract_sha256 = digest;
  contract_json = contract;
  created_at = now;
}

-- The INSERT of a version; `source_ref` is NOT NULL.
unfoldable pub insert_contract :
    ℕ
    → String
    → String
    → String
    → VirtualOperatorContract
    → PublishDb
    → Result (ContractRow × PublishDb)
unfolding max_version
insert_contract now contract_id operator_id digest contract db = elim contract.source.source_ref [
  | none ↦ err (exception "NotNullViolation")
  | some source_ref ↦ elim (select (has_contract_id contract_id) db.contracts) [
    | some _ ↦ unique_violation
    | none ↦
        let row =
          new_contract now contract_id operator_id (max_version operator_id db.contracts + 1)
            source_ref digest contract in
        ok (row, record db { contracts = row ∷ db.contracts })
  ]
]

-- The last component tells whether a version is new.
abbrev pub Saved : Type 0
Saved = (OperatorRow × ContractRow) × Bool

unfoldable pub save_version :
    ℕ
    → String
    → OperatorRow
    → String
    → VirtualOperatorContract
    → PublishDb
    → Result (Saved × PublishDb)
unfolding insert_contract
save_version now contract_id operator digest contract db =
    elim (select (has_digest operator.id digest) db.contracts) [
      | some existing ↦ ok (((operator, existing), false), db)
      | none ↦ insert_contract now contract_id operator.id digest contract db >>= λ inserted.
          ok (((operator, inserted.0), true), inserted.1)
    ]

unfoldable pub save_virtual_contract :
    (VirtualOperatorContract → String)
    → ℕ
    → String
    → String
    → String
    → VirtualOperatorContract
    → PublishDb
    → Result (Saved × PublishDb)
unfolding put_operator save_version
save_virtual_contract contract_sha256 now operator_id contract_id workspace contract db =
    put_operator now operator_id workspace contract db >>= λ mid.
    elim (select (has_name workspace contract.metadata.name) mid.operators) [
      | none ↦ raise_error runtime_error "failed to create or load logical operator"
      | some operator ↦
          save_version now contract_id operator (contract_sha256 contract) contract mid
    ]

abbrev pub get_operator : PublishDb → String → Option OperatorRow
get_operator db operator_id = select (has_operator_id operator_id) db.operators

abbrev pub newer : ContractRow → Option ContractRow → ContractRow
newer row none = row
newer row (some other) = if ltb row.version other.version then other else row

-- ORDER BY version DESC LIMIT 1
unfoldable pub latest_of : String → List ContractRow → Option ContractRow
latest_of operator_id [] = none
latest_of operator_id (row ∷ rows) =
    let rest = latest_of operator_id rows in
    if is_of_operator operator_id row then some (newer row rest) else rest

abbrev pub get_latest_contract : PublishDb → String → Option ContractRow
get_latest_contract db operator_id = latest_of operator_id db.contracts

-- What the compiled contract of a backend is saved with.
pub record Compiled : Type 0 where
  pub contract_id : String
  pub backend : String
  pub compiler_version : String
  pub variant_key : String
  pub options : Json
  pub backend_contract_sha256 : String
  pub backend_contract : Json

abbrev pub new_variant : ℕ → String → Compiled → VariantRow
new_variant now variant_id c = record {
  id = variant_id;
  contract_id = c.contract_id;
  backend = c.backend;
  compiler_version = c.compiler_version;
  variant_key = c.variant_key;
  options_json = c.options;
  backend_contract_sha256 = c.backend_contract_sha256;
  backend_contract_json = c.backend_contract;
  status = variant_compiled;
  published_ref = none;
  published_metadata = none;
  last_error = none;
  created_at = now;
  updated_at = now;
}

-- CASE WHEN status = 'PUBLISHED' THEN 'PUBLISHED' ELSE … END
abbrev pub unless_published : VariantStatus → VariantStatus → VariantStatus
unless_published variant_published other = variant_published
unless_published variant_compiled other = other
unless_published variant_failed other = other

abbrev pub recompiled : ℕ → Compiled → VariantRow → VariantRow
recompiled now c row = record row {
  compiler_version = c.compiler_version;
  options_json = c.options;
  backend_contract_sha256 = c.backend_contract_sha256;
  backend_contract_json = c.backend_contract;
  status = unless_published row.status variant_compiled;
  last_error = none;
  updated_at = now;
}

-- ON CONFLICT (contract_id, backend, variant_key) DO UPDATE … RETURNING *
unfoldable pub upsert_variant : ℕ → String → Compiled → PublishDb → Result (VariantRow × PublishDb)
upsert_variant now variant_id c db =
    elim (select (has_variant_key c.contract_id c.backend c.variant_key) db.variants) [
      | some row ↦ ok (
        recompiled now c row,
        record db {
          variants =
              update (has_variant_key c.contract_id c.backend c.variant_key) (recompiled now c)
                db.variants;
        },
      )
      | none ↦ elim (select (has_contract_id c.contract_id) db.contracts) [
        | none ↦ err (exception "ForeignKeyViolation")
        | some _ ↦ elim (variant_row db variant_id) [
          | some _ ↦ unique_violation
          | none ↦ ok (
            new_variant now variant_id c,
            record db { variants = new_variant now variant_id c ∷ db.variants },
          )
        ]
      ]
    ]

abbrev pub new_publish_job : ℕ → String → String → PublishJobRow
new_publish_job now job_id variant_id = record {
  id = job_id;
  variant_id = variant_id;
  status = publish_pending;
  artifact_ref = none;
  result_json = none;
  error_message = none;
  created_at = now;
  started_at = none;
  finished_at = none;
}

unfoldable pub create_publish_job :
    ℕ → String → String → PublishDb → Result (PublishJobRow × PublishDb)
create_publish_job now job_id variant_id db = elim (variant_row db variant_id) [
  | none ↦ err (exception "ForeignKeyViolation")
  | some _ ↦ elim (select (has_publish_job_id job_id) db.publish_jobs) [
    | some _ ↦ unique_violation
    | none ↦ ok (
      new_publish_job now job_id variant_id,
      record db { publish_jobs = new_publish_job now job_id variant_id ∷ db.publish_jobs },
    )
  ]
]

unfoldable pub mark_job_running : ℕ → String → PublishDb → PublishDb
mark_job_running now job_id db = record db {
  publish_jobs =
      update (has_publish_job_id job_id)
        (λ row. record row { status = publish_running; started_at = some now }) db.publish_jobs;
}

abbrev pub published_row : ℕ → String → Json → VariantRow → VariantRow
published_row now artifact_ref result row = record row {
  status = variant_published;
  published_ref = some artifact_ref;
  published_metadata = some result;
  last_error = none;
  updated_at = now;
}

abbrev pub ready_job : ℕ → String → Json → PublishJobRow → PublishJobRow
ready_job now artifact_ref result row = record row {
  status = publish_ready;
  artifact_ref = some artifact_ref;
  result_json = some result;
  error_message = none;
  finished_at = some now;
}

unfoldable pub mark_job_ready : ℕ → String → String → String → Json → PublishDb → PublishDb
mark_job_ready now job_id variant_id artifact_ref result db = record db {
  publish_jobs =
      update (has_publish_job_id job_id) (ready_job now artifact_ref result) db.publish_jobs;
  variants = update (has_variant_id variant_id) (published_row now artifact_ref result) db.variants;
}

abbrev pub failed_publish_job : ℕ → String → PublishJobRow → PublishJobRow
failed_publish_job now message row = record row {
  status = publish_failed;
  error_message = some message;
  finished_at = some now;
}

abbrev pub failed_variant : ℕ → String → VariantRow → VariantRow
failed_variant now message row = record row {
  status = unless_published row.status variant_failed;
  last_error = some message;
  updated_at = now;
}

unfoldable pub mark_job_failed : ℕ → String → String → String → PublishDb → PublishDb
mark_job_failed now job_id variant_id error_message db =
    let message = last_chars 8192 error_message in
    record db {
      publish_jobs =
          update (has_publish_job_id job_id) (failed_publish_job now message) db.publish_jobs;
      variants = update (has_variant_id variant_id) (failed_variant now message) db.variants;
    }
