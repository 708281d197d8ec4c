-- ===== src/Publish/Rows.antt =====
-- The tables of schema `publish` (publish_service/schema.py). Times are microseconds since the epoch,
-- of the database's clock. A method's block is one transaction: what it raises undoes what it wrote.
use managed_python_runner_en.Prelude.{
  ℕ, String, Bool, true, false, ◌&&◌, Option, List, [], select, ◌==◌, eqb,
}
use managed_python_runner_en.Authoring.Model.{Json, VirtualOperatorContract}

-- UNIQUE(workspace, name)
pub record OperatorRow : Type 0 where
  pub id : String
  pub workspace : String
  pub name : String
  pub display_name : String
  pub description : String
  pub created_at : ℕ
  pub updated_at : ℕ

-- UNIQUE(operator_id, version), UNIQUE(operator_id, contract_sha256); the contract stands for its JSON.
pub record ContractRow : Type 0 where
  pub id : String
  pub operator_id : String
  pub version : ℕ
  pub source_revision : String
  pub source_ref : String
  pub contract_sha256 : String
  pub contract_json : VirtualOperatorContract
  pub created_at : ℕ

-- CHECK (status IN ('COMPILED', 'PUBLISHED', 'FAILED'))
pub data VariantStatus : Type 0 where
  variant_compiled variant_published variant_failed : VariantStatus

-- UNIQUE(contract_id, backend, variant_key)
pub record VariantRow : Type 0 where
  pub id : String
  pub contract_id : String
  pub backend : String
  pub compiler_version : String
  pub variant_key : String
  pub options_json : Json
  pub backend_contract_sha256 : String
  pub backend_contract_json : Json
  pub status : VariantStatus
  pub published_ref : Option String
  pub published_metadata : Option Json
  pub last_error : Option String
  pub created_at : ℕ
  pub updated_at : ℕ

-- CHECK (status IN ('PENDING', 'RUNNING', 'READY', 'FAILED'))
pub data PublishJobStatus : Type 0 where
  publish_pending publish_running publish_ready publish_failed : PublishJobStatus

pub record PublishJobRow : Type 0 where
  pub id : String
  pub variant_id : String
  pub status : PublishJobStatus
  pub artifact_ref : Option String
  pub result_json : Option Json
  pub error_message : Option String
  pub created_at : ℕ
  pub started_at : Option ℕ
  pub finished_at : Option ℕ

pub record PublishDb : Type 0 where
  pub operators : List OperatorRow
  pub contracts : List ContractRow
  pub variants : List VariantRow
  pub publish_jobs : List PublishJobRow

abbrev pub empty_publish_db : PublishDb
empty_publish_db = record { operators = []; contracts = []; variants = []; publish_jobs = [] }

abbrev pub has_operator_id : String → OperatorRow → Bool
has_operator_id operator_id row = row.id == operator_id

abbrev pub has_name : String → String → OperatorRow → Bool
has_name workspace name row = row.workspace == workspace && row.name == name

abbrev pub has_contract_id : String → ContractRow → Bool
has_contract_id contract_id row = row.id == contract_id

abbrev pub is_of_operator : String → ContractRow → Bool
is_of_operator operator_id row = row.operator_id == operator_id

abbrev pub has_digest : String → String → ContractRow → Bool
has_digest operator_id digest row = row.operator_id == operator_id && row.contract_sha256 == digest

abbrev pub has_version : String → ℕ → ContractRow → Bool
has_version operator_id version row = row.operator_id == operator_id && eqb row.version version

abbrev pub has_variant_id : String → VariantRow → Bool
has_variant_id variant_id row = row.id == variant_id

abbrev pub has_variant_key : String → String → String → VariantRow → Bool
has_variant_key contract_id backend variant_key row =
    row.contract_id == contract_id && row.backend == backend && row.variant_key == variant_key

abbrev pub has_publish_job_id : String → PublishJobRow → Bool
has_publish_job_id job_id row = row.id == job_id

abbrev pub variant_row : PublishDb → String → Option VariantRow
variant_row db variant_id = select (has_variant_id variant_id) db.variants

abbrev pub is_published : VariantRow → Bool
is_published row = elim row.status [ variant_published ↦ true | _ ↦ false ]
