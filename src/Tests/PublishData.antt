-- ===== src/Tests/PublishData.antt =====
-- A publish service over one workspace, with one operator.
use managed_python_runner_en.Prelude.{String, true, false, none, some, [], ◌∷◌}
use managed_python_runner_en.Errors.{ok}
use managed_python_runner_en.Build.Rows.{env_ready, exact}
use managed_python_runner_en.Build.App.{EnvironmentBody}
use managed_python_runner_en.Authoring.Model.{
  function_kind, input_payload, bytes_codec, keep_original, returned, pos, ParameterInfo,
  CallableInfo, ProjectCatalog, VirtualOperatorContract,
}
use managed_python_runner_en.Authoring.Plans.{Rendering, ExecutionPlan}
use managed_python_runner_en.Publish.Rows.{
  OperatorRow, ContractRow, VariantRow, variant_published, PublishDb,
}
use managed_python_runner_en.Publish.Store.{Saved}
use managed_python_runner_en.Publish.Backends.{
  BackendHashes, RunnerBackendContract, compile_runner_contract,
}
use managed_python_runner_en.Publish.Selection.{BindingSelection, CreateVirtualContractRequest}
use managed_python_runner_en.Publish.Service.{PublishService, PublishDraws, Parent}

abbrev pub content_parameter : ParameterInfo
content_parameter = record {
  name = "content";
  kind = "POSITIONAL_OR_KEYWORD";
  annotation = some "bytes";
  required = true;
  has_default = false;
  default_value = none;
  default_repr = none;
}

abbrev pub process_callable : CallableInfo
process_callable = record {
  id = "main:process";
  module_name = "main";
  qualname = "process";
  kind = function_kind;
  class_target = none;
  method_name = none;
  file = "main.py";
  line = 1;
  is_async = false;
  decorators = [];
  score = pos 100;
  parameters = content_parameter ∷ [];
  return_annotation = none;
}

abbrev pub plain_catalog : ProjectCatalog
plain_catalog = record {
  source_revision = "r1";
  python_path = "src";
  functions = process_callable ∷ [];
  classes = [];
  warnings = [];
}

abbrev pub plain_rendering : Rendering
plain_rendering = record {
  repr = λ text. text;
  decimal = λ n. "0";
  equal = λ a b. true;
  contract_sha256 = λ contract. contract.metadata.name;
}

abbrev pub payload_selection : BindingSelection
payload_selection = record {
  source = input_payload;
  codec = bytes_codec;
  metadata_key = none;
  parameter_key = none;
  parameter_display_name = none;
  parameter_description = "";
  parameter_required = false;
  parameter_has_default = false;
  parameter_default = none;
  constant = none;
}

abbrev pub plain_selection : CreateVirtualContractRequest
plain_selection = record {
  workspace = "demo";
  source_revision = "r1";
  python_root = "src";
  operator = record { name = "my-op"; display_name = "My operator"; description = "" };
  callable_id = "main:process";
  constructor_bindings = [];
  argument_bindings = ("content", payload_selection) ∷ [];
  output = record {
    payload = record { source = returned; path = []; codec = bytes_codec; value = none };
    metadata = [];
    none_policy = keep_original;
  };
}

abbrev pub unbound_selection : CreateVirtualContractRequest
unbound_selection = record plain_selection { argument_bindings = [] }

abbrev pub plain_hashes : BackendHashes
plain_hashes = record {
  variant_sha256 = λ payload. payload.backend;
  backend_contract_sha256 = λ contract. "";
  contract_json = λ contract. "{}";
  options_json = λ options. "{}";
  upper = λ c. c;
}

abbrev pub ready_runtime : EnvironmentBody
ready_runtime = record {
  environment_id = "e1";
  env_key = "k";
  runtime_env_key = "k";
  resolution_kind = exact;
  status = env_ready;
  image = some "repo@sha256:f00d";
  error = none;
  can_retry = false;
}

abbrev pub plain_service : PublishService
plain_service = record {
  rendering = plain_rendering;
  hashes = plain_hashes;
  default_profile = "standard";
  inside_root = λ workspace. some workspace;
  is_dir = λ path. true;
  scan_project = λ path root. ok plain_catalog;
  put_workspace = λ path revision. ok "local:r1";
  resolve_source = λ source_ref. ok "sources/r1";
  read_requirements = λ path. ok ("demo" ∷ []);
  resolve_runtime = λ requirements. ok (some ready_runtime);
  publish_release = λ path contract plan image. ok "rel-1";
  write_native_package = λ path contract plan. ok ("packages/p.zip", "p.zip");
  result_json = λ result. "{}";
}

abbrev pub plain_draws : PublishDraws
plain_draws = record {
  operator_id = "o1";
  contract_id = "c1";
  variant_id = "v1";
  job_id = "j1";
  saved = 1;
  upserted = 2;
  created = 3;
  started = 4;
  ended = 5;
}

abbrev pub demo_contract : VirtualOperatorContract
demo_contract = record {
  metadata = record { name = "my-op"; display_name = "My operator"; description = "" };
  source = record { source_revision = "r1"; python_path = "src"; source_ref = some "local:r1" };
  callable_id = "main:process";
  constructor_arguments = [];
  arguments =
      (
        "content",
        record {
          source = input_payload;
          codec = bytes_codec;
          metadata_key = none;
          parameter = none;
          constant = none;
        },
      )
      ∷ [];
  output = record {
    payload = record { source = returned; path = []; codec = bytes_codec; value = none };
    metadata = [];
    none_policy = keep_original;
  };
}

abbrev pub demo_plan : ExecutionPlan
demo_plan = record {
  source_revision = "r1";
  source_ref = some "local:r1";
  python_path = "src";
  target = record {
    kind = function_kind;
    module_name = "main";
    qualname = "process";
    class_target = none;
    method_name = none;
    class_name = none;
  };
  constructor_arguments = [];
  arguments =
      (
        "content",
        record {
          source = input_payload;
          codec = bytes_codec;
          required = true;
          metadata_key = none;
          parameter_key = none;
          constant = none;
          has_default = false;
          default_value = none;
        },
      )
      ∷ [];
  output = demo_contract.output;
  parameters = [];
  input_metadata = [];
  output_metadata = [];
  contract_sha256 = "my-op";
}

abbrev pub demo_operator : OperatorRow
demo_operator = record {
  id = "o1";
  workspace = "demo";
  name = "my-op";
  display_name = "My operator";
  description = "";
  created_at = 1;
  updated_at = 1;
}

abbrev pub demo_version : ContractRow
demo_version = record {
  id = "c1";
  operator_id = "o1";
  version = 1;
  source_revision = "r1";
  source_ref = "local:r1";
  contract_sha256 = "my-op";
  contract_json = demo_contract;
  created_at = 1;
}

abbrev pub demo_saved : Saved
demo_saved = ((demo_operator, demo_version), true)

abbrev pub saved_db : PublishDb
saved_db = record {
  operators = demo_operator ∷ [];
  contracts = demo_version ∷ [];
  variants = [];
  publish_jobs = [];
}

abbrev pub published_variant : VariantRow
published_variant = record {
  id = "v0";
  contract_id = "c1";
  backend = "runner";
  compiler_version = "runner-contract-v1";
  variant_key = "runner";
  options_json = "{}";
  backend_contract_sha256 = "";
  backend_contract_json = "{}";
  status = variant_published;
  published_ref = some "runner-release:rel-0";
  published_metadata = some "{}";
  last_error = none;
  created_at = 1;
  updated_at = 1;
}

abbrev pub published_db : PublishDb
published_db = record saved_db { variants = published_variant ∷ [] }

abbrev pub demo_parent : Parent
demo_parent = record { row = demo_version; plan = demo_plan; source_path = "sources/r1" }

abbrev pub demo_child : RunnerBackendContract
demo_child = compile_runner_contract plain_hashes "c1" 1 demo_contract demo_plan []

abbrev pub demo_ref : String
demo_ref = "runner-release:rel-1"
