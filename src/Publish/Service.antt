-- ===== src/Publish/Service.antt =====
-- `PublishService` of publish_service/service.py: contracts are created, compiled for a backend and
-- published. An exception leaves what the store's methods before it have committed.
pub mod Jobs
use Prim.Native.String.{◌++◌}
use managed_python_runner_en.Prelude.{
  ℕ, String, Bool, true, false, not, ◌||◌, Option, none, some, List, [], ◌∷◌, ◌==◌, if◌then◌else◌,
  Dict, string_eq, get,
}
use managed_python_runner_en.Errors.{Result, ok, err, Error, raise_error, publish_error, ◌>>=◌}
use managed_python_runner_en.Build.Rows.{
  EnvStatus, env_pending, env_building, env_verifying, env_ready, env_failed,
}
use managed_python_runner_en.Build.App.{EnvironmentBody}
use managed_python_runner_en.Build.Builder.{starts_with}
use managed_python_runner_en.Build.Service.{described, status_name}
use managed_python_runner_en.Authoring.Model.{
  Json, ProjectCatalog, is_missing, VirtualOperatorContract,
}
use managed_python_runner_en.Authoring.Plans.{Rendering, ExecutionPlan, or_empty}
use managed_python_runner_en.Authoring.Compiler.{compile_virtual_contract}
use managed_python_runner_en.Publish.Rows.{ContractRow, VariantRow, PublishDb}
use managed_python_runner_en.Publish.Store.{
  Saved, save_virtual_contract, latest_of, get_latest_contract, Compiled, upsert_variant,
  create_publish_job, mark_job_running, mark_job_ready, mark_job_failed,
}
use managed_python_runner_en.Publish.Backends.{
  RunnerBackendContract, NifiNativeBackendContract, BackendContract, runner_contract,
  native_contract, BackendHashes, option_default, compile_runner_contract,
  compile_nifi_native_contract,
}
use managed_python_runner_en.Publish.Selection.{
  CreateVirtualContractRequest, selection_to_virtual_contract,
}

-- `result` of a runner's release, and of a package for NiFi.
pub record RunnerResult : Type 0 where
  pub release_id : String
  pub runtime_image : String
  pub runtime : EnvironmentBody
  pub contract : RunnerBackendContract

pub record NativeResult : Type 0 where
  pub contract : NifiNativeBackendContract
  pub artifact_file : String

pub data PublishResult : Type 0 where
  runner_result : RunnerResult → PublishResult
  native_result : NativeResult → PublishResult

-- The components that the service calls: the file system, the scanner, the source store, the client
-- of the build service, the publisher and the writer of packages; and the canonical JSON of a result.
pub record PublishService : Type 0 where
  pub rendering : Rendering
  pub hashes : BackendHashes
  pub default_profile : String
  pub inside_root : String → Option String
  pub is_dir : String → Bool
  pub scan_project : String → String → Result ProjectCatalog
  pub put_workspace : String → String → Result String
  pub resolve_source : String → Result String
  pub read_requirements : String → Result (List String)
  pub resolve_runtime : List String → Result (Option EnvironmentBody)
  pub publish_release : String → RunnerBackendContract → ExecutionPlan → String → Result String
  pub write_native_package :
      String → NifiNativeBackendContract → ExecutionPlan → Result (String × String)
  pub result_json : PublishResult → Json

-- What `uuid4` and the database's clock give in one call.
pub record PublishDraws : Type 0 where
  pub operator_id : String
  pub contract_id : String
  pub variant_id : String
  pub job_id : String
  pub saved : ℕ
  pub upserted : ℕ
  pub created : ℕ
  pub started : ℕ
  pub ended : ℕ

pub record PublishReply : Type 0 where
  pub job_id : String
  pub backend : String
  pub artifact_ref : String
  pub result : PublishResult

-- A parent contract as `_load_current_parent` returns it.
pub record Parent : Type 0 where
  pub row : ContractRow
  pub plan : ExecutionPlan
  pub source_path : String

-- What `_compile_backend` saves.
pub record Child : Type 0 where
  pub contract : BackendContract
  pub compiled : Compiled

-- None in an f-string
abbrev pub or_none : Option String → String
or_none none = "None"
or_none (some text) = text

unfoldable pub not_ready : EnvironmentBody → Result (String × EnvironmentBody)
unfolding status_name
not_ready runtime = raise_error publish_error (
    "RUNTIME_NOT_READY env_key=" ++ (runtime.env_key ++ (" status=" ++ status_name runtime.status)))

-- The runtime is READY and has an image.
unfoldable pub runtime_image : Option EnvironmentBody → Result (String × EnvironmentBody)
unfolding not_ready
runtime_image none = raise_error publish_error "Build Service did not return a runtime environment"
runtime_image (some runtime) = elim runtime.status [
  | env_failed ↦
      raise_error publish_error
        ("RUNTIME_BUILD_FAILED env_key=" ++ (runtime.env_key ++ (": " ++ or_none runtime.error)))
  | env_ready ↦
      if is_missing runtime.image then not_ready runtime else ok (or_empty runtime.image, runtime)
  | _ ↦ not_ready runtime
]

module _ (s : PublishService) where
  unfoldable pub workspace_path : String → Result String
  workspace_path workspace =
      if workspace == "" || starts_with workspace "/"
      then raise_error publish_error "workspace must be a non-empty relative path"
      else elim (s.inside_root workspace) [
        | none ↦ raise_error publish_error "workspace escapes PUBLISH_WORKSPACE_ROOT"
        | some path ↦
            if s.is_dir path
            then ok path
            else raise_error publish_error ("workspace does not exist: " ++ workspace)
      ]

  -- Everything before the contract is saved.
  unfoldable pub checked_contract : CreateVirtualContractRequest → Result VirtualOperatorContract
  unfolding workspace_path selection_to_virtual_contract compile_virtual_contract
  checked_contract selection = workspace_path selection.workspace >>= λ workspace.
      s.scan_project workspace selection.python_root >>= λ mutable_catalog.
      if not (mutable_catalog.source_revision == selection.source_revision)
      then raise_error publish_error
          "SOURCE_CHANGED: workspace changed after Analyze; analyze again before saving the contract"
      else selection_to_virtual_contract selection none >>= λ draft.
          compile_virtual_contract s.rendering draft mutable_catalog >>= λ first.
          s.put_workspace workspace selection.source_revision >>= λ source_ref.
          s.resolve_source source_ref >>= λ immutable_source.
          s.scan_project immutable_source selection.python_root >>= λ immutable_catalog.
          selection_to_virtual_contract selection (some source_ref) >>= λ parent.
          compile_virtual_contract s.rendering parent immutable_catalog >>= λ plan. ok parent

  unfoldable pub create_virtual_contract :
      PublishDraws → CreateVirtualContractRequest → PublishDb → Result (Saved × PublishDb)
  unfolding checked_contract save_virtual_contract
  create_virtual_contract x selection db = checked_contract selection >>= λ parent.
      save_virtual_contract s.rendering.contract_sha256 x.saved x.operator_id x.contract_id
        selection.workspace parent db

  unfoldable pub load_current_parent : String → PublishDb → Result Parent
  unfolding latest_of compile_virtual_contract
  load_current_parent operator_id db = elim (get_latest_contract db operator_id) [
    | none ↦ raise_error publish_error "operator or contract not found"
    | some row ↦
        if is_missing row.contract_json.source.source_ref
        then raise_error publish_error "virtual contract has no immutable source_ref"
        else s.resolve_source (or_empty row.contract_json.source.source_ref) >>= λ source_path.
            s.scan_project source_path row.contract_json.source.python_path >>= λ catalog.
            compile_virtual_contract s.rendering row.contract_json catalog >>= λ plan.
            ok (record { row = row; plan = plan; source_path = source_path })
  ]

  abbrev pub runner_child : Parent → RunnerBackendContract → Child
  runner_child p c = record {
    contract = runner_contract c;
    compiled = record {
      contract_id = p.row.id;
      backend = "runner";
      compiler_version = "runner-contract-v1";
      variant_key = c.variant_key;
      options = s.hashes.options_json (("profile", c.runtime_profile) ∷ []);
      backend_contract_sha256 = s.hashes.backend_contract_sha256 (runner_contract c);
      backend_contract = s.hashes.contract_json (runner_contract c);
    };
  }

  abbrev pub native_child : Parent → NifiNativeBackendContract → Child
  native_child p c = record {
    contract = native_contract c;
    compiled = record {
      contract_id = p.row.id;
      backend = "nifi_native";
      compiler_version = "nifi-native-contract-v1";
      variant_key = c.variant_key;
      options =
          s.hashes.options_json
            (("className", c.class_name) ∷ ("packageName", c.package_name) ∷ []);
      backend_contract_sha256 = s.hashes.backend_contract_sha256 (native_contract c);
      backend_contract = s.hashes.contract_json (native_contract c);
    };
  }

  unfoldable pub compile_child : Parent → String → Dict String String → Result Child
  unfolding compile_runner_contract compile_nifi_native_contract get
  compile_child p backend options =
      if backend == "runner"
      then ok (
          runner_child p (
            compile_runner_contract s.hashes p.row.id p.row.version p.row.contract_json p.plan
              (("profile", option_default options "profile" s.default_profile) ∷ [])))
      else if backend == "nifi_native"
      then (s.read_requirements p.source_path >>= λ requirements. ok (
          native_child p (
            compile_nifi_native_contract s.hashes p.row.id p.row.version p.row.contract_json p.plan
              requirements options)))
      else raise_error publish_error ("unsupported backend: " ++ backend)

  -- `_compile_backend`, which saves the variant.
  unfoldable pub compile_backend :
      PublishDraws
      → String
      → String
      → Dict String String
      → PublishDb
      → Result ((VariantRow × Child × Parent) × PublishDb)
  unfolding load_current_parent compile_child upsert_variant
  compile_backend x operator_id backend options db = load_current_parent operator_id db >>= λ p.
      compile_child p backend options >>= λ child.
      upsert_variant x.upserted x.variant_id child.compiled db >>= λ saved.
      ok ((saved.0, child, p), saved.1)

  unfoldable pub publish_runner : RunnerBackendContract → Parent → Result (PublishResult × String)
  unfolding runtime_image
  publish_runner child p = s.read_requirements p.source_path >>= λ requirements.
      s.resolve_runtime requirements >>= λ answer. runtime_image answer >>= λ found.
      s.publish_release p.source_path child p.plan found.0 >>= λ release_id. ok (
        runner_result (record {
          release_id = release_id;
          runtime_image = found.0;
          runtime = found.1;
          contract = child;
        }),
        "runner-release:" ++ release_id,
      )

  unfoldable pub publish_native :
      NifiNativeBackendContract → Parent → Result (PublishResult × String)
  publish_native child p = s.write_native_package p.source_path child p.plan >>= λ artifact. ok (
    native_result (record { contract = child; artifact_file = artifact.0 }),
    "nifi-native-package:" ++ artifact.1,
  )

  -- The body of the `try`, up to the row.
  unfoldable pub publish_child : BackendContract → Parent → Result (PublishResult × String)
  unfolding publish_runner publish_native
  publish_child (runner_contract c) p = publish_runner c p
  publish_child (native_contract c) p = publish_native c p

  -- The `try` and its `except`, for a job that runs.
  unfoldable pub run_publish :
      PublishDraws
      → String
      → String
      → String
      → Child
      → Parent
      → PublishDb
      → Result PublishReply × PublishDb
  unfolding publish_child mark_job_ready mark_job_failed described
  run_publish x backend job_id variant_id child p db = elim (publish_child child.contract p) [
    | err raised ↦ (err raised, mark_job_failed x.ended job_id variant_id (described raised) db)
    | ok (result, artifact_ref) ↦ (
      ok (record {
        job_id = job_id;
        backend = backend;
        artifact_ref = artifact_ref;
        result = result;
      }),
      mark_job_ready x.ended job_id variant_id artifact_ref (s.result_json result) db,
    )
  ]

  unfoldable pub publish_backend :
      PublishDraws
      → String
      → String
      → Dict String String
      → PublishDb
      → Result PublishReply × PublishDb
  unfolding compile_backend create_publish_job mark_job_running run_publish
  publish_backend x operator_id backend options db =
      elim (compile_backend x operator_id backend options db) [
        | err raised ↦ (err raised, db)
        | ok ((variant, child, p), db) ↦
            elim (create_publish_job x.created x.job_id variant.id db) [
              | err raised ↦ (err raised, db)
              | ok (job, db) ↦
                  run_publish x backend job.id variant.id child p
                    (mark_job_running x.started job.id db)
            ]
      ]
