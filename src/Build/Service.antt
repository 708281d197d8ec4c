-- ===== src/Build/Service.antt =====
-- `BuildService` of build_service/service.py. Its log is left out, but not what computing a line of
-- it can raise. An exception leaves what the methods before it have committed.
pub mod Endings
pub mod Builds
pub mod Steps
pub mod Answers
use Prim.Native.String.{◌++◌}
use managed_python_runner_en.Prelude.{
  ℕ, String, Bool, true, false, Option, none, some, List, if◌then◌else◌,
}
use managed_python_runner_en.Errors.{
  Result, ok, err, RunnerError, ErrorClass, runner, catalog, lease, quota, sandbox, ExceptionClass,
  Error, runner_error, raised_error, exception, raise_error, value_error, key_error, runtime_error,
  publish_error, contract_compilation_error, ◌>>=◌,
}
use managed_python_runner_en.Build.Lock.{Packages}
use managed_python_runner_en.Build.Model.{RuntimeBuildSpec, Digests, env_key, packages_of}
use managed_python_runner_en.Build.Rows.{
  EnvStatus, env_pending, env_building, env_verifying, env_ready, env_failed, EnvRow, exact,
  superset, BuildDb, is_pending, is_failed,
}
use managed_python_runner_en.Build.Store.{
  Resolution, get_for_request, find_smallest_superset, get_or_create_exact, bind_request,
  reset_failed, claim_build, mark_verifying, mark_ready, mark_failed,
}
use managed_python_runner_en.Build.Builder.{
  Tools, lock_requirements, build_runtime_image, verify_runtime_image,
}

pub record BuildSettings : Type 0 where
  pub base_image : String
  pub registry_repo : String
  pub python_version : String
  pub platform : String
  pub uv_python_platform : String
  pub build_policy_version : String
  pub uv_default_index : Option String
  pub allow_superset_reuse : Bool

pub record BuildService : Type 0 where
  pub settings : BuildSettings
  pub digests : Digests
  pub tools : Tools

-- The identifiers that `uuid4` gives in one call, and the times of its transactions.
pub record Draws : Type 0 where
  pub env_id : String
  pub job_id : String
  pub created : ℕ
  pub bound : ℕ
  pub claimed : ℕ
  pub verifying : ℕ
  pub ended : ℕ

-- What a call returns or raises, and the database after it.
abbrev pub Answer : Type 0
Answer = Result (Option Resolution) × BuildDb

abbrev pub error_class_name : ErrorClass → String
error_class_name runner = "RunnerError"
error_class_name catalog = "CatalogError"
error_class_name lease = "LeaseError"
error_class_name quota = "QuotaError"
error_class_name sandbox = "SandboxError"

abbrev pub exception_class_name : ExceptionClass → String
exception_class_name value_error = "ValueError"
exception_class_name key_error = "KeyError"
exception_class_name runtime_error = "RuntimeError"
exception_class_name publish_error = "PublishError"
exception_class_name contract_compilation_error = "ContractCompilationError"

-- f"{type(exc).__name__}: {exc}"; the text of any other exception has its class already.
unfoldable pub described : Error → String
described (runner_error e) = error_class_name e.raised_as ++ (": " ++ e.message)
described (raised_error c message) = exception_class_name c ++ (": " ++ message)
described (exception message) = message

unfoldable pub status_name : EnvStatus → String
status_name env_pending = "PENDING"
status_name env_building = "BUILDING"
status_name env_verifying = "VERIFYING"
status_name env_ready = "READY"
status_name env_failed = "FAILED"

unfoldable pub retry_spec : EnvRow → RuntimeBuildSpec
retry_spec env = record {
  base_image = env.base_image;
  python_version = env.python_version;
  platform = env.platform;
  requirements_lock = env.requirements_lock;
  build_policy_version = env.build_policy_version;
}

module _ (s : BuildService) where
  -- The body of the `try`: an exception, and what was committed before it.
  unfoldable pub build_and_verify :
      Draws → EnvRow → String → RuntimeBuildSpec → Packages → BuildDb → Result (Unit {0}) × BuildDb
  unfolding build_runtime_image mark_verifying mark_ready
  build_and_verify x env job_id spec packages db =
      elim (build_runtime_image s.tools spec s.settings.registry_repo ("env-" ++ env.id)) [
        | err raised ↦ (err raised, db)
        | ok image_ref ↦
            let db = mark_verifying x.verifying env.id job_id db in
            elim (verify_runtime_image s.tools image_ref packages) [
              | err raised ↦ (err raised, db)
              | ok _ ↦ elim (mark_ready x.ended env.id job_id image_ref db) [
                | err raised ↦ (err raised, db)
                | ok after ↦ (ok tt, after)
              ]
            ]
      ]

  -- The `try` and its `except Exception`.
  unfoldable pub run_build :
      Draws → EnvRow → String → RuntimeBuildSpec → Packages → BuildDb → BuildDb
  unfolding build_and_verify mark_failed described
  run_build x env job_id spec packages db =
      let (outcome, db) = build_and_verify x env job_id spec packages db in
      elim outcome [
        | ok _ ↦ db
        | err raised ↦ mark_failed x.ended env.id job_id (described raised) db
      ]

  -- `_build`. The packages are computed for the log, before the `try`.
  unfoldable pub build : Draws → String → EnvRow → RuntimeBuildSpec → BuildDb → Answer
  unfolding claim_build get_for_request run_build
  build x request_key env spec db = elim (claim_build x.claimed x.job_id env.id db) [
    | err raised ↦ (err raised, db)
    | ok (none, db) ↦ (ok (get_for_request request_key db), db)
    | ok (some job_id, db) ↦ elim (packages_of s.digests spec) [
      | err raised ↦ (err raised, db)
      | ok packages ↦
          let db = run_build x env job_id spec packages db in
          (ok (get_for_request request_key db), db)
    ]
  ]

  -- Where a row is already bound to the key.
  unfoldable pub resolve_existing :
      Draws → String → RuntimeBuildSpec → Resolution → BuildDb → Answer
  unfolding build
  resolve_existing x request_key spec existing db =
      if is_pending existing.env
      then build x request_key existing.env spec db
      else (ok (some existing), db)

  -- Where no row is bound, and no other environment is taken.
  unfoldable pub resolve_exact : Draws → String → RuntimeBuildSpec → BuildDb → Answer
  unfolding get_or_create_exact bind_request build get_for_request
  resolve_exact x request_key spec db =
      elim (get_or_create_exact s.digests spec x.created x.env_id db) [
        | err raised ↦ (err raised, db)
        | ok (env, db) ↦ elim (bind_request x.bound request_key env.id exact db) [
          | err raised ↦ (err raised, db)
          | ok db ↦
              if is_pending env
              then build x request_key env spec db
              else (ok (get_for_request request_key db), db)
        ]
      ]

  unfoldable pub superset_candidate : RuntimeBuildSpec → BuildDb → Result (Option EnvRow)
  unfolding find_smallest_superset
  superset_candidate spec db =
      if s.settings.allow_superset_reuse then find_smallest_superset s.digests spec db else ok none

  unfoldable pub resolve_new : Draws → String → RuntimeBuildSpec → BuildDb → Answer
  unfolding superset_candidate bind_request resolve_exact get_for_request
  resolve_new x request_key spec db = elim (superset_candidate spec db) [
    | err raised ↦ (err raised, db)
    | ok (some candidate) ↦ elim (bind_request x.bound request_key candidate.id superset db) [
      | err raised ↦ (err raised, db)
      | ok db ↦ (ok (get_for_request request_key db), db)
    ]
    | ok none ↦ resolve_exact x request_key spec db
  ]

  unfoldable pub resolve_locked : Draws → RuntimeBuildSpec → BuildDb → Answer
  unfolding resolve_existing resolve_new get_for_request
  resolve_locked x spec db =
      elim (env_key s.digests spec >>= λ key. packages_of s.digests spec >>= λ packages. ok key) [
        | err raised ↦ (err raised, db)
        | ok request_key ↦ elim (get_for_request request_key db) [
          | some existing ↦ resolve_existing x request_key spec existing db
          | none ↦ resolve_new x request_key spec db
        ]
      ]

  unfoldable pub spec_of_lock : String → RuntimeBuildSpec
  spec_of_lock lock_text = record {
    base_image = s.settings.base_image;
    python_version = s.settings.python_version;
    platform = s.settings.platform;
    requirements_lock = lock_text;
    build_policy_version = s.settings.build_policy_version;
  }

  unfoldable pub resolve : Draws → List String → BuildDb → Answer
  unfolding lock_requirements resolve_locked spec_of_lock
  resolve x requirements db =
      elim (lock_requirements s.tools requirements s.settings.python_version
        s.settings.uv_python_platform s.settings.uv_default_index) [
          | err raised ↦ (err raised, db)
          | ok lock_text ↦ resolve_locked x (spec_of_lock lock_text) db
        ]

  -- Where another process was faster.
  abbrev pub not_reset : String → BuildDb → Result (Option Resolution)
  not_reset request_env_key db = elim (get_for_request request_env_key db) [
    | none ↦ raise_error key_error request_env_key
    | some current ↦ ok (some current)
  ]

  unfoldable pub retry : Draws → String → BuildDb → Answer
  unfolding reset_failed build retry_spec get_for_request status_name
  retry x request_env_key db = elim (get_for_request request_env_key db) [
    | none ↦ (raise_error key_error request_env_key, db)
    | some existing ↦
        if is_failed existing.env
        then (let (reset, db) = reset_failed x.created existing.env.id db in
            elim reset [
              | none ↦ (not_reset request_env_key db, db)
              | some env ↦ build x request_env_key env (retry_spec env) db
            ])
        else (
          raise_error value_error (
              "runtime environment status is "
              ++ (status_name existing.env.status ++ "; only FAILED environments can be retried")),
          db,
        )
  ]
