-- ===== src/Build/App.antt =====
-- The routes of build_service/app.py.
use managed_python_runner_en.Prelude.{String, Bool, Option, none, some, List, if◌then◌else◌}
use managed_python_runner_en.Errors.{ok, err}
use managed_python_runner_en.Http.{
  HttpReply, body, http_exception, let_through, is_value_error, is_key_error, error_text,
}
use managed_python_runner_en.Build.Rows.{EnvStatus, ResolutionKind, BuildDb, is_failed}
use managed_python_runner_en.Build.Store.{Resolution, get_for_request}
use managed_python_runner_en.Build.Service.{BuildService, Draws, resolve, retry}

-- The dict of an environment; None stands for {"found": False}.
pub record EnvironmentBody : Type 0 where
  pub environment_id : String
  pub env_key : String
  pub runtime_env_key : String
  pub resolution_kind : ResolutionKind
  pub status : EnvStatus
  pub image : Option String
  pub error : Option String
  pub can_retry : Bool

unfoldable pub serialize_environment : Option Resolution → Option EnvironmentBody
serialize_environment none = none
serialize_environment (some row) = some (record {
  environment_id = row.env.id;
  env_key = row.request_env_key;
  runtime_env_key = row.env.env_key;
  resolution_kind = row.resolution_kind;
  status = row.env.status;
  image = row.env.image_ref;
  error = row.env.last_error;
  can_retry = is_failed row.env;
})

module _ (s : BuildService) where
  unfoldable pub resolve_route :
      Draws → List String → BuildDb → HttpReply (Option EnvironmentBody) × BuildDb
  unfolding resolve serialize_environment is_value_error
  resolve_route x requirements db =
      let (answer, after) = resolve s x requirements db in
      elim answer [
        | ok row ↦ (body (serialize_environment row), after)
        | err e ↦
            (if is_value_error e then http_exception 400 (error_text e) else let_through e, after)
      ]

  unfoldable pub get_environment_route : String → BuildDb → HttpReply (Option EnvironmentBody)
  unfolding get_for_request serialize_environment
  get_environment_route env_key db = elim (get_for_request env_key db) [
    | none ↦ http_exception 404 "runtime environment not found"
    | some row ↦ body (serialize_environment (some row))
  ]

  unfoldable pub retry_environment_route :
      Draws → String → BuildDb → HttpReply (Option EnvironmentBody) × BuildDb
  unfolding retry serialize_environment is_value_error is_key_error
  retry_environment_route x env_key db =
      let (answer, after) = retry s x env_key db in
      elim answer [
        | ok row ↦ (body (serialize_environment row), after)
        | err e ↦ (
          if is_key_error e
              then http_exception 404 "runtime environment not found"
              else if is_value_error e
              then http_exception 409 (error_text e)
              else let_through e,
          after,
        )
      ]
