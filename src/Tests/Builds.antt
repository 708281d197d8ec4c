-- ===== src/Tests/Builds.antt =====
-- A build service whose lock is always the same, on which the theorems of Build are used.
use managed_python_runner_en.Prelude.{
  String, ◌≡◌, refl, true, none, some, List, [], ◌∷◌, arith, rowcount, select, update, get, put,
}
use managed_python_runner_en.Errors.{ok}
use managed_python_runner_en.Build.Lock.{parse_locked_packages}
use managed_python_runner_en.Build.Model.{RuntimeBuildSpec, Digests, env_key, is_pinned}
use managed_python_runner_en.Build.Rows.{
  EnvRow, env_pending, env_failed, env_ready, exact, BuildDb, job_ready, empty_build_db, env_row,
}
use managed_python_runner_en.Build.Builder.{Tools, lock_requirements}
use managed_python_runner_en.Build.Store.{Resolution, get_for_request}
use managed_python_runner_en.Build.Store.Jobs.{IsBuildable}
use managed_python_runner_en.Build.Store.Steps.{
  BuildReach, BuildReach-IsBuildable, BuildReach-keeps_ready, empty_build_db-IsBuildable,
}
use managed_python_runner_en.Build.Store.Sharing.{Answers, empty_build_db-IsShared}
use managed_python_runner_en.Build.Service.{
  BuildService, Draws, spec_of_lock, build, resolve, retry, retry_spec,
}
use managed_python_runner_en.Build.Service.Builds.{build-Settled}
use managed_python_runner_en.Build.Service.Endings.{Settled}
use managed_python_runner_en.Build.Service.Steps.{resolve-Reach, retry-Reach}
use managed_python_runner_en.Build.Service.Answers.{retry-Settled, resolve-Answers}

abbrev pub plain_digests : Digests
plain_digests = record {
  text_sha256 = λ text. text;
  identity_sha256 = λ identity. identity.requirements_lock_sha256;
  canonicalize_name = λ name. name;
  repr = λ text. text;
}

abbrev pub plain_tools : Tools
plain_tools = record {
  parse_requirement = λ text. some (record { url = none; text = text });
  lower = λ text. text;
  repr = λ text. text;
  set_order = λ values. values;
  compile = λ call. ok "demo==1.0\n";
  buildx = λ call. ok (some "sha256:f00d");
  verify_image = λ image packages. ok tt;
}

abbrev pub demo_service : BuildService
demo_service = record {
  settings = record {
    base_image = "runner@sha256:1";
    registry_repo = "repo";
    python_version = "3.12";
    platform = "linux/amd64";
    uv_python_platform = "x86_64-unknown-linux-gnu";
    build_policy_version = "1";
    uv_default_index = none;
    allow_superset_reuse = true;
  };
  digests = plain_digests;
  tools = plain_tools;
}

abbrev pub demo_draws : Draws
demo_draws = record {
  env_id = "e1";
  job_id = "j1";
  created = 1;
  bound = 2;
  claimed = 3;
  verifying = 4;
  ended = 5;
}

abbrev demo_requirements : List String
demo_requirements = "demo" ∷ []

abbrev demo_row : EnvRow
demo_row = record {
  id = "e1";
  env_key = "demo==1.0\n";
  base_image = "runner@sha256:1";
  python_version = "3.12";
  platform = "linux/amd64";
  build_policy_version = "1";
  lock_sha256 = "demo==1.0\n";
  requirements_lock = "demo==1.0\n";
  packages = ("demo", "1.0") ∷ [];
  package_count = 1;
  image_ref = some "repo@sha256:f00d";
  status = env_ready;
  last_error = none;
  created_at = 1;
  updated_at = 5;
}

abbrev demo_answer : Resolution
demo_answer = record { env = demo_row; request_env_key = "demo==1.0\n"; resolution_kind = exact }

-- The tables after one request.
abbrev demo_db : BuildDb
demo_db = record {
  environments = demo_row ∷ [];
  aliases =
      record {
        request_env_key = "demo==1.0\n";
        env_id = "e1";
        resolution_kind = exact;
        created_at = 2;
      }
      ∷ [];
  jobs =
      record {
        id = "j1";
        env_id = "e1";
        status = job_ready;
        error_message = none;
        created_at = 3;
        started_at = some 3;
        finished_at = some 5;
      }
      ∷ [];
}

abbrev demo_spec : RuntimeBuildSpec
demo_spec = record {
  base_image = "runner@sha256:1";
  python_version = "3.12";
  platform = "linux/amd64";
  requirements_lock = "demo==1.0\n";
  build_policy_version = "1";
}

abbrev pending_row : EnvRow
pending_row = record demo_row { image_ref = none; status = env_pending; updated_at = 1 }

abbrev pending_db : BuildDb
pending_db = record demo_db { environments = pending_row ∷ []; jobs = [] }

resolve_demo :
    resolve demo_service demo_draws demo_requirements empty_build_db
    ≡ (ok (some demo_answer), demo_db)
unfolding resolve env_key is_pinned parse_locked_packages get select rowcount update put
resolve_demo = refl

demo_db-IsBuildable : IsBuildable demo_db
unfolding select rowcount
demo_db-IsBuildable = record {
  env_unique = λ i. ground arith;
  key_unique = λ k. ground arith;
  job_unique = λ j. ground arith;
  jobs_match = λ i. ground arith;
  ready_image = λ i row found ready. ("repo@sha256:f00d", ground arith);
}

BuildReach-IsBuildable_example :
    IsBuildable (resolve demo_service demo_draws demo_requirements empty_build_db).1
BuildReach-IsBuildable_example =
    BuildReach-IsBuildable
      (resolve-Reach demo_service demo_draws demo_requirements empty_build_db
        empty_build_db-IsBuildable)
      empty_build_db-IsBuildable

BuildReach-keeps_ready_example :
    env_row (retry demo_service demo_draws "demo==1.0\n" demo_db).1 "e1" ≡ some demo_row
unfolding select
BuildReach-keeps_ready_example =
    BuildReach-keeps_ready (retry-Reach demo_service demo_draws "demo==1.0\n" demo_db)
      demo_db-IsBuildable "e1" demo_row refl refl

resolve-Answers_example :
    (lock_text : String) × (key : String) × (lock_requirements plain_tools demo_requirements "3.12"
        "x86_64-unknown-linux-gnu" none
      ≡ ok lock_text)
    × (env_key plain_digests (spec_of_lock demo_service lock_text) ≡ ok key)
    × Answers plain_digests key demo_row
resolve-Answers_example =
    resolve-Answers demo_service demo_draws demo_requirements demo_answer empty_build_db demo_db
      empty_build_db-IsBuildable empty_build_db-IsShared resolve_demo

resolve-Reach_example :
    BuildReach plain_digests empty_build_db
      (resolve demo_service demo_draws demo_requirements empty_build_db).1
resolve-Reach_example =
    resolve-Reach demo_service demo_draws demo_requirements empty_build_db
      empty_build_db-IsBuildable

build-Settled_example :
    (ended : EnvRow) × (env_row
        (build demo_service demo_draws "demo==1.0\n" pending_row demo_spec pending_db).1
        "e1"
      ≡ some ended)
    × Settled demo_service pending_row demo_spec (("demo", "1.0") ∷ []) pending_db ended
    × ((build demo_service demo_draws "demo==1.0\n" pending_row demo_spec pending_db).0
        ≡ ok (
            get_for_request "demo==1.0\n"
              (build demo_service demo_draws "demo==1.0\n" pending_row demo_spec pending_db).1))
unfolding parse_locked_packages select get put
build-Settled_example =
    build-Settled demo_service demo_draws "demo==1.0\n" pending_row pending_row demo_spec
      (("demo", "1.0") ∷ []) pending_db refl refl refl refl

abbrev failed_demo : EnvRow
failed_demo = record demo_row {
  image_ref = none;
  status = env_failed;
  last_error = some "no network";
}

abbrev failed_demo_answer : Resolution
failed_demo_answer = record demo_answer { env = failed_demo }

abbrev failed_demo_db : BuildDb
failed_demo_db = record demo_db { environments = failed_demo ∷ []; jobs = [] }

retry-Settled_example :
    let end = retry demo_service demo_draws "demo==1.0\n" failed_demo_db in
    (ended : EnvRow) × (env_row end.1 "e1" ≡ some ended)
    × Settled demo_service failed_demo
        (retry_spec failed_demo)
        (("demo", "1.0") ∷ [])
        failed_demo_db
        ended
    × (end.0 ≡ ok (get_for_request "demo==1.0\n" end.1))
unfolding parse_locked_packages retry_spec get_for_request select get put
retry-Settled_example =
    retry-Settled demo_service demo_draws "demo==1.0\n" failed_demo_answer (("demo", "1.0") ∷ [])
      failed_demo_db refl refl refl refl
