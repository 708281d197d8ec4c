-- ===== src/Build/Store.antt =====
-- The methods of `BuildStore` (build_service/store.py). A new `uuid4` is an argument.
pub mod Superset
pub mod Jobs
pub mod Methods
pub mod Steps
pub mod Sharing
use Prim.Native.String.{count, len, slice}
use managed_python_runner_en.Prelude.{
  ℕ, ◌+◌, ◌-◌, String, Bool, true, false, ◌&&◌, ◌||◌, Option, none, some, List, [], ◌∷◌, ltb, leb,
  eqb, length, ◌==◌, if◌then◌else◌, Dict, string_eq, get, select, update, rowcount,
}
use managed_python_runner_en.Errors.{Result, ok, err, exception, ◌>>=◌}
use managed_python_runner_en.State.Rows.{unique_violation}
use managed_python_runner_en.Build.Lock.{Packages}
use managed_python_runner_en.Build.Model.{
  RuntimeBuildSpec, Digests, lock_sha256, packages_of, env_key,
}
use managed_python_runner_en.Build.Rows.{
  EnvStatus, env_pending, env_building, env_verifying, env_ready, env_failed, EnvRow,
  ResolutionKind, AliasRow, JobStatus, job_building, job_verifying, job_ready, job_failed, JobRow,
  BuildDb, has_env_id, has_env_key, has_job_id, env_row, alias_row, job_row, is_pending, is_ready,
  is_failed,
}

-- A row of the join of `get_for_request`.
pub record Resolution : Type 0 where
  pub env : EnvRow
  pub request_env_key : String
  pub resolution_kind : ResolutionKind

unfoldable pub get_for_request : String → BuildDb → Option Resolution
get_for_request request_env_key db = elim (alias_row db request_env_key) [
  | none ↦ none
  | some alias ↦ elim (env_row db alias.env_id) [
    | none ↦ none
    | some env ↦ some (record {
      env = env;
      request_env_key = alias.request_env_key;
      resolution_kind = alias.resolution_kind;
    })
  ]
]

-- The operator `@>` of jsonb, on objects of texts.
abbrev same_version : String → Option String → Bool
same_version version none = false
same_version version (some other) = other == version

unfoldable pub contains_all : Packages → Packages → Bool
contains_all packages [] = true
contains_all packages ((name, version) ∷ wanted) =
    same_version version (get name packages) && contains_all packages wanted

-- The WHERE clause of `find_smallest_superset`, for the spec's packages.
unfoldable pub is_candidate : RuntimeBuildSpec → Packages → EnvRow → Bool
is_candidate spec wanted row =
    is_ready row
    && row.base_image == spec.base_image
    && row.python_version == spec.python_version
    && row.platform == spec.platform
    && row.build_policy_version == spec.build_policy_version
    && contains_all row.packages wanted

-- ORDER BY package_count, created_at: rows that are equal in both stand in the table's order.
unfoldable pub comes_first : EnvRow → EnvRow → Bool
comes_first a b =
    ltb a.package_count b.package_count
    || (eqb a.package_count b.package_count && leb a.created_at b.created_at)

abbrev pub better : EnvRow → Option EnvRow → EnvRow
better row none = row
better row (some other) = if comes_first row other then row else other

-- ORDER BY … LIMIT 1 of the rows that pass.
unfoldable pub first_of_order : (EnvRow → Bool) → List EnvRow → Option EnvRow
first_of_order passes [] = none
first_of_order passes (row ∷ rows) =
    let rest = first_of_order passes rows in if passes row then some (better row rest) else rest

unfoldable pub find_smallest_superset :
    Digests → RuntimeBuildSpec → BuildDb → Result (Option EnvRow)
unfolding first_of_order
find_smallest_superset d spec db =
    packages_of d spec >>= λ wanted. ok (first_of_order (is_candidate spec wanted) db.environments)

-- The row that INSERT INTO build.runtime_environments writes.
abbrev pub new_env_row : Digests → RuntimeBuildSpec → ℕ → String → String → Packages → EnvRow
new_env_row d spec now env_id key packages = record {
  id = env_id;
  env_key = key;
  base_image = spec.base_image;
  python_version = spec.python_version;
  platform = spec.platform;
  build_policy_version = spec.build_policy_version;
  lock_sha256 = lock_sha256 d spec;
  requirements_lock = spec.requirements_lock;
  packages = packages;
  package_count = length packages;
  image_ref = none;
  status = env_pending;
  last_error = none;
  created_at = now;
  updated_at = now;
}

-- ON CONFLICT (env_key) DO NOTHING; an identifier that is there raises.
unfoldable pub insert_env : EnvRow → BuildDb → Result (EnvRow × BuildDb)
insert_env row db = elim (select (has_env_key row.env_key) db.environments) [
  | some existing ↦ ok (existing, db)
  | none ↦ elim (env_row db row.id) [
    | some _ ↦ unique_violation
    | none ↦ ok (row, record db { environments = row ∷ db.environments })
  ]
]

unfoldable pub get_or_create_exact :
    Digests → RuntimeBuildSpec → ℕ → String → BuildDb → Result (EnvRow × BuildDb)
unfolding insert_env
get_or_create_exact d spec now env_id db = do
  key ← env_key d spec
  packages ← packages_of d spec
  insert_env (new_env_row d spec now env_id key packages) db

abbrev pub new_alias : ℕ → String → String → ResolutionKind → AliasRow
new_alias now request_env_key env_id kind = record {
  request_env_key = request_env_key;
  env_id = env_id;
  resolution_kind = kind;
  created_at = now;
}

-- ON CONFLICT (request_env_key) DO NOTHING; `env_id` REFERENCES build.runtime_environments.
unfoldable pub bind_request : ℕ → String → String → ResolutionKind → BuildDb → Result BuildDb
bind_request now request_env_key env_id kind db = elim (alias_row db request_env_key) [
  | some _ ↦ ok db
  | none ↦ elim (env_row db env_id) [
    | none ↦ err (exception "ForeignKeyViolation")
    | some _ ↦ ok (record db { aliases = new_alias now request_env_key env_id kind ∷ db.aliases })
  ]
]

abbrev pub reset_row : ℕ → EnvRow → EnvRow
reset_row now row = record row {
  status = env_pending;
  image_ref = none;
  last_error = none;
  updated_at = now;
}

-- WHERE id = … AND status = 'FAILED' RETURNING *
unfoldable pub reset_failed : ℕ → String → BuildDb → Option EnvRow × BuildDb
reset_failed now env_id db =
    elim (select (λ row. has_env_id env_id row && is_failed row) db.environments) [
      | none ↦ (none, db)
      | some row ↦ (
        some (reset_row now row),
        record db {
          environments =
              update (λ r. has_env_id env_id r && is_failed r) (reset_row now) db.environments;
        },
      )
    ]

abbrev pub claimed_row : ℕ → EnvRow → EnvRow
claimed_row now row = record row { status = env_building; last_error = none; updated_at = now }

abbrev pub new_job : ℕ → String → String → JobRow
new_job now job_id env_id = record {
  id = job_id;
  env_id = env_id;
  status = job_building;
  error_message = none;
  created_at = now;
  started_at = some now;
  finished_at = none;
}

-- WHERE id = … AND status = 'PENDING'; the job's identifier is new, or raises.
unfoldable pub claim_build : ℕ → String → String → BuildDb → Result (Option String × BuildDb)
claim_build now job_id env_id db =
    elim (select (λ row. has_env_id env_id row && is_pending row) db.environments) [
      | none ↦ ok (none, db)
      | some row ↦ elim (job_row db job_id) [
        | some _ ↦ unique_violation
        | none ↦ ok (
          some job_id,
          record db {
            environments =
                update (λ r. has_env_id env_id r && is_pending r) (claimed_row now) db.environments;
            jobs = new_job now job_id env_id ∷ db.jobs;
          },
        )
      ]
    ]

unfoldable pub mark_verifying : ℕ → String → String → BuildDb → BuildDb
mark_verifying now env_id job_id db = record db {
  environments =
      update (has_env_id env_id) (λ row. record row { status = env_verifying; updated_at = now })
        db.environments;
  jobs = update (has_job_id job_id) (λ row. record row { status = job_verifying }) db.jobs;
}

abbrev pub ready_row : ℕ → String → EnvRow → EnvRow
ready_row now image_ref row = record row {
  status = env_ready;
  image_ref = some image_ref;
  last_error = none;
  updated_at = now;
}

-- Another environment has the image: `image_ref` is UNIQUE.
abbrev pub has_image : String → String → EnvRow → Bool
has_image image_ref env_id row =
    same_version image_ref row.image_ref && (if has_env_id env_id row then false else true)

unfoldable pub mark_ready : ℕ → String → String → String → BuildDb → Result BuildDb
mark_ready now env_id job_id image_ref db =
    if eqb (rowcount (has_env_id env_id) db.environments) 0
      || eqb (rowcount (has_image image_ref env_id) db.environments) 0
    then ok (record db {
      environments = update (has_env_id env_id) (ready_row now image_ref) db.environments;
      jobs =
          update (has_job_id job_id)
            (λ row. record row { status = job_ready; finished_at = some now }) db.jobs;
    })
    else unique_violation

-- text[-8192:], in characters: `drop_chars` is what stands behind so many characters.
unfoldable pub drop_chars : String → ℕ → String
drop_chars String.[] n = ""
drop_chars (String.◌∷◌ c s) ℕ.zero = String.◌∷◌ c s
drop_chars (String.◌∷◌ c s) (ℕ.suc n) = drop_chars s n

unfoldable pub last_chars : ℕ → String → String
unfolding drop_chars
last_chars n text = drop_chars text (count text - n)

abbrev pub failed_row : ℕ → String → EnvRow → EnvRow
failed_row now message row = record row {
  status = env_failed;
  last_error = some message;
  updated_at = now;
}

abbrev pub failed_job : ℕ → String → JobRow → JobRow
failed_job now message row = record row {
  status = job_failed;
  error_message = some message;
  finished_at = some now;
}

unfoldable pub mark_failed : ℕ → String → String → String → BuildDb → BuildDb
mark_failed now env_id job_id error_message db =
    let message = last_chars 8192 error_message in
    record db {
      environments = update (has_env_id env_id) (failed_row now message) db.environments;
      jobs = update (has_job_id job_id) (failed_job now message) db.jobs;
    }
