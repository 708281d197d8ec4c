-- ===== src/Build/Service/Answers.antt =====
-- What `BuildService` answers a request with.
use managed_python_runner_en.Prelude.{
  String, ◌≡◌, refl, eq_iff, sym, ◌∙◌, subst, true, Option, none, some, List, arith, inl, inr,
  Bool-cases, Option-cases, select-holds, select-narrow, select-update, update, ◌&&◌,
}
use managed_python_runner_en.Errors.{ok, Result-cases}
use managed_python_runner_en.Build.Lock.{Packages}
use managed_python_runner_en.Build.Model.{RuntimeBuildSpec, env_key, packages_of}
use managed_python_runner_en.Build.Rows.{
  EnvRow, exact, superset, BuildDb, env_row, alias_row, job_row, has_env_id, is_pending, is_failed,
}
use managed_python_runner_en.Build.Store.{
  Resolution, get_for_request, bind_request, get_or_create_exact, reset_failed, reset_row,
}
use managed_python_runner_en.Build.Store.Jobs.{IsBuildable}
use managed_python_runner_en.Build.Store.Sharing.{IsShared, Answers, BuildReach-IsShared}
use managed_python_runner_en.Build.Builder.{lock_requirements}
use managed_python_runner_en.Build.Service.{
  BuildService, Draws, Answer, build, resolve_existing, resolve_exact, superset_candidate,
  resolve_new, resolve_locked, spec_of_lock, resolve, retry, retry_spec,
}
use managed_python_runner_en.Build.Service.Builds.{build-bound, build-Settled}
use managed_python_runner_en.Build.Service.Endings.{Settled, Settled-update}
use managed_python_runner_en.Build.Service.Steps.{resolve-Reach}

-- What a key is bound to answers it.
get_for_request-Answers :
    (s : BuildService) (key : String) (r : Resolution) (db : BuildDb)
    → IsShared s.digests db
    → get_for_request key db ≡ some r
    → Answers s.digests key r.env
unfolding get_for_request
get_for_request-Answers s key r db v h = elim (Option-cases (alias_row db key)) [
  | inl missing ↦ absurd (ground arith)
  | inr (alias, bound) ↦
      let (row, at, it) = v.aliased key alias bound in
      let same : row ≡ r.env = ground arith in subst (Answers s.digests key) same it
]

module _ (s : BuildService) (x : Draws) (request_key : String) (spec : RuntimeBuildSpec)
    (found : Option Resolution) (after : BuildDb) where
  resolve_exact-bound :
      (db : BuildDb)
      → resolve_exact s x request_key spec db ≡ (ok found, after)
      → found ≡ get_for_request request_key after
  unfolding resolve_exact
  resolve_exact-bound db h =
      elim (Result-cases (get_or_create_exact s.digests spec x.created x.env_id db)) [
        | inr (e, created) ↦ absurd (ground arith)
        | inl ((env, mid), created) ↦
            elim (Result-cases (bind_request x.bound request_key env.id exact mid)) [
              | inr (e, bound) ↦ absurd (ground arith)
              | inl (last, bound) ↦ elim (Bool-cases (is_pending env)) [
                | inl pending ↦ build-bound s x request_key env spec found last after (ground arith)
                | inr settled ↦ ground arith
              ]
            ]
      ]

  resolve_new-bound :
      (db : BuildDb)
      → resolve_new s x request_key spec db ≡ (ok found, after)
      → found ≡ get_for_request request_key after
  unfolding resolve_new
  resolve_new-bound db h = elim (Result-cases (superset_candidate s spec db)) [
    | inr (e, looked) ↦ absurd (ground arith)
    | inl (none, looked) ↦ resolve_exact-bound db (ground arith)
    | inl (some candidate, looked) ↦
        elim (Result-cases (bind_request x.bound request_key candidate.id superset db)) [
          | inr (e, bound) ↦ absurd (ground arith)
          | inl (last, bound) ↦ ground arith
        ]
  ]

  resolve_locked-bound :
      (db : BuildDb)
      → env_key s.digests spec ≡ ok request_key
      → resolve_locked s x spec db ≡ (ok found, after)
      → found ≡ get_for_request request_key after
  unfolding resolve_locked resolve_existing
  resolve_locked-bound db k h = elim (Result-cases (packages_of s.digests spec)) [
    | inr (e, p) ↦ absurd (ground arith)
    | inl (packages, p) ↦ elim (Option-cases (get_for_request request_key db)) [
      | inl missing ↦ resolve_new-bound db (ground arith)
      | inr (existing, bound) ↦ elim (Bool-cases (is_pending existing.env)) [
        | inl pending ↦ build-bound s x request_key existing.env spec found db after (ground arith)
        | inr settled ↦ ground arith
      ]
    ]
  ]

-- On tables in step, where resolve answers with an environment, the requirements were locked, the
-- lock's spec has a key, and the environment answers that key: over the base image, the Python,
-- the platform and the policy of a spec of the key, it has all packages of that spec's lock in
-- their versions.
pub resolve-Answers :
    (s : BuildService) (x : Draws) (requirements : List String) (r : Resolution)
    (db after : BuildDb)
    → IsBuildable db
    → IsShared s.digests db
    → resolve s x requirements db ≡ (ok (some r), after)
    → (lock_text : String) × (key : String) × (lock_requirements s.tools requirements
          s.settings.python_version s.settings.uv_python_platform s.settings.uv_default_index
        ≡ ok lock_text)
      × (env_key s.digests (spec_of_lock s lock_text) ≡ ok key)
      × Answers s.digests key r.env
unfolding resolve resolve_locked
resolve-Answers s x requirements r db after v shared h =
    let reached = resolve-Reach s x requirements db v in
    let shared' : IsShared s.digests after =
      subst (λ a. IsShared s.digests a.1) h (BuildReach-IsShared reached shared) in
    elim (Result-cases (
      lock_requirements s.tools requirements s.settings.python_version s.settings.uv_python_platform
        s.settings.uv_default_index)) [
          | inr (e, locked) ↦ absurd (ground arith)
          | inl (lock_text, locked) ↦
              elim (Result-cases (env_key s.digests (spec_of_lock s lock_text))) [
                | inr (e, k) ↦ absurd (ground arith)
                | inl (key, k) ↦
                    let bound =
                      resolve_locked-bound s x key (spec_of_lock s lock_text) (some r) after db k
                        (ground arith) in
                    (
                      lock_text,
                      key,
                      locked,
                      k,
                      get_for_request-Answers s key r after shared' (sym bound),
                    )
              ]
        ]

get_for_request-row :
    (key : String) (r : Resolution) (db : BuildDb)
    → get_for_request key db ≡ some r
    → env_row db r.env.id ≡ some r.env
unfolding get_for_request
get_for_request-row key r db h = elim (Option-cases (alias_row db key)) [
  | inl missing ↦ absurd (ground arith)
  | inr (alias, bound) ↦ elim (Option-cases (env_row db alias.env_id)) [
    | inl missing ↦ absurd (ground arith)
    | inr (row, at) ↦
        let same : row ≡ r.env = ground arith in
        let named : row.id ≡ alias.env_id =
          (eq_iff _ _).0 (select-holds (has_env_id alias.env_id) db.environments row at) in
        let here : env_row db row.id ≡ some row =
          subst (λ id. env_row db id ≡ some row) (sym named) at in
        subst (λ y. env_row db y.id ≡ some y) same here
  ]
]

-- A retry of a key that is bound to a FAILED environment, under a new job identifier and for a
-- lock that parses, builds that environment again and ends with it READY, with the image that was
-- pushed, that passed verification and that no other environment has, and with no error, or FAILED
-- again for one of the reasons of a build; it returns what the key is bound to then.
pub retry-Settled :
    (s : BuildService) (x : Draws) (key : String) (r : Resolution) (packages : Packages)
    (db : BuildDb)
    → get_for_request key db ≡ some r
    → is_failed r.env ≡ true
    → job_row db x.job_id ≡ none
    → packages_of s.digests (retry_spec r.env) ≡ ok packages
    → (ended : EnvRow) × (env_row (retry s x key db).1 r.env.id ≡ some ended)
      × Settled s r.env (retry_spec r.env) packages db ended
      × ((retry s x key db).0 ≡ ok (get_for_request key (retry s x key db).1))
unfolding retry
retry-Settled s x key r packages db bound failed free p =
    let at = get_for_request-row key r db bound in
    let found = select-narrow (has_env_id r.env.id) is_failed db.environments r.env at failed in
    let env : EnvRow = reset_row x.created r.env in
    let after : BuildDb = record db {
      environments =
          update (λ y. has_env_id r.env.id y && is_failed y) (reset_row x.created) db.environments;
    } in
    let reset : reset_failed x.created r.env.id db ≡ (some env, after) =
      rw (reset_failed, found) refl in
    let own = select-holds (has_env_id r.env.id) db.environments r.env at in
    let written : env_row after env.id ≡ some env =
      select-update (has_env_id r.env.id) (λ y. has_env_id r.env.id y && is_failed y)
        (reset_row x.created) (λ y. refl) db.environments
      ∙ (rw at (ground arith)) in
    let same : retry s x key db ≡ build s x key env (retry_spec env) after = ground arith in
    subst
      (λ (a : Answer).
        (ended : EnvRow) × (env_row a.1 r.env.id ≡ some ended)
        × Settled s r.env (retry_spec r.env) packages db ended
        × (a.0 ≡ ok (get_for_request key a.1)))
      (sym same)
      (let (ended, there, settled, answered) =
          build-Settled s x key env env (retry_spec env) packages after written refl free p in
        (
          ended,
          there,
          Settled-update s r.env (retry_spec r.env) packages
              (λ y. has_env_id r.env.id y && is_failed y) (reset_row x.created) ended db after
              (λ y h. ground arith) (λ y h. ground arith) refl settled,
          answered,
        ))
