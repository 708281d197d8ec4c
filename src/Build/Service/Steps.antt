-- ===== src/Build/Service/Steps.antt =====
-- Every call of `BuildService` is a history of the store's steps.
use Prim.Native.String.{◌++◌}
use managed_python_runner_en.Prelude.{
  ℕ, String, ◌≡◌, refl, ◌∙◌, subst, ◌&&◌, none, some, List, arith, eq_iff, eq_self, inl, inr,
  Bool-cases, Option-cases, select, select-update, select-holds, select-Mem, select-only,
}
use managed_python_runner_en.Errors.{ok, Result-cases}
use managed_python_runner_en.Build.Lock.{Packages}
use managed_python_runner_en.Build.Model.{RuntimeBuildSpec, env_key, packages_of}
use managed_python_runner_en.Build.Rows.{
  EnvRow, job_verifying, exact, superset, BuildDb, has_env_id, has_env_key, has_job_id, env_row,
  job_row, is_pending, is_failed,
}
use managed_python_runner_en.Build.Store.{
  get_for_request, find_smallest_superset, get_or_create_exact, bind_request, reset_failed,
  claim_build, mark_verifying, mark_ready, insert_env, new_job, new_env_row,
}
use managed_python_runner_en.Build.Store.Jobs.{IsBuildable, Works}
use managed_python_runner_en.Build.Store.Superset.{find_smallest_superset-Chosen}
use managed_python_runner_en.Build.Store.Steps.{
  creates, binds_exact, binds_superset, resets, claims, verifies, readies, fails, BuildReach, start,
  next, BuildReach-trans, get_or_create_exact-ok,
}
use managed_python_runner_en.Build.Builder.{
  build_runtime_image, verify_runtime_image, lock_requirements,
}
use managed_python_runner_en.Build.Service.{
  BuildService, Draws, described, retry_spec, build_and_verify, run_build, build, resolve_existing,
  resolve_exact, superset_candidate, resolve_new, resolve_locked, spec_of_lock, resolve, retry,
}

-- Who has claimed an environment works on it.
pub claim_build-Works :
    (now : ℕ) (job_id env_id claimed : String) (db after : BuildDb)
    → claim_build now job_id env_id db ≡ ok (some claimed, after)
    → Works after env_id claimed
unfolding claim_build select
claim_build-Works now job_id env_id claimed db after h =
    elim (Option-cases (select (λ row. has_env_id env_id row && is_pending row) db.environments)) [
      | inl e ↦ absurd (ground arith)
      | inr (row, e) ↦ elim (Option-cases (job_row db job_id)) [
        | inr (job, at) ↦ absurd (ground arith)
        | inl free ↦
            let same : job_id ≡ claimed = ground arith in
            subst (Works after env_id) same
              (new_job now job_id env_id, ground (arith, eq_self job_id), refl, refl)
      ]
    ]

pub mark_verifying-Works :
    (now : ℕ) (env_id job_id : String) (db : BuildDb)
    → Works db env_id job_id
    → Works (mark_verifying now env_id job_id db) env_id job_id
unfolding mark_verifying
mark_verifying-Works now env_id job_id db (job, at, of, open') = (
  record job { status = job_verifying },
  (select-update (has_job_id job_id) (has_job_id job_id)
        (λ row. record row { status = job_verifying }) (λ r. refl) db.jobs
      ∙ (rw at (ground (arith, select-holds (has_job_id job_id) db.jobs job at)))),
  of,
  refl,
)

module _ (s : BuildService) (x : Draws) where
  run_build-Reach :
      (env : EnvRow) (job_id : String) (spec : RuntimeBuildSpec) (packages : Packages)
      (db : BuildDb)
      → Works db env.id job_id
      → BuildReach s.digests db (run_build s x env job_id spec packages db)
  unfolding run_build build_and_verify
  run_build-Reach env job_id spec packages db works =
      let after = run_build s x env job_id spec packages db in
      elim (Result-cases
        (build_runtime_image s.tools spec s.settings.registry_repo ("env-" ++ env.id))) [
          | inr (e, built) ↦
              next start (fails x.ended env.id job_id (described e) works (ground arith))
          | inl (image_ref, built) ↦
              let db' = mark_verifying x.verifying env.id job_id db in
              let works' = mark_verifying-Works x.verifying env.id job_id db works in
              let first : BuildReach s.digests db db' =
                next start (verifies x.verifying env.id job_id works refl) in
              elim (Result-cases (verify_runtime_image s.tools image_ref packages)) [
                | inr (e, verified) ↦
                    next first (fails x.ended env.id job_id (described e) works' (ground arith))
                | inl (done, verified) ↦
                    elim (Result-cases (mark_ready x.ended env.id job_id image_ref db')) [
                      | inr (e, marked) ↦
                          next first
                            (fails x.ended env.id job_id (described e) works' (ground arith))
                      | inl (ready, marked) ↦
                          next first (readies x.ended env.id job_id image_ref works' (ground arith))
                    ]
              ]
        ]

  build-Reach :
      (request_key : String) (env : EnvRow) (spec : RuntimeBuildSpec) (db : BuildDb)
      → BuildReach s.digests db (build s x request_key env spec db).1
  unfolding build
  build-Reach request_key env spec db =
      elim (Result-cases (claim_build x.claimed x.job_id env.id db)) [
        | inr (e, claim) ↦ rw (build, claim) start
        | inl ((none, after), claim) ↦
            rw (build, claim) (next start (claims x.claimed x.job_id env.id none claim))
        | inl ((some job_id, after), claim) ↦
            let first : BuildReach s.digests db after =
              next start (claims x.claimed x.job_id env.id (some job_id) claim) in
            elim (Result-cases (packages_of s.digests spec)) [
              | inr (e, p) ↦ rw (build, claim, p) first
              | inl (packages, p) ↦
                  rw (build, claim, p)
                    (BuildReach-trans first (
                      run_build-Reach env job_id spec packages after
                        (claim_build-Works x.claimed x.job_id env.id job_id db after claim)))
            ]
      ]

-- What `get_or_create_exact` returns is in the table, under the key.
created-row :
    (new row : EnvRow) (db after : BuildDb)
    → IsBuildable db
    → insert_env new db ≡ ok (row, after)
    → (env_row after row.id ≡ some row) × (row.env_key ≡ new.env_key)
unfolding insert_env select
created-row new row db after v h =
    elim (Option-cases (select (has_env_key new.env_key) db.environments)) [
      | inr (old, e) ↦
          let named =
            (eq_iff old.env_key new.env_key).0
              (select-holds (has_env_key new.env_key) db.environments old e) in
          let found : env_row db old.id ≡ some old =
            select-only (has_env_id old.id) db.environments old
              (select-Mem (has_env_key new.env_key) db.environments old e) (eq_self old.id)
              (v.env_unique old.id) in
          let same : old ≡ row = ground arith in
          let kept : db ≡ after = ground arith in
          (
            subst (λ x. env_row after x.id ≡ some x) same
                (subst (λ x. env_row x old.id ≡ some old) kept found),
            ground arith,
          )
      | inl absent ↦ elim (Option-cases (env_row db new.id)) [
        | inr (old, e) ↦ absurd (ground arith)
        | inl free ↦
            (let same : new ≡ row = ground arith in
              (ground (arith, eq_self new.id, eq_self row.id), ground arith))
      ]
    ]

module _ (s : BuildService) (x : Draws) where
  resolve_exact-Reach :
      (request_key : String) (spec : RuntimeBuildSpec) (db : BuildDb)
      → IsBuildable db
      → env_key s.digests spec ≡ ok request_key
      → BuildReach s.digests db (resolve_exact s x request_key spec db).1
  unfolding resolve_exact
  resolve_exact-Reach request_key spec db v k =
      elim (Result-cases (get_or_create_exact s.digests spec x.created x.env_id db)) [
        | inr (e, created) ↦ rw (resolve_exact, created) start
        | inl ((env, mid), created) ↦
            let first : BuildReach s.digests db mid =
              next start (creates spec x.created x.env_id env created) in
            let (key, packages, k', p, inserted) =
              get_or_create_exact-ok s.digests spec x.created x.env_id env db mid created in
            let (at, named) =
              created-row (new_env_row s.digests spec x.created x.env_id key packages) env db mid v
                inserted in
            let own : env.env_key ≡ request_key = ground arith in
            elim (Result-cases (bind_request x.bound request_key env.id exact mid)) [
              | inr (e, bound) ↦ rw (resolve_exact, created, bound) first
              | inl (after, bound) ↦
                  let bound' : bind_request x.bound env.env_key env.id exact mid ≡ ok after =
                    rw own bound in
                  let second : BuildReach s.digests db after =
                    next first (binds_exact x.bound env at bound') in
                  elim (Bool-cases (is_pending env)) [
                    | inl pending ↦
                        rw (resolve_exact, created, bound, pending)
                          (BuildReach-trans second (build-Reach s x request_key env spec after))
                    | inr settled ↦ rw (resolve_exact, created, bound, settled) second
                  ]
            ]
      ]

  resolve_new-Reach :
      (request_key : String) (spec : RuntimeBuildSpec) (packages : Packages) (db : BuildDb)
      → IsBuildable db
      → env_key s.digests spec ≡ ok request_key
      → packages_of s.digests spec ≡ ok packages
      → BuildReach s.digests db (resolve_new s x request_key spec db).1
  unfolding resolve_new superset_candidate
  resolve_new-Reach request_key spec packages db v k p =
      elim (Result-cases (superset_candidate s spec db)) [
        | inr (e, found) ↦ rw (resolve_new, found) start
        | inl (none, found) ↦ rw (resolve_new, found) (resolve_exact-Reach request_key spec db v k)
        | inl (some candidate, found) ↦
            let looked : find_smallest_superset s.digests spec db ≡ ok (some candidate) =
              ground arith in
            let (m, passes, _) =
              find_smallest_superset-Chosen s.digests spec packages db (some candidate) p looked in
            let at : env_row db candidate.id ≡ some candidate =
              select-only (has_env_id candidate.id) db.environments candidate m
                (eq_self candidate.id) (v.env_unique candidate.id) in
            elim (Result-cases (bind_request x.bound request_key candidate.id superset db)) [
              | inr (e, bound) ↦ rw (resolve_new, found, bound) start
              | inl (after, bound) ↦
                  rw (resolve_new, found, bound)
                    (next start (
                      binds_superset x.bound spec packages request_key candidate at k p passes
                        bound))
            ]
      ]

  resolve_locked-Reach :
      (spec : RuntimeBuildSpec) (db : BuildDb)
      → IsBuildable db
      → BuildReach s.digests db (resolve_locked s x spec db).1
  unfolding resolve_locked resolve_existing
  resolve_locked-Reach spec db v = elim (Result-cases (env_key s.digests spec)) [
    | inr (e, k) ↦ rw (resolve_locked, k) start
    | inl (key, k) ↦ elim (Result-cases (packages_of s.digests spec)) [
      | inr (e, p) ↦ rw (resolve_locked, k, p) start
      | inl (packages, p) ↦ elim (Option-cases (get_for_request key db)) [
        | inl missing ↦
            rw (resolve_locked, k, p, missing) (resolve_new-Reach key spec packages db v k p)
        | inr (existing, found) ↦ elim (Bool-cases (is_pending existing.env)) [
          | inl pending ↦
              rw (resolve_locked, k, p, found, resolve_existing, pending)
                (build-Reach s x key existing.env spec db)
          | inr settled ↦ rw (resolve_locked, k, p, found, resolve_existing, settled) start
        ]
      ]
    ]
  ]

  -- On tables in step, a call of resolve, however it ends, is a history of the steps of the
  -- store's specification: a request is bound to an environment of its own key or to a candidate
  -- for its spec, and who marks an environment has its open job.
  pub resolve-Reach :
      (requirements : List String) (db : BuildDb)
      → IsBuildable db
      → BuildReach s.digests db (resolve s x requirements db).1
  unfolding resolve
  resolve-Reach requirements db v =
      elim (Result-cases (
        lock_requirements s.tools requirements s.settings.python_version
          s.settings.uv_python_platform s.settings.uv_default_index)) [
            | inr (e, locked) ↦ rw (resolve, locked) start
            | inl (lock_text, locked) ↦
                rw (resolve, locked) (resolve_locked-Reach (spec_of_lock s lock_text) db v)
          ]

  pub retry-Reach :
      (request_env_key : String) (db : BuildDb)
      → BuildReach s.digests db (retry s x request_env_key db).1
  unfolding retry
  retry-Reach request_env_key db = elim (Option-cases (get_for_request request_env_key db)) [
    | inl missing ↦ rw (retry, missing) start
    | inr (existing, found) ↦ elim (Bool-cases (is_failed existing.env)) [
      | inr other ↦ rw (retry, found, other) start
      | inl failed ↦
          let (reset, after) = reset_failed x.created existing.env.id db in
          let first : BuildReach s.digests db after =
            next start (resets x.created existing.env.id refl) in
          elim (Option-cases reset) [
            | inl lost ↦ rw (retry, found, failed, lost) first
            | inr (env, won) ↦
                rw (retry, found, failed, won)
                  (BuildReach-trans first
                    (build-Reach s x request_env_key env (retry_spec env) after))
          ]
    ]
  ]
