-- ===== src/Build/Service/Builds.antt =====
-- A build ends READY or FAILED, and answers with what the request is bound to then.
use Prim.Native.String.{◌++◌}
use managed_python_runner_en.Prelude.{
  ℕ, ◌≤◌, String, ◌≡◌, refl, ◌∙◌, subst, true, ◌&&◌, Option, none, some, ◌∷◌, arith, inl, inr,
  select, update, rowcount, select-update, select-holds, select-narrow, rowcount-found,
}
use managed_python_runner_en.Errors.{ok, err, Error, Result-cases}
use managed_python_runner_en.State.Rows.{unique_violation}
use managed_python_runner_en.Build.Lock.{Packages}
use managed_python_runner_en.Build.Model.{RuntimeBuildSpec, packages_of}
use managed_python_runner_en.Build.Rows.{
  EnvRow, env_verifying, BuildDb, has_env_id, env_row, job_row, is_pending,
}
use managed_python_runner_en.Build.Store.{
  Resolution, get_for_request, claim_build, claimed_row, new_job, mark_verifying, mark_ready,
  ready_row, has_image, mark_failed, failed_row, last_chars,
}
use managed_python_runner_en.Build.Builder.{build_runtime_image, verify_runtime_image}
use managed_python_runner_en.Build.Service.{
  BuildService, Draws, described, build_and_verify, run_build, build,
}
use managed_python_runner_en.Build.Service.Endings.{
  IsTaken, Fails, Settled, has_image-image, IsTaken-update, IsTaken-update_other, verifying-IsTaken,
  verifying-IsTaken_other, mark_ready-free,
}

-- The row that an UPDATE by the identifier leaves.
env_row-update :
    (db : BuildDb) (env_id : String) (f : EnvRow → EnvRow) (row : EnvRow)
    → ((r : EnvRow) → (f r).id ≡ r.id)
    → env_row db env_id ≡ some row
    → select (has_env_id env_id) (update (has_env_id env_id) f db.environments) ≡ some (f row)
env_row-update db env_id f row same at =
    select-update (has_env_id env_id) (has_env_id env_id) f (λ r. rw (same r)) db.environments
    ∙ (rw at (ground (arith, select-holds (has_env_id env_id) db.environments row at)))

module _ (s : BuildService) (env : EnvRow) (spec : RuntimeBuildSpec) (packages : Packages) where
  module _ (x : Draws) (job_id : String) (start : BuildDb) where
    failed-Settled :
        (db : BuildDb) (row : EnvRow) (e : Error)
        → env_row db env.id ≡ some row
        → Fails s env spec packages start e
        → (ended : EnvRow) × (env_row (mark_failed x.ended env.id job_id (described e) db) env.id
            ≡ some ended)
          × Settled s env spec packages start ended
    unfolding mark_failed
    failed-Settled db row e at why =
        let message = last_chars 8192 (described e) in
        (
          failed_row x.ended message row,
          env_row-update db env.id (failed_row x.ended message) row (λ r. refl) at,
          inr (e, why, refl, refl),
        )

    mark_ready-violation :
        (db : BuildDb) (image_ref : String) (e : Error)
        → mark_ready x.ended env.id job_id image_ref db ≡ err e
        → IsTaken s env spec packages image_ref db × (unique_violation {A = Unit {0}} ≡ err e)
    unfolding mark_ready
    mark_ready-violation db image_ref e h =
        let counted : 1 ≤ rowcount (has_image image_ref env.id) db.environments = ground arith in
        let (other, m, passes) =
          rowcount-found (has_image image_ref env.id) db.environments counted in
        ((other, m, ground arith, has_image-image image_ref env.id other passes), ground arith)

    run_build-Settled :
        (db : BuildDb) (row : EnvRow)
        → env_row db env.id ≡ some row
        → ((image_ref : String)
            → IsTaken s env spec packages image_ref db
            → IsTaken s env spec packages image_ref start)
        → ((image_ref : String)
            → IsTaken s env spec packages image_ref start
            → IsTaken s env spec packages image_ref db)
        → (ended : EnvRow) × (env_row (run_build s x env job_id spec packages db) env.id
            ≡ some ended)
          × Settled s env spec packages start ended
    unfolding run_build build_and_verify
    run_build-Settled db row at taken untaken =
        let after = run_build s x env job_id spec packages db in
        let ends = λ (d : BuildDb).
          (ended : EnvRow) × (env_row d env.id ≡ some ended)
          × Settled s env spec packages start ended in
        elim (Result-cases
          (build_runtime_image s.tools spec s.settings.registry_repo ("env-" ++ env.id))) [
            | inr (e, built) ↦
                (let same : mark_failed x.ended env.id job_id (described e) db ≡ after =
                    ground arith in
                  subst ends same (failed-Settled db row e at (inl built)))
            | inl (image_ref, built) ↦
                let db' = mark_verifying x.verifying env.id job_id db in
                let row' : EnvRow = record row {
                  status = env_verifying;
                  updated_at = x.verifying;
                } in
                let at' : env_row db' env.id ≡ some row' =
                  unfold mark_verifying in
                  env_row-update db env.id
                    (λ r. record r { status = env_verifying; updated_at = x.verifying }) row
                    (λ r. refl) at in
                let violated : (image : String) (e : Error)
                    → mark_ready x.ended env.id job_id image db' ≡ err e
                    → IsTaken s env spec packages image start
                      × (unique_violation {A = Unit {0}} ≡ err e) =
                  λ image e marked.
                    let (found, raised) = mark_ready-violation db' image e marked in
                    (
                      taken image (verifying-IsTaken s env spec packages x job_id image db found),
                      raised,
                    ) in
                elim (Result-cases (verify_runtime_image s.tools image_ref packages)) [
                  | inr (e, verified) ↦
                      (let same : mark_failed x.ended env.id job_id (described e) db' ≡ after =
                          ground arith in
                        subst ends same
                          (failed-Settled db' row' e at' (inr (image_ref, built, inl verified))))
                  | inl (done, verified) ↦
                      elim (Result-cases (mark_ready x.ended env.id job_id image_ref db')) [
                        | inr (e, marked) ↦
                            (let same : mark_failed x.ended env.id job_id (described e) db'
                                  ≡ after =
                                ground arith in
                              subst ends same (
                                failed-Settled db' row' e at' (
                                  inr (
                                    image_ref,
                                    built,
                                    inr (
                                        let (other, raised) = violated image_ref e marked in
                                        (verified, other, raised)),
                                  ))))
                        | inl (ready, marked) ↦
                            (let same : ready ≡ after = ground arith in
                              let written : env_row ready env.id
                                  ≡ some (ready_row x.ended image_ref row') =
                                unfold mark_ready in
                                (let updated : ready.environments
                                      ≡ update (has_env_id env.id) (ready_row x.ended image_ref)
                                          db'.environments =
                                    ground arith in
                                  rw updated (
                                    env_row-update db' env.id (ready_row x.ended image_ref) row'
                                      (λ r. refl) at')) in
                              subst ends same (
                                ready_row x.ended image_ref row',
                                written,
                                inl (
                                  image_ref,
                                  built,
                                  verified,
                                  λ other.
                                      mark_ready-free s env spec packages x job_id image_ref row'
                                        db' ready at' marked
                                        (verifying-IsTaken_other s env spec packages x job_id
                                          image_ref db (untaken image_ref other)),
                                  refl,
                                  refl,
                                  refl,
                                ),
                              ))
                      ]
                ]
          ]

claim_build-won :
    (now : ℕ) (job_id env_id : String) (row : EnvRow) (db : BuildDb)
    → env_row db env_id ≡ some row
    → is_pending row ≡ true
    → job_row db job_id ≡ none
    → (after : BuildDb) × (claim_build now job_id env_id db ≡ ok (some job_id, after))
      × (env_row after env_id ≡ some (claimed_row now row))
      × (after.environments
          ≡ update (λ r. has_env_id env_id r && is_pending r) (claimed_row now) db.environments)
unfolding claim_build
claim_build-won now job_id env_id row db at pending free =
    let found = select-narrow (has_env_id env_id) is_pending db.environments row at pending in
    let own = select-holds (has_env_id env_id) db.environments row at in
    (
      record db {
        environments =
            update (λ r. has_env_id env_id r && is_pending r) (claimed_row now) db.environments;
        jobs = new_job now job_id env_id ∷ db.jobs;
      },
      (rw (claim_build, found, free) refl),
      (select-update (has_env_id env_id) (λ r. has_env_id env_id r && is_pending r)
            (claimed_row now) (λ r. refl) db.environments
          ∙ (rw at (ground arith))),
      refl,
    )

module _ (s : BuildService) (x : Draws) where
  -- A build of a PENDING environment under a new job identifier, for a lock that parses, ends with
  -- the environment READY, with the image that was pushed, that passed verification and that no
  -- other environment of the tables before has, and with no error, or FAILED, with the last 8192
  -- characters of the text of the exception of the push, of the verification, or of the violated
  -- uniqueness of an image that passed verification and that another environment of the tables
  -- before has; it returns what the key is bound to then.
  pub build-Settled :
      (request_key : String) (env row : EnvRow) (spec : RuntimeBuildSpec) (packages : Packages)
      (db : BuildDb)
      → env_row db env.id ≡ some row
      → is_pending row ≡ true
      → job_row db x.job_id ≡ none
      → packages_of s.digests spec ≡ ok packages
      → (ended : EnvRow) × (env_row (build s x request_key env spec db).1 env.id ≡ some ended)
        × Settled s env spec packages db ended
        × ((build s x request_key env spec db).0
            ≡ ok (get_for_request request_key (build s x request_key env spec db).1))
  unfolding build
  build-Settled request_key env row spec packages db at pending free p =
      let (claimed, claim, written, same) =
        claim_build-won x.claimed x.job_id env.id row db at pending free in
      let (ended, there, settled) =
        run_build-Settled s env spec packages x x.job_id db claimed (claimed_row x.claimed row)
          written
          (λ image_ref.
            IsTaken-update s env spec packages (λ r. has_env_id env.id r && is_pending r)
              (claimed_row x.claimed) image_ref db claimed (λ r h. ground arith) same)
          (λ image_ref.
            IsTaken-update_other s env spec packages (λ r. has_env_id env.id r && is_pending r)
              (claimed_row x.claimed) image_ref db claimed (λ r h. ground arith) same) in
      (ended, rw (build, claim, p) there, settled, rw (build, claim, p) refl)

-- What a build returns is what the key is bound to after it.
pub build-bound :
    (s : BuildService) (x : Draws) (request_key : String) (env : EnvRow) (spec : RuntimeBuildSpec)
    (found : Option Resolution) (db after : BuildDb)
    → build s x request_key env spec db ≡ (ok found, after)
    → found ≡ get_for_request request_key after
unfolding build
build-bound s x request_key env spec found db after h =
    elim (Result-cases (claim_build x.claimed x.job_id env.id db)) [
      | inr (e, claim) ↦ absurd (ground arith)
      | inl ((none, mid), claim) ↦ ground arith
      | inl ((some job_id, mid), claim) ↦ elim (Result-cases (packages_of s.digests spec)) [
        | inr (e, p) ↦ absurd (ground arith)
        | inl (packages, p) ↦ ground arith
      ]
    ]
