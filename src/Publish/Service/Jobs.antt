-- ===== src/Publish/Service/Jobs.antt =====
-- How a call of `publish_backend` ends.
use Prim.Native.String.{◌++◌}
use managed_python_runner_en.Prelude.{
  String, ◌≡◌, refl, sym, ◌∙◌, subst, false, Option, none, some, List, arith, ◌==◌, eq_self, ◌⊎◌,
  inl, inr, Option-cases, Dict, select, update, select-update, select-holds,
}
use managed_python_runner_en.Errors.{Result, ok, err, Error, Result-cases}
use managed_python_runner_en.Build.Rows.{env_ready}
use managed_python_runner_en.Build.App.{EnvironmentBody}
use managed_python_runner_en.Build.Store.{last_chars}
use managed_python_runner_en.Build.Service.{described}
use managed_python_runner_en.Publish.Rows.{
  VariantRow, PublishJobRow, publish_running, publish_ready, publish_failed, PublishDb,
  has_variant_id, has_publish_job_id, variant_row, variant_published,
}
use managed_python_runner_en.Publish.Store.{
  upsert_variant, create_publish_job, mark_job_running, published_row, ready_job, mark_job_ready,
  failed_publish_job, mark_job_failed,
}
use managed_python_runner_en.Publish.Store.Steps.{
  PublishReach, start, next, PublishReach-trans, upserts, creates_job, runs, readies, fails,
}
use managed_python_runner_en.Publish.Backends.{RunnerBackendContract}
use managed_python_runner_en.Publish.Service.{
  PublishService, PublishDraws, PublishReply, PublishResult, Parent, Child, load_current_parent,
  compile_child, compile_backend, publish_child, run_publish, publish_backend, runtime_image,
  not_ready, publish_runner,
}

abbrev pub publish_job_row : PublishDb → String → Option PublishJobRow
publish_job_row db job_id = select (has_publish_job_id job_id) db.publish_jobs

-- The job is READY and the variant PUBLISHED, both with the artifact of the reply; or the job is
-- FAILED with the text of the exception.
abbrev pub JobEnded : Result PublishReply → String → String → PublishDb → Type 0
JobEnded outcome job_id variant_id after =
    ((reply : PublishReply) × (job : PublishJobRow) × (variant : VariantRow) × (outcome ≡ ok reply)
      × (publish_job_row after job_id ≡ some job)
      × (job.status ≡ publish_ready)
      × (job.artifact_ref ≡ some reply.artifact_ref)
      × (variant_row after variant_id ≡ some variant)
      × (variant.status ≡ variant_published)
      × (variant.published_ref ≡ some reply.artifact_ref))
    ⊎ ((e : Error) × (job : PublishJobRow) × (outcome ≡ err e)
        × (publish_job_row after job_id ≡ some job)
        × (job.status ≡ publish_failed)
        × (job.error_message ≡ some (last_chars 8192 (described e))))

job-update :
    (db : PublishDb) (job_id : String) (f : PublishJobRow → PublishJobRow) (job : PublishJobRow)
    → ((r : PublishJobRow) → (f r).id ≡ r.id)
    → publish_job_row db job_id ≡ some job
    → select (has_publish_job_id job_id) (update (has_publish_job_id job_id) f db.publish_jobs)
      ≡ some (f job)
job-update db job_id f job same at =
    select-update (has_publish_job_id job_id) (has_publish_job_id job_id) f (λ r. rw (same r))
      db.publish_jobs
    ∙ (rw at (ground (arith, select-holds (has_publish_job_id job_id) db.publish_jobs job at)))

variant-update :
    (db : PublishDb) (variant_id : String) (f : VariantRow → VariantRow) (row : VariantRow)
    → ((r : VariantRow) → (f r).id ≡ r.id)
    → variant_row db variant_id ≡ some row
    → select (has_variant_id variant_id) (update (has_variant_id variant_id) f db.variants)
      ≡ some (f row)
variant-update db variant_id f row same at =
    select-update (has_variant_id variant_id) (has_variant_id variant_id) f (λ r. rw (same r))
      db.variants
    ∙ (rw at (ground (arith, select-holds (has_variant_id variant_id) db.variants row at)))

module _ (s : PublishService) (x : PublishDraws) (backend : String) where
  run_publish-JobEnded :
      (job_id variant_id : String) (child : Child) (p : Parent) (job : PublishJobRow)
      (variant : VariantRow) (db : PublishDb)
      → publish_job_row db job_id ≡ some job
      → variant_row db variant_id ≡ some variant
      → JobEnded
          (run_publish s x backend job_id variant_id child p db).0
          job_id
          variant_id
          (run_publish s x backend job_id variant_id child p db).1
  unfolding run_publish mark_job_ready mark_job_failed
  run_publish-JobEnded job_id variant_id child p job variant db at found =
      elim (Result-cases (publish_child s child.contract p)) [
        | inr (e, k) ↦
            let message = last_chars 8192 (described e) in
            rw (run_publish, k)
              (inr (
                e,
                failed_publish_job x.ended message job,
                refl,
                job-update db job_id (failed_publish_job x.ended message) job (λ r. refl) at,
                refl,
                refl,
              ))
        | inl ((result, artifact_ref), k) ↦
            let json = s.result_json result in
            rw (run_publish, k)
              (inl (
                record {
                  job_id = job_id;
                  backend = backend;
                  artifact_ref = artifact_ref;
                  result = result;
                },
                ready_job x.ended artifact_ref json job,
                published_row x.ended artifact_ref json variant,
                refl,
                job-update db job_id (ready_job x.ended artifact_ref json) job (λ r. refl) at,
                refl,
                refl,
                variant-update db variant_id (published_row x.ended artifact_ref json) variant
                    (λ r. refl) found,
                refl,
                refl,
              ))
      ]

  -- Once a publication has its variant and its job, it ends: with a reply, the job READY and the
  -- variant PUBLISHED, both with the reply's artifact; or with an exception, and the job FAILED
  -- with the last 8192 characters of the exception's text.
  pub publish_backend-JobEnded :
      (operator_id : String) (options : Dict String String) (variant : VariantRow) (child : Child)
      (p : Parent) (job : PublishJobRow) (db mid ready : PublishDb)
      → compile_backend s x operator_id backend options db ≡ ok ((variant, child, p), mid)
      → create_publish_job x.created x.job_id variant.id mid ≡ ok (job, ready)
      → JobEnded
          (publish_backend s x operator_id backend options db).0
          x.job_id
          variant.id
          (publish_backend s x operator_id backend options db).1
  unfolding publish_backend create_publish_job mark_job_running
  publish_backend-JobEnded operator_id options variant child p job db mid ready compiled created =
      elim (Option-cases (variant_row mid variant.id)) [
        | inl e ↦ absurd (ground arith)
        | inr (row, e) ↦
            let named : job.id ≡ x.job_id = ground arith in
            let kept : variant_row ready variant.id ≡ some row = ground arith in
            let made : publish_job_row ready x.job_id ≡ some job =
              unfold select in ground (arith, eq_self x.job_id) in
            let running = mark_job_running x.started x.job_id ready in
            let at =
              job-update ready x.job_id
                (λ r. record r { status = publish_running; started_at = some x.started }) job
                (λ r. refl) made in
            let same : publish_backend s x operator_id backend options db
                ≡ run_publish s x backend x.job_id variant.id child p running =
              ground arith in
            subst (λ a. JobEnded a.0 x.job_id variant.id a.1) (sym same)
              (run_publish-JobEnded x.job_id variant.id child p
                (record job { status = publish_running; started_at = some x.started }) row running
                at kept)
      ]

  run_publish-Reach :
      (job_id variant_id : String) (child : Child) (p : Parent) (db : PublishDb)
      → PublishReach s.rendering.contract_sha256 db
          (run_publish s x backend job_id variant_id child p db).1
  unfolding run_publish
  run_publish-Reach job_id variant_id child p db =
      elim (Result-cases (publish_child s child.contract p)) [
        | inr (e, k) ↦
            rw (run_publish, k) (next start (fails x.ended job_id variant_id (described e) refl))
        | inl ((result, artifact_ref), k) ↦
            rw (run_publish, k)
              (next start
                (readies x.ended job_id variant_id artifact_ref (s.result_json result) refl))
      ]

  compile_backend-Reach :
      (operator_id : String) (options : Dict String String) (variant : VariantRow) (child : Child)
      (p : Parent) (db mid : PublishDb)
      → compile_backend s x operator_id backend options db ≡ ok ((variant, child, p), mid)
      → PublishReach s.rendering.contract_sha256 db mid
  unfolding compile_backend
  compile_backend-Reach operator_id options variant child p db mid h =
      elim (Result-cases (load_current_parent s operator_id db)) [
        | inr (e, k) ↦ absurd (ground arith)
        | inl (parent, k) ↦ elim (Result-cases (compile_child s parent backend options)) [
          | inr (e, k') ↦ absurd (ground arith)
          | inl (made, k') ↦
              elim (Result-cases (upsert_variant x.upserted x.variant_id made.compiled db)) [
                | inr (e, u) ↦ absurd (ground arith)
                | inl ((row, after), u) ↦
                    (let same : after ≡ mid = ground arith in
                      subst (λ a. PublishReach s.rendering.contract_sha256 db a) same
                        (next start (upserts x.upserted x.variant_id made.compiled row u)))
              ]
        ]
      ]

  -- A call of publish_backend, however it ends, is a history of the steps of the store's
  -- specification.
  pub publish_backend-Reach :
      (operator_id : String) (options : Dict String String) (db : PublishDb)
      → PublishReach s.rendering.contract_sha256 db
          (publish_backend s x operator_id backend options db).1
  unfolding publish_backend
  publish_backend-Reach operator_id options db =
      elim (Result-cases (compile_backend s x operator_id backend options db)) [
        | inr (e, k) ↦ rw (publish_backend, k) start
        | inl (((variant, child, p), mid), k) ↦
            let first = compile_backend-Reach operator_id options variant child p db mid k in
            elim (Result-cases (create_publish_job x.created x.job_id variant.id mid)) [
              | inr (e, c) ↦ rw (publish_backend, k, c) first
              | inl ((job, ready), c) ↦
                  let second = next first (creates_job x.created x.job_id variant.id job c) in
                  let third = next second (runs x.started job.id refl) in
                  rw (publish_backend, k, c)
                    (PublishReach-trans third (
                      run_publish-Reach job.id variant.id child p
                        (mark_job_running x.started job.id ready)))
            ]
      ]

runtime_image_ready :
    (runtime : EnvironmentBody) (image : String) (found : EnvironmentBody)
    → runtime_image (some runtime) ≡ ok (image, found)
    → (runtime.status ≡ env_ready) × (runtime.image ≡ some image) × ((image == "") ≡ false)
unfolding runtime_image not_ready
runtime_image_ready runtime image found h = elim (Option-cases runtime.image) [
  | inl e ↦ absurd (ground arith)
  | inr (i, e) ↦ ground arith
]

-- A runner's release that is published was made of the image, which is not empty, of an
-- environment that the build service answered as READY for the source's requirements.
pub publish_runner_ready :
    (s : PublishService) (child : RunnerBackendContract) (p : Parent) (result : PublishResult)
    (artifact_ref : String)
    → publish_runner s child p ≡ ok (result, artifact_ref)
    → (requirements : List String) × (runtime : EnvironmentBody) × (image release_id : String)
      × (s.read_requirements p.source_path ≡ ok requirements)
      × (s.resolve_runtime requirements ≡ ok (some runtime))
      × (runtime.status ≡ env_ready)
      × (runtime.image ≡ some image)
      × ((image == "") ≡ false)
      × (s.publish_release p.source_path child p.plan image ≡ ok release_id)
      × (artifact_ref ≡ "runner-release:" ++ release_id)
unfolding publish_runner
publish_runner_ready s child p result artifact_ref h =
    elim (Result-cases (s.read_requirements p.source_path)) [
      | inr (e, k) ↦ absurd (ground arith)
      | inl (requirements, k) ↦ elim (Result-cases (s.resolve_runtime requirements)) [
        | inr (e, r) ↦ absurd (ground arith)
        | inl (none, r) ↦ absurd (unfold runtime_image in ground arith)
        | inl (some runtime, r) ↦ elim (Result-cases (runtime_image (some runtime))) [
          | inr (e, i) ↦ absurd (ground arith)
          | inl ((image, found), i) ↦
              elim (Result-cases (s.publish_release p.source_path child p.plan image)) [
                | inr (e, r') ↦ absurd (ground arith)
                | inl (release_id, r') ↦
                    let (ready, imaged, filled) = runtime_image_ready runtime image found i in
                    (
                      requirements,
                      runtime,
                      image,
                      release_id,
                      k,
                      r,
                      ready,
                      imaged,
                      filled,
                      r',
                      ground arith,
                    )
              ]
        ]
      ]
    ]
