-- ===== src/Build/Store/Steps.antt =====
-- Any history of the calls that `BuildService` makes, by any number of processes.
use managed_python_runner_en.Prelude.{
  ℕ, String, ◌≡◌, refl, sym, ◌∙◌, ap, Bool, true, false, ◌&&◌, Option, some, arith, ◌==◌, eq_iff,
  inl, inr, Bool-cases, Option-cases, select, update, rowcount, select-update, select-holds,
}
use managed_python_runner_en.Errors.{ok, Result-cases}
use managed_python_runner_en.Build.Lock.{Packages}
use managed_python_runner_en.Build.Model.{RuntimeBuildSpec, Digests, env_key, packages_of}
use managed_python_runner_en.Build.Rows.{
  EnvRow, env_verifying, exact, superset, BuildDb, empty_build_db, has_env_id, env_row, is_pending,
  is_ready, is_failed,
}
use managed_python_runner_en.Build.Store.{
  claim_build, claimed_row, reset_failed, reset_row, mark_verifying, mark_ready, ready_row,
  mark_failed, failed_row, last_chars, insert_env, get_or_create_exact, bind_request, is_candidate,
  new_env_row,
}
use managed_python_runner_en.Build.Store.Jobs.{IsBuildable, Works, Works-busy}
use managed_python_runner_en.Build.Store.Methods.{
  claim_build-IsBuildable, reset_failed-IsBuildable, mark_verifying-IsBuildable,
  mark_ready-IsBuildable, mark_failed-IsBuildable, insert_env-IsBuildable,
}

-- One committed call. A request is bound to an environment of its own key, or to a candidate for
-- its spec; who marks an environment has its open job.
pub data BuildStep (d : Digests) (db after : BuildDb) : Type 0 where
  creates :
      (spec : RuntimeBuildSpec) (now : ℕ) (env_id : String) (row : EnvRow)
      → get_or_create_exact d spec now env_id db ≡ ok (row, after)
      → BuildStep d db after
  binds_exact :
      (now : ℕ) (row : EnvRow)
      → env_row db row.id ≡ some row
      → bind_request now row.env_key row.id exact db ≡ ok after
      → BuildStep d db after
  binds_superset :
      (now : ℕ) (spec : RuntimeBuildSpec) (wanted : Packages) (key : String) (row : EnvRow)
      → env_row db row.id ≡ some row
      → env_key d spec ≡ ok key
      → packages_of d spec ≡ ok wanted
      → is_candidate spec wanted row ≡ true
      → bind_request now key row.id superset db ≡ ok after
      → BuildStep d db after
  resets :
      (now : ℕ) (env_id : String) → after ≡ (reset_failed now env_id db).1 → BuildStep d db after
  claims :
      (now : ℕ) (job_id env_id : String) (claim : Option String)
      → claim_build now job_id env_id db ≡ ok (claim, after)
      → BuildStep d db after
  verifies :
      (now : ℕ) (env_id job_id : String)
      → Works db env_id job_id
      → after ≡ mark_verifying now env_id job_id db
      → BuildStep d db after
  readies :
      (now : ℕ) (env_id job_id image_ref : String)
      → Works db env_id job_id
      → mark_ready now env_id job_id image_ref db ≡ ok after
      → BuildStep d db after
  fails :
      (now : ℕ) (env_id job_id error_message : String)
      → Works db env_id job_id
      → after ≡ mark_failed now env_id job_id error_message db
      → BuildStep d db after

pub data BuildReach (d : Digests) (db : BuildDb) : BuildDb → Type 0 where
  start : BuildReach d db db
  next : {mid after : BuildDb} → BuildReach d db mid → BuildStep d mid after → BuildReach d db after

pub BuildReach-trans :
    {d : Digests} {db mid after : BuildDb}
    → BuildReach d db mid
    → BuildReach d mid after
    → BuildReach d db after
BuildReach-trans r start = r
BuildReach-trans r (next r' step) = next (BuildReach-trans r r') step

-- The environments and jobs are the same: a binding writes the aliases only.
abbrev SameBuilds : BuildDb → BuildDb → Type 0
SameBuilds db after = after ≡ record db { aliases = after.aliases }

pub bind_request-SameBuilds :
    (now : ℕ) (key env_id : String) (kind : _) (db after : BuildDb)
    → bind_request now key env_id kind db ≡ ok after
    → SameBuilds db after
unfolding bind_request
bind_request-SameBuilds now key env_id kind db after h = ground arith

same-IsBuildable : (db after : BuildDb) → SameBuilds db after → IsBuildable db → IsBuildable after
same-IsBuildable db after e v = rw e (record {
  env_unique = v.env_unique;
  key_unique = v.key_unique;
  job_unique = v.job_unique;
  jobs_match = v.jobs_match;
  ready_image = v.ready_image;
})

-- The row that an environment is created from, where it is created.
pub get_or_create_exact-ok :
    (d : Digests) (spec : RuntimeBuildSpec) (now : ℕ) (env_id : String) (row : EnvRow)
    (db after : BuildDb)
    → get_or_create_exact d spec now env_id db ≡ ok (row, after)
    → (key : String) × (packages : Packages) × (env_key d spec ≡ ok key)
      × (packages_of d spec ≡ ok packages)
      × (insert_env (new_env_row d spec now env_id key packages) db ≡ ok (row, after))
unfolding get_or_create_exact
get_or_create_exact-ok d spec now env_id row db after h = elim (Result-cases (env_key d spec)) [
  | inr (e, k) ↦ absurd (ground arith)
  | inl (key, k) ↦ elim (Result-cases (packages_of d spec)) [
    | inr (e, p) ↦ absurd (ground arith)
    | inl (packages, p) ↦ (key, packages, k, p, ground arith)
  ]
]

module _ {d : Digests} where
  pub BuildStep-IsBuildable :
      {db after : BuildDb} → BuildStep d db after → IsBuildable db → IsBuildable after
  BuildStep-IsBuildable {db} {after} (creates spec now env_id row h) v =
      let (key, packages, _, _, e) = get_or_create_exact-ok d spec now env_id row db after h in
      insert_env-IsBuildable db v (new_env_row d spec now env_id key packages) row after refl e
  BuildStep-IsBuildable {db} {after} (binds_exact now row at h) v =
      same-IsBuildable db after (bind_request-SameBuilds now row.env_key row.id exact db after h) v
  BuildStep-IsBuildable {db} {after} (binds_superset now spec wanted key row at k p c h) v =
      same-IsBuildable db after (bind_request-SameBuilds now key row.id superset db after h) v
  BuildStep-IsBuildable {db} (resets now env_id e) v =
      rw e (reset_failed-IsBuildable db v now env_id)
  BuildStep-IsBuildable {db} {after} (claims now job_id env_id claim h) v =
      claim_build-IsBuildable db v now env_id job_id claim after h
  BuildStep-IsBuildable {db} (verifies now env_id job_id works e) v =
      rw e (mark_verifying-IsBuildable db v now env_id job_id works)
  BuildStep-IsBuildable {db} {after} (readies now env_id job_id image_ref works h) v =
      mark_ready-IsBuildable db v now env_id job_id works image_ref after h
  BuildStep-IsBuildable {db} (fails now env_id job_id error_message works e) v =
      rw e (mark_failed-IsBuildable db v now env_id job_id works error_message)

  -- Over any history of the store's calls, by any number of workers of whom each marks only an
  -- environment whose open job it has: environments have one row for each identifier and each key,
  -- an environment is BUILDING or VERIFYING exactly while one job of it is open, no other has an
  -- open job, and every READY environment has an image.
  pub BuildReach-IsBuildable :
      {db after : BuildDb} → BuildReach d db after → IsBuildable db → IsBuildable after
  BuildReach-IsBuildable start v = v
  BuildReach-IsBuildable (next r s) v = BuildStep-IsBuildable s (BuildReach-IsBuildable r v)

pub empty_build_db-IsBuildable : IsBuildable empty_build_db
unfolding select rowcount
empty_build_db-IsBuildable = record {
  env_unique = λ i. omega arith;
  key_unique = λ k. omega arith;
  job_unique = λ j. omega arith;
  jobs_match = λ i. refl;
  ready_image = λ i row found ready. absurd (ground arith);
}

-- A READY environment is written by nobody.
module _ (db after : BuildDb) (v : IsBuildable db) (i : String) (row : EnvRow)
    (at : env_row db i ≡ some row) (ready : is_ready row ≡ true) where
  -- Where a worker writes, the environment is busy.
  worker_elsewhere :
      (env_id job_id : String) (f : EnvRow → EnvRow)
      → ((r : EnvRow) → (f r).id ≡ r.id)
      → Works db env_id job_id
      → after.environments ≡ update (has_env_id env_id) f db.environments
      → env_row after i ≡ some row
  worker_elsewhere env_id job_id f same works written =
      let (busy_row, found, busy) = Works-busy db env_id job_id v works in
      let named = (eq_iff row.id i).0 (select-holds (has_env_id i) db.environments row at) in
      let write =
        select-update (has_env_id i) (has_env_id env_id) f (λ r. rw (same r)) db.environments in
      elim (Bool-cases (row.id == env_id)) [
        | inr e ↦ rw (written, write, at) (ground arith)
        | inl e ↦
            let e' : i ≡ env_id = sym named ∙ (eq_iff row.id env_id).0 e in
            let same_row : row ≡ busy_row =
              let at' : env_row db env_id ≡ some row = rw (← e') at in ground arith in
            absurd (ground arith)
      ]

  guarded_elsewhere :
      (env_id : String) (s : EnvRow → Bool) (f : EnvRow → EnvRow)
      → ((r : EnvRow) → (f r).id ≡ r.id)
      → s row ≡ false
      → after.environments ≡ update (λ r. has_env_id env_id r && s r) f db.environments
      → env_row after i ≡ some row
  guarded_elsewhere env_id s f same miss written =
      let write =
        select-update (has_env_id i) (λ r. has_env_id env_id r && s r) f (λ r. rw (same r))
          db.environments in
      rw (written, write, at) (ground arith)

pub BuildStep-keeps_ready :
    {d : Digests} {db after : BuildDb}
    → BuildStep d db after
    → IsBuildable db
    → (i : String) (row : EnvRow) → env_row db i ≡ some row
    → is_ready row ≡ true
    → env_row after i ≡ some row
unfolding reset_failed select
BuildStep-keeps_ready {d} {db} {after} (creates spec now env_id new h) v i row at ready =
    let (key, packages, _, _, e) = get_or_create_exact-ok d spec now env_id new db after h in
    unfold insert_env select in ground (arith, eq_iff env_id i)
BuildStep-keeps_ready {d} {db} {after} (binds_exact now bound here' h) v i row at ready =
    rw (bind_request-SameBuilds now bound.env_key bound.id exact db after h) at
BuildStep-keeps_ready {d} {db} {after} (binds_superset now spec wanted key bound here' k p c h) v i
      row at ready =
    rw (bind_request-SameBuilds now key bound.id superset db after h) at
BuildStep-keeps_ready {d} {db} {after} (resets now env_id e) v i row at ready =
    elim (Option-cases (select (λ r. has_env_id env_id r && is_failed r) db.environments)) [
      | inl none_found ↦ rw (e, none_found, reset_failed) at
      | inr (r, found) ↦
          guarded_elsewhere db after v i row at ready env_id is_failed (reset_row now) (λ x. refl)
            (ground arith) (rw e (rw (found, reset_failed)))
    ]
BuildStep-keeps_ready {d} {db} {after} (claims now job_id env_id claim h) v i row at ready =
    elim (Option-cases (select (λ r. has_env_id env_id r && is_pending r) db.environments)) [
      | inl none_found ↦ let same : after ≡ db = unfold claim_build in ground arith in rw same at
      | inr (r, found) ↦
          guarded_elsewhere db after v i row at ready env_id is_pending (claimed_row now)
            (λ x. refl) (ground arith) (unfold claim_build in ground arith)
    ]
BuildStep-keeps_ready {d} {db} {after} (verifies now env_id job_id works e) v i row at ready =
    worker_elsewhere db after v i row at ready env_id job_id
      (λ r. record r { status = env_verifying; updated_at = now }) (λ r. refl) works
      (unfold mark_verifying in ap (λ x. x.environments) e)
BuildStep-keeps_ready {d} {db} {after} (readies now env_id job_id image_ref works h) v i row at
      ready =
    worker_elsewhere db after v i row at ready env_id job_id (ready_row now image_ref) (λ r. refl)
      works (unfold mark_ready in ground arith)
BuildStep-keeps_ready {d} {db} {after} (fails now env_id job_id error_message works e) v i row at
      ready =
    worker_elsewhere db after v i row at ready env_id job_id
      (failed_row now (last_chars 8192 error_message)) (λ r. refl) works
      (unfold mark_failed in ap (λ x. x.environments) e)

-- Over any history of the store's calls on tables in step, in which whoever marks an environment
-- has its open job, the row of a READY environment stays as it is.
pub BuildReach-keeps_ready :
    {d : Digests} {db after : BuildDb}
    → BuildReach d db after
    → IsBuildable db
    → (env_id : String) (row : EnvRow) → env_row db env_id ≡ some row
    → is_ready row ≡ true
    → env_row after env_id ≡ some row
BuildReach-keeps_ready start v i row at ready = at
BuildReach-keeps_ready (next r s) v i row at ready =
    BuildStep-keeps_ready s (BuildReach-IsBuildable r v) i row
      (BuildReach-keeps_ready r v i row at ready) ready
