-- ===== src/Build/Store/Jobs.antt =====
-- Who builds what: an environment is BUILDING or VERIFYING exactly while one job of it is open.
use managed_python_runner_en.Prelude.{
  ℕ, ◌≤◌, String, ◌≡◌, ◌∙◌, Bool, true, ◌&&◌, Option, none, some, arith, ◌==◌, eq_iff, inl, inr,
  Bool-cases, Option-cases, if◌then◌else◌, update, rowcount, rewritten, select-update,
  rowcount-update, rowcount-update_one, rowcount-select_pos, select-holds,
}
use managed_python_runner_en.Build.Rows.{
  EnvRow, JobRow, BuildDb, has_env_id, has_env_key, has_job_id, env_row, job_row, is_ready, is_busy,
  is_open,
}

abbrev pub busy_count : Option EnvRow → ℕ
busy_count none = 0
busy_count (some row) = if is_busy row then 1 else 0

abbrev pub is_open_of : String → JobRow → Bool
is_open_of env_id job = job.env_id == env_id && is_open job

abbrev pub HasImage : EnvRow → Type 0
HasImage row = (image_ref : String) × (row.image_ref ≡ some image_ref)

pub record IsBuildable (db : BuildDb) : Type 0 where
  pub env_unique : (env_id : String) → rowcount (has_env_id env_id) db.environments ≤ 1
  pub key_unique : (env_key : String) → rowcount (has_env_key env_key) db.environments ≤ 1
  pub job_unique : (job_id : String) → rowcount (has_job_id job_id) db.jobs ≤ 1
  pub jobs_match :
      (env_id : String) → rowcount (is_open_of env_id) db.jobs ≡ busy_count (env_row db env_id)
  pub ready_image :
      (env_id : String) (row : EnvRow)
      → env_row db env_id ≡ some row
      → is_ready row ≡ true
      → HasImage row

-- The job is open, and is of the environment.
abbrev pub Works : BuildDb → String → String → Type 0
Works db env_id job_id =
    (job : JobRow) × (job_row db job_id ≡ some job) × (job.env_id ≡ env_id) × (is_open job ≡ true)

-- An environment that is worked on is there, and is busy.
pub Works-busy :
    (db : BuildDb) (env_id job_id : String)
    → IsBuildable db
    → Works db env_id job_id
    → (row : EnvRow) × (env_row db env_id ≡ some row) × (is_busy row ≡ true)
Works-busy db env_id job_id v (job, at, of, open') =
    let passes : is_open_of env_id job ≡ true = ground (arith, eq_iff job.env_id env_id) in
    let some_open =
      rowcount-select_pos (has_job_id job_id) (is_open_of env_id) db.jobs job at passes in
    elim (Option-cases (env_row db env_id)) [
      | inl missing ↦ absurd (ground (arith, v.jobs_match env_id))
      | inr (row, here) ↦ (row, here, ground (arith, v.jobs_match env_id))
    ]

-- One worker writes the row of its environment and of its job.
module _ (db after : BuildDb) (env_id job_id : String) (f : EnvRow → EnvRow) (g : JobRow → JobRow)
    (busy : Bool) (v : IsBuildable db) (works : Works db env_id job_id)
    (envs : after.environments ≡ update (has_env_id env_id) f db.environments)
    (jobs : after.jobs ≡ update (has_job_id job_id) g db.jobs)
    (env_same : (row : EnvRow) → ((f row).id ≡ row.id) × ((f row).env_key ≡ row.env_key))
    (job_same : (row : JobRow) → ((g row).id ≡ row.id) × ((g row).env_id ≡ row.env_id))
    (env_busy : (row : EnvRow) → is_busy (f row) ≡ busy)
    (job_open : (row : JobRow) → is_open (g row) ≡ busy)
    (env_image : (row : EnvRow) → is_ready (f row) ≡ true → HasImage (f row)) where
  env_row-written : (i : String) → env_row after i ≡ rewritten (has_env_id env_id) f (env_row db i)
  env_row-written i =
      rw envs (
        select-update (has_env_id i) (has_env_id env_id) f (λ r. rw (env_same r).0) db.environments)

  jobs_match-written :
      (i : String) → rowcount (is_open_of i) after.jobs ≡ busy_count (env_row after i)
  jobs_match-written i =
      let (job, at, of, open') = works in
      let (row, here, live) = Works-busy db env_id job_id v works in
      let counted =
        rowcount-update_one (is_open_of i) (has_job_id job_id) g db.jobs job (v.job_unique job_id)
          at in
      let own = select-holds (has_env_id env_id) db.environments row here in
      elim (Bool-cases (env_id == i)) [
        | inl same ↦
            let e : env_id ≡ i = (eq_iff env_id i).0 same in
            let found : env_row db i ≡ some row = rw (← e) here in
            rw (env_row-written i, jobs, found)
              (ground (
                arith,
                v.jobs_match i,
                job_same job,
                job_open job,
                env_busy row,
                own,
                eq_iff job.env_id i,
              ))
        | inr differs ↦
            let kept : env_row after i ≡ env_row db i = elim (Option-cases (env_row db i)) [
              | inl e ↦ env_row-written i ∙ (rw e)
              | inr (r, e) ↦
                  let named = (eq_iff r.id i).0 (select-holds (has_env_id i) db.environments r e) in
                  env_row-written i ∙ (rw e (ground (arith, eq_iff r.id env_id, eq_iff env_id i)))
            ] in
            rw (kept, jobs)
              (ground (arith, v.jobs_match i, job_same job, eq_iff job.env_id i, eq_iff env_id i))
      ]

  pub written-IsBuildable : IsBuildable after
  written-IsBuildable = record {
    env_unique = λ i. rw envs (
        rw
          (rowcount-update (has_env_id i) (has_env_id env_id) f (λ r. rw (env_same r).0)
            db.environments)
          (v.env_unique i));
    key_unique = λ k. rw envs (
        rw
          (rowcount-update (has_env_key k) (has_env_id env_id) f (λ r. rw (env_same r).1)
            db.environments)
          (v.key_unique k));
    job_unique = λ j. rw jobs (
        rw (rowcount-update (has_job_id j) (has_job_id job_id) g (λ r. rw (job_same r).0) db.jobs)
          (v.job_unique j));
    jobs_match = jobs_match-written;
    ready_image = λ i row at ready. elim (Option-cases (env_row db i)) [
      | inl e ↦ absurd (ground (arith, env_row-written i))
      | inr (r, e) ↦ elim (Bool-cases (has_env_id env_id r)) [
        | inl hit ↦
            let same : f r ≡ row = ground (arith, env_row-written i) in
            rw (← same) (env_image r (rw same ready))
        | inr miss ↦
            let same : r ≡ row = ground (arith, env_row-written i) in
            rw (← same) (v.ready_image i r e (rw same ready))
      ]
    ];
  }
