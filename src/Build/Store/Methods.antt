-- ===== src/Build/Store/Methods.antt =====
-- Every method of `BuildStore` keeps the environments and the jobs in step.
use managed_python_runner_en.Prelude.{
  ℕ, String, ◌≡◌, refl, Bool, true, false, ◌&&◌, Option, none, some, ◌∷◌, arith, ◌==◌, eq_iff, inl,
  inr, Bool-cases, Option-cases, select, update, rowcount, rewritten, select-update,
  rowcount-update, rowcount-select-none, select-holds, select-and,
}
use managed_python_runner_en.Errors.{ok}
use managed_python_runner_en.Build.Rows.{
  EnvRow, env_pending, env_verifying, JobRow, job_verifying, job_ready, BuildDb, has_env_id,
  has_env_key, has_job_id, env_row, job_row, is_pending, is_failed,
}
use managed_python_runner_en.Build.Store.{
  claim_build, claimed_row, new_job, reset_failed, reset_row, mark_verifying, mark_ready, ready_row,
  mark_failed, failed_row, failed_job, last_chars, insert_env,
}
use managed_python_runner_en.Build.Store.Jobs.{IsBuildable, Works, written-IsBuildable}

module _ (db : BuildDb) (v : IsBuildable db) where
  -- What an UPDATE with a test besides the identifier leaves of a row.
  env_row-guarded :
      (env_id i : String) (s : EnvRow → Bool) (f : EnvRow → EnvRow)
      → ((row : EnvRow) → (f row).id ≡ row.id)
      → select (has_env_id i) (update (λ r. has_env_id env_id r && s r) f db.environments)
        ≡ rewritten (λ r. has_env_id env_id r && s r) f (env_row db i)
  env_row-guarded env_id i s f same =
      select-update (has_env_id i) (λ r. has_env_id env_id r && s r) f (λ r. rw (same r))
        db.environments

  found_row :
      (env_id : String) (s : EnvRow → Bool) (row : EnvRow)
      → select (λ r. has_env_id env_id r && s r) db.environments ≡ some row
      → (env_row db env_id ≡ some row) × (s row ≡ true)
  found_row env_id s row h =
      let passes = select-holds (λ r. has_env_id env_id r && s r) db.environments row h in
      (select-and (has_env_id env_id) s db.environments row (v.env_unique env_id) h, ground arith)

  module _ (now : ℕ) (env_id : String) where
    claimed_db : String → BuildDb
    claimed_db job_id = record db {
      environments =
          update (λ r. has_env_id env_id r && is_pending r) (claimed_row now) db.environments;
      jobs = new_job now job_id env_id ∷ db.jobs;
    }

    claimed_db-IsBuildable :
        (job_id : String) (row : EnvRow)
        → select (λ r. has_env_id env_id r && is_pending r) db.environments ≡ some row
        → job_row db job_id ≡ none
        → IsBuildable (claimed_db job_id)
    unfolding claimed_db rowcount
    claimed_db-IsBuildable job_id row at fresh =
        let (here, pending) = found_row env_id is_pending row at in
        let write =
          λ (i : String). env_row-guarded env_id i is_pending (claimed_row now) (λ r. refl) in
        record {
          env_unique = λ i.
              rw
                (rowcount-update (has_env_id i) (λ r. has_env_id env_id r && is_pending r)
                  (claimed_row now) (λ r. refl) db.environments)
                (v.env_unique i);
          key_unique = λ k.
              rw
                (rowcount-update (has_env_key k) (λ r. has_env_id env_id r && is_pending r)
                  (claimed_row now) (λ r. refl) db.environments)
                (v.key_unique k);
          job_unique = λ j. elim (Bool-cases (job_id == j)) [
            | inr e ↦ ground (arith, v.job_unique j)
            | inl e ↦
                let same : job_id ≡ j = (eq_iff job_id j).0 e in
                let absent : rowcount (has_job_id j) db.jobs ≡ 0 =
                  rowcount-select-none (has_job_id j) db.jobs (rw (← same) fresh) in
                ground arith
          ];
          jobs_match = λ i. elim (Bool-cases (env_id == i)) [
            | inl e ↦
                let same : env_id ≡ i = (eq_iff env_id i).0 e in
                let found : env_row db i ≡ some row = rw (← same) here in
                let own = select-holds (has_env_id env_id) db.environments row here in
                rw (write i, found) (ground (arith, v.jobs_match i, own, pending))
            | inr e ↦ elim (Option-cases (env_row db i)) [
              | inl missing ↦ rw (write i, missing) (ground (arith, v.jobs_match i))
              | inr (r, found) ↦
                  let named =
                    (eq_iff r.id i).0 (select-holds (has_env_id i) db.environments r found) in
                  rw (write i, found)
                    (ground (arith, v.jobs_match i, eq_iff r.id env_id, eq_iff env_id i))
            ]
          ];
          ready_image = λ i r found ready. elim (Option-cases (env_row db i)) [
            | inl e ↦ absurd (ground (arith, write i))
            | inr (old, e) ↦
                let same : old ≡ r = ground (arith, write i) in
                rw (← same) (v.ready_image i old e (rw same ready))
          ];
        }

    pub claim_build-IsBuildable :
        (job_id : String) (claim : Option String) (after : BuildDb)
        → claim_build now job_id env_id db ≡ ok (claim, after)
        → IsBuildable after
    unfolding claim_build claimed_db
    claim_build-IsBuildable job_id claim after h =
        elim (Option-cases (select (λ r. has_env_id env_id r && is_pending r) db.environments)) [
          | inl e ↦ let same : after ≡ db = ground arith in rw same v
          | inr (row, e) ↦ elim (Option-cases (job_row db job_id)) [
            | inr (j, e') ↦ absurd (ground arith)
            | inl e' ↦
                let same : after ≡ claimed_db job_id = ground arith in
                rw same (claimed_db-IsBuildable job_id row e e')
          ]
        ]

    pub reset_failed-IsBuildable : IsBuildable (reset_failed now env_id db).1
    unfolding reset_failed
    reset_failed-IsBuildable =
        elim (Option-cases (select (λ r. has_env_id env_id r && is_failed r) db.environments)) [
          | inl e ↦ rw (e, reset_failed) v
          | inr (row, e) ↦
              let write =
                λ (i : String). env_row-guarded env_id i is_failed (reset_row now) (λ r. refl) in
              rw (e, reset_failed)
                (record {
                  env_unique = λ i.
                      rw
                        (rowcount-update (has_env_id i) (λ r. has_env_id env_id r && is_failed r)
                          (reset_row now) (λ r. refl) db.environments)
                        (v.env_unique i);
                  key_unique = λ k.
                      rw
                        (rowcount-update (has_env_key k) (λ r. has_env_id env_id r && is_failed r)
                          (reset_row now) (λ r. refl) db.environments)
                        (v.key_unique k);
                  job_unique = v.job_unique;
                  jobs_match = λ i. elim (Option-cases (env_row db i)) [
                    | inl missing ↦ rw (write i, missing) (ground (arith, v.jobs_match i))
                    | inr (r, found) ↦ rw (write i, found) (ground (arith, v.jobs_match i))
                  ];
                  ready_image = λ i r found ready. elim (Option-cases (env_row db i)) [
                    | inl e' ↦ absurd (ground (arith, write i))
                    | inr (old, e') ↦
                        let same : old ≡ r = ground (arith, write i) in
                        rw (← same) (v.ready_image i old e' (rw same ready))
                  ];
                })
        ]

    module _ (job_id : String) (works : Works db env_id job_id) where
      pub mark_verifying-IsBuildable : IsBuildable (mark_verifying now env_id job_id db)
      unfolding mark_verifying
      mark_verifying-IsBuildable =
          written-IsBuildable db (mark_verifying now env_id job_id db) env_id job_id
            (λ row. record row { status = env_verifying; updated_at = now })
            (λ row. record row { status = job_verifying }) true v works refl refl
            (λ r. (refl, refl)) (λ r. (refl, refl)) (λ r. refl) (λ r. refl)
            (λ r ready. absurd (ground arith))

      pub mark_failed-IsBuildable :
          (error_message : String) → IsBuildable (mark_failed now env_id job_id error_message db)
      unfolding mark_failed
      mark_failed-IsBuildable error_message =
          let message = last_chars 8192 error_message in
          written-IsBuildable db (mark_failed now env_id job_id error_message db) env_id job_id
            (failed_row now message) (failed_job now message) false v works refl refl
            (λ r. (refl, refl)) (λ r. (refl, refl)) (λ r. refl) (λ r. refl)
            (λ r ready. absurd (ground arith))

      pub mark_ready-IsBuildable :
          (image_ref : String) (after : BuildDb)
          → mark_ready now env_id job_id image_ref db ≡ ok after
          → IsBuildable after
      unfolding mark_ready
      mark_ready-IsBuildable image_ref after h =
          let done = λ (row : JobRow). record row { status = job_ready; finished_at = some now } in
          written-IsBuildable db after env_id job_id (ready_row now image_ref) done false v works
            (ground arith) (ground arith) (λ r. (refl, refl)) (λ r. (refl, refl)) (λ r. refl)
            (λ r. refl) (λ r ready. (image_ref, refl))

  pub insert_env-IsBuildable :
      (new row : EnvRow) (after : BuildDb)
      → new.status ≡ env_pending
      → insert_env new db ≡ ok (row, after)
      → IsBuildable after
  unfolding insert_env select rowcount
  insert_env-IsBuildable new row after pending h =
      elim (Option-cases (select (has_env_key new.env_key) db.environments)) [
        | inr (r, e) ↦ let same : after ≡ db = ground arith in rw same v
        | inl e ↦ elim (Option-cases (env_row db new.id)) [
          | inr (r, e') ↦ absurd (ground arith)
          | inl e' ↦
              let same : after ≡ record db { environments = new ∷ db.environments } =
                ground arith in
              rw same (record {
                env_unique = λ i. elim (Bool-cases (new.id == i)) [
                  | inr miss ↦ ground (arith, v.env_unique i)
                  | inl hit ↦
                      let named : new.id ≡ i = (eq_iff new.id i).0 hit in
                      let absent =
                        rowcount-select-none (has_env_id i) db.environments (rw (← named) e') in
                      ground arith
                ];
                key_unique = λ k. elim (Bool-cases (new.env_key == k)) [
                  | inr miss ↦ ground (arith, v.key_unique k)
                  | inl hit ↦
                      let named : new.env_key ≡ k = (eq_iff new.env_key k).0 hit in
                      let absent =
                        rowcount-select-none (has_env_key k) db.environments (rw (← named) e) in
                      ground arith
                ];
                job_unique = v.job_unique;
                jobs_match = λ i. elim (Bool-cases (new.id == i)) [
                  | inr miss ↦ rw miss (v.jobs_match i)
                  | inl hit ↦
                      let named : new.id ≡ i = (eq_iff new.id i).0 hit in
                      let missing : env_row db i ≡ none = rw (← named) e' in
                      rw hit (ground (arith, v.jobs_match i))
                ];
                ready_image = λ i r found ready. elim (Bool-cases (new.id == i)) [
                  | inr miss ↦ v.ready_image i r (ground arith) ready
                  | inl hit ↦ absurd (ground arith)
                ];
              })
        ]
      ]
