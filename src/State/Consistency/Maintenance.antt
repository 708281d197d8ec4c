-- ===== src/State/Consistency/Maintenance.antt =====
-- Start-up and the purges keep the tables in step; a purge takes nothing that is still in use.
use native.Mathlib.Nat.{le_trans}
use managed_python_runner_en.Prelude.{
  ℕ, ◌-◌, ◌*◌, ◌≤◌, String, ◌≡◌, refl, ◌∙◌, Bool, true, false, some, ◌<◌, ◌⊎◌, if◌then◌else◌, arith,
  eq_iff, inl, inr, Option-cases, leb, rowcount, select-update, select-delete, select-holds,
  select-found, rowcount-update, rowcount-delete-le, kept, rewritten,
}
use managed_python_runner_en.State.Rows.{
  Clocks, RunRow, KeyRow, Db, has_run_id, has_key, is_running, is_key_running, run_row, key_row,
}
use managed_python_runner_en.State.Claims.{abandoned_run}
use managed_python_runner_en.State.Maintenance.{
  reset_running, purge_expired_idempotency, purge_old_runs, is_expired_key, is_old_run, serves,
}
use managed_python_runner_en.State.Consistency.{IsConsistent, Holds, quiet-Claimed, quiet-Owned}

module _ (t : Clocks) (db : Db) (v : IsConsistent db) where
  abbrev restarted : RunRow → RunRow
  restarted = abandoned_run t "RUNNER_RESTART" "Runner restarted while invocation was active"

  run_row-restarted :
      (i : String)
      → run_row (reset_running t db).1 i ≡ rewritten is_running restarted (run_row db i)
  unfolding reset_running
  run_row-restarted i = select-update (has_run_id i) is_running restarted (λ r. refl) db.runs

  key_row-restarted :
      (te re ke : String)
      → key_row (reset_running t db).1 te re ke ≡ kept is_key_running (key_row db te re ke)
  unfolding reset_running
  key_row-restarted te re ke =
      select-delete (has_key te re ke) is_key_running db.idempotency_keys (v.key_unique te re ke)

  -- After a restart no run is RUNNING.
  pub no_run_running :
      (i : String) (run : RunRow)
      → run_row (reset_running t db).1 i ≡ some run
      → is_running run ≡ false
  no_run_running i run found = elim (Option-cases (run_row db i)) [
    | inl e ↦ ground (arith, run_row-restarted i)
    | inr (x, e) ↦ ground (arith, run_row-restarted i)
  ]

  -- After a restart no key is RUNNING.
  pub no_key_running :
      (te re ke : String) (row : KeyRow)
      → key_row (reset_running t db).1 te re ke ≡ some row
      → is_key_running row ≡ false
  no_key_running te re ke row found = elim (Option-cases (key_row db te re ke)) [
    | inl e ↦ ground (arith, key_row-restarted te re ke)
    | inr (x, e) ↦ ground (arith, key_row-restarted te re ke)
  ]

  pub reset_running-IsConsistent : IsConsistent (reset_running t db).1
  reset_running-IsConsistent = record {
    run_unique = λ i.
        unfold reset_running in
        rw (rowcount-update (has_run_id i) is_running restarted (λ r. refl) db.runs)
          (v.run_unique i);
    key_unique = λ te re ke.
        unfold reset_running in
        le_trans (rowcount-delete-le (has_key te re ke) is_key_running db.idempotency_keys)
          (v.key_unique te re ke);
    claimed = λ te re ke row found busy. absurd (ground (arith, no_key_running te re ke row found));
    owned = λ i run found busy. absurd (ground (arith, no_run_running i run found));
  }

  key_row-purged :
      (te re ke : String)
      → key_row (purge_expired_idempotency t db).1 te re ke
        ≡ kept (is_expired_key t.database) (key_row db te re ke)
  unfolding purge_expired_idempotency
  key_row-purged te re ke =
      select-delete (has_key te re ke) (is_expired_key t.database) db.idempotency_keys
        (v.key_unique te re ke)

  pub purge_expired_idempotency-IsConsistent : IsConsistent (purge_expired_idempotency t db).1
  unfolding purge_expired_idempotency
  purge_expired_idempotency-IsConsistent =
      let after = (purge_expired_idempotency t db).1 in
      let keeps : (te re ke i : String) → Holds db te re ke i → Holds after te re ke i =
        λ te re ke i held.
          let (row, at, busy, e) = held in
          (row, key_row-purged te re ke ∙ (rw at (ground arith)), busy, e) in
      let adds : (te re ke i : String) → Holds after te re ke i → Holds db te re ke i =
        λ te re ke i held.
          let (row, at, busy, e) = held in
          elim (Option-cases (key_row db te re ke)) [
            | inl missing ↦ absurd (ground (arith, key_row-purged te re ke))
            | inr (x, found) ↦ (row, ground (arith, key_row-purged te re ke), busy, e)
          ] in
      record {
        run_unique = v.run_unique;
        key_unique = λ te re ke.
            le_trans
              (rowcount-delete-le (has_key te re ke) (is_expired_key t.database)
                db.idempotency_keys)
              (v.key_unique te re ke);
        claimed = quiet-Claimed db after (λ i run _ e. e) (λ i run _ e. e) keeps adds v.claimed;
        owned = quiet-Owned db after (λ i run _ e. e) (λ i run _ e. e) keeps adds v.owned;
      }

  abbrev old : ℕ → RunRow → Bool
  old older_than_ms = is_old_run t.database (t.runner - older_than_ms * 1000) db.idempotency_keys

  run_row-purged :
      (older_than_ms : ℕ) (i : String)
      → run_row (purge_old_runs t older_than_ms db).1 i
        ≡ (if leb older_than_ms 0 then run_row db i else kept (old older_than_ms) (run_row db i))
  unfolding purge_old_runs
  run_row-purged older_than_ms i =
      ground (arith, select-delete (has_run_id i) (old older_than_ms) db.runs (v.run_unique i))

  keys-purged :
      (older_than_ms : ℕ)
      → (purge_old_runs t older_than_ms db).1.idempotency_keys ≡ db.idempotency_keys
  unfolding purge_old_runs
  keys-purged older_than_ms = ground arith

  -- On tables in step, the purge of the history takes no run that is RUNNING and none whose result
  -- an unexpired key replays.
  pub purge_old_runs_keeps :
      (older_than_ms : ℕ) (i : String) (run : RunRow)
      → run_row db i ≡ some run
      → (is_running run ≡ true)
        ⊎ ((te re ke : String) × (row : KeyRow) × (at : ℕ) × (key_row db te re ke ≡ some row)
            × (row.current_run_id ≡ i)
            × (is_key_running row ≡ false)
            × (row.expires_at ≡ some at)
            × (t.database < at))
      → run_row (purge_old_runs t older_than_ms db).1 i ≡ some run
  purge_old_runs_keeps older_than_ms i run found (inl busy) =
      run_row-purged older_than_ms i ∙ (rw found (ground arith))
  purge_old_runs_keeps older_than_ms i run found
        (inr (te, re, ke, row, at, here, current, idle, e, later)) =
      let named : run.run_id ≡ i = (eq_iff _ _).0 (select-holds (has_run_id i) db.runs run found) in
      let serving : serves t.database run row ≡ true =
        ground (arith, eq_iff row.current_run_id run.run_id) in
      let (x, hit) =
        select-found (has_key te re ke) (serves t.database run) db.idempotency_keys row here
          serving in
      run_row-purged older_than_ms i ∙ (rw found (rw hit (ground arith)))

  runs-purged :
      (older_than_ms : ℕ) (i : String)
      → rowcount (has_run_id i) (purge_old_runs t older_than_ms db).1.runs
        ≤ rowcount (has_run_id i) db.runs
  unfolding purge_old_runs
  runs-purged older_than_ms i =
      ground (arith, rowcount-delete-le (has_run_id i) (old older_than_ms) db.runs)

  pub purge_old_runs-IsConsistent :
      (older_than_ms : ℕ) → IsConsistent (purge_old_runs t older_than_ms db).1
  purge_old_runs-IsConsistent n =
      let after = (purge_old_runs t n db).1 in
      let same = keys-purged n in
      let back : (i : String) (run : RunRow)
          → is_running run ≡ true
          → run_row after i ≡ some run
          → run_row db i ≡ some run =
        λ i run busy found. elim (Option-cases (run_row db i)) [
          | inl e ↦ ground (arith, run_row-purged n i)
          | inr (x, e) ↦ ground (arith, run_row-purged n i)
        ] in
      let keeps : (te re ke i : String) → Holds db te re ke i → Holds after te re ke i =
        λ te re ke i held. let (row, at, busy, e) = held in (row, rw same at, busy, e) in
      let adds : (te re ke i : String) → Holds after te re ke i → Holds db te re ke i =
        λ te re ke i held. let (row, at, busy, e) = held in (row, rw (← same) at, busy, e) in
      record {
        run_unique = λ i. le_trans (runs-purged n i) (v.run_unique i);
        key_unique = λ te re ke. rw same (v.key_unique te re ke);
        claimed =
            quiet-Claimed db after
              (λ i run busy found. purge_old_runs_keeps n i run found (inl busy)) back keeps adds
              v.claimed;
        owned =
            quiet-Owned db after (λ i run busy found. purge_old_runs_keeps n i run found (inl busy))
              back keeps adds v.owned;
      }
