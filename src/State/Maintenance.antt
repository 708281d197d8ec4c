-- ===== src/State/Maintenance.antt =====
-- `reset_running`, `purge_expired_idempotency` and `purge_old_runs` of `RunnerDB`
-- (runner_engine/state.py). Each returns how many rows it changed.
use managed_python_runner_en.Prelude.{
  ℕ, ◌-◌, ◌*◌, Bool, true, false, not, ◌&&◌, Option, none, some, List, ltb, leb, ◌==◌,
  if◌then◌else◌, select, update, delete, rowcount,
}
use managed_python_runner_en.State.Rows.{Clocks, RunRow, KeyRow, Db, is_running, is_key_running}
use managed_python_runner_en.State.Claims.{abandoned_run}

unfoldable pub reset_running : Clocks → Db → ℕ × Db
reset_running t db = (
  rowcount is_running db.runs,
  record db {
    runs =
        update is_running
          (abandoned_run t "RUNNER_RESTART" "Runner restarted while invocation was active") db.runs;
    idempotency_keys = delete is_key_running db.idempotency_keys;
  },
)

abbrev is_past : ℕ → Option ℕ → Bool
is_past now none = false
is_past now (some at) = leb at now

abbrev pub is_expired_key : ℕ → KeyRow → Bool
is_expired_key now row = not (is_key_running row) && is_past now row.expires_at

unfoldable pub purge_expired_idempotency : Clocks → Db → ℕ × Db
purge_expired_idempotency t db = (
  rowcount (is_expired_key t.database) db.idempotency_keys,
  record db { idempotency_keys = delete (is_expired_key t.database) db.idempotency_keys },
)

abbrev is_live : ℕ → Option ℕ → Bool
is_live now none = false
is_live now (some at) = ltb now at

-- The rows of the NOT EXISTS query: a finished key that still serves this run's result.
abbrev pub serves : ℕ → RunRow → KeyRow → Bool
serves now run row =
    row.current_run_id == run.run_id && (not (is_key_running row) && is_live now row.expires_at)

abbrev is_found {ℓ} : {A : Type ℓ} → Option A → Bool
is_found none = false
is_found (some a) = true

-- COALESCE(completed_at, updated_at)
abbrev pub ended_at : RunRow → ℕ
ended_at run = elim run.completed_at [ none ↦ run.updated_at | some at ↦ at ]

abbrev pub is_old_run : ℕ → ℕ → List KeyRow → RunRow → Bool
is_old_run now cutoff idempotency_keys run =
    not (is_running run)
    && (ltb (ended_at run) cutoff && not (is_found (select (serves now run) idempotency_keys)))

unfoldable pub purge_old_runs : Clocks → ℕ → Db → ℕ × Db
purge_old_runs t older_than_ms db =
    let old = is_old_run t.database (t.runner - older_than_ms * 1000) db.idempotency_keys in
    if leb older_than_ms 0
    then (0, db)
    else (rowcount old db.runs, record db { runs = delete old db.runs })
