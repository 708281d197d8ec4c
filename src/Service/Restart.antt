-- ===== src/Service/Restart.antt =====
-- Start-up and maintenance.
use managed_python_runner_en.Prelude.{ℕ}
use managed_python_runner_en.Errors.{Result, ok, err}
use managed_python_runner_en.Backend.{Backend}
use managed_python_runner_en.State.Rows.{Clocks, Db}
use managed_python_runner_en.State.Leases.{purge_expired_leases}
use managed_python_runner_en.State.Maintenance.{reset_running, purge_expired_idempotency}
use managed_python_runner_en.State.Consistency.{IsConsistent}
use managed_python_runner_en.State.Consistency.Maintenance.{
  reset_running-IsConsistent, purge_expired_idempotency-IsConsistent, purge_old_runs-IsConsistent,
}
use managed_python_runner_en.Pool.Cells.{Pool}
use managed_python_runner_en.Pool.Reap.{reap, reset_after_restart}
use managed_python_runner_en.Service.Cells.{Service, Settings}
use managed_python_runner_en.Service.Requests.{started, startup, maintain, purged}

purge_expired_leases-IsConsistent :
    (t : Clocks) (db : Db) → IsConsistent db → IsConsistent (purge_expired_leases t db).1
unfolding purge_expired_leases
purge_expired_leases-IsConsistent t db v = record {
  run_unique = v.run_unique;
  key_unique = v.key_unique;
  claimed = v.claimed;
  owned = v.owned;
}

module _ {S : Type 0} (b : Backend S) where
  started-IsConsistent :
      (reset leases keys : Clocks) (answer : Result ℕ × Pool S) (s : Service S)
      → IsConsistent s.db
      → IsConsistent (started b reset leases keys answer s).1.db
  unfolding started
  started-IsConsistent reset leases keys (err e, p) s v = v
  started-IsConsistent reset leases keys (ok n, p) s v =
      purge_expired_idempotency-IsConsistent keys
        (purge_expired_leases leases (reset_running reset s.db).1).1
        (purge_expired_leases-IsConsistent leases (reset_running reset s.db).1
          (reset_running-IsConsistent reset s.db v))

  -- Start-up keeps the tables in step, also where the backend raises.
  pub startup-IsConsistent :
      (reset leases keys : Clocks) (s : Service S)
      → IsConsistent s.db
      → IsConsistent (startup b reset leases keys s).1.db
  unfolding startup
  startup-IsConsistent reset leases keys s v =
      started-IsConsistent reset leases keys (reset_after_restart b s.pool) s v

  purged-IsConsistent :
      (settings : Settings) (t : Clocks) (answer : Result ℕ × Pool S) (s : Service S)
      → IsConsistent s.db
      → IsConsistent (purged b settings t answer s).db
  unfolding purged
  purged-IsConsistent settings t (ok n, p) s v =
      let db = (purge_expired_leases t s.db).1 in
      purge_old_runs-IsConsistent t (purge_expired_idempotency t db).1
        (purge_expired_idempotency-IsConsistent t db (purge_expired_leases-IsConsistent t s.db v))
        settings.run_retention_ms
  purged-IsConsistent settings t (err e, p) s v = v

  -- A turn of the maintenance loop keeps the tables in step, also where reap raises.
  pub maintain-IsConsistent :
      (settings : Settings) (now : ℕ) (t : Clocks) (s : Service S)
      → IsConsistent s.db
      → IsConsistent (maintain b settings now t s).db
  unfolding maintain
  maintain-IsConsistent settings now t s v = purged-IsConsistent settings t (reap b now s.pool) s v
