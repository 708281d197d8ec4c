-- ===== src/Service/Requests.antt =====
-- The other methods of `RunnerService` (runner_engine/service.py): leases, `cancel`, `startup` and
-- the body of the maintenance loop.
use managed_python_runner_en.Prelude.{
  ℕ, String, Bool, true, false, not, ◌||◌, none, some, ◌==◌, if◌then◌else◌, string_eq, get, pop,
}
use managed_python_runner_en.Errors.{Result, ok, err, runner, raise, raise_if, ◌>>=◌, ◌>>◌}
use managed_python_runner_en.Model.{Lease}
use managed_python_runner_en.Backend.{Backend}
use managed_python_runner_en.State.Rows.{Clocks, Db, Tx}
use managed_python_runner_en.State.Leases.{
  create_lease, require_lease, renew_lease, delete_lease, purge_expired_leases,
}
use managed_python_runner_en.State.Maintenance.{
  reset_running, purge_expired_idempotency, purge_old_runs,
}
use managed_python_runner_en.Pool.Cells.{Pool}
use managed_python_runner_en.Pool.Destroy.{invalidate}
use managed_python_runner_en.Pool.Reap.{reap, reset_after_restart}
use managed_python_runner_en.Service.Attributes.{after}
use managed_python_runner_en.Service.Cells.{ActiveRun, Service, Settings}

abbrev has_policy : Settings → String → Bool
has_policy settings profile = elim (get profile settings.policies) [ none ↦ false | some _ ↦ true ]

-- These write the table of leases only.
unfoldable pub acquire_lease :
    Settings → Clocks → String → String → String → String → String → Db → Tx Lease
acquire_lease settings t lease_id tenant_id project_id processor_id release_id db = do
  release ← settings.catalog release_id
  raise_if (not (has_policy settings release.profile)) runner "UNKNOWN_SECURITY_POLICY"
      (after "release uses unknown profile " release.profile) false
  create_lease t lease_id tenant_id project_id processor_id release_id settings.lease_ttl_ms db

abbrev pub get_lease : Clocks → String → String → Db → Result Lease
get_lease t tenant_id lease_id db = require_lease t lease_id tenant_id none db

abbrev pub renew_service_lease : Settings → Clocks → Clocks → String → String → Db → Tx Lease
renew_service_lease settings checked t tenant_id lease_id db =
    renew_lease checked t lease_id tenant_id settings.lease_ttl_ms db

abbrev pub release_lease : String → String → Db → Tx (Unit {0})
release_lease tenant_id lease_id db = delete_lease lease_id tenant_id db

-- active.tenant_id != tenant_id or active.lease_id != lease_id
abbrev pub is_foreign : String → String → ActiveRun → Bool
is_foreign tenant_id lease_id active =
    not (active.tenant_id == tenant_id) || not (active.lease_id == lease_id)

module _ {S : Type 0} (b : Backend S) where
  unfoldable pub cancelled : Service S → Result (Unit {0}) × Pool S → Result Bool × Service S
  cancelled s (ok _, p) = (ok true, record s { pool = p })
  cancelled s (err e, p) = (err e, record s { pool = p })

  unfoldable pub cancel : Clocks → String → String → String → Service S → Result Bool × Service S
  unfolding cancelled
  cancel t tenant_id lease_id invocation_id s =
      elim (require_lease t lease_id tenant_id none s.db) [
        | err e ↦ (err e, s)
        | ok _ ↦ elim (get invocation_id s.active) [
          | none ↦ (ok false, s)
          | some active ↦
              if is_foreign tenant_id lease_id active
              then (
                raise runner "CANCEL_FORBIDDEN" "invocation does not belong to this tenant/lease"
                    false,
                s,
              )
              else cancelled (record s { active = pop invocation_id s.active })
                  (invalidate b active.worker s.pool)
        ]
      ]

  -- The part of `startup` behind `reset_after_restart`: what that raises skips the rest.
  unfoldable pub started :
      Clocks → Clocks → Clocks → Result ℕ × Pool S → Service S → Result ℕ × Service S
  started reset leases keys (ok cleaned, p) s =
      let db = (reset_running reset s.db).1 in
      let db' = (purge_expired_leases leases db).1 in
      (ok cleaned, record s { pool = p; db = (purge_expired_idempotency keys db').1 })
  started reset leases keys (err e, p) s = (err e, record s { pool = p })

  -- `self._active` is empty: the process has just started.
  unfoldable pub startup : Clocks → Clocks → Clocks → Service S → Result ℕ × Service S
  unfolding started
  startup reset leases keys s = started reset leases keys (reset_after_restart b s.pool) s

  unfoldable pub purged : Settings → Clocks → Result ℕ × Pool S → Service S → Service S
  purged settings t (ok _, p) s =
      let db = (purge_expired_leases t s.db).1 in
      let db' = (purge_expired_idempotency t db).1 in
      record s { pool = p; db = (purge_old_runs t settings.run_retention_ms db').1 }
  purged settings t (err e, p) s = record s { pool = p }

  -- One turn of the loop: what `reap` raises is logged, and skips the rest.
  unfoldable pub maintain : Settings → ℕ → Clocks → Service S → Service S
  unfolding purged
  maintain settings now t s = purged settings t (reap b now s.pool) s
