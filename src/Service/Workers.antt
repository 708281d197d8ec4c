-- ===== src/Service/Workers.antt =====
-- What invocations and cancellations do to the pool's workers.
use managed_python_runner_en.Prelude.{
  ℕ, ◌<◌, String, ◌≡◌, refl, Option, none, some, ◌⊎◌, inl, inr, Bool-cases, Option-cases, get_elem?,
  arith, eq_iff, string_eq, get, put,
}
use managed_python_runner_en.Errors.{Result, ok, err, Error, exception, ◌>>=◌, Result-cases}
use managed_python_runner_en.Model.{RunRequest, RunResult}
use managed_python_runner_en.Backend.{Backend}
use managed_python_runner_en.State.Rows.{Clocks, Db, LeaseRow, lease_row}
use managed_python_runner_en.State.Leases.{require_lease}
use managed_python_runner_en.State.Leases.Ownership.{require_lease-ok}
use managed_python_runner_en.State.Claims.{RunClaim, begin_run}
use managed_python_runner_en.Pool.Cells.{Pool}
use managed_python_runner_en.Pool.Destroy.{invalidate}
use managed_python_runner_en.Pool.Acquire.{acquire}
use managed_python_runner_en.Pool.Recording.{Trace, recorded, SameTrace}
use managed_python_runner_en.Pool.Accounting.{IsAccounted, talk-IsAccounted}
use managed_python_runner_en.Pool.Accounting.Methods.{
  acquire-IsAccounted, release-IsAccounted, invalidate-IsAccounted,
}
use managed_python_runner_en.Service.Cells.{ActiveRun, Service, Settings, Times}
use managed_python_runner_en.Service.Invoke.{
  Admitted, admit, claim_request, safe_output, is_reusable, failed, persisted, completed, ran,
  in_use, acquired, execute, claimed, admitted_run, invoke, active_run, became_active,
}
use managed_python_runner_en.Service.Requests.{cancel, is_foreign}

module _ {S : Type 0} (b : Backend S) (settings : Settings) (times : Times) (run_id : String) where
  -- The end of an invocation, whose pool is in order.
  abbrev Ends : Result RunResult × Service (Trace S) → Type 0
  Ends end = IsAccounted end.1.pool

  failed-Ends :
      (a : Admitted) (worker : Option ℕ) (e : Error) (s : Service (Trace S))
      → IsAccounted s.pool
      → Ends (failed (recorded b) settings times run_id a worker e s)
  unfolding failed
  failed-Ends a none e s v = v
  failed-Ends a (some i) e s v = invalidate-IsAccounted b i s.pool v

  persisted-Ends :
      (a : Admitted) (i : ℕ) (result : RunResult) (written : Result (Unit {0} × Db))
      (s : Service (Trace S))
      → IsAccounted s.pool
      → Ends (persisted (recorded b) settings times run_id a i result written s)
  unfolding persisted
  persisted-Ends a i result (err e) s v = failed-Ends a (some i) e s v
  persisted-Ends a i result (ok (u, db)) s v = elim (Bool-cases (is_reusable result)) [
    | inl e ↦ rw e (release-IsAccounted b times.released i a.policy s.pool v)
    | inr e ↦ rw e (invalidate-IsAccounted b i s.pool v)
  ]

  completed-Ends :
      (a : Admitted) (i : ℕ) (answer : Result RunResult) (s : Service (Trace S))
      → IsAccounted s.pool
      → Ends (completed (recorded b) settings times run_id a i answer s)
  unfolding completed
  completed-Ends a i (ok result) s v = persisted-Ends a i result _ s v
  completed-Ends a i (err e) s v = failed-Ends a (some i) e s v

  ran-Ends :
      (a : Admitted) (i : ℕ) (answer : Result RunResult × Trace S) (s : Service (Trace S))
      → SameTrace s.pool.backend answer.1
      → IsAccounted s.pool
      → Ends (ran (recorded b) settings times run_id a i answer s)
  unfolding ran
  ran-Ends a i (answer, backend) s same v =
      completed-Ends a i (answer >>= safe_output a.release)
        (record s { pool = record s.pool { backend = backend } })
        (talk-IsAccounted s.pool backend same v)

  in_use-Ends :
      (a : Admitted) (i : ℕ) (answer : Result (Unit {0}) × Pool (Trace S)) (s : Service (Trace S))
      → IsAccounted answer.1
      → Ends (in_use (recorded b) settings times run_id a i answer s)
  unfolding in_use
  in_use-Ends a i (ok u, p) s v = failed-Ends a none became_active (record s { pool = p }) v
  in_use-Ends a i (err e, p) s v = failed-Ends a (some i) e (record s { pool = p }) v

  acquired-Ends :
      (a : Admitted) (answer : Result ℕ × Pool (Trace S)) (s : Service (Trace S))
      → IsAccounted answer.1
      → Ends (acquired (recorded b) settings times run_id a answer s)
  unfolding acquired
  acquired-Ends a (err e, p) s v = failed-Ends a none e (record s { pool = p }) v
  acquired-Ends a (ok i, p) s v = elim (Option-cases (get a.request.invocation_id s.active)) [
    | inr (other, e) ↦
        rw (e, acquired)
          (in_use-Ends a i (invalidate (recorded b) i p) s (invalidate-IsAccounted b i p v))
    | inl e ↦ elim (Option-cases (get_elem? p.workers i)) [
      | inl e' ↦
          rw (e, acquired) (rw e' (failed-Ends a none (exception "") (record s { pool = p }) v))
      | inr (w, e') ↦
          rw (e, acquired)
            (rw e' (
              ran-Ends a i ((recorded b).run w a.release a.request a.request.timeout_ms p.backend)
                (record s {
                  pool = p;
                  active =
                      put a.request.invocation_id
                        (active_run (recorded b) settings times run_id a i) s.active;
                })
                (refl, refl) v))
    ]
  ]

  execute-Ends :
      (a : Admitted) (s : Service (Trace S))
      → IsAccounted s.pool
      → Ends (execute (recorded b) settings times run_id a s)
  unfolding execute
  execute-Ends a s v =
      acquired-Ends a
        (acquire (recorded b) times.acquired a.request.tenant_id a.release a.policy s.pool) s
        (acquire-IsAccounted b times.acquired a.request.tenant_id a.release a.policy s.pool v)

  claimed-Ends :
      (a : Admitted) (claim : Result (RunClaim × Db)) (s : Service (Trace S))
      → IsAccounted s.pool
      → Ends (claimed (recorded b) settings times run_id a claim s)
  unfolding claimed
  claimed-Ends a (err e) s v = v
  claimed-Ends a (ok (claim, db)) s v = elim (Option-cases claim.cached_result) [
    | inr (result, e) ↦ rw (e, claimed) v
    | inl e ↦ elim (Option-cases claim.run_id) [
      | inl e' ↦ rw (e, claimed) (rw e' v)
      | inr (i, e') ↦ rw (e, claimed) (rw e' (execute-Ends a (record s { db = db }) v))
    ]
  ]

  -- An invocation, on any backend whose calls of create and destroy are recorded, keeps the pool's
  -- accounting, whatever the backend answers or raises: the quota counts the workers that are not
  -- destroyed, of all tenants and of each; for each identifier, the calls of destroy with a worker
  -- that is marked as destroyed are as many as the pool's destroyed workers; and the sandboxes
  -- that create made are as many as the pool's workers and the calls of destroy with a worker that
  -- is not marked together.
  pub invoke-IsAccounted :
      (request : RunRequest) (s : Service (Trace S))
      → IsAccounted s.pool
      → IsAccounted (invoke (recorded b) settings times run_id request s).1.pool
  unfolding invoke admitted_run
  invoke-IsAccounted request s v = elim (Result-cases (admit settings times request s.db)) [
    | inr (x, h) ↦ rw (h, invoke) v
    | inl (a, h) ↦ elim (Option-cases (get a.request.invocation_id s.active)) [
      | inr (other, e) ↦ rw (h, invoke) (rw (e, admitted_run) v)
      | inl e ↦
          rw (h, invoke)
            (rw (e, admitted_run)
              (claimed-Ends a (begin_run times.claimed run_id (claim_request a) s.db) s v))
    ]
  ]

module _ {S : Type 0} (b : Backend S) where
  -- What a cancellation that changes the service has found: an active invocation of the tenant
  -- under the lease, and the tenant's lease, which has not expired.
  abbrev pub MayCancel : Clocks → String → String → String → Service S → Type 0
  MayCancel t tenant_id lease_id invocation_id s =
      (active : ActiveRun) × (row : LeaseRow) × (get invocation_id s.active ≡ some active)
      × (active.tenant_id ≡ tenant_id)
      × (active.lease_id ≡ lease_id)
      × (lease_row s.db lease_id ≡ some row)
      × (row.tenant_id ≡ tenant_id)
      × (t.runner < row.expires_at)

  -- A cancellation leaves the service as it was, or there is an active invocation of that
  -- identifier whose tenant and lease are the caller's, and the lease's row is the tenant's and
  -- has not expired.
  pub cancel-MayCancel :
      (t : Clocks) (tenant_id lease_id invocation_id : String) (s : Service S)
      → ((cancel b t tenant_id lease_id invocation_id s).1 ≡ s)
        ⊎ MayCancel t tenant_id lease_id invocation_id s
  unfolding cancel
  cancel-MayCancel t te l id s = elim (Result-cases (require_lease t l te none s.db)) [
    | inr (x, h) ↦ inl (rw (h, cancel) refl)
    | inl (granted, h) ↦ elim (Option-cases (get id s.active)) [
      | inl e ↦ inl (rw (h, cancel) (rw e refl))
      | inr (active, e) ↦ elim (Bool-cases (is_foreign te l active)) [
        | inl other ↦ inl (rw (h, cancel) (rw e (rw other refl)))
        | inr own ↦
            let (row, at, _, mine, live, _) = require_lease-ok t l te none s.db granted h in
            let tenant : active.tenant_id ≡ te = ground (arith, eq_iff active.tenant_id te) in
            let lease : active.lease_id ≡ l = ground (arith, eq_iff active.lease_id l) in
            inr (active, row, e, tenant, lease, at, mine, live)
      ]
    ]
  ]
