-- ===== src/Service/Outcome.antt =====
-- The ways in which `invoke` ends, and what it leaves in the tables.
use managed_python_runner_en.Prelude.{
  ℕ, String, ◌≡◌, refl, Option, none, some, ◌⊎◌, inl, inr, Option-cases, get_elem?, string_eq, get,
  put,
}
use managed_python_runner_en.Errors.{Result, ok, err, Error, exception, ◌>>=◌, Result-cases}
use managed_python_runner_en.Model.{RunRequest, RunResult}
use managed_python_runner_en.Backend.{Backend}
use managed_python_runner_en.State.Rows.{Db}
use managed_python_runner_en.State.Claims.{RunClaim, begin_run, finish_run, abandon_run}
use managed_python_runner_en.State.Claims.Outcomes.{
  Began, inserts, reclaims, replays, execute_as, replay_of, begin_run-Began,
}
use managed_python_runner_en.Pool.Cells.{Pool}
use managed_python_runner_en.Pool.Destroy.{invalidate}
use managed_python_runner_en.Pool.Acquire.{acquire}
use managed_python_runner_en.Service.Cells.{Service, Settings, Times}
use managed_python_runner_en.Service.Invoke.{
  Admitted, admit, claim_request, safe_output, reraised, abandon_code, abandon_message, failed,
  persisted, completed, ran, in_use, acquired, execute, claimed, admitted_run, invoke, active_run,
  became_active,
}

-- The end of a claimed run: what is raised is recorded as an abandoned run, and what is returned as
-- a finished one.
module _ (settings : Settings) (times : Times) (run_id : String) (a : Admitted) where
  abbrev pub Abandoned : Db → Result RunResult → Db → Type 0
  Abandoned db answer after =
      (e : Error) × (answer ≡ err (reraised e))
      × (after
          ≡ abandon_run times.ended run_id a.request.idempotency_key a.request.tenant_id
              a.request.release_id (abandon_code e) (abandon_message e) db)

  abbrev pub Finished : Db → Result RunResult → Db → Type 0
  Finished db answer after =
      (result : RunResult) × (answer ≡ ok result)
      × (finish_run times.ended run_id a.request.idempotency_key a.request.tenant_id
            a.request.release_id result settings.idempotency_retention_ms db
          ≡ ok (tt, after))

  abbrev pub Recorded : {S : Type 0} → Db → Result RunResult × Service S → Type 0
  Recorded db end = Abandoned db end.0 end.1.db ⊎ Finished db end.0 end.1.db

module _ {S : Type 0} (b : Backend S) (settings : Settings) (times : Times) (run_id : String)
    (a : Admitted) where
  failed-Recorded :
      (worker : Option ℕ) (e : Error) (s : Service S)
      → Recorded settings times run_id a s.db (failed b settings times run_id a worker e s)
  unfolding failed
  failed-Recorded worker e s = inl (e, refl, refl)

  persisted-Recorded :
      (i : ℕ) (result : RunResult) (written : Result (Unit {0} × Db)) (s : Service S)
      → finish_run times.ended run_id a.request.idempotency_key a.request.tenant_id
          a.request.release_id result settings.idempotency_retention_ms s.db
        ≡ written
      → Recorded settings times run_id a s.db
          (persisted b settings times run_id a i result written s)
  unfolding persisted
  persisted-Recorded i result (ok (u, db)) s h = inr (result, refl, h)
  persisted-Recorded i result (err e) s h = failed-Recorded (some i) e s

  completed-Recorded :
      (i : ℕ) (answer : Result RunResult) (s : Service S)
      → Recorded settings times run_id a s.db (completed b settings times run_id a i answer s)
  unfolding completed
  completed-Recorded i (ok result) s = persisted-Recorded i result _ s refl
  completed-Recorded i (err e) s = failed-Recorded (some i) e s

  ran-Recorded :
      (i : ℕ) (answer : Result RunResult × S) (s : Service S)
      → Recorded settings times run_id a s.db (ran b settings times run_id a i answer s)
  unfolding ran
  ran-Recorded i (answer, backend) s =
      completed-Recorded i (answer >>= safe_output a.release)
        (record s { pool = record s.pool { backend = backend } })

  in_use-Recorded :
      (i : ℕ) (answer : Result (Unit {0}) × Pool S) (s : Service S)
      → Recorded settings times run_id a s.db (in_use b settings times run_id a i answer s)
  unfolding in_use
  in_use-Recorded i (ok u, p) s = failed-Recorded none became_active (record s { pool = p })
  in_use-Recorded i (err e, p) s = failed-Recorded (some i) e (record s { pool = p })

  acquired-Recorded :
      (answer : Result ℕ × Pool S) (s : Service S)
      → Recorded settings times run_id a s.db (acquired b settings times run_id a answer s)
  unfolding acquired
  acquired-Recorded (err e, p) s = failed-Recorded none e (record s { pool = p })
  acquired-Recorded (ok i, p) s = elim (Option-cases (get a.request.invocation_id s.active)) [
    | inr (other, e) ↦ rw (e, acquired) (in_use-Recorded i (invalidate b i p) s)
    | inl e ↦ elim (Option-cases (get_elem? p.workers i)) [
      | inl e' ↦
          rw (e, acquired) (rw e' (failed-Recorded none (exception "") (record s { pool = p })))
      | inr (w, e') ↦
          rw (e, acquired)
            (rw e' (
              ran-Recorded i (b.run w a.release a.request a.request.timeout_ms p.backend)
                (record s {
                  pool = p;
                  active =
                      put a.request.invocation_id (active_run b settings times run_id a i) s.active;
                })))
    ]
  ]

  pub execute-Recorded :
      (s : Service S) → Recorded settings times run_id a s.db (execute b settings times run_id a s)
  unfolding execute
  execute-Recorded s =
      acquired-Recorded (acquire b times.acquired a.request.tenant_id a.release a.policy s.pool) s

-- How an invocation ends: it is refused before it claims its key, it is answered with the result of
-- an earlier run, or its own run is finished or abandoned.
pub data Outcome (settings : Settings) (times : Times) (run_id : String) (before : Db)
    (answer : Result RunResult) (after : Db) : Type 0 where
  refused :
      (e : Error)
      → answer ≡ err e
      → after ≡ before
      → Outcome settings times run_id before answer after
  replayed :
      (a : Admitted) (result : RunResult)
      → begin_run times.claimed run_id (claim_request a) before ≡ ok (replay_of result, after)
      → answer ≡ ok result
      → Outcome settings times run_id before answer after
  finished :
      (a : Admitted) (held : Db)
      → begin_run times.claimed run_id (claim_request a) before ≡ ok (execute_as run_id, held)
      → Finished settings times run_id a held answer after
      → Outcome settings times run_id before answer after
  abandoned :
      (a : Admitted) (held : Db)
      → begin_run times.claimed run_id (claim_request a) before ≡ ok (execute_as run_id, held)
      → Abandoned settings times run_id a held answer after
      → Outcome settings times run_id before answer after

module _ {S : Type 0} (b : Backend S) (settings : Settings) (times : Times) (run_id : String) where
  recorded-Outcome :
      (a : Admitted) (before held : Db) (end : Result RunResult × Service S)
      → begin_run times.claimed run_id (claim_request a) before ≡ ok (execute_as run_id, held)
      → Recorded settings times run_id a held end
      → Outcome settings times run_id before end.0 end.1.db
  recorded-Outcome a before held end begun (inl h) = abandoned a held begun h
  recorded-Outcome a before held end begun (inr h) = finished a held begun h

  claimed-Outcome :
      (a : Admitted) (claim : RunClaim) (db : Db) (s : Service S)
      → begin_run times.claimed run_id (claim_request a) s.db ≡ ok (claim, db)
      → Began times.claimed run_id (claim_request a) s.db claim db
      → let end = claimed b settings times run_id a (ok (claim, db)) s in
        Outcome settings times run_id s.db end.0 end.1.db
  unfolding claimed
  claimed-Outcome a claim db s h (inserts _ _ same _) =
      let begun : begin_run times.claimed run_id (claim_request a) s.db
          ≡ ok (execute_as run_id, db) =
        rw (← same) h in
      rw same (
        recorded-Outcome a s.db db (execute b settings times run_id a (record s { db = db })) begun
          (execute-Recorded b settings times run_id a (record s { db = db })))
  claimed-Outcome a claim db s h (reclaims _ _ _ _ _ _ same _) =
      let begun : begin_run times.claimed run_id (claim_request a) s.db
          ≡ ok (execute_as run_id, db) =
        rw (← same) h in
      rw same (
        recorded-Outcome a s.db db (execute b settings times run_id a (record s { db = db })) begun
          (execute-Recorded b settings times run_id a (record s { db = db })))
  claimed-Outcome a claim db s h (replays _ result _ _ _ _ same _) =
      let begun : begin_run times.claimed run_id (claim_request a) s.db
          ≡ ok (replay_of result, db) =
        rw (← same) h in
      rw same (replayed a result begun refl)

  admitted_run-Outcome :
      (a : Admitted) (s : Service S)
      → let end = admitted_run b settings times run_id a s in
        Outcome settings times run_id s.db end.0 end.1.db
  unfolding admitted_run
  admitted_run-Outcome a s = elim (Option-cases (get a.request.invocation_id s.active)) [
    | inr (other, e) ↦ rw (e, admitted_run) (refused _ refl refl)
    | inl e ↦ elim (Result-cases (begin_run times.claimed run_id (claim_request a) s.db)) [
      | inr (x, h) ↦ rw (e, admitted_run) (rw h (unfold claimed in refused x refl refl))
      | inl ((claim, db), h) ↦
          rw (e, admitted_run)
            (rw h (
              claimed-Outcome a claim db s h
                (begin_run-Began times.claimed run_id (claim_request a) s.db h)))
    ]
  ]

  -- Every invocation ends in one of four ways: refused with the tables unchanged, answered with an
  -- earlier run's result, finished in the tables with the result that it returns, or abandoned in
  -- the tables with the error that it raises.
  pub invoke-Outcome :
      (request : RunRequest) (s : Service S)
      → let end = invoke b settings times run_id request s in
        Outcome settings times run_id s.db end.0 end.1.db
  unfolding invoke
  invoke-Outcome request s = elim (Result-cases (admit settings times request s.db)) [
    | inr (x, h) ↦ rw (h, invoke) (refused x refl refl)
    | inl (a, h) ↦ rw (h, invoke) (admitted_run-Outcome a s)
  ]
