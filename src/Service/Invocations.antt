-- ===== src/Service/Invocations.antt =====
-- What a whole invocation keeps in the tables and in the pool, and what a repeated one is answered.
use managed_python_runner_en.Prelude.{
  String, ◌≡◌, refl, ap, true, false, some, ◌∷◌, inl, inr, arith, ◌==◌, eq_iff, Bool-cases,
  Option-cases, string_eq, select, update, select-update, if◌then◌else◌, rewritten,
}
use managed_python_runner_en.Errors.{Result, ok}
use managed_python_runner_en.Model.{RunRequest, RunResult}
use managed_python_runner_en.Backend.{Backend}
use managed_python_runner_en.State.Rows.{Db, RunRow, run_row, has_run_id, is_running}
use managed_python_runner_en.State.Claims.{
  begin_run, abandon_run, finished_run, abandoned_run, is_running_as, new_run_row, replay_expiry,
}
use managed_python_runner_en.State.Claims.Outcomes.{
  Began, inserts, reclaims, replays, execute_as, replay_of, begin_run-Began,
}
use managed_python_runner_en.State.Consistency.{IsConsistent, Owns}
use managed_python_runner_en.State.Consistency.Claims.{begin_run-IsConsistent}
use managed_python_runner_en.State.Consistency.Endings.{
  abandon_run-IsConsistent, finish_run-IsConsistent, finish_run-ok,
}
use managed_python_runner_en.State.Replay.{begin_run-Live}
use managed_python_runner_en.Service.Cells.{Service, Settings, Times}
use managed_python_runner_en.Service.Invoke.{
  Admitted, claim_request, invoke, abandon_code, abandon_message,
}
use managed_python_runner_en.Service.Outcome.{
  Outcome, refused, replayed, finished, abandoned, invoke-Outcome,
}

module _ (settings : Settings) (times : Times) (run_id : String) (before : Db)
    (v : IsConsistent before) where
  -- Whoever ends a run that it claimed names the run's own key.
  own_key :
      (a : Admitted) (held : Db)
      → begin_run times.claimed run_id (claim_request a) before ≡ ok (execute_as run_id, held)
      → (run : RunRow) → run_row held run_id ≡ some run
      → Owns a.request.tenant_id a.request.release_id a.request.idempotency_key run
  own_key a held begun run found =
      let (run0, at, _, owns) =
        begin_run-Live times.claimed run_id (claim_request a) before v begun in
      let same : run0 ≡ run = ground arith in rw (← same) owns

  Outcome-IsConsistent :
      (answer : Result RunResult) (after : Db)
      → Outcome settings times run_id before answer after
      → IsConsistent after
  Outcome-IsConsistent answer after (refused e _ same) = rw same v
  Outcome-IsConsistent answer after (replayed a result begun _) =
      begin_run-IsConsistent times.claimed run_id (claim_request a) before v begun
  Outcome-IsConsistent answer after (finished a held begun (result, _, written)) =
      finish_run-IsConsistent run_id a.request.tenant_id a.request.release_id
        a.request.idempotency_key held
        (begin_run-IsConsistent times.claimed run_id (claim_request a) before v begun) times.ended
        result settings.idempotency_retention_ms written
  Outcome-IsConsistent answer after (abandoned a held begun (e, _, same)) = rw same (
      abandon_run-IsConsistent run_id a.request.tenant_id a.request.release_id
        a.request.idempotency_key held
        (begin_run-IsConsistent times.claimed run_id (claim_request a) before v begun) times.ended
        (abandon_code e) (abandon_message e) (own_key a held begun))

  -- The runs that are RUNNING after the call were RUNNING before it.
  abbrev pub Settled : Db → Type 0
  Settled after =
      (i : String) (run : RunRow)
      → run_row after i ≡ some run
      → is_running run ≡ true
      → run_row before i ≡ some run

  begun_runs :
      (a : Admitted) (held : Db)
      → begin_run times.claimed run_id (claim_request a) before ≡ ok (execute_as run_id, held)
      → held.runs ≡ new_run_row times.claimed run_id (claim_request a) ∷ before.runs
  begun_runs a held begun =
      by_cases (begin_run-Began times.claimed run_id (claim_request a) before begun)
    where
      by_cases :
          {held : Db}
          → Began times.claimed run_id (claim_request a) before (execute_as run_id) held
          → held.runs ≡ new_run_row times.claimed run_id (claim_request a) ∷ before.runs
      by_cases (inserts _ _ _ e) = rw e
      by_cases (reclaims _ _ _ _ _ _ _ e) = rw e
      by_cases (replays _ _ _ _ _ _ e _) = absurd (ground arith)

  -- A replay writes no run.
  replayed_runs :
      (a : Admitted) (result : RunResult) (after : Db)
      → begin_run times.claimed run_id (claim_request a) before ≡ ok (replay_of result, after)
      → after.runs ≡ before.runs
  replayed_runs a result after begun =
      by_cases (begin_run-Began times.claimed run_id (claim_request a) before begun)
    where
      by_cases :
          {after : Db}
          → Began times.claimed run_id (claim_request a) before (replay_of result) after
          → after.runs ≡ before.runs
      by_cases (inserts _ _ e _) = absurd (ground arith)
      by_cases (reclaims _ _ _ _ _ _ e _) = absurd (ground arith)
      by_cases (replays _ _ _ _ _ _ _ e) = rw e

  ended-Settled :
      (a : Admitted) (held after : Db) (f : RunRow → RunRow)
      → begin_run times.claimed run_id (claim_request a) before ≡ ok (execute_as run_id, held)
      → ((run : RunRow) → is_running (f run) ≡ false)
      → ((run : RunRow) → (f run).run_id ≡ run.run_id)
      → after.runs ≡ update (is_running_as run_id) f held.runs
      → Settled after
  unfolding select
  ended-Settled a held after f begun ends named written i run found busy =
      let new = new_run_row times.claimed run_id (claim_request a) in
      let search : run_row after i ≡ rewritten (is_running_as run_id) f (run_row held i) =
        rw written (
          select-update (has_run_id i) (is_running_as run_id) f (λ r. ap (λ n. n == i) (named r))
            held.runs) in
      let split : run_row held i ≡ (if run_id == i then some new else run_row before i) =
        rw (begun_runs a held begun) refl in
      elim (Bool-cases (run_id == i)) [
        | inl e ↦ absurd (ground (arith, search, split, ends new, eq_iff run_id run_id))
        | inr e ↦ elim (Option-cases (run_row before i)) [
          | inl e' ↦ absurd (ground (arith, search, split))
          | inr (r, e') ↦ ground (arith, search, split, ends r)
        ]
      ]

  Outcome-Settled :
      (answer : Result RunResult) (after : Db)
      → Outcome settings times run_id before answer after
      → Settled after
  Outcome-Settled answer after (refused e _ same) = λ i run found busy. rw (← same) found
  Outcome-Settled answer after (replayed a result begun _) =
      λ i run found busy. rw (← replayed_runs a result after begun) found
  Outcome-Settled answer after (finished a held begun (result, _, written)) =
      let expiry = replay_expiry times.ended.runner result settings.idempotency_retention_ms in
      let (_, same) =
        finish_run-ok run_id a.request.tenant_id a.request.release_id a.request.idempotency_key held
          (begin_run-IsConsistent times.claimed run_id (claim_request a) before v begun) times.ended
          result settings.idempotency_retention_ms written in
      ended-Settled a held after (finished_run times.ended result expiry) begun (λ r. refl)
        (λ r. refl) (ap (λ db. db.runs) same)
  Outcome-Settled answer after (abandoned a held begun (e, _, same)) =
      ended-Settled a held after (abandoned_run times.ended (abandon_code e) (abandon_message e))
        begun (λ r. refl) (λ r. refl) (unfold abandon_run in ap (λ db. db.runs) same)

module _ {S : Type 0} (b : Backend S) (settings : Settings) (times : Times) (run_id : String) where
  -- An invocation keeps the tables in step, whatever the backend answers or raises.
  pub invoke-IsConsistent :
      (request : RunRequest) (s : Service S)
      → IsConsistent s.db
      → IsConsistent (invoke b settings times run_id request s).1.db
  invoke-IsConsistent request s v =
      Outcome-IsConsistent settings times run_id s.db v _ _
        (invoke-Outcome b settings times run_id request s)

  -- On tables in step, no invocation leaves a run RUNNING: a run that is RUNNING after it was the
  -- same RUNNING run before it.
  pub invoke_settles :
      (request : RunRequest) (s : Service S)
      → IsConsistent s.db
      → (i : String) (run : RunRow)
      → run_row (invoke b settings times run_id request s).1.db i ≡ some run
      → is_running run ≡ true
      → run_row s.db i ≡ some run
  invoke_settles request s v =
      Outcome-Settled settings times run_id s.db v _ _
        (invoke-Outcome b settings times run_id request s)
