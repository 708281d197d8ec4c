-- ===== src/Service/Repeats.antt =====
-- An invocation that is repeated.
use managed_python_runner_en.Prelude.{
  ◌+◌, ◌*◌, ◌<◌, String, ◌≡◌, sym, ◌∙◌, ap, false, none, inl, inr, arith, eq_self, string_eq, get,
  get-pop,
}
use managed_python_runner_en.Errors.{ok}
use managed_python_runner_en.Model.{RunRequest, RunResult}
use managed_python_runner_en.Backend.{Backend}
use managed_python_runner_en.Base64.RoundTrip.{IsBytes}
use managed_python_runner_en.State.Rows.{Db}
use managed_python_runner_en.State.Claims.{begin_run, replayed}
use managed_python_runner_en.State.Claims.Outcomes.{execute_as, replay_of, with_keys}
use managed_python_runner_en.State.Consistency.{IsConsistent}
use managed_python_runner_en.State.Consistency.Claims.{begin_run-IsConsistent}
use managed_python_runner_en.State.Consistency.Endings.{finish_run-ok, finish_state}
use managed_python_runner_en.State.Replay.{idempotent_replay}
use managed_python_runner_en.Service.Cells.{Service, Settings, Times}
use managed_python_runner_en.Service.Invoke.{
  Admitted, admit, claim_request, claimed, admitted_run, execute, invoke,
}
use managed_python_runner_en.Service.Outcome.{Finished, Recorded, execute-Recorded}

module _ {S : Type 0} (b : Backend S) (settings : Settings) where
  -- `finally`: the invocation is no longer active.
  execute-active :
      (times : Times) (run_id : String) (a : Admitted) (s : Service S)
      → get a.request.invocation_id (execute b settings times run_id a s).1.active ≡ none
  unfolding execute
  execute-active times run_id a s =
      get-pop a.request.invocation_id a.request.invocation_id _
      ∙ (rw (eq_self a.request.invocation_id))

  -- A request that executes and returns: what `execute` did.
  invoke-execute :
      (times : Times) (run_id : String) (request : RunRequest) (a : Admitted) (held : Db)
      (s : Service S)
      → admit settings times request s.db ≡ ok a
      → get a.request.invocation_id s.active ≡ none
      → begin_run times.claimed run_id (claim_request a) s.db ≡ ok (execute_as run_id, held)
      → invoke b settings times run_id request s
        ≡ execute b settings times run_id a (record s { db = held })
  unfolding invoke admitted_run claimed
  invoke-execute times run_id request a held s admitted free begun =
      rw (admitted, invoke) (rw (free, admitted_run) (rw begun))

  invoke-replay :
      (times : Times) (run_id : String) (request : RunRequest) (a : Admitted) (result : RunResult)
      (after : Db) (s : Service S)
      → admit settings times request s.db ≡ ok a
      → get a.request.invocation_id s.active ≡ none
      → begin_run times.claimed run_id (claim_request a) s.db ≡ ok (replay_of result, after)
      → invoke b settings times run_id request s ≡ (ok result, record s { db = after })
  unfolding invoke admitted_run claimed
  invoke-replay times run_id request a result after s admitted free begun =
      rw (admitted, invoke) (rw (free, admitted_run) (rw begun))

  -- A returned result was recorded.
  execute-Finished :
      (times : Times) (run_id : String) (a : Admitted) (s : Service S) (result : RunResult)
      → (execute b settings times run_id a s).0 ≡ ok result
      → Finished settings times run_id a s.db (ok result) (execute b settings times run_id a s).1.db
  execute-Finished times run_id a s result h =
      by_cases (execute-Recorded b settings times run_id a s)
    where
      by_cases :
          Recorded settings times run_id a s.db (execute b settings times run_id a s)
          → Finished settings times run_id a s.db
              (ok result)
              (execute b settings times run_id a s).1.db
      by_cases (inl (e, raised, _)) = absurd (ground arith)
      by_cases (inr (result', returned, written)) = (result', sym h ∙ returned, written)

  -- On tables in step, where a request is admitted, executes and returns a final result whose
  -- content is bytes, and its invocation was not active at the start, the same request, admitted
  -- as before and before the result expires, is answered with that result; the pool and the active
  -- invocations stay as they are and only the replay is noted in the key's row.
  pub invoke_repeats :
      (first second : Times) (run_id run_id' : String) (request : RunRequest) (a : Admitted)
      (result : RunResult) (held : Db) (s done : Service S)
      → IsConsistent s.db
      → admit settings first request s.db ≡ ok a
      → get a.request.invocation_id s.active ≡ none
      → begin_run first.claimed run_id (claim_request a) s.db ≡ ok (execute_as run_id, held)
      → invoke b settings first run_id request s ≡ (ok result, done)
      → result.retryable ≡ false
      → IsBytes result.content
      → admit settings second request done.db ≡ ok a
      → second.claimed.runner < first.ended.runner + settings.idempotency_retention_ms * 1000
      → invoke b settings second run_id' request done ≡ (
        ok result,
        record done { db = with_keys (claim_request a) (replayed second.claimed) done.db },
      )
  invoke_repeats first second run_id run_id' request a result held s done v admitted free begun
        ended final bytes again early =
      let c = claim_request a in
      let retention = settings.idempotency_retention_ms in
      let run = execute b settings first run_id a (record s { db = held }) in
      let same : run ≡ (ok result, done) =
        sym (invoke-execute first run_id request a held s admitted free begun) ∙ ended in
      let (result', here, written) =
        execute-Finished first run_id a (record s { db = held }) result (ap (λ r. r.0) same) in
      let consistent = begin_run-IsConsistent first.claimed run_id c s.db v begun in
      let (_, finished) =
        finish_run-ok run_id c.tenant_id c.release_id c.key held consistent first.ended result'
          retention written in
      let mine : result' ≡ result = ground arith in
      let left : done.db
          ≡ finish_state first.ended run_id c.key c.tenant_id c.release_id result retention held =
        sym (ap (λ r. r.1.db) same) ∙ finished ∙ (rw mine) in
      let inactive : get a.request.invocation_id done.active ≡ none =
        sym (ap (λ r. get a.request.invocation_id r.1.active) same)
        ∙ execute-active first run_id a (record s { db = held }) in
      let (_, replay) =
        idempotent_replay first.claimed first.ended second.claimed run_id run_id' c s.db held result
          retention v begun final bytes early in
      invoke-replay second run_id' request a result (with_keys c (replayed second.claimed) done.db)
        done again inactive (rw left replay)
