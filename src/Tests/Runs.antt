-- ===== src/Tests/Runs.antt =====
-- Examples of the service: one request is run, and is run again.
use managed_python_runner_en.Prelude.{
  ℕ, ◌≡◌, ◌⊎◌, refl, some, none, [], ◌∷◌, arith, rowcount, get, put, string_eq, select,
}
use managed_python_runner_en.Errors.{ok}
use managed_python_runner_en.Quota.{reserve_live}
use managed_python_runner_en.State.Rows.{RunRow, run_row}
use managed_python_runner_en.State.Codec.{epoch_ms}
use managed_python_runner_en.State.Leases.{require_lease}
use managed_python_runner_en.State.Claims.{
  begin_run, finish_run, replayed, new_run_row, abandoned_run,
}
use managed_python_runner_en.State.Claims.Outcomes.{execute_as, with_keys}
use managed_python_runner_en.State.Reach.{Reach-IsConsistent}
use managed_python_runner_en.State.Consistency.{IsConsistent}
use managed_python_runner_en.Pool.Destroy.{destroy_all}
use managed_python_runner_en.Pool.Acquire.{acquire, take_idle, chosen, create, created, made}
use managed_python_runner_en.Pool.Recording.{Trace, recorded}
use managed_python_runner_en.Pool.Accounting.{IsAccounted}
use managed_python_runner_en.Service.Attributes.{
  filter_attributes, filter_allowed, validate_attributes, attribute_bytes, request_fingerprint,
}
use managed_python_runner_en.Service.Cells.{ActiveRun, Service}
use managed_python_runner_en.Service.Invoke.{
  admit, bounded_timeout, claim_request, safe_output, persisted, completed, ran, acquired, execute,
  claimed, admitted_run, invoke,
}
use managed_python_runner_en.Service.Requests.{cancel}
use managed_python_runner_en.Service.Outcome.{Outcome, invoke-Outcome}
use managed_python_runner_en.Service.Invocations.{invoke-IsConsistent, invoke_settles}
use managed_python_runner_en.Service.Repeats.{invoke_repeats}
use managed_python_runner_en.Service.Workers.{invoke-IsAccounted, MayCancel, cancel-MayCancel}
use managed_python_runner_en.Tests.Data.{
  at, hello_result, calm_backend, hello_settings, hello_request, hello_admitted, hello_times,
  hello_service, held_db, leased_db,
}
use managed_python_runner_en.Tests.Tables.{
  held_db-Reach, leased_db-IsConsistent, hello_result-IsBytes,
}
use managed_python_runner_en.Tests.Workers.{recorded_pool, recorded_pool-IsAccounted}

abbrev done : Service ℕ
done = (invoke calm_backend hello_settings (hello_times 1000) "run-1" hello_request hello_service).1

invoke-Outcome_example :
    let end =
      invoke calm_backend hello_settings (hello_times 1000) "run-1" hello_request hello_service in
    Outcome hello_settings (hello_times 1000) "run-1" leased_db end.0 end.1.db
invoke-Outcome_example =
    invoke-Outcome calm_backend hello_settings (hello_times 1000) "run-1" hello_request
      hello_service

invoke-IsConsistent_example : IsConsistent done.db
invoke-IsConsistent_example =
    invoke-IsConsistent calm_backend hello_settings (hello_times 1000) "run-1" hello_request
      hello_service leased_db-IsConsistent

abbrev recorded_service : Service (Trace ℕ)
recorded_service = record { db = leased_db; pool = recorded_pool; active = [] }

invoke-IsAccounted_example :
    IsAccounted
      (invoke
        (recorded calm_backend)
        hello_settings
        (hello_times 1000)
        "run-1"
        hello_request
        recorded_service).1.pool
invoke-IsAccounted_example =
    invoke-IsAccounted calm_backend hello_settings (hello_times 1000) "run-1" hello_request
      recorded_service recorded_pool-IsAccounted

admitted_first : admit hello_settings (hello_times 1000) hello_request leased_db ≡ ok hello_admitted
unfolding admit require_lease select get epoch_ms filter_attributes filter_allowed
    validate_attributes attribute_bytes bounded_timeout request_fingerprint
admitted_first = refl

inactive : get "call-1" hello_service.active ≡ none
unfolding get
inactive = refl

begun_first :
    begin_run (at 1000) "run-1" (claim_request hello_admitted) leased_db
    ≡ ok (execute_as "run-1", held_db)
unfolding begin_run select
begun_first = refl

returned :
    invoke calm_backend hello_settings (hello_times 1000) "run-1" hello_request hello_service
    ≡ (ok hello_result, done)
unfolding invoke admit require_lease select get put epoch_ms filter_attributes filter_allowed
    validate_attributes attribute_bytes bounded_timeout request_fingerprint admitted_run begin_run
    claimed execute acquired acquire take_idle destroy_all chosen create reserve_live created made
    ran completed safe_output persisted finish_run rowcount
returned = refl

admitted_again : admit hello_settings (hello_times 3000) hello_request done.db ≡ ok hello_admitted
unfolding invoke admit require_lease select get put epoch_ms filter_attributes filter_allowed
    validate_attributes attribute_bytes bounded_timeout request_fingerprint admitted_run begin_run
    claimed execute acquired acquire take_idle destroy_all chosen create reserve_live created made
    ran completed safe_output persisted finish_run rowcount
admitted_again = refl

invoke_repeats_example :
    invoke calm_backend hello_settings (hello_times 3000) "run-2" hello_request done ≡ (
      ok hello_result,
      record done { db = with_keys (claim_request hello_admitted) (replayed (at 3000)) done.db },
    )
invoke_repeats_example =
    invoke_repeats calm_backend hello_settings (hello_times 1000) (hello_times 3000) "run-1" "run-2"
      hello_request hello_admitted hello_result held_db hello_service done leased_db-IsConsistent
      admitted_first inactive begun_first returned refl hello_result-IsBytes admitted_again
      (omega arith)

abbrev running_service : Service ℕ
running_service = record hello_service { db = held_db }

held_run_after :
    run_row
      (invoke calm_backend hello_settings
        (hello_times 1500)
        "run-2"
        hello_request
        running_service).1.db
      "run-1"
    ≡ some (new_run_row (at 1000) "run-1" (claim_request hello_admitted))
unfolding invoke admit require_lease select get epoch_ms filter_attributes filter_allowed
    validate_attributes attribute_bytes bounded_timeout request_fingerprint admitted_run begin_run
    claimed
held_run_after = refl

held_db-IsConsistent : IsConsistent held_db
held_db-IsConsistent = Reach-IsConsistent held_db-Reach

invoke_settles_example :
    run_row held_db "run-1" ≡ some (new_run_row (at 1000) "run-1" (claim_request hello_admitted))
invoke_settles_example =
    invoke_settles calm_backend hello_settings (hello_times 1500) "run-2" hello_request
      running_service held_db-IsConsistent "run-1"
      (new_run_row (at 1000) "run-1" (claim_request hello_admitted)) held_run_after refl

abbrev restarted_run : RunRow
restarted_run =
    abandoned_run (at 5000) "RUNNER_RESTART" "Runner restarted while invocation was active"
      (new_run_row (at 1000) "run-1" (claim_request hello_admitted))

abbrev busy_run : ActiveRun
busy_run = record { tenant_id = "acme"; lease_id = "lease-1"; release_id = "hello-1"; worker = 0 }

abbrev busy_service : Service ℕ
busy_service = record hello_service { active = ("call-9", busy_run) ∷ [] }

cancel-MayCancel_example :
    ((cancel calm_backend (at 2000) "acme" "lease-1" "call-9" busy_service).1 ≡ busy_service)
    ⊎ MayCancel calm_backend (at 2000) "acme" "lease-1" "call-9" busy_service
cancel-MayCancel_example =
    cancel-MayCancel calm_backend (at 2000) "acme" "lease-1" "call-9" busy_service
