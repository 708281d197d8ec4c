-- ===== src/Tests/Tables.antt =====
-- Examples of the tables and of the quota.
use managed_python_runner_en.Prelude.{
  String, ◌≡◌, ◌≢◌, refl, true, false, some, none, [], ◌∷◌, ◌+◌, ◌*◌, ◌<◌, ◌≤◌, inl, inr, arith,
  select, update, delete, rowcount, leb, if◌then◌else◌, ◌==◌, eq_iff, Bool-cases, subst, string_eq,
  get, put,
}
use managed_python_runner_en.Errors.{ok, raise, runner, lease}
use managed_python_runner_en.Model.{Lease}
use managed_python_runner_en.Quota.{Quota, reserve_live, release_live, make_quota}
use managed_python_runner_en.Quota.Bounds.{
  IsWithin, make_quota-IsWithin, reserve_live-IsWithin, release_live-IsWithin,
}
use managed_python_runner_en.Base64.RoundTrip.{IsBytes}
use managed_python_runner_en.State.Rows.{
  Db, LeaseRow, RunRow, empty_db, run_row, lease_row, has_lease_id,
}
use managed_python_runner_en.State.Codec.{epoch_ms, result_from_dict, result_to_dict}
use managed_python_runner_en.State.Leases.{
  create_lease, require_lease, renew_lease, delete_lease, lease_of,
}
use managed_python_runner_en.State.Leases.Ownership.{
  require_lease-ok, require_lease-create_lease, require_lease-renew_lease,
}
use managed_python_runner_en.State.Claims.{begin_run, finish_run, new_run_row, reclaimed, replayed}
use managed_python_runner_en.State.Claims.Outcomes.{execute_as, replay_of, with_keys, with_run}
use managed_python_runner_en.State.Maintenance.{purge_old_runs}
use managed_python_runner_en.State.Consistency.{IsConsistent}
use managed_python_runner_en.State.Consistency.Endings.{finish_state}
use managed_python_runner_en.State.Consistency.Maintenance.{purge_old_runs_keeps}
use managed_python_runner_en.State.Replay.{
  result_from_dict-result_to_dict, idempotent_replay, retryable_executes_again, run_exclusive,
}
use managed_python_runner_en.State.Reach.{
  Reach, start, next, begins, creates_lease, Reach-IsConsistent,
}
use managed_python_runner_en.Tests.Data.{
  at, hello_result, try_later, hello_lease, leased_db, hello_claim, held_db, small_quota,
}

abbrev lease_given : Lease
lease_given = lease_of (record hello_lease { expires_at = 900000000 })

lease_created :
    create_lease (at 0) "lease-1" "acme" "p" "q" "hello-1" 900000 empty_db
    ≡ ok (lease_given, leased_db)
unfolding create_lease select
lease_created = refl

begun : begin_run (at 1000) "run-1" hello_claim leased_db ≡ ok (execute_as "run-1", held_db)
unfolding begin_run select
begun = refl

pub leased_db-Reach : Reach leased_db
leased_db-Reach =
    next start
      (creates_lease (at 0) "lease-1" "acme" "p" "q" "hello-1" 900000 lease_given lease_created)

pub leased_db-IsConsistent : IsConsistent leased_db
leased_db-IsConsistent = Reach-IsConsistent leased_db-Reach

pub held_db-Reach : Reach held_db
held_db-Reach =
    next leased_db-Reach (begins (at 1000) "run-1" hello_claim (execute_as "run-1") begun)

Reach-IsConsistent_example : IsConsistent held_db
Reach-IsConsistent_example = Reach-IsConsistent held_db-Reach

pub hello_result-IsBytes : IsBytes hello_result.content
hello_result-IsBytes = (omega arith, (omega arith, tt))

result_example : result_from_dict (result_to_dict hello_result) ≡ ok hello_result
result_example = result_from_dict-result_to_dict hello_result hello_result-IsBytes

idempotent_replay_example :
    let done = finish_state (at 2000) "run-1" "key-1" "acme" "hello-1" hello_result 5000 held_db in
    (finish_run (at 2000) "run-1" "key-1" "acme" "hello-1" hello_result 5000 held_db
      ≡ ok (tt, done))
    × (begin_run (at 3000) "run-2" hello_claim done
        ≡ ok (replay_of hello_result, with_keys hello_claim (replayed (at 3000)) done))
idempotent_replay_example =
    idempotent_replay (at 1000) (at 2000) (at 3000) "run-1" "run-2" hello_claim leased_db held_db
      hello_result 5000 leased_db-IsConsistent begun refl hello_result-IsBytes (omega arith)

fresh_run :
    run_row (finish_state (at 2000) "run-1" "key-1" "acme" "hello-1" try_later 5000 held_db) "run-2"
    ≡ none
unfolding update select
fresh_run = refl

retryable_executes_again_example :
    let done = finish_state (at 2000) "run-1" "key-1" "acme" "hello-1" try_later 5000 held_db in
    (finish_run (at 2000) "run-1" "key-1" "acme" "hello-1" try_later 5000 held_db ≡ ok (tt, done))
    × (begin_run (at 3000) "run-2" hello_claim done
        ≡ ok (
          execute_as "run-2",
          with_run
              (at 3000)
              "run-2"
              hello_claim
              (with_keys hello_claim (reclaimed (at 3000) "run-2" hello_claim) done),
        ))
retryable_executes_again_example =
    retryable_executes_again (at 1000) (at 2000) (at 3000) "run-1" "run-2" hello_claim leased_db
      held_db try_later 5000 leased_db-IsConsistent begun refl (omega arith) fresh_run

run_exclusive_example : begin_run (at 1500) "run-2" hello_claim held_db ≡ (
    if "hello-1" == "hello-1"
    then raise runner "RUN_IN_PROGRESS" "same logical request is already running" true
    else raise runner "IDEMPOTENCY_CONFLICT"
        "idempotency key was reused for different request content" false)
run_exclusive_example =
    run_exclusive (at 1000) (at 1500) "run-1" "run-2" hello_claim hello_claim leased_db held_db
      leased_db-IsConsistent begun refl refl refl

held_db-IsConsistent : IsConsistent held_db
held_db-IsConsistent = Reach-IsConsistent held_db-Reach

abbrev held_run : RunRow
held_run = new_run_row (at 1000) "run-1" hello_claim

held_run_row : run_row held_db "run-1" ≡ some held_run
unfolding select
held_run_row = refl

purge_old_runs_keeps_example :
    run_row (purge_old_runs (at 90000000) 1000 held_db).1 "run-1" ≡ some held_run
purge_old_runs_keeps_example =
    purge_old_runs_keeps (at 90000000) held_db held_db-IsConsistent 1000 "run-1" held_run
      held_run_row (inl refl)

required :
    require_lease (at 2000) "lease-1" "acme" (some "hello-1") leased_db ≡ ok (lease_of hello_lease)
unfolding require_lease select epoch_ms
required = refl

require_lease_example :
    (row : LeaseRow) × (lease_row leased_db "lease-1" ≡ some row)
    × (lease_of hello_lease ≡ lease_of row)
    × (row.tenant_id ≡ "acme")
    × (2000 < row.expires_at)
    × (row.release_id ≡ "hello-1")
require_lease_example =
    require_lease-ok (at 2000) "lease-1" "acme" (some "hello-1") leased_db (lease_of hello_lease)
      required

create_lease_example : require_lease (at 2000) "lease-1" "acme" (some "hello-1") leased_db ≡ (
    if leb (0 + 900000 * 1000) 2000
    then raise lease "LEASE_EXPIRED" "lease expired" true
    else ok lease_given)
create_lease_example =
    require_lease-create_lease (at 0) (at 2000) "lease-1" "acme" "p" "q" "hello-1" 900000
      lease_given empty_db leased_db lease_created

abbrev renewed_row : LeaseRow
renewed_row = record hello_lease { expires_at = 5002000; updated_at = 2000 }

abbrev renewed_lease : Lease
renewed_lease = lease_of renewed_row

lease_renewed :
    renew_lease (at 1000) (at 2000) "lease-1" "acme" 5000 leased_db
    ≡ ok (renewed_lease, record leased_db { leases = renewed_row ∷ [] })
unfolding renew_lease select update epoch_ms
lease_renewed = refl

abbrev other_lease : LeaseRow
other_lease = record hello_lease { id = "lease-2"; tenant_id = "globex" }

abbrev two_leases : Db
two_leases = record empty_db { leases = hello_lease ∷ other_lease ∷ [] }

two_renewed :
    renew_lease (at 1000) (at 2000) "lease-1" "acme" 5000 two_leases
    ≡ ok (renewed_lease, record two_leases { leases = renewed_row ∷ other_lease ∷ [] })
unfolding renew_lease select update epoch_ms
two_renewed = refl

other_row : lease_row two_leases "lease-2" ≡ some other_lease
unfolding select
other_row = refl

deleted :
    delete_lease "lease-1" "acme" two_leases
    ≡ ok (tt, record two_leases { leases = other_lease ∷ [] })
unfolding delete_lease select delete
deleted = refl

two_leases_unique : (lease_id : String) → rowcount (has_lease_id lease_id) two_leases.leases ≤ 1
unfolding rowcount
two_leases_unique lease_id = elim (Bool-cases ("lease-1" == lease_id)) [
  | inl e ↦
      subst (λ n. rowcount (has_lease_id n) two_leases.leases ≤ 1) ((eq_iff "lease-1" lease_id).0 e)
        (omega arith)
  | inr e ↦ rw e (ground arith)
]

other_tenant : other_lease.tenant_id ≢ "acme"
other_tenant e = let h : false ≡ true = (eq_iff "globex" "acme").1 e in absurd (ground arith)

abbrev one_live : Quota
one_live = record small_quota { live = 1; tenant_live = ("acme", 1) ∷ [] }

made_quota : make_quota 2 4 2 ≡ ok small_quota
unfolding make_quota
made_quota = refl

reserved_one : reserve_live "acme" small_quota ≡ ok one_live
unfolding reserve_live get put
reserved_one = refl

renew_lease_example :
    require_lease (at 3000) "lease-1" "acme" none (record leased_db { leases = renewed_row ∷ [] })
    ≡ (if leb (2000 + 5000 * 1000) 3000
        then raise lease "LEASE_EXPIRED" "lease expired" true
        else ok renewed_lease)
renew_lease_example =
    require_lease-renew_lease (at 1000) (at 2000) (at 3000) "lease-1" "acme" 5000 renewed_lease
      leased_db (record leased_db { leases = renewed_row ∷ [] }) lease_renewed

small_quota-IsWithin : IsWithin small_quota
small_quota-IsWithin = make_quota-IsWithin 2 4 2 small_quota made_quota

reserve_live_example : IsWithin one_live
reserve_live_example =
    reserve_live-IsWithin "acme" small_quota one_live small_quota-IsWithin reserved_one

one_live-IsWithin : IsWithin one_live
one_live-IsWithin =
    reserve_live-IsWithin "acme" small_quota one_live small_quota-IsWithin reserved_one

release_live_example : IsWithin (release_live "acme" one_live)
release_live_example = release_live-IsWithin "acme" one_live one_live-IsWithin
