-- ===== src/State/Reach.antt =====
-- Any history of `RunnerDB` calls, from empty tables.
use managed_python_runner_en.Prelude.{ℕ, String, ◌≡◌, some, arith, rowcount, select}
use managed_python_runner_en.Errors.{ok}
use managed_python_runner_en.Model.{Lease, RunResult}
use managed_python_runner_en.State.Rows.{Clocks, RunRow, Db, empty_db, run_row}
use managed_python_runner_en.State.Leases.{
  create_lease, renew_lease, delete_lease, purge_expired_leases,
}
use managed_python_runner_en.State.Claims.{
  RunClaim, ClaimRequest, begin_run, finish_run, abandon_run,
}
use managed_python_runner_en.State.Maintenance.{
  reset_running, purge_expired_idempotency, purge_old_runs,
}
use managed_python_runner_en.State.Consistency.{IsConsistent, Owns}
use managed_python_runner_en.State.Consistency.Claims.{begin_run-IsConsistent}
use managed_python_runner_en.State.Consistency.Endings.{
  abandon_run-IsConsistent, finish_run-IsConsistent,
}
use managed_python_runner_en.State.Consistency.Maintenance.{
  reset_running-IsConsistent, purge_expired_idempotency-IsConsistent, purge_old_runs-IsConsistent,
}

-- One committed call. A call that raises commits nothing, and is no step. Who abandons a run names
-- the run's own key.
pub data Step (db : Db) (after : Db) : Type 0 where
  creates_lease :
      (t : Clocks) (id tenant_id project_id processor_id release_id : String) (ttl_ms : ℕ)
      (l : Lease)
      → create_lease t id tenant_id project_id processor_id release_id ttl_ms db ≡ ok (l, after)
      → Step db after
  renews_lease :
      (checked t : Clocks) (id tenant_id : String) (ttl_ms : ℕ) (l : Lease)
      → renew_lease checked t id tenant_id ttl_ms db ≡ ok (l, after)
      → Step db after
  deletes_lease :
      (id tenant_id : String) → delete_lease id tenant_id db ≡ ok (tt, after) → Step db after
  purges_leases : (t : Clocks) → after ≡ (purge_expired_leases t db).1 → Step db after
  begins :
      (t : Clocks) (id : String) (c : ClaimRequest) (claim : RunClaim)
      → begin_run t id c db ≡ ok (claim, after)
      → Step db after
  finishes :
      (t : Clocks) (id key tenant_id release_id : String) (result : RunResult) (retention_ms : ℕ)
      → finish_run t id key tenant_id release_id result retention_ms db ≡ ok (tt, after)
      → Step db after
  abandons :
      (t : Clocks) (id key tenant_id release_id error_code error_message : String)
      → ((run : RunRow) → run_row db id ≡ some run → Owns tenant_id release_id key run)
      → after ≡ abandon_run t id key tenant_id release_id error_code error_message db
      → Step db after
  resets : (t : Clocks) → after ≡ (reset_running t db).1 → Step db after
  purges_keys : (t : Clocks) → after ≡ (purge_expired_idempotency t db).1 → Step db after
  purges_runs :
      (t : Clocks) (older_than_ms : ℕ)
      → after ≡ (purge_old_runs t older_than_ms db).1
      → Step db after

pub data Reach : Db → Type 0 where
  start : Reach empty_db
  next : {db after : Db} → Reach db → Step db after → Reach after

-- A lease method writes the table of leases only.
abbrev SameRuns : Db → Db → Type 0
SameRuns db after = after ≡ record db { leases = after.leases }

leases-IsConsistent : (db after : Db) → IsConsistent db → SameRuns db after → IsConsistent after
leases-IsConsistent db after v e = rw e (record {
  run_unique = v.run_unique;
  key_unique = v.key_unique;
  claimed = v.claimed;
  owned = v.owned;
})

create_lease-leases :
    (t : Clocks) (id te pr pc re : String) (ttl : ℕ) (l : Lease) (db after : Db)
    → create_lease t id te pr pc re ttl db ≡ ok (l, after)
    → SameRuns db after
unfolding create_lease
create_lease-leases t id te pr pc re ttl l db after h = ground arith

renew_lease-leases :
    (checked t : Clocks) (id te : String) (ttl : ℕ) (l : Lease) (db after : Db)
    → renew_lease checked t id te ttl db ≡ ok (l, after)
    → SameRuns db after
unfolding renew_lease
renew_lease-leases checked t id te ttl l db after h = ground arith

delete_lease-leases :
    (id te : String) (db after : Db) → delete_lease id te db ≡ ok (tt, after) → SameRuns db after
unfolding delete_lease
delete_lease-leases id te db after h = ground arith

Step-IsConsistent : {db after : Db} → Step db after → IsConsistent db → IsConsistent after
Step-IsConsistent {db} {after} (creates_lease t id te pr pc re ttl l e) v =
    leases-IsConsistent db after v (create_lease-leases t id te pr pc re ttl l db after e)
Step-IsConsistent {db} {after} (renews_lease checked t id te ttl l e) v =
    leases-IsConsistent db after v (renew_lease-leases checked t id te ttl l db after e)
Step-IsConsistent {db} {after} (deletes_lease id te e) v =
    leases-IsConsistent db after v (delete_lease-leases id te db after e)
Step-IsConsistent {db} {after} (purges_leases t e) v =
    leases-IsConsistent db after v (unfold purge_expired_leases in ground arith)
Step-IsConsistent {db} (begins t id c claim e) v = begin_run-IsConsistent t id c db v e
Step-IsConsistent {db} (finishes t id key te re result retention e) v =
    finish_run-IsConsistent id te re key db v t result retention e
Step-IsConsistent {db} (abandons t id key te re code message own e) v =
    rw e (abandon_run-IsConsistent id te re key db v t code message own)
Step-IsConsistent {db} (resets t e) v = rw e (reset_running-IsConsistent t db v)
Step-IsConsistent {db} (purges_keys t e) v = rw e (purge_expired_idempotency-IsConsistent t db v)
Step-IsConsistent {db} (purges_runs t n e) v = rw e (purge_old_runs-IsConsistent t db v n)

empty_db-IsConsistent : IsConsistent empty_db
unfolding select rowcount
empty_db-IsConsistent = record {
  run_unique = λ i. omega arith;
  key_unique = λ te re ke. omega arith;
  claimed = λ te re ke row found busy. cc;
  owned = λ i run found busy. cc;
}

-- After any sequence of committed calls from empty tables, in which whoever abandons a run names
-- the run's own key, run identifiers and keys are unique, every RUNNING key names a RUNNING run of
-- that key, and every RUNNING run holds its key.
pub Reach-IsConsistent : {db : Db} → Reach db → IsConsistent db
Reach-IsConsistent start = empty_db-IsConsistent
Reach-IsConsistent (next r s) = Step-IsConsistent s (Reach-IsConsistent r)
