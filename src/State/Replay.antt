-- ===== src/State/Replay.antt =====
-- Idempotent replay: what `begin_run` answers while a run holds a key and after the run is finished.
use managed_python_runner_en.Prelude.{
  ℕ, ◌+◌, ◌*◌, ◌≤◌, ◌<◌, String, ◌≡◌, refl, ◌∙◌, true, false, none, some, arith, ◌==◌, eq_iff,
  if◌then◌else◌, select, select-holds, select-update,
}
use managed_python_runner_en.Errors.{Result, ok, runner, raise}
use managed_python_runner_en.Model.{RunResult}
use managed_python_runner_en.Base64.RoundTrip.{IsBytes, b64decode-b64encode}
use managed_python_runner_en.State.Rows.{
  Clocks, KeyRow, Db, has_key, is_key_running, run_row, key_row,
}
use managed_python_runner_en.State.Codec.{result_to_dict, result_from_dict}
use managed_python_runner_en.State.Claims.{
  RunClaim, ClaimRequest, new_key_row, reclaimed, claims_key, replayed, begin_run, finish_run,
  is_claimed_by, finished_key, replay_expiry, cache_valid,
}
use managed_python_runner_en.State.Claims.Outcomes.{
  Began, inserts, reclaims, replays, execute_as, replay_of, with_keys, with_run, begin_run-Began,
}
use managed_python_runner_en.State.Consistency.{IsConsistent}
use managed_python_runner_en.State.Consistency.Claims.{
  has_key_self, key_row-with_keys, begin_run-IsConsistent,
}
use managed_python_runner_en.State.Consistency.Endings.{Live, finish_state, finish_run-Live}

-- A result whose content is bytes, stored as JSON and read back, is the same result.
pub result_from_dict-result_to_dict :
    (result : RunResult)
    → IsBytes result.content
    → result_from_dict (result_to_dict result) ≡ ok result
unfolding result_from_dict result_to_dict
result_from_dict-result_to_dict result h = rw (b64decode-b64encode result.content h)

-- The run holds the request's key with the request's fingerprint.
abbrev pub Holding : Db → String → ClaimRequest → Type 0
Holding db run_id c =
    (row : KeyRow) × (key_row db c.tenant_id c.release_id c.key ≡ some row)
    × (is_key_running row ≡ true)
    × (row.current_run_id ≡ run_id)
    × (row.request_fingerprint ≡ c.request_fingerprint)

-- The answer to a request for a key that a run holds.
abbrev pub busy_answer : ClaimRequest → KeyRow → Result (RunClaim × Db)
busy_answer c row =
    if row.request_fingerprint == c.request_fingerprint
    then raise runner "RUN_IN_PROGRESS" "same logical request is already running" true
    else raise runner "IDEMPOTENCY_CONFLICT"
        "idempotency key was reused for different request content" false

-- While a key is RUNNING, no other request for it starts a run or is given a result.
pub begin_run_busy :
    (t : Clocks) (id : String) (c : ClaimRequest) (db : Db) (row : KeyRow)
    → key_row db c.tenant_id c.release_id c.key ≡ some row
    → is_key_running row ≡ true
    → begin_run t id c db ≡ busy_answer c row
unfolding begin_run
begin_run_busy t id c db row at busy = rw (at, begin_run) (ground arith)

module _ (t : Clocks) (id : String) (c : ClaimRequest) (db : Db) (v : IsConsistent db) where
  -- A request that may execute holds its key.
  begin_run-Holding :
      {after : Db} → begin_run t id c db ≡ ok (execute_as id, after) → Holding after id c
  begin_run-Holding h = by_cases (begin_run-Began t id c db h)
    where
      by_cases : {after : Db} → Began t id c db (execute_as id) after → Holding after id c
      by_cases (inserts free fresh _ e) =
          rw e
            (new_key_row t id c, unfold select in rw (has_key_self t id c db v), refl, refl, refl)
      by_cases (reclaims row at same idle _ fresh _ e) = rw e (
        reclaimed t id c row,
        key_row-with_keys t id c db v (reclaimed t id c) (λ te re ke x. refl) _ _ _
            ∙ (rw at (rw (select-holds (claims_key c) db.idempotency_keys row at))),
        refl,
        refl,
        same,
      )
      by_cases (replays _ _ _ _ _ _ e _) = absurd (ground arith)

  pub begin_run-Live :
      {after : Db}
      → begin_run t id c db ≡ ok (execute_as id, after)
      → Live after id c.tenant_id c.release_id c.key
  begin_run-Live {after} h =
      let (row, at, busy, current, same) = begin_run-Holding h in
      let (run, here, live, owns) =
        (begin_run-IsConsistent t id c db v h).claimed _ _ _ row at busy in
      (run, rw (← current) here, live, owns)

-- The key after its run is finished.
module _ (t : Clocks) (id : String) (c : ClaimRequest) (db : Db) (result : RunResult)
    (retention : ℕ) (held : Holding db id c) where
  abbrev after_finish : Db
  after_finish = finish_state t id c.key c.tenant_id c.release_id result retention db

  finished_key_row :
      key_row after_finish c.tenant_id c.release_id c.key
      ≡ some (finished_key t result (replay_expiry t.runner result retention) held.0)
  finished_key_row =
      let (row, at, busy, current, same) = held in
      let hit = select-holds (claims_key c) db.idempotency_keys row at in
      select-update (has_key c.tenant_id c.release_id c.key)
        (is_claimed_by id c.tenant_id c.release_id c.key)
        (finished_key t result (replay_expiry t.runner result retention)) (λ r. refl)
        db.idempotency_keys
      ∙ (rw at (ground (arith, eq_iff row.current_run_id id)))

  begin_run-replays :
      (t' : Clocks) (id' : String)
      → result.retryable ≡ false
      → IsBytes result.content
      → t'.runner < t.runner + retention * 1000
      → begin_run t' id' c after_finish
        ≡ ok (replay_of result, with_keys c (replayed t') after_finish)
  unfolding begin_run cache_valid
  begin_run-replays t' id' final bytes early =
      let same = (eq_iff held.0.request_fingerprint c.request_fingerprint).1 held.4 in
      let read = result_from_dict-result_to_dict result bytes in
      rw (finished_key_row, begin_run) (ground (arith, same, read))

  begin_run-executes :
      (t' : Clocks) (id' : String)
      → result.retryable ≡ true
      → t.runner ≤ t'.runner
      → run_row after_finish id' ≡ none
      → begin_run t' id' c after_finish
        ≡ ok (execute_as id', with_run t' id' c (with_keys c (reclaimed t' id' c) after_finish))
  unfolding begin_run cache_valid
  begin_run-executes t' id' again late fresh =
      let same = (eq_iff held.0.request_fingerprint c.request_fingerprint).1 held.4 in
      rw (finished_key_row, begin_run) (ground (arith, same))

-- A run that was claimed is finished without an error.
finishes :
    (t t1 : Clocks) (id : String) (c : ClaimRequest) (db claimed : Db) (result : RunResult)
    (retention : ℕ) (v : IsConsistent db)
    → begin_run t id c db ≡ ok (execute_as id, claimed)
    → finish_run t1 id c.key c.tenant_id c.release_id result retention claimed
      ≡ ok (tt, finish_state t1 id c.key c.tenant_id c.release_id result retention claimed)
finishes t t1 id c db claimed result retention v begun =
    finish_run-Live id c.tenant_id c.release_id c.key claimed
      (begin_run-IsConsistent t id c db v begun) t1 result retention
      (begin_run-Live t id c db v begun)

-- On tables in step, a claimed run can be finished, and where its result is final and its content
-- is bytes, the same claim before the expiry is answered with that result and starts no run.
pub idempotent_replay :
    (t t1 t2 : Clocks) (id id' : String) (c : ClaimRequest) (db claimed : Db) (result : RunResult)
    (retention : ℕ)
    → IsConsistent db
    → begin_run t id c db ≡ ok (execute_as id, claimed)
    → result.retryable ≡ false
    → IsBytes result.content
    → t2.runner < t1.runner + retention * 1000
    → let done = finish_state t1 id c.key c.tenant_id c.release_id result retention claimed in
      (finish_run t1 id c.key c.tenant_id c.release_id result retention claimed ≡ ok (tt, done))
      × (begin_run t2 id' c done ≡ ok (replay_of result, with_keys c (replayed t2) done))
idempotent_replay t t1 t2 id id' c db claimed result retention v begun final bytes early =
    let held = begin_run-Holding t id c db v begun in
    (
      finishes t t1 id c db claimed result retention v begun,
      begin_run-replays t1 id c claimed result retention held t2 id' final bytes early,
    )

-- On tables in step, a claimed run can be finished with a retryable result, and at any later time
-- the same request under a new run identifier executes again.
pub retryable_executes_again :
    (t t1 t2 : Clocks) (id id' : String) (c : ClaimRequest) (db claimed : Db) (result : RunResult)
    (retention : ℕ)
    → IsConsistent db
    → begin_run t id c db ≡ ok (execute_as id, claimed)
    → result.retryable ≡ true
    → t1.runner ≤ t2.runner
    → run_row (finish_state t1 id c.key c.tenant_id c.release_id result retention claimed) id'
      ≡ none
    → let done = finish_state t1 id c.key c.tenant_id c.release_id result retention claimed in
      (finish_run t1 id c.key c.tenant_id c.release_id result retention claimed ≡ ok (tt, done))
      × (begin_run t2 id' c done
          ≡ ok (execute_as id', with_run t2 id' c (with_keys c (reclaimed t2 id' c) done)))
retryable_executes_again t t1 t2 id id' c db claimed result retention v begun again late fresh =
    let held = begin_run-Holding t id c db v begun in
    (
      finishes t t1 id c db claimed result retention v begun,
      begin_run-executes t1 id c claimed result retention held t2 id' again late fresh,
    )

-- On tables in step, once a request holds its key to execute, every request for the same tenant,
-- release and key is refused: as in progress if its fingerprint is the same, as a conflict if it
-- is not.
pub run_exclusive :
    (t t' : Clocks) (id id' : String) (c c' : ClaimRequest) (db claimed : Db)
    → IsConsistent db
    → begin_run t id c db ≡ ok (execute_as id, claimed)
    → c'.tenant_id ≡ c.tenant_id
    → c'.release_id ≡ c.release_id
    → c'.key ≡ c.key
    → begin_run t' id' c' claimed ≡ (
        if c.request_fingerprint == c'.request_fingerprint
        then raise runner "RUN_IN_PROGRESS" "same logical request is already running" true
        else raise runner "IDEMPOTENCY_CONFLICT"
            "idempotency key was reused for different request content" false)
run_exclusive t t' id id' c c' db claimed v begun e e' e'' =
    let (row, at, busy, current, same) = begin_run-Holding t id c db v begun in
    begin_run_busy t' id' c' claimed row (rw (e, e', e'') at) busy ∙ (rw same)
