-- ===== src/State/Claims/Outcomes.antt =====
-- The ways in which `begin_run` returns.
use managed_python_runner_en.Prelude.{
  String, ◌≡◌, refl, true, false, none, some, ◌∷◌, arith, ◌==◌, eq_iff, update, inl, inr,
  Bool-cases, Option-cases,
}
use managed_python_runner_en.Errors.{ok, Result-cases}
use managed_python_runner_en.Model.{RunResult}
use managed_python_runner_en.State.Rows.{Clocks, KeyRow, Db, is_key_running, run_row, key_row}
use managed_python_runner_en.State.Claims.{
  RunClaim, ClaimRequest, cache_valid, new_key_row, reclaimed, replayed, new_run_row, claims_key,
  replay, begin_run, claim_existing, insert_run,
}

-- The state after a new claim whose key table is already written.
abbrev pub with_run : Clocks → String → ClaimRequest → Db → Db
with_run t run_id c db = record db { runs = new_run_row t run_id c ∷ db.runs }

abbrev pub with_new_key : Clocks → String → ClaimRequest → Db → Db
with_new_key t run_id c db = record db {
  idempotency_keys = new_key_row t run_id c ∷ db.idempotency_keys;
}

abbrev pub with_keys : ClaimRequest → (KeyRow → KeyRow) → Db → Db
with_keys c f db = record db { idempotency_keys = update (claims_key c) f db.idempotency_keys }

abbrev pub execute_as : String → RunClaim
execute_as run_id = record { run_id = some run_id; cached_result = none }

abbrev pub replay_of : RunResult → RunClaim
replay_of result = record { run_id = none; cached_result = some result }

pub data Began (t : Clocks) (run_id : String) (c : ClaimRequest) (db : Db) (claim : RunClaim)
    (after : Db) : Type 0 where
  inserts :
      key_row db c.tenant_id c.release_id c.key ≡ none
      → run_row db run_id ≡ none
      → claim ≡ execute_as run_id
      → after ≡ with_run t run_id c (with_new_key t run_id c db)
      → Began t run_id c db claim after
  reclaims :
      (row : KeyRow)
      → key_row db c.tenant_id c.release_id c.key ≡ some row
      → row.request_fingerprint ≡ c.request_fingerprint
      → is_key_running row ≡ false
      → cache_valid t.runner row ≡ false
      → run_row db run_id ≡ none
      → claim ≡ execute_as run_id
      → after ≡ with_run t run_id c (with_keys c (reclaimed t run_id c) db)
      → Began t run_id c db claim after
  replays :
      (row : KeyRow) (result : RunResult)
      → key_row db c.tenant_id c.release_id c.key ≡ some row
      → row.request_fingerprint ≡ c.request_fingerprint
      → cache_valid t.runner row ≡ true
      → replay row.result_json ≡ ok result
      → claim ≡ replay_of result
      → after ≡ with_keys c (replayed t) db
      → Began t run_id c db claim after

module _ (t : Clocks) (run_id : String) (c : ClaimRequest) (db : Db) {claim : RunClaim}
    {after : Db} where
  insert_run-fresh :
      (base : Db)
      → base.runs ≡ db.runs
      → insert_run t run_id c base ≡ ok (claim, after)
      → (run_row db run_id ≡ none)
        × (claim ≡ execute_as run_id)
        × (after ≡ with_run t run_id c base)
  insert_run-fresh base same h = elim (Option-cases (run_row db run_id)) [
    | inl e ↦ (e, ground arith, ground arith)
    | inr (r, e) ↦ ground arith
  ]

  existing-Began :
      (row : KeyRow)
      → key_row db c.tenant_id c.release_id c.key ≡ some row
      → claim_existing t run_id c row db ≡ ok (claim, after)
      → Began t run_id c db claim after
  existing-Began row found h =
      elim (Bool-cases (row.request_fingerprint == c.request_fingerprint)) [
        | inr differs ↦ ground arith
        | inl same ↦ elim (Bool-cases (is_key_running row)) [
          | inl busy ↦ ground arith
          | inr idle ↦ elim (Bool-cases (cache_valid t.runner row)) [
            | inr stale ↦
                let f =
                  insert_run-fresh (with_keys c (reclaimed t run_id c) db) refl (ground arith) in
                reclaims row found ((eq_iff _ _).0 same) idle stale f.0 f.1 f.2
            | inl valid ↦ elim (Result-cases (replay row.result_json)) [
              | inl (result, e) ↦
                  replays row result found ((eq_iff _ _).0 same) valid e (ground arith)
                    (ground arith)
              | inr (e, failed) ↦ ground arith
            ]
          ]
        ]
      ]

  -- Whenever `begin_run` returns, it did one of these.
  pub begin_run-Began :
      begin_run t run_id c db ≡ ok (claim, after) → Began t run_id c db claim after
  unfolding begin_run
  begin_run-Began h = elim (Option-cases (key_row db c.tenant_id c.release_id c.key)) [
    | inl e ↦
        let f = insert_run-fresh (with_new_key t run_id c db) refl (ground arith) in
        inserts e f.0 f.1 f.2
    | inr (row, e) ↦ existing-Began row e (ground arith)
  ]
