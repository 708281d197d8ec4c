-- ===== src/State/Consistency/Endings.antt =====
-- `finish_run` and `abandon_run` keep the tables in step, and a claimed run can always be finished.
use native.Mathlib.Nat.{le_trans}
use managed_python_runner_en.Prelude.{
  ℕ, ◌≤◌, String, ◌≡◌, refl, ◌∙◌, true, false, ◌&&◌, some, List, arith, ◌==◌, eq_iff, inl, inr, eqb,
  Bool-cases, Option-cases, rowcount, update, delete, select-update, select-delete, rowcount-update,
  rowcount-delete-le, rowcount-and, kept, rewritten, select,
}
use managed_python_runner_en.Errors.{ok}
use managed_python_runner_en.Model.{RunResult}
use managed_python_runner_en.State.Rows.{
  Clocks, RunRow, KeyRow, Db, has_run_id, has_key, is_running, is_key_running, run_row, key_row,
}
use managed_python_runner_en.State.Claims.{
  is_running_as, is_claimed_by, finished_run, finished_key, replay_expiry, finish_run,
  abandoned_run, abandon_run,
}
use managed_python_runner_en.State.Consistency.{IsConsistent, Owns, end-Claimed, end-Owned}

-- The run is RUNNING, as an execution of the key.
abbrev pub Live : Db → String → String → String → String → Type 0
Live db id te re ke =
    (run : RunRow) × (run_row db id ≡ some run) × (is_running run ≡ true) × Owns te re ke run

-- What `finish_run` commits.
abbrev pub finish_state : Clocks → String → String → String → String → RunResult → ℕ → Db → Db
finish_state t id ke te re result retention db =
    let expires_at = replay_expiry t.runner result retention in
    record db {
      runs = update (is_running_as id) (finished_run t result expires_at) db.runs;
      idempotency_keys =
          update (is_claimed_by id te re ke) (finished_key t result expires_at) db.idempotency_keys;
    }

module _ (id te re ke : String) (db : Db) (v : IsConsistent db) where
  runs_counted : Live db id te re ke → rowcount (is_running_as id) db.runs ≡ 1
  runs_counted (run, at, live, owns) =
      rowcount-and (has_run_id id) is_running db.runs (v.run_unique id) ∙ (rw at (rw live))

  keys_counted : Live db id te re ke → rowcount (is_claimed_by id te re ke) db.idempotency_keys ≡ 1
  keys_counted (run, at, live, owns) =
      let (row, found, busy, current) = v.owned id run at live in
      let (e, e', e'') = owns in
      let found' : key_row db te re ke ≡ some row = rw (← e, ← e', ← e'') found in
      rowcount-and (has_key te re ke) (λ r. (r.current_run_id == id) && is_key_running r)
        db.idempotency_keys (v.key_unique te re ke)
      ∙ (rw found' (ground (arith, eq_iff row.current_run_id id)))

  -- A run that is RUNNING and holds its key is finished without an error.
  pub finish_run-Live :
      (t : Clocks) (result : RunResult) (retention : ℕ)
      → Live db id te re ke
      → finish_run t id ke te re result retention db
        ≡ ok (tt, finish_state t id ke te re result retention db)
  unfolding finish_run
  finish_run-Live t result retention live = rw (runs_counted live) (rw (keys_counted live))

  -- What a finished run says of its key.
  claim-Live : rowcount (is_claimed_by id te re ke) db.idempotency_keys ≡ 1 → Live db id te re ke
  claim-Live one =
      let counted =
        rowcount-and (has_key te re ke) (λ r. (r.current_run_id == id) && is_key_running r)
          db.idempotency_keys (v.key_unique te re ke) in
      elim (Option-cases (key_row db te re ke)) [
        | inl e ↦ absurd (ground (arith, counted))
        | inr (row, e) ↦
            let current : row.current_run_id ≡ id =
              ground (arith, counted, eq_iff row.current_run_id id) in
            let (run, at, live, owns) = v.claimed te re ke row e (ground (arith, counted)) in
            (run, rw (← current) at, live, owns)
      ]

  module _ (own : (run : RunRow) → run_row db id ≡ some run → Owns te re ke run)
      (f : RunRow → RunRow) (ends : (run : RunRow) → is_running (f run) ≡ false)
      (names : (i : String) (run : RunRow) → has_run_id i (f run) ≡ has_run_id i run)
      (keys : List KeyRow) where
    abbrev ended : Db
    ended = record db { runs = update (is_running_as id) f db.runs; idempotency_keys = keys }

    end-IsConsistent :
        ((t r k : String) → rowcount (has_key t r k) keys ≤ 1)
        → ((t r k : String) (row : KeyRow)
            → select (has_key t r k) keys ≡ some row
            → is_key_running row ≡ true
            → (key_row db t r k ≡ some row) × (is_claimed_by id te re ke row ≡ false))
        → ((t r k : String) (row : KeyRow)
            → key_row db t r k ≡ some row
            → is_claimed_by id te re ke row ≡ false
            → select (has_key t r k) keys ≡ some row)
        → IsConsistent ended
    end-IsConsistent unique freed others =
        let runs =
          λ (i : String). select-update (has_run_id i) (is_running_as id) f (names i) db.runs in
        record {
          run_unique = λ i.
              rw (rowcount-update (has_run_id i) (is_running_as id) f (names i) db.runs)
                (v.run_unique i);
          key_unique = unique;
          claimed = end-Claimed id te re ke db ended f ends runs freed others own v.claimed;
          owned = end-Owned id te re ke db ended f ends runs freed others own v.owned;
        }

  -- An execution that fails leaves the tables in step, where the run is an execution of that key.
  pub abandon_run-IsConsistent :
      (t : Clocks) (error_code error_message : String)
      → ((run : RunRow) → run_row db id ≡ some run → Owns te re ke run)
      → IsConsistent (abandon_run t id ke te re error_code error_message db)
  unfolding abandon_run
  abandon_run-IsConsistent t error_code error_message own =
      let q = is_claimed_by id te re ke in
      let keys = db.idempotency_keys in
      let search : (te' re' ke' : String)
          → select (has_key te' re' ke') (delete q keys) ≡ kept q (key_row db te' re' ke') =
        λ te' re' ke'. select-delete (has_key te' re' ke') q keys (v.key_unique te' re' ke') in
      end-IsConsistent own (abandoned_run t error_code error_message) (λ r. refl) (λ i r. refl)
        (delete q keys)
        (λ te' re' ke'.
          le_trans (rowcount-delete-le (has_key te' re' ke') q keys) (v.key_unique te' re' ke'))
        (λ te' re' ke' row found busy. elim (Option-cases (key_row db te' re' ke')) [
          | inl e ↦ ground (arith, search te' re' ke')
          | inr (x, e) ↦ ground (arith, search te' re' ke')
        ])
        (λ te' re' ke' row at h. search te' re' ke' ∙ (rw at (rw h)))

  pub finish_run-ok :
      (t : Clocks) (result : RunResult) (retention : ℕ) {after : Db}
      → finish_run t id ke te re result retention db ≡ ok (tt, after)
      → (rowcount (is_claimed_by id te re ke) db.idempotency_keys ≡ 1)
        × (after ≡ finish_state t id ke te re result retention db)
  unfolding finish_run
  finish_run-ok t result retention h =
      elim (Bool-cases (eqb (rowcount (is_running_as id) db.runs) 1)) [
        | inr e ↦ ground arith
        | inl e ↦
            elim (Bool-cases (eqb (rowcount (is_claimed_by id te re ke) db.idempotency_keys) 1)) [
              | inr e' ↦ ground arith
              | inl e' ↦ (ground arith, ground arith)
            ]
      ]

  -- So does an execution that is finished.
  pub finish_run-IsConsistent :
      (t : Clocks) (result : RunResult) (retention : ℕ) {after : Db}
      → finish_run t id ke te re result retention db ≡ ok (tt, after)
      → IsConsistent after
  finish_run-IsConsistent t result retention h =
      let q = is_claimed_by id te re ke in
      let keys = db.idempotency_keys in
      let expires_at = replay_expiry t.runner result retention in
      let g = finished_key t result expires_at in
      let (one, e) = finish_run-ok t result retention h in
      let (run, at, live, owns) = claim-Live one in
      let own : (x : RunRow) → run_row db id ≡ some x → Owns te re ke x =
        λ x here. let same : x ≡ run = cc in rw same owns in
      let search : (te' re' ke' : String)
          → select (has_key te' re' ke') (update q g keys)
            ≡ rewritten q g (key_row db te' re' ke') =
        λ te' re' ke'. select-update (has_key te' re' ke') q g (λ r. refl) keys in
      rw e (
        end-IsConsistent own (finished_run t result expires_at) (λ r. refl) (λ i r. refl)
          (update q g keys)
          (λ te' re' ke'.
            rw (rowcount-update (has_key te' re' ke') q g (λ r. refl) keys)
              (v.key_unique te' re' ke'))
          (λ te' re' ke' row found busy. elim (Option-cases (key_row db te' re' ke')) [
            | inl missing ↦ ground (arith, search te' re' ke')
            | inr (x, here) ↦ ground (arith, search te' re' ke')
          ])
          (λ te' re' ke' row here h. search te' re' ke' ∙ (rw here (rw h))))
