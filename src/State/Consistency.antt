-- ===== src/State/Consistency.antt =====
-- The invariant that ties runner.runs to runner.idempotency_keys, and how a claim and the end of a
-- claim keep it. The children apply this to the methods of `RunnerDB`.
pub mod Claims
pub mod Endings
pub mod Maintenance
use managed_python_runner_en.Prelude.{
  ◌≤◌, String, ◌≡◌, refl, sym, ◌∙◌, true, false, ◌&&◌, none, some, ◌∷◌, arith, ◌==◌, eq_iff,
  eq_self, inl, inr, Bool-cases, Option-cases, rowcount, select-holds, rewritten, select,
}
use managed_python_runner_en.State.Rows.{
  Clocks, RunRow, KeyRow, Db, has_run_id, has_key, is_running, is_key_running, run_row, key_row,
}
use managed_python_runner_en.State.Claims.{
  ClaimRequest, new_key_row, new_run_row, is_running_as, is_claimed_by,
}

-- The run is an execution of this key.
abbrev pub Owns : String → String → String → RunRow → Type 0
Owns tenant_id release_id key run =
    (run.tenant_id ≡ tenant_id) × (run.release_id ≡ release_id) × (run.idempotency_key ≡ key)

-- A RUNNING key has its RUNNING run.
abbrev pub Claimed : Db → Type 0
Claimed db =
    (tenant_id release_id key : String) (row : KeyRow)
    → key_row db tenant_id release_id key ≡ some row
    → is_key_running row ≡ true
    → (run : RunRow) × (run_row db row.current_run_id ≡ some run)
      × (is_running run ≡ true)
      × Owns tenant_id release_id key run

-- A RUNNING run holds its key.
abbrev pub Owned : Db → Type 0
Owned db =
    (run_id : String) (run : RunRow)
    → run_row db run_id ≡ some run
    → is_running run ≡ true
    → (row : KeyRow) × (key_row db run.tenant_id run.release_id run.idempotency_key ≡ some row)
      × (is_key_running row ≡ true)
      × (row.current_run_id ≡ run_id)

pub record IsConsistent (db : Db) : Type 0 where
  pub run_unique : (run_id : String) → rowcount (has_run_id run_id) db.runs ≤ 1
  pub key_unique :
      (tenant_id release_id key : String)
      → rowcount (has_key tenant_id release_id key) db.idempotency_keys ≤ 1
  pub claimed : Claimed db
  pub owned : Owned db

pub has_key_fields :
    (t r k : String) (row : KeyRow)
    → has_key t r k row ≡ true
    → (row.tenant_id ≡ t) × (row.release_id ≡ r) × (row.idempotency_key ≡ k)
has_key_fields t r k row h =
    ground (arith, eq_iff row.tenant_id t, eq_iff row.release_id r, eq_iff row.idempotency_key k)

-- Some row says that the run holds the key.
abbrev pub Holds : Db → String → String → String → String → Type 0
Holds db tenant_id release_id key run_id =
    (row : KeyRow) × (key_row db tenant_id release_id key ≡ some row)
    × (is_key_running row ≡ true)
    × (row.current_run_id ≡ run_id)

-- What neither starts nor ends a claim, in either table, keeps the two in step.
module _ (db after : Db)
    (runs : (i : String) (run : RunRow)
      → is_running run ≡ true
      → run_row db i ≡ some run
      → run_row after i ≡ some run)
    (runs' : (i : String) (run : RunRow)
      → is_running run ≡ true
      → run_row after i ≡ some run
      → run_row db i ≡ some run)
    (keys : (t r k i : String) → Holds db t r k i → Holds after t r k i)
    (keys' : (t r k i : String) → Holds after t r k i → Holds db t r k i) where
  pub quiet-Claimed : Claimed db → Claimed after
  quiet-Claimed h t r k row found busy =
      let (row0, at, busy0, e) = keys' t r k row.current_run_id (row, found, busy, refl) in
      let (run, here, live, owns) = h t r k row0 at busy0 in
      (run, runs row.current_run_id run live (rw (← e) here), live, owns)

  pub quiet-Owned : Owned db → Owned after
  quiet-Owned h i run found busy = keys _ _ _ i (h i run (runs' i run busy found) busy)

-- A new claim: a fresh run over a key that no run holds.
module _ (t : Clocks) (id : String) (c : ClaimRequest) (db after : Db) (new : KeyRow)
    (runs : after.runs ≡ new_run_row t id c ∷ db.runs) (fresh : run_row db id ≡ none)
    (idle : (row : KeyRow)
      → key_row db c.tenant_id c.release_id c.key ≡ some row
      → is_key_running row ≡ false)
    (self : key_row after c.tenant_id c.release_id c.key ≡ some new)
    (new_running : is_key_running new ≡ true) (new_run : new.current_run_id ≡ id)
    (others : (te re ke : String)
      → (c.tenant_id == te && (c.release_id == re && c.key == ke)) ≡ false
      → key_row after te re ke ≡ key_row db te re ke) where
  run_row_new : run_row after id ≡ some (new_run_row t id c)
  unfolding select
  run_row_new = rw (runs, eq_self id)

  run_row_old : (i : String) → (id == i) ≡ false → run_row after i ≡ run_row db i
  unfolding select
  run_row_old i h = rw (runs, h)

  other_run :
      (row : KeyRow) (run : RunRow)
      → run_row db row.current_run_id ≡ some run
      → (id == row.current_run_id) ≡ false
  other_run row run at = elim (Bool-cases (id == row.current_run_id)) [
    | inr e ↦ e
    | inl e ↦
        let p : id ≡ row.current_run_id = (eq_iff _ _).0 e in
        let missing : run_row db row.current_run_id ≡ none = rw (← p) fresh in cc
  ]

  -- A key that a run holds is not the one that is claimed.
  held :
      (run : RunRow) (row : KeyRow)
      → key_row db run.tenant_id run.release_id run.idempotency_key ≡ some row
      → is_key_running row ≡ true
      → has_key run.tenant_id run.release_id run.idempotency_key (new_key_row t id c) ≡ false
  held run row at busy =
      elim (Bool-cases
        (has_key run.tenant_id run.release_id run.idempotency_key (new_key_row t id c))) [
          | inr e ↦ e
          | inl same ↦
              let (e, e', e'') =
                has_key_fields run.tenant_id run.release_id run.idempotency_key (new_key_row t id c)
                  same in
              let free = idle row (rw (e, e', e'') at) in cc
        ]

  pub claim-Claimed : Claimed db → Claimed after
  claim-Claimed h te re ke row found busy =
      elim (Bool-cases (c.tenant_id == te && (c.release_id == re && c.key == ke))) [
        | inl same ↦
            let (e, e', e'') = has_key_fields te re ke (new_key_row t id c) same in
            let new_here : key_row after te re ke ≡ some new = rw (← e, ← e', ← e'') self in
            let current : row.current_run_id ≡ id = ground arith in
            (new_run_row t id c, rw current run_row_new, refl, (e, e', e''))
        | inr differs ↦
            let (run, at, live, owns) =
              h te re ke row (sym (others te re ke differs) ∙ found) busy in
            (run, run_row_old row.current_run_id (other_run row run at) ∙ at, live, owns)
      ]

  pub claim-Owned : Owned db → Owned after
  claim-Owned h i run found busy = elim (Bool-cases (id == i)) [
    | inl same ↦
        let e : id ≡ i = (eq_iff id i).0 same in
        let here : run_row after i ≡ some (new_run_row t id c) = rw (← e) run_row_new in
        let r : run ≡ new_run_row t id c = cc in rw r (new, self, new_running, new_run ∙ e)
    | inr differs ↦
        let (row, at, live, current) = h i run (sym (run_row_old i differs) ∙ found) busy in
        let other = held run row at live in
        (row, others run.tenant_id run.release_id run.idempotency_key other ∙ at, live, current)
  ]

-- The end of a claim: the run is no longer RUNNING, and the key that it holds is freed.
module _ (id te re ke : String) (db after : Db) (f : RunRow → RunRow)
    (ends : (run : RunRow) → is_running (f run) ≡ false)
    (runs : (i : String) → run_row after i ≡ rewritten (is_running_as id) f (run_row db i))
    (freed : (t r k : String) (row : KeyRow)
      → key_row after t r k ≡ some row
      → is_key_running row ≡ true
      → (key_row db t r k ≡ some row) × (is_claimed_by id te re ke row ≡ false))
    (others : (t r k : String) (row : KeyRow)
      → key_row db t r k ≡ some row
      → is_claimed_by id te re ke row ≡ false
      → key_row after t r k ≡ some row)
    (own : (run : RunRow) → run_row db id ≡ some run → Owns te re ke run) where
  kept_run :
      (t r k : String) (row : KeyRow) (run : RunRow)
      → key_row db t r k ≡ some row
      → is_key_running row ≡ true
      → is_claimed_by id te re ke row ≡ false
      → run_row db row.current_run_id ≡ some run
      → Owns t r k run
      → run_row after row.current_run_id ≡ some run
  kept_run t r k row run before busy unclaimed at owns =
      let named : run.run_id ≡ row.current_run_id =
        (eq_iff _ _).0 (select-holds (has_run_id row.current_run_id) db.runs run at) in
      elim (Bool-cases (row.current_run_id == id)) [
        | inl same ↦
            let e : row.current_run_id ≡ id = (eq_iff _ _).0 same in
            let (p, p', p'') = own run (rw (← e) at) in
            let (q, q', q'') = owns in
            let hit = select-holds (has_key t r k) db.idempotency_keys row before in
            let hit' : has_key te re ke row ≡ true =
              rw (sym p ∙ q, sym p' ∙ q', sym p'' ∙ q'') hit in
            ground arith
        | inr differs ↦
            let other : (run.run_id == id) ≡ false = rw named differs in
            runs row.current_run_id ∙ (rw at (ground arith))
      ]

  pub end-Claimed : Claimed db → Claimed after
  end-Claimed h t r k row found busy =
      let (before, unclaimed) = freed t r k row found busy in
      let (run, at, live, owns) = h t r k row before busy in
      (run, kept_run t r k row run before busy unclaimed at owns, live, owns)

  -- A run that is still RUNNING was so before, under the same identifier, and is another run.
  run_before :
      (i : String) (run : RunRow)
      → run_row after i ≡ some run
      → is_running run ≡ true
      → run_row db i ≡ some run
  run_before i run found busy = elim (Option-cases (run_row db i)) [
    | inl e ↦ ground (arith, runs i)
    | inr (r, e) ↦ ground (arith, runs i, ends r)
  ]

  other_end :
      (i : String) (run : RunRow)
      → run_row after i ≡ some run
      → is_running run ≡ true
      → run_row db i ≡ some run
      → is_running_as id run ≡ false
  other_end i run found busy before = ground (arith, runs i, ends run)

  unclaimed :
      (i : String) (run : RunRow) (row : KeyRow)
      → run_row after i ≡ some run
      → is_running run ≡ true
      → run_row db i ≡ some run
      → row.current_run_id ≡ i
      → is_claimed_by id te re ke row ≡ false
  unclaimed i run row found busy before current =
      let named = (eq_iff run.run_id i).0 (select-holds (has_run_id i) db.runs run before) in
      ground (
        arith,
        other_end i run found busy before,
        eq_iff row.current_run_id id,
        eq_iff run.run_id id,
        named,
      )

  pub end-Owned : Owned db → Owned after
  end-Owned h i run found busy =
      let before = run_before i run found busy in
      let (row, at, live, current) = h i run before busy in
      (row, others _ _ _ row at (unclaimed i run row found busy before current), live, current)
