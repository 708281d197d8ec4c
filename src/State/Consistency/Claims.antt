-- ===== src/State/Consistency/Claims.antt =====
-- `begin_run` keeps the tables in step.
use managed_python_runner_en.Prelude.{
  ◌≤◌, String, ◌≡◌, refl, sym, ◌∙◌, true, false, none, some, ◌∷◌, arith, ◌==◌, eq_iff, eq_self, inl,
  inr, Bool-cases, Option-cases, select, rowcount, select-holds, select-update, rowcount-update,
  rowcount-select-none, rewritten, if◌then◌else◌,
}
use managed_python_runner_en.Errors.{ok}
use managed_python_runner_en.State.Rows.{
  Clocks, KeyRow, Db, has_run_id, has_key, is_key_running, run_row, key_row,
}
use managed_python_runner_en.State.Claims.{
  RunClaim, ClaimRequest, new_key_row, reclaimed, replayed, new_run_row, claims_key, begin_run,
}
use managed_python_runner_en.State.Claims.Outcomes.{
  Began, inserts, reclaims, replays, with_run, with_new_key, with_keys, begin_run-Began,
}
use managed_python_runner_en.State.Consistency.{
  IsConsistent, Holds, has_key_fields, quiet-Claimed, quiet-Owned, claim-Claimed, claim-Owned,
}

module _ (t : Clocks) (id : String) (c : ClaimRequest) (db : Db) (v : IsConsistent db) where
  pub has_key_self : has_key c.tenant_id c.release_id c.key (new_key_row t id c) ≡ true
  has_key_self = ground (arith, eq_self c.tenant_id, eq_self c.release_id, eq_self c.key)

  new_run_unique :
      run_row db id ≡ none
      → (i : String) → rowcount (has_run_id i) (new_run_row t id c ∷ db.runs) ≤ 1
  unfolding rowcount
  new_run_unique fresh i = elim (Bool-cases (id == i)) [
    | inl same ↦
        let e : id ≡ i = (eq_iff id i).0 same in
        let fresh' : run_row db i ≡ none = rw (← e) fresh in
        ground (arith, rowcount-select-none (has_run_id i) db.runs fresh')
    | inr differs ↦ ground (arith, v.run_unique i)
  ]

  new_key_unique :
      key_row db c.tenant_id c.release_id c.key ≡ none
      → (te re ke : String)
      → rowcount (has_key te re ke) (new_key_row t id c ∷ db.idempotency_keys) ≤ 1
  unfolding rowcount
  new_key_unique free te re ke = elim (Bool-cases (has_key te re ke (new_key_row t id c))) [
    | inl same ↦
        let (e, e', e'') = has_key_fields te re ke (new_key_row t id c) same in
        let free' : key_row db te re ke ≡ none = rw (← e, ← e', ← e'') free in
        ground (arith, rowcount-select-none (has_key te re ke) db.idempotency_keys free')
    | inr differs ↦ ground (arith, v.key_unique te re ke)
  ]

  -- A key that is found and matches the new claim's is the new claim's key.
  differs-claims_key :
      (te re ke : String) (row : KeyRow)
      → has_key te re ke (new_key_row t id c) ≡ false
      → has_key te re ke row ≡ true
      → claims_key c row ≡ false
  differs-claims_key te re ke row h at = elim (Bool-cases (claims_key c row)) [
    | inr e ↦ e
    | inl e ↦
        let (p, p', p'') = has_key_fields te re ke row at in
        let (q, q', q'') = has_key_fields c.tenant_id c.release_id c.key row e in
        let same : has_key te re ke (new_key_row t id c) ≡ true =
          rw (sym p ∙ q, sym p' ∙ q', sym p'' ∙ q'') has_key_self in
        cc
  ]

  inserts-IsConsistent :
      key_row db c.tenant_id c.release_id c.key ≡ none
      → run_row db id ≡ none
      → IsConsistent (with_run t id c (with_new_key t id c db))
  unfolding select rowcount
  inserts-IsConsistent free fresh =
      let after = with_run t id c (with_new_key t id c db) in
      record {
        run_unique = new_run_unique fresh;
        key_unique = new_key_unique free;
        claimed =
            claim-Claimed t id c db after (new_key_row t id c) refl fresh (λ row e. cc)
              (rw has_key_self) refl refl (λ te re ke h. rw h) v.claimed;
        owned =
            claim-Owned t id c db after (new_key_row t id c) refl fresh (λ row e. cc)
              (rw has_key_self) refl refl (λ te re ke h. rw h) v.owned;
      }

  -- A search after the UPDATE of this key.
  pub key_row-with_keys :
      (f : KeyRow → KeyRow)
      → ((te re ke : String) (row : KeyRow) → has_key te re ke (f row) ≡ has_key te re ke row)
      → (te re ke : String)
      → key_row (with_keys c f db) te re ke ≡ rewritten (claims_key c) f (key_row db te re ke)
  key_row-with_keys f same te re ke =
      select-update (has_key te re ke) (claims_key c) f (same te re ke) db.idempotency_keys

  with_keys_other :
      (f : KeyRow → KeyRow)
      → ((te re ke : String) (row : KeyRow) → has_key te re ke (f row) ≡ has_key te re ke row)
      → (te re ke : String) → has_key te re ke (new_key_row t id c) ≡ false
      → key_row (with_keys c f db) te re ke ≡ key_row db te re ke
  with_keys_other f same te re ke differs =
      key_row-with_keys f same te re ke ∙ elim (Option-cases (key_row db te re ke)) [
        | inl e ↦ rw e
        | inr (row, e) ↦ rw e (
            rw (
              differs-claims_key te re ke row differs
                (select-holds (has_key te re ke) db.idempotency_keys row e)))
      ]

  reclaims-IsConsistent :
      (row : KeyRow)
      → key_row db c.tenant_id c.release_id c.key ≡ some row
      → is_key_running row ≡ false
      → run_row db id ≡ none
      → IsConsistent (with_run t id c (with_keys c (reclaimed t id c) db))
  reclaims-IsConsistent row at idle fresh =
      let f = reclaimed t id c in
      let after = with_run t id c (with_keys c f db) in
      let hit = select-holds (claims_key c) db.idempotency_keys row at in
      let self : key_row after c.tenant_id c.release_id c.key ≡ some (f row) =
        key_row-with_keys f (λ te re ke x. refl) _ _ _ ∙ (rw at (rw hit)) in
      let free : (x : KeyRow)
          → key_row db c.tenant_id c.release_id c.key ≡ some x
          → is_key_running x ≡ false =
        λ x e. cc in
      record {
        run_unique = new_run_unique fresh;
        key_unique = λ te re ke.
            rw (rowcount-update (has_key te re ke) (claims_key c) f (λ x. refl) db.idempotency_keys)
              (v.key_unique te re ke);
        claimed =
            claim-Claimed t id c db after (f row) refl fresh free self refl refl
              (with_keys_other f (λ te re ke x. refl)) v.claimed;
        owned =
            claim-Owned t id c db after (f row) refl fresh free self refl refl
              (with_keys_other f (λ te re ke x. refl)) v.owned;
      }

  replay_keeps :
      (te re ke i : String) → Holds db te re ke i → Holds (with_keys c (replayed t) db) te re ke i
  replay_keeps te re ke i (row, at, busy, e) = (
    if claims_key c row then replayed t row else row,
    key_row-with_keys (replayed t) (λ te re ke x. refl) te re ke ∙ (rw at),
    ground arith,
    ground arith,
  )

  replay_adds :
      (te re ke i : String) → Holds (with_keys c (replayed t) db) te re ke i → Holds db te re ke i
  replay_adds te re ke i (row, at, busy, e) =
      let search = key_row-with_keys (replayed t) (λ te re ke x. refl) te re ke in
      elim (Option-cases (key_row db te re ke)) [
        | inl missing ↦ ground (arith, search)
        | inr (before, found) ↦ (before, found, ground (arith, search), ground (arith, search))
      ]

  replays-IsConsistent : IsConsistent (with_keys c (replayed t) db)
  replays-IsConsistent = record {
    run_unique = v.run_unique;
    key_unique = λ te re ke.
        rw
          (rowcount-update (has_key te re ke) (claims_key c) (replayed t) (λ x. refl)
            db.idempotency_keys)
          (v.key_unique te re ke);
    claimed =
        quiet-Claimed db (with_keys c (replayed t) db) (λ i run _ e. e) (λ i run _ e. e)
          replay_keeps replay_adds v.claimed;
    owned =
        quiet-Owned db (with_keys c (replayed t) db) (λ i run _ e. e) (λ i run _ e. e) replay_keeps
          replay_adds v.owned;
  }

  -- `begin_run` on tables in step leaves them in step, whether it claims or replays.
  pub begin_run-IsConsistent :
      {claim : RunClaim} {after : Db} → begin_run t id c db ≡ ok (claim, after) → IsConsistent after
  begin_run-IsConsistent h = by_cases (begin_run-Began t id c db h)
    where
      by_cases : {claim : RunClaim} {after : Db} → Began t id c db claim after → IsConsistent after
      by_cases (inserts free fresh _ e) = rw e (inserts-IsConsistent free fresh)
      by_cases (reclaims row at _ idle _ fresh _ e) = rw e (reclaims-IsConsistent row at idle fresh)
      by_cases (replays _ _ _ _ _ _ _ e) = rw e replays-IsConsistent
