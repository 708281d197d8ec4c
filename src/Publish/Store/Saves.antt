-- ===== src/Publish/Store/Saves.antt =====
-- What saving a contract leaves in the tables.
use managed_python_runner_en.Prelude.{
  ℕ, ◌+◌, ◌≤◌, String, ◌≡◌, refl, sym, ◌∙◌, ap, true, false, some, List, [], ◌∷◌, arith, eq_iff,
  eq_self, inl, inr, Option-cases, select, update, select-update, select-holds,
}
use managed_python_runner_en.Errors.{ok, Result-cases}
use managed_python_runner_en.Authoring.Model.{VirtualOperatorContract}
use managed_python_runner_en.Publish.Rows.{
  OperatorRow, ContractRow, PublishDb, has_name, has_digest,
}
use managed_python_runner_en.Publish.Store.{
  renamed, put_operator, max_version, insert_contract, Saved, save_version, save_virtual_contract,
  latest_of, get_latest_contract,
}
use managed_python_runner_en.Publish.Store.Versions.{
  version_count, IsNumbered, put_operator-IsNumbered, insert_contract-IsNumbered,
}

latest_of-bound :
    (operator_id : String) (rows : List ContractRow) (row : ContractRow)
    → latest_of operator_id rows ≡ some row
    → row.version ≤ max_version operator_id rows
unfolding latest_of max_version
latest_of-bound operator_id [] row h = absurd (ground arith)
latest_of-bound operator_id (x ∷ rows) row h = elim (Option-cases (latest_of operator_id rows)) [
  | inl e ↦ ground arith
  | inr (other, e) ↦ ground (arith, latest_of-bound operator_id rows other e)
]

-- A row above all others is the latest.
latest_of-new :
    (row : ContractRow) (rows : List ContractRow)
    → row.version ≡ max_version row.operator_id rows + 1
    → latest_of row.operator_id (row ∷ rows) ≡ some row
unfolding latest_of
latest_of-new row rows h = elim (Option-cases (latest_of row.operator_id rows)) [
  | inl e ↦ ground (arith, eq_self row.operator_id)
  | inr (other, e) ↦
      ground (arith, eq_self row.operator_id, latest_of-bound row.operator_id rows other e)
]

-- What a save leaves: the operator and the version that it returns are in the tables.
pub record IsSaved (workspace digest : String) (contract : VirtualOperatorContract) (saved : Saved)
    (db after : PublishDb) : Type 0 where
  pub numbered : IsNumbered after
  pub operator : select (has_name workspace contract.metadata.name) after.operators ≡ some saved.0.0
  pub version : select (has_digest saved.0.0.id digest) after.contracts ≡ some saved.0.1
  pub kept : saved.1 ≡ false → after.contracts ≡ db.contracts
  pub newest :
      saved.1 ≡ true
      → (get_latest_contract after saved.0.0.id ≡ some saved.0.1)
        × (saved.0.1.version ≡ version_count db saved.0.0.id + 1)
        × (after.contracts ≡ saved.0.1 ∷ db.contracts)

module _ (contract_sha256 : VirtualOperatorContract → String) where
  save_version-IsSaved :
      (now : ℕ) (contract_id workspace : String) (operator : OperatorRow)
      (contract : VirtualOperatorContract) (saved : Saved) (db after : PublishDb)
      → select (has_name workspace contract.metadata.name) db.operators ≡ some operator
      → save_version now contract_id operator (contract_sha256 contract) contract db
        ≡ ok (saved, after)
      → IsNumbered db
      → IsSaved workspace (contract_sha256 contract) contract saved db after
  unfolding save_version
  save_version-IsSaved now contract_id workspace operator contract saved db after at h v =
      let digest = contract_sha256 contract in
      elim (Option-cases (select (has_digest operator.id digest) db.contracts)) [
        | inr (row, e) ↦
            let same : ((operator, row), false) ≡ saved = ground arith in
            let kept : db ≡ after = ground arith in
            rw (← same, ← kept)
              (record {
                numbered = v;
                operator = at;
                version = e;
                kept = λ f. refl;
                newest = λ f. absurd (ground arith);
              })
        | inl absent ↦
            elim (Result-cases (insert_contract now contract_id operator.id digest contract db)) [
              | inr (raised, k) ↦ absurd (ground arith)
              | inl ((row, mid), k) ↦
                  let (numbered, contracts, owner, number) =
                    insert_contract-IsNumbered now contract_id operator.id digest contract row db
                      mid absent k v in
                  let same : ((operator, row), true) ≡ saved = ground arith in
                  let kept : mid ≡ after = ground arith in
                  let unchanged : mid.operators ≡ db.operators =
                    unfold insert_contract in ground arith in
                  let hashed : row.contract_sha256 ≡ digest =
                    unfold insert_contract in ground arith in
                  rw (← same, ← kept)
                    (record {
                      numbered = numbered;
                      operator = rw unchanged at;
                      version =
                          unfold select in
                          rw contracts (
                            ground (
                              arith,
                              eq_iff row.operator_id operator.id,
                              eq_iff row.contract_sha256 digest,
                            ));
                      kept = λ f. absurd (ground arith);
                      newest = λ f. (
                        rw (contracts, ← owner)
                            (latest_of-new row db.contracts (
                              number
                              ∙ (rw (← owner) (ap (λ n. n + 1) (sym (v.latest row.operator_id)))))),
                        number,
                        contracts,
                      );
                    })
            ]
      ]

  pub save_virtual_contract-IsSaved :
      (now : ℕ) (operator_id contract_id workspace : String) (contract : VirtualOperatorContract)
      (saved : Saved) (db after : PublishDb)
      → save_virtual_contract contract_sha256 now operator_id contract_id workspace contract db
        ≡ ok (saved, after)
      → IsNumbered db
      → IsSaved workspace (contract_sha256 contract) contract saved db after
  unfolding save_virtual_contract
  save_virtual_contract-IsSaved now operator_id contract_id workspace contract saved db after h v =
      elim (Result-cases (put_operator now operator_id workspace contract db)) [
        | inr (raised, k) ↦ absurd (ground arith)
        | inl (mid, k) ↦
            let (numbered, contracts) =
              put_operator-IsNumbered now operator_id workspace contract db mid k v in
            elim (Option-cases (select (has_name workspace contract.metadata.name) mid.operators)) [
              | inl missing ↦ absurd (ground arith)
              | inr (operator, at) ↦
                  let s =
                    save_version-IsSaved now contract_id workspace operator contract saved mid after
                      at (ground arith) numbered in
                  record {
                    numbered = s.numbered;
                    operator = s.operator;
                    version = s.version;
                    kept = λ f. s.kept f ∙ contracts;
                    newest = λ f.
                        (let (a, b, c) = s.newest f in (a, b ∙ (rw contracts), c ∙ (rw contracts)));
                  }
            ]
      ]

  -- A contract that was saved is found again.
  save_again :
      (now : ℕ) (operator_id contract_id workspace : String) (contract : VirtualOperatorContract)
      (saved : Saved) (before db : PublishDb)
      → IsSaved workspace (contract_sha256 contract) contract saved before db
      → (after : PublishDb) × (save_virtual_contract contract_sha256 now operator_id contract_id
            workspace contract db
          ≡ ok (((renamed now contract saved.0.0, saved.0.1), false), after))
        × (after.contracts ≡ db.contracts)
  unfolding save_virtual_contract put_operator save_version
  save_again now operator_id contract_id workspace contract saved before db s =
      let p = has_name workspace contract.metadata.name in
      let found : select p (update p (renamed now contract) db.operators)
          ≡ some (renamed now contract saved.0.0) =
        select-update p p (renamed now contract) (λ r. refl) db.operators
        ∙ (rw s.operator (ground (arith, select-holds p db.operators saved.0.0 s.operator))) in
      let after : PublishDb = record db {
        operators = update p (renamed now contract) db.operators;
      } in
      let renames : put_operator now operator_id workspace contract db ≡ ok after =
        ground (arith, s.operator) in
      (after, ground (arith, s.version), refl)

  -- On numbered versions, saving a contract again after it was saved, under whatever new
  -- identifiers, finds the version that was saved and adds none.
  pub save_virtual_contract_twice :
      (now later : ℕ) (operator_id contract_id operator_id' contract_id' workspace : String)
      (contract : VirtualOperatorContract) (saved : Saved) (db after : PublishDb)
      → save_virtual_contract contract_sha256 now operator_id contract_id workspace contract db
        ≡ ok (saved, after)
      → IsNumbered db
      → (again : PublishDb) × (save_virtual_contract contract_sha256 later operator_id' contract_id'
            workspace contract after
          ≡ ok (((renamed later contract saved.0.0, saved.0.1), false), again))
        × (again.contracts ≡ after.contracts)
  save_virtual_contract_twice now later operator_id contract_id operator_id' contract_id' workspace
        contract saved db after h v =
      save_again later operator_id' contract_id' workspace contract saved db after (
        save_virtual_contract-IsSaved now operator_id contract_id workspace contract saved db after
          h v)
