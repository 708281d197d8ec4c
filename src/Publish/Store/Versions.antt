-- ===== src/Publish/Store/Versions.antt =====
-- The versions of an operator's contract are 1, 2, … without a gap, each of another contract.
use managed_python_runner_en.Prelude.{
  ℕ, ◌+◌, ◌≤◌, String, ◌≡◌, refl, ap, ◌&&◌, none, ◌∷◌, arith, eq_iff, inl, inr, Option-cases,
  if◌then◌else◌, leb, select, update, rowcount, rowcount-update, rowcount-select-none,
}
use managed_python_runner_en.Errors.{ok}
use managed_python_runner_en.Authoring.Model.{VirtualOperatorContract}
use managed_python_runner_en.Publish.Rows.{
  ContractRow, PublishDb, empty_publish_db, has_operator_id, has_name, has_contract_id,
  is_of_operator, has_digest, has_version,
}
use managed_python_runner_en.Publish.Store.{
  new_operator, renamed, put_operator, max_version, new_contract, insert_contract,
}

abbrev pub version_count : PublishDb → String → ℕ
version_count db operator_id = rowcount (is_of_operator operator_id) db.contracts

pub record IsNumbered (db : PublishDb) : Type 0 where
  pub names : (workspace name : String) → rowcount (has_name workspace name) db.operators ≤ 1
  pub versions :
      (operator_id : String) (version : ℕ)
      → rowcount (has_version operator_id version) db.contracts
        ≡ (if leb 1 version && leb version (version_count db operator_id) then 1 else 0)
  pub latest :
      (operator_id : String) → max_version operator_id db.contracts ≡ version_count db operator_id
  pub digests :
      (operator_id digest : String) → rowcount (has_digest operator_id digest) db.contracts ≤ 1

pub empty_publish_db-IsNumbered : IsNumbered empty_publish_db
unfolding rowcount max_version
empty_publish_db-IsNumbered = record {
  names = λ w n. omega arith;
  versions = λ o v. ground arith;
  latest = λ o. refl;
  digests = λ o d. omega arith;
}

pub put_operator-IsNumbered :
    (now : ℕ) (operator_id workspace : String) (contract : VirtualOperatorContract)
    (db after : PublishDb)
    → put_operator now operator_id workspace contract db ≡ ok after
    → IsNumbered db
    → IsNumbered after × (after.contracts ≡ db.contracts)
unfolding put_operator rowcount
put_operator-IsNumbered now operator_id workspace contract db after h v =
    elim (Option-cases (select (has_name workspace contract.metadata.name) db.operators)) [
      | inr (row, e) ↦
          let written : after ≡ record db {
            operators =
                update (has_name workspace contract.metadata.name) (renamed now contract)
                  db.operators;
          } =
            ground arith in
          rw written (
            record {
              names = λ w n.
                  rw
                    (rowcount-update (has_name w n) (has_name workspace contract.metadata.name)
                      (renamed now contract) (λ r. refl) db.operators)
                    (v.names w n);
              versions = v.versions;
              latest = v.latest;
              digests = v.digests;
            },
            refl,
          )
      | inl absent ↦ elim (Option-cases (select (has_operator_id operator_id) db.operators)) [
        | inr (row, e) ↦ absurd (ground arith)
        | inl free ↦
            let written : after ≡ record db {
              operators = new_operator now operator_id workspace contract ∷ db.operators;
            } =
              ground arith in
            let fresh =
              rowcount-select-none (has_name workspace contract.metadata.name) db.operators
                absent in
            rw written (
              record {
                names = λ w n. ground (
                  arith,
                  fresh,
                  v.names w n,
                  eq_iff workspace w,
                  eq_iff contract.metadata.name n,
                );
                versions = v.versions;
                latest = v.latest;
                digests = v.digests;
              },
              refl,
            )
      ]
    ]

pub insert_contract-IsNumbered :
    (now : ℕ) (contract_id operator_id digest : String) (contract : VirtualOperatorContract)
    (row : ContractRow) (db after : PublishDb)
    → select (has_digest operator_id digest) db.contracts ≡ none
    → insert_contract now contract_id operator_id digest contract db ≡ ok (row, after)
    → IsNumbered db
    → IsNumbered after
      × (after.contracts ≡ row ∷ db.contracts)
      × (row.operator_id ≡ operator_id)
      × (row.version ≡ version_count db operator_id + 1)
unfolding insert_contract rowcount max_version
insert_contract-IsNumbered now contract_id operator_id digest contract row db after absent h v =
    elim (Option-cases contract.source.source_ref) [
      | inl e ↦ absurd (ground arith)
      | inr (source_ref, e) ↦
          elim (Option-cases (select (has_contract_id contract_id) db.contracts)) [
            | inr (other, k) ↦ absurd (ground arith)
            | inl free ↦
                let fresh =
                  rowcount-select-none (has_digest operator_id digest) db.contracts absent in
                let made =
                  new_contract now contract_id operator_id
                    (max_version operator_id db.contracts + 1) source_ref digest contract in
                let same : made ≡ row = ground arith in
                let written : after ≡ record db { contracts = made ∷ db.contracts } =
                  ground arith in
                rw (written, ← same)
                  (
                    record {
                      names = v.names;
                      versions = λ o n. ground (
                        arith,
                        v.versions o n,
                        v.latest o,
                        v.latest operator_id,
                        eq_iff operator_id o,
                      );
                      latest = λ o. ground (arith, v.latest o, eq_iff operator_id o);
                      digests = λ o d.
                          ground
                            (arith, fresh, v.digests o d, eq_iff operator_id o, eq_iff digest d);
                    },
                    refl,
                    refl,
                    ap (λ n. n + 1) (v.latest operator_id),
                  )
          ]
    ]
