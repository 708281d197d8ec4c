-- ===== src/Publish/Store/Steps.antt =====
-- Any history of the calls of `PublishStore`.
use managed_python_runner_en.Prelude.{
  ℕ, String, ◌≡◌, refl, ◌∙◌, ap, Bool, true, some, arith, eq_iff, inl, inr, Bool-cases,
  Option-cases, select, update, rewritten, select-update,
}
use managed_python_runner_en.Errors.{ok}
use managed_python_runner_en.Build.Store.{last_chars}
use managed_python_runner_en.Authoring.Model.{Json, VirtualOperatorContract}
use managed_python_runner_en.Publish.Rows.{
  VariantRow, PublishJobRow, PublishDb, has_variant_id, has_variant_key, variant_row, is_published,
}
use managed_python_runner_en.Publish.Store.{
  Saved, put_operator, insert_contract, save_version, save_virtual_contract, Compiled, recompiled,
  upsert_variant, create_publish_job, mark_job_running, published_row, mark_job_ready,
  failed_variant, mark_job_failed,
}
use managed_python_runner_en.Publish.Store.Saves.{save_virtual_contract-IsSaved}
use managed_python_runner_en.Publish.Store.Versions.{IsNumbered}

-- One committed call.
pub data PublishStep (contract_sha256 : VirtualOperatorContract → String) (db after : PublishDb)
    : Type 0 where
  saves :
      (now : ℕ) (operator_id contract_id workspace : String) (contract : VirtualOperatorContract)
      (saved : Saved)
      → save_virtual_contract contract_sha256 now operator_id contract_id workspace contract db
        ≡ ok (saved, after)
      → PublishStep contract_sha256 db after
  upserts :
      (now : ℕ) (variant_id : String) (compiled : Compiled) (row : VariantRow)
      → upsert_variant now variant_id compiled db ≡ ok (row, after)
      → PublishStep contract_sha256 db after
  creates_job :
      (now : ℕ) (job_id variant_id : String) (row : PublishJobRow)
      → create_publish_job now job_id variant_id db ≡ ok (row, after)
      → PublishStep contract_sha256 db after
  runs :
      (now : ℕ) (job_id : String)
      → after ≡ mark_job_running now job_id db
      → PublishStep contract_sha256 db after
  readies :
      (now : ℕ) (job_id variant_id artifact_ref : String) (result : Json)
      → after ≡ mark_job_ready now job_id variant_id artifact_ref result db
      → PublishStep contract_sha256 db after
  fails :
      (now : ℕ) (job_id variant_id error_message : String)
      → after ≡ mark_job_failed now job_id variant_id error_message db
      → PublishStep contract_sha256 db after

pub data PublishReach (contract_sha256 : VirtualOperatorContract → String) (db : PublishDb)
    : PublishDb → Type 0 where
  start : PublishReach contract_sha256 db db
  next :
      {mid after : PublishDb}
      → PublishReach contract_sha256 db mid
      → PublishStep contract_sha256 mid after
      → PublishReach contract_sha256 db after

pub PublishReach-trans :
    {contract_sha256 : VirtualOperatorContract → String} {db mid after : PublishDb}
    → PublishReach contract_sha256 db mid
    → PublishReach contract_sha256 mid after
    → PublishReach contract_sha256 db after
PublishReach-trans r start = r
PublishReach-trans r (next r' step) = next (PublishReach-trans r r') step

abbrev SameContracts : PublishDb → PublishDb → Type 0
SameContracts db after = (after.operators ≡ db.operators) × (after.contracts ≡ db.contracts)

same-IsNumbered : (db after : PublishDb) → SameContracts db after → IsNumbered db → IsNumbered after
same-IsNumbered db after (operators, contracts) v = record {
  names = rw operators v.names;
  versions = rw contracts v.versions;
  latest = rw contracts v.latest;
  digests = rw contracts v.digests;
}

-- PUBLISHED, with what was published.
abbrev pub IsPublished : VariantRow → Type 0
IsPublished row =
    (is_published row ≡ true) × ((artifact_ref : String) × (row.published_ref ≡ some artifact_ref))

recompiled-IsPublished :
    (now : ℕ) (c : Compiled) (row : VariantRow)
    → IsPublished row
    → IsPublished (recompiled now c row)
recompiled-IsPublished now c row (published, ref) = (ground arith, ref)

failed_variant-IsPublished :
    (now : ℕ) (message : String) (row : VariantRow)
    → IsPublished row
    → IsPublished (failed_variant now message row)
failed_variant-IsPublished now message row (published, ref) = (ground arith, ref)

-- An UPDATE that keeps the published ones published.
update-IsPublished :
    (db after : PublishDb) (q : VariantRow → Bool) (f : VariantRow → VariantRow)
    (variant_id : String) (row : VariantRow)
    → ((r : VariantRow) → (f r).id ≡ r.id)
    → ((r : VariantRow) → IsPublished r → IsPublished (f r))
    → after.variants ≡ update q f db.variants
    → variant_row db variant_id ≡ some row
    → IsPublished row
    → (written : VariantRow) × (variant_row after variant_id ≡ some written) × IsPublished written
update-IsPublished db after q f variant_id row same keeps written at published =
    let write : variant_row after variant_id ≡ rewritten q f (variant_row db variant_id) =
      rw written (select-update (has_variant_id variant_id) q f (λ r. rw (same r)) db.variants) in
    elim (Bool-cases (q row)) [
      | inl hit ↦ (f row, write ∙ (rw at (ground arith)), keeps row published)
      | inr miss ↦ (row, write ∙ (rw at (ground arith)), published)
    ]

saves-variants :
    (contract_sha256 : VirtualOperatorContract → String) (now : ℕ)
    (operator_id contract_id workspace : String) (contract : VirtualOperatorContract)
    (saved : Saved) (db after : PublishDb)
    → save_virtual_contract contract_sha256 now operator_id contract_id workspace contract db
      ≡ ok (saved, after)
    → after.variants ≡ db.variants
unfolding save_virtual_contract save_version put_operator insert_contract
saves-variants contract_sha256 now operator_id contract_id workspace contract saved db after h =
    ground arith

module _ {contract_sha256 : VirtualOperatorContract → String} where
  PublishStep-IsNumbered :
      {db after : PublishDb}
      → PublishStep contract_sha256 db after
      → IsNumbered db
      → IsNumbered after
  PublishStep-IsNumbered {db} {after} (saves now operator_id contract_id workspace contract saved h)
        v =
      (save_virtual_contract-IsSaved contract_sha256 now operator_id contract_id workspace contract
        saved db after h v).numbered
  PublishStep-IsNumbered {db} {after} (upserts now variant_id compiled row h) v =
      same-IsNumbered db after (unfold upsert_variant in ground arith) v
  PublishStep-IsNumbered {db} {after} (creates_job now job_id variant_id row h) v =
      same-IsNumbered db after (unfold create_publish_job in ground arith) v
  PublishStep-IsNumbered {db} {after} (runs now job_id e) v =
      same-IsNumbered db after (unfold mark_job_running in ground arith) v
  PublishStep-IsNumbered {db} {after} (readies now job_id variant_id artifact_ref result e) v =
      same-IsNumbered db after (unfold mark_job_ready in ground arith) v
  PublishStep-IsNumbered {db} {after} (fails now job_id variant_id error_message e) v =
      same-IsNumbered db after (unfold mark_job_failed in ground arith) v

  -- Over any history of the store's calls, the versions of an operator's contract are 1, 2 and so
  -- on without a gap, the latest is their number, each is of another digest, and a workspace has
  -- one operator of a name.
  pub PublishReach-IsNumbered :
      {db after : PublishDb}
      → PublishReach contract_sha256 db after
      → IsNumbered db
      → IsNumbered after
  PublishReach-IsNumbered start v = v
  PublishReach-IsNumbered (next r s) v = PublishStep-IsNumbered s (PublishReach-IsNumbered r v)

  PublishStep-IsPublished :
      {db after : PublishDb} (variant_id : String) (row : VariantRow)
      → PublishStep contract_sha256 db after
      → variant_row db variant_id ≡ some row
      → IsPublished row
      → (written : VariantRow) × (variant_row after variant_id ≡ some written) × IsPublished written
  PublishStep-IsPublished {db} {after} i row
        (saves now operator_id contract_id workspace contract saved h) at p =
      (
        row,
        rw
            (saves-variants contract_sha256 now operator_id contract_id workspace contract saved db
              after h)
            at,
        p,
      )
  PublishStep-IsPublished {db} {after} i row (upserts now variant_id c new h) at p =
      elim (Option-cases
        (select (has_variant_key c.contract_id c.backend c.variant_key) db.variants)) [
          | inr (old, e) ↦
              update-IsPublished db after (has_variant_key c.contract_id c.backend c.variant_key)
                (recompiled now c) i row (λ r. refl) (recompiled-IsPublished now c)
                (unfold upsert_variant in ground arith) at p
          | inl absent ↦
              (row, unfold upsert_variant select in ground (arith, eq_iff variant_id i), p)
        ]
  PublishStep-IsPublished {db} {after} i row (creates_job now job_id variant_id new h) at p =
      (row, unfold create_publish_job in ground arith, p)
  PublishStep-IsPublished {db} {after} i row (runs now job_id e) at p =
      (row, unfold mark_job_running in ground arith, p)
  PublishStep-IsPublished {db} {after} i row (readies now job_id variant_id artifact_ref result e)
        at p =
      update-IsPublished db after (has_variant_id variant_id)
        (published_row now artifact_ref result) i row (λ r. refl)
        (λ r h. (refl, (artifact_ref, refl))) (unfold mark_job_ready in ap (λ x. x.variants) e) at p
  PublishStep-IsPublished {db} {after} i row (fails now job_id variant_id error_message e) at p =
      update-IsPublished db after (has_variant_id variant_id)
        (failed_variant now (last_chars 8192 error_message)) i row (λ r. refl)
        (failed_variant-IsPublished now (last_chars 8192 error_message))
        (unfold mark_job_failed in ap (λ x. x.variants) e) at p

  -- Over any history of the store's calls, a variant that is PUBLISHED with an artifact stays
  -- PUBLISHED with an artifact, whatever is compiled, published or fails later.
  pub PublishReach-IsPublished :
      {db after : PublishDb} (variant_id : String) (row : VariantRow)
      → PublishReach contract_sha256 db after
      → variant_row db variant_id ≡ some row
      → IsPublished row
      → (written : VariantRow) × (variant_row after variant_id ≡ some written) × IsPublished written
  PublishReach-IsPublished i row start at p = (row, at, p)
  PublishReach-IsPublished i row (next r s) at p =
      let (mid, found, published) = PublishReach-IsPublished i row r at p in
      PublishStep-IsPublished i mid s found published
