-- ===== src/State/Leases.antt =====
-- The lease methods of `RunnerDB` (runner_engine/state.py). A new `uuid4` is an argument.
pub mod Ownership
use managed_python_runner_en.Prelude.{
  ℕ, ◌+◌, ◌*◌, String, Bool, true, false, not, ◌&&◌, Option, none, some, ◌∷◌, leb, ◌==◌, update,
  delete, rowcount,
}
use managed_python_runner_en.Errors.{Result, ok, lease, raise, raise_if, ◌>>=◌, ◌>>◌}
use managed_python_runner_en.Model.{Lease}
use managed_python_runner_en.State.Rows.{
  Clocks, LeaseRow, Db, Tx, has_lease_id, lease_row, unique_violation,
}
use managed_python_runner_en.State.Codec.{epoch_ms}

-- now + timedelta(milliseconds=ms)
abbrev pub after_ms : ℕ → ℕ → ℕ
after_ms now ms = now + ms * 1000

abbrev pub lease_of : LeaseRow → Lease
lease_of row = record {
  id = row.id;
  tenant_id = row.tenant_id;
  project_id = row.project_id;
  processor_id = row.processor_id;
  release_id = row.release_id;
  expires_at_ms = epoch_ms row.expires_at;
}

unfoldable pub create_lease :
    Clocks → String → String → String → String → String → ℕ → Db → Tx Lease
create_lease t lease_id tenant_id project_id processor_id release_id ttl_ms db =
    let row : LeaseRow = record {
      id = lease_id;
      tenant_id = tenant_id;
      project_id = project_id;
      processor_id = processor_id;
      release_id = release_id;
      expires_at = after_ms t.runner ttl_ms;
      created_at = t.database;
      updated_at = t.database;
    } in
    elim (lease_row db lease_id) [
      | some _ ↦ unique_violation
      | none ↦ ok (lease_of row, record db { leases = row ∷ db.leases })
    ]

-- `release_id is not None and row["release_id"] != release_id`
abbrev release_differs : LeaseRow → Option String → Bool
release_differs row none = false
release_differs row (some release_id) = not (row.release_id == release_id)

abbrev found_lease : Option LeaseRow → Result LeaseRow
found_lease none = raise lease "LEASE_UNKNOWN" "lease does not exist" true
found_lease (some row) = ok row

-- It reads only, so it returns no state.
unfoldable pub require_lease : Clocks → String → String → Option String → Db → Result Lease
require_lease t lease_id tenant_id release_id db = do
  row ← found_lease (lease_row db lease_id)
  raise_if (not (row.tenant_id == tenant_id)) lease "LEASE_FORBIDDEN"
      "lease belongs to another tenant" false
  raise_if (release_differs row release_id) lease "LEASE_RELEASE_MISMATCH"
      "lease is for another release" false
  raise_if (leb row.expires_at t.runner) lease "LEASE_EXPIRED" "lease expired" true
  ok (lease_of row)

abbrev is_lease_of : String → String → LeaseRow → Bool
is_lease_of lease_id tenant_id row = has_lease_id lease_id row && row.tenant_id == tenant_id

-- The check and the UPDATE are two transactions: they read the clocks one after the other.
unfoldable pub renew_lease : Clocks → Clocks → String → String → ℕ → Db → Tx Lease
unfolding require_lease
renew_lease checked t lease_id tenant_id ttl_ms db = do
  current ← require_lease checked lease_id tenant_id none db
  let expires_at = after_ms t.runner ttl_ms
  ok (
    record current { expires_at_ms = epoch_ms expires_at },
    record db {
      leases =
          update (is_lease_of lease_id tenant_id)
            (λ row. record row { expires_at = expires_at; updated_at = t.database }) db.leases;
    },
  )

unfoldable pub delete_lease : String → String → Db → Tx (Unit {0})
delete_lease lease_id tenant_id db = elim (lease_row db lease_id) [
  | none ↦ ok (tt, db)
  | some row ↦ (do
    raise_if (not (row.tenant_id == tenant_id)) lease "LEASE_FORBIDDEN"
        "lease belongs to another tenant" false
    ok (tt, record db { leases = delete (has_lease_id lease_id) db.leases }))
]

abbrev is_expired_lease : ℕ → LeaseRow → Bool
is_expired_lease now row = leb row.expires_at now

unfoldable pub purge_expired_leases : Clocks → Db → ℕ × Db
purge_expired_leases t db = (
  rowcount (is_expired_lease t.database) db.leases,
  record db { leases = delete (is_expired_lease t.database) db.leases },
)
