-- ===== src/State/Leases/Ownership.antt =====
-- A lease answers to its tenant and release until it expires, and to no other tenant.
use managed_python_runner_en.Prelude.{
  ℕ, ◌+◌, ◌*◌, ◌≤◌, ◌<◌, String, ◌≡◌, ◌≢◌, refl, sym, ◌∙◌, true, false, Option, none, some, arith,
  ◌==◌, eq_iff, eq_self, leb, inl, inr, Bool-cases, Option-cases, OnSome, if◌then◌else◌, rowcount,
  update, delete, select, select-update, select-delete, select-holds,
}
use managed_python_runner_en.Errors.{ok, lease, raise}
use managed_python_runner_en.Model.{Lease}
use managed_python_runner_en.State.Rows.{Clocks, LeaseRow, Db, has_lease_id, lease_row}
use managed_python_runner_en.State.Leases.{
  after_ms, lease_of, create_lease, require_lease, renew_lease, delete_lease, is_lease_of,
}

release_matches :
    (t : Clocks) (id tenant_id : String) (release_id : Option String) (db : Db) (l : Lease)
    (row : LeaseRow)
    → lease_row db id ≡ some row
    → require_lease t id tenant_id release_id db ≡ ok l
    → OnSome (λ release. row.release_id ≡ release) release_id
unfolding require_lease
release_matches t id te none db l row e h = tt
release_matches t id te (some release) db l row e h = ground (arith, eq_iff row.release_id release)

-- A lease is granted only where its row is there, is the tenant's, is for the release if one is
-- named, and has not expired.
pub require_lease-ok :
    (t : Clocks) (id tenant_id : String) (release_id : Option String) (db : Db) (l : Lease)
    → require_lease t id tenant_id release_id db ≡ ok l
    → (row : LeaseRow) × (lease_row db id ≡ some row)
      × (l ≡ lease_of row)
      × (row.tenant_id ≡ tenant_id)
      × (t.runner < row.expires_at)
      × OnSome (λ release. row.release_id ≡ release) release_id
unfolding require_lease
require_lease-ok t id te re db l h = elim (Option-cases (lease_row db id)) [
  | inl e ↦ absurd (ground arith)
  | inr (row, e) ↦ (
    row,
    e,
    ground arith,
    ground (arith, eq_iff row.tenant_id te),
    ground arith,
    release_matches t id te re db l row e h,
  )
]

-- After create_lease, the tenant is granted the lease for its release until it expires, and is
-- refused as expired from then on.
pub require_lease-create_lease :
    (t t' : Clocks) (id tenant_id project_id processor_id release_id : String) (ttl_ms : ℕ)
    (l : Lease) (db after : Db)
    → create_lease t id tenant_id project_id processor_id release_id ttl_ms db ≡ ok (l, after)
    → require_lease t' id tenant_id (some release_id) after ≡ (
        if leb (t.runner + ttl_ms * 1000) t'.runner
        then raise lease "LEASE_EXPIRED" "lease expired" true
        else ok l)
unfolding create_lease require_lease select
require_lease-create_lease t t' id te pr pc re ttl l db after h =
    ground (arith, eq_self id, eq_self te, eq_self re)

-- The UPDATE of `renew_lease`.
abbrev renewed : Clocks → ℕ → LeaseRow → LeaseRow
renewed t ttl_ms row = record row { expires_at = after_ms t.runner ttl_ms; updated_at = t.database }

renew_lease-ok :
    (checked t : Clocks) (id tenant_id : String) (ttl_ms : ℕ) (l : Lease) (db after : Db)
    → renew_lease checked t id tenant_id ttl_ms db ≡ ok (l, after)
    → (row : LeaseRow) × (lease_row db id ≡ some row)
      × (row.tenant_id ≡ tenant_id)
      × (l ≡ lease_of (renewed t ttl_ms row))
      × (after.leases ≡ update (is_lease_of id tenant_id) (renewed t ttl_ms) db.leases)
unfolding renew_lease
renew_lease-ok checked t id te ttl l db after h = elim (Option-cases (lease_row db id)) [
  | inl e ↦ absurd (ground arith)
  | inr (row, e) ↦ (row, e, ground (arith, eq_iff row.tenant_id te), ground arith, ground arith)
]

-- Renewing a lease changes no lease of another tenant.
pub renew_lease_other :
    (checked t : Clocks) (id tenant_id : String) (ttl_ms : ℕ) (l : Lease) (db after : Db)
    → renew_lease checked t id tenant_id ttl_ms db ≡ ok (l, after)
    → (other : String) (row : LeaseRow) → lease_row db other ≡ some row
    → row.tenant_id ≢ tenant_id
    → lease_row after other ≡ some row
renew_lease_other checked t id te ttl l db after h other row at differs =
    let (_, _, _, _, e) = renew_lease-ok checked t id te ttl l db after h in
    rw e (
      select-update (has_lease_id other) (is_lease_of id te) (renewed t ttl) (λ r. refl) db.leases
      ∙ (rw at (ground (arith, eq_iff row.tenant_id te))))

-- Where lease identifiers are unique, deleting a lease changes no lease of another tenant.
pub delete_lease_other :
    (id tenant_id : String) (db after : Db)
    → ((lease_id : String) → rowcount (has_lease_id lease_id) db.leases ≤ 1)
    → delete_lease id tenant_id db ≡ ok (tt, after)
    → (other : String) (row : LeaseRow) → lease_row db other ≡ some row
    → row.tenant_id ≢ tenant_id
    → lease_row after other ≡ some row
unfolding delete_lease
delete_lease_other id te db after unique h other row at differs =
    elim (Option-cases (lease_row db id)) [
      | inl e ↦ let same : after ≡ db = ground arith in rw same at
      | inr (own, e) ↦
          let removed : after.leases ≡ delete (has_lease_id id) db.leases = ground arith in
          let mine : own.tenant_id ≡ te = ground (arith, eq_iff own.tenant_id te) in
          let named : row.id ≡ other =
            (eq_iff _ _).0 (select-holds (has_lease_id other) db.leases row at) in
          let kept_row : (row.id == id) ≡ false = elim (Bool-cases (row.id == id)) [
            | inr miss ↦ miss
            | inl hit ↦
                let here : id ≡ other = sym ((eq_iff row.id id).0 hit) ∙ named in
                let found : lease_row db id ≡ some row = rw here at in
                let same : own ≡ row = cc in absurd (differs (rw (← same) mine))
          ] in
          rw removed (
            select-delete (has_lease_id other) (has_lease_id id) db.leases (unique other)
            ∙ (rw at (rw kept_row)))
    ]

-- After renew_lease, the tenant is granted the lease until the new expiry, and is refused as
-- expired from then on.
pub require_lease-renew_lease :
    (checked t t' : Clocks) (id tenant_id : String) (ttl_ms : ℕ) (l : Lease) (db after : Db)
    → renew_lease checked t id tenant_id ttl_ms db ≡ ok (l, after)
    → require_lease t' id tenant_id none after ≡ (
        if leb (t.runner + ttl_ms * 1000) t'.runner
        then raise lease "LEASE_EXPIRED" "lease expired" true
        else ok l)
unfolding require_lease
require_lease-renew_lease checked t t' id te ttl l db after h =
    let (row, at, mine, e, written) = renew_lease-ok checked t id te ttl l db after h in
    let found : lease_row after id ≡ some (renewed t ttl row) = rw written (
      select-update (has_lease_id id) (is_lease_of id te) (renewed t ttl) (λ r. refl) db.leases
      ∙ (rw at (
          ground
            (arith, eq_iff row.tenant_id te, select-holds (has_lease_id id) db.leases row at)))) in
    ground (arith, found, eq_iff row.tenant_id te)
