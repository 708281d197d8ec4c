-- ===== src/Gateway/Guard.antt =====
-- Who may use a lease.
use mathlib.Core.List.{Memᴰ}
use managed_python_runner_en.Prelude.{
  String, ◌≡◌, ◌≢◌, refl, sym, true, none, some, ◌⊎◌, inl, inr, Bool-cases, Option-cases, List, [],
  ◌∷◌, ◌==◌, eq_iff, arith, Dict, string_eq, get,
}
use managed_python_runner_en.Errors.{ok, Result-cases}
use managed_python_runner_en.Model.{Lease, RunRequest}
use managed_python_runner_en.Backend.{Backend}
use managed_python_runner_en.State.Rows.{Clocks, Db}
use managed_python_runner_en.State.Leases.{require_lease}
use managed_python_runner_en.Pool.Acquire.{contains}
use managed_python_runner_en.Service.Cells.{Service, Settings, Times}
use managed_python_runner_en.Service.Invoke.{invoke}
use managed_python_runner_en.Service.Requests.{cancel, release_lease}
use managed_python_runner_en.Gateway.Access.{AccessControl, covers, allow, peer_identity}
use managed_python_runner_en.Gateway.Handlers.{
  Auth, Handled, handled, committed, authorize_lease, handle_invoke, handle_cancel,
  handle_release_lease, with_default_timeout,
}

-- The access control has the identity, which has the tenant, with the project or "*".
abbrev pub IsListed : AccessControl → String → String → String → Type 0
IsListed access identity tenant_id project_id =
    (tenants : Dict String (List String)) × (projects : List String) × (get identity access
      ≡ some tenants)
    × (get tenant_id tenants ≡ some projects)
    × (Memᴰ "*" projects ⊎ Memᴰ project_id projects)

-- The peer is known, the lease is the tenant's and has not expired, and the access control has the
-- peer with the tenant and the lease's project.
abbrev pub MayUse : AccessControl → Auth → Clocks → String → String → Db → Type 0
MayUse access auth t tenant_id lease_id db =
    (identity : String) × (lease : Lease) × (peer_identity auth ≡ ok identity)
    × (require_lease t lease_id tenant_id none db ≡ ok lease)
    × IsListed access identity tenant_id lease.project_id

contains-Mem : (x : String) (values : List String) → contains x values ≡ true → Memᴰ x values
contains-Mem x [] h = absurd (ground arith)
contains-Mem x (y ∷ values) h = elim (Bool-cases (y == x)) [
  | inl hit ↦ Memᴰ.head (sym ((eq_iff y x).0 hit))
  | inr miss ↦ Memᴰ.tail (contains-Mem x values (ground arith))
]

covers-Mem :
    (project_id : String) (projects : List String)
    → covers (some project_id) projects ≡ true
    → Memᴰ "*" projects ⊎ Memᴰ project_id projects
covers-Mem project_id projects h = elim (Bool-cases (contains "*" projects)) [
  | inl all ↦ inl (contains-Mem "*" projects all)
  | inr some_only ↦ inr (contains-Mem project_id projects (ground arith))
]

allow-IsListed :
    (access : AccessControl) (identity tenant_id project_id : String)
    → allow access identity tenant_id (some project_id) ≡ true
    → IsListed access identity tenant_id project_id
unfolding allow get
allow-IsListed access identity te project h = elim (Option-cases (get identity access)) [
  | inl missing ↦ absurd (ground arith)
  | inr (tenants, e) ↦ elim (Option-cases (get te tenants)) [
    | inl missing ↦ absurd (ground arith)
    | inr (projects, g) ↦ (tenants, projects, e, g, covers-Mem project projects (ground arith))
  ]
]

module _ {S : Type 0} (access : AccessControl) (auth : Auth) (t : Clocks) where
  authorize_lease-MayUse :
      {A : Type 0} (tenant_id lease_id : String) (rest : Handled S A) (s : Service S)
      → (authorize_lease access auth t tenant_id lease_id rest s).1 ≢ s
      → MayUse access auth t tenant_id lease_id s.db
  unfolding authorize_lease
  authorize_lease-MayUse te id rest s = elim (Result-cases (peer_identity auth)) [
    | inr (e, h) ↦ rw (h, authorize_lease) (λ changed. absurd (changed refl))
    | inl (identity, h) ↦ elim (Result-cases (require_lease t id te none s.db)) [
      | inr (e, g) ↦ rw (h, authorize_lease) (rw g (λ changed. absurd (changed refl)))
      | inl (lease, g) ↦ elim (Bool-cases (allow access identity te (some lease.project_id))) [
        | inl may ↦
            λ _. (identity, lease, h, g, allow-IsListed access identity te lease.project_id may)
        | inr may_not ↦
            rw (h, authorize_lease) (rw g (rw may_not (λ changed. absurd (changed refl))))
      ]
    ]
  ]

  -- Where the handler Invoke changes the service, the peer gave an identity, the request's lease
  -- is the tenant's and has not expired, and the access control lists the identity with the tenant
  -- and the lease's project or "*".
  pub handle_invoke-MayUse :
      (b : Backend S) (settings : Settings) (times : Times) (run_id : String) (request : RunRequest)
      (s : Service S)
      → (handle_invoke b access auth settings t times run_id request s).1 ≢ s
      → MayUse access auth t request.tenant_id request.lease_id s.db
  unfolding handle_invoke
  handle_invoke-MayUse b settings times run_id request s =
      authorize_lease-MayUse request.tenant_id request.lease_id
        (handled (invoke b settings times run_id (with_default_timeout request) s)) s

  -- Where the handler Cancel changes the service, the peer gave an identity, the request's lease
  -- is the tenant's and has not expired, and the access control lists the identity with the tenant
  -- and the lease's project or "*".
  pub handle_cancel-MayUse :
      (b : Backend S) (checked : Clocks) (tenant_id lease_id invocation_id : String) (s : Service S)
      → (handle_cancel b access auth t checked tenant_id lease_id invocation_id s).1 ≢ s
      → MayUse access auth t tenant_id lease_id s.db
  unfolding handle_cancel
  handle_cancel-MayUse b checked te id invocation_id s =
      authorize_lease-MayUse te id (handled (cancel b checked te id invocation_id s)) s

  -- Where the handler ReleaseLease changes the service, the peer gave an identity, the request's
  -- lease is the tenant's and has not expired, and the access control lists the identity with the
  -- tenant and the lease's project or "*".
  pub handle_release_lease-MayUse :
      (tenant_id lease_id : String) (s : Service S)
      → (handle_release_lease access auth t tenant_id lease_id s).1 ≢ s
      → MayUse access auth t tenant_id lease_id s.db
  unfolding handle_release_lease
  handle_release_lease-MayUse te id s =
      authorize_lease-MayUse te id (committed (release_lease te id s.db) s) s
