-- ===== src/Pool/Cells.antt =====
-- The state of `WorkerPool` (runner_engine/pool.py).
-- A `Worker` is a mutable object that the pool and a running invocation share: it is a cell of
-- the list `workers`, and a reference is its place there. A method reads the
-- monotonic clock (in milliseconds) once.
use managed_python_runner_en.Prelude.{
  ℕ, suc, ◌+◌, ◌≡◌, String, Bool, true, ◌&&◌, ◌||◌, List, [], ◌∷◌, arith, ◌==◌, eq_iff, leb,
  if◌then◌else◌, Dict, Eq, string_eq,
}
use managed_python_runner_en.Errors.{Result, ok, err, exception}
use managed_python_runner_en.Model.{OperatorRelease, Worker}
use managed_python_runner_en.Quota.{Quota}

pub record PoolConfig : Type 0 where
  pub idle_seconds : ℕ
  pub orphan_ttl_seconds : ℕ
  pub renew_before_seconds : ℕ
  pub max_installed_releases : ℕ

-- The checks of `__init__`.
unfoldable pub make_config : ℕ → ℕ → ℕ → ℕ → Result PoolConfig
make_config idle_seconds orphan_ttl_seconds renew_before_seconds max_installed_releases =
    if leb idle_seconds 0
    then err (exception "idle_seconds must be positive")
    else if leb orphan_ttl_seconds (idle_seconds + 60)
    then err (exception "orphan_ttl_seconds must be comfortably larger than idle_seconds")
    else if leb renew_before_seconds 0 || leb orphan_ttl_seconds renew_before_seconds
    then err (exception "renew_before_seconds must be between 0 and orphan_ttl_seconds")
    else if leb max_installed_releases 0
    then err (exception "max_installed_releases must be positive")
    else ok (record {
      idle_seconds = idle_seconds;
      orphan_ttl_seconds = orphan_ttl_seconds;
      renew_before_seconds = renew_before_seconds;
      max_installed_releases = max_installed_releases;
    })

-- tuple[str, str, str]: tenant, runtime and profile.
pub record PoolKey : Type 0 where
  pub tenant_id : String
  pub runtime_id : String
  pub profile : String

abbrev key_beq : PoolKey → PoolKey → Bool
key_beq a b = a.tenant_id == b.tenant_id && (a.runtime_id == b.runtime_id && a.profile == b.profile)

pub key_beq_iff : (a b : PoolKey) → ((key_beq a b ≡ true) → a ≡ b) × (a ≡ b → (key_beq a b ≡ true))
key_beq_iff a b = (
  λ h. ground (
    arith,
    eq_iff a.tenant_id b.tenant_id,
    eq_iff a.runtime_id b.runtime_id,
    eq_iff a.profile b.profile,
  ),
  λ h. ground (
    arith,
    eq_iff a.tenant_id b.tenant_id,
    eq_iff a.runtime_id b.runtime_id,
    eq_iff a.profile b.profile,
  ),
)

instance abbrev pub key_eq : Eq PoolKey
key_eq = record { beq = key_beq; beq_iff = key_beq_iff }

abbrev pub pool_key : String → OperatorRelease → PoolKey
pool_key tenant_id release = record {
  tenant_id = tenant_id;
  runtime_id = release.runtime.id;
  profile = release.profile;
}

abbrev pub worker_key : Worker → PoolKey
worker_key w = record { tenant_id = w.tenant_id; runtime_id = w.runtime_id; profile = w.profile }

pub record Pool (S : Type 0) : Type 0 where
  pub config : PoolConfig
  pub quota : Quota
  pub workers : List Worker
  pub idle : Dict PoolKey (List ℕ)
  pub backend : S

-- An assignment to fields of the object behind a reference.
unfoldable pub modify : ℕ → (Worker → Worker) → List Worker → List Worker
modify i f [] = []
modify ℕ.zero f (w ∷ ws) = f w ∷ ws
modify (suc i) f (w ∷ ws) = w ∷ modify i f ws
