-- ===== src/Pool/Reap.antt =====
-- `reap` and `reset_after_restart` of `WorkerPool` (runner_engine/pool.py).
use managed_python_runner_en.Prelude.{
  ℕ, Bool, true, false, none, some, List, [], ◌∷◌, ◌++◌, if◌then◌else◌, length, get_elem?, Dict,
}
use managed_python_runner_en.Errors.{Result, ok, err}
use managed_python_runner_en.Model.{Worker}
use managed_python_runner_en.Backend.{Backend}
use managed_python_runner_en.Pool.Cells.{PoolConfig, PoolKey, Pool}
use managed_python_runner_en.Pool.Acquire.{idle_expired}
use managed_python_runner_en.Pool.Destroy.{destroy_all}

abbrev pub expired_at : PoolConfig → ℕ → List Worker → ℕ → Bool
expired_at config now workers i = elim (get_elem? workers i) [
  | none ↦ true
  | some w ↦ idle_expired config now w
]

-- The workers of a bucket that pass the test, or that fail it, in order.
unfoldable pub keep : (ℕ → Bool) → Bool → List ℕ → List ℕ
keep expired wanted [] = []
keep expired wanted (i ∷ bucket) =
    let rest = keep expired wanted bucket in
    if expired i then (if wanted then i ∷ rest else rest) else (if wanted then rest else i ∷ rest)

-- A bucket that nothing is kept of is taken out.
abbrev pub cons_bucket : PoolKey → List ℕ → Dict PoolKey (List ℕ) → Dict PoolKey (List ℕ)
cons_bucket key [] idle = idle
cons_bucket key (i ∷ kept) idle = (key, i ∷ kept) ∷ idle

unfoldable pub kept_idle : (ℕ → Bool) → Dict PoolKey (List ℕ) → Dict PoolKey (List ℕ)
unfolding keep
kept_idle expired [] = []
kept_idle expired ((key, bucket) ∷ idle) =
    cons_bucket key (keep expired false bucket) (kept_idle expired idle)

unfoldable pub stale_idle : (ℕ → Bool) → Dict PoolKey (List ℕ) → List ℕ
unfolding keep
stale_idle expired [] = []
stale_idle expired ((key, bucket) ∷ idle) = keep expired true bucket ++ stale_idle expired idle

module _ {S : Type 0} (b : Backend S) where
  unfoldable pub counted : ℕ → Result (Unit {0}) × Pool S → Result ℕ × Pool S
  counted n (ok _, p) = (ok n, p)
  counted n (err e, p) = (err e, p)

  unfoldable pub reap : ℕ → Pool S → Result ℕ × Pool S
  unfolding counted
  reap now p =
      let expired = expired_at p.config now p.workers in
      let stale = stale_idle expired p.idle in
      counted (length stale) (destroy_all b stale (record p { idle = kept_idle expired p.idle }))

  -- `_idle` is empty also where the backend raises.
  unfoldable pub reset_after_restart : Pool S → Result ℕ × Pool S
  reset_after_restart p =
      let (cleaned, backend) = b.cleanup_managed p.backend in
      (cleaned, record p { idle = []; backend = backend })
