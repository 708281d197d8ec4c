-- ===== src/Pool/Destroy.antt =====
-- `_destroy`, `invalidate` and `release` of `WorkerPool` (runner_engine/pool.py).
use managed_python_runner_en.Prelude.{
  ℕ, ◌+◌, true, false, not, ◌||◌, none, some, List, [], ◌∷◌, ◌++◌, if◌then◌else◌, get_elem?, put,
  get_default,
}
use managed_python_runner_en.Errors.{Result, ok, err}
use managed_python_runner_en.Model.{SecurityPolicy, Worker}
use managed_python_runner_en.Quota.{release_live}
use managed_python_runner_en.Backend.{Backend}
use managed_python_runner_en.Pool.Cells.{key_eq, worker_key, Pool, modify}

abbrev pub mark_destroyed : Worker → Worker
mark_destroyed w = record w { destroyed = true }

abbrev pub mark_unhealthy : Worker → Worker
mark_unhealthy w = record w { healthy = false }

-- `worker.runs += 1` and the new `last_used_monotonic`
abbrev pub mark_used : ℕ → Worker → Worker
mark_used now w = record w { runs = w.runs + 1; last_used_monotonic = now }

module _ {S : Type 0} (b : Backend S) where
  -- The part of `_destroy` behind its test. `finally` gives the quota back, whatever the backend
  -- answers.
  abbrev pub tear_down : ℕ → Worker → Pool S → Result (Unit {0}) × Pool S
  tear_down i w p =
      let (answer, backend) = b.destroy (mark_destroyed w) p.backend in
      (
        answer,
        record p {
          workers = modify i mark_destroyed p.workers;
          quota = release_live w.tenant_id p.quota;
          backend = backend;
        },
      )

  -- A reference is to a cell: there is no other case.
  unfoldable pub destroy : ℕ → Pool S → Result (Unit {0}) × Pool S
  destroy i p = elim (get_elem? p.workers i) [
    | none ↦ (ok tt, p)
    | some w ↦ if w.destroyed then (ok tt, p) else tear_down i w p
  ]

  unfoldable pub invalidate : ℕ → Pool S → Result (Unit {0}) × Pool S
  invalidate i p = destroy i (record p { workers = modify i mark_unhealthy p.workers })

  -- `for worker in stale: self._destroy(worker)`, which an exception ends.
  unfoldable pub destroy_all : List ℕ → Pool S → Result (Unit {0}) × Pool S
  destroy_all [] p = (ok tt, p)
  destroy_all (i ∷ stale) p =
      let (answer, after) = destroy i p in
      let rest = destroy_all stale after in elim answer [ ok _ ↦ rest | err e ↦ (err e, after) ]

  -- self._idle.setdefault(key, []).append(worker)
  abbrev pub park : ℕ → Worker → Pool S → Pool S
  park i w p = record p {
    idle = put (worker_key w) (get_default (worker_key w) [] p.idle ++ i ∷ []) p.idle;
  }

  abbrev pub give_back : ℕ → Worker → SecurityPolicy → Pool S → Result (Unit {0}) × Pool S
  give_back i w policy p =
      if w.destroyed || (not w.healthy || not policy.reuse_sandbox)
      then destroy i p
      else (ok tt, park i w p)

  unfoldable pub release : ℕ → ℕ → SecurityPolicy → Pool S → Result (Unit {0}) × Pool S
  release now i policy p =
      let used : Pool S = record p { workers = modify i (mark_used now) p.workers } in
      elim (get_elem? used.workers i) [ none ↦ (ok tt, used) | some w ↦ give_back i w policy used ]
