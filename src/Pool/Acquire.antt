-- ===== src/Pool/Acquire.antt =====
-- `acquire` of `WorkerPool` (runner_engine/pool.py), with `_idle_expired`, `_ensure_sandbox_ttl`
-- and `_ensure_release`.
use mathlib.Core.List.{reverse}
use managed_python_runner_en.Prelude.{
  ℕ, ◌+◌, ◌*◌, String, Bool, true, false, not, ◌&&◌, ◌||◌, Option, none, some, List, [], ◌∷◌, ◌++◌,
  ◌==◌, if◌then◌else◌, ltb, leb, max, length, get_elem?, Dict, put, pop, get_default,
}
use managed_python_runner_en.Errors.{Result, ok, err, Error}
use managed_python_runner_en.Model.{OperatorRelease, SecurityPolicy, Worker}
use managed_python_runner_en.Quota.{reserve_live, release_live, enter_creation, leave_creation}
use managed_python_runner_en.Backend.{Backend, NewSandbox, new_worker}
use managed_python_runner_en.Pool.Cells.{PoolConfig, PoolKey, key_eq, pool_key, Pool, modify}
use managed_python_runner_en.Pool.Destroy.{invalidate, destroy_all}

-- x in xs
abbrev pub contains : String → List String → Bool
contains x [] = false
contains x (y ∷ ys) = y == x || contains x ys

unfoldable pub idle_expired : PoolConfig → ℕ → Worker → Bool
idle_expired config now w =
    (w.destroyed || not w.healthy) || ltb (w.last_used_monotonic + config.idle_seconds * 1000) now

-- The release is not installed and there is no room for it.
abbrev pub is_full : PoolConfig → String → Worker → Bool
is_full config release_id w =
    not (contains release_id w.installed_release_ids)
    && leb config.max_installed_releases (length w.installed_release_ids)

abbrev pub is_stale : PoolConfig → ℕ → String → List Worker → ℕ → Bool
is_stale config now release_id workers i = elim (get_elem? workers i) [
  | none ↦ true
  | some w ↦ idle_expired config now w || is_full config release_id w
]

-- What the loop over a bucket found: the stale workers in order, the first that serves, the rest.
pub record Taken : Type 0 where
  pub stale : List ℕ
  pub candidate : Option ℕ
  pub rest : List ℕ

-- `while bucket: worker = bucket.pop() …`, over the bucket from its end.
unfoldable pub take_idle : (ℕ → Bool) → List ℕ → Taken
take_idle stale [] = record { stale = []; candidate = none; rest = [] }
take_idle stale (i ∷ bucket) =
    let more = take_idle stale bucket in
    if stale i
    then record more { stale = i ∷ more.stale }
    else record { stale = []; candidate = some i; rest = bucket }

-- `if not bucket: self._idle.pop(key, None)`, else the bucket is what is left of it.
abbrev pub put_bucket : PoolKey → List ℕ → Dict PoolKey (List ℕ) → Dict PoolKey (List ℕ)
put_bucket key [] idle = pop key idle
put_bucket key (i ∷ bucket) idle = put key (i ∷ bucket) idle

-- `remaining <= renew_threshold`, in milliseconds
unfoldable pub needs_renewal : PoolConfig → SecurityPolicy → ℕ → Worker → Bool
needs_renewal config policy now w = elim w.sandbox_expires_monotonic [
  | none ↦ false
  | some expires ↦
      leb expires
        (now + max (config.renew_before_seconds * 1000) (policy.max_timeout_ms + 120 * 1000))
]

abbrev pub add_release : String → Worker → Worker
add_release release_id w = record w { installed_release_ids = release_id ∷ w.installed_release_ids }

module _ {S : Type 0} (b : Backend S) where
  unfoldable pub renew_answer : ℕ → Result (Option ℕ) × S → Pool S → Result (Unit {0}) × Pool S
  renew_answer i (ok expires, backend) p = (
    ok tt,
    record p {
      workers = modify i (λ w. record w { sandbox_expires_monotonic = expires }) p.workers;
      backend = backend;
    },
  )
  renew_answer i (err e, backend) p = (err e, record p { backend = backend })

  unfoldable pub ensure_sandbox_ttl :
      ℕ → ℕ → Worker → SecurityPolicy → Pool S → Result (Unit {0}) × Pool S
  unfolding renew_answer
  ensure_sandbox_ttl now i w policy p =
      if needs_renewal p.config policy now w
      then renew_answer i (b.renew w p.config.orphan_ttl_seconds p.backend) p
      else (ok tt, p)

  unfoldable pub install_answer :
      ℕ → String → Result (Unit {0}) × S → Pool S → Result (Unit {0}) × Pool S
  install_answer i release_id (ok _, backend) p =
      (ok tt, record p { workers = modify i (add_release release_id) p.workers; backend = backend })
  install_answer i release_id (err e, backend) p = (err e, record p { backend = backend })

  unfoldable pub ensure_release : ℕ → OperatorRelease → Pool S → Result (Unit {0}) × Pool S
  unfolding install_answer
  ensure_release i release p = elim (get_elem? p.workers i) [
    | none ↦ (ok tt, p)
    | some w ↦
        if contains release.id w.installed_release_ids
        then (ok tt, p)
        else install_answer i release.id (b.install w release p.backend) p
  ]

  -- `except Exception: self.invalidate(candidate); raise`: what `invalidate` raises takes the place.
  unfoldable pub give_up : ℕ → Error → Result (Unit {0}) × Pool S → Result ℕ × Pool S
  give_up i e (ok _, p) = (err e, p)
  give_up i e (err e', p) = (err e', p)

  unfoldable pub used_at : ℕ → ℕ → Pool S → Pool S
  used_at now i p = record p {
    workers = modify i (λ w. record w { last_used_monotonic = now }) p.workers;
  }

  -- The candidate is made ready.
  unfoldable pub ready : ℕ → ℕ → Result (Unit {0}) × Pool S → Result ℕ × Pool S
  unfolding give_up used_at
  ready now i (ok _, p) = (ok i, used_at now i p)
  ready now i (err e, p) = give_up i e (invalidate b i p)

  unfoldable pub then_release :
      ℕ → OperatorRelease → Result (Unit {0}) × Pool S → Result (Unit {0}) × Pool S
  then_release i release (ok _, p) = ensure_release i release p
  then_release i release (err e, p) = (err e, p)

  unfoldable pub reuse : ℕ → ℕ → OperatorRelease → SecurityPolicy → Pool S → Result ℕ × Pool S
  unfolding ready then_release
  reuse now i release policy p = elim (get_elem? p.workers i) [
    | none ↦ (ok i, p)
    | some w ↦ ready now i (then_release i release (ensure_sandbox_ttl now i w policy p))
  ]

  -- A sandbox whose release is not installed is destroyed, and what that raises is dropped.
  unfoldable pub made :
      String → OperatorRelease → Worker → Result (Unit {0}) × S → Pool S → Result ℕ × Pool S
  made tenant_id release w (ok _, backend) p = (
    ok (length p.workers),
    record p {
      workers = p.workers ++ add_release release.id w ∷ [];
      quota = leave_creation p.quota;
      backend = backend;
    },
  )
  made tenant_id release w (err e, backend) p =
      let (_, backend') = b.destroy w backend in
      (
        err e,
        record p { quota = release_live tenant_id (leave_creation p.quota); backend = backend' },
      )

  unfoldable pub created :
      String → OperatorRelease → Result NewSandbox × S → Pool S → Result ℕ × Pool S
  unfolding made
  created tenant_id release (ok sandbox, backend) p =
      let w = new_worker tenant_id release sandbox in
      made tenant_id release w (b.install w release backend) p
  created tenant_id release (err e, backend) p = (
    err e,
    record p { quota = release_live tenant_id (leave_creation p.quota); backend = backend },
  )

  -- A new sandbox, once its place in the quota is reserved.
  unfoldable pub create : String → OperatorRelease → SecurityPolicy → Pool S → Result ℕ × Pool S
  unfolding created
  create tenant_id release policy p = elim (reserve_live tenant_id p.quota) [
    | err e ↦ (err e, p)
    | ok reserved ↦
        created tenant_id release
          (b.create tenant_id release policy p.config.orphan_ttl_seconds p.backend)
          (record p { quota = enter_creation reserved })
  ]

  unfoldable pub chosen :
      ℕ
      → Option ℕ
      → String
      → OperatorRelease
      → SecurityPolicy
      → Result (Unit {0}) × Pool S
      → Result ℕ × Pool S
  chosen now candidate tenant_id release policy (err e, p) = (err e, p)
  chosen now (some i) tenant_id release policy (ok _, p) = reuse now i release policy p
  chosen now none tenant_id release policy (ok _, p) = create tenant_id release policy p

  unfoldable pub acquire :
      ℕ → String → OperatorRelease → SecurityPolicy → Pool S → Result ℕ × Pool S
  unfolding chosen
  acquire now tenant_id release policy p =
      let key = pool_key tenant_id release in
      let taken =
        take_idle (is_stale p.config now release.id p.workers)
          (reverse (get_default key [] p.idle)) in
      chosen now taken.candidate tenant_id release policy
        (destroy_all b taken.stale (record p { idle = put_bucket key (reverse taken.rest) p.idle }))
