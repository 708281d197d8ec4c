-- ===== src/Pool/Isolation.antt =====
-- Whose sandbox `acquire` hands out.
pub mod Idle
use native.Mathlib.Decide.{ℕ_discrete}
use mathlib.Core.List.{reverse}
use managed_python_runner_en.Prelude.{
  ℕ, ◌<◌, String, ◌≡◌, ◌≢◌, refl, sym, subst, ◌∙◌, ap, Bool, true, false, ◌&&◌, Option, none, some,
  List, [], ◌∷◌, ◌++◌, ◌==◌, arith, eq_self, inl, inr, Bool-cases, Option-cases, get_elem?, length,
  All, All-reverse, OnSome, Dict, get, get_default, if◌then◌else◌,
}
use managed_python_runner_en.Errors.{Result, Error, ok, err, Result-cases}
use managed_python_runner_en.Model.{Worker, OperatorRelease, SecurityPolicy}
use managed_python_runner_en.Quota.{reserve_live, enter_creation}
use managed_python_runner_en.Backend.{Backend, NewSandbox, new_worker}
use managed_python_runner_en.Pool.Cells.{
  PoolConfig, PoolKey, key_eq, pool_key, worker_key, Pool, modify,
}
use managed_python_runner_en.Pool.Destroy.{destroy, destroy_all, invalidate}
use managed_python_runner_en.Pool.Acquire.{
  contains, idle_expired, is_stale, is_full, take_idle, Taken, put_bucket, needs_renewal,
  add_release, ensure_sandbox_ttl, ensure_release, reuse, create, created, made, acquire, chosen,
  ready, then_release, renew_answer, install_answer, give_up, used_at,
}
use managed_python_runner_en.Pool.Evolution.{
  get_elem?-modify_self, get_elem?-append_new, Matches, destroy_all_keeps, destroy_other,
}
use managed_python_runner_en.Pool.Ready.{
  IdleMatches, get_default-Matches, Usable, Serves, take_idle-All, take_idle-stale, contains_head,
  ne_of_test, reuse-Serves,
}

module _ {S : Type 0} (b : Backend S) (tenant_id : String) (release : OperatorRelease) where
  made-Serves :
      (sandbox : NewSandbox) (answer : Result (Unit {0}) × S) (j : ℕ) (p after : Pool S)
      → made b tenant_id release (new_worker tenant_id release sandbox) answer p ≡ (ok j, after)
      → Serves after.workers (pool_key tenant_id release) release.id j
  unfolding made
  made-Serves sandbox (ok u, backend) j p after h =
      let w = add_release release.id (new_worker tenant_id release sandbox) in
      let same : length p.workers ≡ j = ground arith in
      let written : after.workers ≡ p.workers ++ w ∷ [] = ground arith in
      rw (← same, written)
        (w, get_elem?-append_new p.workers w, refl, refl, refl, contains_head release.id [])
  made-Serves sandbox (err e, backend) j p after h = absurd (ground arith)

  created-Serves :
      (answer : Result NewSandbox × S) (j : ℕ) (p after : Pool S)
      → created b tenant_id release answer p ≡ (ok j, after)
      → Serves after.workers (pool_key tenant_id release) release.id j
  unfolding created
  created-Serves (ok sandbox, backend) j p after h =
      made-Serves sandbox (b.install (new_worker tenant_id release sandbox) release backend) j p
        after h
  created-Serves (err e, backend) j p after h = absurd (ground arith)

  create-Serves :
      (policy : SecurityPolicy) (j : ℕ) (p after : Pool S)
      → create b tenant_id release policy p ≡ (ok j, after)
      → Serves after.workers (pool_key tenant_id release) release.id j
  unfolding create
  create-Serves policy j p after = elim (Result-cases (reserve_live tenant_id p.quota)) [
    | inl (reserved, e) ↦
        rw (e, create)
          (created-Serves (b.create tenant_id release policy p.config.orphan_ttl_seconds p.backend)
            j (record p { quota = enter_creation reserved }) after)
    | inr (x, e) ↦ rw (e, create) (λ h. absurd (ground arith))
  ]

  -- A worker that is not stale is usable, and outlives the stale ones.
  survivor-Usable :
      (now : ℕ) (p q : Pool S) (taken : Taken)
      → p.workers ≡ q.workers
      → All (λ i. is_stale p.config now release.id p.workers i ≡ true) taken.stale
      → (candidate : Option ℕ) → OnSome (Matches p.workers (pool_key tenant_id release)) candidate
      → OnSome (λ i. is_stale p.config now release.id p.workers i ≡ false) candidate
      → OnSome
          (Usable (destroy_all b taken.stale q).1.workers (pool_key tenant_id release))
          candidate
  unfolding idle_expired
  survivor-Usable now p q taken same stale none m fresh = tt
  survivor-Usable now p q taken same stale (some i) m fresh =
      let (w, at, k) = m in
      let kept : get_elem? (destroy_all b taken.stale q).1.workers i ≡ some w =
        destroy_all_keeps b (λ r. get_elem? r.workers i ≡ some w)
          (λ j. is_stale p.config now release.id p.workers j ≡ true)
          (λ j old r here.
            destroy_other b j i r
              (ne_of_test (is_stale p.config now release.id p.workers) j i old fresh)
            ∙ here)
          taken.stale stale q (rw (← same) at) in
      (w, kept, k, ground arith, ground arith)

  chosen-Serves :
      (now j : ℕ) (policy : SecurityPolicy) (candidate : Option ℕ)
      (answer : Result (Unit {0}) × Pool S) (after : Pool S)
      → OnSome (Usable answer.1.workers (pool_key tenant_id release)) candidate
      → chosen b now candidate tenant_id release policy answer ≡ (ok j, after)
      → Serves after.workers (pool_key tenant_id release) release.id j
  unfolding chosen
  chosen-Serves now j policy none (ok u, p) after usable h = create-Serves policy j p after h
  chosen-Serves now j policy (some i) (ok u, p) after usable h =
      reuse-Serves b (pool_key tenant_id release) now i j release policy p after usable h
  chosen-Serves now j policy none (err e, p) after usable h = absurd (ground arith)
  chosen-Serves now j policy (some i) (err e, p) after usable h = absurd (ground arith)

  -- Where the idle workers stand in the buckets of their own keys, a worker that acquire returns
  -- is of the asked tenant, runtime and profile, is healthy and not destroyed, and has the release
  -- installed.
  pub acquire-Serves :
      (now j : ℕ) (policy : SecurityPolicy) (p after : Pool S)
      → IdleMatches p.workers p.idle
      → acquire b now tenant_id release policy p ≡ (ok j, after)
      → Serves after.workers (pool_key tenant_id release) release.id j
  unfolding acquire
  acquire-Serves now j policy p after v h =
      let key = pool_key tenant_id release in
      let stale = is_stale p.config now release.id p.workers in
      let bucket = reverse (get_default key [] p.idle) in
      let taken = take_idle stale bucket in
      let q : Pool S = record p { idle = put_bucket key (reverse taken.rest) p.idle } in
      let (_, matches, _) =
        take_idle-All (Matches p.workers key) stale bucket
          (All-reverse (Matches p.workers key) _ (get_default-Matches p.workers key p.idle v)) in
      let (old, fresh) = take_idle-stale stale bucket in
      chosen-Serves now j policy taken.candidate (destroy_all b taken.stale q) after
        (survivor-Usable now p q taken refl old taken.candidate matches fresh) h
