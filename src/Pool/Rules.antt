-- ===== src/Pool/Rules.antt =====
-- What the steps of `WorkerPool.acquire` keep, `acquire` keeps: an assignment to a worker that leaves
-- its key, `destroyed` and identifier alone, a renewal's or an installation's change of the
-- backend's state, `_destroy`, and the making of a new sandbox.
use managed_python_runner_en.Prelude.{
  ℕ, String, ◌≡◌, refl, Option, none, some, inl, inr, Bool-cases, Option-cases, get_elem?,
}
use managed_python_runner_en.Errors.{Result, Error, ok, err}
use managed_python_runner_en.Model.{Worker, OperatorRelease, SecurityPolicy}
use managed_python_runner_en.Backend.{Backend}
use managed_python_runner_en.Pool.Cells.{worker_key, Pool, modify}
use managed_python_runner_en.Pool.Destroy.{destroy, invalidate, mark_unhealthy}
use managed_python_runner_en.Pool.Acquire.{
  add_release, needs_renewal, contains, ensure_sandbox_ttl, ensure_release, reuse, create, chosen,
  ready, then_release, renew_answer, install_answer, give_up,
}

-- The assignment leaves the worker's key, `destroyed` and identifier alone.
abbrev pub IsQuiet : (Worker → Worker) → Type 0
IsQuiet f =
    (w : Worker)
    → (worker_key (f w) ≡ worker_key w) × ((f w).destroyed ≡ w.destroyed) × ((f w).id ≡ w.id)

module _ {S : Type 0} (b : Backend S) (Near : S → S → Type 0)
    (renews : (w : Worker) (ttl : ℕ) (s : S) → Near s (b.renew w ttl s).1)
    (installs : (w : Worker) (release : OperatorRelease) (s : S) → Near s (b.install w release s).1)
    (P : Pool S → Type 0)
    (touch : (i : ℕ) (f : Worker → Worker) (q : Pool S)
      → IsQuiet f
      → P q
      → P (record q { workers = modify i f q.workers }))
    (talk : (q : Pool S) (backend : S)
      → Near q.backend backend
      → P q
      → P (record q { backend = backend }))
    (dies : (i : ℕ) (q : Pool S) → P q → P (destroy b i q).1) where
  pub invalidate_keeps : (i : ℕ) (p : Pool S) → P p → P (invalidate b i p).1
  unfolding invalidate
  invalidate_keeps i p v =
      dies i (record p { workers = modify i mark_unhealthy p.workers })
        (touch i mark_unhealthy p (λ w. (refl, refl, refl)) v)

  renew_answer_keeps :
      (i : ℕ) (answer : Result (Option ℕ) × S) (p : Pool S)
      → Near p.backend answer.1
      → P p
      → P (renew_answer b i answer p).1
  unfolding renew_answer
  renew_answer_keeps i (ok expires, backend) p near v =
      touch i (λ w. record w { sandbox_expires_monotonic = expires })
        (record p { backend = backend }) (λ w. (refl, refl, refl)) (talk p backend near v)
  renew_answer_keeps i (err e, backend) p near v = talk p backend near v

  ensure_sandbox_ttl_keeps :
      (now i : ℕ) (w : Worker) (policy : SecurityPolicy) (p : Pool S)
      → P p
      → P (ensure_sandbox_ttl b now i w policy p).1
  unfolding ensure_sandbox_ttl
  ensure_sandbox_ttl_keeps now i w policy p v =
      elim (Bool-cases (needs_renewal p.config policy now w)) [
        | inr e ↦ rw (e, ensure_sandbox_ttl) v
        | inl e ↦
            rw (e, ensure_sandbox_ttl)
              (renew_answer_keeps i (b.renew w p.config.orphan_ttl_seconds p.backend) p
                (renews w p.config.orphan_ttl_seconds p.backend) v)
      ]

  install_answer_keeps :
      (i : ℕ) (release_id : String) (answer : Result (Unit {0}) × S) (p : Pool S)
      → Near p.backend answer.1
      → P p
      → P (install_answer b i release_id answer p).1
  unfolding install_answer
  install_answer_keeps i release_id (ok u, backend) p near v =
      touch i (add_release release_id) (record p { backend = backend }) (λ w. (refl, refl, refl))
        (talk p backend near v)
  install_answer_keeps i release_id (err e, backend) p near v = talk p backend near v

  ensure_release_keeps :
      (i : ℕ) (release : OperatorRelease) (p : Pool S) → P p → P (ensure_release b i release p).1
  unfolding ensure_release
  ensure_release_keeps i release p v = elim (Option-cases (get_elem? p.workers i)) [
    | inl e ↦ rw (e, ensure_release) v
    | inr (w, e) ↦ elim (Bool-cases (contains release.id w.installed_release_ids)) [
      | inl e' ↦ rw (e, ensure_release) (rw e' v)
      | inr e' ↦
          rw (e, ensure_release)
            (rw e' (
              install_answer_keeps i release.id (b.install w release p.backend) p
                (installs w release p.backend) v))
    ]
  ]

  then_release_keeps :
      (i : ℕ) (release : OperatorRelease) (answer : Result (Unit {0}) × Pool S)
      → P answer.1
      → P (then_release b i release answer).1
  unfolding then_release
  then_release_keeps i release (ok u, p) v = ensure_release_keeps i release p v
  then_release_keeps i release (err e, p) v = v

  give_up_keeps :
      (i : ℕ) (e : Error) (answer : Result (Unit {0}) × Pool S)
      → P answer.1
      → P (give_up b i e answer).1
  unfolding give_up
  give_up_keeps i e (ok u, p) v = v
  give_up_keeps i e (err e', p) v = v

  ready_keeps :
      (now i : ℕ) (answer : Result (Unit {0}) × Pool S) → P answer.1 → P (ready b now i answer).1
  unfolding ready
  ready_keeps now i (ok u, p) v =
      touch i (λ w. record w { last_used_monotonic = now }) p (λ w. (refl, refl, refl)) v
  ready_keeps now i (err e, p) v = give_up_keeps i e (invalidate b i p) (invalidate_keeps i p v)

  reuse_keeps :
      (now i : ℕ) (release : OperatorRelease) (policy : SecurityPolicy) (p : Pool S)
      → P p
      → P (reuse b now i release policy p).1
  unfolding reuse
  reuse_keeps now i release policy p v = elim (Option-cases (get_elem? p.workers i)) [
    | inl e ↦ rw (e, reuse) v
    | inr (w, e) ↦
        let first = ensure_sandbox_ttl b now i w policy p in
        rw (e, reuse)
          (ready_keeps now i (then_release b i release first)
            (then_release_keeps i release first (ensure_sandbox_ttl_keeps now i w policy p v)))
  ]

  -- The part of `acquire` behind the destruction of the stale workers.
  pub chosen_keeps :
      ((tenant_id : String) (release : OperatorRelease) (policy : SecurityPolicy) (q : Pool S)
        → P q
        → P (create b tenant_id release policy q).1)
      → (now : ℕ) (candidate : Option ℕ) (tenant_id : String) (release : OperatorRelease)
        (policy : SecurityPolicy) (answer : Result (Unit {0}) × Pool S)
      → P answer.1
      → P (chosen b now candidate tenant_id release policy answer).1
  unfolding chosen
  chosen_keeps makes now none tenant_id release policy (ok u, p) v =
      makes tenant_id release policy p v
  chosen_keeps makes now (some i) tenant_id release policy (ok u, p) v =
      reuse_keeps now i release policy p v
  chosen_keeps makes now none tenant_id release policy (err e, p) v = v
  chosen_keeps makes now (some i) tenant_id release policy (err e, p) v = v
