-- ===== src/Pool/Recording.antt =====
-- A sandbox backend (runner_engine/sandbox/backend.py) with a record of the sandboxes that its
-- calls of `create` made and of the workers that its calls of `destroy` were given.
use managed_python_runner_en.Prelude.{ℕ, ◌+◌, ◌≡◌, refl, List, ◌∷◌}
use managed_python_runner_en.Errors.{Result, ok, err}
use managed_python_runner_en.Model.{OperatorRelease, Worker}
use managed_python_runner_en.Backend.{Backend, NewSandbox}

pub record Trace (S : Type 0) : Type 0 where
  pub inner : S
  pub made : ℕ
  -- The newest is the first.
  pub ended : List Worker

abbrev pub sandboxes : Result NewSandbox → ℕ
sandboxes (ok sandbox) = 1
sandboxes (err e) = 0

abbrev pub inside : {S A : Type 0} → Trace S → A × S → A × Trace S
inside t answer = (answer.0, record t { inner = answer.1 })

-- The backend, which answers and raises as before.
abbrev pub recorded : {S : Type 0} → Backend S → Backend (Trace S)
recorded b = record {
  create = λ tenant_id release policy ttl t.
      let answer = b.create tenant_id release policy ttl t.inner in
      (answer.0, record t { inner = answer.1; made = t.made + sandboxes answer.0 });
  renew = λ w ttl t. inside t (b.renew w ttl t.inner);
  install = λ w release t. inside t (b.install w release t.inner);
  run = λ w release request timeout_ms t. inside t (b.run w release request timeout_ms t.inner);
  destroy = λ w t.
      let answer = b.destroy w t.inner in
      (answer.0, record t { inner = answer.1; ended = w ∷ t.ended });
  cleanup_managed = λ t. inside t (b.cleanup_managed t.inner);
}

-- No sandbox was made or destroyed in between.
abbrev pub SameTrace : {S : Type 0} → Trace S → Trace S → Type 0
SameTrace t t' = (t'.made ≡ t.made) × (t'.ended ≡ t.ended)

module _ {S : Type 0} (b : Backend S) where
  pub renew-SameTrace :
      (w : Worker) (ttl : ℕ) (t : Trace S) → SameTrace t ((recorded b).renew w ttl t).1
  renew-SameTrace w ttl t = (refl, refl)

  pub install-SameTrace :
      (w : Worker) (release : OperatorRelease) (t : Trace S)
      → SameTrace t ((recorded b).install w release t).1
  install-SameTrace w release t = (refl, refl)
