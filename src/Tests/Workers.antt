-- ===== src/Tests/Workers.antt =====
-- Examples of the pool: one sandbox is made, given back and taken again.
use managed_python_runner_en.Prelude.{pop, ℕ, ◌≡◌, refl, [], rowcount, get, put, string_eq}
use managed_python_runner_en.Errors.{ok}
use managed_python_runner_en.Quota.{reserve_live}
use managed_python_runner_en.Pool.Cells.{modify, Pool, pool_key}
use managed_python_runner_en.Pool.Destroy.{release}
use managed_python_runner_en.Pool.Acquire.{
  reuse, ready, then_release, ensure_sandbox_ttl, ensure_release, needs_renewal, idle_expired,
  install_answer, renew_answer, used_at, acquire, take_idle, chosen, create, created, made,
}
use managed_python_runner_en.Pool.Destroy.{destroy_all}
use managed_python_runner_en.Pool.Isolation.{acquire-Serves}
use managed_python_runner_en.Pool.Ready.{Serves}
use managed_python_runner_en.Pool.Isolation.Idle.{IsFiled, acquire-IsFiled, release-IsFiled}
use managed_python_runner_en.Pool.Accounting.{IsAccounted}
use managed_python_runner_en.Pool.Recording.{Trace}
use managed_python_runner_en.Tests.Data.{
  calm_backend, empty_pool, hello_release, small_policy, small_quota,
}

abbrev pub recorded_pool : Pool (Trace ℕ)
recorded_pool = record {
  config = empty_pool.config;
  quota = small_quota;
  workers = [];
  idle = [];
  backend = record { inner = 0; made = 0; ended = [] };
}

pub recorded_pool-IsAccounted : IsAccounted recorded_pool
unfolding rowcount get
recorded_pool-IsAccounted = record { counts = (refl, λ t. refl); ended = λ id. refl; made = refl }

-- The pool after the first `acquire`, and after the worker is given back.
abbrev taken_pool : Pool ℕ
taken_pool = (acquire calm_backend 5 "acme" hello_release small_policy empty_pool).1

abbrev parked_pool : Pool ℕ
parked_pool = (release calm_backend 9 0 small_policy taken_pool).1

taken_pool-IsFiled : IsFiled taken_pool
taken_pool-IsFiled = acquire-IsFiled calm_backend 5 "acme" hello_release small_policy empty_pool tt

parked_pool-IsFiled : IsFiled parked_pool
parked_pool-IsFiled = release-IsFiled calm_backend 9 0 small_policy taken_pool taken_pool-IsFiled

abbrev taken_again : Pool ℕ
taken_again = (acquire calm_backend 20 "acme" hello_release small_policy parked_pool).1

reused : acquire calm_backend 20 "acme" hello_release small_policy parked_pool ≡ (ok 0, taken_again)
unfolding acquire take_idle chosen create created made destroy_all release get put reserve_live
    modify reuse ready then_release ensure_sandbox_ttl ensure_release needs_renewal idle_expired
    install_answer renew_answer used_at pop
reused = refl

acquire-Serves_example : Serves taken_again.workers (pool_key "acme" hello_release) "hello-1" 0
acquire-Serves_example =
    acquire-Serves calm_backend "acme" hello_release 20 0 small_policy parked_pool taken_again
      parked_pool-IsFiled reused
