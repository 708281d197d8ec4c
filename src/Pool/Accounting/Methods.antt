-- ===== src/Pool/Accounting/Methods.antt =====
-- `acquire`, `release`, `invalidate` and `reap` keep the accounting, whatever they answer and whatever
-- the backend raises.
use mathlib.Core.List.{reverse}
use managed_python_runner_en.Prelude.{
  ℕ, ◌+◌, String, ◌≡◌, refl, false, not, ◌||◌, List, [], ◌∷◌, ◌++◌, arith, inl, inr, Bool-cases,
  Option-cases, get_elem?, length, rowcount, string_eq, get_default,
}
use managed_python_runner_en.Errors.{Result, ok, err, Result-cases}
use managed_python_runner_en.Model.{Worker, OperatorRelease, SecurityPolicy}
use managed_python_runner_en.Quota.{reserve_live, enter_creation, leave_creation}
use managed_python_runner_en.Backend.{Backend, NewSandbox, new_worker}
use managed_python_runner_en.Pool.Cells.{Pool, key_eq, pool_key, modify}
use managed_python_runner_en.Pool.Destroy.{destroy_all, mark_used, invalidate, release, give_back}
use managed_python_runner_en.Pool.Acquire.{
  create, created, made, add_release, acquire, is_stale, take_idle, put_bucket,
}
use managed_python_runner_en.Pool.Reap.{reap, counted, expired_at, stale_idle, kept_idle}
use managed_python_runner_en.Pool.Recording.{
  Trace, sandboxes, recorded, SameTrace, renew-SameTrace, install-SameTrace,
}
use managed_python_runner_en.Pool.Evolution.{destroy_all_keeps, All-unit}
use managed_python_runner_en.Pool.Rules.{chosen_keeps, invalidate_keeps}
use managed_python_runner_en.Pool.Accounting.{
  CountsOneMore, is_alive, is_alive_of, is_dead_of, IsAccounted, touch-IsAccounted,
  talk-IsAccounted, destroy-IsAccounted, reserve_live-Counts, release_live-Counts,
  rowcount-append_one,
}

length-append_one : (ws : List Worker) (w : Worker) → length (ws ++ w ∷ []) ≡ length ws + 1
length-append_one [] w = refl
length-append_one (x ∷ ws) w = omega (arith, length-append_one ws w)

-- A place in the quota is reserved, and no worker stands for it yet, nor for so many sandboxes.
record IsReserved {S : Type 0} (tenant_id : String) (extra : ℕ) (p : Pool (Trace S)) : Type 0 where
  counts : CountsOneMore tenant_id p.quota p.workers
  ended :
      (id : String) → rowcount (is_dead_of id) p.backend.ended ≡ rowcount (is_dead_of id) p.workers
  made : p.backend.made ≡ length p.workers + rowcount is_alive p.backend.ended + extra

module _ {S : Type 0} (b : Backend S) where
  made-IsAccounted :
      (release : OperatorRelease) (w : Worker) (answer : Result (Unit {0}) × Trace S)
      (p : Pool (Trace S))
      → w.destroyed ≡ false
      → IsReserved w.tenant_id 1 (record p { backend = answer.1 })
      → IsAccounted (made (recorded b) w.tenant_id release w answer p).1
  unfolding made rowcount
  made-IsAccounted release w (ok u, backend) p live v =
      let w' = add_release release.id w in
      record {
        counts = (
          ground (arith, v.counts.0, rowcount-append_one is_alive p.workers w'),
          λ t. ground (arith, v.counts.1 t, rowcount-append_one (is_alive_of t) p.workers w'),
        );
        ended = λ id. ground (arith, v.ended id, rowcount-append_one (is_dead_of id) p.workers w');
        made = omega (arith, v.made, length-append_one p.workers w');
      }
  made-IsAccounted release w (err e, backend) p live v = record {
    counts = release_live-Counts w.tenant_id (leave_creation p.quota) p.workers v.counts;
    ended = λ id. ground (arith, v.ended id);
    made = ground (arith, v.made);
  }

  created-IsAccounted :
      (tenant_id : String) (release : OperatorRelease) (answer : Result NewSandbox × Trace S)
      (p : Pool (Trace S))
      → IsReserved tenant_id (sandboxes answer.0) (record p { backend = answer.1 })
      → IsAccounted (created (recorded b) tenant_id release answer p).1
  unfolding created
  created-IsAccounted tenant_id release (ok sandbox, backend) p v =
      let w = new_worker tenant_id release sandbox in
      made-IsAccounted release w ((recorded b).install w release backend) p refl
        (record { counts = v.counts; ended = v.ended; made = v.made })
  created-IsAccounted tenant_id release (err e, backend) p v = record {
    counts = release_live-Counts tenant_id (leave_creation p.quota) p.workers v.counts;
    ended = v.ended;
    made = omega (arith, v.made);
  }

  create-IsAccounted :
      (tenant_id : String) (release : OperatorRelease) (policy : SecurityPolicy)
      (p : Pool (Trace S))
      → IsAccounted p
      → IsAccounted (create (recorded b) tenant_id release policy p).1
  unfolding create
  create-IsAccounted tenant_id release policy p v =
      elim (Result-cases (reserve_live tenant_id p.quota)) [
        | inr (e, h) ↦ rw (h, create) v
        | inl (reserved, h) ↦
            rw (h, create)
              (created-IsAccounted tenant_id release
                ((recorded b).create tenant_id release policy p.config.orphan_ttl_seconds p.backend)
                (record p { quota = enter_creation reserved })
                (record {
                  counts = reserve_live-Counts tenant_id p.quota reserved p.workers v.counts h;
                  ended = v.ended;
                  made = omega (arith, v.made);
                }))
      ]

  destroy_all-IsAccounted :
      (stale : List ℕ) (p : Pool (Trace S))
      → IsAccounted p
      → IsAccounted (destroy_all (recorded b) stale p).1
  destroy_all-IsAccounted stale p v =
      destroy_all_keeps (recorded b) (λ q. IsAccounted q) (λ i. Unit {0})
        (λ i _ q. destroy-IsAccounted b i q) stale (All-unit stale) p v

  -- acquire keeps the pool's accounting, whether it returns or raises.
  pub acquire-IsAccounted :
      (now : ℕ) (tenant_id : String) (release : OperatorRelease) (policy : SecurityPolicy)
      (p : Pool (Trace S))
      → IsAccounted p
      → IsAccounted (acquire (recorded b) now tenant_id release policy p).1
  unfolding acquire
  acquire-IsAccounted now tenant_id release policy p v =
      let key = pool_key tenant_id release in
      let taken =
        take_idle (is_stale p.config now release.id p.workers)
          (reverse (get_default key [] p.idle)) in
      let opened : Pool (Trace S) = record p {
        idle = put_bucket key (reverse taken.rest) p.idle;
      } in
      chosen_keeps (recorded b) SameTrace (renew-SameTrace b) (install-SameTrace b)
        (λ q. IsAccounted q) touch-IsAccounted talk-IsAccounted (λ i q. destroy-IsAccounted b i q)
        (λ t r y q. create-IsAccounted t r y q) now taken.candidate tenant_id release policy
        (destroy_all (recorded b) taken.stale opened)
        (destroy_all-IsAccounted taken.stale opened
          (record { counts = v.counts; ended = v.ended; made = v.made }))

  -- `invalidate` keeps the accounting, also where the backend raises.
  pub invalidate-IsAccounted :
      (i : ℕ) (p : Pool (Trace S)) → IsAccounted p → IsAccounted (invalidate (recorded b) i p).1
  invalidate-IsAccounted i p v =
      invalidate_keeps (recorded b) SameTrace (renew-SameTrace b) (install-SameTrace b)
        (λ q. IsAccounted q) touch-IsAccounted talk-IsAccounted (λ i q. destroy-IsAccounted b i q) i
        p v

  give_back-IsAccounted :
      (i : ℕ) (w : Worker) (policy : SecurityPolicy) (p : Pool (Trace S))
      → IsAccounted p
      → IsAccounted (give_back (recorded b) i w policy p).1
  give_back-IsAccounted i w policy p v =
      elim (Bool-cases (w.destroyed || (not w.healthy || not policy.reuse_sandbox))) [
        | inl e ↦ rw e (destroy-IsAccounted b i p v)
        | inr e ↦ rw e (record { counts = v.counts; ended = v.ended; made = v.made })
      ]

  -- release keeps the pool's accounting, whether it parks the worker or destroys it.
  pub release-IsAccounted :
      (now i : ℕ) (policy : SecurityPolicy) (p : Pool (Trace S))
      → IsAccounted p
      → IsAccounted (release (recorded b) now i policy p).1
  unfolding release
  release-IsAccounted now i policy p v =
      let used : Pool (Trace S) = record p { workers = modify i (mark_used now) p.workers } in
      let counted_for = touch-IsAccounted i (mark_used now) p (λ w. (refl, refl, refl)) v in
      elim (Option-cases (get_elem? used.workers i)) [
        | inl e ↦ rw (e, release) counted_for
        | inr (w, e) ↦ rw (e, release) (give_back-IsAccounted i w policy used counted_for)
      ]

  counted-IsAccounted :
      (n : ℕ) (answer : Result (Unit {0}) × Pool (Trace S))
      → IsAccounted answer.1
      → IsAccounted (counted (recorded b) n answer).1
  unfolding counted
  counted-IsAccounted n (ok u, p) v = v
  counted-IsAccounted n (err e, p) v = v

  -- reap keeps the pool's accounting, whether it returns or raises.
  pub reap-IsAccounted :
      (now : ℕ) (p : Pool (Trace S)) → IsAccounted p → IsAccounted (reap (recorded b) now p).1
  unfolding reap
  reap-IsAccounted now p v =
      let expired = expired_at p.config now p.workers in
      let stale = stale_idle expired p.idle in
      let opened : Pool (Trace S) = record p { idle = kept_idle expired p.idle } in
      counted-IsAccounted (length stale) (destroy_all (recorded b) stale opened) (
        destroy_all-IsAccounted stale opened
          (record { counts = v.counts; ended = v.ended; made = v.made }))
