-- ===== src/Pool/Isolation/Idle.antt =====
-- Every method of `WorkerPool` leaves the idle workers in the bucket of their own key.
use mathlib.Core.List.{reverse}
use managed_python_runner_en.Prelude.{
  ℕ, String, ◌≡◌, refl, sym, subst, ◌∙◌, Bool, false, not, ◌||◌, some, List, [], ◌∷◌, ◌++◌, arith,
  inl, inr, Bool-cases, Option-cases, get_elem?, length, All, All-append, All-map, All-reverse,
  Dict, put, pop, get_default,
}
use managed_python_runner_en.Errors.{Result, ok, err, Result-cases}
use managed_python_runner_en.Model.{Worker, OperatorRelease, SecurityPolicy}
use managed_python_runner_en.Backend.{Backend, NewSandbox, new_worker}
use managed_python_runner_en.Quota.{reserve_live, enter_creation}
use managed_python_runner_en.Pool.Cells.{PoolKey, key_eq, pool_key, worker_key, Pool, modify}
use managed_python_runner_en.Pool.Destroy.{
  destroy, destroy_all, invalidate, release, give_back, mark_used,
}
use managed_python_runner_en.Pool.Acquire.{
  is_stale, take_idle, put_bucket, acquire, create, created, made, add_release,
}
use managed_python_runner_en.Pool.Rules.{IsQuiet, chosen_keeps, invalidate_keeps}
use managed_python_runner_en.Pool.Reap.{
  reap, keep, kept_idle, expired_at, counted, stale_idle, cons_bucket,
}
use managed_python_runner_en.Pool.Evolution.{
  Matches, Evolves, Evolves-append, Evolves-modify, Evolves-Matches, Evolves-destroy,
  destroy_all_keeps, All-unit,
}
use managed_python_runner_en.Pool.Ready.{IdleMatches, get_default-Matches, take_idle-All}

put-Matches :
    (ws : List Worker) (key : PoolKey) (bucket : List ℕ) (idle : Dict PoolKey (List ℕ))
    → All (Matches ws key) bucket
    → IdleMatches ws idle
    → IdleMatches ws (put key bucket idle)
unfolding put
put-Matches ws key bucket [] h v = (h, tt)
put-Matches ws key bucket ((j, old) ∷ idle) h v = elim (Bool-cases (key_eq.beq j key)) [
  | inl e ↦
      let same : j ≡ key = (key_eq.beq_iff j key).0 e in
      rw (e, IdleMatches) (subst (λ k. All (Matches ws k) bucket) (sym same) h, v.1)
  | inr e ↦ rw (e, IdleMatches) (v.0, put-Matches ws key bucket idle h v.1)
]

pop-Matches :
    (ws : List Worker) (key : PoolKey) (idle : Dict PoolKey (List ℕ))
    → IdleMatches ws idle
    → IdleMatches ws (pop key idle)
unfolding pop
pop-Matches ws key [] v = tt
pop-Matches ws key ((j, old) ∷ idle) v = elim (Bool-cases (key_eq.beq j key)) [
  | inl e ↦ rw (e, IdleMatches) (pop-Matches ws key idle v.1)
  | inr e ↦ rw (e, IdleMatches) (v.0, pop-Matches ws key idle v.1)
]

put_bucket-Matches :
    (ws : List Worker) (key : PoolKey) (bucket : List ℕ) (idle : Dict PoolKey (List ℕ))
    → All (Matches ws key) bucket
    → IdleMatches ws idle
    → IdleMatches ws (put_bucket key bucket idle)
put_bucket-Matches ws key [] idle h v = pop-Matches ws key idle v
put_bucket-Matches ws key (i ∷ bucket) idle h v = put-Matches ws key (i ∷ bucket) idle h v

-- The buckets hold what they held, and the workers keep their keys.
Evolves-IdleMatches :
    (ws ws' : List Worker) (idle : Dict PoolKey (List ℕ))
    → Evolves ws ws'
    → IdleMatches ws idle
    → IdleMatches ws' idle
Evolves-IdleMatches ws ws' [] ev v = tt
Evolves-IdleMatches ws ws' ((key, bucket) ∷ idle) ev v = (
  All-map (Matches ws key) (Matches ws' key) (λ i. Evolves-Matches ws ws' key i ev) bucket v.0,
  Evolves-IdleMatches ws ws' idle ev v.1,
)

keep-All :
    (P : ℕ → Type 0) (expired : ℕ → Bool) (wanted : Bool) (bucket : List ℕ)
    → All P bucket
    → All P (keep expired wanted bucket)
unfolding keep
keep-All P expired wanted [] h = tt
keep-All P expired wanted (i ∷ bucket) h = ground (arith, keep-All P expired wanted bucket h.1)

cons_bucket-Matches :
    (ws : List Worker) (key : PoolKey) (bucket : List ℕ) (idle : Dict PoolKey (List ℕ))
    → All (Matches ws key) bucket
    → IdleMatches ws idle
    → IdleMatches ws (cons_bucket key bucket idle)
cons_bucket-Matches ws key [] idle h v = v
cons_bucket-Matches ws key (i ∷ bucket) idle h v = (h, v)

kept_idle-Matches :
    (ws : List Worker) (expired : ℕ → Bool) (idle : Dict PoolKey (List ℕ))
    → IdleMatches ws idle
    → IdleMatches ws (kept_idle expired idle)
unfolding kept_idle
kept_idle-Matches ws expired [] v = tt
kept_idle-Matches ws expired ((key, bucket) ∷ idle) v =
    cons_bucket-Matches ws key (keep expired false bucket) (kept_idle expired idle)
      (keep-All (Matches ws key) expired false bucket v.0) (kept_idle-Matches ws expired idle v.1)

-- Each idle worker stands in the bucket of its own key.
abbrev pub IsFiled : {S : Type 0} → Pool S → Type 0
IsFiled p = IdleMatches p.workers p.idle

module _ {S : Type 0} (b : Backend S) where
  Evolves-IsFiled :
      (p q : Pool S) → Evolves p.workers q.workers → q.idle ≡ p.idle → IsFiled p → IsFiled q
  Evolves-IsFiled p q ev same v = rw same (Evolves-IdleMatches p.workers q.workers p.idle ev v)

  idle-destroy : (i : ℕ) (p : Pool S) → (destroy b i p).1.idle ≡ p.idle
  unfolding destroy
  idle-destroy i p = ground arith

  touch-IsFiled :
      (i : ℕ) (f : Worker → Worker) (q : Pool S)
      → IsQuiet f
      → IsFiled q
      → IsFiled (record q { workers = modify i f q.workers })
  touch-IsFiled i f q quiet v =
      Evolves-IdleMatches q.workers (modify i f q.workers) q.idle
        (Evolves-modify i f q.workers (λ w. (quiet w).0) (λ w d. (quiet w).1 ∙ d)) v

  destroy-IsFiled : (i : ℕ) (q : Pool S) → IsFiled q → IsFiled (destroy b i q).1
  destroy-IsFiled i q v =
      Evolves-IsFiled q (destroy b i q).1 (Evolves-destroy b i q) (idle-destroy i q) v

  made-IsFiled :
      (tenant_id : String) (release : OperatorRelease) (w : Worker) (answer : Result (Unit {0}) × S)
      (p : Pool S)
      → IsFiled p
      → IsFiled (made b tenant_id release w answer p).1
  unfolding made
  made-IsFiled tenant_id release w (ok u, backend) p v =
      Evolves-IdleMatches p.workers (p.workers ++ add_release release.id w ∷ []) p.idle
        (Evolves-append p.workers (add_release release.id w ∷ [])) v
  made-IsFiled tenant_id release w (err e, backend) p v = v

  created-IsFiled :
      (tenant_id : String) (release : OperatorRelease) (answer : Result NewSandbox × S) (p : Pool S)
      → IsFiled p
      → IsFiled (created b tenant_id release answer p).1
  unfolding created
  created-IsFiled tenant_id release (ok sandbox, backend) p v =
      let w = new_worker tenant_id release sandbox in
      made-IsFiled tenant_id release w (b.install w release backend) p v
  created-IsFiled tenant_id release (err e, backend) p v = v

  create-IsFiled :
      (tenant_id : String) (release : OperatorRelease) (policy : SecurityPolicy) (p : Pool S)
      → IsFiled p
      → IsFiled (create b tenant_id release policy p).1
  unfolding create
  create-IsFiled tenant_id release policy p v =
      elim (Result-cases (reserve_live tenant_id p.quota)) [
        | inl (reserved, e) ↦
            rw (e, create)
              (created-IsFiled tenant_id release
                (b.create tenant_id release policy p.config.orphan_ttl_seconds p.backend)
                (record p { quota = enter_creation reserved }) v)
        | inr (x, e) ↦ rw (e, create) v
      ]

  destroy_all-IsFiled :
      (stale : List ℕ) (p : Pool S) → IsFiled p → IsFiled (destroy_all b stale p).1
  destroy_all-IsFiled stale p v =
      destroy_all_keeps b IsFiled (λ i. Unit {0}) (λ i _ q w. destroy-IsFiled i q w) stale
        (All-unit stale) p v

  -- acquire leaves every idle worker in the bucket of its own tenant, runtime and profile, whether
  -- it returns or raises.
  pub acquire-IsFiled :
      (now : ℕ) (tenant_id : String) (release : OperatorRelease) (policy : SecurityPolicy)
      (p : Pool S)
      → IsFiled p
      → IsFiled (acquire b now tenant_id release policy p).1
  unfolding acquire
  acquire-IsFiled now tenant_id release policy p v =
      let key = pool_key tenant_id release in
      let bucket = reverse (get_default key [] p.idle) in
      let taken = take_idle (is_stale p.config now release.id p.workers) bucket in
      let q : Pool S = record p { idle = put_bucket key (reverse taken.rest) p.idle } in
      let swept = destroy_all b taken.stale q in
      let parts =
        take_idle-All (Matches p.workers key) (is_stale p.config now release.id p.workers) bucket
          (All-reverse (Matches p.workers key) _ (get_default-Matches p.workers key p.idle v)) in
      let start : IsFiled q =
        put_bucket-Matches p.workers key (reverse taken.rest) p.idle
          (All-reverse (Matches p.workers key) taken.rest parts.2) v in
      chosen_keeps b (λ _ _. Unit {0}) (λ _ _ _. tt) (λ _ _ _. tt) IsFiled touch-IsFiled
        (λ q _ _ w. w) destroy-IsFiled create-IsFiled now taken.candidate tenant_id release policy
        swept (destroy_all-IsFiled taken.stale q start)

  -- `invalidate` leaves the idle workers in the bucket of their own key.
  pub invalidate-IsFiled : (i : ℕ) (p : Pool S) → IsFiled p → IsFiled (invalidate b i p).1
  invalidate-IsFiled =
      invalidate_keeps b (λ _ _. Unit {0}) (λ _ _ _. tt) (λ _ _ _. tt) IsFiled touch-IsFiled
        (λ q _ _ w. w) destroy-IsFiled

  counted-same : (n : ℕ) (answer : Result (Unit {0}) × Pool S) → (counted b n answer).1 ≡ answer.1
  unfolding counted
  counted-same n (ok u, p) = refl
  counted-same n (err e, p) = refl

  -- reap leaves every idle worker in the bucket of its own tenant, runtime and profile, whether it
  -- returns or raises.
  pub reap-IsFiled : (now : ℕ) (p : Pool S) → IsFiled p → IsFiled (reap b now p).1
  unfolding reap
  reap-IsFiled now p v =
      let expired = expired_at p.config now p.workers in
      let stale = stale_idle expired p.idle in
      let q : Pool S = record p { idle = kept_idle expired p.idle } in
      let swept = destroy_all b stale q in
      rw (counted-same (length stale) swept)
        (destroy_all-IsFiled stale q (kept_idle-Matches p.workers expired p.idle v))

  abbrev used : ℕ → ℕ → Pool S → Pool S
  used now i p = record p { workers = modify i (mark_used now) p.workers }

  used-IsFiled : (now i : ℕ) (p : Pool S) → IsFiled p → IsFiled (used now i p)
  used-IsFiled now i p v = touch-IsFiled i (mark_used now) p (λ w. (refl, refl, refl)) v

  give_back-IsFiled :
      (i : ℕ) (w : Worker) (policy : SecurityPolicy) (p : Pool S)
      → get_elem? p.workers i ≡ some w
      → IsFiled p
      → IsFiled (give_back b i w policy p).1
  give_back-IsFiled i w policy p at v =
      elim (Bool-cases (w.destroyed || (not w.healthy || not policy.reuse_sandbox))) [
        | inl e ↦ rw e (destroy-IsFiled i p v)
        | inr e ↦ rw e (
            put-Matches p.workers (worker_key w) (get_default (worker_key w) [] p.idle ++ i ∷ [])
              p.idle
              (All-append (Matches p.workers (worker_key w)) _ (i ∷ [])
                (get_default-Matches p.workers (worker_key w) p.idle v) ((w, at, refl), tt))
              v)
      ]

  -- release leaves every idle worker in the bucket of its own tenant, runtime and profile, the
  -- worker that it parks too.
  pub release-IsFiled :
      (now i : ℕ) (policy : SecurityPolicy) (p : Pool S)
      → IsFiled p
      → IsFiled (release b now i policy p).1
  unfolding release
  release-IsFiled now i policy p v =
      elim (Option-cases (get_elem? (modify i (mark_used now) p.workers) i)) [
        | inl e ↦ rw (e, release) (used-IsFiled now i p v)
        | inr (w, e) ↦
            rw (e, release) (give_back-IsFiled i w policy (used now i p) e (used-IsFiled now i p v))
      ]
