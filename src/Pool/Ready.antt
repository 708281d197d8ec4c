-- ===== src/Pool/Ready.antt =====
-- A worker that is taken out of its bucket and made ready to run a release.
use managed_python_runner_en.Prelude.{
  ℕ, String, ◌≡◌, ◌≢◌, refl, subst, ◌∙◌, Bool, true, false, Option, some, List, [], ◌∷◌, arith,
  eq_self, inl, inr, Bool-cases, get_elem?, All, OnSome, Dict, get, get_default,
}
use managed_python_runner_en.Errors.{Result, Error, ok, err}
use managed_python_runner_en.Model.{Worker, OperatorRelease, SecurityPolicy}
use managed_python_runner_en.Backend.{Backend}
use managed_python_runner_en.Pool.Cells.{PoolKey, key_eq, worker_key, Pool, modify}
use managed_python_runner_en.Pool.Destroy.{invalidate}
use managed_python_runner_en.Pool.Acquire.{
  contains, take_idle, needs_renewal, add_release, ensure_sandbox_ttl, ensure_release, reuse, ready,
  then_release, renew_answer, install_answer, give_up,
}
use managed_python_runner_en.Pool.Evolution.{get_elem?-modify_self, Matches}

-- The idle workers stand in the bucket of their own tenant, runtime and profile.
abbrev pub IdleMatches : List Worker → Dict PoolKey (List ℕ) → Type 0
IdleMatches ws [] = Unit {0}
IdleMatches ws ((key, bucket) ∷ idle) = All (Matches ws key) bucket × IdleMatches ws idle

pub get_default-Matches :
    (ws : List Worker) (key : PoolKey) (idle : Dict PoolKey (List ℕ))
    → IdleMatches ws idle
    → All (Matches ws key) (get_default key [] idle)
unfolding get
get_default-Matches ws key [] v = tt
get_default-Matches ws key ((j, bucket) ∷ idle) v = elim (Bool-cases (key_eq.beq j key)) [
  | inl e ↦
      let same : j ≡ key = (key_eq.beq_iff j key).0 e in
      rw (e, All) (subst (λ k. All (Matches ws k) bucket) same v.0)
  | inr e ↦ rw (e, All) (get_default-Matches ws key idle v.1)
]

-- A worker of the pool key that can be used.
abbrev pub Usable : List Worker → PoolKey → ℕ → Type 0
Usable ws key i =
    (w : Worker) × (get_elem? ws i ≡ some w)
    × (worker_key w ≡ key)
    × (w.healthy ≡ true)
    × (w.destroyed ≡ false)

-- It has the release installed too.
abbrev pub Serves : List Worker → PoolKey → String → ℕ → Type 0
Serves ws key release_id i =
    (w : Worker) × (get_elem? ws i ≡ some w)
    × (worker_key w ≡ key)
    × (w.healthy ≡ true)
    × (w.destroyed ≡ false)
    × (contains release_id w.installed_release_ids ≡ true)

pub take_idle-All :
    (P : ℕ → Type 0) (stale : ℕ → Bool) (bucket : List ℕ)
    → All P bucket
    → All P (take_idle stale bucket).stale
      × OnSome P (take_idle stale bucket).candidate
      × All P (take_idle stale bucket).rest
unfolding take_idle
take_idle-All P stale [] h = (tt, tt, tt)
take_idle-All P stale (i ∷ bucket) h = elim (Bool-cases (stale i)) [
  | inl e ↦ let (a, c, r) = take_idle-All P stale bucket h.1 in rw (e, take_idle) ((h.0, a), c, r)
  | inr e ↦ rw (e, take_idle) (tt, h.0, h.1)
]

pub take_idle-stale :
    (stale : ℕ → Bool) (bucket : List ℕ)
    → All (λ i. stale i ≡ true) (take_idle stale bucket).stale
      × OnSome (λ i. stale i ≡ false) (take_idle stale bucket).candidate
unfolding take_idle
take_idle-stale stale [] = (tt, tt)
take_idle-stale stale (i ∷ bucket) = elim (Bool-cases (stale i)) [
  | inl e ↦ let (a, c) = take_idle-stale stale bucket in rw (e, take_idle) ((e, a), c)
  | inr e ↦ rw (e, take_idle) (tt, e)
]

pub contains_head : (x : String) (xs : List String) → contains x (x ∷ xs) ≡ true
contains_head x xs = rw (eq_self x)

pub ne_of_test : (f : ℕ → Bool) (j i : ℕ) → f j ≡ true → f i ≡ false → j ≢ i
ne_of_test f j i hit miss e = let hit' : f i ≡ true = rw (← e) hit in cc

module _ {S : Type 0} (b : Backend S) (key : PoolKey) where
  modify-Usable :
      (i : ℕ) (f : Worker → Worker) (ws : List Worker)
      → ((w : Worker)
          → (worker_key (f w) ≡ worker_key w)
            × ((f w).healthy ≡ w.healthy)
            × ((f w).destroyed ≡ w.destroyed))
      → Usable ws key i
      → Usable (modify i f ws) key i
  modify-Usable i f ws same u =
      let (w, at, k, healthy, alive) = u in
      let (k', h', d') = same w in
      (f w, get_elem?-modify_self i f ws w at, k' ∙ k, h' ∙ healthy, d' ∙ alive)

  renew_answer-Usable :
      (i : ℕ) (answer : Result (Option ℕ) × S) (p : Pool S)
      → Usable p.workers key i
      → Usable (renew_answer b i answer p).1.workers key i
  unfolding renew_answer
  renew_answer-Usable i (ok expires, backend) p u =
      modify-Usable i (λ w. record w { sandbox_expires_monotonic = expires }) p.workers
        (λ w. (refl, refl, refl)) u
  renew_answer-Usable i (err e, backend) p u = u

  ensure_sandbox_ttl-Usable :
      (now i : ℕ) (w : Worker) (policy : SecurityPolicy) (p : Pool S)
      → Usable p.workers key i
      → Usable (ensure_sandbox_ttl b now i w policy p).1.workers key i
  unfolding ensure_sandbox_ttl
  ensure_sandbox_ttl-Usable now i w policy p u =
      elim (Bool-cases (needs_renewal p.config policy now w)) [
        | inr e ↦ rw (e, ensure_sandbox_ttl) u
        | inl e ↦
            rw (e, ensure_sandbox_ttl)
              (renew_answer-Usable i (b.renew w p.config.orphan_ttl_seconds p.backend) p u)
      ]

  install_answer-Serves :
      (i : ℕ) (release_id : String) (answer : Result (Unit {0}) × S) (p : Pool S)
      → Usable p.workers key i
      → (install_answer b i release_id answer p).0 ≡ ok tt
      → Serves (install_answer b i release_id answer p).1.workers key release_id i
  unfolding install_answer
  install_answer-Serves i release_id (ok u, backend) p usable h =
      let (w, at, k, healthy, alive) = usable in
      (
        add_release release_id w,
        get_elem?-modify_self i (add_release release_id) p.workers w at,
        k,
        healthy,
        alive,
        contains_head release_id w.installed_release_ids,
      )
  install_answer-Serves i release_id (err e, backend) p usable h = absurd (ground arith)

  ensure_release-Serves :
      (i : ℕ) (release : OperatorRelease) (p : Pool S)
      → Usable p.workers key i
      → (ensure_release b i release p).0 ≡ ok tt
      → Serves (ensure_release b i release p).1.workers key release.id i
  unfolding ensure_release
  ensure_release-Serves i release p usable =
      let (w, at, k, healthy, alive) = usable in
      elim (Bool-cases (contains release.id w.installed_release_ids)) [
        | inl e ↦ rw (at, ensure_release) (rw e (λ _. (w, at, k, healthy, alive, e)))
        | inr e ↦
            rw (at, ensure_release)
              (rw e (install_answer-Serves i release.id (b.install w release p.backend) p usable))
      ]

  then_release-Serves :
      (i : ℕ) (release : OperatorRelease) (answer : Result (Unit {0}) × Pool S)
      → Usable answer.1.workers key i
      → (then_release b i release answer).0 ≡ ok tt
      → Serves (then_release b i release answer).1.workers key release.id i
  unfolding then_release
  then_release-Serves i release (ok u, p) usable h = ensure_release-Serves i release p usable h
  then_release-Serves i release (err e, p) usable h = absurd (ground arith)

  give_up-ne-ok :
      (i : ℕ) (e : Error) (answer : Result (Unit {0}) × Pool S) (j : ℕ) (after : Pool S)
      → ¬ (give_up b i e answer ≡ (ok j, after))
  unfolding give_up
  give_up-ne-ok i e (ok u, p) j after h = ground arith
  give_up-ne-ok i e (err e', p) j after h = ground arith

  ready-Serves :
      (now i j : ℕ) (release_id : String) (answer : Result (Unit {0}) × Pool S) (after : Pool S)
      → (answer.0 ≡ ok tt → Serves answer.1.workers key release_id i)
      → ready b now i answer ≡ (ok j, after)
      → Serves after.workers key release_id j
  unfolding ready
  ready-Serves now i j release_id (ok u, p) after serves h =
      let (w, at, k, healthy, alive, installed) = serves refl in
      let used = λ (x : Worker). record x { last_used_monotonic = now } in
      let same : i ≡ j = ground arith in
      let written : after.workers ≡ modify i used p.workers = ground arith in
      rw (← same, written)
        (used w, get_elem?-modify_self i used p.workers w at, k, healthy, alive, installed)
  ready-Serves now i j release_id (err e, p) after serves h =
      absurd (give_up-ne-ok i e (invalidate b i p) j after h)

  pub reuse-Serves :
      (now i j : ℕ) (release : OperatorRelease) (policy : SecurityPolicy) (p after : Pool S)
      → Usable p.workers key i
      → reuse b now i release policy p ≡ (ok j, after)
      → Serves after.workers key release.id j
  unfolding reuse
  reuse-Serves now i j release policy p after usable =
      let (w, at, _, _, _) = usable in
      let renewed = ensure_sandbox_ttl b now i w policy p in
      rw (at, reuse)
        (ready-Serves now i j release.id (then_release b i release renewed) after (
          then_release-Serves i release renewed
            (ensure_sandbox_ttl-Usable now i w policy p usable)))
