-- ===== src/Pool/Evolution.antt =====
-- How the workers' cells change: a worker keeps its tenant, runtime and profile, and stays
-- destroyed once it is.
use native.Mathlib.Decide.{ℕ_discrete}
use managed_python_runner_en.Prelude.{
  ℕ, zero, suc, ◌≡◌, ◌≢◌, refl, ◌∙◌, ap, true, some, List, [], ◌∷◌, ◌++◌, arith, inl, inr,
  Bool-cases, Option-cases, get_elem?, length, All,
}
use managed_python_runner_en.Errors.{Result-cases}
use managed_python_runner_en.Model.{Worker}
use managed_python_runner_en.Backend.{Backend}
use managed_python_runner_en.Pool.Cells.{PoolKey, worker_key, Pool, modify}
use managed_python_runner_en.Pool.Destroy.{
  mark_destroyed, mark_unhealthy, destroy, invalidate, destroy_all,
}

pub get_elem?-modify_self :
    (i : ℕ) (f : Worker → Worker) (ws : List Worker) (w : Worker)
    → get_elem? ws i ≡ some w
    → get_elem? (modify i f ws) i ≡ some (f w)
unfolding modify
get_elem?-modify_self i f [] w h = absurd (ground arith)
get_elem?-modify_self zero f (x ∷ ws) w h = ground arith
get_elem?-modify_self (suc i) f (x ∷ ws) w h = get_elem?-modify_self i f ws w h

pub get_elem?-modify_ne :
    (i j : ℕ) (f : Worker → Worker) (ws : List Worker)
    → i ≢ j
    → get_elem? (modify i f ws) j ≡ get_elem? ws j
unfolding modify
get_elem?-modify_ne i j f [] h = refl
get_elem?-modify_ne zero zero f (x ∷ ws) h = absurd (h refl)
get_elem?-modify_ne zero (suc j) f (x ∷ ws) h = refl
get_elem?-modify_ne (suc i) zero f (x ∷ ws) h = refl
get_elem?-modify_ne (suc i) (suc j) f (x ∷ ws) h = get_elem?-modify_ne i j f ws (λ e. h (ap suc e))

pub get_elem?-append_new :
    (ws : List Worker) (w : Worker) → get_elem? (ws ++ w ∷ []) (length ws) ≡ some w
get_elem?-append_new [] w = refl
get_elem?-append_new (x ∷ ws) w = get_elem?-append_new ws w

pub get_elem?-append_old :
    (i : ℕ) (ws more : List Worker) (w : Worker)
    → get_elem? ws i ≡ some w
    → get_elem? (ws ++ more) i ≡ some w
get_elem?-append_old i [] more w h = absurd (ground arith)
get_elem?-append_old zero (x ∷ ws) more w h = h
get_elem?-append_old (suc i) (x ∷ ws) more w h = get_elem?-append_old i ws more w h

-- The cell holds a worker of the pool key.
abbrev pub Matches : List Worker → PoolKey → ℕ → Type 0
Matches ws key i = (w : Worker) × (get_elem? ws i ≡ some w) × (worker_key w ≡ key)

-- Every worker keeps its key, and is not brought back to life.
abbrev pub Evolves : List Worker → List Worker → Type 0
Evolves ws ws' =
    (i : ℕ) (w : Worker)
    → get_elem? ws i ≡ some w
    → (w' : Worker) × (get_elem? ws' i ≡ some w')
      × (worker_key w' ≡ worker_key w)
      × (w.destroyed ≡ true → w'.destroyed ≡ true)

pub Evolves-refl : (ws : List Worker) → Evolves ws ws
Evolves-refl ws i w h = (w, h, refl, λ d. d)

pub Evolves-trans : (a b c : List Worker) → Evolves a b → Evolves b c → Evolves a c
Evolves-trans a b c f g i w h =
    let (w', h', k', d') = f i w h in
    let (w'', h'', k'', d'') = g i w' h' in (w'', h'', k'' ∙ k', λ d. d'' (d' d))

pub Evolves-append : (ws more : List Worker) → Evolves ws (ws ++ more)
Evolves-append ws more i w h = (w, get_elem?-append_old i ws more w h, refl, λ d. d)

pub Evolves-modify :
    (j : ℕ) (f : Worker → Worker) (ws : List Worker)
    → ((w : Worker) → worker_key (f w) ≡ worker_key w)
    → ((w : Worker) → w.destroyed ≡ true → (f w).destroyed ≡ true)
    → Evolves ws (modify j f ws)
Evolves-modify j f ws key dead i w h = elim (ℕ_discrete j i) [
  | yes e ↦ (f w, rw e (get_elem?-modify_self i f ws w h), key w, dead w)
  | no n ↦ (w, get_elem?-modify_ne j i f ws n ∙ h, refl, λ d. d)
]

pub Evolves-Matches :
    (ws ws' : List Worker) (key : PoolKey) (i : ℕ)
    → Evolves ws ws'
    → Matches ws key i
    → Matches ws' key i
Evolves-Matches ws ws' key i ev m =
    let (w, h, k) = m in let (w', h', k', _) = ev i w h in (w', h', k' ∙ k)

pub All-unit : (is : List ℕ) → All (λ i. Unit {0}) is
All-unit [] = tt
All-unit (i ∷ is) = (tt, All-unit is)

module _ {S : Type 0} (b : Backend S) where
  pub Evolves-destroy : (i : ℕ) (p : Pool S) → Evolves p.workers (destroy b i p).1.workers
  unfolding destroy
  Evolves-destroy i p = elim (Option-cases (get_elem? p.workers i)) [
    | inl e ↦ rw (e, destroy) (Evolves-refl p.workers)
    | inr (w, e) ↦ elim (Bool-cases w.destroyed) [
      | inl dead ↦ rw (e, destroy) (rw dead (Evolves-refl p.workers))
      | inr live ↦
          rw (e, destroy)
            (rw live (Evolves-modify i mark_destroyed p.workers (λ x. refl) (λ x d. refl)))
    ]
  ]

  pub Evolves-invalidate : (i : ℕ) (p : Pool S) → Evolves p.workers (invalidate b i p).1.workers
  unfolding invalidate
  Evolves-invalidate i p =
      Evolves-trans p.workers (modify i mark_unhealthy p.workers) _
        (Evolves-modify i mark_unhealthy p.workers (λ x. refl) (λ x d. d))
        (Evolves-destroy i (record p { workers = modify i mark_unhealthy p.workers }))

  -- What each `_destroy` of the loop keeps, the loop keeps.
  pub destroy_all_keeps {ℓ κ} :
      (P : Pool S → Type ℓ) (Q : ℕ → Type κ)
      → ((i : ℕ) → Q i → (q : Pool S) → P q → P (destroy b i q).1)
      → (stale : List ℕ) → All Q stale
      → (p : Pool S) → P p
      → P (destroy_all b stale p).1
  unfolding destroy_all
  destroy_all_keeps P Q keep [] h p v = v
  destroy_all_keeps P Q keep (i ∷ stale) h p v =
      let next = keep i h.0 p v in
      let rest = destroy_all_keeps P Q keep stale h.1 (destroy b i p).1 next in
      elim (Result-cases (destroy b i p).0) [
        | inl (u, e) ↦ rw (e, destroy_all) rest
        | inr (e', e) ↦ rw (e, destroy_all) next
      ]

  pub Evolves-destroy_all :
      (stale : List ℕ) (p : Pool S) → Evolves p.workers (destroy_all b stale p).1.workers
  Evolves-destroy_all stale p =
      destroy_all_keeps (λ q. Evolves p.workers q.workers) (λ i. Unit {0})
        (λ i _ q v. Evolves-trans p.workers q.workers _ v (Evolves-destroy i q)) stale
        (All-unit stale) p (Evolves-refl p.workers)

  -- `_destroy` writes no other cell.
  pub destroy_other :
      (i j : ℕ) (p : Pool S) → i ≢ j → get_elem? (destroy b i p).1.workers j ≡ get_elem? p.workers j
  unfolding destroy
  destroy_other i j p n = elim (Option-cases (get_elem? p.workers i)) [
    | inl e ↦ rw (e, destroy)
    | inr (w, e) ↦ elim (Bool-cases w.destroyed) [
      | inl dead ↦ rw (e, destroy) (rw dead)
      | inr live ↦ rw (e, destroy) (rw live (get_elem?-modify_ne i j mark_destroyed p.workers n))
    ]
  ]
