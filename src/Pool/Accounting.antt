-- ===== src/Pool/Accounting.antt =====
-- The quota's counts are the numbers of sandboxes that have not been destroyed, of all tenants and
-- of each, and the backend's calls answer to the pool's workers.
pub mod Methods
use managed_python_runner_en.Prelude.{
  ℕ, zero, suc, ◌+◌, ◌-◌, ◌≤◌, ◌<◌, String, ◌≡◌, ◌≢◌, refl, sym, ◌∙◌, ap, Bool, true, false, not,
  ◌&&◌, ◌||◌, Option, none, some, List, [], ◌∷◌, ◌++◌, arith, ◌==◌, eq_iff, eq_self, inl, inr,
  Bool-cases, Option-cases, get_elem?, length, rowcount, eqb, All, Dict, string_eq, get, put, pop,
  get-put, get-pop, get_default, if◌then◌else◌,
}
use managed_python_runner_en.Errors.{Result, Error, ok, err, Result-cases}
use managed_python_runner_en.Model.{Worker, OperatorRelease, SecurityPolicy}
use managed_python_runner_en.Quota.{
  Quota, tenant_count, reserve_live, release_live, enter_creation, leave_creation,
}
use managed_python_runner_en.Backend.{Backend, NewSandbox, new_worker}
use managed_python_runner_en.Pool.Cells.{worker_key, Pool, modify}
use managed_python_runner_en.Pool.Recording.{Trace, recorded, SameTrace}
use managed_python_runner_en.Pool.Destroy.{destroy, destroy_all, mark_destroyed, tear_down}
use managed_python_runner_en.Pool.Acquire.{create, created, made, add_release}
use managed_python_runner_en.Pool.Evolution.{destroy_all_keeps, All-unit}
use managed_python_runner_en.Pool.Rules.{IsQuiet}

abbrev pub is_alive : Worker → Bool
is_alive w = not w.destroyed

abbrev pub is_alive_of : String → Worker → Bool
is_alive_of tenant_id w = w.tenant_id == tenant_id && not w.destroyed

abbrev as_number : Bool → ℕ
as_number true = 1
as_number false = 0

-- An assignment to one worker changes a count by what it changes of that worker.
rowcount-modify :
    (p : Worker → Bool) (i : ℕ) (f : Worker → Worker) (ws : List Worker) (w : Worker)
    → get_elem? ws i ≡ some w
    → rowcount p (modify i f ws) + as_number (p w) ≡ rowcount p ws + as_number (p (f w))
unfolding rowcount modify
rowcount-modify p i f [] w h = absurd (ground arith)
rowcount-modify p zero f (x ∷ ws) w h = ground arith
rowcount-modify p (suc i) f (x ∷ ws) w h = omega (arith, rowcount-modify p i f ws w h)

rowcount-modify_same :
    (p : Worker → Bool) (i : ℕ) (f : Worker → Worker) (ws : List Worker)
    → ((w : Worker) → p (f w) ≡ p w)
    → rowcount p (modify i f ws) ≡ rowcount p ws
unfolding rowcount modify
rowcount-modify_same p i f [] h = refl
rowcount-modify_same p zero f (x ∷ ws) h = rw (h x)
rowcount-modify_same p (suc i) f (x ∷ ws) h = omega (arith, rowcount-modify_same p i f ws h)

length-modify :
    (i : ℕ) (f : Worker → Worker) (ws : List Worker) → length (modify i f ws) ≡ length ws
unfolding modify
length-modify i f [] = refl
length-modify zero f (x ∷ ws) = refl
length-modify (suc i) f (x ∷ ws) = omega (arith, length-modify i f ws)

pub rowcount-append_one :
    (p : Worker → Bool) (ws : List Worker) (w : Worker)
    → rowcount p (ws ++ w ∷ []) ≡ rowcount p ws + as_number (p w)
unfolding rowcount
rowcount-append_one p [] w = ground arith
rowcount-append_one p (x ∷ ws) w = omega (arith, rowcount-append_one p ws w)

-- The counts stand for the workers that are alive.
abbrev pub Counts : Quota → List Worker → Type 0
Counts q ws =
    (q.live ≡ rowcount is_alive ws)
    × ((tenant_id : String) → tenant_count tenant_id q ≡ rowcount (is_alive_of tenant_id) ws)

-- They stand for one more sandbox of the tenant, reserved or about to be given back.
abbrev pub CountsOneMore : String → Quota → List Worker → Type 0
CountsOneMore te q ws =
    (q.live ≡ rowcount is_alive ws + 1)
    × ((t : String) → tenant_count t q ≡ rowcount (is_alive_of t) ws + as_number (te == t))

pub release_live-Counts :
    (te : String) (q : Quota) (ws : List Worker)
    → CountsOneMore te q ws
    → Counts (release_live te q) ws
unfolding release_live
release_live-Counts te q ws h =
    let here = h.1 te in
    let itself = eq_self te in
    (
      ground (arith, here, itself),
      λ t. ground (
        arith,
        here,
        itself,
        h.1 t,
        eq_iff te t,
        get-put te t (tenant_count te q - 1) q.tenant_live,
        get-pop te t q.tenant_live,
      ),
    )

pub reserve_live-Counts :
    (te : String) (q reserved : Quota) (ws : List Worker)
    → Counts q ws
    → reserve_live te q ≡ ok reserved
    → CountsOneMore te reserved ws
unfolding reserve_live
reserve_live-Counts te q reserved ws c h = (
  ground (arith, c.0),
  λ t.
      ground
        (arith, c.1 t, c.1 te, eq_iff te t, get-put te t (tenant_count te q + 1) q.tenant_live),
)

-- The sandbox of that identifier, as a destroyed worker or as what the backend was given.
abbrev pub is_dead_of : String → Worker → Bool
is_dead_of id w = w.id == id && w.destroyed

-- The counts are right; the backend was told to destroy workers that are marked as destroyed as
-- often, for each identifier, as the pool has such workers; and each sandbox that was made is a
-- worker or was destroyed without becoming one.
pub record IsAccounted {S : Type 0} (p : Pool (Trace S)) : Type 0 where
  pub counts : Counts p.quota p.workers
  pub ended :
      (id : String) → rowcount (is_dead_of id) p.backend.ended ≡ rowcount (is_dead_of id) p.workers
  pub made : p.backend.made ≡ length p.workers + rowcount is_alive p.backend.ended

pub talk-IsAccounted :
    {S : Type 0}
    → (q : Pool (Trace S)) (backend : Trace S) → SameTrace q.backend backend
    → IsAccounted q
    → IsAccounted (record q { backend = backend })
talk-IsAccounted q backend (same_made, same_ended) v = record {
  counts = v.counts;
  ended = λ id. ap (λ ws. rowcount (is_dead_of id) ws) same_ended ∙ v.ended id;
  made = same_made ∙ (v.made ∙ ap (λ ws. length q.workers + rowcount is_alive ws) (sym same_ended));
}

pub touch-IsAccounted :
    {S : Type 0}
    → (i : ℕ) (f : Worker → Worker) (q : Pool (Trace S)) → IsQuiet f
    → IsAccounted q
    → IsAccounted (record q { workers = modify i f q.workers })
touch-IsAccounted i f q quiet v = record {
  counts = (
    v.counts.0 ∙ sym (rowcount-modify_same is_alive i f q.workers (λ w. ap not (quiet w).1)),
    λ t.
        v.counts.1 t
        ∙ sym (rowcount-modify_same (is_alive_of t) i f q.workers (λ w. ground (arith, quiet w))),
  );
  ended = λ id.
      v.ended id
      ∙ sym (rowcount-modify_same (is_dead_of id) i f q.workers (λ w. ground (arith, quiet w)));
  made = omega (arith, v.made, length-modify i f q.workers);
}

module _ {S : Type 0} (b : Backend S) where
  tear_down-IsAccounted :
      (i : ℕ) (w : Worker) (p : Pool (Trace S))
      → get_elem? p.workers i ≡ some w
      → w.destroyed ≡ false
      → IsAccounted p
      → IsAccounted (tear_down (recorded b) i w p).1
  unfolding rowcount
  tear_down-IsAccounted i w p at live v = record {
    counts = release_live-Counts w.tenant_id p.quota (modify i mark_destroyed p.workers) (
      ground (arith, v.counts.0, rowcount-modify is_alive i mark_destroyed p.workers w at),
      λ t.
          ground
            (arith, v.counts.1 t, rowcount-modify (is_alive_of t) i mark_destroyed p.workers w at),
    );
    ended = λ id.
        ground (arith, v.ended id, rowcount-modify (is_dead_of id) i mark_destroyed p.workers w at);
    made = omega (arith, v.made, length-modify i mark_destroyed p.workers);
  }

  pub destroy-IsAccounted :
      (i : ℕ) (p : Pool (Trace S)) → IsAccounted p → IsAccounted (destroy (recorded b) i p).1
  unfolding destroy
  destroy-IsAccounted i p v = elim (Option-cases (get_elem? p.workers i)) [
    | inl e ↦ rw (e, destroy) v
    | inr (w, e) ↦ elim (Bool-cases w.destroyed) [
      | inl dead ↦ rw (e, destroy) (rw dead v)
      | inr live ↦ rw (e, destroy) (rw live (tear_down-IsAccounted i w p e live v))
    ]
  ]
