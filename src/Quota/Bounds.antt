-- ===== src/Quota/Bounds.antt =====
-- The counts of `Quota` against its limits.
use managed_python_runner_en.Prelude.{
  ℕ, ◌+◌, ◌-◌, ◌≤◌, ◌<◌, String, ◌≡◌, refl, none, [], ◌∷◌, arith, eq_iff, Dict, string_eq, get, put,
  pop, get_default, get-put, get-pop,
}
use managed_python_runner_en.Errors.{ok}
use managed_python_runner_en.Quota.{Quota, make_quota, tenant_count, reserve_live, release_live}

-- The live sandboxes of all tenants.
abbrev pub total : Dict String ℕ → ℕ
total [] = 0
total ((j, n) ∷ d) = n + total d

-- Keys are there once, and stand for at least one sandbox.
abbrev pub IsCount : Dict String ℕ → Type 0
IsCount [] = Unit {0}
IsCount ((j, n) ∷ d) = (get j d ≡ none) × (0 < n) × IsCount d

pub total-put :
    (k : String) (n : ℕ) (d : Dict String ℕ)
    → IsCount d
    → total (put k n d) + get_default k 0 d ≡ total d + n
unfolding get put
total-put k n [] h = omega arith
total-put k n ((j, m) ∷ d) h = ground (arith, total-put k n d h.2, eq_iff j k)

pop-absent : (k : String) (d : Dict String ℕ) → get k d ≡ none → pop k d ≡ d
unfolding get pop
pop-absent k [] h = refl
pop-absent k ((j, m) ∷ d) h = ground (arith, pop-absent k d)

pub total-pop :
    (k : String) (d : Dict String ℕ) → IsCount d → total (pop k d) + get_default k 0 d ≡ total d
unfolding get pop
total-pop k [] h = omega arith
total-pop k ((j, m) ∷ d) h = ground (arith, total-pop k d h.2, eq_iff j k, pop-absent k d)

put-IsCount : (k : String) (n : ℕ) (d : Dict String ℕ) → 0 < n → IsCount d → IsCount (put k n d)
unfolding get put
put-IsCount k n [] pos h = (refl, pos, tt)
put-IsCount k n ((j, m) ∷ d) pos h =
    ground (arith, put-IsCount k n d pos h.2, eq_iff j k, eq_iff k j, get-put k j n d)

pop-IsCount : (k : String) (d : Dict String ℕ) → IsCount d → IsCount (pop k d)
unfolding get pop
pop-IsCount k [] h = tt
pop-IsCount k ((j, m) ∷ d) h = ground (arith, pop-IsCount k d h.2, get-pop k j d)

-- The total is the sum over the tenants, and no limit is passed.
pub record IsWithin (q : Quota) : Type 0 where
  pub counted : IsCount q.tenant_live
  pub summed : q.live ≡ total q.tenant_live
  pub global : q.live ≤ q.max_live
  pub tenant : (tenant_id : String) → tenant_count tenant_id q ≤ q.max_live_per_tenant

-- A quota that is made starts within its limits.
pub make_quota-IsWithin :
    (creating live per_tenant : ℕ) (q : Quota)
    → make_quota creating live per_tenant ≡ ok q
    → IsWithin q
unfolding make_quota get
make_quota-IsWithin creating live per_tenant q h = record {
  counted = let e : q.tenant_live ≡ [] = ground arith in rw e tt;
  summed = ground arith;
  global = ground arith;
  tenant = λ t. ground arith;
}

reserved : String → Quota → Quota
reserved te q = record q {
  live = q.live + 1;
  tenant_live = put te (tenant_count te q + 1) q.tenant_live;
}

reserve_live-ok :
    (te : String) (q after : Quota)
    → reserve_live te q ≡ ok after
    → (q.live < q.max_live) × (tenant_count te q < q.max_live_per_tenant) × (after ≡ reserved te q)
unfolding reserve_live reserved
reserve_live-ok te q after h = (ground arith, ground arith, ground arith)

-- A reservation that is granted keeps the counts in step with their sum and within the global and
-- the tenant's limit.
pub reserve_live-IsWithin :
    (tenant_id : String) (q after : Quota)
    → IsWithin q
    → reserve_live tenant_id q ≡ ok after
    → IsWithin after
unfolding reserved
reserve_live-IsWithin te q after v h =
    let (room, tenant_room, e) = reserve_live-ok te q after h in
    rw e (record {
      counted = put-IsCount te (tenant_count te q + 1) q.tenant_live (omega arith) v.counted;
      summed =
          omega (arith, v.summed, total-put te (tenant_count te q + 1) q.tenant_live v.counted);
      global = omega arith;
      tenant = λ t. ground (arith, get-put te t (tenant_count te q + 1) q.tenant_live, v.tenant t);
    })

-- A release keeps the counts in step with their sum and within both limits.
pub release_live-IsWithin :
    (tenant_id : String) (q : Quota) → IsWithin q → IsWithin (release_live tenant_id q)
unfolding release_live
release_live-IsWithin te q v =
    let n = tenant_count te q in
    record {
      counted = ground (
        arith,
        v.counted,
        pop-IsCount te q.tenant_live v.counted,
        put-IsCount te (n - 1) q.tenant_live,
      );
      summed = ground (
        arith,
        v.summed,
        total-pop te q.tenant_live v.counted,
        total-put te (n - 1) q.tenant_live v.counted,
      );
      global = ground (arith, v.global);
      tenant = λ t. ground (
        arith,
        get-put te t (n - 1) q.tenant_live,
        get-pop te t q.tenant_live,
        v.tenant t,
        eq_iff te t,
      );
    }
