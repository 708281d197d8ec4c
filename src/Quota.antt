-- ===== src/Quota.antt =====
-- runner_engine/quota.py: `Quota`, the limits on sandboxes that are being created and that live.
-- A method runs under the object's lock, so it is one step. A thread that finds no free creation
-- slot waits: `enter_creation` is a step for a state where `can_create` holds.
pub mod Bounds
use managed_python_runner_en.Prelude.{
  ℕ, ◌+◌, ◌-◌, ◌≤◌, String, Bool, true, false, List, [], ltb, leb, eqb, min, if◌then◌else◌, Dict,
  string_eq, put, pop, get_default,
}
use managed_python_runner_en.Errors.{
  Result, ok, err, exception, quota, raise, raise_if, ◌>>=◌, ◌>>◌,
}

pub record Quota : Type 0 where
  pub max_creating : ℕ
  pub max_live : ℕ
  pub max_live_per_tenant : ℕ
  pub creating : ℕ
  pub live : ℕ
  pub tenant_live : Dict String ℕ

unfoldable pub make_quota : ℕ → ℕ → ℕ → Result Quota
make_quota max_creating max_live max_live_per_tenant =
    if leb (min (min max_creating max_live) max_live_per_tenant) 0
    then err (exception "quota values must be positive")
    else ok (record {
      max_creating = max_creating;
      max_live = max_live;
      max_live_per_tenant = max_live_per_tenant;
      creating = 0;
      live = 0;
      tenant_live = [];
    })

abbrev pub can_create : Quota → Bool
can_create q = ltb q.creating q.max_creating

-- The two ends of `creation_slot`.
abbrev pub enter_creation : Quota → Quota
enter_creation q = record q { creating = q.creating + 1 }

abbrev pub leave_creation : Quota → Quota
leave_creation q = record q { creating = q.creating - 1 }

abbrev pub tenant_count : String → Quota → ℕ
tenant_count tenant_id q = get_default tenant_id 0 q.tenant_live

unfoldable pub reserve_live : String → Quota → Result Quota
reserve_live tenant_id q = do
  raise_if (leb q.max_live q.live) quota "GLOBAL_SANDBOX_QUOTA" "global live-sandbox quota reached"
      true
  raise_if (leb q.max_live_per_tenant (tenant_count tenant_id q)) quota "TENANT_SANDBOX_QUOTA"
      "tenant live-sandbox quota reached" true
  ok (record q {
    live = q.live + 1;
    tenant_live = put tenant_id (tenant_count tenant_id q + 1) q.tenant_live;
  })

unfoldable pub release_live : String → Quota → Quota
release_live tenant_id q = if leb (tenant_count tenant_id q) 0 then q else record q {
  live = q.live - 1;
  tenant_live =
      if eqb (tenant_count tenant_id q) 1
      then pop tenant_id q.tenant_live
      else put tenant_id (tenant_count tenant_id q - 1) q.tenant_live;
}
