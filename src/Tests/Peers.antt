-- ===== src/Tests/Peers.antt =====
-- Examples of the gateway: a peer that may use the project of the lease.
use managed_python_runner_en.Prelude.{
  ℕ, ◌≡◌, ◌≢◌, ap, true, [], ◌∷◌, arith, get, put, pop, select, update, delete, rowcount, string_eq,
}
use managed_python_runner_en.Quota.{reserve_live}
use managed_python_runner_en.State.Codec.{epoch_ms}
use managed_python_runner_en.State.Leases.{require_lease, delete_lease}
use managed_python_runner_en.State.Claims.{begin_run, finish_run}
use managed_python_runner_en.Pool.Destroy.{destroy_all, invalidate, destroy}
use managed_python_runner_en.Pool.Cells.{modify}
use managed_python_runner_en.Pool.Acquire.{acquire, take_idle, chosen, create, created, made}
use managed_python_runner_en.Service.Attributes.{
  filter_attributes, filter_allowed, validate_attributes, attribute_bytes, request_fingerprint,
}
use managed_python_runner_en.Service.Cells.{Service}
use managed_python_runner_en.Service.Invoke.{
  admit, bounded_timeout, safe_output, persisted, completed, ran, acquired, execute, claimed,
  admitted_run, invoke,
}
use managed_python_runner_en.Service.Requests.{cancel, cancelled}
use managed_python_runner_en.Gateway.Access.{AccessControl, allow, peer_identity}
use managed_python_runner_en.Gateway.Handlers.{
  Auth, authorize_lease, handle_invoke, handle_cancel, handle_release_lease,
}
use managed_python_runner_en.Gateway.Guard.{
  MayUse, handle_invoke-MayUse, handle_cancel-MayUse, handle_release_lease-MayUse,
}
use managed_python_runner_en.Tests.Data.{
  at, calm_backend, hello_settings, hello_request, hello_times, hello_service, leased_db,
}

abbrev nifi_auth : Auth
nifi_auth = ("x509_common_name", "nifi" ∷ []) ∷ []

abbrev nifi_access : AccessControl
nifi_access = ("nifi", ("acme", "*" ∷ []) ∷ []) ∷ []

released_changed :
    (handle_release_lease nifi_access nifi_auth (at 2000) "acme" "lease-1" hello_service).1
    ≢ hello_service
unfolding handle_release_lease authorize_lease peer_identity allow get require_lease select epoch_ms
    delete_lease delete
released_changed e =
    let h : rowcount (λ x. true) [] ≡ rowcount (λ x. true) leased_db.leases =
      ap (λ s. rowcount (λ x. true) s.db.leases) e in
    absurd (unfold rowcount in ground arith)

handle_release_lease_example : MayUse nifi_access nifi_auth (at 2000) "acme" "lease-1" leased_db
handle_release_lease_example =
    handle_release_lease-MayUse nifi_access nifi_auth (at 2000) "acme" "lease-1" hello_service
      released_changed

invoke_changed :
    (handle_invoke calm_backend nifi_access nifi_auth hello_settings
      (at 1000)
      (hello_times 1000)
      "run-1"
      hello_request
      hello_service).1
    ≢ hello_service
unfolding handle_invoke authorize_lease peer_identity allow invoke admit require_lease select get
    put epoch_ms filter_attributes filter_allowed validate_attributes attribute_bytes
    bounded_timeout request_fingerprint admitted_run begin_run claimed execute acquired acquire
    take_idle destroy_all chosen create reserve_live created made ran completed safe_output
    persisted finish_run rowcount update
invoke_changed e =
    let h : ◌≡◌ {A = ℕ} 1 0 = ap (λ s. rowcount (λ x. true) s.db.runs) e in absurd (omega arith)

handle_invoke_example : MayUse nifi_access nifi_auth (at 1000) "acme" "lease-1" leased_db
handle_invoke_example =
    handle_invoke-MayUse nifi_access nifi_auth (at 1000) calm_backend hello_settings
      (hello_times 1000) "run-1" hello_request hello_service invoke_changed

abbrev own_service : Service ℕ
own_service = record hello_service {
  active =
      (
        "call-1",
        record { tenant_id = "acme"; lease_id = "lease-1"; release_id = "hello-1"; worker = 0 },
      )
      ∷ [];
}

cancel_changed :
    (handle_cancel calm_backend nifi_access nifi_auth
      (at 1000)
      (at 1000)
      "acme"
      "lease-1"
      "call-1"
      own_service).1
    ≢ own_service
unfolding handle_cancel authorize_lease peer_identity allow require_lease select get epoch_ms cancel
    cancelled pop invalidate destroy rowcount modify
cancel_changed e =
    let h : ◌≡◌ {A = ℕ} 0 1 = ap (λ s. rowcount (λ x. true) s.active) e in absurd (omega arith)

handle_cancel_example : MayUse nifi_access nifi_auth (at 1000) "acme" "lease-1" leased_db
handle_cancel_example =
    handle_cancel-MayUse nifi_access nifi_auth (at 1000) calm_backend (at 1000) "acme" "lease-1"
      "call-1" own_service cancel_changed
