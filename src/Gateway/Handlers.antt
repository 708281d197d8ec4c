-- ===== src/Gateway/Handlers.antt =====
-- The handlers of `serve` (runner_engine/gateway.py).
use managed_python_runner_en.Prelude.{String, Bool, some, List, eqb, if◌then◌else◌, Dict}
use managed_python_runner_en.Errors.{Result, ok, err}
use managed_python_runner_en.Model.{Lease, RunRequest, RunResult}
use managed_python_runner_en.Backend.{Backend}
use managed_python_runner_en.State.Rows.{Clocks, Tx}
use managed_python_runner_en.Service.Cells.{Service, Settings, Times}
use managed_python_runner_en.Service.Invoke.{invoke}
use managed_python_runner_en.Service.Requests.{
  acquire_lease, get_lease, renew_service_lease, release_lease, cancel,
}
use managed_python_runner_en.Gateway.Access.{
  AccessControl, allow, peer_identity, Reply, replied, aborted, raised, permission_denied,
  abort_with, reply,
}

-- The peer's names, as `context.auth_context()` gives them.
abbrev pub Auth : Type 0
Auth = Dict String (List String)

-- What a call of the service answers, and the service after it.
abbrev pub Handled : Type 0 → Type 0 → Type 0
Handled S A = Reply A × Service S

-- timeout_ms=request.timeout_ms or 30_000
abbrev pub with_default_timeout : RunRequest → RunRequest
with_default_timeout request = record request {
  timeout_ms = if eqb request.timeout_ms 0 then 30000 else request.timeout_ms;
}

module _ {S : Type 0} where
  abbrev pub handled : {A : Type 0} → Result A × Service S → Handled S A
  handled (answer, s) = (reply answer, s)

  -- A transaction of the service.
  abbrev pub committed : {A : Type 0} → Tx A → Service S → Handled S A
  committed (ok (a, db)) s = (replied a, record s { db = db })
  committed (err e) s = (abort_with e, s)

  -- `_authorize`, before the rest of a handler.
  unfoldable pub authorize :
      {A : Type 0} → AccessControl → Auth → String → String → Handled S A → Service S → Handled S A
  authorize access auth tenant_id project_id rest s = elim (peer_identity auth) [
    | err e ↦ (raised e, s)
    | ok identity ↦
        if allow access identity tenant_id (some project_id)
        then rest
        else (aborted permission_denied "identity is not allowed for tenant/project", s)
  ]

  -- `_authorize_lease`, before the rest of a handler.
  unfoldable pub authorize_lease :
      {A : Type 0}
      → AccessControl
      → Auth
      → Clocks
      → String
      → String
      → Handled S A
      → Service S
      → Handled S A
  authorize_lease access auth t tenant_id lease_id rest s = elim (peer_identity auth) [
    | err e ↦ (raised e, s)
    | ok identity ↦ elim (get_lease t tenant_id lease_id s.db) [
      | err e ↦ (abort_with e, s)
      | ok lease ↦
          if allow access identity tenant_id (some lease.project_id)
          then rest
          else (aborted permission_denied "identity is not allowed for lease project", s)
    ]
  ]

  unfoldable pub handle_acquire_lease :
      AccessControl
      → Auth
      → Settings
      → Clocks
      → String
      → String
      → String
      → String
      → String
      → Service S
      → Handled S Lease
  handle_acquire_lease access auth settings t id tenant_id project_id processor_id release_id s =
      authorize access auth tenant_id project_id
        (committed (acquire_lease settings t id tenant_id project_id processor_id release_id s.db)
          s)
        s

  unfoldable pub handle_renew_lease :
      AccessControl
      → Auth
      → Settings
      → Clocks
      → Clocks
      → Clocks
      → String
      → String
      → Service S
      → Handled S Lease
  handle_renew_lease access auth settings t checked renewed tenant_id lease_id s =
      authorize_lease access auth t tenant_id lease_id
        (committed (renew_service_lease settings checked renewed tenant_id lease_id s.db) s) s

  unfoldable pub handle_release_lease :
      AccessControl → Auth → Clocks → String → String → Service S → Handled S (Unit {0})
  handle_release_lease access auth t tenant_id lease_id s =
      authorize_lease access auth t tenant_id lease_id
        (committed (release_lease tenant_id lease_id s.db) s) s

  unfoldable pub handle_cancel :
      Backend S
      → AccessControl
      → Auth
      → Clocks
      → Clocks
      → String
      → String
      → String
      → Service S
      → Handled S Bool
  handle_cancel b access auth t checked tenant_id lease_id invocation_id s =
      authorize_lease access auth t tenant_id lease_id
        (handled (cancel b checked tenant_id lease_id invocation_id s)) s

  unfoldable pub handle_invoke :
      Backend S
      → AccessControl
      → Auth
      → Settings
      → Clocks
      → Times
      → String
      → RunRequest
      → Service S
      → Handled S RunResult
  handle_invoke b access auth settings t times run_id request s =
      authorize_lease access auth t request.tenant_id request.lease_id
        (handled (invoke b settings times run_id (with_default_timeout request) s)) s
