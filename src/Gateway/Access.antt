-- ===== src/Gateway/Access.antt =====
-- `AccessControl.allow`, `_peer_identity` and `_abort_runner_error` of runner_engine/gateway.py.
use Prim.Native.String.{len, slice}
use managed_python_runner_en.Prelude.{
  ◌-◌, String, Bool, true, false, ◌&&◌, ◌||◌, Option, none, some, List, [], ◌∷◌, leb, ◌==◌,
  if◌then◌else◌, Dict, string_eq, get, get_default,
}
use managed_python_runner_en.Errors.{
  Result, ok, err, RunnerError, Error, runner_error, raised_error, exception, runner, raise,
}
use managed_python_runner_en.Pool.Acquire.{contains}
use managed_python_runner_en.Service.Attributes.{after}

-- identity → tenant → projects
abbrev pub AccessControl : Type 0
AccessControl = Dict String (Dict String (List String))

abbrev pub covers : Option String → List String → Bool
covers none projects = true
covers (some project_id) projects = contains "*" projects || contains project_id projects

unfoldable pub allow : AccessControl → String → String → Option String → Bool
allow access identity tenant_id project_id = elim (get tenant_id (get_default identity [] access)) [
  | none ↦ false
  | some projects ↦ covers project_id projects
]

-- The first value of the first name that has one.
abbrev pub first_of : List String → Result String → Result String
first_of [] rest = rest
first_of (value ∷ values) rest = ok value

unfoldable pub peer_identity : Dict String (List String) → Result String
peer_identity auth = first_of (get_default "x509_subject_alternative_name" [] auth) (
    first_of (get_default "x509_common_name" [] auth)
      (raise runner "UNAUTHENTICATED" "mTLS peer identity is missing" false))

pub data StatusCode : Type 0 where
  unauthenticated permission_denied not_found unavailable failed_precondition : StatusCode

abbrev ends_with : String → String → Bool
ends_with s t = leb (len t) (len s) && slice s (len s - len t) (len s) == t

unfoldable pub status_of : RunnerError → StatusCode
status_of e =
    if e.code == "UNAUTHENTICATED"
    then unauthenticated
    else if ends_with e.code "FORBIDDEN" || e.code == "CANCEL_FORBIDDEN"
    then permission_denied
    else if e.code == "RELEASE_NOT_FOUND" || e.code == "LEASE_UNKNOWN"
    then not_found
    else if e.retryable
    then unavailable
    else failed_precondition

-- How a handler ends: with a response, by `context.abort`, or by an exception that it lets through.
pub data Reply (A : Type 0) : Type 0 where
  replied : A → Reply A
  aborted : StatusCode → String → Reply A
  raised : Error → Reply A

unfoldable pub abort_with : {A : Type 0} → Error → Reply A
abort_with (runner_error e) = aborted (status_of e) (after e.code (after ":" e.message))
abort_with (raised_error c message) = raised (raised_error c message)
abort_with (exception message) = raised (exception message)

abbrev pub reply : {A : Type 0} → Result A → Reply A
unfolding abort_with
reply (ok a) = replied a
reply (err e) = abort_with e
