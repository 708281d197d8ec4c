-- ===== src/State/Codec.antt =====
-- `_epoch_ms`, `_result_to_dict`, `_result_from_dict` and `_outcome_class` of
-- runner_engine/state.py.
use managed_python_runner_en.Prelude.{
  ℕ, ◌/◌, String, Bool, Option, none, some, [], ◌==◌, if◌then◌else◌,
}
use managed_python_runner_en.Errors.{Result, err, ok, exception, ◌>>=◌}
use managed_python_runner_en.Model.{RunResult}
use managed_python_runner_en.Base64.{b64encode, b64decode}
use managed_python_runner_en.State.Rows.{
  OutcomeClass, success, retryable_failure, user_failure, ResultDict,
}

-- int(value.timestamp() * 1000), with exact arithmetic
unfoldable pub epoch_ms : ℕ → ℕ
epoch_ms value = value / 1000

unfoldable pub result_to_dict : RunResult → ResultDict
result_to_dict result = record {
  status = some result.status;
  relationship = some result.relationship;
  content_b64 = some (b64encode result.content);
  attributes = some result.attributes;
  retryable = some result.retryable;
  error_code = some result.error_code;
  error_message = some result.error_message;
  worker_id = some result.worker_id;
  duration_ms = some result.duration_ms;
}

-- raw.get(key, default)
abbrev pub get_or {ℓ} : {A : Type ℓ} → Option A → A → A
get_or none default = default
get_or (some a) default = a

-- raw[key]
abbrev pub item {ℓ} : {A : Type ℓ} → Option A → String → Result A
item none key = err (exception key)
item (some a) key = ok a

unfoldable pub result_from_dict : ResultDict → Result RunResult
result_from_dict raw = do
  status ← item raw.status "status"
  content ← b64decode (get_or raw.content_b64 [])
  ok (record {
    status = status;
    relationship = get_or raw.relationship "success";
    content = content;
    attributes = get_or raw.attributes [];
    retryable = get_or raw.retryable Bool.false;
    error_code = get_or raw.error_code "";
    error_message = get_or raw.error_message "";
    worker_id = get_or raw.worker_id "";
    duration_ms = get_or raw.duration_ms 0;
  })

unfoldable pub outcome_class : RunResult → OutcomeClass
outcome_class result =
    if result.status == "SUCCEEDED"
    then success
    else if result.retryable
    then retryable_failure
    else user_failure
