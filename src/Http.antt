-- ===== src/Http.antt =====
-- What a route of FastAPI ends with: a body, an `HTTPException`, or an exception that it lets through
-- (a 500).
use managed_python_runner_en.Prelude.{ℕ, String, Bool, true, false}
use managed_python_runner_en.Errors.{
  Error, raised_error, runner_error, exception, value_error, key_error, publish_error,
  contract_compilation_error,
}

pub data HttpReply {ℓ} (A : Type ℓ) : Type ℓ where
  body : A → HttpReply A
  http_exception : ℕ → String → HttpReply A
  let_through : Error → HttpReply A

-- isinstance(exc, ValueError)
unfoldable pub is_value_error : Error → Bool
is_value_error (raised_error value_error message) = true
is_value_error (raised_error contract_compilation_error message) = true
is_value_error _ = false

-- isinstance(exc, KeyError)
unfoldable pub is_key_error : Error → Bool
is_key_error (raised_error key_error message) = true
is_key_error _ = false

-- isinstance(exc, PublishError)
unfoldable pub is_publish_error : Error → Bool
is_publish_error (raised_error publish_error message) = true
is_publish_error _ = false

-- str(exc)
abbrev pub error_text : Error → String
error_text (runner_error e) = e.message
error_text (raised_error c message) = message
error_text (exception message) = message
