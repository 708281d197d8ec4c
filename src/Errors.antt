-- ===== src/Errors.antt =====
-- runner_engine/errors.py, and results of code that may raise.
use managed_python_runner_en.Prelude.{String, ◌≡◌, refl, ◌⊎◌, inl, inr, Bool}

-- The subclasses of `RunnerError` differ in nothing but their name.
pub data ErrorClass : Type 0 where
  runner catalog lease quota sandbox : ErrorClass

pub record RunnerError : Type 0 where
  pub raised_as : ErrorClass
  pub code : String
  pub message : String
  pub retryable : Bool

-- The other classes that the program's own code raises. A `PublishError` is a RuntimeError, a
-- `ContractCompilationError` a ValueError.
pub data ExceptionClass : Type 0 where
  value_error key_error runtime_error publish_error contract_compilation_error : ExceptionClass

-- What Python code may raise: a `RunnerError`, one of those, or any other exception with its text.
pub data Error : Type 0 where
  runner_error : RunnerError → Error
  raised_error : ExceptionClass → String → Error
  exception : String → Error

pub data Result {ℓ} (A : Type ℓ) : Type ℓ where
  ok : A → Result A
  err : Error → Result A

infixl 5 ◌>>=◌ ◌>>◌
abbrev pub ◌>>=◌ {ι κ} : {X : Type ι} {Y : Type κ} → Result X → (X → Result Y) → Result Y
err raised >>= _ = err raised
ok value >>= next = next value

-- A statement for its exception only.
abbrev pub ◌>>◌ {κ} : {Y : Type κ} → Result (Unit {0}) → Result Y → Result Y
first >> rest = first >>= λ done. rest

-- `raise C(code, message, retryable=retryable)`
abbrev pub raise {ℓ} : {A : Type ℓ} → ErrorClass → String → String → Bool → Result A
raise c code message retryable =
    err (
      runner_error
        (record { raised_as = c; code = code; message = message; retryable = retryable }))

-- `raise C(message)`
abbrev pub raise_error {ℓ} : {A : Type ℓ} → ExceptionClass → String → Result A
raise_error c message = err (raised_error c message)

-- `if b: raise …`
abbrev pub raise_if : Bool → ErrorClass → String → String → Bool → Result (Unit {0})
raise_if Bool.true c code message retryable = raise c code message retryable
raise_if Bool.false c code message retryable = ok tt

pub Result-cases {ℓ} :
    {A : Type ℓ} (r : Result A) → ((a : A) × (r ≡ ok a)) ⊎ ((e : Error) × (r ≡ err e))
Result-cases (ok a) = inl (a, refl)
Result-cases (err e) = inr (e, refl)
