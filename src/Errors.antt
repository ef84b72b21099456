-- ===== src/Errors.antt =====
-- crates/zydecodb-engine/src/errors.rs: the engine's errors and its results. An error carries the
-- fixed text of its message; what `format!` puts into a message is left out, since no code reads a
-- message back.
pub mod Status
pub mod Codes
use zydecodb.Prelude.{◌≡◌, refl, ◌⊎◌, inl, inr, String}
use Status.{
  not_found, error, conflict, io_error, invalid_key, invalid_value, engine_busy, protocol_error,
  policy_rejected, unsupported_format, unauthorized, forbidden,
}

-- `enum EngineError`.
pub data EngineError : Type 0 where
  missing : EngineError
  bad_key bad_value busy protocol : String → EngineError
  clash : EngineError
  io rejected format_version not_authenticated not_permitted locked other : String → EngineError

-- `EngineError::status`.
unfoldable pub status : EngineError → Status.Status
status missing = not_found
status (bad_key _) = invalid_key
status (bad_value _) = invalid_value
status (busy _) = engine_busy
status (protocol _) = protocol_error
status clash = conflict
status (io _) = io_error
status (rejected _) = policy_rejected
status (format_version _) = unsupported_format
status (not_authenticated _) = unauthorized
status (not_permitted _) = forbidden
status (locked _) = io_error
status (other _) = error

-- `EngineResult<T>`.
pub data EngineResult {ℓ} (A : Type ℓ) : Type ℓ where
  ok : A → EngineResult A
  err : EngineError → EngineResult A

-- The operator `?`.
infixl 5 ◌>>=◌ ◌>>◌
abbrev pub ◌>>=◌ {ℓ κ} :
    {A : Type ℓ} {B : Type κ} → EngineResult A → (A → EngineResult B) → EngineResult B
ok a >>= f = f a
err e >>= f = err e

abbrev pub ◌>>◌ {ℓ} : {B : Type ℓ} → EngineResult (Unit {0}) → EngineResult B → EngineResult B
m >> k = m >>= λ _. k

-- To split on a result and keep the equation.
pub result_cases {ℓ} :
    {A : Type ℓ} (m : EngineResult A) → ((a : A) × (m ≡ ok a)) ⊎ ((e : EngineError) × (m ≡ err e))
result_cases (ok a) = inl (a, refl)
result_cases (err e) = inr (e, refl)
