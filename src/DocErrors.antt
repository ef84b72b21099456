-- ===== src/DocErrors.antt =====
-- crates/zydecodb-document/src/error.rs: the errors of the document layer and their status codes. An
-- error carries the fixed text of its message.
use zydecodb.Prelude.{ℕ, String}
use zydecodb.Errors.{EngineError}
use zydecodb.Errors.Status.{Status, not_found, conflict, protocol_error, invalid_value, io_error}

-- `DocError`.
pub data DocError : Type 0 where
  collection_not_found index_not_found already_exists duplicate_key : String → DocError
  stale_revision : DocError
  invalid_json : String → DocError
  batch_too_large : ℕ → DocError
  corrupt protocol bad_filter bad_update : String → DocError
  engine : EngineError → DocError

-- `DocError::status`.
unfoldable pub doc_status : DocError → Status
unfolding zydecodb.Errors.status
doc_status (collection_not_found _) = not_found
doc_status (index_not_found _) = not_found
doc_status (already_exists _) = conflict
doc_status (duplicate_key _) = conflict
doc_status stale_revision = conflict
doc_status (invalid_json _) = protocol_error
doc_status (protocol _) = protocol_error
doc_status (bad_filter _) = invalid_value
doc_status (bad_update _) = invalid_value
doc_status (batch_too_large _) = invalid_value
doc_status (corrupt _) = io_error
doc_status (engine e) = zydecodb.Errors.status e

-- `DocResult<T>`.
pub data DocResult {ℓ} (A : Type ℓ) : Type ℓ where
  ok : A → DocResult A
  err : DocError → DocResult A

-- The operator `?`.
infixl 5 ◌>>=◌
abbrev pub ◌>>=◌ {ℓ κ} : {A : Type ℓ} {B : Type κ} → DocResult A → (A → DocResult B) → DocResult B
ok a >>= f = f a
err e >>= f = err e
