-- ===== src/Error.antt =====
-- crates/core/src/error.rs: the errors of the services and their classes. A formatted message
-- keeps its fixed text only.
use mail_keep.Base.{ℕ, String, Bool, true, false, ◌≡◌, ◌↔◌, arith}

-- `ErrorKind`
pub data ErrorKind : Type 0 where
  not_found conflict invalid_input bad_request internal service_unavailable : ErrorKind

-- `RepositoryError`
pub data RepositoryError : Type 0 where
  constraint : String → RepositoryError
  conflict not_found read_only : RepositoryError
  database : String → RepositoryError
  query_canceled : RepositoryError
  connection busy : String → RepositoryError

-- `Error`, without the variant that only tests have
pub data Error : Type 0 where
  invalid_id invalid_page_size : ℕ → Error
  validation : String → Error
  invalid_transaction_type : Error
  invalid_token infrastructure unimplemented storage_unavailable : String → Error
  blob_not_found : ℕ → String → Error
  folder_not_found frontend_error crypto_error : String → Error
  decryption_failed : Error
  credentials_deserialize : String → Error
  repository_error : RepositoryError → Error

-- `RepositoryError::kind`
unfoldable pub repository_kind : RepositoryError → ErrorKind
repository_kind RepositoryError.not_found = ErrorKind.not_found
repository_kind RepositoryError.conflict = ErrorKind.conflict
repository_kind (constraint _) = invalid_input
repository_kind read_only = internal
repository_kind (database _) = internal
repository_kind query_canceled = internal
repository_kind (connection _) = service_unavailable
repository_kind (busy _) = service_unavailable

-- `Error::kind`
unfoldable pub kind : Error → ErrorKind
unfolding repository_kind
kind (invalid_id _) = bad_request
kind (invalid_page_size _) = bad_request
kind (invalid_token _) = bad_request
kind (validation _) = invalid_input
kind invalid_transaction_type = internal
kind (infrastructure _) = internal
kind (crypto_error _) = internal
kind decryption_failed = internal
kind (credentials_deserialize _) = internal
kind (unimplemented _) = internal
kind (storage_unavailable _) = service_unavailable
kind (blob_not_found _ _) = ErrorKind.not_found
kind (folder_not_found _) = ErrorKind.not_found
kind (repository_error e) = repository_kind e
kind (frontend_error _) = internal

-- `Error::is_transient`
unfoldable pub is_transient : Error → Bool
is_transient (repository_error (connection _)) = true
is_transient (repository_error (busy _)) = true
is_transient (storage_unavailable _) = true
is_transient _ = false

-- An error is transient, so that a worker retries, exactly when its response class is
-- "service unavailable".
pub is_transient_iff : (e : Error) → (is_transient e ≡ true) ↔ (kind e ≡ service_unavailable)
unfolding is_transient kind
is_transient_iff (repository_error (connection _)) = ground arith
is_transient_iff (repository_error (busy _)) = ground arith
is_transient_iff _ = ground arith
