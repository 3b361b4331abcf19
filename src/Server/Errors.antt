-- ===== src/Server/Errors.antt =====
-- crates/helium-sync-server/src/api.rs: `ApiError` and the errors that the handlers share.
-- The message for people and the random request ID of an error body are left out: the program
-- never reads them.
use helium_sync.Prelude.{ℕ, String, Option, none, some}

pub record ApiError : Type 0 where
  pub status : ℕ
  pub code : String
  pub current_revision : Option ℕ
  pub current_cursor : Option ℕ

-- `ApiError::new`
abbrev pub api_error : ℕ → String → ApiError
api_error status code = record {
  status = status;
  code = code;
  current_revision = none;
  current_cursor = none;
}

-- `ApiError::conflict`
abbrev pub conflict : ℕ → ℕ → ApiError
conflict current_revision current_cursor = record {
  status = 409;
  code = "revision_conflict";
  current_revision = some current_revision;
  current_cursor = some current_cursor;
}

abbrev pub database_error : ApiError
database_error = api_error 500 "database_unavailable"

abbrev pub serialization_error : ApiError
serialization_error = api_error 500 "stored_data_invalid"
