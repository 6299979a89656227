-- ===== src/Error.antt =====
-- The errors of the plugin (src/error.rs, and `ExtractError` of src/extract.rs). A message that
-- only a reader sees is left out; what a caller can tell apart is kept.
use tauri_plugin_hot_update.Prelude.{ℕ, String, List}
use tauri_plugin_hot_update.Machine.Session.{StageError}

pub data ExtractError : Type 0 where
  io : ExtractError
  forbidden_entry_type : (path : List ℕ) (entry_type : String) → ExtractError
  unsafe_path : (path : List ℕ) → ExtractError
  too_many_entries : (limit : ℕ) → ExtractError
  too_large : (limit : ℕ) → ExtractError

pub data Error (V : Type 0) : Type 0 where
  io : Error V
  not_active : Error V
  stage_refused : StageError V → Error V
  config : String → Error V
  disabled : Error V
  invalid_public_key : Error V
  manifest_signature : String → Error V
  manifest_parse : Error V
  manifest_invalid : Error V
  http : Error V
  http_status : (status : ℕ) (url : String) → Error V
  response_too_large : (url : String) (limit : ℕ) → Error V
  archive_size : (declared actual : ℕ) → Error V
  archive_sha256 : (declared actual : List ℕ) → Error V
  extract : ExtractError → Error V
