-- ===== src/Server/Errors.antt =====
-- The errors that the operations of internal/server/db return, with the numbers they carry.
use syna.Prelude.{ℕ, String}

pub data DbError : Type 0 where
  -- sql.ErrNoRows
  no_rows : DbError
  root_id_required : DbError
  unsupported_event_type : DbError
  missing_object_ref : String → DbError
  root_kind_required : DbError
  root_already_active : DbError
  unknown_root : DbError
  root_already_removed : DbError
  root_removed : DbError
  path_and_base_required : DbError
  -- RootIncarnationMismatchError and PathHeadMismatchError, with their CurrentSeq
  root_incarnation_mismatch : ℕ → DbError
  path_head_mismatch : ℕ → DbError
  -- ResyncRequiredError, with its RetainedFloorSeq
  resync_required : ℕ → DbError
  snapshot_predates_root : DbError
  stale_snapshot : DbError
  snapshot_beyond_head : DbError
  missing_snapshot_object : DbError
  missing_snapshot_object_ref : String → DbError
  object_not_available : DbError
  workspace_limit_reached : DbError
  public_key_mismatch : DbError
  workspace_not_found : DbError
  session_expired : DbError
