-- ===== src/Server/Objects.antt =====
-- internal/server/db/objects.go and refs.go, and the statement of internal/server/objectstore that
-- records an upload.
use syna.Prelude.{ℕ, suc, ◌-◌, String, str_eq, Bool, ◌&&◌, none, some, leb, ltb, if◌then◌else◌}
use syna.Prelude.Result.{Result, ok, err}
use syna.Table.{any, update, upsert, insert_or_ignore}
use syna.Server.Schema.{Db, ObjectRow, WorkspaceObjectRow, WorkspaceRow}
use syna.Server.Errors.{DbError, object_not_available}

-- the key test of `objects`
abbrev pub is_object : String → ObjectRow → Bool
is_object object_id r = str_eq r.object_id object_id

-- the key test of `workspace_objects`
abbrev pub is_association : String → String → WorkspaceObjectRow → Bool
is_association workspace_id object_id r =
    str_eq r.workspace_id workspace_id && str_eq r.object_id object_id

abbrev pub is_workspace : String → WorkspaceRow → Bool
is_workspace workspace_id r = str_eq r.workspace_id workspace_id

unfoldable pub object_visible_to_workspace : String → String → Db → Bool
object_visible_to_workspace workspace_id object_id d =
    any (is_association workspace_id object_id) d.workspace_objects

abbrev pub counted_up : ObjectRow → ObjectRow
counted_up r = record r { ref_count = suc r.ref_count; zero_ref_at = none }

abbrev pub counted_down : ℕ → ObjectRow → ObjectRow
counted_down now r = record r {
  ref_count = if ltb 0 r.ref_count then r.ref_count - 1 else 0;
  zero_ref_at = if leb r.ref_count 1 then some now else r.zero_ref_at;
}

unfoldable pub increment_object_ref : String → Db → Db
increment_object_ref object_id d = record d {
  objects = update (is_object object_id) counted_up d.objects;
}

unfoldable pub decrement_object_ref : String → ℕ → Db → Db
decrement_object_ref object_id now d = record d {
  objects = update (is_object object_id) (counted_down now) d.objects;
}

unfoldable pub add_association : String → String → ℕ → Db → Db
add_association workspace_id object_id now d = record d {
  workspace_objects =
      insert_or_ignore (is_association workspace_id object_id)
        (record { workspace_id = workspace_id; object_id = object_id; created_at = now })
        d.workspace_objects;
}

-- The INSERT does nothing without both rows, or if the association is there; the error is decided
-- by what is visible afterwards.
unfoldable pub associate_object_with_workspace : String → String → ℕ → Db → Result DbError Db
associate_object_with_workspace workspace_id object_id now d =
    if any (is_workspace workspace_id) d.workspaces && any (is_object object_id) d.objects
    then ok (add_association workspace_id object_id now d)
    else if object_visible_to_workspace workspace_id object_id d
    then ok d
    else err object_not_available

abbrev pub uploaded_row : String → String → ℕ → String → ℕ → ObjectRow
uploaded_row object_id kind size rel_path now = record {
  object_id = object_id;
  kind = kind;
  size_bytes = size;
  storage_rel_path = rel_path;
  ref_count = 0;
  zero_ref_at = some now;
  created_at = now;
  last_accessed_at = now;
}

-- the statement at the end of `Put`
unfoldable pub record_object : String → String → ℕ → String → ℕ → Db → Db
record_object object_id kind size rel_path now d = record d {
  objects =
      upsert (is_object object_id) (λ r. record r { last_accessed_at = now })
        (uploaded_row object_id kind size rel_path now) d.objects;
}
