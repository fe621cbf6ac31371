-- ===== src/Server/Events/Writes.antt =====
-- internal/server/db/events.go: what `SubmitEvent` writes.
use syna.Prelude.{
  ℕ, suc, String, str_eq, Bool, true, false, ◌&&◌, Option, none, some, List, [], ◌∷◌, ◌==◌,
  if◌then◌else◌,
}
use syna.Table.{update, upsert, insert_or_ignore, delete}
use syna.Protocol.{EventType, root_add, root_remove, dir_put, file_put, EventSubmitRequest}
use syna.Server.Schema.{
  Db, EventObjectRefRow, DeviceRow, EntryKind, dir_entry, file_entry, delete_entry, Session,
}
use syna.Server.Objects.{increment_object_ref, is_workspace}
use syna.Server.Events.Checks.{is_root, is_head, is_head_of_root}

abbrev pub null_string : String → Option String
null_string v = if str_eq v "" then none else some v

unfoldable pub insert_event : Session → EventSubmitRequest → ℕ → Db → Db
insert_event sess req now d = record d {
  last_event_seq = suc d.last_event_seq;
  events =
      record {
        seq = suc d.last_event_seq;
        workspace_id = sess.workspace_id;
        root_id = req.root_id;
        path_id = null_string req.path_id;
        event_type = req.event_type;
        base_seq = req.base_seq;
        author_device_id = sess.device_id;
        payload_blob = req.payload_blob;
        created_at = now;
      }
      ∷ d.events;
}

abbrev pub entry_kind_from_event : EventType → EntryKind
entry_kind_from_event dir_put = dir_entry
entry_kind_from_event file_put = file_entry
entry_kind_from_event _ = delete_entry

abbrev is_delete : EventType → Bool
is_delete EventType.delete = true
is_delete _ = false

unfoldable pub apply_root_add : Session → EventSubmitRequest → ℕ → ℕ → Db → Db
apply_root_add sess req seq now d = record d {
  roots =
      upsert (is_root sess.workspace_id req.root_id)
        (λ r. record r {
          kind = req.root_kind;
          descriptor_blob = req.payload_blob;
          created_seq = seq;
          removed_seq = none;
          latest_snapshot_object_id = none;
          latest_snapshot_seq = none;
          updated_at = now;
        })
        (record {
          workspace_id = sess.workspace_id;
          root_id = req.root_id;
          kind = req.root_kind;
          descriptor_blob = req.payload_blob;
          created_seq = seq;
          removed_seq = none;
          latest_snapshot_object_id = none;
          latest_snapshot_seq = none;
          created_at = now;
          updated_at = now;
        })
        d.roots;
  path_heads = delete (is_head_of_root sess.workspace_id req.root_id) d.path_heads;
}

unfoldable pub apply_root_remove : Session → EventSubmitRequest → ℕ → ℕ → Db → Db
apply_root_remove sess req seq now d = record d {
  roots =
      update (is_root sess.workspace_id req.root_id)
        (λ r. record r {
          removed_seq = some seq;
          latest_snapshot_object_id = none;
          latest_snapshot_seq = none;
          updated_at = now;
        })
        d.roots;
  path_heads = delete (is_head_of_root sess.workspace_id req.root_id) d.path_heads;
}

unfoldable pub apply_content : Session → EventSubmitRequest → ℕ → ℕ → Db → Db
apply_content sess req seq now d = record d {
  path_heads =
      upsert (is_head sess.workspace_id req.root_id req.path_id)
        (λ h. record h {
          entry_kind = entry_kind_from_event req.event_type;
          current_seq = seq;
          deleted = is_delete req.event_type;
          updated_at = now;
        })
        (record {
          workspace_id = sess.workspace_id;
          root_id = req.root_id;
          path_id = req.path_id;
          entry_kind = entry_kind_from_event req.event_type;
          current_seq = seq;
          deleted = is_delete req.event_type;
          updated_at = now;
        })
        d.path_heads;
}

-- the second switch
unfoldable pub apply_effects : Session → EventSubmitRequest → EventType → ℕ → ℕ → Db → Db
unfolding apply_root_add apply_root_remove apply_content
apply_effects sess req root_add seq now d = apply_root_add sess req seq now d
apply_effects sess req root_remove seq now d = apply_root_remove sess req seq now d
apply_effects sess req _ seq now d = apply_content sess req seq now d

abbrev pub is_event_ref : ℕ → String → EventObjectRefRow → Bool
is_event_ref seq object_id r = r.event_seq == seq && str_eq r.object_id object_id

-- one turn of the loop over `req.ObjectRefs`
unfoldable pub add_event_ref : ℕ → String → Db → Db
unfolding increment_object_ref
add_event_ref seq object_id d = increment_object_ref object_id (record d {
  event_object_refs =
      insert_or_ignore (is_event_ref seq object_id)
        (record { event_seq = seq; object_id = object_id }) d.event_object_refs;
})

unfoldable pub add_event_refs : ℕ → List String → Db → Db
add_event_refs seq [] d = d
add_event_refs seq (object_id ∷ rest) d = add_event_refs seq rest (add_event_ref seq object_id d)

abbrev pub is_device : String → String → DeviceRow → Bool
is_device workspace_id device_id r =
    str_eq r.workspace_id workspace_id && str_eq r.device_id device_id

unfoldable pub advance_workspace : Session → ℕ → ℕ → Db → Db
advance_workspace sess seq now d = record d {
  devices =
      update (is_device sess.workspace_id sess.device_id) (λ r. record r { last_seen_at = now })
        d.devices;
  workspaces =
      update (is_workspace sess.workspace_id)
        (λ w. record w { current_seq = seq; updated_at = now }) d.workspaces;
}

-- what the transaction writes once every check has passed
unfoldable pub write_event : Session → EventSubmitRequest → ℕ → Db → Db
write_event sess req now d =
    let seq = suc d.last_event_seq in
    advance_workspace sess seq now (
      add_event_refs seq req.object_refs
        (apply_effects sess req req.event_type seq now (insert_event sess req now d)))
