-- ===== src/Tests/Data.antt =====
-- A small history of a server with two workspaces, two directories and one file.
use syna.Prelude.{String, pos, false, none, some, [], ◌∷◌}
use syna.Prelude.Result.{Result, ok, err}
use syna.Protocol.{root_add, file_put, RootKind, EventSubmitRequest, SnapshotSubmitRequest}
use syna.Server.Schema.{Db, empty, Session, RootRow, file_entry}
use syna.Server.Errors.{DbError}
use syna.Server.Objects.{
  record_object, associate_object_with_workspace, object_visible_to_workspace, increment_object_ref,
  decrement_object_ref, add_association,
}
use syna.Server.Workspaces.{
  ensure_workspace_within_limit, create_workspace, recompute_retained_floor, set_floor, current_seq,
  retained_floor, workspace_row, active_roots, floor_of, floor_loop,
}
use syna.Server.Events.{
  submit_event, write_event, validate_event_request, check_object_refs, check_event, check_root_add,
  check_root_remove, check_content, insert_event, apply_effects, apply_root_add, apply_root_remove,
  apply_content, add_event_refs, add_event_ref, advance_workspace, settle_floor, event_of,
  fetch_events, fetched_rows, page_of, record_of, event_refs, sort_by_seq, insert_by_seq,
}
use syna.Server.Snapshots.{
  save_snapshot, check_snapshot, snapshot_base, check_snapshot_refs, write_snapshot,
  insert_snapshot, point_root, add_snapshot_refs, add_snapshot_ref,
}
use syna.Server.Maintenance.{
  prune, prune_floors, prunable_seqs, prune_events, prune_event, decrement_object_refs,
  prune_snapshots, prune_snapshot, snapshot_refs, delete_objects, delete_object,
}
use syna.Server.Purge.{
  purge_workspace, purge_rows, recount_objects, reference_count, delete_candidates,
  workspace_purge_objects,
}
use syna.Server.Sessions.{create_session, authenticate}
use syna.Table.{
  find, any, count, update, delete, select, upsert, insert_or_ignore, insert_or_replace,
}

-- Its list of definitions is unfolded by every test.
unfoldable pub runs : Unit {0}
unfolding record_object associate_object_with_workspace object_visible_to_workspace
    increment_object_ref decrement_object_ref add_association ensure_workspace_within_limit
    create_workspace recompute_retained_floor set_floor current_seq retained_floor workspace_row
    active_roots floor_of floor_loop submit_event write_event validate_event_request
    check_object_refs check_event check_root_add check_root_remove check_content insert_event
    apply_effects apply_root_add apply_root_remove apply_content add_event_refs add_event_ref
    advance_workspace settle_floor event_of fetch_events fetched_rows page_of record_of event_refs
    sort_by_seq insert_by_seq save_snapshot check_snapshot snapshot_base check_snapshot_refs
    write_snapshot insert_snapshot point_root add_snapshot_refs add_snapshot_ref prune prune_floors
    prunable_seqs prune_events prune_event decrement_object_refs prune_snapshots prune_snapshot
    snapshot_refs delete_objects delete_object purge_workspace purge_rows recount_objects
    reference_count delete_candidates workspace_purge_objects create_session authenticate find any
    count update delete select upsert insert_or_ignore insert_or_replace
runs = tt

abbrev pub sha256 : String → String
sha256 token = token

abbrev pub laptop : Session
laptop = record { workspace_id = "w"; device_id = "laptop"; expires_at = 1000 }

abbrev pub add_docs : EventSubmitRequest
add_docs = record {
  root_id = "docs";
  path_id = "";
  root_kind = RootKind.dir;
  event_type = root_add;
  base_seq = none;
  root_created_seq = none;
  payload_blob = "descriptor";
  object_refs = [];
}

abbrev pub put_note : EventSubmitRequest
put_note = record {
  root_id = "docs";
  path_id = "note";
  root_kind = RootKind.other "";
  event_type = file_put;
  base_seq = some (pos 0);
  root_created_seq = some (pos 1);
  payload_blob = "note v1";
  object_refs = "blob" ∷ [];
}

abbrev pub phone : Session
phone = record { workspace_id = "w"; device_id = "phone"; expires_at = 1000 }

-- The same baseline as `put_note`, from another device.
abbrev pub edit_note : EventSubmitRequest
edit_note = record put_note { payload_blob = "note v2" }

abbrev pub add_photos : EventSubmitRequest
add_photos = record add_docs { root_id = "photos" }

abbrev pub docs_snapshot : SnapshotSubmitRequest
docs_snapshot = record { root_id = "docs"; object_id = "blob"; base_seq = pos 2; object_refs = [] }

abbrev pub after : {A : Type 0} → Result DbError (Db × A) → Db
after (ok (d, a)) = d
after (err e) = empty

abbrev pub stored : Result DbError Db → Db
stored (ok d) = d
stored (err e) = empty

abbrev pub founded : Db
founded = after (ensure_workspace_within_limit "w" "key" 10 1 empty)

abbrev pub uploaded : Db
uploaded = record_object "blob" "file_chunk" 5 "objects/blob.bin" 2 founded

abbrev pub associated : Db
associated = stored (associate_object_with_workspace "w" "blob" 3 uploaded)

abbrev pub rooted : Db
rooted = after (submit_event laptop add_docs 4 associated)

abbrev pub noted : Db
noted = after (submit_event laptop put_note 5 rooted)

abbrev pub snapped : Db
snapped = stored (save_snapshot laptop docs_snapshot 6 noted)

abbrev pub docs_root : RootRow
docs_root = record {
  workspace_id = "w";
  root_id = "docs";
  kind = RootKind.dir;
  descriptor_blob = "descriptor";
  created_seq = 1;
  removed_seq = none;
  latest_snapshot_object_id = some "blob";
  latest_snapshot_seq = some 2;
  created_at = 4;
  updated_at = 6;
}

-- `snapped` after a pruning that deletes both events.
abbrev pub pruned : Db
pruned = record {
  workspaces =
      record {
        workspace_id = "w";
        auth_pubkey = "key";
        current_seq = 2;
        retained_floor_seq = 2;
        created_at = 1;
        updated_at = 6;
      }
      ∷ [];
  devices = [];
  sessions = [];
  session_challenges = [];
  roots = docs_root ∷ [];
  path_heads =
      record {
        workspace_id = "w";
        root_id = "docs";
        path_id = "note";
        entry_kind = file_entry;
        current_seq = 2;
        deleted = false;
        updated_at = 5;
      }
      ∷ [];
  events = [];
  last_event_seq = 2;
  event_object_refs = [];
  snapshots =
      record {
        workspace_id = "w";
        root_id = "docs";
        object_id = "blob";
        base_seq = 2;
        author_device_id = "laptop";
        created_at = 6;
      }
      ∷ [];
  snapshot_object_refs = [];
  objects =
      record {
        object_id = "blob";
        kind = "file_chunk";
        size_bytes = 5;
        storage_rel_path = "objects/blob.bin";
        ref_count = 1;
        zero_ref_at = none;
        created_at = 2;
        last_accessed_at = 2;
      }
      ∷ [];
  workspace_objects = record { workspace_id = "w"; object_id = "blob"; created_at = 3 } ∷ [];
  transferred_bytes = none;
}

abbrev pub with_photos : Db
with_photos = after (submit_event laptop add_photos 101 pruned)

abbrev pub shared : Db
shared = after (ensure_workspace_within_limit "v" "other key" 10 7 noted)
