-- ===== src/Tests/Synced.antt =====
-- The properties of snapshots, uploads, scans and sessions at concrete inputs.
use syna.Prelude.{
  ◌+◌, ◌≤◌, ◌<◌, String, ◌≡◌, refl, sym, arith, true, false, some, none, pos, List, [], ◌∷◌,
}
use syna.Prelude.Result.{ok, err}
use syna.Protocol.{RootKind}
use syna.Table.{find}
use syna.Paths.{
  resolve_remote_target, validate_remote_rel_path, validate_slash_rel_path, ensure_within_root,
  rel_within_root, remote_target, reject_symlink, reject_symlink_parents,
}
use syna.Client.State.{StateDb, root_by_id, new_state, set_ignore}
use syna.Client.World.{World, FilePutPayload}
use syna.Client.Applier.{
  apply_event, apply_file_put, validate_file_put_target, resolve_content_target, fetch_file,
  fetch_chunks, validate_chunk_ref, encrypted_size, ensure_safe_dir, ensure_safe_parent_dirs,
  reject_symlinked, DiskOp,
}
use syna.Client.Daemon.{
  ScannedEntry, should_suppress_ignored_entry, should_suppress_ignored_delete,
  should_suppress-set_ignore, session_renewal_delay, five_minutes, session_renewal_delay-bounds,
  event_materialized_locally, event_materialized_locally-apply_event,
}
use syna.Client.Uploader.{
  UploadWorld, Upload, Read, short, upload_chunks, upload_file, fetch_file-upload_file,
}
use syna.Client.Snapshots.{
  SnapshotEntry, SnapshotWorld, Disk, apply_snapshot_file, conflict_target, conflict_rel_path,
  device_short, choose, IsKept, apply_snapshot_file-IsKept, IsSettled,
  apply_snapshot_file-IsSettled,
}
use syna.Tests.Client.{note}
use syna.Tests.Device.{world, docs, note_put, chunk, phone_daemon}

abbrev pub scene : SnapshotWorld
scene = record {
  decrypt_snapshot = λ root seq blob. none;
  parse_snapshot = λ plain. none;
  base = λ path. path;
  ext = λ name. ".txt";
  device_slug = "laptop";
  stamp = "20250102T030405Z";
  is_unreadable = λ path. false;
}

abbrev snapshot_note : SnapshotEntry
snapshot_note = record {
  path = "note.txt";
  kind = RootKind.file;
  mode = 420;
  mtime_ns = pos 1;
  size_bytes = 3;
  content_sha256 = "abc";
  chunks = chunk ∷ [];
}

-- a disk on which the user has edited each file
abbrev edited : Disk
edited path = some "edited"

abbrev note_file : String
note_file = "/home/a/docs/note.txt"

apply_snapshot_file-IsKept_example :
    IsKept world scene docs "note.txt" note_file none "edited"
      (apply_snapshot_file world scene docs "note.txt" note_file "note" snapshot_note none edited).0
unfolding conflict_target conflict_rel_path device_short
apply_snapshot_file-IsKept_example =
    apply_snapshot_file-IsKept world scene docs "note.txt" note_file "note" "edited" snapshot_note
      none edited refl refl

apply_snapshot_file-IsSettled_example :
    IsSettled world scene note_file snapshot_note none
      (apply_snapshot_file world scene docs "note.txt" note_file "note" snapshot_note none edited).0
unfolding apply_snapshot_file choose fetch_file fetch_chunks validate_chunk_ref encrypted_size
    ensure_safe_dir ensure_safe_parent_dirs reject_symlinked reject_symlink reject_symlink_parents
    rel_within_root
apply_snapshot_file-IsSettled_example =
    apply_snapshot_file-IsSettled world scene docs "note.txt" note_file "note" snapshot_note none
      edited refl

-- a network that returns what it was given, sealed with nothing
abbrev mirror : World
mirror = record world {
  download = λ object size. some object;
  decrypt_blob = λ root path index size blob. some blob;
}

abbrev sender : UploadWorld
sender = record {
  encrypt_blob = λ root path index size plain. some plain;
  object_id = λ blob. blob;
  upload = λ object blob. true;
}

abbrev reads : List Read
reads = short "abc" ∷ []

abbrev sent : FilePutPayload
sent = record {
  path = "note.txt";
  mode = 420;
  mtime_ns = pos 1;
  size_bytes = 3;
  content_sha256 = "abc";
  chunks = record { object_id = "abc"; plain_size = 3 } ∷ [];
}

fetch_file-upload_file_example :
    (x : Upload) × (upload_chunks mirror sender "docs" "note" 0 "" reads ≡ ok x)
    × (fetch_file mirror docs note_file "note" sent ≡ ok x.content)
unfolding upload_file upload_chunks ensure_safe_dir ensure_safe_parent_dirs reject_symlinked
    reject_symlink reject_symlink_parents rel_within_root
fetch_file-upload_file_example =
    fetch_file-upload_file mirror sender docs note_file "note" "note.txt" 420 (pos 1) reads
      {r = (sent, "abc" ∷ [])} (λ i plain blob h. (refl, sym h)) (omega arith, tt) refl refl refl
      refl refl refl

-- what a scan finds where the daemon has just written the note
abbrev found_note : ScannedEntry
found_note = record {
  rel_path = "note.txt";
  abs_path = "/home/a/docs/note.txt";
  kind = RootKind.file;
  mode = 420;
  mtime_ns = pos 7;
  size_bytes = 3;
  content_sha256 = "abc";
}

should_suppress-set_ignore_example :
    (should_suppress_ignored_entry "r" found_note 5 (set_ignore "r" "note.txt" 9 note new_state)
      ≡ true)
    × (should_suppress_ignored_delete "r" "note.txt" 5 (set_ignore "r" "note.txt" 9 note new_state)
        ≡ false)
should_suppress-set_ignore_example = should_suppress-set_ignore "r" found_note 9 5 note new_state

session_renewal_delay-bounds_example :
    (10 + session_renewal_delay 10 1_000_000_000_000 < 1_000_000_000_000)
    × (1_000_000_000_000 ≤ 10 + session_renewal_delay 10 1_000_000_000_000 + five_minutes)
session_renewal_delay-bounds_example =
    session_renewal_delay-bounds 10 1_000_000_000_000 (omega arith)

abbrev phone_noted : StateDb × List DiskOp
unfolding apply_event
phone_noted = elim (apply_event world docs note_put false phone_daemon.db) [
  | ok r ↦ r
  | err e ↦ (new_state, [])
]

event_materialized_locally-apply_event_example :
    event_materialized_locally world (λ pattern key. false) note_put phone_noted.0 ≡ true
unfolding root_by_id find apply_event apply_file_put validate_file_put_target resolve_content_target
    resolve_remote_target validate_remote_rel_path validate_slash_rel_path ensure_within_root
    rel_within_root remote_target fetch_file fetch_chunks validate_chunk_ref encrypted_size
    ensure_safe_dir ensure_safe_parent_dirs reject_symlinked reject_symlink reject_symlink_parents
event_materialized_locally-apply_event_example =
    event_materialized_locally-apply_event world (λ pattern key. false) docs note_put false
      phone_daemon.db "note" {r = phone_noted} (λ p. refl) refl refl refl
