-- ===== src/Tests/Device.antt =====
-- The properties of paths, of applied events and of the catch-up at concrete inputs.
use Prim.Native.String.{◌++◌ as append}
use text.Mathlib.Text.{starts_with}
use syna.Prelude.{String, ◌≡◌, ◌⊎◌, refl, true, false, some, none, pos, List, [], ◌∷◌, All}
use syna.Prelude.Result.{ok, err}
use syna.Protocol.{RootKind, EventRecord, file_put, root_remove, EventSubmitRequest}
use syna.Table.{any}
use syna.Paths.{
  PathPackage, absent, validate_slash_rel_path, validate_slash_rel_path-canonical,
  validate_remote_rel_path, resolve_remote_target, remote_target, resolve_remote_target-IsWithin,
  ensure_within_root, rel_within_root, IsWithin, check_overlap, check_overlap-IsApart, clean_stored,
  overlaps, IsApart, IsPlainPart, reject_symlink, reject_symlink_parents,
}
use syna.Hub.{Hub}
use syna.Api.{Refusal, refusal, handle_event_submit}
use syna.Client.State.{StateDb, Root, new_state, active, is_op}
use syna.Client.World.{World, ChunkRef}
use syna.Client.Applier.{
  apply_event, IsApplied, apply_event-IsApplied, apply_file_put, validate_file_put_target,
  resolve_content_target, fetch_file, fetch_chunks, validate_chunk_ref, encrypted_size,
  ensure_safe_dir, ensure_safe_parent_dirs, reject_symlinked, DiskOp,
}
use syna.Client.Daemon.{Daemon}
use syna.Client.Submit.{submit_error, flush_root_remove, flush_root_remove-refused}
use syna.Tests.Data.{runs, noted, laptop}
use syna.Tests.Client.{queued}

-- paths that are clean as they are
abbrev note_path : String
note_path = "note.txt"

abbrev plain_paths : PathPackage
plain_paths = record {
  clean = λ p. p;
  join = λ a b. append a (append "/" b);
  rel = λ root target. some "note.txt";
  dir = λ p. p;
  split = λ p. p ∷ [];
  trim_prefix = λ p cut. p;
  trim_suffix = λ p cut. p;
}

validate_slash_rel_path-canonical_example :
    (note_path ≡ note_path)
    × (((note_path ≡ "") × (false ≡ true))
        ⊎ ((starts_with "note.txt" "/" ≡ false)
            × (plain_paths.clean note_path ≡ note_path)
            × All IsPlainPart (plain_paths.split "note.txt")))
unfolding validate_slash_rel_path
validate_slash_rel_path-canonical_example =
    validate_slash_rel_path-canonical plain_paths "note.txt" false {rel = "note.txt"} refl

resolve_remote_target-IsWithin_example :
    IsWithin plain_paths "/home/a" "/home/a/note.txt" × (note_path ≡ note_path)
unfolding resolve_remote_target validate_remote_rel_path validate_slash_rel_path ensure_within_root
    rel_within_root remote_target
resolve_remote_target-IsWithin_example =
    resolve_remote_target-IsWithin plain_paths "/home/a" "note.txt" true {rel = "note.txt"}
      {target = "/home/a/note.txt"} refl

check_overlap-IsApart_example :
    All
      (λ root.
        (clean_stored plain_paths root ≡ "")
        ⊎ IsApart (clean_stored plain_paths "docs") (clean_stored plain_paths root))
      ("music" ∷ [])
unfolding check_overlap overlaps clean_stored
check_overlap-IsApart_example = check_overlap-IsApart plain_paths "docs" ("music" ∷ []) refl refl

abbrev pub chunk : ChunkRef
chunk = record { object_id = "blob"; plain_size = 3 }

-- a device to which each call succeeds
abbrev pub world : World
world = record {
  pkg = plain_paths;
  home = some "/home/a";
  device_id = "phone";
  now = 7;
  decrypt_event = λ root path type blob. some blob;
  parse_root_add = λ plain. none;
  parse_dir_put = λ plain. none;
  parse_file_put = λ plain. some (record {
    path = "note.txt";
    mode = 420;
    mtime_ns = pos 1;
    size_bytes = 3;
    content_sha256 = "abc";
    chunks = chunk ∷ [];
  });
  parse_delete = λ plain. none;
  root_id = λ home_rel. home_rel;
  path_id = λ root path. "note";
  download = λ object size. some "sealed";
  decrypt_blob = λ root path index size blob. some "abc";
  byte_count = λ plain. 3;
  sha256_hex = λ content. content;
  lstat = λ path. absent;
  has_entries = λ path. false;
  ensure_safe_dir = λ root directory. true;
  create_temp = λ directory. true;
  commit_temp = λ target. true;
  rename = λ target. true;
}

abbrev pub docs : Root
docs = record {
  root_id = "docs";
  kind = RootKind.dir;
  home_rel_path = "docs";
  target_abs_path = "/home/a/docs";
  state = active;
  latest_snapshot_seq = 0;
  last_scan_at = none;
}

abbrev pub note_put : EventRecord
note_put = record {
  seq = 2;
  root_id = "docs";
  path_id = some "note";
  event_type = file_put;
  base_seq = some (pos 0);
  author_device_id = "laptop";
  payload_blob = "note v1";
  object_refs = "blob" ∷ [];
  created_at = 5;
}

abbrev written : StateDb × List DiskOp
unfolding apply_event
written = elim (apply_event world docs note_put false new_state) [
  | ok r ↦ r
  | err e ↦ (new_state, [])
]

apply_event-IsApplied_example : IsApplied world docs note_put new_state written
unfolding apply_event apply_file_put validate_file_put_target resolve_content_target
    resolve_remote_target validate_remote_rel_path validate_slash_rel_path ensure_within_root
    rel_within_root remote_target fetch_file fetch_chunks validate_chunk_ref encrypted_size
    ensure_safe_dir ensure_safe_parent_dirs reject_symlinked reject_symlink reject_symlink_parents
apply_event-IsApplied_example =
    apply_event-IsApplied world docs note_put false new_state {r = written} (λ p. refl) refl

-- the device knows the root, and has seen nothing
abbrev pub phone_daemon : Daemon
phone_daemon = record { db = record new_state { roots = docs ∷ [] }; staged_roots = [] }

-- a removal of a root that the server does not know
abbrev remove_music : EventSubmitRequest
remove_music = record {
  root_id = "music";
  path_id = "";
  root_kind = RootKind.other "";
  event_type = root_remove;
  base_seq = none;
  root_created_seq = none;
  payload_blob = "removal";
  object_refs = [];
}

-- nobody listens
abbrev silent : Hub
silent = record { max_per_ws = 4; next_id = 0; groups = []; closed = [] }

abbrev rejected : Refusal
rejected = refusal 400 "event_rejected" "event rejected"

removal_refused : handle_event_submit laptop (some remove_music) 9 noted silent ≡ err rejected
unfolding runs handle_event_submit
removal_refused = refl

flush_root_remove-refused_example :
    (any
        (is_op "r:one")
        (flush_root_remove
          (λ s. s)
          "r:one"
          9
          queued
          (some (submit_error (λ n. "400") 0 "" rejected))).0.pending_ops
      ≡ any (is_op "r:one") queued.pending_ops)
    × ((flush_root_remove
          (λ s. s)
          "r:one"
          9
          queued
          (some (submit_error (λ n. "400") 0 "" rejected))).1
        ≡ false)
flush_root_remove-refused_example =
    flush_root_remove-refused (λ s. s) (λ n. "400") laptop remove_music 9 noted silent "r:one" "" 0
      9 queued (refl, refl, refl) removal_refused
