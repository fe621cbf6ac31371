-- ===== src/Client/Applier/Events.antt =====
-- internal/client/applier/applier.go: `ApplyEvent`. It returns the new database and what it has done
-- on the disk. Where it fails the disk is not followed: it may have made directories, and a temporary
-- file that it removes again.
use syna.Prelude.{ℕ, ◌+◌, String, ℤ, Bool, false, List, [], ◌∷◌, if◌then◌else◌}
use syna.Prelude.Result.{Result, ok, err, ◌>>=◌, ◌>>◌}
use syna.Protocol.{EventRecord, EventType, dir_put, file_put, delete, RootKind}
use syna.Client.State.{
  StateDb, Root, Entry, deleted_entry, set_ignore, set_ignore_delete, upsert_entry,
  mark_entry_deleted,
}
use syna.Client.World.{World, DirPutPayload, FilePutPayload, DeletePayload}
use syna.Client.Applier.Defs.{
  Failure, failure, DiskOp, ensured_dir, made_temp, parents_of, made_dir, wrote_file, removed_all,
  required, event_path_id, validate_dir_put_target, validate_file_put_target,
  resolve_content_target, ensure_safe_dir_target, fetch_file, reject_symlinked,
}

module _ (w : World) where
  -- two seconds
  abbrev ignore_for : ℕ
  ignore_for = 2_000_000_000

  abbrev pub content_entry : Root → String → String → RootKind → ℕ → String → ℕ → ℕ → ℤ → Entry
  content_entry root rel_path path_id kind seq content_sha256 size_bytes mode mtime_ns = record {
    root_id = root.root_id;
    rel_path = rel_path;
    path_id = path_id;
    kind = kind;
    current_seq = seq;
    content_sha256 = content_sha256;
    size_bytes = size_bytes;
    mode = mode;
    mtime_ns = mtime_ns;
    inode = 0;
    device = 0;
    deleted = false;
  }

  unfoldable pub apply_dir_put :
      Root → EventRecord → Bool → StateDb → DirPutPayload → Result Failure (StateDb × List DiskOp)
  apply_dir_put root event stage_only d p = do
    t ← validate_dir_put_target w root p.path event.path_id
    let path_id = w.path_id root.root_id t.0
    let entry = content_entry root t.0 path_id RootKind.dir event.seq "" 0 p.mode p.mtime_ns
    if stage_only then ok (upsert_entry entry d, []) else (do
      ensure_safe_dir_target w root t.1
      let ignored = set_ignore root.root_id t.0 (w.now + ignore_for) entry d
      ok (
        upsert_entry entry ignored,
        ensured_dir root.target_abs_path t.1 ∷ made_dir t.1 p.mode p.mtime_ns ∷ [],
      ))

  abbrev pub file_ops : Root → String → String → ℕ → ℤ → List DiskOp
  file_ops root target content mode mtime_ns =
      let (base, directory) = parents_of w root root.kind target in
      ensured_dir base directory
      ∷ made_temp (w.pkg.dir target)
      ∷ wrote_file target content mode mtime_ns
      ∷ []

  unfoldable pub apply_file_put :
      Root → EventRecord → Bool → StateDb → FilePutPayload → Result Failure (StateDb × List DiskOp)
  apply_file_put root event stage_only d p = do
    t ← validate_file_put_target w root p.path event.path_id
    let path_id = w.path_id root.root_id t.0
    let entry =
        content_entry root t.0 path_id RootKind.file event.seq p.content_sha256 p.size_bytes p.mode
          p.mtime_ns
    if stage_only then ok (upsert_entry entry d, []) else (do
      content ← fetch_file w root t.1 path_id p
      let ignored = set_ignore root.root_id t.0 (w.now + ignore_for) entry d
      ok (upsert_entry entry ignored, file_ops root t.1 content p.mode p.mtime_ns))

  unfoldable pub apply_delete :
      Root → EventRecord → Bool → StateDb → DeletePayload → Result Failure (StateDb × List DiskOp)
  apply_delete root event stage_only d p = do
    t ← resolve_content_target w root p.path false event.path_id
    let path_id = w.path_id root.root_id t.0
    let entry = record deleted_entry {
      root_id = root.root_id;
      rel_path = t.0;
      path_id = path_id;
      current_seq = event.seq;
    }
    if stage_only then ok (mark_entry_deleted entry d, []) else (do
      reject_symlinked w root t.1
      let ignored = set_ignore_delete root.root_id t.0 (w.now + ignore_for) d
      ok (mark_entry_deleted entry ignored, removed_all t.1 ∷ []))

  abbrev pub apply_plain :
      Root
      → EventRecord
      → Bool
      → StateDb
      → String
      → EventType
      → Result Failure (StateDb × List DiskOp)
  apply_plain root event stage_only d plain dir_put =
      required (w.parse_dir_put plain) >>= apply_dir_put root event stage_only d
  apply_plain root event stage_only d plain file_put =
      required (w.parse_file_put plain) >>= apply_file_put root event stage_only d
  apply_plain root event stage_only d plain delete =
      required (w.parse_delete plain) >>= apply_delete root event stage_only d
  apply_plain root event stage_only d plain _ = err failure

  unfoldable pub apply_event :
      Root → EventRecord → Bool → StateDb → Result Failure (StateDb × List DiskOp)
  apply_event root event stage_only d = do
    plain ← required (
        w.decrypt_event event.root_id (event_path_id event.path_id) event.event_type
          event.payload_blob)
    apply_plain root event stage_only d plain event.event_type
