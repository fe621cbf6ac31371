-- ===== src/Client/Snapshots/Entries.antt =====
-- internal/client/daemon/snapshot_apply.go: `applySnapshot`, entry by entry.
use syna.Prelude.{
  ℕ, String, str_eq, ◌==◌, Bool, true, false, not, ◌&&◌, ◌||◌, Option, none, some, List, [], ◌∷◌,
  ◌++◌, if◌then◌else◌,
}
use syna.Prelude.Result.{Result, ok, err, ◌>>=◌, ◌>>◌, fail_if}
use syna.Protocol.{RootKind}
use syna.Paths.{resolve_remote_target, resolve_home_rel_target}
use syna.Client.State.{StateDb, Root, Entry, entries_for_root, entry_at, replace_entries}
use syna.Client.World.{World}
use syna.Client.Applier.{
  Failure, integrity, failure, required, path_checked, is_dir_kind, is_file_kind,
  ensure_safe_dir_target, encrypted_size,
}
use syna.Client.Daemon.{same_kind, same_int}
use syna.Client.Snapshots.Defs.{
  SnapshotEntry, SnapshotPayload, SnapshotWorld, Disk, apply_snapshot_file,
}

module _ (w : World) (v : SnapshotWorld) where
  unfoldable pub resolve_snapshot_target :
      Root → String → RootKind → Result Failure (String × String)
  resolve_snapshot_target root raw kind =
      if is_dir_kind root.kind
      then (do
        t ←
            path_checked (integrity "rejected snapshot entry with invalid path")
              (resolve_remote_target w.pkg root.target_abs_path raw true)
        fail_if (str_eq t.0 "" && not (is_dir_kind kind))
            (integrity "rejected snapshot root entry with invalid kind")
        ok t)
      else (do
        fail_if (not (is_file_kind root.kind)) failure
        fail_if (not (str_eq raw "") || not (is_file_kind kind))
            (integrity "rejected snapshot entry outside file root")
        ok ("", w.pkg.clean root.target_abs_path))

  abbrev pub dir_seq : ℕ → SnapshotEntry → Option Entry → ℕ
  dir_seq base_seq e none = base_seq
  dir_seq base_seq e (some p) =
      if not p.deleted && is_dir_kind p.kind && p.mode == e.mode && same_int p.mtime_ns e.mtime_ns
      then p.current_seq
      else base_seq

  abbrev pub file_seq : ℕ → SnapshotEntry → Option Entry → ℕ
  file_seq base_seq e none = base_seq
  file_seq base_seq e (some p) =
      if not p.deleted && is_file_kind p.kind && str_eq p.content_sha256 e.content_sha256
      then p.current_seq
      else base_seq

  abbrev pub dir_entry : Root → String → SnapshotEntry → ℕ → Entry
  dir_entry root rel_path e seq = record {
    root_id = root.root_id;
    rel_path = rel_path;
    path_id = w.path_id root.root_id rel_path;
    kind = RootKind.dir;
    current_seq = seq;
    content_sha256 = "";
    size_bytes = 0;
    mode = e.mode;
    mtime_ns = e.mtime_ns;
    inode = 0;
    device = 0;
    deleted = false;
  }

  abbrev pub file_entry_of : Root → String → SnapshotEntry → ℕ → Entry
  file_entry_of root rel_path e seq = record (dir_entry root rel_path e seq) {
    kind = RootKind.file;
    content_sha256 = e.content_sha256;
    size_bytes = e.size_bytes;
  }

  -- the entries that a path leaves in the database
  abbrev pub outcome :
      {A : Type 0} → List Entry → Disk × Result Failure A → Disk × Result Failure (List Entry)
  outcome es (disk, err e) = (disk, err e)
  outcome es (disk, ok a) = (disk, ok es)

  abbrev pub apply_snapshot_path :
      Root
      → ℕ
      → Bool
      → String × String
      → SnapshotEntry
      → Option Entry
      → RootKind
      → Disk
      → Disk × Result Failure (List Entry)
  apply_snapshot_path root base_seq stage_only t e prior RootKind.dir disk =
      outcome (dir_entry root t.0 e (dir_seq base_seq e prior) ∷ [])
        (disk, if stage_only then ok tt else ensure_safe_dir_target w root t.1)
  apply_snapshot_path root base_seq stage_only t e prior RootKind.file disk =
      outcome (file_entry_of root t.0 e (file_seq base_seq e prior) ∷ []) (
        if stage_only
        then (disk, ok tt)
        else apply_snapshot_file w v root t.0 t.1 (w.path_id root.root_id t.0) e prior disk)
  apply_snapshot_path root base_seq stage_only t e prior (RootKind.other s) disk = (disk, ok [])

  -- the entries that were applied before are those of the first list
  abbrev pub apply_snapshot_entry :
      Root → ℕ → Bool → List Entry → SnapshotEntry → Disk → Disk × Result Failure (List Entry)
  apply_snapshot_entry root base_seq stage_only priors e disk =
      elim (resolve_snapshot_target root e.path e.kind) [
        | err why ↦ (disk, err why)
        | ok t ↦ apply_snapshot_path root base_seq stage_only t e (entry_at t.0 priors) e.kind disk
      ]

  abbrev pub appended :
      List Entry → Disk × Result Failure (List Entry) → Disk × Result Failure (List Entry)
  appended es (disk, err e) = (disk, err e)
  appended es (disk, ok later) = (disk, ok (es ++ later))

  unfoldable pub apply_snapshot_entries :
      Root → ℕ → Bool → List Entry → List SnapshotEntry → Disk → Disk × Result Failure (List Entry)
  apply_snapshot_entries root base_seq stage_only priors [] disk = (disk, ok [])
  apply_snapshot_entries root base_seq stage_only priors (e ∷ es) disk =
      let (disk', r) = apply_snapshot_entry root base_seq stage_only priors e disk in
      elim r [
        | err why ↦ (disk', err why)
        | ok entries ↦
            appended entries (apply_snapshot_entries root base_seq stage_only priors es disk')
      ]

  -- MaxSnapshotPlainSize
  abbrev pub max_snapshot_size : ℕ
  max_snapshot_size = 16_777_216

  -- the checks before the entries
  unfoldable pub open_snapshot : Root → String → ℕ → Result Failure SnapshotPayload
  open_snapshot root object_id base_seq = do
    sealed ← required (w.download object_id (encrypted_size max_snapshot_size))
    plain ← required (v.decrypt_snapshot root.root_id base_seq sealed)
    p ← required (v.parse_snapshot plain)
    fail_if (not (str_eq p.root_id root.root_id))
        (integrity "rejected snapshot with mismatched root_id")
    fail_if (not (p.base_seq == base_seq)) (integrity "rejected snapshot with mismatched base_seq")
    fail_if (not (same_kind p.kind root.kind))
        (integrity "rejected snapshot with mismatched root kind")
    t ←
        path_checked (integrity "rejected snapshot with invalid home_rel_path")
          (resolve_home_rel_target w.pkg w.home p.home_rel_path)
    fail_if (not (str_eq t.0 root.home_rel_path) || not (str_eq (w.root_id t.0) root.root_id))
        (integrity "rejected snapshot with invalid root binding")
    ok p

  abbrev pub entered :
      Root → StateDb → Disk × Result Failure (List Entry) → Disk × Result Failure StateDb
  entered root d (disk, err why) = (disk, err why)
  entered root d (disk, ok entries) = (disk, ok (replace_entries root.root_id entries d))

  unfoldable pub apply_snapshot :
      Root → String → ℕ → Bool → Disk → StateDb → Disk × Result Failure StateDb
  apply_snapshot root object_id base_seq stage_only disk d =
      elim (open_snapshot root object_id base_seq) [
        | err why ↦ (disk, err why)
        | ok p ↦ entered root d (
            apply_snapshot_entries root base_seq stage_only
              (if stage_only then [] else entries_for_root root.root_id d) p.entries disk)
      ]
