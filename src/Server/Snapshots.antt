-- ===== src/Server/Snapshots.antt =====
-- internal/server/db/snapshots.go: `SaveSnapshot`.
use syna.Prelude.{
  ℕ, String, str_eq, ℤ, pos, negsuc, Bool, false, not, ◌&&◌, Option, none, some, List, [], ◌∷◌, ltb,
  if◌then◌else◌, is_some,
}
use syna.Prelude.Result.{Result, ok, err, ◌>>=◌, ◌>>◌, fail_if}
use syna.Table.{find, any, update}
use syna.Protocol.{SnapshotSubmitRequest}
use syna.Server.Schema.{Db, RootRow, SnapshotRow, SnapshotObjectRefRow, Session}
use syna.Server.Errors.{
  DbError, unknown_root, root_removed, snapshot_predates_root, stale_snapshot, snapshot_beyond_head,
  missing_snapshot_object, missing_snapshot_object_ref,
}
use syna.Server.Objects.{object_visible_to_workspace, increment_object_ref}
use syna.Server.Workspaces.{current_seq, recompute_retained_floor}
use syna.Server.Events.{is_root}

-- Is the base older than the latest snapshot of the root?
abbrev is_stale : ℕ → Option ℕ → Bool
is_stale base none = false
is_stale base (some latest) = ltb base latest

-- The tests on `req.BaseSeq`. Sequences in the table are natural numbers, so a negative base is
-- below `created_seq`.
unfoldable pub snapshot_base : ℤ → RootRow → Result DbError ℕ
snapshot_base (negsuc n) r = err snapshot_predates_root
snapshot_base (pos base) r = do
  fail_if (ltb base r.created_seq) snapshot_predates_root
  fail_if (is_stale base r.latest_snapshot_seq) stale_snapshot
  ok base

abbrev pub snapshot_root : ℤ → Option RootRow → Result DbError ℕ
snapshot_root base none = err unknown_root
snapshot_root base (some r) = do fail_if (is_some r.removed_seq) root_removed; snapshot_base base r

unfoldable pub check_snapshot_refs : String → List String → Db → Result DbError Unit
check_snapshot_refs workspace_id [] d = ok tt
check_snapshot_refs workspace_id (object_id ∷ rest) d =
    let others = check_snapshot_refs workspace_id rest d in
    if object_visible_to_workspace workspace_id object_id d
    then others
    else err (missing_snapshot_object_ref object_id)

-- every check of `SaveSnapshot`; the result is the base, now known to be a natural number
unfoldable pub check_snapshot : Session → SnapshotSubmitRequest → Db → Result DbError ℕ
check_snapshot sess req d = do
  base ← snapshot_root req.base_seq (find (is_root sess.workspace_id req.root_id) d.roots)
  head ← current_seq sess.workspace_id d
  fail_if (ltb head base) snapshot_beyond_head
  fail_if (not (object_visible_to_workspace sess.workspace_id req.object_id d))
      missing_snapshot_object
  check_snapshot_refs sess.workspace_id req.object_refs d
  ok base

abbrev pub is_snapshot : String → String → String → SnapshotRow → Bool
is_snapshot workspace_id root_id object_id s =
    str_eq s.workspace_id workspace_id && str_eq s.root_id root_id && str_eq s.object_id object_id

abbrev pub is_snapshot_ref : String → String → SnapshotObjectRefRow → Bool
is_snapshot_ref snapshot_object_id object_id r =
    str_eq r.snapshot_object_id snapshot_object_id && str_eq r.object_id object_id

unfoldable pub point_root : Session → SnapshotSubmitRequest → ℕ → ℕ → Db → Db
point_root sess req base now d = record d {
  roots =
      update (is_root sess.workspace_id req.root_id)
        (λ r. record r {
          latest_snapshot_object_id = some req.object_id;
          latest_snapshot_seq = some base;
          updated_at = now;
        })
        d.roots;
}

-- the row of `snapshots`, counted only if it is new
unfoldable pub insert_snapshot : Session → SnapshotSubmitRequest → ℕ → ℕ → Db → Db
unfolding increment_object_ref
insert_snapshot sess req base now d =
    if any (is_snapshot sess.workspace_id req.root_id req.object_id) d.snapshots
    then d
    else increment_object_ref req.object_id (record d {
      snapshots =
          record {
            workspace_id = sess.workspace_id;
            root_id = req.root_id;
            object_id = req.object_id;
            base_seq = base;
            author_device_id = sess.device_id;
            created_at = now;
          }
          ∷ d.snapshots;
    })

-- one row of `snapshot_object_refs`, counted only if it is new
unfoldable pub add_snapshot_ref : String → String → Db → Db
unfolding increment_object_ref
add_snapshot_ref snapshot_object_id object_id d =
    if any (is_snapshot_ref snapshot_object_id object_id) d.snapshot_object_refs
    then d
    else increment_object_ref object_id (record d {
      snapshot_object_refs =
          record { snapshot_object_id = snapshot_object_id; object_id = object_id }
          ∷ d.snapshot_object_refs;
    })

unfoldable pub add_snapshot_refs : String → List String → Db → Db
add_snapshot_refs snapshot_object_id [] d = d
add_snapshot_refs snapshot_object_id (object_id ∷ rest) d =
    add_snapshot_refs snapshot_object_id rest (add_snapshot_ref snapshot_object_id object_id d)

-- What the transaction writes. The Go code updates the root before it counts the reference.
unfoldable pub write_snapshot : Session → SnapshotSubmitRequest → ℕ → ℕ → Db → Db
write_snapshot sess req base now d =
    add_snapshot_refs req.object_id req.object_refs
      (point_root sess req base now (insert_snapshot sess req base now d))

unfoldable pub save_snapshot : Session → SnapshotSubmitRequest → ℕ → Db → Result DbError Db
save_snapshot sess req now d = do
  base ← check_snapshot sess req d
  recompute_retained_floor sess.workspace_id now (write_snapshot sess req base now d)
