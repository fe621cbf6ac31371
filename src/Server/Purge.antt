-- ===== src/Server/Purge.antt =====
-- internal/server/db/purge.go: `WorkspacePurgeObjects` and `PurgeWorkspace`.
use mathlib.Core.List
use syna.Prelude.{
  ℕ, ◌+◌, String, str_eq, ◌==◌, Bool, not, ◌&&◌, Option, none, some, List, [], ◌∷◌, if◌then◌else◌,
}
use syna.Prelude.Result.{Result, ok, err}
use syna.Table.{find, any, count, select, delete}
use syna.Server.Schema.{
  Db, ObjectRow, EventRow, EventObjectRefRow, SnapshotRow, SnapshotObjectRefRow,
}
use syna.Server.Errors.{DbError, workspace_not_found}
use syna.Server.Objects.{is_workspace, is_object}

pub record PurgeObject : Type 0 where
  pub object_id : String
  pub size_bytes : ℕ

pub record PurgeResult : Type 0 where
  pub devices : ℕ
  pub sessions : ℕ
  pub roots : ℕ
  pub events : ℕ
  pub snapshots : ℕ
  pub objects : List PurgeObject

-- the rows of the JOIN for the associations of the workspace; ORDER BY is left out
purge_candidates : String → List String → Db → List PurgeObject
purge_candidates workspace_id [] d = []
purge_candidates workspace_id (object_id ∷ rest) d =
    let others = purge_candidates workspace_id rest d in
    if any (λ r. str_eq r.object_id object_id && not (str_eq r.workspace_id workspace_id))
      d.workspace_objects
    then others
    else elim (find (is_object object_id) d.objects) [
      | none ↦ others
      | some o ↦ record { object_id = object_id; size_bytes = o.size_bytes } ∷ others
    ]

unfoldable pub workspace_purge_objects : String → Db → List PurgeObject
unfolding purge_candidates
workspace_purge_objects workspace_id d =
    purge_candidates workspace_id
      (List.map (λ r. r.object_id)
        (select (λ r. str_eq r.workspace_id workspace_id) d.workspace_objects))
      d

abbrev pub in_events : List EventRow → EventObjectRefRow → Bool
in_events events r = any (λ e. e.seq == r.event_seq) events

-- the IN (SELECT …) of the deletion of snapshot references
abbrev pub only_snapshot_of : String → List SnapshotRow → SnapshotObjectRefRow → Bool
only_snapshot_of workspace_id snapshots r =
    any (λ s. str_eq s.workspace_id workspace_id && str_eq s.object_id r.snapshot_object_id)
      snapshots
    && not (
        any
          (λ s. str_eq s.object_id r.snapshot_object_id && not (str_eq s.workspace_id workspace_id))
          snapshots)

-- the DELETE statements of the transaction, up to that of the workspace itself
unfoldable pub purge_rows : String → Db → Db
purge_rows workspace_id d = record d {
  sessions = delete (λ r. str_eq r.workspace_id workspace_id) d.sessions;
  session_challenges = delete (λ r. str_eq r.workspace_id workspace_id) d.session_challenges;
  devices = delete (λ r. str_eq r.workspace_id workspace_id) d.devices;
  event_object_refs =
      delete (in_events (select (λ e. str_eq e.workspace_id workspace_id) d.events))
        d.event_object_refs;
  events = delete (λ r. str_eq r.workspace_id workspace_id) d.events;
  snapshot_object_refs = delete (only_snapshot_of workspace_id d.snapshots) d.snapshot_object_refs;
  snapshots = delete (λ r. str_eq r.workspace_id workspace_id) d.snapshots;
  path_heads = delete (λ r. str_eq r.workspace_id workspace_id) d.path_heads;
  roots = delete (λ r. str_eq r.workspace_id workspace_id) d.roots;
  workspace_objects = delete (λ r. str_eq r.workspace_id workspace_id) d.workspace_objects;
  workspaces = delete (is_workspace workspace_id) d.workspaces;
}

-- how many rows refer to an object
unfoldable pub reference_count : String → Db → ℕ
reference_count object_id d =
    count (λ r. str_eq r.object_id object_id) d.event_object_refs
    + count (λ s. str_eq s.object_id object_id) d.snapshots
    + count (λ r. str_eq r.object_id object_id) d.snapshot_object_refs

abbrev since : Option ℕ → ℕ → ℕ
since none now = now
since (some t) now = t

abbrev pub recounted : Db → ℕ → ObjectRow → ObjectRow
recounted d now o = record o {
  ref_count = reference_count o.object_id d;
  zero_ref_at = if reference_count o.object_id d == 0 then some (since o.zero_ref_at now) else none;
}

-- UPDATE objects, with no WHERE
unfoldable pub recount_objects : ℕ → Db → Db
recount_objects now d = record d { objects = List.map (recounted d now) d.objects }

abbrev pub is_unclaimed : String → Db → Bool
is_unclaimed object_id d =
    not (any (λ r. str_eq r.object_id object_id) d.workspace_objects)
    && not (any (λ r. str_eq r.object_id object_id) d.event_object_refs)
    && not (any (λ s. str_eq s.object_id object_id) d.snapshots)
    && not (any (λ r. str_eq r.object_id object_id) d.snapshot_object_refs)

-- the loop over the candidates, with those whose row was deleted
unfoldable pub delete_candidates : List PurgeObject → Db → Db × List PurgeObject
delete_candidates [] d = (d, [])
delete_candidates (c ∷ rest) d =
    let gone = is_unclaimed c.object_id d && any (is_object c.object_id) d.objects in
    let (d', deleted) =
      delete_candidates rest
        (if gone then record d { objects = delete (is_object c.object_id) d.objects } else d) in
    (d', if gone then c ∷ deleted else deleted)

unfoldable pub purge_workspace :
    String → List PurgeObject → ℕ → Db → Result DbError (Db × PurgeResult)
purge_workspace workspace_id candidates now d =
    if any (is_workspace workspace_id) d.workspaces
    then (let (d', deleted) =
          delete_candidates candidates (recount_objects now (purge_rows workspace_id d)) in
        ok (
          d',
          record {
            devices = count (λ r. str_eq r.workspace_id workspace_id) d.devices;
            sessions = count (λ r. str_eq r.workspace_id workspace_id) d.sessions;
            roots = count (λ r. str_eq r.workspace_id workspace_id) d.roots;
            events = count (λ r. str_eq r.workspace_id workspace_id) d.events;
            snapshots = count (λ r. str_eq r.workspace_id workspace_id) d.snapshots;
            objects = deleted;
          },
        ))
    else err workspace_not_found
