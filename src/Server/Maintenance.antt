-- ===== src/Server/Maintenance.antt =====
-- internal/server/db/maintenance.go: `Prune`. An age test `t <= now - retention` is written
-- `t + retention <= now`.
use syna.Prelude.{
  ℕ, ◌+◌, String, str_eq, ◌==◌, Bool, true, false, not, ◌&&◌, ◌||◌, Option, none, some, List, [],
  ◌∷◌, map, leb, length, is_some,
}
use syna.Table.{find, select, delete}
use syna.Server.Schema.{Db, RootRow, EventRow, SnapshotRow, ObjectRow}
use syna.Server.Objects.{decrement_object_ref, is_object}
use syna.Server.Events.{is_root, event_refs}
use syna.Server.Snapshots.{is_snapshot}

unfoldable pub decrement_object_refs : List String → ℕ → Db → Db
decrement_object_refs [] now d = d
decrement_object_refs (object_id ∷ rest) now d =
    decrement_object_refs rest now (decrement_object_ref object_id now d)

-- the body of the loop over the events to delete
unfoldable pub prune_event : ℕ → ℕ → Db → Db
prune_event now seq d =
    let d' = decrement_object_refs (event_refs seq d) now d in
    record d' {
      event_object_refs = delete (λ r. r.event_seq == seq) d'.event_object_refs;
      events = delete (λ e. e.seq == seq) d'.events;
    }

unfoldable pub prune_events : ℕ → List ℕ → Db → Db
prune_events now [] d = d
prune_events now (seq ∷ rest) d = prune_events now rest (prune_event now seq d)

abbrev pub is_prunable : ℕ → ℕ → String → ℕ → EventRow → Bool
is_prunable now retention workspace_id floor e =
    str_eq e.workspace_id workspace_id && leb e.seq floor && leb (e.created_at + retention) now

unfoldable pub prunable_seqs : ℕ → ℕ → String → ℕ → Db → List ℕ
prunable_seqs now retention workspace_id floor d =
    map (λ e. e.seq) (select (is_prunable now retention workspace_id floor) d.events)

-- the loop over the workspaces and their floors, with the count of deleted events
unfoldable pub prune_floors : ℕ → ℕ → List (String × ℕ) → Db → Db × ℕ
prune_floors now retention [] d = (d, 0)
prune_floors now retention ((workspace_id, floor) ∷ rest) d =
    let seqs = prunable_seqs now retention workspace_id floor d in
    let (d', deleted) = prune_floors now retention rest (prune_events now seqs d) in
    (d', length seqs + deleted)

-- the condition on the root that the LEFT JOIN finds
abbrev pub is_superseded : String → Option RootRow → Bool
is_superseded object_id none = true
is_superseded object_id (some r) =
    is_some r.removed_seq
    || elim r.latest_snapshot_object_id [ none ↦ false | some o ↦ not (str_eq object_id o) ]

abbrev pub is_prunable_snapshot : ℕ → ℕ → List RootRow → SnapshotRow → Bool
is_prunable_snapshot now retention roots s =
    leb (s.created_at + retention) now
    && is_superseded s.object_id (find (is_root s.workspace_id s.root_id) roots)

unfoldable pub snapshot_refs : String → Db → List String
snapshot_refs snapshot_object_id d =
    map (λ r. r.object_id)
      (select (λ r. str_eq r.snapshot_object_id snapshot_object_id) d.snapshot_object_refs)

-- the body of the loop over the snapshots to delete
unfoldable pub prune_snapshot : ℕ → SnapshotRow → Db → Db
prune_snapshot now s d =
    let d' =
      decrement_object_refs (snapshot_refs s.object_id d) now
        (decrement_object_ref s.object_id now d) in
    record d' {
      snapshot_object_refs =
          delete (λ r. str_eq r.snapshot_object_id s.object_id) d'.snapshot_object_refs;
      snapshots = delete (is_snapshot s.workspace_id s.root_id s.object_id) d'.snapshots;
    }

unfoldable pub prune_snapshots : ℕ → List SnapshotRow → Db → Db
prune_snapshots now [] d = d
prune_snapshots now (s ∷ rest) d = prune_snapshots now rest (prune_snapshot now s d)

abbrev coalesce : Option ℕ → ℕ → ℕ
coalesce none t = t
coalesce (some s) t = s

abbrev pub is_garbage : ℕ → ℕ → ObjectRow → Bool
is_garbage now retention o =
    o.ref_count == 0 && leb (coalesce o.zero_ref_at o.created_at + retention) now

-- ON DELETE CASCADE takes the associations of the object along.
unfoldable pub delete_object : String → Db → Db
delete_object object_id d = record d {
  objects = delete (is_object object_id) d.objects;
  workspace_objects = delete (λ r. str_eq r.object_id object_id) d.workspace_objects;
}

unfoldable pub delete_objects : List String → Db → Db
delete_objects [] d = d
delete_objects (object_id ∷ rest) d = delete_objects rest (delete_object object_id d)

pub record PruneResult : Type 0 where
  pub deleted_events : ℕ
  pub deleted_snapshots : ℕ
  pub object_ids : List String

abbrev pub prune_events_phase : ℕ → ℕ → Db → Db × ℕ
prune_events_phase now retention d =
    prune_floors now retention (map (λ w. (w.workspace_id, w.retained_floor_seq)) d.workspaces) d

abbrev pub prunable_snapshots : ℕ → ℕ → Db → List SnapshotRow
prunable_snapshots now retention d = select (is_prunable_snapshot now retention d.roots) d.snapshots

abbrev pub garbage_ids : ℕ → ℕ → Db → List String
garbage_ids now retention d = map (λ o. o.object_id) (select (is_garbage now retention) d.objects)

unfoldable pub prune : ℕ → ℕ → ℕ → Db → Db × PruneResult
prune now event_retention zero_ref_retention d =
    let (d1, deleted_events) = prune_events_phase now event_retention d in
    let doomed = prunable_snapshots now event_retention d1 in
    let d2 = prune_snapshots now doomed d1 in
    let object_ids = garbage_ids now zero_ref_retention d2 in
    (
      delete_objects object_ids d2,
      record {
        deleted_events = deleted_events;
        deleted_snapshots = length doomed;
        object_ids = object_ids;
      },
    )
