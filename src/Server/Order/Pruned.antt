-- ===== src/Server/Order/Pruned.antt =====
-- Pruning keeps the order of the log.
use syna.Prelude.{ℕ, String, ◌==◌, ◌≡◌, refl, sym, ◌∙◌, List, [], ◌∷◌}
use syna.Server.Schema.{Db, SnapshotRow}
use syna.Server.Objects.{decrement_object_ref}
use syna.Server.Events.{event_refs}
use syna.Server.Maintenance.{
  prune, prune_event, prune_events, prune_floors, prunable_seqs, prune_snapshot, prune_snapshots,
  delete_object, delete_objects, decrement_object_refs, snapshot_refs,
}
use syna.Server.Order.Log.{IsOrdered, Descends-delete}
use syna.Server.Order.Submitted.{SameLog, SameLog-refl, SameLog-trans, SameLog-IsOrdered}

pub decrement_object_refs-SameLog :
    (refs : List String) (now : ℕ) (d : Db) → SameLog d (decrement_object_refs refs now d)
unfolding decrement_object_refs decrement_object_ref
decrement_object_refs-SameLog [] now d = SameLog-refl d
decrement_object_refs-SameLog (x ∷ rest) now d =
    SameLog-trans (record { events = refl; last = refl; workspaces = refl })
      (decrement_object_refs-SameLog rest now (decrement_object_ref x now d))

prune_event-IsOrdered : (now seq : ℕ) (d : Db) → IsOrdered d → IsOrdered (prune_event now seq d)
unfolding prune_event
prune_event-IsOrdered now seq d o =
    let o' = SameLog-IsOrdered (decrement_object_refs-SameLog (event_refs seq d) now d) o in
    record {
      descending = Descends-delete _ (λ e. e.seq == seq) _ o'.descending;
      workspaces_unique = o'.workspaces_unique;
    }

pub prune_events-IsOrdered :
    (now : ℕ) (seqs : List ℕ) (d : Db) → IsOrdered d → IsOrdered (prune_events now seqs d)
unfolding prune_events
prune_events-IsOrdered now [] d o = o
prune_events-IsOrdered now (seq ∷ rest) d o =
    prune_events-IsOrdered now rest (prune_event now seq d) (prune_event-IsOrdered now seq d o)

prune_floors-IsOrdered :
    (now retention : ℕ) (floors : List (String × ℕ)) (d : Db)
    → IsOrdered d
    → IsOrdered (prune_floors now retention floors d).0
unfolding prune_floors
prune_floors-IsOrdered now retention [] d o = o
prune_floors-IsOrdered now retention ((w, floor) ∷ rest) d o =
    prune_floors-IsOrdered now retention rest _
      (prune_events-IsOrdered now (prunable_seqs now retention w floor d) d o)

prune_snapshot-SameLog : (now : ℕ) (s : SnapshotRow) (d : Db) → SameLog d (prune_snapshot now s d)
unfolding prune_snapshot decrement_object_ref
prune_snapshot-SameLog now s d =
    let d1 = decrement_object_ref s.object_id now d in
    let same = decrement_object_refs-SameLog (snapshot_refs s.object_id d) now d1 in
    record { events = same.events; last = same.last; workspaces = same.workspaces }

pub prune_snapshots-SameLog :
    (now : ℕ) (doomed : List SnapshotRow) (d : Db) → SameLog d (prune_snapshots now doomed d)
unfolding prune_snapshots
prune_snapshots-SameLog now [] d = SameLog-refl d
prune_snapshots-SameLog now (s ∷ rest) d =
    SameLog-trans (prune_snapshot-SameLog now s d)
      (prune_snapshots-SameLog now rest (prune_snapshot now s d))

pub delete_objects-SameLog : (ids : List String) (d : Db) → SameLog d (delete_objects ids d)
unfolding delete_objects delete_object
delete_objects-SameLog [] d = SameLog-refl d
delete_objects-SameLog (x ∷ rest) d =
    SameLog-trans (record { events = refl; last = refl; workspaces = refl })
      (delete_objects-SameLog rest (delete_object x d))

workspaces-prune_event : (now seq : ℕ) (d : Db) → (prune_event now seq d).workspaces ≡ d.workspaces
unfolding prune_event
workspaces-prune_event now seq d =
    sym (decrement_object_refs-SameLog (event_refs seq d) now d).workspaces

workspaces-prune_events :
    (now : ℕ) (seqs : List ℕ) (d : Db) → (prune_events now seqs d).workspaces ≡ d.workspaces
unfolding prune_events
workspaces-prune_events now [] d = refl
workspaces-prune_events now (seq ∷ rest) d =
    workspaces-prune_events now rest (prune_event now seq d) ∙ workspaces-prune_event now seq d

workspaces-prune_floors :
    (now retention : ℕ) (floors : List (String × ℕ)) (d : Db)
    → (prune_floors now retention floors d).0.workspaces ≡ d.workspaces
unfolding prune_floors
workspaces-prune_floors now retention [] d = refl
workspaces-prune_floors now retention ((w, floor) ∷ rest) d =
    let seqs = prunable_seqs now retention w floor d in
    workspaces-prune_floors now retention rest (prune_events now seqs d)
    ∙ workspaces-prune_events now seqs d

-- Pruning writes no workspace.
pub workspaces-prune :
    (now event_retention zero_ref_retention : ℕ) (d : Db)
    → (prune now event_retention zero_ref_retention d).0.workspaces ≡ d.workspaces
unfolding prune
workspaces-prune now event_retention zero_ref_retention d =
    sym (SameLog-trans (prune_snapshots-SameLog now _ _) (delete_objects-SameLog _ _)).workspaces
    ∙ workspaces-prune_floors now event_retention _ d

pub prune-IsOrdered :
    (now event_retention zero_ref_retention : ℕ) (d : Db)
    → IsOrdered d
    → IsOrdered (prune now event_retention zero_ref_retention d).0
unfolding prune
prune-IsOrdered now event_retention zero_ref_retention d o =
    SameLog-IsOrdered (delete_objects-SameLog _ _) (
      SameLog-IsOrdered (prune_snapshots-SameLog now _ _)
        (prune_floors-IsOrdered now event_retention _ d o))
