-- ===== src/Server/Refs/Pruning/Snapshots.antt =====
-- Reference counts while `Prune` deletes snapshots (internal/server/db/maintenance.go).
use syna.Prelude.{
  ℕ, ◌+◌, ◌≤◌, String, str_eq, eq_iff, ◌≡◌, refl, ◌∙◌, Bool, true, false, List, [], ◌∷◌, arith,
  if◌then◌else◌, All, Bool-cases, inl, inr,
}
use syna.Table.{
  Unique, Unique-delete, Unique-select, any, count, select, update, delete, any-update,
  count-delete_split, count-map, count_pos_of_any, any-delete_apart,
}
use syna.Server.Schema.{Db, SnapshotRow, SnapshotObjectRefRow}
use syna.Server.Objects.{is_object, counted_down, decrement_object_ref, object_visible_to_workspace}
use syna.Server.Maintenance.{
  snapshot_refs, prune_snapshot, prune_snapshots, prunable_snapshots, is_prunable_snapshot,
}
use syna.Server.Purge.{reference_count}
use syna.Server.Refs.Counts.{IsCounted, same_snapshot, stored_count-down, Unique-counted_down}
use syna.Server.Refs.Pruning.Events.{
  decrement_object_refs-eq, stored_count-decremented, any-decremented, Unique-decremented,
}

-- The decrements for a snapshot's references are as many as the rows that its deletion takes.
snapshot_refs_counted :
    (o snapshot : String) (d : Db)
    → count (λ r. str_eq r.object_id o) d.snapshot_object_refs
      ≡ count
          (λ r. str_eq r.object_id o)
          (delete (λ r. str_eq r.snapshot_object_id snapshot) d.snapshot_object_refs)
        + count (λ x. str_eq x o) (snapshot_refs snapshot d)
unfolding snapshot_refs
snapshot_refs_counted o snapshot d =
    rw (count-map (λ x. str_eq x o) (λ (r : SnapshotObjectRefRow). r.object_id) _) (
      count-delete_split (λ r. str_eq r.object_id o) (λ r. str_eq r.snapshot_object_id snapshot)
        d.snapshot_object_refs)

-- The snapshot's own row goes, and counted its object.
snapshot_counted :
    (o : String) (s : SnapshotRow) (snapshots : List SnapshotRow)
    → any (same_snapshot s) snapshots ≡ true
    → count (λ r. str_eq r.object_id o) (delete (same_snapshot s) snapshots)
        + (if str_eq s.object_id o then 1 else 0)
      ≤ count (λ r. str_eq r.object_id o) snapshots
snapshot_counted o s snapshots there =
    let split = count-delete_split (λ r. str_eq r.object_id o) (same_snapshot s) snapshots in
    elim (Bool-cases (str_eq s.object_id o)) [
      | inl named ↦
          let taken =
            count_pos_of_any (λ (r : SnapshotRow). str_eq r.object_id o) (same_snapshot s)
              (λ r h. ground (arith, eq_iff r.object_id s.object_id, eq_iff s.object_id o, named))
              snapshots there in
          rw named (omega (arith, split, taken))
      | inr other ↦ rw other (omega (arith, split))
    ]

prune_snapshot-IsCounted :
    (now : ℕ) (s : SnapshotRow) (d : Db)
    → any (same_snapshot s) d.snapshots ≡ true
    → IsCounted d
    → IsCounted (prune_snapshot now s d)
unfolding prune_snapshot reference_count object_visible_to_workspace decrement_object_ref
    snapshot_refs
prune_snapshot-IsCounted now s d there c =
    let refs = snapshot_refs s.object_id d in
    let once = update (is_object s.object_id) (counted_down now) d.objects in
    rw (decrement_object_refs-eq refs now (record d { objects = once })) (record {
      bounded = λ o. ground (
        arith,
        stored_count-decremented refs o now once,
        stored_count-down s.object_id o now d.objects,
        snapshot_refs_counted o s.object_id d,
        snapshot_counted o s d.snapshots there,
        c.bounded o,
      );
      held = λ w o h.
          any-decremented refs o now once
          ∙ any-update (is_object o) (counted_down now) (λ r. refl) (is_object s.object_id)
              d.objects
          ∙ c.held w o h;
      objects_unique =
          Unique-decremented refs now once
            (Unique-counted_down s.object_id now d.objects c.objects_unique);
      snapshots_unique =
          Unique-delete same_snapshot (same_snapshot s) d.snapshots c.snapshots_unique;
    })

-- the snapshots of a list that are in a table
abbrev AllThere : List SnapshotRow → List SnapshotRow → Type 0
AllThere doomed snapshots = All (λ s. any (same_snapshot s) snapshots ≡ true) doomed

snapshots-prune_snapshot :
    (now : ℕ) (s : SnapshotRow) (d : Db)
    → (prune_snapshot now s d).snapshots ≡ delete (same_snapshot s) d.snapshots
unfolding prune_snapshot decrement_object_ref
snapshots-prune_snapshot now s d = rw (
    decrement_object_refs-eq (snapshot_refs s.object_id d) now
      (record d { objects = update (is_object s.object_id) (counted_down now) d.objects }))

-- Rows with another key are not deleted.
AllThere-delete :
    (s : SnapshotRow) (doomed snapshots : List SnapshotRow)
    → any (same_snapshot s) doomed ≡ false
    → AllThere doomed snapshots
    → AllThere doomed (delete (same_snapshot s) snapshots)
unfolding any
AllThere-delete s [] snapshots apart h = h
AllThere-delete s (t ∷ rest) snapshots apart h = (
  any-delete_apart (same_snapshot t) (same_snapshot s)
        (λ r e. ground (
          arith,
          eq_iff r.workspace_id t.workspace_id,
          eq_iff r.root_id t.root_id,
          eq_iff r.object_id t.object_id,
        ))
        snapshots
      ∙ h.0,
  AllThere-delete s rest snapshots (ground arith) h.1,
)

prune_snapshots-IsCounted :
    (now : ℕ) (doomed : List SnapshotRow) (d : Db)
    → Unique same_snapshot doomed
    → AllThere doomed d.snapshots
    → IsCounted d
    → IsCounted (prune_snapshots now doomed d)
unfolding prune_snapshots
prune_snapshots-IsCounted now [] d u h c = c
prune_snapshots-IsCounted now (s ∷ rest) d u h c =
    prune_snapshots-IsCounted now rest (prune_snapshot now s d) u.1
      (rw (snapshots-prune_snapshot now s d) (AllThere-delete s rest d.snapshots u.0 h.1))
      (prune_snapshot-IsCounted now s d h.0 c)

AllThere-select :
    (q : SnapshotRow → Bool) (rows snapshots : List SnapshotRow)
    → ((p : SnapshotRow → Bool) → any p rows ≡ true → any p snapshots ≡ true)
    → AllThere (select q rows) snapshots
unfolding select any
AllThere-select q [] snapshots within = tt
AllThere-select q (s ∷ rows) snapshots within =
    let rest = AllThere-select q rows snapshots (λ p h. within p (ground (arith, h))) in
    elim (Bool-cases (q s)) [
      | inl hit ↦ rw hit (
        within (same_snapshot s) (
            ground (
              arith,
              (eq_iff s.workspace_id s.workspace_id).1 refl,
              (eq_iff s.root_id s.root_id).1 refl,
              (eq_iff s.object_id s.object_id).1 refl,
            )),
        rest,
      )
      | inr miss ↦ rw miss rest
    ]

pub prune_snapshots_phase-IsCounted :
    (now retention : ℕ) (d : Db)
    → IsCounted d
    → IsCounted (prune_snapshots now (prunable_snapshots now retention d) d)
prune_snapshots_phase-IsCounted now retention d c =
    prune_snapshots-IsCounted now (prunable_snapshots now retention d) d
      (Unique-select same_snapshot (is_prunable_snapshot now retention d.roots) d.snapshots
        c.snapshots_unique)
      (AllThere-select (is_prunable_snapshot now retention d.roots) d.snapshots d.snapshots
        (λ p h. h))
      c
