-- ===== src/Server/Retention/Loops.antt =====
-- The loops of `Prune` (internal/server/db/maintenance.go) leave the window of a client at or above
-- the floors as it is.
use syna.Prelude.{
  ℕ, ◌≤◌, String, str_eq, eq_iff, ◌==◌, ◌≡◌, refl, ap, true, false, List, [], ◌∷◌, map, arith,
  Bool-cases, inl, inr, All,
}
use syna.Table.{select-delete_apart, select-delete_none}
use syna.Server.Schema.{Db, EventRow, EventObjectRefRow, SnapshotRow}
use syna.Server.Objects.{decrement_object_ref}
use syna.Server.Events.{in_window, event_refs}
use syna.Server.Maintenance.{
  prune_event, prune_events, prune_floors, prunable_seqs, is_prunable, prune_snapshot,
  prune_snapshots, delete_object, delete_objects, prune, snapshot_refs,
}
use syna.Server.Refs.{decrement_object_refs-eq}
use syna.Server.Order.{select_seqs, IsOrdered, prune_events-IsOrdered}
use syna.Server.Retention.Window.{
  Outside, SameWindow, SameWindow-refl, SameWindow-trans, Outside-SameWindow,
}

module _ (w : String) (after current : ℕ) where
  prune_event-SameWindow :
      (now seq : ℕ) (d : Db)
      → Outside w after current d seq
      → SameWindow w after current d (prune_event now seq d)
  unfolding prune_event event_refs
  prune_event-SameWindow now seq d outside =
      rw (decrement_object_refs-eq (event_refs seq d) now d) (record {
        rows = select-delete_none (in_window w after current) (λ e. e.seq == seq) d.events outside;
        refs = λ n there.
            let other : (n == seq) ≡ false = elim (Bool-cases (n == seq)) [
              | inl same ↦
                  let e : n ≡ seq = ground (arith, same) in
                  absurd (ground (arith, there, outside, e))
              | inr differ ↦ differ
            ] in
            ap (map (λ (r : EventObjectRefRow). r.object_id)) (
              select-delete_apart (λ (r : EventObjectRefRow). r.event_seq == n)
                (λ r. r.event_seq == seq) (λ r h. ground (arith, h, other)) d.event_object_refs);
      })

  Outside-mono :
      (seqs : List ℕ) (a b : Db)
      → SameWindow w after current a b
      → All (Outside w after current a) seqs
      → All (Outside w after current b) seqs
  Outside-mono [] a b s h = tt
  Outside-mono (seq ∷ rest) a b s h =
      (Outside-SameWindow w after current seq a b s h.0, Outside-mono rest a b s h.1)

  prune_events-SameWindow :
      (now : ℕ) (seqs : List ℕ) (d : Db)
      → All (Outside w after current d) seqs
      → SameWindow w after current d (prune_events now seqs d)
  unfolding prune_events
  prune_events-SameWindow now [] d h = SameWindow-refl w after current d
  prune_events-SameWindow now (seq ∷ rest) d h =
      let first = prune_event-SameWindow now seq d h.0 in
      SameWindow-trans w after current first (
        prune_events-SameWindow now rest (prune_event now seq d)
          (Outside-mono rest d (prune_event now seq d) first h.1))

  -- the floors of the workspace are at or below the cursor
  abbrev pub Below : List (String × ℕ) → Type 0
  Below = All (λ f. str_eq f.0 w ≡ true → f.1 ≤ after)

  -- Rows to prune lie outside of the window.
  prunable_outside :
      (now retention floor : ℕ) (id : String)
      → (str_eq id w ≡ true → floor ≤ after)
      → (e : EventRow) → in_window w after current e ≡ true
      → is_prunable now retention id floor e ≡ false
  prunable_outside now retention floor id low e h = elim (Bool-cases (str_eq id w)) [
    | inl same ↦ let bound = low same in ground (arith, bound)
    | inr other ↦
        ground (arith, other, eq_iff e.workspace_id w, eq_iff e.workspace_id id, eq_iff id w)
  ]

  prune_floors-SameWindow :
      (now retention : ℕ) (floors : List (String × ℕ)) (d : Db)
      → Below floors
      → IsOrdered d
      → SameWindow w after current d (prune_floors now retention floors d).0
  unfolding prune_floors prunable_seqs
  prune_floors-SameWindow now retention [] d low o = SameWindow-refl w after current d
  prune_floors-SameWindow now retention ((id, floor) ∷ rest) d low o =
      let seqs = prunable_seqs now retention id floor d in
      let first = prune_events-SameWindow now seqs d (
        select_seqs (in_window w after current) (is_prunable now retention id floor)
          (prunable_outside now retention floor id low.0) _ d.events d.events o.descending
          (λ r h. h)) in
      SameWindow-trans w after current first (
        prune_floors-SameWindow now retention rest (prune_events now seqs d) low.1
          (prune_events-IsOrdered now seqs d o))

  prune_snapshot-SameWindow :
      (now : ℕ) (s : SnapshotRow) (d : Db) → SameWindow w after current d (prune_snapshot now s d)
  unfolding prune_snapshot decrement_object_ref event_refs
  prune_snapshot-SameWindow now s d =
      rw
        (decrement_object_refs-eq (snapshot_refs s.object_id d) now
          (decrement_object_ref s.object_id now d))
        (record { rows = refl; refs = λ seq h. refl })

  prune_snapshots-SameWindow :
      (now : ℕ) (doomed : List SnapshotRow) (d : Db)
      → SameWindow w after current d (prune_snapshots now doomed d)
  unfolding prune_snapshots
  prune_snapshots-SameWindow now [] d = SameWindow-refl w after current d
  prune_snapshots-SameWindow now (s ∷ rest) d =
      SameWindow-trans w after current (prune_snapshot-SameWindow now s d)
        (prune_snapshots-SameWindow now rest (prune_snapshot now s d))

  delete_objects-SameWindow :
      (ids : List String) (d : Db) → SameWindow w after current d (delete_objects ids d)
  unfolding delete_objects delete_object event_refs
  delete_objects-SameWindow [] d = SameWindow-refl w after current d
  delete_objects-SameWindow (x ∷ rest) d =
      SameWindow-trans w after current (record { rows = refl; refs = λ seq h. refl })
        (delete_objects-SameWindow rest (delete_object x d))

  pub prune-SameWindow :
      (now event_retention zero_ref_retention : ℕ) (d : Db)
      → Below (map (λ r. (r.workspace_id, r.retained_floor_seq)) d.workspaces)
      → IsOrdered d
      → SameWindow w after current d (prune now event_retention zero_ref_retention d).0
  unfolding prune
  prune-SameWindow now event_retention zero_ref_retention d low o =
      SameWindow-trans w after current (prune_floors-SameWindow now event_retention _ d low o) (
        SameWindow-trans w after current (prune_snapshots-SameWindow now _ _)
          (delete_objects-SameWindow _ _))
