-- ===== src/Server/Refs/Snapshot.antt =====
-- Reference counts under `SaveSnapshot` (internal/server/db/snapshots.go).
use syna.Prelude.{
  ℕ, String, eq_iff, ◌≡◌, refl, ◌∙◌, true, not, List, [], ◌∷◌, arith, Bool-cases, inl, inr, ltb,
}
use syna.Server.Errors.{snapshot_beyond_head, missing_snapshot_object}
use syna.Prelude.Result.{fail_if-eq-ok, ok, >>=-eq-ok}
use syna.Table.{find, any, count}
use syna.Protocol.{SnapshotSubmitRequest}
use syna.Server.Schema.{Db, ObjectRow, Session}
use syna.Server.Objects.{object_visible_to_workspace}
use syna.Server.Workspaces.{current_seq}
use syna.Server.Snapshots.{
  snapshot_root, check_snapshot, check_snapshot_refs, is_snapshot, is_snapshot_ref, point_root,
  insert_snapshot, add_snapshot_ref, add_snapshot_refs, write_snapshot, save_snapshot,
}
use syna.Server.Events.{is_root}
use syna.Server.Purge.{reference_count}
use syna.Server.Refs.Counts.{
  SameCounts, SameCounts-IsCounted, IsCounted, exists_object, stored_count-up, any-counted_up,
  Unique-counted_up,
}
use syna.Server.Refs.Submit.{AllExist, recompute-IsCounted}

insert_snapshot-IsCounted :
    (sess : Session) (req : SnapshotSubmitRequest) (base now : ℕ) (d : Db)
    → exists_object req.object_id d.objects ≡ true
    → IsCounted d
    → IsCounted (insert_snapshot sess req base now d)
unfolding insert_snapshot reference_count object_visible_to_workspace count
insert_snapshot-IsCounted sess req base now d there c =
    elim (Bool-cases (any (is_snapshot sess.workspace_id req.root_id req.object_id) d.snapshots)) [
      | inl old ↦ rw old c
      | inr new ↦ rw new (record {
        bounded = λ o.
            ground (
              arith,
              stored_count-up req.object_id o d.objects,
              c.bounded o,
              eq_iff req.object_id o,
            );
        held = λ w o h. any-counted_up req.object_id o d.objects ∙ c.held w o h;
        objects_unique = Unique-counted_up req.object_id d.objects c.objects_unique;
        snapshots_unique = (new, c.snapshots_unique);
      })
    ]

add_snapshot_ref-IsCounted :
    (snapshot x : String) (d : Db)
    → exists_object x d.objects ≡ true
    → IsCounted d
    → IsCounted (add_snapshot_ref snapshot x d)
unfolding add_snapshot_ref reference_count object_visible_to_workspace count
add_snapshot_ref-IsCounted snapshot x d there c =
    elim (Bool-cases (any (is_snapshot_ref snapshot x) d.snapshot_object_refs)) [
      | inl old ↦ rw old c
      | inr new ↦ rw new (record {
        bounded = λ o. ground (arith, stored_count-up x o d.objects, c.bounded o, eq_iff x o);
        held = λ w o h. any-counted_up x o d.objects ∙ c.held w o h;
        objects_unique = Unique-counted_up x d.objects c.objects_unique;
        snapshots_unique = c.snapshots_unique;
      })
    ]

exists-add_snapshot_ref :
    (snapshot x o : String) (d : Db)
    → exists_object o (add_snapshot_ref snapshot x d).objects ≡ exists_object o d.objects
unfolding add_snapshot_ref
exists-add_snapshot_ref snapshot x o d = ground (arith, any-counted_up x o d.objects)

exists-insert_snapshot :
    (sess : Session) (req : SnapshotSubmitRequest) (base now : ℕ) (o : String) (d : Db)
    → exists_object o (insert_snapshot sess req base now d).objects ≡ exists_object o d.objects
unfolding insert_snapshot
exists-insert_snapshot sess req base now o d =
    ground (arith, any-counted_up req.object_id o d.objects)

-- Rows that exist go on existing where every row does.
pub AllExist-mono :
    (refs : List String) (a b : List ObjectRow)
    → ((o : String) → exists_object o b ≡ exists_object o a)
    → AllExist refs a
    → AllExist refs b
AllExist-mono [] a b same h = h
AllExist-mono (o ∷ refs) a b same h = (same o ∙ h.0, AllExist-mono refs a b same h.1)

add_snapshot_refs-IsCounted :
    (snapshot : String) (refs : List String) (d : Db)
    → AllExist refs d.objects
    → IsCounted d
    → IsCounted (add_snapshot_refs snapshot refs d)
unfolding add_snapshot_refs
add_snapshot_refs-IsCounted snapshot [] d h c = c
add_snapshot_refs-IsCounted snapshot (x ∷ refs) d h c =
    add_snapshot_refs-IsCounted snapshot refs (add_snapshot_ref snapshot x d)
      (AllExist-mono refs d.objects _ (λ o. exists-add_snapshot_ref snapshot x o d) h.1)
      (add_snapshot_ref-IsCounted snapshot x d h.0 c)

point_root-SameCounts :
    (sess : Session) (req : SnapshotSubmitRequest) (base now : ℕ) (d : Db)
    → SameCounts d (point_root sess req base now d)
unfolding point_root
point_root-SameCounts sess req base now d = record {
  events = refl;
  snapshots = refl;
  snapshot_refs = refl;
  objects = refl;
  associations = refl;
}

write_snapshot-IsCounted :
    (sess : Session) (req : SnapshotSubmitRequest) (base now : ℕ) (d : Db)
    → exists_object req.object_id d.objects ≡ true
    → AllExist req.object_refs d.objects
    → IsCounted d
    → IsCounted (write_snapshot sess req base now d)
unfolding write_snapshot
write_snapshot-IsCounted sess req base now d there refs c =
    let same = point_root-SameCounts sess req base now (insert_snapshot sess req base now d) in
    add_snapshot_refs-IsCounted req.object_id req.object_refs _
      (AllExist-mono req.object_refs d.objects _
        (λ o. rw (← same.objects) (exists-insert_snapshot sess req base now o d)) refs)
      (SameCounts-IsCounted same (insert_snapshot-IsCounted sess req base now d there c))

check_snapshot_refs-AllExist :
    (w : String) (refs : List String) (d : Db)
    → IsCounted d
    → check_snapshot_refs w refs d ≡ ok tt
    → AllExist refs d.objects
unfolding check_snapshot_refs
check_snapshot_refs-AllExist w [] d c h = tt
check_snapshot_refs-AllExist w (x ∷ refs) d c h =
    elim (Bool-cases (object_visible_to_workspace w x d)) [
      | inl seen ↦ (c.held w x seen, check_snapshot_refs-AllExist w refs d c (ground (arith, seen)))
      | inr unseen ↦ absurd (ground (arith, unseen))
    ]

-- What the checks of a snapshot establish about the objects it names.
check_snapshot-AllExist :
    (sess : Session) (req : SnapshotSubmitRequest) (d : Db) {base : ℕ}
    → check_snapshot sess req d ≡ ok base
    → IsCounted d
    → (exists_object req.object_id d.objects ≡ true) × AllExist req.object_refs d.objects
unfolding check_snapshot
check_snapshot-AllExist sess req d h c =
    let (base, _, h1) =
      >>=-eq-ok (snapshot_root req.base_seq (find (is_root sess.workspace_id req.root_id) d.roots))
        _ h in
    let (head, _, h2) = >>=-eq-ok (current_seq sess.workspace_id d) _ h1 in
    let (_, h3) = fail_if-eq-ok (ltb head base) snapshot_beyond_head _ h2 in
    let (seen, h4) =
      fail_if-eq-ok (not (object_visible_to_workspace sess.workspace_id req.object_id d))
        missing_snapshot_object _ h3 in
    let (_, refs, _) = >>=-eq-ok (check_snapshot_refs sess.workspace_id req.object_refs d) _ h4 in
    (
      c.held sess.workspace_id req.object_id (ground (arith, seen)),
      check_snapshot_refs-AllExist sess.workspace_id req.object_refs d c refs,
    )

-- An accepted snapshot keeps the counts sound.
pub save_snapshot-IsCounted :
    (sess : Session) (req : SnapshotSubmitRequest) (now : ℕ) (d : Db) {d' : Db}
    → save_snapshot sess req now d ≡ ok d'
    → IsCounted d
    → IsCounted d'
unfolding save_snapshot
save_snapshot-IsCounted sess req now d h c =
    let (base, checked, e) = >>=-eq-ok (check_snapshot sess req d) _ h in
    let (there, refs) = check_snapshot-AllExist sess req d checked c in
    recompute-IsCounted sess.workspace_id now _ e
      (write_snapshot-IsCounted sess req base now d there refs c)
