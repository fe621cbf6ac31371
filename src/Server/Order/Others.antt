-- ===== src/Server/Order/Others.antt =====
-- The other operations keep the order of the log.
use mathlib.Core.Path.{subst}
use syna.Prelude.{
  ℕ, String, str_eq, ◌≡◌, refl, ◌∙◌, ap, Bool, false, ◌&&◌, List, [], ◌∷◌, is_some, arith,
  Bool-cases, Option-cases, inl, inr,
}
use syna.Prelude.Result.{ok, >>=-eq-ok, ok-injective}
use syna.Table.{Unique-delete, find, any, delete, any-find}
use syna.Protocol.{SnapshotSubmitRequest}
use syna.Server.Schema.{Db, Session}
use syna.Server.Objects.{
  record_object, associate_object_with_workspace, add_association, is_workspace, is_object,
}
use syna.Server.Workspaces.{new_workspace, create_workspace, ensure_workspace_within_limit}
use syna.Server.Snapshots.{
  is_snapshot, is_snapshot_ref, check_snapshot, write_snapshot, save_snapshot, insert_snapshot,
  point_root, add_snapshot_ref, add_snapshot_refs,
}
use syna.Server.Purge.{
  PurgeObject, PurgeResult, purge_rows, recount_objects, is_unclaimed, delete_candidates,
  purge_workspace,
}
use syna.Server.Order.Log.{IsOrdered, Descends-delete, same_workspace}
use syna.Server.Order.Submitted.{
  SameLog, SameLog-refl, SameLog-trans, SameLog-IsOrdered, recompute-IsOrdered,
}

add_snapshot_ref-SameLog :
    (snapshot x : String) (d : Db) → SameLog d (add_snapshot_ref snapshot x d)
unfolding add_snapshot_ref
add_snapshot_ref-SameLog snapshot x d =
    elim (Bool-cases (any (is_snapshot_ref snapshot x) d.snapshot_object_refs)) [
      | inl old ↦ rw old (SameLog-refl d)
      | inr new ↦ rw new (record { events = refl; last = refl; workspaces = refl })
    ]

add_snapshot_refs-SameLog :
    (snapshot : String) (refs : List String) (d : Db)
    → SameLog d (add_snapshot_refs snapshot refs d)
unfolding add_snapshot_refs
add_snapshot_refs-SameLog snapshot [] d = SameLog-refl d
add_snapshot_refs-SameLog snapshot (x ∷ rest) d =
    SameLog-trans (add_snapshot_ref-SameLog snapshot x d)
      (add_snapshot_refs-SameLog snapshot rest (add_snapshot_ref snapshot x d))

insert_snapshot-SameLog :
    (sess : Session) (req : SnapshotSubmitRequest) (base now : ℕ) (d : Db)
    → SameLog d (insert_snapshot sess req base now d)
unfolding insert_snapshot
insert_snapshot-SameLog sess req base now d =
    elim (Bool-cases (any (is_snapshot sess.workspace_id req.root_id req.object_id) d.snapshots)) [
      | inl old ↦ rw old (SameLog-refl d)
      | inr new ↦ rw new (record { events = refl; last = refl; workspaces = refl })
    ]

pub write_snapshot-SameLog :
    (sess : Session) (req : SnapshotSubmitRequest) (base now : ℕ) (d : Db)
    → SameLog d (write_snapshot sess req base now d)
unfolding write_snapshot point_root
write_snapshot-SameLog sess req base now d =
    let d1 = insert_snapshot sess req base now d in
    let d2 = point_root sess req base now d1 in
    let pointed : SameLog d1 d2 = record { events = refl; last = refl; workspaces = refl } in
    SameLog-trans (insert_snapshot-SameLog sess req base now d)
      (SameLog-trans pointed (add_snapshot_refs-SameLog req.object_id req.object_refs d2))

pub save_snapshot-IsOrdered :
    (sess : Session) (req : SnapshotSubmitRequest) (now : ℕ) (d : Db) {d' : Db}
    → save_snapshot sess req now d ≡ ok d'
    → IsOrdered d
    → IsOrdered d'
unfolding save_snapshot
save_snapshot-IsOrdered sess req now d h o =
    let (base, _, e) = >>=-eq-ok (check_snapshot sess req d) _ h in
    recompute-IsOrdered sess.workspace_id now _ e
      (SameLog-IsOrdered (write_snapshot-SameLog sess req base now d) o)

-- A purge deletes events and a workspace.
delete_candidates-SameLog :
    (candidates : List PurgeObject) (d : Db) → SameLog d (delete_candidates candidates d).0
unfolding delete_candidates
delete_candidates-SameLog [] d = SameLog-refl d
delete_candidates-SameLog (c ∷ rest) d =
    elim (Bool-cases (is_unclaimed c.object_id d && any (is_object c.object_id) d.objects)) [
      | inl gone ↦ rw gone (
          SameLog-trans (record { events = refl; last = refl; workspaces = refl })
            (delete_candidates-SameLog rest
              (record d { objects = delete (is_object c.object_id) d.objects })))
      | inr stays ↦ rw stays (delete_candidates-SameLog rest d)
    ]

purge_rows-IsOrdered : (w : String) (d : Db) → IsOrdered d → IsOrdered (purge_rows w d)
unfolding purge_rows
purge_rows-IsOrdered w d o = record {
  descending = Descends-delete _ (λ e. str_eq e.workspace_id w) d.events o.descending;
  workspaces_unique =
      Unique-delete same_workspace (is_workspace w) d.workspaces o.workspaces_unique;
}

pub purge_workspace-IsOrdered :
    (w : String) (candidates : List PurgeObject) (now : ℕ) (d : Db) {d' : Db} {r : PurgeResult}
    → purge_workspace w candidates now d ≡ ok (d', r)
    → IsOrdered d
    → IsOrdered d'
unfolding purge_workspace recount_objects
purge_workspace-IsOrdered w candidates now d {d'} {r} h o =
    elim (Bool-cases (any (is_workspace w) d.workspaces)) [
      | inl there ↦
          subst IsOrdered (ap (λ (p : Db × PurgeResult). p.0) (ok-injective (rw there at h))) (
            SameLog-IsOrdered
              (SameLog-trans (record { events = refl; last = refl; workspaces = refl })
                (delete_candidates-SameLog candidates (recount_objects now (purge_rows w d))))
              (purge_rows-IsOrdered w d o))
      | inr missing ↦ absurd (ground (arith, missing))
    ]

create_workspace-IsOrdered :
    (w key : String) (limit now : ℕ) (d : Db) {d' : Db} {created : Bool}
    → any (is_workspace w) d.workspaces ≡ false
    → create_workspace w key limit now d ≡ ok (d', created)
    → IsOrdered d
    → IsOrdered d'
unfolding create_workspace
create_workspace-IsOrdered w key limit now d {d'} {created} missing h o =
    let made = (record d { workspaces = new_workspace w key now ∷ d.workspaces }) in
    let e : made ≡ d' = ground arith in
    subst IsOrdered e
      (record { descending = o.descending; workspaces_unique = (missing, o.workspaces_unique) })

pub ensure_workspace-IsOrdered :
    (w key : String) (limit now : ℕ) (d : Db) {d' : Db} {created : Bool}
    → ensure_workspace_within_limit w key limit now d ≡ ok (d', created)
    → IsOrdered d
    → IsOrdered d'
unfolding ensure_workspace_within_limit
ensure_workspace-IsOrdered w key limit now d {d'} {created} h o =
    elim (Option-cases (find (is_workspace w) d.workspaces)) [
      | inl missing ↦
          create_workspace-IsOrdered w key limit now d
            (any-find (is_workspace w) d.workspaces ∙ ap is_some missing)
            (rw (missing, ensure_workspace_within_limit) at h) o
      | inr (row, there) ↦ let e : d ≡ d' = ground (arith, there) in subst IsOrdered e o
    ]

pub record_object-SameLog :
    (o kind : String) (size : ℕ) (path : String) (now : ℕ) (d : Db)
    → SameLog d (record_object o kind size path now d)
unfolding record_object
record_object-SameLog o kind size path now d = record {
  events = refl;
  last = refl;
  workspaces = refl;
}

pub associate-SameLog :
    (w o : String) (now : ℕ) (d : Db) {d' : Db}
    → associate_object_with_workspace w o now d ≡ ok d'
    → SameLog d d'
unfolding associate_object_with_workspace add_association
associate-SameLog w o now d h = record {
  events = ground arith;
  last = ground arith;
  workspaces = ground arith;
}
