-- ===== src/Server/Refs/Uploads.antt =====
-- Reference counts under uploads and associations (internal/server/objectstore/store.go and
-- internal/server/db/objects.go).
use syna.Prelude.{
  ℕ, String, eq_iff, ◌≡◌, refl, Bool, true, ◌&&◌, List, ◌∷◌, arith, Bool-cases, Option-cases, inl,
  inr,
}
use mathlib.Core.Path.{subst}
use syna.Prelude.Result.{ok, ok-injective}
use syna.Table.{
  Unique, Unique-update, find, any, update, upsert, insert_or_ignore, find-update, any-find,
  any-update,
}
use syna.Server.Schema.{Db, ObjectRow}
use syna.Server.Objects.{
  is_object, is_workspace, object_visible_to_workspace, record_object, uploaded_row,
  add_association, associate_object_with_workspace,
}
use syna.Server.Purge.{reference_count}
use syna.Server.Workspaces.{new_workspace, create_workspace, ensure_workspace_within_limit}
use syna.Server.Refs.Counts.{
  SameCounts-IsCounted, IsCounted, stored_count, exists_object, same_object,
}

abbrev accessed : ℕ → ObjectRow → ObjectRow
accessed now r = record r { last_accessed_at = now }

stored_count-accessed :
    (x o : String) (now : ℕ) (objects : List ObjectRow)
    → stored_count o (update (is_object x) (accessed now) objects) ≡ stored_count o objects
stored_count-accessed x o now objects =
    rw (find-update (is_object o) (accessed now) (λ r. refl) (is_object x) objects)
      (elim (Option-cases (find (is_object o) objects)) [
        | inl e ↦ ground (arith, e)
        | inr (r, e) ↦ ground (arith, e)
      ])

stored_count-upload :
    (o : String) (now : ℕ) (row : ObjectRow) (objects : List ObjectRow)
    → row.ref_count ≡ 0
    → stored_count o (upsert (is_object row.object_id) (accessed now) row objects)
      ≡ stored_count o objects
unfolding upsert find
stored_count-upload o now row objects zero_count = ground (
  arith,
  stored_count-accessed row.object_id o now objects,
  any-find (is_object o) objects,
  eq_iff row.object_id o,
)

exists-upload :
    (o : String) (now : ℕ) (row : ObjectRow) (objects : List ObjectRow)
    → exists_object o objects ≡ true
    → exists_object o (upsert (is_object row.object_id) (accessed now) row objects) ≡ true
unfolding upsert any
exists-upload o now row objects h =
    ground
      (arith, any-update (is_object o) (accessed now) (λ r. refl) (is_object row.object_id) objects)

Unique-upload :
    (now : ℕ) (row : ObjectRow) (objects : List ObjectRow)
    → Unique same_object objects
    → Unique same_object (upsert (is_object row.object_id) (accessed now) row objects)
unfolding upsert
Unique-upload now row objects u = elim (Bool-cases (exists_object row.object_id objects)) [
  | inl there ↦ rw there (
      Unique-update same_object (accessed now) (λ r s. refl) (λ r s. refl) (is_object row.object_id)
        objects u)
  | inr missing ↦ rw missing (missing, u)
]

-- A recorded upload keeps the counts sound.
pub record_object-IsCounted :
    (o kind : String) (size : ℕ) (path : String) (now : ℕ) (d : Db)
    → IsCounted d
    → IsCounted (record_object o kind size path now d)
unfolding record_object reference_count object_visible_to_workspace
record_object-IsCounted o kind size path now d c = record {
  bounded = λ x.
      rw (stored_count-upload x now (uploaded_row o kind size path now) d.objects refl)
        (c.bounded x);
  held = λ w x h. exists-upload x now (uploaded_row o kind size path now) d.objects (c.held w x h);
  objects_unique = Unique-upload now (uploaded_row o kind size path now) d.objects c.objects_unique;
  snapshots_unique = c.snapshots_unique;
}

add_association-IsCounted :
    (w o : String) (now : ℕ) (d : Db)
    → exists_object o d.objects ≡ true
    → IsCounted d
    → IsCounted (add_association w o now d)
unfolding add_association reference_count object_visible_to_workspace insert_or_ignore any
add_association-IsCounted w o now d there c = record {
  bounded = c.bounded;
  held = λ w' o' h. ground (arith, c.held w' o', eq_iff w w', eq_iff o o');
  objects_unique = c.objects_unique;
  snapshots_unique = c.snapshots_unique;
}

-- An association keeps the counts sound.
pub associate-IsCounted :
    (w o : String) (now : ℕ) (d : Db) {d' : Db}
    → associate_object_with_workspace w o now d ≡ ok d'
    → IsCounted d
    → IsCounted d'
unfolding associate_object_with_workspace
associate-IsCounted w o now d {d'} h c =
    elim (Bool-cases (any (is_workspace w) d.workspaces && exists_object o d.objects)) [
      | inl both ↦
          subst IsCounted (ok-injective (rw both at h))
            (add_association-IsCounted w o now d (ground (arith, both)) c)
      | inr lacking ↦ elim (Bool-cases (object_visible_to_workspace w o d)) [
        | inl seen ↦ subst IsCounted (ok-injective (rw (lacking, seen) at h)) c
        | inr unseen ↦ absurd (ground (arith, lacking, unseen))
      ]
    ]

create_workspace-IsCounted :
    (w key : String) (limit now : ℕ) (d : Db) {d' : Db} {created : Bool}
    → create_workspace w key limit now d ≡ ok (d', created)
    → IsCounted d
    → IsCounted d'
unfolding create_workspace
create_workspace-IsCounted w key limit now d {d'} {created} h c =
    let made = (record d { workspaces = new_workspace w key now ∷ d.workspaces }) in
    let e : made ≡ d' = ground arith in
    subst IsCounted e (
      SameCounts-IsCounted
        (record {
          events = refl;
          snapshots = refl;
          snapshot_refs = refl;
          objects = refl;
          associations = refl;
        })
        c)

-- A workspace is created, or found, without a count.
pub ensure_workspace-IsCounted :
    (w key : String) (limit now : ℕ) (d : Db) {d' : Db} {created : Bool}
    → ensure_workspace_within_limit w key limit now d ≡ ok (d', created)
    → IsCounted d
    → IsCounted d'
unfolding ensure_workspace_within_limit
ensure_workspace-IsCounted w key limit now d {d'} {created} h c =
    elim (Option-cases (find (is_workspace w) d.workspaces)) [
      | inl missing ↦
          create_workspace-IsCounted w key limit now d
            (rw (missing, ensure_workspace_within_limit) at h) c
      | inr (row, there) ↦ let e : d ≡ d' = ground (arith, there) in subst IsCounted e c
    ]
