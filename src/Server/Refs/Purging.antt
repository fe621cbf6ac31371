-- ===== src/Server/Refs/Purging.antt =====
-- Reference counts under `PurgeWorkspace` (internal/server/db/purge.go), which counts anew.
use mathlib.Core.Path.{subst}
use syna.Prelude.{
  ℕ, String, str_eq, eq_iff, ◌≡◌, refl, ◌∙◌, ap, true, false, ◌&&◌, List, [], ◌∷◌, map, arith,
  if◌then◌else◌, Bool-cases, Option-cases, inl, inr,
}
use syna.Prelude.Result.{ok, ok-injective}
use syna.Table.{
  Unique-delete, Unique-map, find, any, delete, count-delete-le, count_zero, any-delete→any,
  any_mono, find-map, any-map, any-find, find_sound,
}
use syna.Server.Schema.{Db, ObjectRow}
use syna.Server.Objects.{is_object, is_workspace, is_association, object_visible_to_workspace}
use syna.Server.Purge.{
  PurgeObject, PurgeResult, reference_count, purge_rows, recount_objects, recounted, is_unclaimed,
  delete_candidates, purge_workspace,
}
use syna.Server.Refs.Counts.{IsCounted, stored_count, exists_object, same_object, same_snapshot}
use syna.Server.Refs.Pruning.{stored_count-delete, exists_object-delete}

purge_rows-IsCounted : (w : String) (d : Db) → IsCounted d → IsCounted (purge_rows w d)
unfolding purge_rows reference_count object_visible_to_workspace
purge_rows-IsCounted w d c = record {
  bounded = λ o. omega (
    arith,
    count-delete-le (λ r. str_eq r.object_id o) _ d.event_object_refs,
    count-delete-le (λ r. str_eq r.object_id o) _ d.snapshots,
    count-delete-le (λ r. str_eq r.object_id o) _ d.snapshot_object_refs,
    c.bounded o,
  );
  held = λ w' o h.
      c.held w' o
        (any-delete→any (is_association w' o) (λ r. str_eq r.workspace_id w) d.workspace_objects h);
  objects_unique = c.objects_unique;
  snapshots_unique =
      Unique-delete same_snapshot (λ r. str_eq r.workspace_id w) d.snapshots c.snapshots_unique;
}

-- After the recount the stored count of an object that has a row is exact.
stored_count-recounted :
    (o : String) (now : ℕ) (d : Db) (objects : List ObjectRow)
    → stored_count o (map (recounted d now) objects)
      ≡ (if exists_object o objects then reference_count o d else 0)
stored_count-recounted o now d objects =
    rw (find-map (is_object o) (recounted d now) (λ r. refl) objects) (
      rw (any-find (is_object o) objects) (elim (Option-cases (find (is_object o) objects)) [
        | inl e ↦ ground (arith, e)
        | inr (r, e) ↦
            let named : r.object_id ≡ o =
              (eq_iff r.object_id o).0 (find_sound (is_object o) objects e) in
            rw e (ap (λ x. reference_count x d) named)
      ]))

-- A visible object has a row, so what has no row has no reference.
recount_objects-IsCounted : (now : ℕ) (d : Db) → IsCounted d → IsCounted (recount_objects now d)
unfolding recount_objects reference_count object_visible_to_workspace
recount_objects-IsCounted now d c = record {
  bounded = λ o. ground (
    arith,
    stored_count-recounted o now d d.objects,
    any-find (is_object o) d.objects,
    c.bounded o,
  );
  held = λ w o h. any-map (is_object o) (recounted d now) (λ r. refl) d.objects ∙ c.held w o h;
  objects_unique =
      Unique-map same_object (recounted d now) (λ r s. refl) (λ r s. refl) d.objects
        c.objects_unique;
  snapshots_unique = c.snapshots_unique;
}

unclaimed_zero : (x : String) (d : Db) → is_unclaimed x d ≡ true → reference_count x d ≡ 0
unfolding reference_count
unclaimed_zero x d h = ground (
  arith,
  count_zero (λ r. str_eq r.object_id x) d.event_object_refs,
  count_zero (λ s. str_eq s.object_id x) d.snapshots,
  count_zero (λ r. str_eq r.object_id x) d.snapshot_object_refs,
)

unclaimed_unseen :
    (x w : String) (d : Db) → is_unclaimed x d ≡ true → object_visible_to_workspace w x d ≡ false
unfolding object_visible_to_workspace
unclaimed_unseen x w d h =
    any_mono (λ r. str_eq r.object_id x) (is_association w x) (λ r e. ground arith)
      d.workspace_objects (ground arith)

held-without_object :
    (x w o : String) (d : Db)
    → is_unclaimed x d ≡ true
    → IsCounted d
    → object_visible_to_workspace w o d ≡ true
    → exists_object o (delete (is_object x) d.objects) ≡ true
held-without_object x w o d free c h = elim (Bool-cases (str_eq x o)) [
  | inl same ↦
      let e : x ≡ o = (eq_iff x o).0 same in
      absurd (ground (arith, h, unclaimed_unseen x w d free, e))
  | inr other ↦ exists_object-delete x o d.objects other ∙ c.held w o h
]

without_object-IsCounted :
    (x : String) (d : Db)
    → is_unclaimed x d ≡ true
    → IsCounted d
    → IsCounted (record d { objects = delete (is_object x) d.objects })
unfolding reference_count object_visible_to_workspace
without_object-IsCounted x d free c = record {
  bounded = λ o.
      ground (
        arith,
        stored_count-delete x o d.objects,
        unclaimed_zero x d free,
        c.bounded o,
        eq_iff x o,
      );
  held = λ w o h. held-without_object x w o d free c h;
  objects_unique = Unique-delete same_object (is_object x) d.objects c.objects_unique;
  snapshots_unique = c.snapshots_unique;
}

delete_candidates-IsCounted :
    (candidates : List PurgeObject) (d : Db)
    → IsCounted d
    → IsCounted (delete_candidates candidates d).0
unfolding delete_candidates
delete_candidates-IsCounted [] d c = c
delete_candidates-IsCounted (x ∷ rest) d c =
    elim (Bool-cases (is_unclaimed x.object_id d && exists_object x.object_id d.objects)) [
      | inl gone ↦ rw gone (
          delete_candidates-IsCounted rest
            (record d { objects = delete (is_object x.object_id) d.objects })
            (without_object-IsCounted x.object_id d (ground (arith, gone)) c))
      | inr stays ↦ rw stays (delete_candidates-IsCounted rest d c)
    ]

-- A purge of any workspace, whatever the candidates, keeps the counts sound.
pub purge_workspace-IsCounted :
    (w : String) (candidates : List PurgeObject) (now : ℕ) (d : Db) {d' : Db} {r : PurgeResult}
    → purge_workspace w candidates now d ≡ ok (d', r)
    → IsCounted d
    → IsCounted d'
unfolding purge_workspace
purge_workspace-IsCounted w candidates now d {d'} {r} h c =
    elim (Bool-cases (any (is_workspace w) d.workspaces)) [
      | inl there ↦
          subst IsCounted (ap (λ (p : Db × PurgeResult). p.0) (ok-injective (rw there at h))) (
            delete_candidates-IsCounted candidates _
              (recount_objects-IsCounted now _ (purge_rows-IsCounted w d c)))
      | inr missing ↦ absurd (ground (arith, missing))
    ]
