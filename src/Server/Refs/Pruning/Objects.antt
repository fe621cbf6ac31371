-- ===== src/Server/Refs/Pruning/Objects.antt =====
-- Reference counts while `Prune` deletes objects (internal/server/db/maintenance.go): a row goes
-- only where nothing refers to it.
use mathlib.Core.Path.{subst}
use syna.Prelude.{
  ℕ, String, str_eq, eq_iff, ◌==◌, ◌≡◌, refl, ◌∙◌, Bool, true, false, ◌&&◌, List, [], ◌∷◌, map,
  arith, if◌then◌else◌, All, Bool-cases, inl, inr,
}
use syna.Table.{
  Unique, Unique-delete, find, any, select, delete, any-delete_apart, find-delete_apart,
  find-delete_self, any-delete_self, any-delete→any,
}
use syna.Server.Schema.{Db, ObjectRow}
use syna.Server.Objects.{is_object, is_association, object_visible_to_workspace}
use syna.Server.Maintenance.{
  delete_object, delete_objects, garbage_ids, is_garbage, prune, prune_events_phase,
}
use syna.Server.Purge.{reference_count}
use syna.Server.Refs.Counts.{IsCounted, stored_count, exists_object, same_object}
use syna.Server.Refs.Pruning.Events.{prune_floors-IsCounted}
use syna.Server.Refs.Pruning.Snapshots.{prune_snapshots_phase-IsCounted}

-- the rows of other objects stay
pub stored_count-delete :
    (x o : String) (objects : List ObjectRow)
    → stored_count o (delete (is_object x) objects)
      ≡ (if str_eq x o then 0 else stored_count o objects)
stored_count-delete x o objects = elim (Bool-cases (str_eq x o)) [
  | inl same ↦ rw same (
      rw (
        find-delete_self (is_object o) (is_object x)
          (λ r h. ground (arith, eq_iff r.object_id x, eq_iff r.object_id o, eq_iff x o, same))
          objects))
  | inr other ↦ rw other (
      rw (
        find-delete_apart (is_object o) (is_object x)
          (λ r h. ground (arith, eq_iff r.object_id x, eq_iff r.object_id o, eq_iff x o, other))
          objects))
]

pub exists_object-delete :
    (x o : String) (objects : List ObjectRow)
    → str_eq x o ≡ false
    → exists_object o (delete (is_object x) objects) ≡ exists_object o objects
exists_object-delete x o objects other =
    any-delete_apart (is_object o) (is_object x)
      (λ r h. ground (arith, eq_iff r.object_id x, eq_iff r.object_id o, eq_iff x o, other)) objects

-- The cascade leaves no association of the deleted object, and the others have their row.
held-delete_object :
    (x w o : String) (d : Db)
    → IsCounted d
    → object_visible_to_workspace w o (delete_object x d) ≡ true
    → exists_object o (delete_object x d).objects ≡ true
unfolding delete_object object_visible_to_workspace
held-delete_object x w o d c h = elim (Bool-cases (str_eq x o)) [
  | inl same ↦
      let none_left =
        any-delete_self (is_association w o) (λ r. str_eq r.object_id x)
          (λ r e. ground (arith, eq_iff r.object_id x, eq_iff r.object_id o, eq_iff x o, same))
          d.workspace_objects in
      absurd (ground (arith, h, none_left))
  | inr other ↦
      exists_object-delete x o d.objects other
      ∙ c.held w o
          (any-delete→any (is_association w o) (λ r. str_eq r.object_id x) d.workspace_objects h)
]

delete_object-IsCounted :
    (x : String) (d : Db)
    → stored_count x d.objects ≡ 0
    → IsCounted d
    → IsCounted (delete_object x d)
unfolding delete_object reference_count
delete_object-IsCounted x d zero_count c = record {
  bounded =
      λ o. ground (arith, stored_count-delete x o d.objects, c.bounded o, eq_iff x o, zero_count);
  held = λ w o h. held-delete_object x w o d c h;
  objects_unique = Unique-delete same_object (is_object x) d.objects c.objects_unique;
  snapshots_unique = c.snapshots_unique;
}

-- no object of the list is counted
abbrev AllZero : List String → List ObjectRow → Type 0
AllZero ids objects = All (λ x. stored_count x objects ≡ 0) ids

AllZero-delete :
    (x : String) (ids : List String) (objects : List ObjectRow)
    → AllZero ids objects
    → AllZero ids (delete (is_object x) objects)
AllZero-delete x [] objects h = h
AllZero-delete x (o ∷ rest) objects h =
    (ground (arith, stored_count-delete x o objects, h.0), AllZero-delete x rest objects h.1)

objects-delete_object :
    (x : String) (d : Db) → (delete_object x d).objects ≡ delete (is_object x) d.objects
unfolding delete_object
objects-delete_object x d = refl

delete_objects-IsCounted :
    (ids : List String) (d : Db)
    → AllZero ids d.objects
    → IsCounted d
    → IsCounted (delete_objects ids d)
unfolding delete_objects
delete_objects-IsCounted [] d h c = c
delete_objects-IsCounted (x ∷ rest) d h c =
    delete_objects-IsCounted rest (delete_object x d)
      (rw (objects-delete_object x d) (AllZero-delete x rest d.objects h.1))
      (delete_object-IsCounted x d h.0 c)

-- a row of the object with the count 0
abbrev is_zero_row : String → ObjectRow → Bool
is_zero_row x r = is_object x r && r.ref_count == 0

any_zero→any :
    (x : String) (rs : List ObjectRow) → any (is_zero_row x) rs ≡ true → exists_object x rs ≡ true
unfolding any
any_zero→any x [] h = h
any_zero→any x (r ∷ rs) h = ground (arith, any_zero→any x rs)

-- Where keys are unique, a row with the count 0 is the row that counts.
stored_count_of_zero :
    (x : String) (rs : List ObjectRow)
    → Unique same_object rs
    → any (is_zero_row x) rs ≡ true
    → stored_count x rs ≡ 0
unfolding any find
stored_count_of_zero x [] u h = refl
stored_count_of_zero x (r ∷ rs) u h = elim (Bool-cases (is_object x r)) [
  | inl here ↦
      let e : r.object_id ≡ x = (eq_iff r.object_id x).0 here in
      let alone : exists_object x rs ≡ false = subst (λ y. exists_object y rs ≡ false) e u.0 in
      ground (arith, here, alone, any_zero→any x rs)
  | inr elsewhere ↦ ground (arith, elsewhere, stored_count_of_zero x rs u.1)
]

garbage-AllZero_onto :
    (now retention : ℕ) (rows objects : List ObjectRow)
    → Unique same_object objects
    → ((p : ObjectRow → Bool) → any p rows ≡ true → any p objects ≡ true)
    → AllZero (map (λ r. r.object_id) (select (is_garbage now retention) rows)) objects
unfolding select any
garbage-AllZero_onto now retention [] objects u within = tt
garbage-AllZero_onto now retention (r ∷ rows) objects u within =
    let rest =
      garbage-AllZero_onto now retention rows objects u (λ p h. within p (ground (arith, h))) in
    elim (Bool-cases (is_garbage now retention r)) [
      | inl hit ↦ rw hit (
        stored_count_of_zero r.object_id objects u (
            within (is_zero_row r.object_id)
              (ground (arith, hit, (eq_iff r.object_id r.object_id).1 refl))),
        rest,
      )
      | inr miss ↦ rw miss rest
    ]

garbage_ids-AllZero :
    (now retention : ℕ) (d : Db) → IsCounted d → AllZero (garbage_ids now retention d) d.objects
garbage_ids-AllZero now retention d c =
    garbage-AllZero_onto now retention d.objects d.objects c.objects_unique (λ p h. h)

-- Whatever the times and retentions, pruning keeps the counts sound.
pub prune-IsCounted :
    (now event_retention zero_ref_retention : ℕ) (d : Db)
    → IsCounted d
    → IsCounted (prune now event_retention zero_ref_retention d).0
unfolding prune
prune-IsCounted now event_retention zero_ref_retention d c =
    let d1 = (prune_events_phase now event_retention d).0 in
    let c1 = prune_floors-IsCounted now event_retention _ d c in
    let c2 = prune_snapshots_phase-IsCounted now event_retention d1 c1 in
    delete_objects-IsCounted _ _ (garbage_ids-AllZero now zero_ref_retention _ c2) c2
