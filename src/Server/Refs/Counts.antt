-- ===== src/Server/Refs/Counts.antt =====
-- internal/server/db/refs.go: how a stored count moves with the rows that it counts.
use syna.Prelude.{
  ℕ, ◌+◌, ◌-◌, ◌≤◌, String, str_eq, eq_iff, ◌≡◌, refl, Bool, true, ◌&&◌, Option, none, some, List,
  arith, if◌then◌else◌, Option-cases, inl, inr,
}
use syna.Table.{
  Unique, Unique-update, find, count, any, update, find-update, find_sound, any-find, any-update,
  any-update,
}
use syna.Server.Schema.{Db, empty, ObjectRow, SnapshotRow}
use syna.Server.Objects.{is_object, counted_up, counted_down, object_visible_to_workspace}
use syna.Server.Snapshots.{is_snapshot}
use syna.Server.Purge.{reference_count}

abbrev pub count_in : Option ObjectRow → ℕ
count_in none = 0
count_in (some r) = r.ref_count

-- the `ref_count` of an object, 0 where it has no row
abbrev pub stored_count : String → List ObjectRow → ℕ
stored_count object_id objects = count_in (find (is_object object_id) objects)

abbrev pub exists_object : String → List ObjectRow → Bool
exists_object object_id objects = any (is_object object_id) objects

-- the primary keys of `objects` and `snapshots`
abbrev pub same_object : ObjectRow → ObjectRow → Bool
same_object r s = is_object r.object_id s

abbrev pub same_snapshot : SnapshotRow → SnapshotRow → Bool
same_snapshot r s = is_snapshot r.workspace_id r.root_id r.object_id s

-- The stored count bounds the references, and what a workspace can see has a row.
pub record IsCounted (d : Db) : Type 0 where
  pub bounded : (o : String) → reference_count o d ≤ stored_count o d.objects
  pub held :
      (w o : String) → object_visible_to_workspace w o d ≡ true → exists_object o d.objects ≡ true
  pub objects_unique : Unique same_object d.objects
  pub snapshots_unique : Unique same_snapshot d.snapshots

pub stored_count-up :
    (x o : String) (objects : List ObjectRow)
    → stored_count o (update (is_object x) counted_up objects)
      ≡ stored_count o objects + (if str_eq x o && exists_object o objects then 1 else 0)
stored_count-up x o objects =
    rw (find-update (is_object o) counted_up (λ r. refl) (is_object x) objects) (
      rw (any-find (is_object o) objects) (elim (Option-cases (find (is_object o) objects)) [
        | inl e ↦ ground (arith, e)
        | inr (r, e) ↦ ground (
          arith,
          e,
          find_sound (is_object o) objects e,
          eq_iff r.object_id o,
          eq_iff r.object_id x,
          eq_iff x o,
        )
      ]))

pub stored_count-down :
    (x o : String) (now : ℕ) (objects : List ObjectRow)
    → stored_count o (update (is_object x) (counted_down now) objects)
      ≡ stored_count o objects - (if str_eq x o then 1 else 0)
stored_count-down x o now objects =
    rw (find-update (is_object o) (counted_down now) (λ r. refl) (is_object x) objects)
      (elim (Option-cases (find (is_object o) objects)) [
        | inl e ↦ ground (arith, e)
        | inr (r, e) ↦ ground (
          arith,
          e,
          find_sound (is_object o) objects e,
          eq_iff r.object_id o,
          eq_iff r.object_id x,
          eq_iff x o,
        )
      ])

pub Unique-counted_up :
    (x : String) (objects : List ObjectRow)
    → Unique same_object objects
    → Unique same_object (update (is_object x) counted_up objects)
Unique-counted_up x objects u =
    Unique-update same_object counted_up (λ r s. refl) (λ r s. refl) (is_object x) objects u

pub Unique-counted_down :
    (x : String) (now : ℕ) (objects : List ObjectRow)
    → Unique same_object objects
    → Unique same_object (update (is_object x) (counted_down now) objects)
Unique-counted_down x now objects u =
    Unique-update same_object (counted_down now) (λ r s. refl) (λ r s. refl) (is_object x) objects u

-- An increment keeps the rows' existence.
pub any-counted_up :
    (x o : String) (objects : List ObjectRow)
    → exists_object o (update (is_object x) counted_up objects) ≡ exists_object o objects
any-counted_up x o objects = any-update (is_object o) counted_up (λ r. refl) (is_object x) objects

-- The tables that counts depend on.
pub record SameCounts (a b : Db) : Type 0 where
  pub events : a.event_object_refs ≡ b.event_object_refs
  pub snapshots : a.snapshots ≡ b.snapshots
  pub snapshot_refs : a.snapshot_object_refs ≡ b.snapshot_object_refs
  pub objects : a.objects ≡ b.objects
  pub associations : a.workspace_objects ≡ b.workspace_objects

pub SameCounts-IsCounted : {a b : Db} → SameCounts a b → IsCounted a → IsCounted b
unfolding reference_count object_visible_to_workspace
SameCounts-IsCounted s c = record {
  bounded = λ o. ground (arith, c.bounded o, s.events, s.snapshots, s.snapshot_refs, s.objects);
  held = λ w o h. rw (← s.objects) (c.held w o (rw s.associations h));
  objects_unique = rw (← s.objects) c.objects_unique;
  snapshots_unique = rw (← s.snapshots) c.snapshots_unique;
}

pub IsCounted-empty : IsCounted empty
unfolding reference_count object_visible_to_workspace count any find
IsCounted-empty = record {
  bounded = λ o. omega arith;
  held = λ w o h. cc;
  objects_unique = tt;
  snapshots_unique = tt;
}
