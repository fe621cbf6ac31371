-- ===== src/Server/Refs/Pruning/Events.antt =====
-- Reference counts while `Prune` deletes events (internal/server/db/maintenance.go).
use syna.Prelude.{ℕ, ◌+◌, ◌-◌, String, str_eq, ◌==◌, ◌≡◌, refl, ◌∙◌, List, [], ◌∷◌, arith}
use syna.Table.{Unique, count, update, delete, any-update, count-delete_split, count-map}
use syna.Server.Schema.{Db, ObjectRow, EventObjectRefRow}
use syna.Server.Objects.{is_object, counted_down, decrement_object_ref, object_visible_to_workspace}
use syna.Server.Events.{event_refs}
use syna.Server.Maintenance.{
  decrement_object_refs, prune_event, prune_events, prune_floors, prunable_seqs,
}
use syna.Server.Purge.{reference_count}
use syna.Server.Refs.Counts.{
  IsCounted, stored_count, exists_object, same_object, stored_count-down, Unique-counted_down,
}

-- the objects after a list of decrements
pub decremented : List String → ℕ → List ObjectRow → List ObjectRow
decremented [] now objects = objects
decremented (x ∷ rest) now objects =
    decremented rest now (update (is_object x) (counted_down now) objects)

-- Decrements touch the table of objects alone.
pub decrement_object_refs-eq :
    (refs : List String) (now : ℕ) (d : Db)
    → decrement_object_refs refs now d ≡ record d { objects = decremented refs now d.objects }
unfolding decrement_object_refs decremented decrement_object_ref
decrement_object_refs-eq [] now d = refl
decrement_object_refs-eq (x ∷ rest) now d =
    decrement_object_refs-eq rest now (decrement_object_ref x now d)

pub stored_count-decremented :
    (refs : List String) (o : String) (now : ℕ) (objects : List ObjectRow)
    → stored_count o (decremented refs now objects)
      ≡ stored_count o objects - count (λ x. str_eq x o) refs
unfolding decremented count
stored_count-decremented [] o now objects = omega arith
stored_count-decremented (x ∷ rest) o now objects = ground (
  arith,
  stored_count-decremented rest o now (update (is_object x) (counted_down now) objects),
  stored_count-down x o now objects,
)

pub any-decremented :
    (refs : List String) (o : String) (now : ℕ) (objects : List ObjectRow)
    → exists_object o (decremented refs now objects) ≡ exists_object o objects
unfolding decremented
any-decremented [] o now objects = refl
any-decremented (x ∷ rest) o now objects =
    any-decremented rest o now (update (is_object x) (counted_down now) objects)
    ∙ any-update (is_object o) (counted_down now) (λ r. refl) (is_object x) objects

pub Unique-decremented :
    (refs : List String) (now : ℕ) (objects : List ObjectRow)
    → Unique same_object objects
    → Unique same_object (decremented refs now objects)
unfolding decremented
Unique-decremented [] now objects u = u
Unique-decremented (x ∷ rest) now objects u =
    Unique-decremented rest now (update (is_object x) (counted_down now) objects)
      (Unique-counted_down x now objects u)

-- The decrements for an event are as many as the rows that its deletion takes.
event_refs_counted :
    (o : String) (seq : ℕ) (d : Db)
    → count (λ r. str_eq r.object_id o) d.event_object_refs
      ≡ count (λ r. str_eq r.object_id o) (delete (λ r. r.event_seq == seq) d.event_object_refs)
        + count (λ x. str_eq x o) (event_refs seq d)
unfolding event_refs
event_refs_counted o seq d =
    rw (count-map (λ x. str_eq x o) (λ (r : EventObjectRefRow). r.object_id) _)
      (count-delete_split (λ r. str_eq r.object_id o) (λ r. r.event_seq == seq) d.event_object_refs)

prune_event-IsCounted : (now seq : ℕ) (d : Db) → IsCounted d → IsCounted (prune_event now seq d)
unfolding prune_event reference_count object_visible_to_workspace
prune_event-IsCounted now seq d c = rw (decrement_object_refs-eq (event_refs seq d) now d) (record {
  bounded = λ o. omega (
    arith,
    stored_count-decremented (event_refs seq d) o now d.objects,
    event_refs_counted o seq d,
    c.bounded o,
  );
  held = λ w o h. any-decremented (event_refs seq d) o now d.objects ∙ c.held w o h;
  objects_unique = Unique-decremented (event_refs seq d) now d.objects c.objects_unique;
  snapshots_unique = c.snapshots_unique;
})

prune_events-IsCounted :
    (now : ℕ) (seqs : List ℕ) (d : Db) → IsCounted d → IsCounted (prune_events now seqs d)
unfolding prune_events
prune_events-IsCounted now [] d c = c
prune_events-IsCounted now (seq ∷ rest) d c =
    prune_events-IsCounted now rest (prune_event now seq d) (prune_event-IsCounted now seq d c)

pub prune_floors-IsCounted :
    (now retention : ℕ) (floors : List (String × ℕ)) (d : Db)
    → IsCounted d
    → IsCounted (prune_floors now retention floors d).0
unfolding prune_floors
prune_floors-IsCounted now retention [] d c = c
prune_floors-IsCounted now retention ((w, floor) ∷ rest) d c =
    prune_floors-IsCounted now retention rest _
      (prune_events-IsCounted now (prunable_seqs now retention w floor d) d c)
