-- ===== src/Server/Refs/Submit.antt =====
-- Reference counts under `SubmitEvent` (internal/server/db/events.go).
use syna.Prelude.{
  ◌∙◌, ℕ, suc, String, str_eq, eq_iff, ◌≡◌, refl, true, List, [], ◌∷◌, arith, Bool-cases, inl, inr,
  All,
}
use mathlib.Core.Path.{subst}
use syna.Prelude.Result.{ok-injective, ok, >>=-eq-ok}
use syna.Table.{count-insert_or_ignore-le}
use syna.Protocol.{EventSubmitRequest, EventType, root_add, root_remove}
use syna.Server.Schema.{Db, ObjectRow, Session}
use syna.Server.Objects.{object_visible_to_workspace}
use syna.Server.Workspaces.{current_seq, set_floor, recompute_retained_floor}
use syna.Server.Events.{
  is_event_ref, add_event_ref, add_event_refs, check_object_refs, write_event, settle_floor,
  submit_event, insert_event, apply_effects, advance_workspace, SubmitResult,
}
use syna.Server.Purge.{reference_count}
use syna.Server.Accepted.{submit_event-Accepted}
use syna.Server.Refs.Counts.{
  SameCounts, SameCounts-IsCounted, IsCounted, exists_object, stored_count-up, any-counted_up,
  Unique-counted_up,
}

add_event_ref-IsCounted :
    (seq : ℕ) (x : String) (d : Db)
    → exists_object x d.objects ≡ true
    → IsCounted d
    → IsCounted (add_event_ref seq x d)
unfolding add_event_ref reference_count object_visible_to_workspace
add_event_ref-IsCounted seq x d there c = record {
  bounded = λ o. ground (
    arith,
    count-insert_or_ignore-le (λ r. str_eq r.object_id o) (is_event_ref seq x)
        (record { event_seq = seq; object_id = x }) d.event_object_refs,
    stored_count-up x o d.objects,
    c.bounded o,
    eq_iff x o,
  );
  held = λ w o h. any-counted_up x o d.objects ∙ c.held w o h;
  objects_unique = Unique-counted_up x d.objects c.objects_unique;
  snapshots_unique = c.snapshots_unique;
}

exists-add_event_ref :
    (seq : ℕ) (x o : String) (d : Db)
    → exists_object o (add_event_ref seq x d).objects ≡ exists_object o d.objects
unfolding add_event_ref
exists-add_event_ref seq x o d = any-counted_up x o d.objects

-- every object of a list has a row
abbrev pub AllExist : List String → List ObjectRow → Type 0
AllExist refs objects = All (λ x. exists_object x objects ≡ true) refs

AllExist-add_event_ref :
    (seq : ℕ) (x : String) (refs : List String) (d : Db)
    → AllExist refs d.objects
    → AllExist refs (add_event_ref seq x d).objects
AllExist-add_event_ref seq x [] d h = h
AllExist-add_event_ref seq x (o ∷ refs) d h =
    (exists-add_event_ref seq x o d ∙ h.0, AllExist-add_event_ref seq x refs d h.1)

add_event_refs-IsCounted :
    (seq : ℕ) (refs : List String) (d : Db)
    → AllExist refs d.objects
    → IsCounted d
    → IsCounted (add_event_refs seq refs d)
unfolding add_event_refs
add_event_refs-IsCounted seq [] d h c = c
add_event_refs-IsCounted seq (x ∷ refs) d h c =
    add_event_refs-IsCounted seq refs (add_event_ref seq x d)
      (AllExist-add_event_ref seq x refs d h.1) (add_event_ref-IsCounted seq x d h.0 c)

-- What passes the check of the references has a row.
check_object_refs-AllExist :
    (w : String) (refs : List String) (d : Db)
    → IsCounted d
    → check_object_refs w refs d ≡ ok tt
    → AllExist refs d.objects
unfolding check_object_refs
check_object_refs-AllExist w [] d c h = tt
check_object_refs-AllExist w (x ∷ refs) d c h =
    elim (Bool-cases (object_visible_to_workspace w x d)) [
      | inl seen ↦ (c.held w x seen, check_object_refs-AllExist w refs d c (ground (arith, seen)))
      | inr unseen ↦ absurd (ground (arith, unseen))
    ]

apply_effects-SameCounts :
    (sess : Session) (req : EventSubmitRequest) (t : EventType) (seq now : ℕ) (d : Db)
    → SameCounts d (apply_effects sess req t seq now (insert_event sess req now d))
unfolding apply_effects insert_event
apply_effects-SameCounts sess req root_add seq now d = record {
  events = refl;
  snapshots = refl;
  snapshot_refs = refl;
  objects = refl;
  associations = refl;
}
apply_effects-SameCounts sess req root_remove seq now d = record {
  events = refl;
  snapshots = refl;
  snapshot_refs = refl;
  objects = refl;
  associations = refl;
}
apply_effects-SameCounts sess req _ seq now d = record {
  events = refl;
  snapshots = refl;
  snapshot_refs = refl;
  objects = refl;
  associations = refl;
}

advance_workspace-SameCounts :
    (sess : Session) (seq now : ℕ) (d : Db) → SameCounts d (advance_workspace sess seq now d)
unfolding advance_workspace
advance_workspace-SameCounts sess seq now d = record {
  events = refl;
  snapshots = refl;
  snapshot_refs = refl;
  objects = refl;
  associations = refl;
}

pub write_event-IsCounted :
    (sess : Session) (req : EventSubmitRequest) (now : ℕ) (d : Db)
    → AllExist req.object_refs d.objects
    → IsCounted d
    → IsCounted (write_event sess req now d)
unfolding write_event
write_event-IsCounted sess req now d h c =
    let seq = suc d.last_event_seq in
    let same = apply_effects-SameCounts sess req req.event_type seq now d in
    SameCounts-IsCounted (advance_workspace-SameCounts sess seq now _) (
      add_event_refs-IsCounted seq req.object_refs _ (rw (← same.objects) h)
        (SameCounts-IsCounted same c))

set_floor-SameCounts :
    (w : String) (now floor : ℕ) (d : Db) → SameCounts d (set_floor w now floor d)
unfolding set_floor
set_floor-SameCounts w now floor d = record {
  events = refl;
  snapshots = refl;
  snapshot_refs = refl;
  objects = refl;
  associations = refl;
}

pub recompute-IsCounted :
    (w : String) (now : ℕ) (d : Db) {d' : Db}
    → recompute_retained_floor w now d ≡ ok d'
    → IsCounted d
    → IsCounted d'
unfolding recompute_retained_floor
recompute-IsCounted w now d {d'} h c =
    let (seq, _, e) = >>=-eq-ok (current_seq w d) _ h in
    subst IsCounted (ok-injective e) (SameCounts-IsCounted (set_floor-SameCounts w now _ d) c)

settle_floor-IsCounted :
    (t : EventType) (w : String) (now : ℕ) (d : Db) {d' : Db}
    → settle_floor t w now d ≡ ok d'
    → IsCounted d
    → IsCounted d'
unfolding settle_floor
settle_floor-IsCounted root_add w now d h c = recompute-IsCounted w now d h c
settle_floor-IsCounted root_remove w now d h c = recompute-IsCounted w now d h c
settle_floor-IsCounted _ w now d h c = subst IsCounted (ok-injective h) c

-- An accepted submission keeps the counts sound.
pub submit_event-IsCounted :
    (sess : Session) (req : EventSubmitRequest) (now : ℕ) (d : Db) {d' : Db} {r : SubmitResult}
    → submit_event sess req now d ≡ ok (d', r)
    → IsCounted d
    → IsCounted d'
submit_event-IsCounted sess req now d h c =
    let a = submit_event-Accepted sess req now d h in
    settle_floor-IsCounted req.event_type sess.workspace_id now _ a.settled (
      write_event-IsCounted sess req now d
        (check_object_refs-AllExist sess.workspace_id req.object_refs d c a.visible) c)
