-- ===== src/Client/Daemon/Replayed.antt =====
-- An event that a device has applied is not applied again when it comes back as the device's own
-- (internal/client/daemon/daemon.go with internal/client/applier/applier.go).
use syna.Prelude.{
  ℕ, String, str_eq, eq_iff, ◌≡◌, refl, ap, ◌∙◌, Bool, true, ◌&&◌, some, List, [], ◌∷◌, map, arith,
  Bool-cases, inl, inr,
}
use syna.Prelude.Result.{ok, >>=-eq-ok}
use syna.Protocol.{
  EventRecord, EventType, root_add, root_remove, dir_put, file_put, delete, unknown,
}
use syna.Table.{any, find, select, update, upsert, find_sound}
use syna.Client.State.{
  StateDb, Root, Entry, EntryRow, root_by_id, entries_for_root, insert_entry, row_of_entry,
  entry_of_row, is_entry, is_local_root,
}
use syna.Client.World.{World}
use syna.Client.Applier.{
  DiskOp, IsIdempotent, apply_event, apply_plain, event_path_id, required, IsApplied,
  apply_event-IsApplied,
}
use syna.Client.Daemon.Events.{
  is_current, content_materialized, materialized_as, event_materialized_locally,
}

any-overwrite :
    (p q : EntryRow → Bool) (row : EntryRow) (rs : List EntryRow)
    → p row ≡ true
    → any q rs ≡ true
    → any p (update q (λ r. row) rs) ≡ true
unfolding update any
any-overwrite p q row [] own there = cc
any-overwrite p q row (r ∷ rs) own there = elim (Bool-cases (q r)) [
  | inl here ↦ rw here (ground (arith, own))
  | inr elsewhere ↦
      let rest = any-overwrite p q row rs own (ground (arith, elsewhere)) in
      rw elsewhere (ground (arith, rest))
]

-- a row that an upsert leaves
any-upsert :
    (p q : EntryRow → Bool) (row : EntryRow) (rows : List EntryRow)
    → p row ≡ true
    → any p (upsert q (λ r. row) row rows) ≡ true
unfolding upsert any
any-upsert p q row rows own = elim (Bool-cases (any q rows)) [
  | inl there ↦ rw there (any-overwrite p q row rows own there)
  | inr fresh ↦ rw fresh (ground (arith, own))
]

any-entries :
    (root : String) (p : Entry → Bool) (rows : List EntryRow)
    → any p (map entry_of_row (select (λ r. str_eq r.root_id root) rows))
      ≡ any (λ r. str_eq r.root_id root && p (entry_of_row r)) rows
unfolding any select
any-entries root p [] = refl
any-entries root p (r ∷ rows) = ground (arith, any-entries root p rows)

module _ (w : World) (like : String → String → Bool) where
  -- The entry that was written is found by its root, path id and sequence.
  any-insert_entry :
      (root path_id : String) (seq : ℕ) (e : Entry) (rows : List EntryRow)
      → e.root_id ≡ root
      → e.path_id ≡ path_id
      → e.current_seq ≡ seq
      → any
          (λ r. str_eq r.root_id root && is_current w like seq path_id (entry_of_row r))
          (insert_entry e rows)
        ≡ true
  unfolding insert_entry row_of_entry entry_of_row
  any-insert_entry root path_id seq e rows own_root own_path own_seq =
      any-upsert _ (is_entry e.root_id e.rel_path) (row_of_entry e) rows (
        ground (
          arith,
          (eq_iff e.root_id root).1 own_root,
          (eq_iff e.path_id path_id).1 own_path,
          own_seq,
        ))

  content_materialized-applied :
      (root : Root) (event : EventRecord) (d : StateDb) (path_id : String)
      {r : StateDb × List DiskOp}
      → IsApplied w root event d r
      → root.root_id ≡ event.root_id
      → event.path_id ≡ some path_id
      → content_materialized w like event (some root) (some path_id) r.0 ≡ true
  unfolding entries_for_root
  content_materialized-applied root event d path_id {r} applied same_root named =
      let there =
        any-entries event.root_id (is_current w like event.seq path_id) r.0.entries
        ∙ ap
            (any (λ x.
              str_eq x.root_id event.root_id
              && is_current w like event.seq path_id (entry_of_row x)))
            applied.written
        ∙ any-insert_entry event.root_id path_id event.seq applied.entry d.entries
            (applied.own_root ∙ same_root) (applied.own_path ∙ ap event_path_id named)
            applied.own_seq in
      ground (arith, there)

  typed-applied :
      (type : EventType) (root : Root) (event : EventRecord) (stage_only : Bool) (d : StateDb)
      (plain path_id : String) {r : StateDb × List DiskOp}
      → apply_plain w root event stage_only d plain type ≡ ok r
      → root_by_id event.root_id r.0 ≡ some root
      → event.path_id ≡ some path_id
      → content_materialized w like event (some root) (some path_id) r.0 ≡ true
      → materialized_as w like type event r.0 ≡ true
  typed-applied root_add root event stage_only d plain path_id h known named there = cc
  typed-applied root_remove root event stage_only d plain path_id h known named there = cc
  typed-applied (unknown x) root event stage_only d plain path_id h known named there = cc
  typed-applied dir_put root event stage_only d plain path_id h known named there =
      rw (known, named) there
  typed-applied file_put root event stage_only d plain path_id h known named there =
      rw (known, named) there
  typed-applied delete root event stage_only d plain path_id h known named there =
      rw (known, named) there

  -- Where cleaning a path twice is cleaning it once, an event of a path that was applied to its root
  -- counts as materialized in the database that the application has left.
  pub event_materialized_locally-apply_event :
      (root : Root) (event : EventRecord) (stage_only : Bool) (d : StateDb) (path_id : String)
      {r : StateDb × List DiskOp}
      → IsIdempotent w.pkg.clean
      → root_by_id event.root_id d ≡ some root
      → event.path_id ≡ some path_id
      → apply_event w root event stage_only d ≡ ok r
      → event_materialized_locally w like event r.0 ≡ true
  unfolding event_materialized_locally apply_event root_by_id
  event_materialized_locally-apply_event root event stage_only d path_id {r} idem known named h =
      let applied = apply_event-IsApplied w root event stage_only d idem h in
      let same_root =
        (eq_iff root.root_id event.root_id).0
          (find_sound (is_local_root event.root_id) d.roots known) in
      let (plain, opened, h1) =
        >>=-eq-ok
          (required (
            w.decrypt_event event.root_id (event_path_id event.path_id) event.event_type
              event.payload_blob))
          _ h in
      typed-applied event.event_type root event stage_only d plain path_id h1
        (ap (find (is_local_root event.root_id)) applied.same_roots ∙ known) named
        (content_materialized-applied root event d path_id applied same_root named)
