-- ===== src/Client/State/Mapped.antt =====
-- The table `entries` of internal/client/state/db.go against what it stands for: a map from a root
-- and a path in it to an entry.
use mathlib.Core.Option
use syna.Prelude.{
  String, str_eq, eq_iff, ◌≡◌, refl, sym, ◌∙◌, ap, Bool, true, false, ◌&&◌, Option, none, some,
  List, [], ◌∷◌, map, arith, Bool-cases, inl, inr, if◌then◌else◌,
}
use syna.Table.{
  find, select, delete, find-delete_self, find-delete_apart, find-upsert_own, find-upsert_apart,
}
use syna.Client.State.Schema.{StateDb, Entry, EntryRow}
use syna.Client.State.Entries.{
  is_entry, row_of_entry, entry_of_row, insert_entry, upsert_entry, marked_deleted,
  mark_entry_deleted, delete_entry, insert_entries, replace_entries, entries_for_root, entry_at,
}
use syna.Client.State.Roots.{delete_root_state}
use syna.Client.State.RoundTrip.{entry_of_row-row_of_entry}

abbrev pub EntryMap : Type 0
EntryMap = String → String → Option Entry

-- what the map says of the entry's place
abbrev pub is_place : String → String → String → String → Bool
is_place root path root_id rel_path = str_eq root root_id && str_eq path rel_path

-- the calls that change the table
pub data EntryOp : Type 0 where
  put mark : Entry → EntryOp
  drop : String → String → EntryOp
  replace : String → List Entry → EntryOp
  forget : String → EntryOp

abbrev pub run_op : EntryOp → StateDb → StateDb
run_op (put e) d = upsert_entry e d
run_op (mark e) d = mark_entry_deleted e d
run_op (drop root_id rel_path) d = delete_entry root_id rel_path d
run_op (replace root_id es) d = replace_entries root_id es d
run_op (forget root_id) d = delete_root_state root_id d

abbrev pub run_ops : List EntryOp → StateDb → StateDb
run_ops [] d = d
run_ops (op ∷ ops) d = run_ops ops (run_op op d)

-- The specification: the same calls on a map.
abbrev pub set_at : Entry → EntryMap → EntryMap
set_at e m root path = if is_place e.root_id e.rel_path root path then some e else m root path

abbrev pub set_all : List Entry → EntryMap → EntryMap
set_all [] m = m
set_all (e ∷ es) m = set_all es (set_at e m)

abbrev pub clear_root : String → EntryMap → EntryMap
clear_root root_id m root path = if str_eq root root_id then none else m root path

abbrev pub spec_op : EntryOp → EntryMap → EntryMap
spec_op (put e) m = set_at e m
spec_op (mark e) m = set_at (marked_deleted e) m
spec_op (drop root_id rel_path) m =
    λ root path. if is_place root_id rel_path root path then none else m root path
spec_op (replace root_id es) m = set_all es (clear_root root_id m)
spec_op (forget root_id) m = clear_root root_id m

abbrev pub spec_ops : List EntryOp → EntryMap → EntryMap
spec_ops [] m = m
spec_ops (op ∷ ops) m = spec_ops ops (spec_op op m)

-- the map that a table stands for
abbrev pub map_of : List EntryRow → EntryMap
map_of rows root path = Option.map entry_of_row (find (is_entry root path) rows)

abbrev pub view : StateDb → EntryMap
view d = map_of d.entries

place_true :
    (root path : String) (r : EntryRow)
    → is_entry root path r ≡ true
    → (r.root_id ≡ root) × (r.rel_path ≡ path)
place_true root path r h =
    ((eq_iff r.root_id root).0 (ground arith), (eq_iff r.rel_path path).0 (ground arith))

-- Two places that differ have no row in common.
places_apart :
    (root path root_id rel_path : String) (r : EntryRow)
    → is_place root path root_id rel_path ≡ false
    → is_entry root path r ≡ true
    → is_entry root_id rel_path r ≡ false
places_apart root path root_id rel_path r differ h =
    let (same_root, same_path) = place_true root path r h in rw (same_root, same_path) differ

is_entry-row_of_entry :
    (root path : String) (e : Entry)
    → is_entry root path (row_of_entry e) ≡ is_place e.root_id e.rel_path root path
unfolding row_of_entry
is_entry-row_of_entry root path e = refl

map_of-insert_entry_own :
    (e : Entry) (rows : List EntryRow) → map_of (insert_entry e rows) e.root_id e.rel_path ≡ some e
unfolding insert_entry
map_of-insert_entry_own e rows =
    let own : is_place e.root_id e.rel_path e.root_id e.rel_path ≡ true =
      ground (arith, (eq_iff e.root_id e.root_id).1 refl, (eq_iff e.rel_path e.rel_path).1 refl) in
    ap (Option.map entry_of_row) (
      find-upsert_own (is_entry e.root_id e.rel_path) (row_of_entry e)
        (is_entry-row_of_entry e.root_id e.rel_path e ∙ own) rows)
    ∙ ap some (entry_of_row-row_of_entry e)

map_of-insert_entry_at :
    (e : Entry) (rows : List EntryRow) (root path : String)
    → map_of (insert_entry e rows) root path ≡ set_at e (map_of rows) root path
unfolding insert_entry
map_of-insert_entry_at e rows root path =
    elim (Bool-cases (is_place e.root_id e.rel_path root path)) [
      | inl here ↦
          let same_root = (eq_iff e.root_id root).0 (ground (arith, here)) in
          let same_path = (eq_iff e.rel_path path).0 (ground (arith, here)) in
          rw here (
            ap (λ x. map_of (insert_entry e rows) x path) (sym same_root)
            ∙ ap (λ x. map_of (insert_entry e rows) e.root_id x) (sym same_path)
            ∙ map_of-insert_entry_own e rows)
      | inr elsewhere ↦ rw elsewhere (
          ap (Option.map entry_of_row) (
            find-upsert_apart (is_entry e.root_id e.rel_path) (row_of_entry e) (is_entry root path)
              (is_entry-row_of_entry root path e ∙ elsewhere)
              (λ r. places_apart e.root_id e.rel_path root path r elsewhere) rows))
    ]

map_of-insert_entry :
    (e : Entry) (rows : List EntryRow) → map_of (insert_entry e rows) ≡ set_at e (map_of rows)
map_of-insert_entry e rows = λ i root path. map_of-insert_entry_at e rows root path i

map_of-insert_entries :
    (es : List Entry) (rows : List EntryRow)
    → map_of (insert_entries es rows) ≡ set_all es (map_of rows)
unfolding insert_entries
map_of-insert_entries [] rows = refl
map_of-insert_entries (e ∷ es) rows =
    map_of-insert_entries es (insert_entry e rows) ∙ ap (set_all es) (map_of-insert_entry e rows)

map_of-clear_at :
    (root_id : String) (rows : List EntryRow) (root path : String)
    → map_of (delete (λ r. str_eq r.root_id root_id) rows) root path
      ≡ clear_root root_id (map_of rows) root path
map_of-clear_at root_id rows root path = elim (Bool-cases (str_eq root root_id)) [
  | inl here ↦ rw here (
      ap (Option.map entry_of_row) (
        find-delete_self (is_entry root path) (λ r. str_eq r.root_id root_id)
          (λ r h. rw (place_true root path r h).0 here) rows))
  | inr elsewhere ↦ rw elsewhere (
      ap (Option.map entry_of_row) (
        find-delete_apart (is_entry root path) (λ r. str_eq r.root_id root_id)
          (λ r h. rw (place_true root path r h).0 elsewhere) rows))
]

map_of-clear :
    (root_id : String) (rows : List EntryRow)
    → map_of (delete (λ r. str_eq r.root_id root_id) rows) ≡ clear_root root_id (map_of rows)
map_of-clear root_id rows = λ i root path. map_of-clear_at root_id rows root path i

map_of-drop_at :
    (root_id rel_path : String) (rows : List EntryRow) (root path : String)
    → map_of (delete (is_entry root_id rel_path) rows) root path
      ≡ (if is_place root_id rel_path root path then none else map_of rows root path)
map_of-drop_at root_id rel_path rows root path =
    elim (Bool-cases (is_place root_id rel_path root path)) [
      | inl here ↦
          let same_root = (eq_iff root_id root).0 (ground (arith, here)) in
          let same_path = (eq_iff rel_path path).0 (ground (arith, here)) in
          rw here (
            ap (Option.map entry_of_row) (
              find-delete_self (is_entry root path) (is_entry root_id rel_path)
                (λ r h. rw (same_root, same_path) h) rows))
      | inr elsewhere ↦ rw elsewhere (
          ap (Option.map entry_of_row) (
            find-delete_apart (is_entry root path) (is_entry root_id rel_path)
              (λ r h. ground (
                arith,
                place_true root path r h,
                elsewhere,
                eq_iff root_id root,
                eq_iff rel_path path,
                eq_iff r.root_id root_id,
                eq_iff r.rel_path rel_path,
              ))
              rows))
    ]

view-run_op : (op : EntryOp) (d : StateDb) → view (run_op op d) ≡ spec_op op (view d)
unfolding upsert_entry mark_entry_deleted delete_entry replace_entries delete_root_state
view-run_op (put e) d = map_of-insert_entry e d.entries
view-run_op (mark e) d = map_of-insert_entry (marked_deleted e) d.entries
view-run_op (drop root_id rel_path) d =
    λ i root path. map_of-drop_at root_id rel_path d.entries root path i
view-run_op (replace root_id es) d =
    map_of-insert_entries es (delete (λ r. str_eq r.root_id root_id) d.entries)
    ∙ ap (set_all es) (map_of-clear root_id d.entries)
view-run_op (forget root_id) d = map_of-clear root_id d.entries

view-run_ops : (ops : List EntryOp) (d : StateDb) → view (run_ops ops d) ≡ spec_ops ops (view d)
view-run_ops [] d = refl
view-run_ops (op ∷ ops) d = view-run_ops ops (run_op op d) ∙ ap (spec_ops ops) (view-run_op op d)

-- What `EntriesForRoot` returns for a path is the entry that the map has there.
entry_at-rows :
    (root path : String) (rows : List EntryRow)
    → entry_at path (map entry_of_row (select (λ r. str_eq r.root_id root) rows))
      ≡ map_of rows root path
unfolding entry_at find select entry_of_row
entry_at-rows root path [] = refl
entry_at-rows root path (r ∷ rs) = ground (arith, entry_at-rows root path rs)

-- After any calls that put, mark, drop, replace or forget entries, in any order, the map that
-- `EntriesForRoot` returns has at each path the entry that the same calls leave in a map from places
-- to entries.
pub entries_for_root-run_ops :
    (ops : List EntryOp) (d : StateDb) (root path : String)
    → entry_at path (entries_for_root root (run_ops ops d)) ≡ spec_ops ops (view d) root path
unfolding entries_for_root
entries_for_root-run_ops ops d root path =
    entry_at-rows root path (run_ops ops d).entries ∙ ap (λ m. m root path) (view-run_ops ops d)
