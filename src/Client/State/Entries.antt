-- ===== src/Client/State/Entries.antt =====
-- internal/client/state/db.go: the table `entries`, what a device last agreed with the server about
-- each path.
use syna.Prelude.{String, str_eq, ◌==◌, Bool, true, ◌&&◌, Option, List, [], ◌∷◌, map, pos}
use syna.Table.{find, select, delete, upsert}
use syna.Client.State.Schema.{StateDb, Entry, EntryRow}
use syna.Client.State.Nulls.{null_text, null_number, bool_to_int, text_or_empty, number_or_zero}

abbrev pub is_entry : String → String → EntryRow → Bool
is_entry root_id rel_path r = str_eq r.root_id root_id && str_eq r.rel_path rel_path

-- the columns of an entry, as `insertEntry` writes them
unfoldable pub row_of_entry : Entry → EntryRow
row_of_entry e = record {
  root_id = e.root_id;
  rel_path = e.rel_path;
  path_id = e.path_id;
  kind = e.kind;
  current_seq = e.current_seq;
  content_sha256 = null_text e.content_sha256;
  size_bytes = null_number e.size_bytes;
  mode = e.mode;
  mtime_ns = e.mtime_ns;
  inode = null_number e.inode;
  device = null_number e.device;
  deleted = bool_to_int e.deleted;
}

-- the scan of a row in `EntriesForRoot`
unfoldable pub entry_of_row : EntryRow → Entry
entry_of_row r = record {
  root_id = r.root_id;
  rel_path = r.rel_path;
  path_id = r.path_id;
  kind = r.kind;
  current_seq = r.current_seq;
  content_sha256 = text_or_empty r.content_sha256;
  size_bytes = number_or_zero r.size_bytes;
  mode = r.mode;
  mtime_ns = r.mtime_ns;
  inode = number_or_zero r.inode;
  device = number_or_zero r.device;
  deleted = r.deleted == 1;
}

unfoldable pub insert_entry : Entry → List EntryRow → List EntryRow
insert_entry e rows =
    upsert (is_entry e.root_id e.rel_path) (λ r. row_of_entry e) (row_of_entry e) rows

unfoldable pub upsert_entry : Entry → StateDb → StateDb
upsert_entry e d = record d { entries = insert_entry e d.entries }

abbrev pub marked_deleted : Entry → Entry
marked_deleted e = record e {
  deleted = true;
  content_sha256 = "";
  size_bytes = 0;
  mode = 0;
  mtime_ns = pos 0;
  inode = 0;
  device = 0;
}

unfoldable pub mark_entry_deleted : Entry → StateDb → StateDb
mark_entry_deleted e d = record d { entries = insert_entry (marked_deleted e) d.entries }

unfoldable pub delete_entry : String → String → StateDb → StateDb
delete_entry root_id rel_path d = record d {
  entries = delete (is_entry root_id rel_path) d.entries;
}

unfoldable pub insert_entries : List Entry → List EntryRow → List EntryRow
insert_entries [] rows = rows
insert_entries (e ∷ es) rows = insert_entries es (insert_entry e rows)

unfoldable pub replace_entries : String → List Entry → StateDb → StateDb
replace_entries root_id es d = record d {
  entries = insert_entries es (delete (λ r. str_eq r.root_id root_id) d.entries);
}

unfoldable pub entries_for_root : String → StateDb → List Entry
entries_for_root root_id d = map entry_of_row (select (λ r. str_eq r.root_id root_id) d.entries)

-- the lookup of a path in the map that `EntriesForRoot` returns
unfoldable pub entry_at : String → List Entry → Option Entry
entry_at rel_path es = find (λ e. str_eq e.rel_path rel_path) es
