-- ===== src/Client/State/Roots.antt =====
-- internal/client/state/db.go: the table `roots`.
use syna.Prelude.{String, str_eq, Bool, Option, List, if◌then◌else◌, [], ◌∷◌}
use syna.Table.{find, update, delete, upsert}
use syna.Client.State.Schema.{StateDb, Root, RootState}
use syna.Client.State.Order.{text_leb}

abbrev pub is_local_root : String → Root → Bool
is_local_root root_id r = str_eq r.root_id root_id

-- Each column but the key takes the new value.
unfoldable pub upsert_root : Root → StateDb → StateDb
upsert_root root d = record d {
  roots = upsert (is_local_root root.root_id) (λ r. root) root d.roots;
}

-- ORDER BY home_rel_path ASC
unfoldable pub insert_root : Root → List Root → List Root
insert_root r [] = r ∷ []
insert_root r (s ∷ rest) =
    let later = insert_root r rest in
    if text_leb r.home_rel_path s.home_rel_path then r ∷ s ∷ rest else s ∷ later

unfoldable pub sort_roots : List Root → List Root
sort_roots [] = []
sort_roots (r ∷ rs) = insert_root r (sort_roots rs)

unfoldable pub list_roots : StateDb → List Root
list_roots d = sort_roots d.roots

-- `none` is sql.ErrNoRows
unfoldable pub root_by_home_rel : String → StateDb → Option Root
root_by_home_rel home_rel_path d = find (λ r. str_eq r.home_rel_path home_rel_path) d.roots

unfoldable pub root_by_id : String → StateDb → Option Root
root_by_id root_id d = find (is_local_root root_id) d.roots

unfoldable pub set_root_state : String → RootState → StateDb → StateDb
set_root_state root_id state d = record d {
  roots = update (is_local_root root_id) (λ r. record r { state = state }) d.roots;
}

unfoldable pub delete_root_state : String → StateDb → StateDb
delete_root_state root_id d = record d {
  entries = delete (λ e. str_eq e.root_id root_id) d.entries;
  pending_ops = delete (λ o. str_eq o.root_id root_id) d.pending_ops;
  ignore_events = delete (λ i. str_eq i.root_id root_id) d.ignore_events;
}
