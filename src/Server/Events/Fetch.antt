-- ===== src/Server/Events/Fetch.antt =====
-- internal/server/db/events.go: `FetchEvents`.
use syna.Prelude.{
  ℕ, String, str_eq, Bool, ◌&&◌, List, [], ◌∷◌, map, ltb, leb, ◌==◌, take, if◌then◌else◌,
}
use syna.Prelude.Result.{Result, ok, ◌>>=◌, ◌>>◌, fail_if}
use syna.Table.{select}
use syna.Protocol.{EventRecord}
use syna.Server.Schema.{Db, WorkspaceRow, EventRow}
use syna.Server.Errors.{DbError, resync_required}
use syna.Server.Workspaces.{workspace_row}

-- ORDER BY seq ASC
unfoldable pub insert_by_seq : EventRow → List EventRow → List EventRow
insert_by_seq e [] = e ∷ []
insert_by_seq e (f ∷ fs) =
    let rest = insert_by_seq e fs in if leb e.seq f.seq then e ∷ f ∷ fs else f ∷ rest

unfoldable pub sort_by_seq : List EventRow → List EventRow
sort_by_seq [] = []
sort_by_seq (e ∷ es) = insert_by_seq e (sort_by_seq es)

-- ORDER BY object_id is left out.
unfoldable pub event_refs : ℕ → Db → List String
event_refs seq d = map (λ r. r.object_id) (select (λ r. r.event_seq == seq) d.event_object_refs)

unfoldable pub record_of : Db → EventRow → EventRecord
unfolding event_refs
record_of d e = record {
  seq = e.seq;
  root_id = e.root_id;
  path_id = e.path_id;
  event_type = e.event_type;
  base_seq = e.base_seq;
  author_device_id = e.author_device_id;
  payload_blob = e.payload_blob;
  object_refs = event_refs e.seq d;
  created_at = e.created_at;
}

abbrev pub in_window : String → ℕ → ℕ → EventRow → Bool
in_window workspace_id after_seq current_seq e =
    str_eq e.workspace_id workspace_id && ltb after_seq e.seq && leb e.seq current_seq

-- the rows of the query, with ORDER BY and LIMIT
unfoldable pub fetched_rows : String → ℕ → ℕ → ℕ → Db → List EventRow
fetched_rows workspace_id after_seq current_seq limit d =
    take limit (sort_by_seq (select (in_window workspace_id after_seq current_seq) d.events))

-- the answer once the workspace is found
unfoldable pub page_of : String → ℕ → ℕ → Db → WorkspaceRow → Result DbError (List EventRecord × ℕ)
page_of workspace_id after_seq limit d w = do
  fail_if (ltb after_seq w.retained_floor_seq) (resync_required w.retained_floor_seq)
  ok (map (record_of d) (fetched_rows workspace_id after_seq w.current_seq limit d), w.current_seq)

unfoldable pub fetch_events : String → ℕ → ℕ → Db → Result DbError (List EventRecord × ℕ)
fetch_events workspace_id after_seq limit d = do
  w ← workspace_row workspace_id d
  page_of workspace_id after_seq limit d w
