-- ===== src/Server/Workspaces.antt =====
-- internal/server/db/workspace.go: workspaces, their keys and their retained floor.
use syna.Prelude.{
  ℕ, String, str_eq, Bool, true, false, not, ◌&&◌, ◌||◌, Option, none, some, List, [], ◌∷◌, ltb,
  leb, ◌==◌, length, if◌then◌else◌,
}
use syna.Prelude.Result.{Result, ok, err, ◌>>=◌}
use syna.Table.{find, select, update}
use syna.Server.Schema.{Db, WorkspaceRow, RootRow}
use syna.Server.Errors.{DbError, no_rows, workspace_limit_reached, public_key_mismatch}
use syna.Server.Objects.{is_workspace}

abbrev or_no_rows : Option WorkspaceRow → Result DbError WorkspaceRow
or_no_rows none = err no_rows
or_no_rows (some w) = ok w

-- SELECT … FROM workspaces WHERE workspace_id = ?
unfoldable pub workspace_row : String → Db → Result DbError WorkspaceRow
workspace_row workspace_id d = or_no_rows (find (is_workspace workspace_id) d.workspaces)

unfoldable pub workspace_pub_key : String → Db → Result DbError String
workspace_pub_key workspace_id d = do w ← workspace_row workspace_id d; ok w.auth_pubkey

unfoldable pub current_seq : String → Db → Result DbError ℕ
current_seq workspace_id d = do w ← workspace_row workspace_id d; ok w.current_seq

unfoldable pub retained_floor : String → Db → Result DbError ℕ
retained_floor workspace_id d = do w ← workspace_row workspace_id d; ok w.retained_floor_seq

abbrev pub new_workspace : String → String → ℕ → WorkspaceRow
new_workspace workspace_id pub_key now = record {
  workspace_id = workspace_id;
  auth_pubkey = pub_key;
  current_seq = 0;
  retained_floor_seq = 0;
  created_at = now;
  updated_at = now;
}

-- the first case of the switch; `created` of the Go result is the Boolean
unfoldable pub create_workspace : String → String → ℕ → ℕ → Db → Result DbError (Db × Bool)
create_workspace workspace_id pub_key max_workspaces now d =
    if str_eq pub_key ""
    then err no_rows
    else if ltb 0 max_workspaces && leb max_workspaces (length d.workspaces)
    then err workspace_limit_reached
    else ok (record d { workspaces = new_workspace workspace_id pub_key now ∷ d.workspaces }, true)

unfoldable pub ensure_workspace_within_limit :
    String → String → ℕ → ℕ → Db → Result DbError (Db × Bool)
unfolding create_workspace
ensure_workspace_within_limit workspace_id pub_key max_workspaces now d =
    elim (find (is_workspace workspace_id) d.workspaces) [
      | none ↦ create_workspace workspace_id pub_key max_workspaces now d
      | some w ↦
          if not (str_eq pub_key "") && not (str_eq pub_key w.auth_pubkey)
          then err public_key_mismatch
          else ok (d, false)
    ]

unfoldable pub ensure_workspace : String → String → ℕ → Db → Result DbError (Db × Bool)
unfolding ensure_workspace_within_limit
ensure_workspace workspace_id pub_key now d =
    ensure_workspace_within_limit workspace_id pub_key 0 now d

abbrev pub is_active : RootRow → Bool
is_active r = elim r.removed_seq [ none ↦ true | some s ↦ false ]

-- ORDER BY root_id is left out: the rows come in the order of the table.
unfoldable pub active_roots : String → Db → List RootRow
active_roots workspace_id d =
    select (λ r. str_eq r.workspace_id workspace_id && is_active r) d.roots

-- the loop of `RecomputeRetainedFloor`: a root with no snapshot ends it at 0
unfoldable pub floor_loop : ℕ → List RootRow → ℕ
floor_loop floor [] = floor
floor_loop floor (r ∷ rs) = elim r.latest_snapshot_seq [
  | none ↦ 0
  | some seq ↦ floor_loop (if ltb seq floor || floor == 0 then seq else floor) rs
]

unfoldable pub floor_of : ℕ → List RootRow → ℕ
floor_of current_seq [] = current_seq
floor_of current_seq (r ∷ rs) = floor_loop 0 (r ∷ rs)

-- the UPDATE at the end of `RecomputeRetainedFloor`
unfoldable pub set_floor : String → ℕ → ℕ → Db → Db
set_floor workspace_id now floor d = record d {
  workspaces =
      update (is_workspace workspace_id)
        (λ w. record w { retained_floor_seq = floor; updated_at = now }) d.workspaces;
}

unfoldable pub recompute_retained_floor : String → ℕ → Db → Result DbError Db
recompute_retained_floor workspace_id now d = do
  seq ← current_seq workspace_id d
  ok (set_floor workspace_id now (floor_of seq (active_roots workspace_id d)) d)
