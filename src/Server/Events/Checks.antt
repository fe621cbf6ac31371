-- ===== src/Server/Events/Checks.antt =====
-- internal/server/db/events.go: what `SubmitEvent` checks before it writes.
use syna.Prelude.{
  ℕ, String, str_eq, ℤ, Bool, true, false, not, ◌&&◌, Option, none, some, List, [], ◌∷◌, eq_int,
  gt_int, is_some, if◌then◌else◌,
}
use syna.Prelude.Result.{Result, ok, err, ◌>>◌, fail_if}
use syna.Table.{find}
use syna.Protocol.{EventType, root_add, root_remove, unknown, RootKind, EventSubmitRequest}
use syna.Server.Schema.{Db, RootRow, PathHeadRow, Session}
use syna.Server.Errors.{
  DbError, root_id_required, unsupported_event_type, missing_object_ref, root_kind_required,
  root_already_active, unknown_root, root_already_removed, root_removed, path_and_base_required,
  root_incarnation_mismatch, path_head_mismatch,
}
use syna.Server.Objects.{object_visible_to_workspace}

unfoldable pub validate_event_request : EventSubmitRequest → Result DbError Unit
validate_event_request req =
    if str_eq req.root_id ""
    then err root_id_required
    else elim req.event_type [ unknown t ↦ err unsupported_event_type | _ ↦ ok tt ]

-- the key test of `roots`
abbrev pub is_root : String → String → RootRow → Bool
is_root workspace_id root_id r = str_eq r.workspace_id workspace_id && str_eq r.root_id root_id

-- the key test of `path_heads`
abbrev pub is_head : String → String → String → PathHeadRow → Bool
is_head workspace_id root_id path_id h =
    str_eq h.workspace_id workspace_id && str_eq h.root_id root_id && str_eq h.path_id path_id

abbrev pub is_head_of_root : String → String → PathHeadRow → Bool
is_head_of_root workspace_id root_id h =
    str_eq h.workspace_id workspace_id && str_eq h.root_id root_id

unfoldable pub check_object_refs : String → List String → Db → Result DbError Unit
check_object_refs workspace_id [] d = ok tt
check_object_refs workspace_id (object_id ∷ rest) d =
    let others = check_object_refs workspace_id rest d in
    if object_visible_to_workspace workspace_id object_id d
    then others
    else err (missing_object_ref object_id)

abbrev known_kind : RootKind → Bool
known_kind (RootKind.other t) = false
known_kind _ = true

abbrev pub check_vacant : Option RootRow → Result DbError Unit
check_vacant none = ok tt
check_vacant (some r) = elim r.removed_seq [ none ↦ err root_already_active | some s ↦ ok tt ]

unfoldable pub check_root_add : Session → EventSubmitRequest → Db → Result DbError Unit
check_root_add sess req d = do
  fail_if (not (known_kind req.root_kind)) root_kind_required
  check_vacant (find (is_root sess.workspace_id req.root_id) d.roots)

-- `req.RootCreatedSeq != nil && *req.RootCreatedSeq != createdSeq`
abbrev pub other_incarnation : Option ℤ → ℕ → Bool
other_incarnation none created_seq = false
other_incarnation (some seq) created_seq = not (eq_int created_seq seq)

abbrev pub check_removable : Option ℤ → Option RootRow → Result DbError Unit
check_removable bound none = err unknown_root
check_removable bound (some r) = do
  fail_if (other_incarnation bound r.created_seq) (root_incarnation_mismatch r.created_seq)
  fail_if (is_some r.removed_seq) root_already_removed

unfoldable pub check_root_remove : Session → EventSubmitRequest → Db → Result DbError Unit
check_root_remove sess req d =
    check_removable req.root_created_seq (find (is_root sess.workspace_id req.root_id) d.roots)

abbrev pub check_writable : Option ℤ → Option RootRow → Result DbError Unit
check_writable bound none = err unknown_root
check_writable bound (some r) = do
  fail_if (is_some r.removed_seq) root_removed
  fail_if (other_incarnation bound r.created_seq) (root_incarnation_mismatch r.created_seq)

abbrev pub check_head : ℤ → Option PathHeadRow → Result DbError Unit
check_head base none = fail_if (not (eq_int 0 base)) (path_head_mismatch 0)
check_head base (some h) = fail_if (gt_int h.current_seq base) (path_head_mismatch h.current_seq)

abbrev pub check_base : Session → EventSubmitRequest → Option ℤ → Db → Result DbError Unit
check_base sess req none d = err path_and_base_required
check_base sess req (some base) d = do
  fail_if (str_eq req.path_id "") path_and_base_required
  check_writable req.root_created_seq (find (is_root sess.workspace_id req.root_id) d.roots)
  check_head base (find (is_head sess.workspace_id req.root_id req.path_id) d.path_heads)

unfoldable pub check_content : Session → EventSubmitRequest → Db → Result DbError Unit
check_content sess req d = check_base sess req req.base_seq d

-- the first switch of `SubmitEvent`
unfoldable pub check_event : Session → EventSubmitRequest → EventType → Db → Result DbError Unit
unfolding check_root_add check_root_remove check_content
check_event sess req root_add d = check_root_add sess req d
check_event sess req root_remove d = check_root_remove sess req d
check_event sess req _ d = check_content sess req d
