-- ===== src/Client/Submit/Defs.antt =====
-- internal/client/connector/connector.go, `HTTPError`, and internal/client/daemon/daemon.go: the
-- errors of `submitEventForIncarnation`, and how a queued removal of a root is sent. strings.ToLower
-- and the decimal format of a number are arguments.
use Prim.Native.String.{◌++◌ as append}
use syna.Prelude.{
  ℕ, String, str_eq, Bool, true, false, not, ◌||◌, Option, none, some, if◌then◌else◌,
}
use syna.Prelude.Result.{Result, ok, err}
use syna.Paths.{contains}
use syna.Api.{Refusal}
use syna.Client.State.{StateDb, StateError, delete_pending_op, bump_pending_op_retry}

pub data SubmitError : Type 0 where
  -- RootIncarnationConflictError and PathConflictError
  root_incarnation_conflict : ℕ → ℕ → SubmitError
  path_conflict : ℕ → String → SubmitError
  -- any other error, with its text
  plain_error : String → SubmitError

-- Error() of each
unfoldable pub error_text : SubmitError → String
error_text (root_incarnation_conflict expected current) = "root_incarnation_mismatch"
error_text (path_conflict current path_id) = "path_head_mismatch"
error_text (plain_error text) = text

module _ (format_number : ℕ → String) where
  -- HTTPError.Error, of the error that `doJSONRaw` makes of an answer
  unfoldable pub http_error_text : Refusal → String
  http_error_text r =
      if not (str_eq r.body.message "")
      then r.body.message
      else if not (str_eq r.body.code "")
      then r.body.code
      else append "http " (format_number r.status)

  -- the errors of `submitEventForIncarnation` when the server has answered with a refusal
  unfoldable pub submit_error : ℕ → String → Refusal → SubmitError
  submit_error root_created_seq path_id r =
      if str_eq r.body.code "root_incarnation_mismatch"
      then root_incarnation_conflict root_created_seq r.body.current_seq
      else if str_eq r.body.code "path_head_mismatch"
      then path_conflict r.body.current_seq path_id
      else if str_eq (http_error_text r) "path_head_mismatch"
      then path_conflict 0 path_id
      else if not (str_eq r.body.code "")
      then plain_error (append r.body.code (append ": " (http_error_text r)))
      else plain_error (http_error_text r)

unfoldable pub is_benign_root_remove_error : (String → String) → SubmitError → Bool
is_benign_root_remove_error to_lower e =
    contains (to_lower (error_text e)) "root already removed"
    || contains (to_lower (error_text e)) "unknown root"

-- `flushPendingOps` for an operation root_remove, by the error of the submission: the database after
-- it, and whether the flush goes on. The error of the retry's own statement is dropped.
abbrev pub or_same : StateDb → Result StateError StateDb → StateDb
or_same d (err e) = d
or_same d (ok d') = d'

unfoldable pub flush_root_remove :
    (String → String) → String → ℕ → StateDb → Option SubmitError → StateDb × Bool
flush_root_remove to_lower op_id now d none = (delete_pending_op op_id d, true)
flush_root_remove to_lower op_id now d (some e) =
    if is_benign_root_remove_error to_lower e
    then (delete_pending_op op_id d, true)
    else (or_same d (bump_pending_op_retry op_id (error_text e) now d), false)
