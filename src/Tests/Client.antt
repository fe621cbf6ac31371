-- ===== src/Tests/Client.antt =====
-- The properties of a device's database at concrete rows.
use syna.Prelude.{
  ℕ, String, str_eq, ◌≡◌, refl, ◌≤◌, arith, true, false, some, none, pos, List, [], ◌∷◌,
  if◌then◌else◌, ◌==◌,
}
use syna.Prelude.Result.{ok}
use syna.Protocol.{RootKind}
use syna.Table.{any, count, Unique, find, update, select}
use syna.Client.State.{
  StateDb, Entry, WorkspaceState, new_state, live, no_issue, load_workspace_state,
  save_workspace_state, load-save_workspace_state, ignore_rule, set_ignore, ignore_rule-set_ignore,
  EntryOp, put, mark, drop, entry_at, entries_for_root, run_ops, spec_ops, view,
  entries_for_root-run_ops, queue_root_rescan, queued_op, insert_pending, change_op, pending_op_id,
  sort_ops, insert_op, here, next, rescan, bump, QueueReach-once, is_queued, same_id, rescan_root,
  bump_pending_op_retry, pending_op_backoff, list_pending_ops_ready, bump_pending_op_retry-waits,
  bump_pending_op_retry-returns, null_text,
}

abbrev pub note : Entry
note = record {
  root_id = "r";
  rel_path = "note.txt";
  path_id = "p";
  kind = RootKind.file;
  current_seq = 4;
  content_sha256 = "abc";
  size_bytes = 0;
  mode = 420;
  mtime_ns = pos 7;
  inode = 9;
  device = 0;
  deleted = false;
}

abbrev connected : WorkspaceState
connected = record {
  server_url = "https://example.org";
  workspace_id = "w";
  session_token = "";
  session_expires_at = 0;
  last_server_seq = 12;
  connection_state = live;
  last_error_kind = no_issue;
  last_error = "";
}

load-save_workspace_state_example :
    load_workspace_state (save_workspace_state connected new_state) ≡ connected
load-save_workspace_state_example = load-save_workspace_state connected new_state

ignore_rule-set_ignore_example :
    ignore_rule "r" "note.txt" 5 (set_ignore "r" "note.txt" 9 note new_state) ≡ (
      record {
        root_id = "r";
        rel_path = "note.txt";
        expires_at = 9;
        kind = RootKind.file;
        content_sha256 = "abc";
        mode = 420;
        mtime_ns = pos 7;
        deleted = false;
      },
      true,
    )
ignore_rule-set_ignore_example = ignore_rule-set_ignore "r" "note.txt" 9 5 note new_state

abbrev calls : List EntryOp
calls = put note ∷ put (record note { rel_path = "b" }) ∷ drop "r" "b" ∷ mark note ∷ []

entries_for_root-run_ops_example :
    entry_at "note.txt" (entries_for_root "r" (run_ops calls new_state))
    ≡ spec_ops calls (view new_state) "r" "note.txt"
entries_for_root-run_ops_example = entries_for_root-run_ops calls new_state "r" "note.txt"

-- the rows of a run in which a rescan fails once and is queued again
abbrev clock : ℕ → String
clock t = if t == 1 then "one" else "later"

abbrev pub queued : StateDb
queued = record new_state {
  pending_ops =
      record {
        op_id = "r:one";
        root_id = "r";
        rel_path = "";
        op_type = rescan_root;
        base_seq = 0;
        payload_json = "{}";
        status = "queued";
        retry_count = 0;
        last_error = none;
        next_retry_at = none;
        created_at = 1;
      }
      ∷ [];
}

abbrev failed : StateDb
failed = record new_state {
  pending_ops =
      record {
        op_id = "r:one";
        root_id = "r";
        rel_path = "";
        op_type = rescan_root;
        base_seq = 0;
        payload_json = "{}";
        status = "queued";
        retry_count = 1;
        last_error = some "offline";
        next_retry_at = some 1_000_000_003;
        created_at = 1;
      }
      ∷ [];
}

queueing : queue_root_rescan clock "r" 1 new_state ≡ ok queued
unfolding queue_root_rescan queued_op insert_pending pending_op_id sort_ops insert_op select any
queueing = refl

failing : bump_pending_op_retry "r:one" "offline" 3 queued ≡ ok failed
unfolding bump_pending_op_retry change_op pending_op_backoff find update null_text
failing = refl

QueueReach-once_example :
    (count (is_queued "r" rescan_root) failed.pending_ops ≤ 1) × Unique same_id failed.pending_ops
QueueReach-once_example =
    QueueReach-once clock "r" rescan_root
      (next (next here (rescan "r" 1 queueing)) (bump "r:one" "offline" 3 failing))

bump_pending_op_retry-waits_example :
    any (λ o. str_eq o.op_id "r:one") (list_pending_ops_ready 1_000_000_002 failed) ≡ false
bump_pending_op_retry-waits_example =
    bump_pending_op_retry-waits "r:one" "offline" 3 1_000_000_002 queued failing (omega arith)

bump_pending_op_retry-returns_example :
    any (λ o. str_eq o.op_id "r:one") (list_pending_ops_ready 64_000_000_003 failed) ≡ true
bump_pending_op_retry-returns_example =
    bump_pending_op_retry-returns "r:one" "offline" 3 64_000_000_003 queued failing (omega arith)
