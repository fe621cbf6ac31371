-- ===== src/Client/State/RoundTrip.antt =====
-- What internal/client/state/db.go writes is what it reads, although empty values are stored as NULL.
use syna.Prelude.{
  ℕ, String, str_eq, eq_iff, ◌==◌, ◌≡◌, refl, sym, ap, Bool, true, false, arith, Bool-cases, inl,
  inr, ltb,
}
use syna.Protocol.{RootKind}
use syna.Table.{find-upsert_own}
use syna.Client.State.Schema.{
  StateDb, Entry, WorkspaceState, IssueKind, no_issue, service_install, service_disable, socket,
  auth, bootstrap, watcher, transport, scanner, workspace_gone,
}
use syna.Client.State.Nulls.{
  null_text, null_number, null_issue, null_kind, bool_to_int, text_or_empty, number_or_zero,
  issue_or_none, kind_or_empty,
}
use syna.Client.State.Workspace.{save_workspace_state, load_workspace_state}
use syna.Client.State.Entries.{row_of_entry, entry_of_row}
use syna.Client.State.Ignores.{set_ignore, ignore_rule, is_ignore, ignore_row}

pub text_or_empty-null_text : (s : String) → text_or_empty (null_text s) ≡ s
unfolding null_text
text_or_empty-null_text s = elim (Bool-cases (str_eq s "")) [
  | inl blank ↦ rw blank (sym ((eq_iff s "").0 blank))
  | inr full ↦ rw full refl
]

pub number_or_zero-null_number : (n : ℕ) → number_or_zero (null_number n) ≡ n
unfolding null_number
number_or_zero-null_number n = ground arith

issue_or_none-null_issue : (k : IssueKind) → issue_or_none (null_issue k) ≡ k
unfolding null_issue
issue_or_none-null_issue no_issue = refl
issue_or_none-null_issue service_install = refl
issue_or_none-null_issue service_disable = refl
issue_or_none-null_issue socket = refl
issue_or_none-null_issue auth = refl
issue_or_none-null_issue bootstrap = refl
issue_or_none-null_issue watcher = refl
issue_or_none-null_issue transport = refl
issue_or_none-null_issue scanner = refl
issue_or_none-null_issue workspace_gone = refl

kind_or_empty-null_kind : (k : RootKind) → kind_or_empty (null_kind k) ≡ k
unfolding null_kind
kind_or_empty-null_kind RootKind.file = refl
kind_or_empty-null_kind RootKind.dir = refl
kind_or_empty-null_kind (RootKind.other s) = elim (Bool-cases (str_eq s "")) [
  | inl blank ↦ rw blank (ap RootKind.other (sym ((eq_iff s "").0 blank)))
  | inr full ↦ rw full refl
]

bool_to_int_lem : (b : Bool) → (bool_to_int b == 1) ≡ b
unfolding bool_to_int
bool_to_int_lem true = refl
bool_to_int_lem false = refl

-- An entry is read from the row that it was written to as it was.
pub entry_of_row-row_of_entry : (e : Entry) → entry_of_row (row_of_entry e) ≡ e
unfolding entry_of_row row_of_entry
entry_of_row-row_of_entry e =
    rw
      (
        text_or_empty-null_text e.content_sha256,
        number_or_zero-null_number e.size_bytes,
        number_or_zero-null_number e.inode,
        number_or_zero-null_number e.device,
        bool_to_int_lem e.deleted,
      )
      refl

-- The state of the workspace is loaded as it was saved.
pub load-save_workspace_state :
    (st : WorkspaceState) (d : StateDb) → load_workspace_state (save_workspace_state st d) ≡ st
unfolding load_workspace_state save_workspace_state
load-save_workspace_state st d =
    rw
      (
        text_or_empty-null_text st.server_url,
        text_or_empty-null_text st.workspace_id,
        text_or_empty-null_text st.session_token,
        number_or_zero-null_number st.session_expires_at,
        issue_or_none-null_issue st.last_error_kind,
        text_or_empty-null_text st.last_error,
      )
      refl

-- A rule that was set is found as the entry that is expected, and holds until it expires.
pub ignore_rule-set_ignore :
    (root_id rel_path : String) (expires_at now : ℕ) (expected : Entry) (d : StateDb)
    → ignore_rule root_id rel_path now (set_ignore root_id rel_path expires_at expected d) ≡ (
      record {
        root_id = root_id;
        rel_path = rel_path;
        expires_at = expires_at;
        kind = expected.kind;
        content_sha256 = expected.content_sha256;
        mode = expected.mode;
        mtime_ns = expected.mtime_ns;
        deleted = expected.deleted;
      },
      ltb now expires_at,
    )
unfolding ignore_rule set_ignore
ignore_rule-set_ignore root_id rel_path expires_at now expected d =
    let own : is_ignore root_id rel_path (ignore_row root_id rel_path expires_at expected) ≡ true =
      ground (arith, (eq_iff root_id root_id).1 refl, (eq_iff rel_path rel_path).1 refl) in
    rw
      (
        find-upsert_own (is_ignore root_id rel_path)
            (ignore_row root_id rel_path expires_at expected) own d.ignore_events,
        kind_or_empty-null_kind expected.kind,
        text_or_empty-null_text expected.content_sha256,
        bool_to_int_lem expected.deleted,
      )
      refl
