-- ===== src/Client/State/Workspace.antt =====
-- internal/client/state/db.go: the row `workspace_state`, with the session and the cursor of a device.
use syna.Prelude.{ℕ, String, none, [], leb, if◌then◌else◌}
use syna.Client.State.Schema.{
  StateDb, WorkspaceState, ConnectionState, disconnected, workspace_purged, IssueKind, no_issue,
  workspace_gone,
}
use syna.Client.State.Nulls.{
  null_text, null_number, null_issue, text_or_empty, number_or_zero, issue_or_none,
}

unfoldable pub load_workspace_state : StateDb → WorkspaceState
load_workspace_state d = record {
  server_url = text_or_empty d.workspace.server_url;
  workspace_id = text_or_empty d.workspace.workspace_id;
  session_token = text_or_empty d.workspace.session_token;
  session_expires_at = number_or_zero d.workspace.session_expires_at;
  last_server_seq = d.workspace.last_server_seq;
  connection_state = d.workspace.connection_state;
  last_error_kind = issue_or_none d.workspace.last_error_kind;
  last_error = text_or_empty d.workspace.last_error;
}

unfoldable pub save_workspace_state : WorkspaceState → StateDb → StateDb
save_workspace_state st d = record d {
  workspace = record {
    server_url = null_text st.server_url;
    workspace_id = null_text st.workspace_id;
    session_token = null_text st.session_token;
    session_expires_at = null_number st.session_expires_at;
    last_server_seq = st.last_server_seq;
    connection_state = st.connection_state;
    last_error_kind = null_issue st.last_error_kind;
    last_error = null_text st.last_error;
  };
}

unfoldable pub set_connection_state_with_kind :
    ConnectionState → IssueKind → String → StateDb → StateDb
set_connection_state_with_kind state kind error d = record d {
  workspace = record d.workspace {
    connection_state = state;
    last_error_kind = null_issue kind;
    last_error = null_text error;
  };
}

unfoldable pub set_connection_state : ConnectionState → String → StateDb → StateDb
set_connection_state state error d = set_connection_state_with_kind state no_issue error d

unfoldable pub clear_session : StateDb → StateDb
clear_session d = record d {
  workspace = record d.workspace { session_token = none; session_expires_at = none };
}

-- SQLite's MAX of two numbers
abbrev pub max : ℕ → ℕ → ℕ
max a b = if leb a b then b else a

unfoldable pub advance_last_seq : ℕ → StateDb → StateDb
advance_last_seq seq d = record d {
  workspace = record d.workspace { last_server_seq = max d.workspace.last_server_seq seq };
}

unfoldable pub reset_last_seq : ℕ → StateDb → StateDb
reset_last_seq seq d = record d { workspace = record d.workspace { last_server_seq = seq } }

unfoldable pub clear_workspace_to : ConnectionState → IssueKind → String → StateDb → StateDb
clear_workspace_to connection issue message d = record {
  workspace = record {
    server_url = none;
    workspace_id = none;
    session_token = none;
    session_expires_at = none;
    last_server_seq = 0;
    connection_state = connection;
    last_error_kind = null_issue issue;
    last_error = null_text message;
  };
  roots = [];
  entries = [];
  pending_ops = [];
  ignore_events = [];
  warnings = [];
}

unfoldable pub clear_workspace : StateDb → StateDb
clear_workspace d = clear_workspace_to disconnected no_issue "" d

unfoldable pub clear_purged_workspace : StateDb → StateDb
clear_purged_workspace d =
    clear_workspace_to workspace_purged workspace_gone "workspace was purged from the server" d
