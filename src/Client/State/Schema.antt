-- ===== src/Client/State/Schema.antt =====
-- internal/client/state/db.go, `Migrate`: the tables of a device and the values that the program
-- reads from them. A time is the number of nanoseconds since the zero value of `time.Time`, which
-- is 0; a column that may be NULL is an option.
use syna.Prelude.{ℕ, String, ℤ, Bool, Option, List, []}
use syna.Protocol.{RootKind}

-- protocol.RootState
pub data RootState : Type 0 where
  active blocked_nonempty removed : RootState
  other_state : String → RootState

-- protocol.ConnectionState
pub data ConnectionState : Type 0 where
  needs_bootstrap disconnected authenticating catching_up live blocked degraded workspace_purged :
      ConnectionState

-- protocol.DaemonIssueKind, with the empty text of a state without an error
pub data IssueKind : Type 0 where
  no_issue service_install service_disable socket auth bootstrap watcher transport scanner
        workspace_gone :
      IssueKind

pub record WorkspaceState : Type 0 where
  pub server_url : String
  pub workspace_id : String
  pub session_token : String
  pub session_expires_at : ℕ
  pub last_server_seq : ℕ
  pub connection_state : ConnectionState
  pub last_error_kind : IssueKind
  pub last_error : String

-- the one row of `workspace_state`
pub record StateRow : Type 0 where
  pub server_url : Option String
  pub workspace_id : Option String
  pub session_token : Option String
  pub session_expires_at : Option ℕ
  pub last_server_seq : ℕ
  pub connection_state : ConnectionState
  pub last_error_kind : Option IssueKind
  pub last_error : Option String

-- a row of `roots`, which is read as it is stored
pub record Root : Type 0 where
  pub root_id : String
  pub kind : RootKind
  pub home_rel_path : String
  pub target_abs_path : String
  pub state : RootState
  pub latest_snapshot_seq : ℕ
  pub last_scan_at : Option ℕ

pub record Entry : Type 0 where
  pub root_id : String
  pub rel_path : String
  pub path_id : String
  pub kind : RootKind
  pub current_seq : ℕ
  pub content_sha256 : String
  pub size_bytes : ℕ
  pub mode : ℕ
  pub mtime_ns : ℤ
  pub inode : ℕ
  pub device : ℕ
  pub deleted : Bool

pub record EntryRow : Type 0 where
  pub root_id : String
  pub rel_path : String
  pub path_id : String
  pub kind : RootKind
  pub current_seq : ℕ
  pub content_sha256 : Option String
  pub size_bytes : Option ℕ
  pub mode : ℕ
  pub mtime_ns : ℤ
  pub inode : Option ℕ
  pub device : Option ℕ
  pub deleted : ℕ

pub data OpType : Type 0 where
  rescan_root recover_initial_root root_removal : OpType
  other_op : String → OpType

pub record PendingOp : Type 0 where
  pub op_id : String
  pub root_id : String
  pub rel_path : String
  pub op_type : OpType
  pub base_seq : ℕ
  pub payload_json : String
  pub status : String
  pub retry_count : ℕ
  pub last_error : String
  pub next_retry_at : ℕ
  pub created_at : ℕ

pub record PendingRow : Type 0 where
  pub op_id : String
  pub root_id : String
  pub rel_path : String
  pub op_type : OpType
  pub base_seq : ℕ
  pub payload_json : String
  pub status : String
  pub retry_count : ℕ
  pub last_error : Option String
  pub next_retry_at : Option ℕ
  pub created_at : ℕ

pub record IgnoreRule : Type 0 where
  pub root_id : String
  pub rel_path : String
  pub expires_at : ℕ
  pub kind : RootKind
  pub content_sha256 : String
  pub mode : ℕ
  pub mtime_ns : ℤ
  pub deleted : Bool

-- `mode` and `mtime_ns` are NULL in no row that the program writes.
pub record IgnoreRow : Type 0 where
  pub root_id : String
  pub rel_path : String
  pub expires_at : ℕ
  pub kind : Option RootKind
  pub content_sha256 : Option String
  pub mode : Option ℕ
  pub mtime_ns : Option ℤ
  pub deleted : ℕ

pub record Warning : Type 0 where
  pub key : String
  pub message : String
  pub created_at : ℕ

pub record StateDb : Type 0 where
  pub workspace : StateRow
  pub roots : List Root
  pub entries : List EntryRow
  pub pending_ops : List PendingRow
  pub ignore_events : List IgnoreRow
  pub warnings : List Warning

-- the file that `Migrate` has just created
abbrev pub new_state : StateDb
new_state = record {
  workspace = record {
    server_url = Option.none;
    workspace_id = Option.none;
    session_token = Option.none;
    session_expires_at = Option.none;
    last_server_seq = 0;
    connection_state = disconnected;
    last_error_kind = Option.none;
    last_error = Option.none;
  };
  roots = [];
  entries = [];
  pending_ops = [];
  ignore_events = [];
  warnings = [];
}
