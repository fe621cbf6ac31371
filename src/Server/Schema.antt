-- ===== src/Server/Schema.antt =====
-- internal/server/db/migrations.go and db.go: the tables, one record for the rows of each, and the
-- database that holds them. A NULL column is `none`; times are nanoseconds.
use syna.Prelude.{ℕ, String, ℤ, Bool, Option, List, []}
use syna.Protocol.{EventType, RootKind}

pub record WorkspaceRow : Type 0 where
  pub workspace_id : String
  pub auth_pubkey : String
  pub current_seq : ℕ
  pub retained_floor_seq : ℕ
  pub created_at : ℕ
  pub updated_at : ℕ

pub record DeviceRow : Type 0 where
  pub workspace_id : String
  pub device_id : String
  pub display_name : String
  pub first_seen_at : ℕ
  pub last_seen_at : ℕ

pub record SessionRow : Type 0 where
  pub token_hash : String
  pub workspace_id : String
  pub device_id : String
  pub issued_at : ℕ
  pub expires_at : ℕ
  pub last_used_at : ℕ

pub record ChallengeRow : Type 0 where
  pub workspace_id : String
  pub device_id : String
  pub client_nonce : String
  pub server_nonce : String
  pub device_name : String
  pub expires_at : ℕ
  pub created_at : ℕ

pub record RootRow : Type 0 where
  pub workspace_id : String
  pub root_id : String
  pub kind : RootKind
  pub descriptor_blob : String
  pub created_seq : ℕ
  pub removed_seq : Option ℕ
  pub latest_snapshot_object_id : Option String
  pub latest_snapshot_seq : Option ℕ
  pub created_at : ℕ
  pub updated_at : ℕ

pub data EntryKind : Type 0 where
  dir_entry file_entry delete_entry : EntryKind

pub record PathHeadRow : Type 0 where
  pub workspace_id : String
  pub root_id : String
  pub path_id : String
  pub entry_kind : EntryKind
  pub current_seq : ℕ
  pub deleted : Bool
  pub updated_at : ℕ

pub record EventRow : Type 0 where
  pub seq : ℕ
  pub workspace_id : String
  pub root_id : String
  pub path_id : Option String
  pub event_type : EventType
  pub base_seq : Option ℤ
  pub author_device_id : String
  pub payload_blob : String
  pub created_at : ℕ

pub record EventObjectRefRow : Type 0 where
  pub event_seq : ℕ
  pub object_id : String

pub record SnapshotRow : Type 0 where
  pub workspace_id : String
  pub root_id : String
  pub object_id : String
  pub base_seq : ℕ
  pub author_device_id : String
  pub created_at : ℕ

pub record SnapshotObjectRefRow : Type 0 where
  pub snapshot_object_id : String
  pub object_id : String

pub record ObjectRow : Type 0 where
  pub object_id : String
  pub kind : String
  pub size_bytes : ℕ
  pub storage_rel_path : String
  pub ref_count : ℕ
  pub zero_ref_at : Option ℕ
  pub created_at : ℕ
  pub last_accessed_at : ℕ

pub record WorkspaceObjectRow : Type 0 where
  pub workspace_id : String
  pub object_id : String
  pub created_at : ℕ

-- `last_event_seq` is the largest key that AUTOINCREMENT has ever given to a row of `events`.
pub record Db : Type 0 where
  pub workspaces : List WorkspaceRow
  pub devices : List DeviceRow
  pub sessions : List SessionRow
  pub session_challenges : List ChallengeRow
  pub roots : List RootRow
  pub path_heads : List PathHeadRow
  pub events : List EventRow
  pub last_event_seq : ℕ
  pub event_object_refs : List EventObjectRefRow
  pub snapshots : List SnapshotRow
  pub snapshot_object_refs : List SnapshotObjectRefRow
  pub objects : List ObjectRow
  pub workspace_objects : List WorkspaceObjectRow
  pub transferred_bytes : Option ℕ

-- a database file that `Migrate` has just created
abbrev pub empty : Db
empty = record {
  workspaces = [];
  devices = [];
  sessions = [];
  session_challenges = [];
  roots = [];
  path_heads = [];
  events = [];
  last_event_seq = 0;
  event_object_refs = [];
  snapshots = [];
  snapshot_object_refs = [];
  objects = [];
  workspace_objects = [];
  transferred_bytes = Option.none;
}

-- db.Session
pub record Session : Type 0 where
  pub workspace_id : String
  pub device_id : String
  pub expires_at : ℕ
