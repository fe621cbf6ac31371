-- ===== src/Protocol.antt =====
-- internal/common/protocol/types.go: what clients and server exchange.
use syna.Prelude.{ℕ, String, ℤ, Option, List}

pub data EventType : Type 0 where
  root_add root_remove dir_put file_put delete : EventType
  -- any other text
  unknown : String → EventType

pub data RootKind : Type 0 where
  file dir : RootKind
  -- any other text, the empty one included
  other : String → RootKind

pub record EventSubmitRequest : Type 0 where
  pub root_id : String
  pub path_id : String
  pub root_kind : RootKind
  pub event_type : EventType
  pub base_seq : Option ℤ
  pub root_created_seq : Option ℤ
  pub payload_blob : String
  pub object_refs : List String

pub record EventRecord : Type 0 where
  pub seq : ℕ
  pub root_id : String
  pub path_id : Option String
  pub event_type : EventType
  pub base_seq : Option ℤ
  pub author_device_id : String
  pub payload_blob : String
  pub object_refs : List String
  pub created_at : ℕ

pub record SnapshotSubmitRequest : Type 0 where
  pub root_id : String
  pub object_id : String
  pub base_seq : ℤ
  pub object_refs : List String
