-- ===== src/Client/World.antt =====
-- What the client's code calls outside the repository: the system, the cryptography and the JSON
-- decoders, with the payloads of internal/common/protocol/types.go that they return. Sizes and modes
-- that a device has written into a payload are natural numbers.
use syna.Prelude.{ℕ, String, ℤ, Bool, Option, List}
use syna.Protocol.{EventType, RootKind}
use syna.Paths.{PathPackage, Lstat}

pub record ChunkRef : Type 0 where
  pub object_id : String
  pub plain_size : ℕ

pub record RootAddPayload : Type 0 where
  pub root_id : String
  pub kind : RootKind
  pub home_rel_path : String

pub record DirPutPayload : Type 0 where
  pub path : String
  pub mode : ℕ
  pub mtime_ns : ℤ

pub record FilePutPayload : Type 0 where
  pub path : String
  pub mode : ℕ
  pub mtime_ns : ℤ
  pub size_bytes : ℕ
  pub content_sha256 : String
  pub chunks : List ChunkRef

pub record DeletePayload : Type 0 where
  pub path : String

pub record World : Type 0 where
  pub pkg : PathPackage
  -- os.UserHomeDir, cleaned; `none` where there is no home
  pub home : Option String
  pub device_id : String
  -- the clock
  pub now : ℕ
  -- ParseBase64Raw and Decrypt of an event, with the root, the path and the type that it is bound to
  pub decrypt_event : String → String → EventType → String → Option String
  -- json.Unmarshal
  pub parse_root_add : String → Option RootAddPayload
  pub parse_dir_put : String → Option DirPutPayload
  pub parse_file_put : String → Option FilePutPayload
  pub parse_delete : String → Option DeletePayload
  -- commoncrypto.RootID and PathID
  pub root_id : String → String
  pub path_id : String → String → String
  -- the download of an object of at most so many bytes, and its decryption as the chunk of the root,
  -- the path, the index and the size that it is bound to
  pub download : String → ℕ → Option String
  pub decrypt_blob : String → String → ℕ → ℕ → String → Option String
  pub byte_count : String → ℕ
  -- sha256 in hexadecimal
  pub sha256_hex : String → String
  pub lstat : String → Lstat
  -- does os.ReadDir find anything?
  pub has_entries : String → Bool
  -- does EnsureSafeDir succeed on the base and the directory?
  pub ensure_safe_dir : String → String → Bool
  -- do CreateTemp, Sync and Close, and Rename succeed?
  pub create_temp : String → Bool
  pub commit_temp : String → Bool
  pub rename : String → Bool
