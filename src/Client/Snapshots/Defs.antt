-- ===== src/Client/Snapshots/Defs.antt =====
-- internal/client/daemon/snapshot_apply.go: a file of a snapshot, with the names of conflict copies of
-- internal/client/daemon/conflict.go. The regular files of the disk are a function from paths to
-- contents; they stay as they have become where an application fails. The steps that fetch a file
-- are those of the applier, whose messages differ.
use Prim.Native.String.{◌++◌ as append, slice, len}
use syna.Prelude.{
  ℕ, String, str_eq, ℤ, Bool, false, not, ◌&&◌, ◌||◌, Option, none, some, List, ltb, if◌then◌else◌,
}
use syna.Prelude.Result.{Result, ok, err}
use syna.Protocol.{RootKind}
use syna.Client.State.{Root, Entry}
use syna.Client.World.{World, ChunkRef, FilePutPayload}
use syna.Client.Applier.{Failure, failure, fetch_file}

pub record SnapshotEntry : Type 0 where
  pub path : String
  pub kind : RootKind
  pub mode : ℕ
  pub mtime_ns : ℤ
  pub size_bytes : ℕ
  pub content_sha256 : String
  pub chunks : List ChunkRef

pub record SnapshotPayload : Type 0 where
  pub root_id : String
  pub kind : RootKind
  pub home_rel_path : String
  pub base_seq : ℕ
  pub entries : List SnapshotEntry

-- what the application asks for besides the world of the applier
pub record SnapshotWorld : Type 0 where
  -- Decrypt of a snapshot of the root and the sequence, and json.Unmarshal
  pub decrypt_snapshot : String → ℕ → String → Option String
  pub parse_snapshot : String → Option SnapshotPayload
  -- filepath.Base and filepath.Ext
  pub base : String → String
  pub ext : String → String
  -- the name of the device in lower case, with a dash for each run of other characters than letters
  -- and digits, and none at its ends
  pub device_slug : String
  -- the time in the format 20060102T150405Z
  pub stamp : String
  -- can the file at the path not be opened or read, although there is one?
  pub is_unreadable : String → Bool

abbrev pub Disk : Type 0
Disk = String → Option String

abbrev pub put_file : String → String → Disk → Disk
put_file path content disk p = if str_eq p path then some content else disk p

-- an entry that was not deleted, of that content
abbrev pub has_baseline : String → Option Entry → Bool
has_baseline sha none = false
has_baseline sha (some p) = not p.deleted && str_eq p.content_sha256 sha

-- what is done with the local file: left alone, replaced, or copied and then replaced
pub data Choice : Type 0 where
  keep replace preserve : Choice

-- by the digest of the local file, if there is one, and of the snapshot's
unfoldable pub choose : Option Entry → Option String → String → Choice
choose prior none sha = replace
choose prior (some local_sha) sha =
    if str_eq local_sha sha
    then keep
    else if has_baseline local_sha prior
    then replace
    else if has_baseline sha prior
    then keep
    else preserve

module _ (w : World) (v : SnapshotWorld) where
  unfoldable pub device_short : String
  device_short =
      let slug = if str_eq v.device_slug "" then "device" else v.device_slug in
      if ltb 16 (len slug) then slice slug 0 16 else slug

  abbrev pub conflict_name : String → String
  conflict_name name =
      append (w.pkg.trim_suffix name (v.ext name))
        (append ".syna-conflict-" (append device_short (append "-" (append v.stamp (v.ext name)))))

  unfoldable pub conflict_rel_path : String → String → String
  conflict_rel_path rel_path root_target =
      let base_path = if str_eq rel_path "" then v.base root_target else rel_path in
      let dir = w.pkg.dir base_path in
      let name = conflict_name (v.base base_path) in
      if str_eq dir "." || str_eq dir "" then name else w.pkg.join dir name

  -- the path of the copy that preserveLocalConflictCopy makes
  unfoldable pub conflict_target : Root → String → String → String
  conflict_target root rel_path target =
      w.pkg.join (w.pkg.dir target) (v.base (conflict_rel_path rel_path root.target_abs_path))

  abbrev pub as_file_put : SnapshotEntry → FilePutPayload
  as_file_put e = record {
    path = e.path;
    mode = e.mode;
    mtime_ns = e.mtime_ns;
    size_bytes = e.size_bytes;
    content_sha256 = e.content_sha256;
    chunks = e.chunks;
  }

  -- The file is fetched and takes the place of what is there.
  abbrev pub replaced : String → Disk → Result Failure String → Disk × Result Failure (Unit {0})
  replaced target disk (err e) = (disk, err e)
  replaced target disk (ok content) = (put_file target content disk, ok tt)

  abbrev pub fetched_to :
      Root → String → String → SnapshotEntry → Disk → Disk × Result Failure (Unit {0})
  fetched_to root target path_id e disk =
      replaced target disk (fetch_file w root target path_id (as_file_put e))

  abbrev pub can_copy : String → String → Bool
  can_copy target dst = w.create_temp (w.pkg.dir target) && w.commit_temp dst && w.rename dst

  -- the local content, where there is a regular file
  abbrev pub settled :
      Root
      → String
      → String
      → String
      → SnapshotEntry
      → Disk
      → Option String
      → Choice
      → Disk × Result Failure (Unit {0})
  settled root rel_path target path_id e disk local keep = (disk, ok tt)
  settled root rel_path target path_id e disk local replace = fetched_to root target path_id e disk
  settled root rel_path target path_id e disk none preserve = fetched_to root target path_id e disk
  settled root rel_path target path_id e disk (some content) preserve =
      let dst = conflict_target root rel_path target in
      if can_copy target dst
      then fetched_to root target path_id e (put_file dst content disk)
      else (disk, err failure)

  abbrev pub digest_of : Option String → Option String
  digest_of none = none
  digest_of (some content) = some (w.sha256_hex content)

  unfoldable pub apply_snapshot_file :
      Root
      → String
      → String
      → String
      → SnapshotEntry
      → Option Entry
      → Disk
      → Disk × Result Failure (Unit {0})
  apply_snapshot_file root rel_path target path_id e prior disk =
      if v.is_unreadable target
      then (disk, err failure)
      else settled root rel_path target path_id e disk (disk target)
          (choose prior (digest_of (disk target)) e.content_sha256)
