-- ===== src/Client/Applier/Defs.antt =====
-- internal/client/applier/applier.go: the checks of an event's path, and how its file is fetched.
use Prim.Native.String.{◌++◌ as append}
use syna.Prelude.{
  ℕ, suc, ◌+◌, String, str_eq, ◌==◌, ℤ, Bool, true, false, not, ◌&&◌, ◌||◌, Option, none, some,
  List, [], ◌∷◌, ltb,
}
use syna.Prelude.Result.{Result, ok, err, ◌>>=◌, ◌>>◌, fail_if}
use syna.Protocol.{RootKind}
use syna.Paths.{PathError, rel_within_root, resolve_remote_target, reject_symlink_parents}
use syna.Client.State.{Root}
use syna.Client.World.{World, ChunkRef, FilePutPayload}

-- an IntegrityError, which the caller logs and passes over, or any other error
pub data Failure : Type 0 where
  integrity : String → Failure
  failure : Failure

-- what is done on the disk, each with the paths it is done at
pub data DiskOp : Type 0 where
  -- EnsureSafeDir of a base and a directory, which makes what is missing from the one to the other
  ensured_dir : String → String → DiskOp
  -- the temporary file of CreateTemp in a directory, which Rename then puts at the target
  made_temp : String → DiskOp
  made_dir : String → ℕ → ℤ → DiskOp
  wrote_file : String → String → ℕ → ℤ → DiskOp
  removed_all : String → DiskOp

-- `if err != nil { return err }` after a call of the world
abbrev pub required : {A : Type 0} → Option A → Result Failure A
required none = err failure
required (some a) = ok a

abbrev pub succeeds : Bool → Result Failure (Unit {0})
succeeds done = fail_if (not done) failure

-- an error of internal/common/paths, as it is or as an IntegrityError
abbrev pub path_checked : {A : Type 0} → Failure → Result PathError A → Result Failure A
path_checked f (err e) = err f
path_checked f (ok a) = ok a

abbrev pub event_path_id : Option String → String
event_path_id none = ""
event_path_id (some p) = p

abbrev pub is_file_kind : RootKind → Bool
is_file_kind RootKind.file = true
is_file_kind _ = false

abbrev pub is_dir_kind : RootKind → Bool
is_dir_kind RootKind.dir = true
is_dir_kind _ = false

-- MaxFileChunkPlainSize
abbrev pub chunk_size : ℕ
chunk_size = 4_194_304

unfoldable pub validate_chunk_ref : ChunkRef → Result Failure (Unit {0})
validate_chunk_ref chunk =
    fail_if (chunk.plain_size == 0 || ltb chunk_size chunk.plain_size)
      (integrity "rejected remote file chunk outside allowed size limits")

-- the version, the nonce of XChaCha20 and the tag of Poly1305
unfoldable pub encrypted_size : ℕ → ℕ
encrypted_size plain_size = plain_size + 1 + 24 + 16

module _ (w : World) where
  -- the path in the root and the file it leads to
  abbrev pub target_in : Root → RootKind → String → Bool → Result Failure (String × String)
  target_in root RootKind.dir raw allow_root =
      path_checked (integrity "rejected remote event with invalid path")
        (resolve_remote_target w.pkg root.target_abs_path raw allow_root)
  target_in root RootKind.file raw allow_root = do
    fail_if (not (str_eq raw "") || not allow_root)
        (integrity "rejected remote event path outside file root")
    ok ("", w.pkg.clean root.target_abs_path)
  target_in root (RootKind.other s) raw allow_root = err failure

  unfoldable pub resolve_content_target :
      Root → String → Bool → Option String → Result Failure (String × String)
  resolve_content_target root raw allow_root event_path = do
    fail_if (str_eq (event_path_id event_path) "")
        (integrity "rejected remote event with missing path_id")
    t ← target_in root root.kind raw allow_root
    fail_if (not (str_eq (w.path_id root.root_id t.0) (event_path_id event_path)))
        (integrity "rejected remote event with mismatched path_id")
    ok t

  unfoldable pub validate_dir_put_target :
      Root → String → Option String → Result Failure (String × String)
  validate_dir_put_target root raw event_path = do
    t ← resolve_content_target root raw true event_path
    fail_if (str_eq t.0 "" && not (is_dir_kind root.kind))
        (integrity "rejected remote dir_put for non-directory root")
    ok t

  unfoldable pub validate_file_put_target :
      Root → String → Option String → Result Failure (String × String)
  validate_file_put_target root raw event_path = do
    t ← resolve_content_target root raw true event_path
    fail_if (str_eq t.0 "" && not (is_file_kind root.kind))
        (integrity "rejected remote file_put for directory root")
    ok t

  -- `EnsureSafeDir`, which refuses a directory that is not within its base
  unfoldable pub ensure_safe_dir : String → String → Result Failure (Unit {0})
  ensure_safe_dir root_abs dir_abs = do
    path_checked failure (rel_within_root w.pkg (w.pkg.clean root_abs) (w.pkg.clean dir_abs))
    succeeds (w.ensure_safe_dir root_abs dir_abs)

  unfoldable pub ensure_safe_dir_target : Root → String → Result Failure (Unit {0})
  ensure_safe_dir_target root target = do
    fail_if (not (is_dir_kind root.kind)) failure
    ensure_safe_dir root.target_abs_path target

  -- the base and the directory of the call; EnsureSafeParents cleans the target before it takes its
  -- directory
  abbrev pub parents_of : Root → RootKind → String → String × String
  parents_of root RootKind.file target = (w.pkg.dir root.target_abs_path, w.pkg.dir target)
  parents_of root _ target = (root.target_abs_path, w.pkg.dir (w.pkg.clean target))

  abbrev pub has_parents : RootKind → Bool
  has_parents kind = is_dir_kind kind || is_file_kind kind

  unfoldable pub ensure_safe_parent_dirs : Root → String → Result Failure (Unit {0})
  ensure_safe_parent_dirs root target = do
    fail_if (not (has_parents root.kind)) failure
    let (base, directory) = parents_of root root.kind target
    ensure_safe_dir base directory

  abbrev pub symlink_parents_of : Root → RootKind → String → Result Failure (Unit {0})
  symlink_parents_of root RootKind.dir target =
      path_checked failure (reject_symlink_parents w.pkg w.lstat root.target_abs_path target)
  symlink_parents_of root RootKind.file target =
      path_checked failure
        (reject_symlink_parents w.pkg w.lstat (w.pkg.dir root.target_abs_path) target)
  symlink_parents_of root (RootKind.other s) target = err failure

  unfoldable pub reject_symlinked : Root → String → Result Failure (Unit {0})
  reject_symlinked root target = symlink_parents_of root root.kind target

  -- the temporary file after the chunks from the index on
  unfoldable pub fetch_chunks : String → String → ℕ → List ChunkRef → String → Result Failure String
  fetch_chunks root_id path_id i [] content = ok content
  fetch_chunks root_id path_id i (chunk ∷ chunks) content = do
    validate_chunk_ref chunk
    encrypted ← required (w.download chunk.object_id (encrypted_size chunk.plain_size))
    plain ← required (w.decrypt_blob root_id path_id i chunk.plain_size encrypted)
    fail_if (not (w.byte_count plain == chunk.plain_size))
        (integrity "rejected remote file_put with inconsistent chunk size")
    fetch_chunks root_id path_id (suc i) chunks (append content plain)

  -- the sum of the chunks' sizes, which `fetch_chunks` has checked
  abbrev pub total_size : List ChunkRef → ℕ
  total_size [] = 0
  total_size (chunk ∷ chunks) = chunk.plain_size + total_size chunks

  unfoldable pub fetch_file : Root → String → String → FilePutPayload → Result Failure String
  fetch_file root target path_id p = do
    ensure_safe_parent_dirs root target
    succeeds (w.create_temp (w.pkg.dir target))
    content ← fetch_chunks root.root_id path_id 0 p.chunks ""
    fail_if (not (total_size p.chunks == p.size_bytes))
        (integrity "rejected remote file_put with inconsistent size metadata")
    fail_if (not (str_eq (w.sha256_hex content) p.content_sha256))
        (integrity "rejected remote file_put with inconsistent content digest")
    succeeds (w.commit_temp target)
    reject_symlinked root target
    succeeds (w.rename target)
    ok content
