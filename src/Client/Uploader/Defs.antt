-- ===== src/Client/Uploader/Defs.antt =====
-- internal/client/uploader/uploader.go: `UploadFileWithProgress`. What io.ReadFull returns, read by read,
-- is an argument, and so are the encryption and the upload of a chunk. Its report of progress is left
-- out.
use Prim.Native.String.{◌++◌ as append}
use syna.Prelude.{ℕ, suc, ◌+◌, String, ◌==◌, ℤ, Bool, Option, List, [], ◌∷◌, map, if◌then◌else◌}
use syna.Prelude.Result.{Result, ok, err, ◌>>=◌, ◌>>◌}
use syna.Client.World.{World, ChunkRef, FilePutPayload}
use syna.Client.Applier.{Failure, failure, required, succeeds}

-- what io.ReadFull of ChunkSize bytes returns: all of them, fewer with ErrUnexpectedEOF, EOF, or
-- another error
pub data Read : Type 0 where
  full short : String → Read
  end_of_file read_error : Read

pub record UploadWorld : Type 0 where
  -- Encrypt of a chunk as that of the root, the path, the index and the size
  pub encrypt_blob : String → String → ℕ → ℕ → String → Option String
  -- commoncrypto.ObjectID
  pub object_id : String → String
  -- does the upload of the object succeed?
  pub upload : String → String → Bool

-- the chunks, what was hashed, and how many bytes
pub record Upload : Type 0 where
  pub chunks : List ChunkRef
  pub content : String
  pub total : ℕ

module _ (w : World) (u : UploadWorld) where
  abbrev pub chunk_of : String → String → ChunkRef
  chunk_of plain blob = record { object_id = u.object_id blob; plain_size = w.byte_count plain }

  abbrev pub with_chunk : String → String → Upload → Upload
  with_chunk plain blob rest = record {
    chunks = chunk_of plain blob ∷ rest.chunks;
    content = rest.content;
    total = w.byte_count plain + rest.total;
  }

  abbrev pub no_chunk : String → Upload
  no_chunk content = record { chunks = []; content = content; total = 0 }

  -- one chunk is sealed and sent
  abbrev pub send_chunk : String → String → ℕ → String → Result Failure String
  send_chunk root_id path_id i plain = do
    blob ← required (u.encrypt_blob root_id path_id i (w.byte_count plain) plain)
    succeeds (u.upload (u.object_id blob) blob)
    ok blob

  -- the reads from the index on, after the content was hashed
  unfoldable pub upload_chunks : String → String → ℕ → String → List Read → Result Failure Upload
  upload_chunks root_id path_id i content [] = ok (no_chunk content)
  upload_chunks root_id path_id i content (end_of_file ∷ reads) = ok (no_chunk content)
  upload_chunks root_id path_id i content (read_error ∷ reads) = err failure
  upload_chunks root_id path_id i content (short plain ∷ reads) =
      if w.byte_count plain == 0 then ok (no_chunk content) else (do
        blob ← send_chunk root_id path_id i plain
        ok (with_chunk plain blob (no_chunk (append content plain))))
  upload_chunks root_id path_id i content (full plain ∷ reads) = do
    blob ← send_chunk root_id path_id i plain
    rest ← upload_chunks root_id path_id (suc i) (append content plain) reads
    ok (with_chunk plain blob rest)

  unfoldable pub upload_file :
      String → String → String → ℕ → ℤ → List Read → Result Failure (FilePutPayload × List String)
  upload_file root_id path_id rel_path mode mtime_ns reads = do
    r ← upload_chunks root_id path_id 0 "" reads
    ok (
      record {
        path = rel_path;
        mode = mode;
        mtime_ns = mtime_ns;
        size_bytes = r.total;
        content_sha256 = w.sha256_hex r.content;
        chunks = r.chunks;
      },
      map (λ (c : ChunkRef). c.object_id) r.chunks,
    )
