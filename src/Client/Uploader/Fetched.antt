-- ===== src/Client/Uploader/Fetched.antt =====
-- A file that one device uploads (internal/client/uploader/uploader.go) is what another one writes
-- (internal/client/applier/applier.go).
use Prim.Native.String.{◌++◌ as append}
use mathlib.Core.Path.{subst}
use syna.Prelude.{
  ℕ, suc, ◌+◌, ◌≤◌, ◌<◌, String, str_eq, eq_iff, ◌==◌, ◌≡◌, refl, sym, ap, ◌∙◌, true, false, not,
  ◌||◌, some, List, [], ◌∷◌, arith, ltb, All, Bool-cases, Option-cases, inl, inr, ℤ,
}
use syna.Prelude.Result.{ok, ok-injective, >>=-eq-ok}
use syna.Client.State.{Root}
use syna.Client.World.{World, ChunkRef, FilePutPayload}
use syna.Client.Applier.{
  succeeds, chunk_size, validate_chunk_ref, encrypted_size, fetch_chunks, total_size, fetch_file,
  ensure_safe_parent_dirs, reject_symlinked,
}
use syna.Client.Uploader.Defs.{
  Read, full, short, end_of_file, read_error, UploadWorld, Upload, chunk_of, with_chunk, no_chunk,
  send_chunk, upload_chunks, upload_file,
}

module _ (w : World) (u : UploadWorld) where
  -- as io.ReadFull reads: a full read has the size of a chunk, a short one is below it
  abbrev pub IsRead : Read → Type 0
  IsRead (full plain) = w.byte_count plain ≡ chunk_size
  IsRead (short plain) = w.byte_count plain < chunk_size
  IsRead end_of_file = Unit
  IsRead read_error = Unit

  -- an object that was sealed is downloaded as it is, and opened as what was sealed
  abbrev pub IsReturned : String → String → Type 0
  IsReturned root_id path_id =
      (i : ℕ) (plain blob : String)
      → u.encrypt_blob root_id path_id i (w.byte_count plain) plain ≡ some blob
      → (w.download (u.object_id blob) (encrypted_size (w.byte_count plain)) ≡ some blob)
        × (w.decrypt_blob root_id path_id i (w.byte_count plain) blob ≡ some plain)

  sent :
      (root_id path_id : String) (i : ℕ) (plain : String) {blob : String}
      → send_chunk w u root_id path_id i plain ≡ ok blob
      → u.encrypt_blob root_id path_id i (w.byte_count plain) plain ≡ some blob
  sent root_id path_id i plain {blob} h =
      elim (Option-cases (u.encrypt_blob root_id path_id i (w.byte_count plain) plain)) [
        | inl none_there ↦ absurd (ground (arith, (rw none_there at h)))
        | inr (b, sealed) ↦
            let (x, sent_up, h2) =
              >>=-eq-ok (succeeds (u.upload (u.object_id b) b)) _ (rw sealed at h) in
            sealed ∙ ap some (ok-injective h2)
      ]

  -- One chunk that was sent is fetched before those that follow it.
  fetch_chunks-sent :
      (root_id path_id : String) (i : ℕ) (plain content : String) (rest : List ChunkRef)
      {blob : String}
      → IsReturned root_id path_id
      → send_chunk w u root_id path_id i plain ≡ ok blob
      → 0 < w.byte_count plain
      → w.byte_count plain ≤ chunk_size
      → fetch_chunks w root_id path_id i (chunk_of w u plain blob ∷ rest) content
        ≡ fetch_chunks w root_id path_id (suc i) rest (append content plain)
  unfolding fetch_chunks validate_chunk_ref
  fetch_chunks-sent root_id path_id i plain content rest {blob} returned h some_bytes fits =
      let (down, opened) = returned i plain blob (sent root_id path_id i plain h) in
      let in_range : (w.byte_count plain == 0 || ltb chunk_size (w.byte_count plain)) ≡ false =
        ground (arith, some_bytes, fits) in
      let same : not (w.byte_count plain == w.byte_count plain) ≡ false = ground arith in
      rw (in_range, down, opened, same) refl

  -- what the chunks of an upload come to when they are fetched
  abbrev pub IsFetched : String → String → ℕ → String → Upload → Type 0
  IsFetched root_id path_id i content r =
      (fetch_chunks w root_id path_id i r.chunks content ≡ ok r.content)
      × (total_size w r.chunks ≡ r.total)

  with_chunk-IsFetched :
      (root_id path_id : String) (i : ℕ) (plain content : String) (rest : Upload) {blob : String}
      → IsReturned root_id path_id
      → send_chunk w u root_id path_id i plain ≡ ok blob
      → 0 < w.byte_count plain
      → w.byte_count plain ≤ chunk_size
      → IsFetched root_id path_id (suc i) (append content plain) rest
      → IsFetched root_id path_id i content (with_chunk w u plain blob rest)
  with_chunk-IsFetched root_id path_id i plain content rest {blob} returned h some_bytes fits
        later =
      (
        fetch_chunks-sent root_id path_id i plain content rest.chunks returned h some_bytes fits
            ∙ later.0,
        ap (λ n. w.byte_count plain + n) later.1,
      )

  upload_chunks-IsFetched :
      (root_id path_id : String) (i : ℕ) (content : String) (reads : List Read) {r : Upload}
      → IsReturned root_id path_id
      → All IsRead reads
      → upload_chunks w u root_id path_id i content reads ≡ ok r
      → IsFetched root_id path_id i content r
  unfolding upload_chunks fetch_chunks
  upload_chunks-IsFetched root_id path_id i content [] returned is_read h =
      subst (IsFetched root_id path_id i content) (ok-injective h) (refl, refl)
  upload_chunks-IsFetched root_id path_id i content (end_of_file ∷ reads) returned is_read h =
      subst (IsFetched root_id path_id i content) (ok-injective h) (refl, refl)
  upload_chunks-IsFetched root_id path_id i content (read_error ∷ reads) returned is_read h = cc
  upload_chunks-IsFetched root_id path_id i content (short plain ∷ reads) returned is_read h =
      elim (Bool-cases (w.byte_count plain == 0)) [
        | inl blank ↦
            subst (IsFetched root_id path_id i content) (ok-injective (rw blank at h)) (refl, refl)
        | inr some_bytes ↦
            let (blob, sent_up, h2) =
              >>=-eq-ok (send_chunk w u root_id path_id i plain) _ (rw some_bytes at h) in
            subst (IsFetched root_id path_id i content) (ok-injective h2) (
              with_chunk-IsFetched root_id path_id i plain content
                (no_chunk w u (append content plain)) returned sent_up (ground (arith, some_bytes))
                (omega (arith, is_read.0)) (refl, refl))
      ]
  upload_chunks-IsFetched root_id path_id i content (full plain ∷ reads) returned is_read h =
      let (blob, sent_up, h2) = >>=-eq-ok (send_chunk w u root_id path_id i plain) _ h in
      let (rest, later, h3) =
        >>=-eq-ok (upload_chunks w u root_id path_id (suc i) (append content plain) reads) _ h2 in
      subst (IsFetched root_id path_id i content) (ok-injective h3) (
        with_chunk-IsFetched root_id path_id i plain content rest returned sent_up
          (omega (arith, is_read.0)) (omega (arith, is_read.0))
          (upload_chunks-IsFetched root_id path_id (suc i) (append content plain) reads returned
            is_read.1 later))

  fetch_file-of :
      (root : Root) (target path_id : String) (p : FilePutPayload) (content : String)
      → fetch_chunks w root.root_id path_id 0 p.chunks "" ≡ ok content
      → total_size w p.chunks ≡ p.size_bytes
      → w.sha256_hex content ≡ p.content_sha256
      → ensure_safe_parent_dirs w root target ≡ ok tt
      → w.create_temp (w.pkg.dir target) ≡ true
      → w.commit_temp target ≡ true
      → reject_symlinked w root target ≡ ok tt
      → w.rename target ≡ true
      → fetch_file w root target path_id p ≡ ok content
  unfolding fetch_file
  fetch_file-of root target path_id p content fetched size digest parents temp commit links
        renamed =
      let same_size : not (total_size w p.chunks == p.size_bytes) ≡ false = ground (arith, size) in
      let same_digest : not (str_eq (w.sha256_hex content) p.content_sha256) ≡ false =
        ground (arith, (eq_iff (w.sha256_hex content) p.content_sha256).1 digest) in
      rw (parents, temp, fetched, same_size, same_digest, commit, links, renamed) refl

  -- Where reads are as io.ReadFull makes them, sealed objects are returned as they are, and the calls
  -- on the disk succeed, a file that was uploaded is fetched, by the payload of the upload, as the
  -- content that the upload has hashed.
  pub fetch_file-upload_file :
      (root : Root) (target path_id rel_path : String) (mode : ℕ) (mtime_ns : ℤ) (reads : List Read)
      {r : FilePutPayload × List String}
      → IsReturned root.root_id path_id
      → All IsRead reads
      → upload_file w u root.root_id path_id rel_path mode mtime_ns reads ≡ ok r
      → ensure_safe_parent_dirs w root target ≡ ok tt
      → w.create_temp (w.pkg.dir target) ≡ true
      → w.commit_temp target ≡ true
      → reject_symlinked w root target ≡ ok tt
      → w.rename target ≡ true
      → (x : Upload) × (upload_chunks w u root.root_id path_id 0 "" reads ≡ ok x)
        × (fetch_file w root target path_id r.0 ≡ ok x.content)
  unfolding upload_file
  fetch_file-upload_file root target path_id rel_path mode mtime_ns reads {r} returned is_read h
        parents temp commit links renamed =
      let (x, sent_up, h2) = >>=-eq-ok (upload_chunks w u root.root_id path_id 0 "" reads) _ h in
      let (fetched, size) =
        upload_chunks-IsFetched root.root_id path_id 0 "" reads returned is_read sent_up in
      let same = ok-injective h2 in
      (
        x,
        sent_up,
        ap (λ (p : FilePutPayload × List String). fetch_file w root target path_id p.0) (sym same)
            ∙ fetch_file-of root target path_id _ x.content fetched size refl parents temp commit
                links renamed,
      )
