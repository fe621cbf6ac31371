-- ===== src/Client/Applier/Targets.antt =====
-- Where an event of another device leads (internal/client/applier/applier.go): a file in its root,
-- the one that its path id stands for.
use syna.Prelude.{
  String, str_eq, eq_iff, ◌≡◌, sym, ap, ◌∙◌, Bool, true, not, ◌||◌, ◌&&◌, Option, arith, inl, ◌==◌,
}
use syna.Prelude.Result.{Result, ok, err, ok-injective, >>=-eq-ok, fail_if-eq-ok}
use syna.Protocol.{RootKind}
use syna.Paths.{
  PathError, IsWithin, resolve_remote_target, resolve_remote_target-IsWithin, rel_within_root,
  rel_within_root-IsWithin,
}
use syna.Client.State.{Root}
use syna.Client.World.{World, FilePutPayload}
use syna.Client.Applier.Defs.{
  Failure, integrity, failure, ensure_safe_dir, parents_of, has_parents, path_checked,
  event_path_id, is_dir_kind, is_file_kind, target_in, resolve_content_target,
  validate_dir_put_target, validate_file_put_target, fetch_file, fetch_chunks, total_size, succeeds,
  ensure_safe_parent_dirs, reject_symlinked,
}

-- cleaning a path twice is cleaning it once
abbrev pub IsIdempotent : (String → String) → Type 0
IsIdempotent clean = (p : String) → clean (clean p) ≡ clean p

path_checked-ok :
    {A : Type 0} (f : Failure) (m : Result PathError A) {a : A} → path_checked f m ≡ ok a → m ≡ ok a
path_checked-ok f (err e) h = cc
path_checked-ok f (ok a) h = ap ok (ok-injective h)

module _ (w : World) where
  target_in-IsWithin :
      (root : Root) (kind : RootKind) (raw : String) (allow_root : Bool) {t : String × String}
      → IsIdempotent w.pkg.clean
      → target_in w root kind raw allow_root ≡ ok t
      → IsWithin w.pkg root.target_abs_path t.1
  target_in-IsWithin root RootKind.dir raw allow_root idem h =
      (resolve_remote_target-IsWithin w.pkg root.target_abs_path raw allow_root
        (path_checked-ok _ (resolve_remote_target w.pkg root.target_abs_path raw allow_root) h)).0
  target_in-IsWithin root RootKind.file raw allow_root {t} idem h =
      let (own, h1) =
        fail_if-eq-ok (not (str_eq raw "") || not allow_root)
          (integrity "rejected remote event path outside file root") _ h in
      inl (ap (λ p. w.pkg.clean p.1) (sym (ok-injective h1)) ∙ idem root.target_abs_path)
  target_in-IsWithin root (RootKind.other s) raw allow_root idem h = cc

  -- the file is in the root, and the path in the root is the one of the event's path id
  abbrev pub IsTarget : Root → Option String → String × String → Type 0
  IsTarget root event_path t =
      IsWithin w.pkg root.target_abs_path t.1
      × (w.path_id root.root_id t.0 ≡ event_path_id event_path)

  pub resolve_content_target-IsTarget :
      (root : Root) (raw : String) (allow_root : Bool) (event_path : Option String)
      {t : String × String}
      → IsIdempotent w.pkg.clean
      → resolve_content_target w root raw allow_root event_path ≡ ok t
      → IsTarget root event_path t
  unfolding resolve_content_target
  resolve_content_target-IsTarget root raw allow_root event_path {t} idem h =
      let (named, h1) =
        fail_if-eq-ok (str_eq (event_path_id event_path) "")
          (integrity "rejected remote event with missing path_id") _ h in
      let (u, found, h2) = >>=-eq-ok (target_in w root root.kind raw allow_root) _ h1 in
      let (differ, h3) =
        fail_if-eq-ok (not (str_eq (w.path_id root.root_id u.0) (event_path_id event_path)))
          (integrity "rejected remote event with mismatched path_id") _ h2 in
      let e = ok-injective h3 in
      (
        target_in-IsWithin root root.kind raw allow_root idem (found ∙ ap ok e),
        ap (λ p. w.path_id root.root_id p.0) (sym e)
            ∙ (eq_iff (w.path_id root.root_id u.0) (event_path_id event_path)).0
                (ground (arith, differ)),
      )

  pub validate_dir_put_target-IsTarget :
      (root : Root) (raw : String) (event_path : Option String) {t : String × String}
      → IsIdempotent w.pkg.clean
      → validate_dir_put_target w root raw event_path ≡ ok t
      → IsTarget root event_path t
  unfolding validate_dir_put_target
  validate_dir_put_target-IsTarget root raw event_path idem h =
      let (u, found, h1) = >>=-eq-ok (resolve_content_target w root raw true event_path) _ h in
      let (kind, h2) =
        fail_if-eq-ok (str_eq u.0 "" && not (is_dir_kind root.kind))
          (integrity "rejected remote dir_put for non-directory root") _ h1 in
      resolve_content_target-IsTarget root raw true event_path idem
        (found ∙ ap ok (ok-injective h2))

  pub validate_file_put_target-IsTarget :
      (root : Root) (raw : String) (event_path : Option String) {t : String × String}
      → IsIdempotent w.pkg.clean
      → validate_file_put_target w root raw event_path ≡ ok t
      → IsTarget root event_path t
  unfolding validate_file_put_target
  validate_file_put_target-IsTarget root raw event_path idem h =
      let (u, found, h1) = >>=-eq-ok (resolve_content_target w root raw true event_path) _ h in
      let (kind, h2) =
        fail_if-eq-ok (str_eq u.0 "" && not (is_file_kind root.kind))
          (integrity "rejected remote file_put for directory root") _ h1 in
      resolve_content_target-IsTarget root raw true event_path idem
        (found ∙ ap ok (ok-injective h2))

  pub ensure_safe_dir-IsWithin :
      (base directory : String)
      → IsIdempotent w.pkg.clean
      → ensure_safe_dir w base directory ≡ ok tt
      → IsWithin w.pkg base directory
  unfolding ensure_safe_dir
  ensure_safe_dir-IsWithin base directory idem h =
      let (rel, found, h1) =
        >>=-eq-ok
          (path_checked failure (rel_within_root w.pkg (w.pkg.clean base) (w.pkg.clean directory)))
          _ h in
      let within =
        rel_within_root-IsWithin w.pkg (w.pkg.clean base) (w.pkg.clean directory)
          (path_checked-ok failure _ found) in
      rw (idem base, idem directory) at within

  -- The directory that was made for a file is within its base.
  pub fetch_file-IsWithin :
      (root : Root) (target path_id : String) (p : FilePutPayload) {content : String}
      → IsIdempotent w.pkg.clean
      → fetch_file w root target path_id p ≡ ok content
      → IsWithin w.pkg (parents_of w root root.kind target).0 (parents_of w root root.kind target).1
  unfolding fetch_file ensure_safe_parent_dirs
  fetch_file-IsWithin root target path_id p idem h =
      let (u, parents, h1) = >>=-eq-ok (ensure_safe_parent_dirs w root target) _ h in
      let (kind, made) = fail_if-eq-ok (not (has_parents w root.kind)) failure _ parents in
      ensure_safe_dir-IsWithin (parents_of w root root.kind target).0
        (parents_of w root root.kind target).1 idem made

  -- A file that was fetched has the digest of its payload.
  pub fetch_file-digest :
      (root : Root) (target path_id : String) (p : FilePutPayload) {content : String}
      → fetch_file w root target path_id p ≡ ok content
      → w.sha256_hex content ≡ p.content_sha256
  unfolding fetch_file
  fetch_file-digest root target path_id p h =
      let (u, parents, h1) = >>=-eq-ok (ensure_safe_parent_dirs w root target) _ h in
      let (v, temp, h2) = >>=-eq-ok (succeeds (w.create_temp (w.pkg.dir target))) _ h1 in
      let (c, fetched, h3) = >>=-eq-ok (fetch_chunks w root.root_id path_id 0 p.chunks "") _ h2 in
      let (size, h4) =
        fail_if-eq-ok (not (total_size w p.chunks == p.size_bytes))
          (integrity "rejected remote file_put with inconsistent size metadata") _ h3 in
      let (digest, h5) =
        fail_if-eq-ok (not (str_eq (w.sha256_hex c) p.content_sha256))
          (integrity "rejected remote file_put with inconsistent content digest") _ h4 in
      let (x, committed, h6) = >>=-eq-ok (succeeds (w.commit_temp target)) _ h5 in
      let (y, no_link, h7) = >>=-eq-ok (reject_symlinked w root target) _ h6 in
      let (z, renamed, h8) = >>=-eq-ok (succeeds (w.rename target)) _ h7 in
      ap w.sha256_hex (sym (ok-injective h8))
      ∙ (eq_iff (w.sha256_hex c) p.content_sha256).0 (ground (arith, digest))
