-- ===== src/Client/Applier/Applied.antt =====
-- What an applied event (internal/client/applier/applier.go) leaves on the disk and in the database.
use mathlib.Core.Path.{ap, subst}
use syna.Prelude.{
  String, ◌≡◌, arith, not, true, sym, refl, Bool, false, List, All, Bool-cases, inl, inr,
}
use syna.Prelude.Result.{ok, ok-injective, >>=-eq-ok, fail_if-eq-ok}
use syna.Protocol.{
  RootKind, EventRecord, EventType, dir_put, file_put, delete, root_add, root_remove, unknown,
}
use syna.Paths.{IsWithin}
use syna.Client.State.{
  StateDb, Root, Entry, insert_entry, upsert_entry, set_ignore, set_ignore_delete,
  mark_entry_deleted,
}
use syna.Client.World.{World, DirPutPayload, FilePutPayload, DeletePayload}
use syna.Client.Applier.Defs.{
  is_dir_kind, failure, DiskOp, ensured_dir, made_temp, parents_of, made_dir, wrote_file,
  removed_all, event_path_id, required, validate_dir_put_target, validate_file_put_target,
  resolve_content_target, ensure_safe_dir_target, fetch_file, reject_symlinked,
}
use syna.Client.Applier.Events.{
  apply_dir_put, apply_file_put, apply_delete, apply_plain, apply_event,
}
use syna.Client.Applier.Targets.{
  IsIdempotent, validate_dir_put_target-IsTarget, validate_file_put_target-IsTarget,
  resolve_content_target-IsTarget, fetch_file-digest, fetch_file-IsWithin,
}

module _ (w : World) where
  -- where directories may be made: under the root, or for a root that is a file under the directory
  -- that holds it
  abbrev pub base_of : Root → RootKind → String
  base_of root RootKind.file = w.pkg.dir root.target_abs_path
  base_of root _ = root.target_abs_path

  parents-base :
      (root : Root) (kind : RootKind) (target : String)
      → (parents_of w root kind target).0 ≡ base_of root kind
  parents-base root RootKind.file target = refl
  parents-base root RootKind.dir target = refl
  parents-base root (RootKind.other s) target = refl

  dir-base :
      (root : Root) (kind : RootKind)
      → is_dir_kind kind ≡ true
      → base_of root kind ≡ root.target_abs_path
  dir-base root RootKind.dir h = refl
  dir-base root RootKind.file h = cc
  dir-base root (RootKind.other s) h = refl

  ensured-dir :
      (root : Root) (target : String)
      → ensure_safe_dir_target w root target ≡ ok tt
      → is_dir_kind root.kind ≡ true
  unfolding ensure_safe_dir_target
  ensured-dir root target h =
      let (kind, h1) = fail_if-eq-ok (not (is_dir_kind root.kind)) failure _ h in
      ground (arith, kind)

  -- Directories were made within the base of the root, a temporary file beside a file of the root, and
  -- all else was done in the root; a file that was written has the digest that the entry says.
  abbrev pub IsOpOf : Root → Entry → DiskOp → Type 0
  IsOpOf root e (ensured_dir base directory) =
      (base ≡ base_of root root.kind) × IsWithin w.pkg base directory
  IsOpOf root e (made_temp directory) =
      (target : String) × IsWithin w.pkg root.target_abs_path target
      × (directory ≡ w.pkg.dir target)
  IsOpOf root e (made_dir target mode mtime) = IsWithin w.pkg root.target_abs_path target
  IsOpOf root e (wrote_file target content mode mtime) =
      IsWithin w.pkg root.target_abs_path target × (w.sha256_hex content ≡ e.content_sha256)
  IsOpOf root e (removed_all target) = IsWithin w.pkg root.target_abs_path target

  pub record IsApplied (root : Root) (event : EventRecord) (d : StateDb) (r : StateDb × List DiskOp)
      : Type 0 where
    pub entry : Entry
    pub written : (r.0).entries ≡ insert_entry entry d.entries
    pub own_root : entry.root_id ≡ root.root_id
    pub own_path : entry.path_id ≡ event_path_id event.path_id
    pub own_seq : entry.current_seq ≡ event.seq
    pub same_workspace : (r.0).workspace ≡ d.workspace
    pub same_roots : (r.0).roots ≡ d.roots
    pub on_disk : All (IsOpOf root entry) r.1

  -- an entry put into a database whose entries, workspace and roots are as before
  entered-IsApplied :
      (root : Root) (event : EventRecord) (d between : StateDb) (e : Entry) (ops : List DiskOp)
      → between.entries ≡ d.entries
      → between.workspace ≡ d.workspace
      → between.roots ≡ d.roots
      → e.root_id ≡ root.root_id
      → e.path_id ≡ event_path_id event.path_id
      → e.current_seq ≡ event.seq
      → All (IsOpOf root e) ops
      → IsApplied root event d (record between { entries = insert_entry e between.entries }, ops)
  entered-IsApplied root event d between e ops entries workspace roots own_root own_path own_seq
        on_disk =
      record {
        entry = e;
        written = ap (insert_entry e) entries;
        own_root = own_root;
        own_path = own_path;
        own_seq = own_seq;
        same_workspace = workspace;
        same_roots = roots;
        on_disk = on_disk;
      }

  apply_dir_put-IsApplied :
      (root : Root) (event : EventRecord) (stage_only : Bool) (d : StateDb) (p : DirPutPayload)
      {r : StateDb × List DiskOp}
      → IsIdempotent w.pkg.clean
      → apply_dir_put w root event stage_only d p ≡ ok r
      → IsApplied root event d r
  unfolding apply_dir_put upsert_entry set_ignore
  apply_dir_put-IsApplied root event stage_only d p idem h =
      let (t, found, h1) = >>=-eq-ok (validate_dir_put_target w root p.path event.path_id) _ h in
      let (inside, same_path) =
        validate_dir_put_target-IsTarget w root p.path event.path_id idem found in
      elim (Bool-cases stage_only) [
        | inl staged ↦
            subst (IsApplied root event d) (ok-injective (rw staged at h1))
              (entered-IsApplied root event d _ _ _ refl refl refl refl same_path refl tt)
        | inr live ↦
            let (u, made, h2) = >>=-eq-ok (ensure_safe_dir_target w root t.1) _ (rw live at h1) in
            subst (IsApplied root event d) (ok-injective h2) (
              entered-IsApplied root event d _ _ _ refl refl refl refl same_path refl
                ((sym (dir-base root root.kind (ensured-dir root t.1 made)), inside), (inside, tt)))
      ]

  apply_file_put-IsApplied :
      (root : Root) (event : EventRecord) (stage_only : Bool) (d : StateDb) (p : FilePutPayload)
      {r : StateDb × List DiskOp}
      → IsIdempotent w.pkg.clean
      → apply_file_put w root event stage_only d p ≡ ok r
      → IsApplied root event d r
  unfolding apply_file_put upsert_entry set_ignore
  apply_file_put-IsApplied root event stage_only d p idem h =
      let (t, found, h1) = >>=-eq-ok (validate_file_put_target w root p.path event.path_id) _ h in
      let (inside, same_path) =
        validate_file_put_target-IsTarget w root p.path event.path_id idem found in
      elim (Bool-cases stage_only) [
        | inl staged ↦
            subst (IsApplied root event d) (ok-injective (rw staged at h1))
              (entered-IsApplied root event d _ _ _ refl refl refl refl same_path refl tt)
        | inr live ↦
            let (u, done, h2) =
              >>=-eq-ok (fetch_file w root t.1 (w.path_id root.root_id t.0) p) _ (rw live at h1) in
            subst (IsApplied root event d) (ok-injective h2) (
              entered-IsApplied root event d _ _ _ refl refl refl refl same_path refl (
                (
                  (parents-base root root.kind t.1),
                  fetch_file-IsWithin w root t.1 (w.path_id root.root_id t.0) p idem done,
                ),
                (
                  (t.1, inside, refl),
                  ((inside, fetch_file-digest w root t.1 (w.path_id root.root_id t.0) p done), tt),
                ),
              ))
      ]

  apply_delete-IsApplied :
      (root : Root) (event : EventRecord) (stage_only : Bool) (d : StateDb) (p : DeletePayload)
      {r : StateDb × List DiskOp}
      → IsIdempotent w.pkg.clean
      → apply_delete w root event stage_only d p ≡ ok r
      → IsApplied root event d r
  unfolding apply_delete mark_entry_deleted set_ignore set_ignore_delete
  apply_delete-IsApplied root event stage_only d p idem h =
      let (t, found, h1) =
        >>=-eq-ok (resolve_content_target w root p.path false event.path_id) _ h in
      let (inside, same_path) =
        resolve_content_target-IsTarget w root p.path false event.path_id idem found in
      elim (Bool-cases stage_only) [
        | inl staged ↦
            subst (IsApplied root event d) (ok-injective (rw staged at h1))
              (entered-IsApplied root event d _ _ _ refl refl refl refl same_path refl tt)
        | inr live ↦
            let (u, done, h2) = >>=-eq-ok (reject_symlinked w root t.1) _ (rw live at h1) in
            subst (IsApplied root event d) (ok-injective h2)
              (entered-IsApplied root event d _ _ _ refl refl refl refl same_path refl (inside, tt))
      ]

  apply_plain-IsApplied :
      (root : Root) (event : EventRecord) (stage_only : Bool) (d : StateDb) (plain : String)
      (type : EventType) {r : StateDb × List DiskOp}
      → IsIdempotent w.pkg.clean
      → apply_plain w root event stage_only d plain type ≡ ok r
      → IsApplied root event d r
  apply_plain-IsApplied root event stage_only d plain dir_put idem h =
      let (p, parsed, h1) = >>=-eq-ok (required (w.parse_dir_put plain)) _ h in
      apply_dir_put-IsApplied root event stage_only d p idem h1
  apply_plain-IsApplied root event stage_only d plain file_put idem h =
      let (p, parsed, h1) = >>=-eq-ok (required (w.parse_file_put plain)) _ h in
      apply_file_put-IsApplied root event stage_only d p idem h1
  apply_plain-IsApplied root event stage_only d plain delete idem h =
      let (p, parsed, h1) = >>=-eq-ok (required (w.parse_delete plain)) _ h in
      apply_delete-IsApplied root event stage_only d p idem h1
  apply_plain-IsApplied root event stage_only d plain root_add idem h = cc
  apply_plain-IsApplied root event stage_only d plain root_remove idem h = cc
  apply_plain-IsApplied root event stage_only d plain (unknown s) idem h = cc

  -- Where cleaning a path twice is cleaning it once, an event that was applied has written, removed or
  -- given a mode only to what is its root or under it, and has written only a file with the digest of
  -- its entry; has made directories only from its root down, or for a root that is a file from the
  -- directory that holds it down; has had its temporary file only in the directory of a path that is
  -- its root or under it; and has left in the database, of the entries, the one of its own root, path id and sequence, and the roots and the
  -- state of the workspace as they were.
  pub apply_event-IsApplied :
      (root : Root) (event : EventRecord) (stage_only : Bool) (d : StateDb)
      {r : StateDb × List DiskOp}
      → IsIdempotent w.pkg.clean
      → apply_event w root event stage_only d ≡ ok r
      → IsApplied root event d r
  unfolding apply_event
  apply_event-IsApplied root event stage_only d idem h =
      let (plain, opened, h1) =
        >>=-eq-ok
          (required (
            w.decrypt_event event.root_id (event_path_id event.path_id) event.event_type
              event.payload_blob))
          _ h in
      apply_plain-IsApplied root event stage_only d plain event.event_type idem h1
