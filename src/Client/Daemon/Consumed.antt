-- ===== src/Client/Daemon/Consumed.antt =====
-- The cursor of a device when it consumes an event (internal/client/daemon/daemon.go).
use syna.Prelude.{
  String, str_eq, ◌≡◌, refl, sym, ap, ◌∙◌, Bool, true, false, not, ◌&&◌, Option, none, some,
  Bool-cases, inl, inr,
}
use syna.Prelude.Result.{Result, ok, err, ok-injective, >>=-eq-ok, fail_if-eq-ok, ◌>>=◌}
use syna.Protocol.{
  EventRecord, EventType, root_add, root_remove, dir_put, file_put, delete, unknown,
}
use syna.Paths.{resolve_home_rel_target}
use syna.Client.State.{
  StateRow, Root, max, advance_last_seq, upsert_root, set_root_state, delete_root_state,
  clear_warnings_with_prefix, root_by_id,
}
use syna.Client.World.{World}
use syna.Client.Applier.{
  Failure, integrity, failure, IsIdempotent, apply_event, apply_event-IsApplied, required,
  path_checked, succeeds, is_dir_kind,
}
use syna.Client.Daemon.Roots.{
  Daemon, Descriptor, ensure_root_from_descriptor, mark_root_removed, mark_staged_root,
  clear_staged_root, is_active_state, new_root, new_dir_root, new_file_root, activated,
  blocked_root, is_known, same_kind, blocks_dir, is_there, is_link, home_dir, is_root_staged,
}
use syna.Client.Daemon.Events.{
  apply_remote_event, apply_typed, consume_remote_event, passed_over, added_root,
  apply_remote_root_add, apply_remote_root_remove, apply_remote_content, descriptor_of, with_db,
  event_materialized_locally,
}
use syna.Client.Daemon.CatchUp.{cursor}

-- the row of the workspace, which an event does not touch
abbrev row : Daemon → StateRow
row s = s.db.workspace

activated-row :
    (w : World) (r : Root) (back : Bool) (s : Daemon) → row (activated w r back s).0 ≡ row s
unfolding mark_staged_root clear_staged_root upsert_root
activated-row w r true s = refl
activated-row w r false s = refl

blocked_root-row : (w : World) (r : Root) (s : Daemon) → row (blocked_root w r s).0 ≡ row s
unfolding clear_staged_root upsert_root
blocked_root-row w r s = refl

new_dir_root-row :
    (w : World) (r : Root) (back : Bool) (s : Daemon) {t : Daemon × Bool}
    → new_dir_root w r back s ≡ ok t
    → row t.0 ≡ row s
new_dir_root-row w r back s {t} h =
    elim (Bool-cases
      (blocks_dir (w.lstat r.target_abs_path) (not back && w.has_entries r.target_abs_path))) [
        | inl blocked ↦
            ap (λ x. row x.0) (sym (ok-injective (rw blocked at h))) ∙ blocked_root-row w r s
        | inr free ↦
            let (home, is_home, h1) = >>=-eq-ok (home_dir w) _ (rw free at h) in
            let (u, made, h2) =
              >>=-eq-ok (succeeds (w.ensure_safe_dir home r.target_abs_path)) _ h1 in
            ap (λ x. row x.0) (sym (ok-injective h2)) ∙ activated-row w r back s
      ]

new_file_root-row :
    (w : World) (r : Root) (back : Bool) (s : Daemon) {t : Daemon × Bool}
    → new_file_root w r back s ≡ ok t
    → row t.0 ≡ row s
new_file_root-row w r back s {t} h =
    elim (Bool-cases (is_there (w.lstat r.target_abs_path) && not back)) [
      | inl blocked ↦
          ap (λ x. row x.0) (sym (ok-injective (rw blocked at h))) ∙ blocked_root-row w r s
      | inr free ↦
          let (link, h0) =
            fail_if-eq-ok (is_link (w.lstat r.target_abs_path))
              (integrity "rejected remote root_add targeting a symlink") _ (rw free at h) in
          let (home, is_home, h1) = >>=-eq-ok (home_dir w) _ h0 in
          let (u, made, h2) =
            >>=-eq-ok (succeeds (w.ensure_safe_dir home (w.pkg.dir r.target_abs_path))) _ h1 in
          ap (λ x. row x.0) (sym (ok-injective h2)) ∙ activated-row w r back s
    ]

new_root-row :
    (w : World) (r : Root) (back : Bool) (s : Daemon) {t : Daemon × Bool}
    → new_root w r back s ≡ ok t
    → row t.0 ≡ row s
new_root-row w r back s {t} h = elim (Bool-cases (is_dir_kind r.kind)) [
  | inl directory ↦ new_dir_root-row w r back s (rw directory at h)
  | inr single ↦ new_file_root-row w r back s (rw single at h)
]

ensure_root_from_descriptor-row :
    (w : World) (root : Descriptor) (s : Daemon) {t : Daemon × Bool}
    → ensure_root_from_descriptor w root s ≡ ok t
    → row t.0 ≡ row s
unfolding ensure_root_from_descriptor upsert_root
ensure_root_from_descriptor-row w root s {t} h =
    let (plain, opened, h1) =
      >>=-eq-ok (required (w.decrypt_event root.root_id "" root_add root.descriptor_blob)) _ h in
    let (p, parsed, h2) = >>=-eq-ok (required (w.parse_root_add plain)) _ h1 in
    let (x, target, h3) =
      >>=-eq-ok
        (path_checked (integrity "rejected remote root_add with invalid home_rel_path")
          (resolve_home_rel_target w.pkg w.home p.home_rel_path))
        _ h2 in
    let (same, h4) =
      fail_if-eq-ok (not (str_eq p.root_id root.root_id))
        (integrity "rejected remote root_add with mismatched root_id") _ h3 in
    let (bound, h5) =
      fail_if-eq-ok (not (str_eq (w.root_id x.0) root.root_id))
        (integrity "rejected remote root_add with invalid root_id binding") _ h4 in
    let (kind, h6) =
      fail_if-eq-ok (not (same_kind p.kind root.kind))
        (integrity "rejected remote root_add with mismatched root kind") _ h5 in
    elim (Bool-cases (is_known w p x.0 x.1 (root_by_id p.root_id s.db))) [
      | inl known ↦ ap (λ y. row y.0) (sym (ok-injective (rw known at h6)))
      | inr fresh ↦ new_root-row w _ _ s (rw fresh at h6)
    ]

passed_over-row :
    (s : Daemon) (m : Result Failure Daemon) {s' : Daemon}
    → ((t : Daemon) → m ≡ ok t → row t ≡ row s)
    → passed_over s m ≡ ok s'
    → row s' ≡ row s
passed_over-row s (err (integrity message)) keeps h = ap row (sym (ok-injective h))
passed_over-row s (err failure) keeps h = cc
passed_over-row s (ok t) keeps h = ap row (sym (ok-injective h)) ∙ keeps t refl

module _ (w : World) (like : String → String → Bool) where
  added-row :
      (event : EventRecord) (root : Descriptor) (s t : Daemon)
      → (ensure_root_from_descriptor w root s >>= added_root w like event) ≡ ok t
      → row t ≡ row s
  added-row event root s t h =
      let (x, ensured, h1) = >>=-eq-ok (ensure_root_from_descriptor w root s) _ h in
      let (r, there, h2) = >>=-eq-ok (required (root_by_id event.root_id x.0.db)) _ h1 in
      ap row (sym (ok-injective h2)) ∙ ensure_root_from_descriptor-row w root s ensured

  root_add-row :
      (event : EventRecord) (s : Daemon) {t : Daemon}
      → apply_remote_root_add w like event s ≡ ok t
      → row t ≡ row s
  root_add-row event s h =
      let (plain, opened, h1) =
        >>=-eq-ok (required (w.decrypt_event event.root_id "" root_add event.payload_blob)) _ h in
      let (p, parsed, h2) = >>=-eq-ok (required (w.parse_root_add plain)) _ h1 in
      passed_over-row s
        (ensure_root_from_descriptor w (descriptor_of w like event p) s >>= added_root w like event)
        (added-row event (descriptor_of w like event p) s) h2

  root_remove-row :
      (o : Option Root) (s : Daemon) {t : Daemon}
      → apply_remote_root_remove w like o s ≡ ok t
      → row t ≡ row s
  unfolding mark_root_removed set_root_state delete_root_state clear_warnings_with_prefix
      clear_staged_root
  root_remove-row none s h = ap row (sym (ok-injective h))
  root_remove-row (some root) s h = ap row (sym (ok-injective h))

  content-row :
      (event : EventRecord) (o : Option Root) (s : Daemon) {t : Daemon}
      → IsIdempotent w.pkg.clean
      → apply_remote_content w like event o s ≡ ok t
      → row t ≡ row s
  content-row event none s idem h = ap row (sym (ok-injective h))
  content-row event (some root) s idem h = elim (Bool-cases (is_active_state root.state)) [
    | inl live ↦
        let applied = apply_event w root event (is_root_staged root.root_id s) s.db in
        passed_over-row s (applied >>= with_db w like s)
          (λ t g.
            let (r, was, g1) = >>=-eq-ok applied _ g in
            ap row (sym (ok-injective g1))
            ∙ (apply_event-IsApplied w root event (is_root_staged root.root_id s) s.db idem
                was).same_workspace)
          (rw live at h)
    | inr gone ↦ ap row (sym (ok-injective (rw gone at h)))
  ]

  typed-row :
      (type : EventType) (event : EventRecord) (s : Daemon) {t : Daemon}
      → IsIdempotent w.pkg.clean
      → apply_typed w like type event s ≡ ok t
      → row t ≡ row s
  typed-row root_add event s idem h = root_add-row event s h
  typed-row root_remove event s idem h = root_remove-row (root_by_id event.root_id s.db) s h
  typed-row dir_put event s idem h = content-row event (root_by_id event.root_id s.db) s idem h
  typed-row file_put event s idem h = content-row event (root_by_id event.root_id s.db) s idem h
  typed-row delete event s idem h = content-row event (root_by_id event.root_id s.db) s idem h
  typed-row (unknown x) event s idem h = content-row event (root_by_id event.root_id s.db) s idem h

  -- An event that was consumed moves the cursor to its sequence, or leaves it where it is above that.
  pub cursor-consume_remote_event :
      (event : EventRecord) (s : Daemon) {t : Daemon}
      → IsIdempotent w.pkg.clean
      → consume_remote_event w like event s ≡ ok t
      → cursor t ≡ max (cursor s) event.seq
  unfolding consume_remote_event apply_remote_event advance_last_seq
  cursor-consume_remote_event event s {t} idem h =
      elim (Bool-cases (
        str_eq event.author_device_id w.device_id
        && event_materialized_locally w like event s.db)) [
          | inl own ↦ ap cursor (sym (ok-injective (rw own at h)))
          | inr foreign ↦
              let (s', applied, h1) =
                >>=-eq-ok (apply_typed w like event.event_type event s) _ (rw foreign at h) in
              ap cursor (sym (ok-injective h1))
              ∙ ap (λ (r : StateRow). max r.last_server_seq event.seq)
                  (typed-row event.event_type event s idem applied)
        ]
