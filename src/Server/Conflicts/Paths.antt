-- ===== src/Server/Conflicts/Paths.antt =====
-- Two writers of one path: the second of two events with the same baseline is refused, with the
-- number of the first.
use syna.Prelude.{
  ℕ, suc, ◌<◌, String, str_eq, pos, ◌≡◌, refl, sym, ◌∙◌, Option, none, some, List, [], ◌∷◌, arith,
  Option-cases, inl, inr,
}
use syna.Prelude.Result.{ok, err, fail_if-eq-ok, >>=-eq-ok, ok-injective}
use syna.Table.{find, find-update}
use syna.Protocol.{EventSubmitRequest, EventType, dir_put, file_put}
use syna.Server.Schema.{Db, Session, WorkspaceRow, PathHeadRow}
use syna.Server.Errors.{DbError, path_head_mismatch, path_and_base_required}
use syna.Server.Objects.{is_workspace, object_visible_to_workspace}
use syna.Server.Workspaces.{workspace_row}
use syna.Server.Events.{
  SubmitResult, is_root, is_head, validate_event_request, check_object_refs, check_event,
  check_content, check_base, check_writable, check_head, write_event, settle_floor, submit_event,
}
use syna.Server.Order.{workspaces-write_event}
use syna.Server.Accepted.{Accepted, submit_event-Accepted}
use syna.Server.Conflicts.Written.{
  IsContent, write_event-SameChecks, roots-apply_content, associations-apply_effects, head_seq,
  head_seq-apply_content,
}

check_object_refs-same :
    (w : String) (refs : List String) (a b : Db)
    → b.workspace_objects ≡ a.workspace_objects
    → check_object_refs w refs b ≡ check_object_refs w refs a
unfolding check_object_refs object_visible_to_workspace
check_object_refs-same w [] a b e = refl
check_object_refs-same w (x ∷ refs) a b e = ground (arith, e, check_object_refs-same w refs a b e)

pub check_event-content :
    (sess : Session) (req : EventSubmitRequest) (t : EventType) (d : Db)
    → IsContent t
    → check_event sess req t d ≡ check_content sess req d
unfolding check_event
check_event-content sess req dir_put d h = refl
check_event-content sess req file_put d h = refl
check_event-content sess req EventType.delete d h = refl
check_event-content sess req _ d h = absurd h

settle_floor-content :
    (t : EventType) (w : String) (now : ℕ) (d : Db) → IsContent t → settle_floor t w now d ≡ ok d
unfolding settle_floor
settle_floor-content dir_put w now d h = refl
settle_floor-content file_put w now d h = refl
settle_floor-content EventType.delete w now d h = refl
settle_floor-content _ w now d h = absurd h

-- A content event that is accepted writes what `write_event` does and nothing else.
pub Accepted-content :
    {sess : Session} {req : EventSubmitRequest} {now : ℕ} {d d' : Db} {r : SubmitResult}
    → Accepted sess req now d d' r
    → IsContent req.event_type
    → write_event sess req now d ≡ d'
Accepted-content {sess} {req} {now} {d} a content =
    ok-injective
      (sym (settle_floor-content req.event_type sess.workspace_id now _ content) ∙ a.settled)

-- The workspace is still there after an event.
workspace_row-write_event :
    (sess : Session) (req : EventSubmitRequest) (now : ℕ) (w : String) (d : Db) {row : WorkspaceRow}
    → workspace_row w d ≡ ok row
    → (row' : WorkspaceRow) × (workspace_row w (write_event sess req now d) ≡ ok row')
unfolding workspace_row
workspace_row-write_event sess req now w d {row} h = rw (workspaces-write_event sess req now d) (
    rw
      (find-update (is_workspace w)
        (λ r. record r { current_seq = suc d.last_event_seq; updated_at = now }) (λ r. refl)
        (is_workspace sess.workspace_id) d.workspaces)
      (elim (Option-cases (find (is_workspace w) d.workspaces)) [
        | inl missing ↦ absurd (ground (arith, missing))
        | inr (r, found) ↦ rw found (_, refl)
      ]))

-- A base below the head of its path fails with the head.
check_head-behind :
    (base seq : ℕ) (head : Option PathHeadRow)
    → base < seq
    → head_seq head ≡ some seq
    → check_head (pos base) head ≡ err (path_head_mismatch seq)
check_head-behind base seq none behind e = cc
check_head-behind base seq (some h) behind e =
    let same : h.current_seq ≡ seq = ground arith in ground (arith, same)

-- A check of a base that has fallen behind the head fails with the head.
check_content-behind :
    (sess : Session) (req : EventSubmitRequest) (seq base : ℕ) (a b : Db)
    → check_content sess req a ≡ ok tt
    → req.base_seq ≡ some (pos base)
    → base < seq
    → b.roots ≡ a.roots
    → head_seq (find (is_head sess.workspace_id req.root_id req.path_id) b.path_heads) ≡ some seq
    → check_content sess req b ≡ err (path_head_mismatch seq)
unfolding check_content
check_content-behind sess req seq base a b h e behind roots head =
    let (named, h1) =
      fail_if-eq-ok (str_eq req.path_id "") path_and_base_required _ (rw (e, check_base) at h) in
    let (_, writable, _) =
      >>=-eq-ok
        (check_writable req.root_created_seq (find (is_root sess.workspace_id req.root_id) a.roots))
        _ h1 in
    rw (e, check_base)
      (rw named (rw roots (rw writable (check_head-behind base seq _ behind head))))

-- The checks that a database passes decide a submission.
submit_event-refused :
    (sess : Session) (req : EventSubmitRequest) (now : ℕ) (d : Db) (row : WorkspaceRow)
    (x : DbError)
    → validate_event_request req ≡ ok tt
    → workspace_row sess.workspace_id d ≡ ok row
    → check_object_refs sess.workspace_id req.object_refs d ≡ ok tt
    → check_event sess req req.event_type d ≡ err x
    → submit_event sess req now d ≡ err x
unfolding submit_event
submit_event-refused sess req now d row x valid found visible failed =
    rw valid (rw found (rw visible (rw failed)))

module _ (first second : Session) (req other : EventSubmitRequest) (now later : ℕ) (d : Db)
    (same_workspace : second.workspace_id ≡ first.workspace_id)
    (same_root : other.root_id ≡ req.root_id) (same_path : other.path_id ≡ req.path_id) where
  -- The head that the second writer is checked against is the first writer's event.
  head-write_event :
      IsContent req.event_type
      → head_seq (
          find
            (is_head second.workspace_id other.root_id other.path_id)
            (write_event first req now d).path_heads)
        ≡ some (suc d.last_event_seq)
  head-write_event content = rw (write_event-SameChecks first req now d).path_heads (
      rw same_workspace (
        rw same_root (
          rw same_path (
            head_seq-apply_content first req req.event_type (suc d.last_event_seq) now d content))))

  refused_after_write :
      {e : Db} {q : SubmitResult} (base : ℕ)
      → Accepted second other later d e q
      → IsContent req.event_type
      → IsContent other.event_type
      → other.base_seq ≡ some (pos base)
      → base < suc d.last_event_seq
      → submit_event second other later (write_event first req now d)
        ≡ err (path_head_mismatch (suc d.last_event_seq))
  refused_after_write base b content other_content based behind =
      let seq = suc d.last_event_seq in
      let after = write_event first req now d in
      let same = write_event-SameChecks first req now d in
      let (row, found) = workspace_row-write_event first req now second.workspace_id d b.found in
      submit_event-refused second other later after row (path_head_mismatch seq) b.valid found
        (check_object_refs-same second.workspace_id other.object_refs d after
            (same.associations ∙ associations-apply_effects first req req.event_type seq now d)
          ∙ b.visible)
        (check_event-content second other other.event_type after other_content
          ∙ check_content-behind second other seq base d after
              (sym (check_event-content second other other.event_type d other_content) ∙ b.checked)
              based behind
              (same.roots ∙ roots-apply_content first req req.event_type seq now d content)
              (head-write_event content))

  -- Two content events for one path, each of which the database would accept on its own: once the
  -- first is accepted, the second, if its base is below the first's number, is refused with a path
  -- head mismatch that carries that number.
  pub second_writer_refused :
      {d' e : Db} {r q : SubmitResult} (base : ℕ)
      → submit_event first req now d ≡ ok (d', r)
      → submit_event second other later d ≡ ok (e, q)
      → IsContent req.event_type
      → IsContent other.event_type
      → other.base_seq ≡ some (pos base)
      → base < r.accepted_seq
      → submit_event second other later d' ≡ err (path_head_mismatch r.accepted_seq)
  second_writer_refused {d'} {e} {r} {q} base h k content other_content based behind =
      let a = submit_event-Accepted first req now d h in
      rw (← Accepted-content a content) (
        rw a.numbered (
          refused_after_write base (submit_event-Accepted second other later d k) content
            other_content based (rw a.numbered at behind)))
