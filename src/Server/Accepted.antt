-- ===== src/Server/Accepted.antt =====
-- What it takes for `SubmitEvent` (internal/server/db/events.go) to accept an event.
use syna.Prelude.{ℕ, suc, ◌≡◌, sym, ap, ◌∙◌}
use syna.Prelude.Result.{ok, >>=-eq-ok, ok-injective}
use syna.Protocol.{EventSubmitRequest}
use syna.Server.Schema.{Db, WorkspaceRow, Session}
use syna.Server.Workspaces.{workspace_row}
use syna.Server.Events.{
  SubmitResult, validate_event_request, check_object_refs, check_event, write_event, settle_floor,
  submit_event,
}

-- The parts of an accepted submission: its checks, its writes and the new floor.
pub record Accepted (sess : Session) (req : EventSubmitRequest) (now : ℕ) (d d' : Db)
    (r : SubmitResult) : Type 0 where
  pub valid : validate_event_request req ≡ ok tt
  pub workspace : WorkspaceRow
  pub found : workspace_row sess.workspace_id d ≡ ok workspace
  pub visible : check_object_refs sess.workspace_id req.object_refs d ≡ ok tt
  pub checked : check_event sess req req.event_type d ≡ ok tt
  pub settled :
      settle_floor req.event_type sess.workspace_id now (write_event sess req now d) ≡ ok d'
  pub numbered : r.accepted_seq ≡ suc d.last_event_seq

pub submit_event-Accepted :
    (sess : Session) (req : EventSubmitRequest) (now : ℕ) (d : Db) {d' : Db} {r : SubmitResult}
    → submit_event sess req now d ≡ ok (d', r)
    → Accepted sess req now d d' r
unfolding submit_event
submit_event-Accepted sess req now d {d'} {r} h =
    let (_, valid, h1) = >>=-eq-ok (validate_event_request req) _ h in
    let (w, found, h2) = >>=-eq-ok (workspace_row sess.workspace_id d) _ h1 in
    let (_, visible, h3) = >>=-eq-ok (check_object_refs sess.workspace_id req.object_refs d) _ h2 in
    let (_, checked, h4) = >>=-eq-ok (check_event sess req req.event_type d) _ h3 in
    let (d2, e, h5) = >>=-eq-ok (settle_floor req.event_type sess.workspace_id now _) _ h4 in
    record {
      valid = valid;
      workspace = w;
      found = found;
      visible = visible;
      checked = checked;
      settled = e ∙ ap ok (ap (λ (p : Db × SubmitResult). p.0) (ok-injective h5));
      numbered = sym (ap (λ (p : Db × SubmitResult). p.1.accepted_seq) (ok-injective h5));
    }
