-- ===== src/Client/Bootstrap/Floored.antt =====
-- A server whose retained floor was recomputed (internal/server/db/workspace.go) answers a bootstrap with
-- a cursor that is not below the floor.
use syna.Prelude.{ℕ, ◌≡◌, ltb, Bool-cases, inl, inr, arith}
use syna.Prelude.Result.{ok}
use syna.Server.Schema.{Db, Session, WorkspaceRow}
use syna.Server.Workspaces.{active_roots, recompute_retained_floor, workspace_row}
use syna.Server.Events.{fetch_events, page_of}
use syna.Server.Floor.{AllPositive}
use syna.Api.{handle_bootstrap-resumes}
use syna.Client.Bootstrap.Ended.{AreAbove}

pub recomputed-AreAbove :
    (sess : Session) (now : ℕ) (d : Db) {d' : Db} (row : WorkspaceRow)
    → AllPositive (active_roots sess.workspace_id d)
    → recompute_retained_floor sess.workspace_id now d ≡ ok d'
    → workspace_row sess.workspace_id d' ≡ ok row
    → AreAbove sess (λ k. d') row.retained_floor_seq
unfolding fetch_events page_of
recomputed-AreAbove sess now d row all floored found k resp answer =
    let (page, fetched) = handle_bootstrap-resumes sess now 1 d all floored answer in
    elim (Bool-cases (ltb resp.bootstrap_after_seq row.retained_floor_seq)) [
      | inl below ↦ absurd (ground (arith, (rw (found, below) at fetched)))
      | inr there ↦ ground (arith, there)
    ]
