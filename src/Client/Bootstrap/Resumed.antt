-- ===== src/Client/Bootstrap/Resumed.antt =====
-- A bootstrap of a device (internal/client/daemon/daemon.go) with the server's answer
-- (internal/server/api/bootstrap.go), and the catch-up after it.
use syna.Prelude.{
  ℕ, String, ◌≡◌, ◌≢◌, sym, ap, ◌∙◌, Bool, true, false, List, [], ◌∷◌, ltb, leb, Bool-cases, inl,
  inr, arith,
}
use syna.Prelude.Result.{ok}
use syna.Protocol.{EventRecord}
use syna.Server.Schema.{Db, Session}
use syna.Server.Workspaces.{active_roots, recompute_retained_floor}
use syna.Server.Events.{fetch_events}
use syna.Server.Floor.{AllPositive}
use syna.Api.{BootstrapResponse, handle_bootstrap, handle_bootstrap-resumes}
use syna.Client.World.{World}
use syna.Client.Snapshots.{SnapshotWorld, Disk}
use syna.Client.Daemon.{
  Daemon, resync, stop, cursor, last_seq, consume_all, page_end, answered, catch_up_round,
}
use syna.Client.Bootstrap.Defs.{restart}
use syna.Client.Bootstrap.Removed.{restart-IsRestarted}

page_end_not_resync :
    (like : String → String → Bool) (events : List EventRecord) (head : ℕ) (s : Daemon)
    (consumed : Daemon × Bool) (t : Daemon)
    → page_end like events head s consumed ≢ stop (resync t)
page_end_not_resync like [] head s consumed t h = elim (Bool-cases (ltb (cursor s) head)) [
  | inl behind ↦ absurd (ground (arith, (rw behind at h)))
  | inr there ↦ absurd (ground (arith, (rw there at h)))
]
page_end_not_resync like (e ∷ es) head s (s', false) t h = cc
page_end_not_resync like (e ∷ es) head s (s', true) t h =
    elim (Bool-cases (leb head (last_seq e es))) [
      | inl done ↦ absurd (ground (arith, (rw done at h)))
      | inr more ↦ absurd (ground (arith, (rw more at h)))
    ]

-- Where every latest snapshot of the server is of a sequence above 0, its retained floor was recomputed,
-- and a device has bootstrapped from its answer, the server does not tell the device to bootstrap again
-- in the round of catch-up that follows.
pub catch_up_round-bootstrap :
    (w : World) (v : SnapshotWorld) (like : String → String → Bool) (worlds : ℕ → World)
    (sess : Session) (now limit : ℕ) (d : Db) {d' : Db} {resp : BootstrapResponse} (s : Daemon)
    (disk : Disk) (t : Daemon)
    → AllPositive (active_roots sess.workspace_id d)
    → recompute_retained_floor sess.workspace_id now d ≡ ok d'
    → handle_bootstrap "GET" sess d' ≡ ok resp
    → (restart w v like resp s disk).1 ≡ true
    → catch_up_round like worlds sess.workspace_id limit d' (restart w v like resp s disk).0.0
      ≢ stop (resync t)
unfolding catch_up_round
catch_up_round-bootstrap w v like worlds sess now limit d {d'} {resp} s disk t all floored answer
      done again_told =
    let (page, fetched) = handle_bootstrap-resumes sess now limit d all floored answer in
    let at_cursor = (restart-IsRestarted w v like resp s disk done).1 in
    let left = (restart w v like resp s disk).0.0 in
    let same : fetch_events sess.workspace_id (cursor left) limit d' ≡ ok page =
      ap (λ x. fetch_events sess.workspace_id x limit d') at_cursor ∙ fetched in
    page_end_not_resync like page.0 page.1 left (consume_all like worlds page.0 left) t
      (sym (ap (answered like worlds left) same) ∙ again_told)
