-- ===== src/Server/Events/Submit.antt =====
-- internal/server/db/events.go: `SubmitEvent`.
use syna.Prelude.{ℕ, suc, String, Bool, true, false, if◌then◌else◌}
use syna.Prelude.Result.{Result, ok, ◌>>=◌, ◌>>◌}
use syna.Protocol.{EventType, root_add, root_remove, EventSubmitRequest, EventRecord}
use syna.Server.Schema.{Db, Session}
use syna.Server.Errors.{DbError}
use syna.Server.Workspaces.{workspace_row, recompute_retained_floor}
use syna.Server.Events.Checks.{validate_event_request, check_object_refs, check_event}
use syna.Server.Events.Writes.{null_string, write_event}

pub record SubmitResult : Type 0 where
  pub accepted_seq : ℕ
  pub workspace_seq : ℕ
  pub event : EventRecord

abbrev moves_floor : EventType → Bool
moves_floor root_add = true
moves_floor root_remove = true
moves_floor _ = false

unfoldable pub settle_floor : EventType → String → ℕ → Db → Result DbError Db
settle_floor t workspace_id now d =
    if moves_floor t then recompute_retained_floor workspace_id now d else ok d

unfoldable pub event_of : Session → EventSubmitRequest → ℕ → ℕ → EventRecord
event_of sess req seq now = record {
  seq = seq;
  root_id = req.root_id;
  path_id = null_string req.path_id;
  event_type = req.event_type;
  base_seq = req.base_seq;
  author_device_id = sess.device_id;
  payload_blob = req.payload_blob;
  object_refs = req.object_refs;
  created_at = now;
}

-- A rejected submission leaves the database as it is. `now` stands for every reading of the clock.
unfoldable pub submit_event :
    Session → EventSubmitRequest → ℕ → Db → Result DbError (Db × SubmitResult)
submit_event sess req now d = do
  validate_event_request req
  workspace_row sess.workspace_id d
  check_object_refs sess.workspace_id req.object_refs d
  check_event sess req req.event_type d
  let seq = suc d.last_event_seq
  d' ← settle_floor req.event_type sess.workspace_id now (write_event sess req now d)
  ok (d', record { accepted_seq = seq; workspace_seq = seq; event = event_of sess req seq now })
