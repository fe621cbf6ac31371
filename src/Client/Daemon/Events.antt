-- ===== src/Client/Daemon/Events.antt =====
-- internal/client/daemon/daemon.go: `consumeRemoteEvent`. The server's event is applied, unless it is
-- the device's own and its effect is there already, and the cursor moves past it. The watcher's roots, and
-- the warnings that adding one writes or clears, are not part of the state.
use syna.Prelude.{
  ℕ, String, str_eq, Bool, true, false, not, ◌&&◌, ◌||◌, Option, none, some, List, leb,
  if◌then◌else◌,
}
use syna.Prelude.Result.{Result, ok, err, ◌>>=◌, ◌>>◌}
use syna.Protocol.{EventRecord, EventType, root_add, root_remove}
use syna.Table.{any}
use syna.Client.State.{StateDb, Root, Entry, root_by_id, entries_for_root, advance_last_seq}
use syna.Client.World.{World, RootAddPayload}
use syna.Client.Applier.{Failure, integrity, failure, DiskOp, required, apply_event}
use syna.Client.Daemon.Roots.{
  Daemon, Descriptor, ensure_root_from_descriptor, mark_root_removed, is_root_staged,
  is_active_state, is_removed,
}

-- an IntegrityError is logged, and the event passed over
abbrev pub passed_over : Daemon → Result Failure Daemon → Result Failure Daemon
passed_over s (err (integrity message)) = ok s
passed_over s (err failure) = err failure
passed_over s (ok s') = ok s'

module _ (w : World) (like : String → String → Bool) where
  -- whether the root was staged matters only to the watcher
  abbrev pub added_root : EventRecord → Daemon × Bool → Result Failure Daemon
  added_root event (s, staged) = required (root_by_id event.root_id s.db) >> ok s

  abbrev pub descriptor_of : EventRecord → RootAddPayload → Descriptor
  descriptor_of event p = record {
    root_id = p.root_id;
    kind = p.kind;
    descriptor_blob = event.payload_blob;
    latest_snapshot_seq = 0;
  }

  abbrev pub apply_remote_root_add : EventRecord → Daemon → Result Failure Daemon
  apply_remote_root_add event s = do
    plain ← required (w.decrypt_event event.root_id "" root_add event.payload_blob)
    p ← required (w.parse_root_add plain)
    passed_over s (ensure_root_from_descriptor w (descriptor_of event p) s >>= added_root event)

  abbrev pub apply_remote_root_remove : Option Root → Daemon → Result Failure Daemon
  apply_remote_root_remove none s = ok s
  apply_remote_root_remove (some root) s = ok (mark_root_removed like root.root_id s)

  abbrev pub with_db : Daemon → StateDb × List DiskOp → Result Failure Daemon
  with_db s (d, ops) = ok (record s { db = d })

  abbrev pub apply_remote_content : EventRecord → Option Root → Daemon → Result Failure Daemon
  apply_remote_content event none s = ok s
  apply_remote_content event (some root) s =
      if is_active_state root.state
      then passed_over s
          (apply_event w root event (is_root_staged root.root_id s) s.db >>= with_db s)
      else ok s

  abbrev pub apply_typed : EventType → EventRecord → Daemon → Result Failure Daemon
  apply_typed root_add event s = apply_remote_root_add event s
  apply_typed root_remove event s = apply_remote_root_remove (root_by_id event.root_id s.db) s
  apply_typed _ event s = apply_remote_content event (root_by_id event.root_id s.db) s

  unfoldable pub apply_remote_event : EventRecord → Daemon → Result Failure Daemon
  apply_remote_event event s = apply_typed event.event_type event s

  abbrev pub is_current : ℕ → String → Entry → Bool
  is_current seq path_id e = str_eq e.path_id path_id && leb seq e.current_seq

  abbrev pub content_materialized : EventRecord → Option Root → Option String → StateDb → Bool
  content_materialized event none path d = true
  content_materialized event (some root) none d =
      not (is_active_state root.state) || leb event.seq root.latest_snapshot_seq
  content_materialized event (some root) (some path_id) d =
      not (is_active_state root.state)
      || leb event.seq root.latest_snapshot_seq
      || any (is_current event.seq path_id) (entries_for_root event.root_id d)

  abbrev pub is_active_root : Option Root → Bool
  is_active_root none = false
  is_active_root (some root) = is_active_state root.state

  abbrev pub is_gone : Option Root → Bool
  is_gone none = true
  is_gone (some root) = is_removed root.state

  abbrev pub materialized_as : EventType → EventRecord → StateDb → Bool
  materialized_as root_add event d = is_active_root (root_by_id event.root_id d)
  materialized_as root_remove event d = is_gone (root_by_id event.root_id d)
  materialized_as _ event d =
      content_materialized event (root_by_id event.root_id d) event.path_id d

  unfoldable pub event_materialized_locally : EventRecord → StateDb → Bool
  event_materialized_locally event d = materialized_as event.event_type event d

  abbrev pub advanced : ℕ → Daemon → Daemon
  advanced seq s = record s { db = advance_last_seq seq s.db }

  unfoldable pub consume_remote_event : EventRecord → Daemon → Result Failure Daemon
  consume_remote_event event s =
      if str_eq event.author_device_id w.device_id && event_materialized_locally event s.db
      then ok (advanced event.seq s)
      else apply_remote_event event s >>= λ s'. ok (advanced event.seq s')
