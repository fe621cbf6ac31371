-- ===== src/Client/Bootstrap/Defs.antt =====
-- internal/client/daemon/daemon.go: `bootstrap`, from the server's answer on to where the cursor is
-- reset. The catch-up that it ends with is in Client/Bootstrap/Sync.antt; the watcher's roots are not
-- part of the state.
use syna.Prelude.{
  ℕ, String, str_eq, Bool, true, false, not, ◌&&◌, ◌||◌, Option, none, some, List, [], ◌∷◌, map,
  ltb, if◌then◌else◌,
}
use syna.Prelude.Result.{Result, ok, err}
use syna.Table.{any}
use syna.Api.{BootstrapRoot, BootstrapResponse}
use syna.Client.State.{StateDb, Root, root_by_id, list_roots, reset_last_seq}
use syna.Client.World.{World}
use syna.Client.Applier.{Failure, integrity, failure}
use syna.Client.Daemon.{
  Daemon, Descriptor, ensure_root_from_descriptor, is_active_state, is_removed, is_root_staged,
  mark_root_removed,
}
use syna.Client.Snapshots.{SnapshotWorld, Disk, apply_snapshot}

-- a device with its files, and false where the bootstrap has failed
abbrev pub Step : Type 0
Step = (Daemon × Disk) × Bool

-- Is the root among those of the server?
abbrev pub is_remote : List String → String → Bool
is_remote remote root_id = any (λ r. str_eq r root_id) remote

module _ (w : World) (v : SnapshotWorld) (like : String → String → Bool) where
  abbrev pub descriptor : BootstrapRoot → Descriptor
  descriptor r = record {
    root_id = r.root_id;
    kind = r.kind;
    descriptor_blob = r.descriptor_blob;
    latest_snapshot_seq = r.latest_snapshot_seq;
  }

  -- an IntegrityError is logged, and the root passed over
  abbrev pub restored : Daemon → Disk × Result Failure StateDb → Step
  restored s (disk, err (integrity message)) = ((s, disk), true)
  restored s (disk, err failure) = ((s, disk), false)
  restored s (disk, ok d) = ((record s { db = d }, disk), true)

  abbrev pub restore_root : BootstrapRoot → Daemon → Disk → Option Root → Step
  restore_root r s disk none = ((s, disk), false)
  restore_root r s disk (some local) =
      if is_active_state local.state
      then restored s (
          apply_snapshot w v local r.latest_snapshot_object_id r.latest_snapshot_seq
            (is_root_staged r.root_id s) disk s.db)
      else ((s, disk), true)

  abbrev pub ensured : BootstrapRoot → Daemon → Disk → Result Failure (Daemon × Bool) → Step
  ensured r s disk (err (integrity message)) = ((s, disk), true)
  ensured r s disk (err failure) = ((s, disk), false)
  ensured r s disk (ok (s', staged)) =
      if not (str_eq r.latest_snapshot_object_id "") && ltb 0 r.latest_snapshot_seq
      then restore_root r s' disk (root_by_id r.root_id s'.db)
      else ((s', disk), true)

  unfoldable pub bootstrap_roots : List BootstrapRoot → Daemon → Disk → Step
  bootstrap_roots [] s disk = ((s, disk), true)
  bootstrap_roots (r ∷ rs) s disk =
      let (x, done) = ensured r s disk (ensure_root_from_descriptor w (descriptor r) s) in
      elim done [ false ↦ (x, false) | true ↦ bootstrap_roots rs x.0 x.1 ]

  -- the local roots that the server no longer has
  unfoldable pub remove_missing : List String → List Root → Daemon → Daemon
  remove_missing remote [] s = s
  remove_missing remote (r ∷ rs) s = elim (is_removed r.state || is_remote remote r.root_id) [
    | true ↦ remove_missing remote rs s
    | false ↦ remove_missing remote rs (mark_root_removed like r.root_id s)
  ]

  abbrev pub restarted : List String → ℕ → Daemon → Daemon
  restarted remote seq s =
      let left = remove_missing remote (list_roots s.db) s in
      record left { db = reset_last_seq seq left.db }

  abbrev pub remote_ids : BootstrapResponse → List String
  remote_ids resp = map (λ (r : BootstrapRoot). r.root_id) resp.roots

  abbrev pub finished : BootstrapResponse → Step → Step
  finished resp (x, false) = (x, false)
  finished resp ((s, disk), true) =
      ((restarted (remote_ids resp) resp.bootstrap_after_seq s, disk), true)

  -- `bootstrap` without the catch-up at its end
  unfoldable pub restart : BootstrapResponse → Daemon → Disk → Step
  restart resp s disk = finished resp (bootstrap_roots resp.roots s disk)
