-- ===== src/Client/Daemon/Roots.antt =====
-- internal/client/daemon/daemon.go: the roots of a device. The watcher of the file system and the
-- channel of changes are not part of the state.
use Prim.Native.String.{◌++◌ as append}
use syna.Prelude.{
  ℕ, String, str_eq, Bool, true, false, not, ◌&&◌, Option, none, some, List, [], ◌∷◌, if◌then◌else◌,
}
use syna.Prelude.Result.{Result, ok, ◌>>=◌, ◌>>◌, fail_if}
use syna.Protocol.{root_add, RootKind}
use syna.Table.{any}
use syna.Paths.{Lstat, absent, lstat_error, symlink, directory, regular, resolve_home_rel_target}
use syna.Client.State.{
  StateDb, Root, RootState, active, blocked_nonempty, removed, root_by_id, upsert_root,
  set_root_state, delete_root_state, clear_warnings_with_prefix,
}
use syna.Client.World.{World, RootAddPayload}
use syna.Client.Applier.{Failure, integrity, required, succeeds, path_checked, is_dir_kind}

pub record Daemon : Type 0 where
  pub db : StateDb
  pub staged_roots : List String

-- protocol.BootstrapRoot, as far as a device reads it here
pub record Descriptor : Type 0 where
  pub root_id : String
  pub kind : RootKind
  pub descriptor_blob : String
  pub latest_snapshot_seq : ℕ

abbrev pub without_root : String → List String → List String
without_root root_id [] = []
without_root root_id (r ∷ rs) =
    let rest = without_root root_id rs in if str_eq r root_id then rest else r ∷ rest

unfoldable pub mark_staged_root : String → Daemon → Daemon
mark_staged_root root_id s = record s {
  staged_roots = root_id ∷ without_root root_id s.staged_roots;
}

unfoldable pub clear_staged_root : String → Daemon → Daemon
clear_staged_root root_id s = record s { staged_roots = without_root root_id s.staged_roots }

unfoldable pub is_root_staged : String → Daemon → Bool
is_root_staged root_id s = any (λ r. str_eq r root_id) s.staged_roots

-- `like` is SQLite's LIKE
unfoldable pub mark_root_removed : (String → String → Bool) → String → Daemon → Daemon
mark_root_removed like root_id s =
    let unstaged = clear_staged_root root_id s in
    record unstaged {
      db = delete_root_state root_id (
          set_root_state root_id removed (
            clear_warnings_with_prefix like (append "scanner:" (append root_id ":"))
              (clear_warnings_with_prefix like (append "watcher:" root_id) unstaged.db)));
    }

abbrev pub is_active_state : RootState → Bool
is_active_state active = true
is_active_state _ = false

abbrev pub is_removed : RootState → Bool
is_removed removed = true
is_removed _ = false

abbrev pub same_kind : RootKind → RootKind → Bool
same_kind RootKind.file RootKind.file = true
same_kind RootKind.dir RootKind.dir = true
same_kind (RootKind.other s) (RootKind.other t) = str_eq s t
same_kind _ _ = false

-- a path that exists and is not to be read as a plain directory
abbrev pub blocks_dir : Lstat → Bool → Bool
blocks_dir absent occupied = false
blocks_dir lstat_error occupied = false
blocks_dir symlink occupied = true
blocks_dir regular occupied = true
blocks_dir directory occupied = occupied

abbrev pub is_there : Lstat → Bool
is_there absent = false
is_there lstat_error = false
is_there _ = true

abbrev pub is_link : Lstat → Bool
is_link symlink = true
is_link _ = false

module _ (w : World) where
  abbrev pub root_row : Descriptor → RootAddPayload → String → String → RootState → Root
  root_row root p home_rel target state = record {
    root_id = p.root_id;
    kind = p.kind;
    home_rel_path = home_rel;
    target_abs_path = target;
    state = state;
    latest_snapshot_seq = root.latest_snapshot_seq;
    last_scan_at = none;
  }

  abbrev pub put_root : Root → Daemon → Daemon
  put_root r s = record s { db = upsert_root r s.db }

  -- is the root there already, as it is described?
  abbrev pub is_known : RootAddPayload → String → String → Option Root → Bool
  is_known p home_rel target none = false
  is_known p home_rel target (some r) =
      is_active_state r.state
      && same_kind r.kind p.kind
      && str_eq r.home_rel_path home_rel
      && str_eq (w.pkg.clean r.target_abs_path) (w.pkg.clean target)

  abbrev pub is_reactivation : String → Option Root → Bool
  is_reactivation target none = false
  is_reactivation target (some r) = is_removed r.state && str_eq r.target_abs_path target

  abbrev pub blocked_root : Root → Daemon → Daemon × Bool
  blocked_root r s =
      (put_root (record r { state = blocked_nonempty }) (clear_staged_root r.root_id s), false)

  abbrev pub home_dir : Result Failure String
  home_dir = required w.home

  -- the root is made, and staged when it comes back
  abbrev pub activated : Root → Bool → Daemon → Daemon × Bool
  activated r true s = (mark_staged_root r.root_id (put_root r s), true)
  activated r false s = (clear_staged_root r.root_id (put_root r s), false)

  abbrev pub new_dir_root : Root → Bool → Daemon → Result Failure (Daemon × Bool)
  new_dir_root r again s =
      if blocks_dir (w.lstat r.target_abs_path) (not again && w.has_entries r.target_abs_path)
      then ok (blocked_root r s)
      else (do
        home ← home_dir
        succeeds (w.ensure_safe_dir home r.target_abs_path)
        ok (activated r again s))

  abbrev pub new_file_root : Root → Bool → Daemon → Result Failure (Daemon × Bool)
  new_file_root r again s =
      if is_there (w.lstat r.target_abs_path) && not again then ok (blocked_root r s) else (do
        fail_if (is_link (w.lstat r.target_abs_path))
            (integrity "rejected remote root_add targeting a symlink")
        home ← home_dir
        succeeds (w.ensure_safe_dir home (w.pkg.dir r.target_abs_path))
        ok (activated r again s))

  abbrev pub new_root : Root → Bool → Daemon → Result Failure (Daemon × Bool)
  new_root r again s =
      if is_dir_kind r.kind then new_dir_root r again s else new_file_root r again s

  -- the daemon after it, and whether the root came back and is staged
  unfoldable pub ensure_root_from_descriptor : Descriptor → Daemon → Result Failure (Daemon × Bool)
  ensure_root_from_descriptor root s = do
    plain ← required (w.decrypt_event root.root_id "" root_add root.descriptor_blob)
    p ← required (w.parse_root_add plain)
    t ←
        path_checked (integrity "rejected remote root_add with invalid home_rel_path")
          (resolve_home_rel_target w.pkg w.home p.home_rel_path)
    fail_if (not (str_eq p.root_id root.root_id))
        (integrity "rejected remote root_add with mismatched root_id")
    fail_if (not (str_eq (w.root_id t.0) root.root_id))
        (integrity "rejected remote root_add with invalid root_id binding")
    fail_if (not (same_kind p.kind root.kind))
        (integrity "rejected remote root_add with mismatched root kind")
    let existing = root_by_id p.root_id s.db
    let r = root_row root p t.0 t.1 active
    if is_known p t.0 t.1 existing
        then ok (put_root r s, false)
        else new_root r (is_reactivation t.1 existing) s
