-- ===== src/Tests/Restarted.antt =====
-- The properties of a bootstrap at a concrete answer of the server.
use syna.Prelude.{
  ℕ, Option, String, ◌≢◌, ◌≡◌, sym, ap, refl, arith, Bool, false, some, none, [], ◌∷◌, inr,
}
use syna.Protocol.{RootKind}
use syna.Prelude.Result.{ok, ok-injective}
use syna.Server.Schema.{WorkspaceRow}
use syna.Server.Workspaces.{workspace_row}
use syna.Server.Events.{fetch_events, page_of, fetched_rows}
use syna.Table.{find, any, update, upsert}
use syna.Paths.{
  validate_slash_rel_path, validate_home_rel_path, resolve_home_rel_target, target_for_home_rel,
  clean_stored, ensure_within_root, rel_within_root,
}
use syna.Api.{BootstrapResponse, handle_bootstrap, min_loop}
use syna.Client.State.{list_roots, sort_roots, reset_last_seq, root_by_id, upsert_root}
use syna.Client.World.{World}
use syna.Client.Applier.{encrypted_size}
use syna.Client.Daemon.{
  Ending, caught_up, cursor, consume_all, catch_up_round, resync, stop, ensure_root_from_descriptor,
}
use syna.Client.Snapshots.{
  SnapshotWorld, Disk, apply_snapshot, open_snapshot, apply_snapshot_entries,
}
use syna.Client.Bootstrap.{
  Surroundings, bootstrap_or_catch_up, catch_up_turn, remove_missing, IsEnded, HasPassed, AreAbove,
  recomputed-AreAbove, bootstrap_or_catch_up-IsEnded, bootstrap_or_catch_up-HasPassed, restart,
  bootstrap_roots, IsRestarted, restart-IsRestarted, catch_up_round-bootstrap,
}
use syna.Tests.Data.{runs, laptop, pruned}
use syna.Tests.Device.{world, phone_daemon}
use syna.Tests.Synced.{scene}

-- the device knows the root of the server's answer, and its snapshot is empty
abbrev knowing : World
knowing = record world {
  parse_root_add =
      λ plain. some (record { root_id = "docs"; kind = RootKind.dir; home_rel_path = "docs" });
}

abbrev opening : SnapshotWorld
opening = record scene {
  decrypt_snapshot = λ root seq blob. some blob;
  parse_snapshot = λ plain. some (record {
    root_id = "docs";
    kind = RootKind.dir;
    home_rel_path = "docs";
    base_seq = 2;
    entries = [];
  });
}

abbrev blank : Disk
blank path = none

abbrev nothing_like : String → String → Bool
nothing_like pattern key = false

-- the server has no root any more
abbrev emptied : BootstrapResponse
emptied = record { workspace_id = "w"; current_seq = 4; bootstrap_after_seq = 4; roots = [] }

restart-IsRestarted_example :
    IsRestarted [] 4 (restart world scene nothing_like emptied phone_daemon blank).0.0
unfolding restart bootstrap_roots
restart-IsRestarted_example =
    restart-IsRestarted world scene nothing_like emptied phone_daemon blank refl

abbrev answer : BootstrapResponse
answer = record {
  workspace_id = "w";
  current_seq = 2;
  bootstrap_after_seq = 2;
  roots =
      record {
        root_id = "docs";
        kind = RootKind.dir;
        descriptor_blob = "descriptor";
        created_seq = 1;
        removed_seq = none;
        latest_snapshot_object_id = "blob";
        latest_snapshot_seq = 2;
      }
      ∷ [];
}

catch_up_round-bootstrap_example :
    catch_up_round nothing_like
      (λ i. knowing)
      "w"
      10
      pruned
      (restart knowing opening nothing_like answer phone_daemon blank).0.0
    ≢ stop (resync phone_daemon)
unfolding runs handle_bootstrap min_loop restart bootstrap_roots ensure_root_from_descriptor
    resolve_home_rel_target validate_home_rel_path validate_slash_rel_path target_for_home_rel
    clean_stored ensure_within_root rel_within_root root_by_id upsert_root apply_snapshot
    open_snapshot encrypted_size apply_snapshot_entries find update upsert any
catch_up_round-bootstrap_example =
    catch_up_round-bootstrap knowing opening nothing_like (λ i. knowing) laptop 6 10 pruned
      {resp = answer} phone_daemon blank phone_daemon (inr (omega arith), tt) refl refl refl

-- the server has removed the events that the device has not seen
abbrev around_phone : Surroundings
around_phone = record {
  worlds = λ k i. knowing;
  bootstrap_worlds = λ k. knowing;
  snapshot_worlds = λ k. opening;
  servers = λ k. pruned;
  bootstrap_servers = λ k. pruned;
}

pruned_row :
    (row : WorkspaceRow)
    → workspace_row "w" pruned ≡ ok row
    → (row.current_seq ≡ 2) × (row.retained_floor_seq ≡ 2)
unfolding runs
pruned_row row h =
    let e = ok-injective h in
    (
      ap (λ (r : WorkspaceRow). r.current_seq) (sym e),
      ap (λ (r : WorkspaceRow). r.retained_floor_seq) (sym e),
    )

pruned_above : AreAbove laptop (λ k. pruned) 2
unfolding runs
pruned_above = recomputed-AreAbove laptop 6 pruned _ (inr (omega arith), tt) refl refl

bootstrap_or_catch_up-IsEnded_example :
    IsEnded 0 (bootstrap_or_catch_up nothing_like laptop 10 around_phone 3 phone_daemon blank).0
bootstrap_or_catch_up-IsEnded_example =
    bootstrap_or_catch_up-IsEnded nothing_like laptop 10 around_phone (λ k i p. refl) 2 2 2
      phone_daemon blank
      (λ k row h. (omega (arith, (pruned_row row h).0), omega (arith, (pruned_row row h).1)))
      pruned_above (omega arith) (omega arith)

bootstrap_or_catch_up-HasPassed_example :
    HasPassed 2 (bootstrap_or_catch_up nothing_like laptop 10 around_phone 3 phone_daemon blank).0
bootstrap_or_catch_up-HasPassed_example =
    bootstrap_or_catch_up-HasPassed nothing_like laptop 10 around_phone (λ k i p. refl) 2 3
      phone_daemon blank (λ k row h. omega (arith, (pruned_row row h).0))

-- the device does bootstrap, and is caught up then
abbrev caught_up_at : Ending → Option ℕ
caught_up_at (caught_up t) = some (cursor t)
caught_up_at _ = none

caught_up_after_bootstrap :
    caught_up_at (bootstrap_or_catch_up nothing_like laptop 10 around_phone 2 phone_daemon blank).0
    ≡ some 2
unfolding runs bootstrap_or_catch_up catch_up_turn catch_up_round consume_all handle_bootstrap
    min_loop restart bootstrap_roots ensure_root_from_descriptor resolve_home_rel_target
    validate_home_rel_path validate_slash_rel_path target_for_home_rel clean_stored
    ensure_within_root rel_within_root root_by_id upsert_root apply_snapshot open_snapshot
    encrypted_size apply_snapshot_entries find update upsert any remove_missing fetch_events page_of
    workspace_row fetched_rows list_roots reset_last_seq sort_roots
caught_up_after_bootstrap = refl
