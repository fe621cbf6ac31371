-- ===== src/Client/Bootstrap/Passed.antt =====
-- What `bootstrapOrCatchUp` (internal/client/daemon/daemon.go) comes to, with the bootstraps that it runs:
-- a device that it says is caught up has passed the server's head.
use syna.Prelude.{ℕ, zero, suc, ◌≤◌, String, Bool, true, false, ◌≡◌, arith, inl, inr}
use syna.Prelude.Result.{ok, Result-cases}
use syna.Server.Schema.{WorkspaceRow, Session}
use syna.Server.Workspaces.{workspace_row}
use syna.Api.{handle_bootstrap}
use syna.Client.Applier.{IsIdempotent}
use syna.Client.Snapshots.{Disk}
use syna.Client.Daemon.{
  Daemon, Ending, caught_up, resync, no_progress, failed, out_of_rounds, Round, stop, again, cursor,
  catch_up_round, IsSound, catch_up_round-IsSound,
}
use syna.Client.Bootstrap.Defs.{Step, restart}
use syna.Client.Bootstrap.Sync.{
  Turn, ended, next, Surroundings, went_on, turned, catch_up_turn, bootstrap_or_catch_up,
}
use syna.Client.Bootstrap.Ended.{after_turn, after_turn_lem}

-- a device that is caught up has passed the head
abbrev pub HasPassed : ℕ → Ending → Type 0
HasPassed head (caught_up t) = head ≤ cursor t
HasPassed head (resync t) = ⊥
HasPassed head _ = Unit

module _ (like : String → String → Bool) (sess : Session) (limit : ℕ) (around : Surroundings) where
  module _ (idem : (k i : ℕ) → IsIdempotent (around.worlds k i).pkg.clean) where
    -- what an ended turn promises of the head
    abbrev IsTurnPassed : ℕ → Turn → Type 0
    IsTurnPassed head (ended c disk) = HasPassed head c
    IsTurnPassed head (next t disk) = Unit

    went_on-IsTurnPassed :
        (head : ℕ) (x : Step) → IsTurnPassed head (went_on like sess limit around x)
    went_on-IsTurnPassed head ((s, disk), false) = tt
    went_on-IsTurnPassed head ((s, disk), true) = tt

    turned-IsTurnPassed :
        (head turn : ℕ) (s : Daemon) (disk : Disk) (r : Round)
        → ((row : WorkspaceRow)
            → workspace_row sess.workspace_id (around.servers turn) ≡ ok row
            → head ≤ row.current_seq)
        → IsSound sess.workspace_id (around.servers turn) s r
        → IsTurnPassed head (turned like sess limit around turn disk r)
    turned-IsTurnPassed head turn s disk (stop (caught_up t)) heads (seen, has, there, kept) =
        let (row, found, same) = has in omega (arith, there, same, heads row found)
    turned-IsTurnPassed head turn s disk (stop (resync t)) heads h =
        elim (Result-cases (handle_bootstrap "GET" sess (around.bootstrap_servers turn))) [
          | inl (e, refused) ↦ rw refused tt
          | inr (resp, answer) ↦ rw answer (
              went_on-IsTurnPassed head (
                restart (around.bootstrap_worlds turn) (around.snapshot_worlds turn) like resp t
                  disk))
        ]
    turned-IsTurnPassed head turn s disk (stop (no_progress t)) heads h = tt
    turned-IsTurnPassed head turn s disk (stop (failed t)) heads h = tt
    turned-IsTurnPassed head turn s disk (stop (out_of_rounds t)) heads h = tt
    turned-IsTurnPassed head turn s disk (again t) heads h = tt

    catch_up_turn-IsTurnPassed :
        (head turn : ℕ) (s : Daemon) (disk : Disk)
        → ((row : WorkspaceRow)
            → workspace_row sess.workspace_id (around.servers turn) ≡ ok row
            → head ≤ row.current_seq)
        → IsTurnPassed head (catch_up_turn like sess limit around turn s disk)
    unfolding catch_up_turn
    catch_up_turn-IsTurnPassed head turn s disk heads =
        turned-IsTurnPassed head turn s disk
          (catch_up_round like (around.worlds turn) sess.workspace_id limit (around.servers turn) s)
          heads
          (catch_up_round-IsSound like (around.worlds turn) sess.workspace_id limit
            (around.servers turn) s (idem turn))

    after-HasPassed :
        (turns head : ℕ) (r : Turn)
        → ((t : Daemon) (disk : Disk)
            → HasPassed head (bootstrap_or_catch_up like sess limit around turns t disk).0)
        → IsTurnPassed head r
        → HasPassed head (after_turn like sess limit around turns r).0
    after-HasPassed turns head (ended c disk) goes h = h
    after-HasPassed turns head (next t disk) goes h = goes t disk

    -- Where cleaning a path twice is cleaning it once, and every server that answers a fetch has its
    -- head at `head` or above: a catch-up of any number of turns, with every bootstrap in it, says of a
    -- device that it is caught up only if its cursor is at `head` or above, and never ends at a
    -- resync.
    pub bootstrap_or_catch_up-HasPassed :
        (head turns : ℕ) (s : Daemon) (disk : Disk)
        → ((k : ℕ) (row : WorkspaceRow)
            → workspace_row sess.workspace_id (around.servers k) ≡ ok row
            → head ≤ row.current_seq)
        → HasPassed head (bootstrap_or_catch_up like sess limit around turns s disk).0
    unfolding bootstrap_or_catch_up
    bootstrap_or_catch_up-HasPassed head zero s disk heads = tt
    bootstrap_or_catch_up-HasPassed head (suc turns) s disk heads =
        rw (after_turn_lem like sess limit around turns s disk) (
          after-HasPassed turns head (catch_up_turn like sess limit around turns s disk)
            (λ t disk'. bootstrap_or_catch_up-HasPassed head turns t disk' heads)
            (catch_up_turn-IsTurnPassed head turns s disk (heads turns)))
