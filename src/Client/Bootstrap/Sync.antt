-- ===== src/Client/Bootstrap/Sync.antt =====
-- internal/client/daemon/daemon.go: `bootstrapOrCatchUp`, with the `bootstrap` that it calls where the
-- server tells it to resync, and which calls it again. The code goes on until one of them returns; here
-- `turns` bounds the rounds and the bootstraps together. What surrounds the device, the server that
-- answers `FetchEvents` and the one that answers `Bootstrap` may differ from turn to turn.
use syna.Prelude.{ℕ, zero, suc, String, Bool, true, false}
use syna.Prelude.Result.{ok, err}
use syna.Server.Schema.{Db, Session}
use syna.Api.{Reply, BootstrapResponse, handle_bootstrap}
use syna.Client.World.{World}
use syna.Client.Snapshots.{SnapshotWorld, Disk}
use syna.Client.Daemon.{
  Daemon, Ending, resync, failed, out_of_rounds, Round, stop, again, catch_up_round,
}
use syna.Client.Bootstrap.Defs.{Step, restart}

pub data Turn : Type 0 where
  ended : Ending → Disk → Turn
  next : Daemon → Disk → Turn

-- what surrounds the device in each turn, and the servers that answer in it
pub record Surroundings : Type 0 where
  pub worlds : ℕ → ℕ → World
  pub bootstrap_worlds : ℕ → World
  pub snapshot_worlds : ℕ → SnapshotWorld
  pub servers : ℕ → Db
  pub bootstrap_servers : ℕ → Db

module _ (like : String → String → Bool) (sess : Session) (limit : ℕ) (around : Surroundings) where
  -- a bootstrap that has failed ends the catch-up; one that has not calls it again
  abbrev pub went_on : Step → Turn
  went_on ((s, disk), false) = ended (failed s) disk
  went_on ((s, disk), true) = next s disk

  -- `bootstrap`, up to the catch-up at its end
  abbrev pub bootstrapped : ℕ → Daemon → Disk → Reply BootstrapResponse → Turn
  bootstrapped turn s disk (err refused) = ended (failed s) disk
  bootstrapped turn s disk (ok resp) =
      went_on
        (restart (around.bootstrap_worlds turn) (around.snapshot_worlds turn) like resp s disk)

  -- what follows a round: nothing, the bootstrap, or the next round
  abbrev pub turned : ℕ → Disk → Round → Turn
  turned turn disk (stop (resync s)) =
      bootstrapped turn s disk (handle_bootstrap "GET" sess (around.bootstrap_servers turn))
  turned turn disk (stop c) = ended c disk
  turned turn disk (again s) = next s disk

  -- a round of the loop, and the bootstrap where the round is told to resync
  unfoldable pub catch_up_turn : ℕ → Daemon → Disk → Turn
  catch_up_turn turn s disk =
      turned turn disk
        (catch_up_round like (around.worlds turn) sess.workspace_id limit (around.servers turn) s)

  unfoldable pub bootstrap_or_catch_up : ℕ → Daemon → Disk → Ending × Disk
  bootstrap_or_catch_up zero s disk = (out_of_rounds s, disk)
  bootstrap_or_catch_up (suc turns) s disk = elim (catch_up_turn turns s disk) [
    | ended c disk' ↦ (c, disk')
    | next s' disk' ↦ bootstrap_or_catch_up turns s' disk'
  ]
