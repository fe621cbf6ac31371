-- ===== src/Client/Bootstrap/Ended.antt =====
-- What `bootstrapOrCatchUp` (internal/client/daemon/daemon.go) comes to, with the bootstraps that it runs:
-- it returns.
use syna.Prelude.{
  ℕ, zero, suc, ◌+◌, ◌≤◌, ◌<◌, String, Bool, true, false, ◌≡◌, refl, arith, inl, inr,
}
use syna.Prelude.Result.{ok, Result-cases}
use syna.Server.Schema.{Db, WorkspaceRow, Session}
use syna.Server.Workspaces.{workspace_row}
use syna.Api.{BootstrapResponse, handle_bootstrap}
use syna.Client.Applier.{IsIdempotent}
use syna.Client.Snapshots.{Disk}
use syna.Client.Daemon.{
  Daemon, Ending, caught_up, resync, no_progress, failed, out_of_rounds, Round, stop, again, cursor,
  catch_up_round, IsSound, catch_up_round-IsSound,
}
use syna.Client.Bootstrap.Defs.{Step, restart}
use syna.Client.Bootstrap.Removed.{restart-IsRestarted}
use syna.Client.Bootstrap.Sync.{
  Turn, ended, next, Surroundings, went_on, turned, catch_up_turn, bootstrap_or_catch_up,
}

-- The loop has returned, and not with a resync; a device that is caught up is not behind `start`.
abbrev pub IsEnded : ℕ → Ending → Type 0
IsEnded start (caught_up t) = start ≤ cursor t
IsEnded start (resync t) = ⊥
IsEnded start (no_progress t) = Unit
IsEnded start (failed t) = Unit
IsEnded start (out_of_rounds t) = ⊥

-- no server that is asked has its head above the bound or its retained floor above `floor`
abbrev pub AreBounded : String → (ℕ → Db) → ℕ → ℕ → Type 0
AreBounded w servers bound floor =
    (k : ℕ) (row : WorkspaceRow)
    → workspace_row w (servers k) ≡ ok row
    → (row.current_seq ≤ bound) × (row.retained_floor_seq ≤ floor)

-- a device that bootstraps starts again at `floor` or above
abbrev pub AreAbove : Session → (ℕ → Db) → ℕ → Type 0
AreAbove sess servers floor =
    (k : ℕ) (resp : BootstrapResponse)
    → handle_bootstrap "GET" sess (servers k) ≡ ok resp
    → floor ≤ resp.bootstrap_after_seq

IsEnded-later : (start later : ℕ) (c : Ending) → start ≤ later → IsEnded later c → IsEnded start c
IsEnded-later start later (caught_up t) h p = omega (arith, h, p)
IsEnded-later start later (resync t) h p = p
IsEnded-later start later (no_progress t) h p = tt
IsEnded-later start later (failed t) h p = tt
IsEnded-later start later (out_of_rounds t) h p = p

module _ (like : String → String → Bool) (sess : Session) (limit : ℕ) (around : Surroundings) where
  -- the turns after the first, by what the first came to
  abbrev pub after_turn : ℕ → Turn → Ending × Disk
  after_turn turns (ended c disk) = (c, disk)
  after_turn turns (next s disk) = bootstrap_or_catch_up like sess limit around turns s disk

  pub after_turn_lem :
      (turns : ℕ) (s : Daemon) (disk : Disk)
      → bootstrap_or_catch_up like sess limit around (suc turns) s disk
        ≡ after_turn turns (catch_up_turn like sess limit around turns s disk)
  unfolding bootstrap_or_catch_up
  after_turn_lem turns s disk =
      elim (catch_up_turn like sess limit around turns s disk)
        as (λ r.
          (elim r [
            | ended c disk' ↦ (c, disk')
            | next s' disk' ↦ bootstrap_or_catch_up like sess limit around turns s' disk'
          ])
          ≡ after_turn turns r) [ ended c disk' ↦ refl | next s' disk' ↦ refl ]

  module _ (idem : (k i : ℕ) → IsIdempotent (around.worlds k i).pkg.clean) where
    module _ (bound floor : ℕ) where
      -- A turn has moved the cursor on, or has ended.
      abbrev IsTurned : ℕ → Turn → Type 0
      IsTurned start (ended c disk) = IsEnded start c
      IsTurned start (next t disk) = (start < cursor t) × (start < bound)

      went_on-IsTurned :
          (start : ℕ) (x : Step)
          → (x.1 ≡ true → start < cursor x.0.0)
          → start < bound
          → IsTurned start (went_on like sess limit around x)
      went_on-IsTurned start ((s, disk), false) goes below = tt
      went_on-IsTurned start ((s, disk), true) goes below = (goes refl, below)

      turned-IsTurned :
          (turn : ℕ) (s : Daemon) (disk : Disk) (r : Round)
          → AreBounded sess.workspace_id around.servers bound floor
          → AreAbove sess around.bootstrap_servers floor
          → floor ≤ bound
          → IsSound sess.workspace_id (around.servers turn) s r
          → IsTurned (cursor s) (turned like sess limit around turn disk r)
      turned-IsTurned turn s disk (stop (caught_up t)) bounded above small
            (head, has, there, kept) =
          kept
      turned-IsTurned turn s disk (stop (resync t)) bounded above small (row, found, behind) =
          elim (Result-cases (handle_bootstrap "GET" sess (around.bootstrap_servers turn))) [
            | inl (e, refused) ↦ rw refused tt
            | inr (resp, answer) ↦
                let low = (bounded turn row found).1 in
                let high = above turn resp answer in
                rw answer (
                  went_on-IsTurned (cursor s)
                    (restart (around.bootstrap_worlds turn) (around.snapshot_worlds turn) like resp
                      t disk)
                    (λ done.
                      let at =
                        (restart-IsRestarted (around.bootstrap_worlds turn)
                          (around.snapshot_worlds turn) like resp t disk done).1 in
                      omega (arith, at, behind, low, high))
                    (omega (arith, behind, low, small)))
          ]
      turned-IsTurned turn s disk (stop (no_progress t)) bounded above small h = tt
      turned-IsTurned turn s disk (stop (failed t)) bounded above small h = tt
      turned-IsTurned turn s disk (stop (out_of_rounds t)) bounded above small h = h
      turned-IsTurned turn s disk (again t) bounded above small (head, has, below, on) =
          let (row, found, same) = has in
          (on, omega (arith, below, same, (bounded turn row found).0))

      catch_up_turn-IsTurned :
          (turn : ℕ) (s : Daemon) (disk : Disk)
          → AreBounded sess.workspace_id around.servers bound floor
          → AreAbove sess around.bootstrap_servers floor
          → floor ≤ bound
          → IsTurned (cursor s) (catch_up_turn like sess limit around turn s disk)
      unfolding catch_up_turn
      catch_up_turn-IsTurned turn s disk bounded above small =
          turned-IsTurned turn s disk
            (catch_up_round like (around.worlds turn) sess.workspace_id limit (around.servers turn)
              s)
            bounded above small
            (catch_up_round-IsSound like (around.worlds turn) sess.workspace_id limit
              (around.servers turn) s (idem turn))

      after-IsEnded :
          (turns start : ℕ) (r : Turn)
          → ((t : Daemon) (disk : Disk)
              → start < cursor t
              → start < bound
              → IsEnded (cursor t) (bootstrap_or_catch_up like sess limit around turns t disk).0)
          → IsTurned start r
          → IsEnded start (after_turn turns r).0
      after-IsEnded turns start (ended c disk) goes h = h
      after-IsEnded turns start (next t disk) goes (on, below) =
          IsEnded-later start (cursor t) (after_turn turns (next t disk)).0 (omega (arith, on))
            (goes t disk on below)

    -- Where cleaning a path twice is cleaning it once, no server that answers a fetch has its head
    -- above `bound` or its retained floor above `floor`, no answer to a bootstrap has its cursor below
    -- `floor`, and `floor` is not above `bound`: the catch-up, with every bootstrap in it, returns
    -- after at most one turn more than `bound` is above the cursor; and a device that is caught up
    -- then is not behind the cursor that it had.
    pub bootstrap_or_catch_up-IsEnded :
        (bound floor turns : ℕ) (s : Daemon) (disk : Disk)
        → AreBounded sess.workspace_id around.servers bound floor
        → AreAbove sess around.bootstrap_servers floor
        → floor ≤ bound
        → bound ≤ turns + cursor s
        → IsEnded (cursor s) (bootstrap_or_catch_up like sess limit around (suc turns) s disk).0
    bootstrap_or_catch_up-IsEnded bound floor zero s disk bounded above small enough =
        rw (after_turn_lem zero s disk) (
          after-IsEnded bound floor zero (cursor s)
            (catch_up_turn like sess limit around zero s disk)
            (λ t disk' on below. absurd (omega (arith, enough, below)))
            (catch_up_turn-IsTurned bound floor zero s disk bounded above small))
    bootstrap_or_catch_up-IsEnded bound floor (suc turns) s disk bounded above small enough =
        rw (after_turn_lem (suc turns) s disk) (
          after-IsEnded bound floor (suc turns) (cursor s)
            (catch_up_turn like sess limit around (suc turns) s disk)
            (λ t disk' on below.
              bootstrap_or_catch_up-IsEnded bound floor turns t disk' bounded above small
                (omega (arith, enough, on)))
            (catch_up_turn-IsTurned bound floor (suc turns) s disk bounded above small))
