-- ===== src/Client/Daemon/CatchUp.antt =====
-- internal/client/daemon/daemon.go: one round of the loop of `bootstrapOrCatchUp` against
-- `FetchEvents` of the server. A round that is told to resync ends there; the bootstrap that the code
-- calls then, and the loop, are in Client/Bootstrap/Sync.antt.
use syna.Prelude.{ℕ, String, Bool, true, false, List, [], ◌∷◌, ltb, leb, if◌then◌else◌}
use syna.Prelude.Result.{Result, ok, err}
use syna.Protocol.{EventRecord}
use syna.Server.Schema.{Db}
use syna.Server.Errors.{DbError, resync_required}
use syna.Server.Events.{fetch_events}
use syna.Client.World.{World}
use syna.Client.Daemon.Roots.{Daemon}
use syna.Client.Daemon.Events.{consume_remote_event}

-- how a round or the loop ends, and the device as it is then
pub data Ending : Type 0 where
  caught_up resync no_progress failed out_of_rounds : Daemon → Ending

pub data Round : Type 0 where
  stop : Ending → Round
  again : Daemon → Round

abbrev pub cursor : Daemon → ℕ
cursor s = s.db.workspace.last_server_seq

abbrev pub last_seq : EventRecord → List EventRecord → ℕ
last_seq e [] = e.seq
last_seq e (f ∷ fs) = last_seq f fs

module _ (like : String → String → Bool) where
  -- the events of a page one after the other; false where one of them failed
  unfoldable pub consume_all : (ℕ → World) → List EventRecord → Daemon → Daemon × Bool
  consume_all worlds [] s = (s, true)
  consume_all worlds (e ∷ es) s = elim (consume_remote_event (worlds e.seq) like e s) [
    | err why ↦ (s, false)
    | ok s' ↦ consume_all worlds es s'
  ]

  abbrev pub page_end : List EventRecord → ℕ → Daemon → Daemon × Bool → Round
  page_end [] head s consumed =
      if ltb (cursor s) head then stop (no_progress s) else stop (caught_up s)
  page_end (e ∷ es) head s (s', false) = stop (failed s')
  page_end (e ∷ es) head s (s', true) =
      if leb head (last_seq e es) then stop (caught_up s') else again s'

  -- the bootstrap that follows a resync is `turned` of Client/Bootstrap/Sync.antt
  abbrev pub answered : (ℕ → World) → Daemon → Result DbError (List EventRecord × ℕ) → Round
  answered worlds s (err (resync_required floor)) = stop (resync s)
  answered worlds s (err _) = stop (failed s)
  answered worlds s (ok (events, head)) = page_end events head s (consume_all worlds events s)

  unfoldable pub catch_up_round : (ℕ → World) → String → ℕ → Db → Daemon → Round
  catch_up_round worlds workspace_id limit server s =
      answered worlds s (fetch_events workspace_id (cursor s) limit server)
