-- ===== src/Client/Daemon/Rounds.antt =====
-- The rounds of a catch-up (internal/client/daemon/daemon.go).
use syna.Prelude.{
  ℕ, ◌≤◌, ◌<◌, String, ◌≡◌, refl, Bool, true, false, List, [], ◌∷◌, arith, ltb, leb, All,
  Bool-cases, Option-cases, inl, inr,
}
use syna.Prelude.Result.{Result, ok, err}
use syna.Protocol.{EventRecord}
use syna.Server.Schema.{Db, WorkspaceRow}
use syna.Server.Errors.{DbError, resync_required}
use syna.Server.Workspaces.{workspace_row}
use syna.Server.Objects.{is_workspace}
use syna.Server.Events.{fetch_events, page_of}
use syna.Table.{find}
use syna.Client.World.{World}
use syna.Client.Applier.{IsIdempotent}
use syna.Client.Daemon.Roots.{Daemon}
use syna.Client.Daemon.CatchUp.{
  caught_up, resync, no_progress, failed, out_of_rounds, Round, stop, again, cursor, last_seq,
  consume_all, page_end, answered, catch_up_round,
}
use syna.Client.Daemon.Cursor.{
  IsBetween, fetch_events-IsBetween, consumed_le, consumed_reaches, last-IsBetween,
}

-- the head that the server of a round has
abbrev pub HasHead : String → Db → ℕ → Type 0
HasHead w d head = (row : WorkspaceRow) × (workspace_row w d ≡ ok row) × (head ≡ row.current_seq)

-- the server of a round retains no event that the device asks for
abbrev pub IsBelowFloor : String → Db → Daemon → Type 0
IsBelowFloor w d s =
    (row : WorkspaceRow) × (workspace_row w d ≡ ok row) × (cursor s < row.retained_floor_seq)

-- What a round promises of the device `s` and the head that it saw.
abbrev pub IsSound : String → Db → Daemon → Round → Type 0
IsSound w d s (stop (caught_up t)) =
    (head : ℕ) × HasHead w d head × (head ≤ cursor t) × (cursor s ≤ cursor t)
IsSound w d s (stop (resync t)) = IsBelowFloor w d s
IsSound w d s (stop (no_progress t)) = cursor s ≤ cursor t
IsSound w d s (stop (failed t)) = cursor s ≤ cursor t
IsSound w d s (stop (out_of_rounds t)) = ⊥
IsSound w d s (again t) = (head : ℕ) × HasHead w d head × (cursor s < head) × (cursor s < cursor t)

module _ (like : String → String → Bool) (worlds : ℕ → World) where
  page_end-IsSound :
      (w : String) (d : Db) (events : List EventRecord) (head : ℕ) (s : Daemon)
      → ((i : ℕ) → IsIdempotent (worlds i).pkg.clean)
      → HasHead w d head
      → All (IsBetween (cursor s) head) events
      → IsSound w d s (page_end like events head s (consume_all like worlds events s))
  page_end-IsSound w d [] head s idem has u = elim (Bool-cases (ltb (cursor s) head)) [
    | inl behind ↦ rw behind (omega arith)
    | inr there ↦ rw there (head, has, ground (arith, there), omega arith)
  ]
  page_end-IsSound w d (e ∷ es) head s idem has u =
      let (first, later) = last-IsBetween (cursor s) head e es u in
      let kept = consumed_le like worlds (e ∷ es) s idem in
      pair (consume_all like worlds (e ∷ es) s) (consumed_reaches like worlds e es s idem) kept
        later first
    where
      pair :
          (c : Daemon × Bool)
          → (c.1 ≡ true → last_seq e es ≤ cursor c.0)
          → cursor s ≤ cursor c.0
          → cursor s < last_seq e es
          → IsBetween (cursor s) head e
          → IsSound w d s (page_end like (e ∷ es) head s c)
      pair (t, false) reaches kept later first = kept
      pair (t, true) reaches kept later first = elim (Bool-cases (leb head (last_seq e es))) [
        | inl done ↦ rw done (head, has, ground (arith, done, reaches refl), kept)
        | inr more ↦
            rw more (head, has, ground (arith, later, first), ground (arith, later, reaches refl))
      ]

  fetch_events-IsBelowFloor :
      (w : String) (d : Db) (limit : ℕ) (s : Daemon) {floor : ℕ}
      → fetch_events w (cursor s) limit d ≡ err (resync_required floor)
      → IsBelowFloor w d s
  unfolding fetch_events page_of workspace_row
  fetch_events-IsBelowFloor w d limit s h =
      elim (Option-cases (find (is_workspace w) d.workspaces)) [
        | inl missing ↦ absurd (ground (arith, (rw missing at h)))
        | inr (row, found) ↦ elim (Bool-cases (ltb (cursor s) row.retained_floor_seq)) [
          | inl below ↦ (row, rw found refl, ground (arith, below))
          | inr above ↦ absurd (ground (arith, (rw (found, above) at h)))
        ]
      ]

  answered-IsSound :
      (w : String) (d : Db) (limit : ℕ) (s : Daemon) (r : Result DbError (List EventRecord × ℕ))
      → ((i : ℕ) → IsIdempotent (worlds i).pkg.clean)
      → fetch_events w (cursor s) limit d ≡ r
      → IsSound w d s (answered like worlds s r)
  answered-IsSound w d limit s (ok (events, head)) idem h =
      let (row, found, same, between) = fetch_events-IsBetween w (cursor s) limit d h in
      page_end-IsSound w d events head s idem (row, found, same) between
  answered-IsSound w d limit s (err (resync_required floor)) idem h =
      fetch_events-IsBelowFloor w d limit s h
  answered-IsSound w d limit s (err _) idem h = omega arith

  pub catch_up_round-IsSound :
      (w : String) (limit : ℕ) (d : Db) (s : Daemon)
      → ((i : ℕ) → IsIdempotent (worlds i).pkg.clean)
      → IsSound w d s (catch_up_round like worlds w limit d s)
  unfolding catch_up_round
  catch_up_round-IsSound w limit d s idem =
      answered-IsSound w d limit s (fetch_events w (cursor s) limit d) idem refl
