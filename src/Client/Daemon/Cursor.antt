-- ===== src/Client/Daemon/Cursor.antt =====
-- The catch-up of a device (internal/client/daemon/daemon.go) with the pages that the server answers.
use mathlib.Core.Path.{subst}
use syna.Prelude.{
  ℕ, ◌≤◌, ◌<◌, String, ◌≡◌, sym, ap, Bool, true, List, [], ◌∷◌, map, arith, ltb, All, All-take,
  Bool-cases, inl, inr,
}
use syna.Prelude.Result.{ok, ok-injective, >>=-eq-ok, fail_if-eq-ok, Result-cases}
use syna.Protocol.{EventRecord}
use syna.Table.{select}
use syna.Server.Schema.{Db, EventRow, WorkspaceRow}
use syna.Server.Errors.{resync_required}
use syna.Server.Workspaces.{workspace_row}
use syna.Server.Events.{fetch_events, fetched_rows, in_window, sort_by_seq, record_of, page_of}
use syna.Server.Retention.{All-sort_by_seq}
use syna.Client.World.{World}
use syna.Client.Applier.{IsIdempotent}
use syna.Client.Daemon.Roots.{Daemon}
use syna.Client.Daemon.Events.{consume_remote_event}
use syna.Client.Daemon.CatchUp.{cursor, last_seq, consume_all}
use syna.Client.Daemon.Consumed.{cursor-consume_remote_event}

-- the numbers of a page lie above the cursor and not above the head
abbrev pub IsBetween : ℕ → ℕ → EventRecord → Type 0
IsBetween after head e = (after < e.seq) × (e.seq ≤ head)

abbrev IsRowBetween : ℕ → ℕ → EventRow → Type 0
IsRowBetween after head e = (after < e.seq) × (e.seq ≤ head)

IsRowBetween-select :
    (w : String) (after head : ℕ) (es : List EventRow)
    → All (IsRowBetween after head) (select (in_window w after head) es)
unfolding select
IsRowBetween-select w after head [] = tt
IsRowBetween-select w after head (e ∷ es) = elim (Bool-cases (in_window w after head e)) [
  | inl inside ↦
      rw inside
        ((ground (arith, inside), ground (arith, inside)), IsRowBetween-select w after head es)
  | inr outside ↦ rw outside (IsRowBetween-select w after head es)
]

IsBetween-records :
    (after head : ℕ) (d : Db) (es : List EventRow)
    → All (IsRowBetween after head) es
    → All (IsBetween after head) (map (record_of d) es)
unfolding record_of
IsBetween-records after head d [] u = tt
IsBetween-records after head d (e ∷ es) u = (u.0, IsBetween-records after head d es u.1)

-- what an answered fetch says
pub fetch_events-IsBetween :
    (w : String) (after limit : ℕ) (d : Db) {r : List EventRecord × ℕ}
    → fetch_events w after limit d ≡ ok r
    → (row : WorkspaceRow) × (workspace_row w d ≡ ok row)
      × (r.1 ≡ row.current_seq)
      × All (IsBetween after r.1) r.0
unfolding fetch_events page_of fetched_rows
fetch_events-IsBetween w after limit d {r} h =
    let (row, found, h1) = >>=-eq-ok (workspace_row w d) (page_of w after limit d) h in
    let (above, h2) =
      fail_if-eq-ok (ltb after row.retained_floor_seq) (resync_required row.retained_floor_seq) _
        h1 in
    let e = ok-injective h2 in
    (
      row,
      found,
      sym (ap (λ p. p.1) e),
      subst (λ (p : List EventRecord × ℕ). All (IsBetween after p.1) p.0) e
          (IsBetween-records after row.current_seq d (fetched_rows w after row.current_seq limit d)
            (All-take (IsRowBetween after row.current_seq) limit
              (sort_by_seq (select (in_window w after row.current_seq) d.events))
              (All-sort_by_seq (IsRowBetween after row.current_seq) _
                (IsRowBetween-select w after row.current_seq d.events)))),
    )

module _ (like : String → String → Bool) where
  pub consumed_le :
      (worlds : ℕ → World) (es : List EventRecord) (s : Daemon)
      → ((i : ℕ) → IsIdempotent (worlds i).pkg.clean)
      → cursor s ≤ cursor (consume_all like worlds es s).0
  unfolding consume_all
  consumed_le worlds [] s idem = omega arith
  consumed_le worlds (e ∷ es) s idem =
      elim (Result-cases (consume_remote_event (worlds e.seq) like e s)) [
        | inl (why, refused) ↦ rw (consume_all, refused) (omega arith)
        | inr (t, done) ↦
            let moved = cursor-consume_remote_event (worlds e.seq) like e s (idem e.seq) done in
            let rest = consumed_le worlds es t idem in
            rw (consume_all, done) (ground (arith, moved, rest))
      ]

  consumed_after :
      (worlds : ℕ → World) (e : EventRecord) (es : List EventRecord) (s : Daemon)
      → ((i : ℕ) → IsIdempotent (worlds i).pkg.clean)
      → e.seq ≤ cursor s
      → (consume_all like worlds es s).1 ≡ true
      → last_seq e es ≤ cursor (consume_all like worlds es s).0
  unfolding consume_all
  consumed_after worlds e [] s idem past h = past
  consumed_after worlds e (f ∷ fs) s idem past h =
      elim (Result-cases (consume_remote_event (worlds f.seq) like f s)) [
        | inl (why, refused) ↦ absurd (ground (arith, (rw (consume_all, refused) at h)))
        | inr (t, done) ↦
            let moved = cursor-consume_remote_event (worlds f.seq) like f s (idem f.seq) done in
            rw (consume_all, done)
              (consumed_after worlds f fs t idem (ground (arith, moved))
                (rw (consume_all, done) at h))
      ]

  -- After a page the cursor is at its last event, or above it.
  pub consumed_reaches :
      (worlds : ℕ → World) (e : EventRecord) (es : List EventRecord) (s : Daemon)
      → ((i : ℕ) → IsIdempotent (worlds i).pkg.clean)
      → (consume_all like worlds (e ∷ es) s).1 ≡ true
      → last_seq e es ≤ cursor (consume_all like worlds (e ∷ es) s).0
  unfolding consume_all
  consumed_reaches worlds e es s idem h =
      elim (Result-cases (consume_remote_event (worlds e.seq) like e s)) [
        | inl (why, refused) ↦ absurd (ground (arith, (rw (consume_all, refused) at h)))
        | inr (t, done) ↦
            let moved = cursor-consume_remote_event (worlds e.seq) like e s (idem e.seq) done in
            rw (consume_all, done)
              (consumed_after worlds e es t idem (ground (arith, moved))
                (rw (consume_all, done) at h))
      ]

pub last-IsBetween :
    (after head : ℕ) (e : EventRecord) (es : List EventRecord)
    → All (IsBetween after head) (e ∷ es)
    → IsBetween after head e × (after < last_seq e es)
last-IsBetween after head e [] u = (u.0, u.0.0)
last-IsBetween after head e (f ∷ fs) u = (u.0, (last-IsBetween after head f fs u.1).1)
