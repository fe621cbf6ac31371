-- ===== src/Server/Retention/Invisible.antt =====
-- Pruning (internal/server/db/maintenance.go) is invisible to a client whose cursor is at or above
-- the retained floor.
use mathlib.Core.Path.{subst}
use syna.Prelude.{
  ℕ, ◌≤◌, String, eq_iff, ◌≡◌, refl, ap, false, List, [], ◌∷◌, map, arith, ltb, Bool-cases,
  Option-cases, inl, inr, some,
}
use syna.Prelude.Result.{ok}
use syna.Table.{any, find, Unique}
use syna.Server.Schema.{Db, WorkspaceRow}
use syna.Server.Objects.{is_workspace}
use syna.Server.Workspaces.{workspace_row}
use syna.Server.Events.{fetch_events, page_of}
use syna.Server.Maintenance.{prune}
use syna.Server.Order.{IsOrdered, workspaces-prune, same_workspace}
use syna.Server.Retention.Loops.{Below, prune-SameWindow}
use syna.Server.Retention.Fetched.{SameWindow-fetched}

-- No row has the key, so nothing is asked of its floor.
floors_absent :
    (w : String) (after : ℕ) (rows : List WorkspaceRow)
    → any (is_workspace w) rows ≡ false
    → Below w after 0 (map (λ s. (s.workspace_id, s.retained_floor_seq)) rows)
unfolding any
floors_absent w after [] h = tt
floors_absent w after (s ∷ rows) h =
    (λ e. ground (arith, e), floors_absent w after rows (ground (arith, h)))

-- The only row of the workspace decides for every row with its key.
floors_bounded :
    (w : String) (after : ℕ) (rows : List WorkspaceRow) (r : WorkspaceRow)
    → Unique same_workspace rows
    → find (is_workspace w) rows ≡ some r
    → r.retained_floor_seq ≤ after
    → Below w after 0 (map (λ s. (s.workspace_id, s.retained_floor_seq)) rows)
unfolding find
floors_bounded w after [] r u h low = tt
floors_bounded w after (s ∷ rows) r u h low = elim (Bool-cases (is_workspace w s)) [
  | inl here ↦
      let e : s.retained_floor_seq ≡ r.retained_floor_seq = ground (arith, here) in
      let named : s.workspace_id ≡ w = (eq_iff s.workspace_id w).0 here in
      (
        λ _. omega (arith, e),
        floors_absent w after rows (subst (λ y. any (is_workspace y) rows ≡ false) named u.0),
      )
  | inr elsewhere ↦ (
    λ e. absurd (ground (arith, e, elsewhere)),
    floors_bounded w after rows r u.1 (ground (arith, elsewhere)) low,
  )
]

page_of-prune :
    (w : String) (after limit now event_retention zero_ref_retention : ℕ) (d : Db)
    (r : WorkspaceRow)
    → find (is_workspace w) d.workspaces ≡ some r
    → IsOrdered d
    → page_of w after limit (prune now event_retention zero_ref_retention d).0 r
      ≡ page_of w after limit d r
unfolding page_of
page_of-prune w after limit now event_retention zero_ref_retention d r found o =
    elim (Bool-cases (ltb after r.retained_floor_seq)) [
      | inl low ↦ rw low refl
      | inr fine ↦ rw fine (
          ap (λ es. ok (es, r.current_seq))
            (SameWindow-fetched w after r.current_seq limit d _ (
              prune-SameWindow w after r.current_seq now event_retention zero_ref_retention d
                (floors_bounded w after d.workspaces r o.workspaces_unique found
                  (ground (arith, fine)))
                o)))
    ]

-- For every workspace, cursor and page size, a fetch after a pruning answers what a fetch before it
-- would have answered, whatever the retentions: events, their references, and resync errors.
pub fetch_events-prune :
    (w : String) (after limit now event_retention zero_ref_retention : ℕ) (d : Db)
    → IsOrdered d
    → fetch_events w after limit (prune now event_retention zero_ref_retention d).0
      ≡ fetch_events w after limit d
unfolding fetch_events workspace_row
fetch_events-prune w after limit now event_retention zero_ref_retention d o =
    rw (workspaces-prune now event_retention zero_ref_retention d)
      (elim (Option-cases (find (is_workspace w) d.workspaces)) [
        | inl missing ↦ rw missing refl
        | inr (r, found) ↦
            rw found
              (page_of-prune w after limit now event_retention zero_ref_retention d r found o)
      ])
