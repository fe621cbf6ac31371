-- ===== src/Server/Isolation/Others.antt =====
-- What a purge of a workspace (internal/server/db/purge.go) leaves as it is for the others.
use mathlib.Core.Path.{subst}
use syna.Prelude.{
  ℕ, String, str_eq, eq_iff, ◌==◌, ◌≡◌, ◌≢◌, refl, sym, ◌∙◌, ap, Bool, true, false, List, [], ◌∷◌,
  map, arith, Option-cases, inl, inr,
}
use syna.Prelude.Result.{ok}
use syna.Table.{any, find, select, find-delete_apart, select-delete_apart}
use syna.Server.Schema.{Db, EventRow, EventObjectRefRow, WorkspaceRow}
use syna.Server.Objects.{is_workspace}
use syna.Server.Workspaces.{workspace_row}
use syna.Server.Events.{in_window, event_refs, fetch_events, page_of}
use syna.Server.Purge.{
  PurgeObject, PurgeResult, purge_rows, recount_objects, in_events, purge_workspace,
}
use syna.Server.Order.{has_seq, seq_unique, IsOrdered}
use syna.Server.Retention.{SameWindow, SameWindow-trans, SameWindow-fetched}
use syna.Server.Isolation.Rest.{SameRest, purge_workspace-SameRest}

any-select-has_seq :
    (q : EventRow → Bool) (seq : ℕ) (es : List EventRow)
    → any (λ e. e.seq == seq) (select q es) ≡ any (has_seq q seq) es
unfolding any select
any-select-has_seq q seq [] = refl
any-select-has_seq q seq (e ∷ es) = ground (arith, any-select-has_seq q seq es)

-- The events of the purged workspace do not hold the numbers of another's.
other_numbers :
    (w other : String) (after current seq : ℕ) (d : Db)
    → str_eq w other ≡ false
    → IsOrdered d
    → any (has_seq (in_window other after current) seq) d.events ≡ true
    → any (λ e. e.seq == seq) (select (λ e. str_eq e.workspace_id w) d.events) ≡ false
other_numbers w other after current seq d apart o h =
    any-select-has_seq (λ e. str_eq e.workspace_id w) seq d.events
    ∙ seq_unique (λ e. str_eq e.workspace_id w) (in_window other after current)
        (λ e g.
          ground
            (arith, g, apart, eq_iff e.workspace_id w, eq_iff e.workspace_id other, eq_iff w other))
        seq _ d.events o.descending h

-- A row that refers to an event of another workspace is not among those deleted.
kept_refs :
    (w : String) (seq : ℕ) (d : Db)
    → any (λ e. e.seq == seq) (select (λ e. str_eq e.workspace_id w) d.events) ≡ false
    → (r : EventObjectRefRow) → (r.event_seq == seq) ≡ true
    → in_events (select (λ e. str_eq e.workspace_id w) d.events) r ≡ false
kept_refs w seq d absent r h =
    let same : r.event_seq ≡ seq = ground (arith, h) in
    subst (λ n. any (λ e. e.seq == n) (select (λ e. str_eq e.workspace_id w) d.events) ≡ false)
      (sym same) absent

purge_rows-SameWindow :
    (w other : String) (after current now : ℕ) (d : Db)
    → str_eq w other ≡ false
    → IsOrdered d
    → SameWindow other after current d (recount_objects now (purge_rows w d))
unfolding purge_rows recount_objects event_refs
purge_rows-SameWindow w other after current now d apart o = record {
  rows =
      select-delete_apart (in_window other after current) (λ e. str_eq e.workspace_id w)
        (λ e g.
          ground
            (arith, g, apart, eq_iff e.workspace_id w, eq_iff e.workspace_id other, eq_iff w other))
        d.events;
  refs = λ seq h. ap (map (λ (r : EventObjectRefRow). r.object_id)) (
      select-delete_apart (λ (r : EventObjectRefRow). r.event_seq == seq)
        (in_events (select (λ e. str_eq e.workspace_id w) d.events))
        (kept_refs w seq d (other_numbers w other after current seq d apart o h))
        d.event_object_refs);
}

SameRest-SameWindow :
    (w : String) (after current : ℕ) {a b : Db} → SameRest a b → SameWindow w after current a b
unfolding event_refs
SameRest-SameWindow w after current s = record {
  rows = ap (select (in_window w after current)) s.events;
  refs = λ seq h.
      ap
        (λ rs.
          map (λ (r : EventObjectRefRow). r.object_id)
            (select (λ (r : EventObjectRefRow). r.event_seq == seq) rs))
        s.event_refs;
}

purge_rows-workspace :
    (w other : String) (now : ℕ) (d : Db)
    → str_eq w other ≡ false
    → find (is_workspace other) (recount_objects now (purge_rows w d)).workspaces
      ≡ find (is_workspace other) d.workspaces
unfolding purge_rows recount_objects
purge_rows-workspace w other now d apart =
    find-delete_apart (is_workspace other) (is_workspace w)
      (λ r g.
        ground
          (arith, g, apart, eq_iff r.workspace_id w, eq_iff r.workspace_id other, eq_iff w other))
      d.workspaces

page_of-SameWindow :
    (w : String) (after limit : ℕ) (a b : Db) (row : WorkspaceRow)
    → SameWindow w after row.current_seq a b
    → page_of w after limit b row ≡ page_of w after limit a row
unfolding page_of
page_of-SameWindow w after limit a b row s =
    rw (SameWindow-fetched w after row.current_seq limit a b s) refl

-- A purge of a workspace changes no answer to a fetch of events of any other, whatever objects it
-- deletes.
pub fetch_events-purge_workspace :
    (w other : String) (after limit now : ℕ) (candidates : List PurgeObject) (d : Db) {d' : Db}
    {r : PurgeResult}
    → purge_workspace w candidates now d ≡ ok (d', r)
    → w ≢ other
    → IsOrdered d
    → fetch_events other after limit d' ≡ fetch_events other after limit d
unfolding fetch_events workspace_row
fetch_events-purge_workspace w other after limit now candidates d {d'} h differ o =
    let apart : str_eq w other ≡ false = ground (arith, eq_iff w other, differ) in
    let same = purge_workspace-SameRest w candidates now d h in
    let row_kept =
      ap (find (is_workspace other)) same.workspaces ∙ purge_rows-workspace w other now d apart in
    rw row_kept (elim (Option-cases (find (is_workspace other) d.workspaces)) [
      | inl missing ↦ rw missing refl
      | inr (row, found) ↦ rw found (
          page_of-SameWindow other after limit d d' row (
            SameWindow-trans other after row.current_seq
              (purge_rows-SameWindow w other after row.current_seq now d apart o)
              (SameRest-SameWindow other after row.current_seq same)))
    ])
