-- ===== src/Server/Floor/Reset.antt =====
-- What a `root_add` does to the retained floor, and to the cursors that it refused.
use mathlib.Core.Path.{subst}
use mathlib.Core.Option
use syna.Prelude.{
  ℕ, suc, String, str_eq, eq_iff, ◌≡◌, refl, sym, ◌∙◌, ap, Bool, true, false, ◌&&◌, some, List, [],
  ◌∷◌, arith, ltb, if◌then◌else◌, Bool-cases, Option-cases, inl, inr, is_some,
}
use syna.Prelude.Result.{ok, >>=-eq-ok, ok-injective}
use syna.Table.{any, find, select, update, upsert, find-update, find_sound, any-find}
use syna.Protocol.{EventSubmitRequest, EventRecord, EventType, root_add}
use syna.Server.Schema.{Db, RootRow, Session}
use syna.Server.Objects.{is_workspace}
use syna.Server.Workspaces.{
  workspace_row, current_seq, retained_floor, active_roots, is_active, floor_of, set_floor,
  recompute_retained_floor,
}
use syna.Server.Events.{
  SubmitResult, is_root, write_event, apply_effects, insert_event, settle_floor, submit_event,
  fetch_events, page_of,
}
use syna.Server.Accepted.{submit_event-Accepted}
use syna.Server.Conflicts.{write_event-SameChecks}
use syna.Server.Floor.Minimum.{lacks_snapshot, floor_of-lacking}

-- what a root row is that a `root_add` has just written
abbrev is_fresh : RootRow → Bool
is_fresh r = is_active r && lacks_snapshot r

-- If the row that a key finds passes a test, some row has the key and passes it.
any_of_find :
    (q p : RootRow → Bool) (rows : List RootRow) (r : RootRow)
    → find q rows ≡ some r
    → p r ≡ true
    → any (λ s. q s && p s) rows ≡ true
unfolding find any
any_of_find q p [] r h e = cc
any_of_find q p (s ∷ rows) r h e = elim (Bool-cases (q s)) [
  | inl here ↦ let same : s ≡ r = ground (arith, here) in ground (arith, here, e, same)
  | inr elsewhere ↦ ground (arith, elsewhere, any_of_find q p rows r (ground (arith, elsewhere)) e)
]

-- An upsert whose row and whose change both pass a test leaves a row with the key that passes it.
any-upsert :
    (q p : RootRow → Bool) (f : RootRow → RootRow) (row : RootRow)
    → ((r : RootRow) → q (f r) ≡ q r)
    → ((r : RootRow) → p (f r) ≡ true)
    → q row ≡ true
    → p row ≡ true
    → (rows : List RootRow) → any (λ s. q s && p s) (upsert q f row rows) ≡ true
unfolding upsert any
any-upsert q p f row keep fresh hit pass rows = elim (Option-cases (find q rows)) [
  | inl missing ↦
      let absent : any q rows ≡ false = any-find q rows ∙ ap is_some missing in
      rw absent (ground (arith, hit, pass))
  | inr (r, found) ↦
      let there : any q rows ≡ true = any-find q rows ∙ ap is_some found in
      rw there (
        any_of_find q p (update q f rows) (f r)
          (find-update q f keep q rows
            ∙ ap (Option.map (λ s. if q s then f s else s)) found
            ∙ (rw (find_sound q rows found) refl))
          (fresh r))
]

any-select :
    (p q : RootRow → Bool) (rows : List RootRow)
    → any (λ r. q r && p r) rows ≡ true
    → any p (select q rows) ≡ true
unfolding any select
any-select p q [] h = cc
any-select p q (r ∷ rows) h = ground (arith, any-select p q rows)

any_mono :
    (p q : RootRow → Bool)
    → ((r : RootRow) → p r ≡ true → q r ≡ true)
    → (rows : List RootRow) → any p rows ≡ true
    → any q rows ≡ true
unfolding any
any_mono p q within [] h = cc
any_mono p q within (r ∷ rows) h = ground (arith, within r, any_mono p q within rows)

-- The new root is active and has no snapshot.
fresh_root :
    (sess : Session) (req : EventSubmitRequest) (seq now : ℕ) (d : Db)
    → any
        (λ s. is_root sess.workspace_id req.root_id s && is_fresh s)
        (apply_effects sess req root_add seq now d).roots
      ≡ true
unfolding apply_effects
fresh_root sess req seq now d =
    any-upsert (is_root sess.workspace_id req.root_id) is_fresh _ _ (λ r. refl) (λ r. refl)
      (ground (
        arith,
        (eq_iff sess.workspace_id sess.workspace_id).1 refl,
        (eq_iff req.root_id req.root_id).1 refl,
      ))
      refl d.roots

floor-root_add :
    (sess : Session) (req : EventSubmitRequest) (now seq : ℕ) (d : Db)
    → req.event_type ≡ root_add
    → floor_of seq (active_roots sess.workspace_id (write_event sess req now d)) ≡ 0
unfolding active_roots
floor-root_add sess req now seq d added = floor_of-lacking seq _ (
    any-select lacks_snapshot (λ r. str_eq r.workspace_id sess.workspace_id && is_active r) _
      (any_mono (λ s. is_root sess.workspace_id req.root_id s && is_fresh s) _ (λ r h. ground arith)
        _
        (rw (write_event-SameChecks sess req now d).roots (
          subst
            (λ t.
              any (λ s. is_root sess.workspace_id req.root_id s && is_fresh s)
                (apply_effects sess req t (suc d.last_event_seq) now
                  (insert_event sess req now d)).roots
              ≡ true)
            (sym added)
            (fresh_root sess req (suc d.last_event_seq) now (insert_event sess req now d))))))

settle_floor-root_add :
    (t : EventType) (w : String) (now : ℕ) (d : Db)
    → t ≡ root_add
    → settle_floor t w now d ≡ recompute_retained_floor w now d
unfolding settle_floor
settle_floor-root_add t w now d e = rw e refl

-- The floor that is set is the floor that is read.
pub retained_floor-set_floor :
    (w : String) (now floor seq : ℕ) (d : Db)
    → current_seq w d ≡ ok seq
    → retained_floor w (set_floor w now floor d) ≡ ok floor
unfolding retained_floor set_floor current_seq workspace_row
retained_floor-set_floor w now floor seq d h =
    rw
      (find-update (is_workspace w) (λ r. record r { retained_floor_seq = floor; updated_at = now })
        (λ r. refl) (is_workspace w) d.workspaces)
      (elim (Option-cases (find (is_workspace w) d.workspaces)) [
        | inl missing ↦ absurd (ground (arith, missing))
        | inr (r, found) ↦ rw found (rw (find_sound (is_workspace w) d.workspaces found) refl)
      ])

-- Whatever was retained and pruned before, an accepted `root_add` sets the retained floor of its
-- workspace to 0.
pub retained_floor-root_add :
    (sess : Session) (req : EventSubmitRequest) (now : ℕ) (d : Db) {d' : Db} {r : SubmitResult}
    → submit_event sess req now d ≡ ok (d', r)
    → req.event_type ≡ root_add
    → retained_floor sess.workspace_id d' ≡ ok 0
unfolding recompute_retained_floor
retained_floor-root_add sess req now d {d'} {r} h added =
    let a = submit_event-Accepted sess req now d h in
    let settled =
      sym (settle_floor-root_add req.event_type sess.workspace_id now _ added) ∙ a.settled in
    let (seq, head, e) =
      >>=-eq-ok (current_seq sess.workspace_id (write_event sess req now d)) _ settled in
    rw (← ok-injective e) (
      rw (floor-root_add sess req now seq d added)
        (retained_floor-set_floor sess.workspace_id now 0 seq _ head))

-- A workspace whose retained floor is 0 refuses no cursor.
fetch_events_at_zero :
    (w : String) (after limit : ℕ) (d : Db)
    → retained_floor w d ≡ ok 0
    → (page : List EventRecord × ℕ) × (fetch_events w after limit d ≡ ok page)
unfolding retained_floor fetch_events workspace_row page_of
fetch_events_at_zero w after limit d h = elim (Option-cases (find (is_workspace w) d.workspaces)) [
  | inl missing ↦ absurd (ground (arith, missing))
  | inr (row, found) ↦
      let low : row.retained_floor_seq ≡ 0 = ground (arith, found) in
      let fine : ltb after row.retained_floor_seq ≡ false = ground (arith, low) in
      rw found (rw fine (_, refl))
]

-- After an accepted `root_add` no cursor of the workspace is refused: every one, also one that
-- pruned events lie above, is answered with a page.
pub fetch_events-root_add :
    (sess : Session) (req : EventSubmitRequest) (now after limit : ℕ) (d : Db) {d' : Db}
    {r : SubmitResult}
    → submit_event sess req now d ≡ ok (d', r)
    → req.event_type ≡ root_add
    → (page : List EventRecord × ℕ) × (fetch_events sess.workspace_id after limit d' ≡ ok page)
fetch_events-root_add sess req now after limit d {d'} h added =
    fetch_events_at_zero sess.workspace_id after limit d'
      (retained_floor-root_add sess req now d h added)
