-- ===== src/Api/Bootstrapped.antt =====
-- `handleBootstrap` (internal/server/api/bootstrap.go) against `FetchEvents`: a client that starts
-- at the cursor it is given is not told to start again.
use mathlib.Core.Path.{subst}
use syna.Prelude.{
  ℕ, ◌≤◌, String, ◌≡◌, refl, sym, ◌∙◌, ap, true, false, List, [], ◌∷◌, arith, ltb, Bool-cases,
  Option-cases, inl, inr,
}
use syna.Prelude.Result.{ok, >>=-eq-ok, ok-injective}
use syna.Table.{find, find-update, find_sound}
use syna.Protocol.{EventRecord}
use syna.Server.Schema.{Db, RootRow, Session}
use syna.Server.Objects.{is_workspace}
use syna.Server.Workspaces.{
  current_seq, retained_floor, workspace_row, active_roots, floor_of, set_floor,
  recompute_retained_floor,
}
use syna.Server.Events.{fetch_events, page_of}
use syna.Server.Floor.{floor_of-IsFloor, IsFloor, AllPositive, IsBelow, retained_floor-set_floor}
use syna.Api.Requests.{BootstrapResponse, handle_bootstrap, min_loop, contribution}

min_loop-bounded :
    (floor seq : ℕ) (roots : List RootRow)
    → floor ≤ seq
    → IsBelow floor roots
    → floor ≤ min_loop true seq roots
unfolding min_loop
min_loop-bounded floor seq [] h below = h
min_loop-bounded floor seq (r ∷ rs) h below =
    let least : floor ≤ contribution r = elim (Option-cases r.latest_snapshot_seq) [
      | inl missing ↦ ground (arith, below.0, missing)
      | inr (s, there) ↦ ground (arith, below.0, there)
    ] in
    elim (Bool-cases (ltb (contribution r) seq)) [
      | inl lower ↦ rw lower (min_loop-bounded floor (contribution r) rs least below.1)
      | inr higher ↦ rw higher (min_loop-bounded floor seq rs h below.1)
    ]

floor_bound :
    {floor : ℕ} (current : ℕ) (r : RootRow) (rs : List RootRow)
    → IsFloor current (r ∷ rs) floor
    → floor ≤ min_loop false current (r ∷ rs)
unfolding min_loop
floor_bound current r rs (IsFloor.idle none_active) = cc
floor_bound current r rs (IsFloor.unsnapshotted lacking) = omega arith
floor_bound {floor} current r rs (IsFloor.least m) =
    let least : floor ≤ contribution r = elim (Option-cases r.latest_snapshot_seq) [
      | inl missing ↦ ground (arith, m.0.0, missing)
      | inr (s, there) ↦ ground (arith, m.0.0, there)
    ] in
    min_loop-bounded floor (contribution r) rs least m.0.1

-- The cursor of a bootstrap is not below the retained floor of the same roots.
floor_of-min_loop :
    (current : ℕ) (roots : List RootRow)
    → AllPositive roots
    → floor_of current roots ≤ min_loop false current roots
unfolding floor_of min_loop
floor_of-min_loop current [] all = omega arith
floor_of-min_loop current (r ∷ rs) all =
    floor_bound current r rs (floor_of-IsFloor current (r ∷ rs) all)

current_seq-set_floor :
    (w : String) (now floor : ℕ) (d : Db)
    → current_seq w (set_floor w now floor d) ≡ current_seq w d
unfolding set_floor current_seq workspace_row
current_seq-set_floor w now floor d =
    rw
      (find-update (is_workspace w) (λ r. record r { retained_floor_seq = floor; updated_at = now })
        (λ r. refl) (is_workspace w) d.workspaces)
      (elim (Option-cases (find (is_workspace w) d.workspaces)) [
        | inl missing ↦ rw missing refl
        | inr (r, found) ↦ rw found (rw (find_sound (is_workspace w) d.workspaces found) refl)
      ])

fetch_events_above :
    (w : String) (floor after limit : ℕ) (d : Db)
    → retained_floor w d ≡ ok floor
    → floor ≤ after
    → (page : List EventRecord × ℕ) × (fetch_events w after limit d ≡ ok page)
unfolding retained_floor fetch_events workspace_row page_of
fetch_events_above w floor after limit d h above =
    elim (Option-cases (find (is_workspace w) d.workspaces)) [
      | inl missing ↦ absurd (ground (arith, missing))
      | inr (row, found) ↦
          let stored : row.retained_floor_seq ≡ floor = ground (arith, found) in
          let fine : ltb after row.retained_floor_seq ≡ false = ground (arith, stored, above) in
          rw found (rw fine (_, refl))
    ]

bootstrap_cursor :
    (sess : Session) (seq : ℕ) (d : Db) {resp : BootstrapResponse}
    → current_seq sess.workspace_id d ≡ ok seq
    → handle_bootstrap "GET" sess d ≡ ok resp
    → min_loop false seq (active_roots sess.workspace_id d) ≡ resp.bootstrap_after_seq
unfolding handle_bootstrap
bootstrap_cursor sess seq d head h =
    ap (λ (b : BootstrapResponse). b.bootstrap_after_seq)
      (ok-injective (rw (head, handle_bootstrap) at h))

-- Where every latest snapshot is of a sequence above 0, and the retained floor was recomputed, a
-- client that fetches events from the cursor of its bootstrap is answered with a page: it is not
-- told to start again.
pub handle_bootstrap-resumes :
    (sess : Session) (now limit : ℕ) (d : Db) {d' : Db} {resp : BootstrapResponse}
    → AllPositive (active_roots sess.workspace_id d)
    → recompute_retained_floor sess.workspace_id now d ≡ ok d'
    → handle_bootstrap "GET" sess d' ≡ ok resp
    → (page : List EventRecord × ℕ) × (fetch_events sess.workspace_id resp.bootstrap_after_seq limit
          d'
        ≡ ok page)
unfolding recompute_retained_floor active_roots set_floor
handle_bootstrap-resumes sess now limit d {d'} {resp} all floored h =
    let w = sess.workspace_id in
    let (seq, head, e) = >>=-eq-ok (current_seq w d) _ floored in
    let same = ok-injective e in
    let floor = floor_of seq (active_roots w d) in
    let cursor =
      bootstrap_cursor sess seq (set_floor w now floor d)
        (current_seq-set_floor w now floor d ∙ head)
        (subst (λ x. handle_bootstrap "GET" sess x ≡ ok resp) (sym same) h) in
    subst
      (λ x.
        (page : List EventRecord × ℕ) × (fetch_events w resp.bootstrap_after_seq limit x ≡ ok page))
      same
      (fetch_events_above w floor resp.bootstrap_after_seq limit (set_floor w now floor d)
        (retained_floor-set_floor w now floor seq d head)
        (subst (λ x. floor ≤ x) cursor (floor_of-min_loop seq (active_roots w d) all)))
