-- ===== src/Server/Order/Submitted.antt =====
-- A submission keeps the order of the log.
use mathlib.Core.Path.{subst}
use syna.Prelude.{ℕ, suc, String, ◌≡◌, refl, ◌∙◌, List, [], ◌∷◌, arith}
use syna.Prelude.Result.{ok, >>=-eq-ok, ok-injective}
use syna.Table.{Unique-update, update}
use syna.Protocol.{EventSubmitRequest, EventType, root_add, root_remove}
use syna.Server.Schema.{Db, WorkspaceRow, Session}
use syna.Server.Objects.{is_workspace}
use syna.Server.Workspaces.{current_seq, set_floor, recompute_retained_floor}
use syna.Server.Events.{
  write_event, settle_floor, submit_event, insert_event, apply_effects, advance_workspace,
  add_event_ref, add_event_refs, SubmitResult,
}
use syna.Server.Accepted.{submit_event-Accepted}
use syna.Server.Order.Log.{IsOrdered, same_workspace}

-- The tables that the order depends on.
pub record SameLog (a b : Db) : Type 0 where
  pub events : a.events ≡ b.events
  pub last : a.last_event_seq ≡ b.last_event_seq
  pub workspaces : a.workspaces ≡ b.workspaces

pub SameLog-refl : (d : Db) → SameLog d d
SameLog-refl d = record { events = refl; last = refl; workspaces = refl }

pub SameLog-trans : {a b c : Db} → SameLog a b → SameLog b c → SameLog a c
SameLog-trans s t = record {
  events = s.events ∙ t.events;
  last = s.last ∙ t.last;
  workspaces = s.workspaces ∙ t.workspaces;
}

pub SameLog-IsOrdered : {a b : Db} → SameLog a b → IsOrdered a → IsOrdered b
SameLog-IsOrdered s o = record {
  descending = rw (← s.events) (rw (← s.last) o.descending);
  workspaces_unique = rw (← s.workspaces) o.workspaces_unique;
}

add_event_refs-SameLog :
    (seq : ℕ) (refs : List String) (d : Db) → SameLog d (add_event_refs seq refs d)
unfolding add_event_refs add_event_ref
add_event_refs-SameLog seq [] d = SameLog-refl d
add_event_refs-SameLog seq (x ∷ rest) d =
    SameLog-trans (record { events = refl; last = refl; workspaces = refl })
      (add_event_refs-SameLog seq rest (add_event_ref seq x d))

apply_event-SameLog :
    (sess : Session) (req : EventSubmitRequest) (t : EventType) (seq now : ℕ) (d : Db)
    → SameLog d (apply_effects sess req t seq now d)
unfolding apply_effects
apply_event-SameLog sess req root_add seq now d = record {
  events = refl;
  last = refl;
  workspaces = refl;
}
apply_event-SameLog sess req root_remove seq now d = record {
  events = refl;
  last = refl;
  workspaces = refl;
}
apply_event-SameLog sess req _ seq now d = record { events = refl; last = refl; workspaces = refl }

-- The new event takes the next number, above every other.
insert_event-IsOrdered :
    (sess : Session) (req : EventSubmitRequest) (now : ℕ) (d : Db)
    → IsOrdered d
    → IsOrdered (insert_event sess req now d)
unfolding insert_event
insert_event-IsOrdered sess req now d o = record {
  descending = (omega arith, o.descending);
  workspaces_unique = o.workspaces_unique;
}

workspaces-insert_event :
    (sess : Session) (req : EventSubmitRequest) (now : ℕ) (d : Db)
    → d.workspaces ≡ (insert_event sess req now d).workspaces
unfolding insert_event
workspaces-insert_event sess req now d = refl

update_workspace-IsOrdered :
    (w : String) (f : WorkspaceRow → WorkspaceRow)
    → ((r s : WorkspaceRow) → same_workspace (f r) s ≡ same_workspace r s)
    → ((r s : WorkspaceRow) → same_workspace r (f s) ≡ same_workspace r s)
    → (d : Db) → IsOrdered d
    → IsOrdered (record d { workspaces = update (is_workspace w) f d.workspaces })
update_workspace-IsOrdered w f left right d o = record {
  descending = o.descending;
  workspaces_unique =
      Unique-update same_workspace f left right (is_workspace w) d.workspaces o.workspaces_unique;
}

advance_workspace-IsOrdered :
    (sess : Session) (seq now : ℕ) (d : Db)
    → IsOrdered d
    → IsOrdered (advance_workspace sess seq now d)
unfolding advance_workspace
advance_workspace-IsOrdered sess seq now d o =
    SameLog-IsOrdered (record { events = refl; last = refl; workspaces = refl })
      (update_workspace-IsOrdered sess.workspace_id
        (λ w. record w { current_seq = seq; updated_at = now }) (λ r s. refl) (λ r s. refl) d o)

write_event-IsOrdered :
    (sess : Session) (req : EventSubmitRequest) (now : ℕ) (d : Db)
    → IsOrdered d
    → IsOrdered (write_event sess req now d)
unfolding write_event
write_event-IsOrdered sess req now d o =
    let seq = suc d.last_event_seq in
    let d1 = insert_event sess req now d in
    let d2 = apply_effects sess req req.event_type seq now d1 in
    advance_workspace-IsOrdered sess seq now (add_event_refs seq req.object_refs d2) (
      SameLog-IsOrdered (add_event_refs-SameLog seq req.object_refs d2) (
        SameLog-IsOrdered (apply_event-SameLog sess req req.event_type seq now d1)
          (insert_event-IsOrdered sess req now d o)))

-- What an event does to the workspaces.
pub workspaces-write_event :
    (sess : Session) (req : EventSubmitRequest) (now : ℕ) (d : Db)
    → (write_event sess req now d).workspaces
      ≡ update
          (is_workspace sess.workspace_id)
          (λ w. record w { current_seq = suc d.last_event_seq; updated_at = now })
          d.workspaces
unfolding write_event advance_workspace
workspaces-write_event sess req now d =
    let seq = suc d.last_event_seq in
    let d1 = insert_event sess req now d in
    let d2 = apply_effects sess req req.event_type seq now d1 in
    let inserted : d.workspaces ≡ d1.workspaces = workspaces-insert_event sess req now d in
    rw (← (add_event_refs-SameLog seq req.object_refs d2).workspaces) (
      rw (← (apply_event-SameLog sess req req.event_type seq now d1).workspaces)
        (rw (← inserted) refl))

set_floor-IsOrdered :
    (w : String) (now floor : ℕ) (d : Db) → IsOrdered d → IsOrdered (set_floor w now floor d)
unfolding set_floor
set_floor-IsOrdered w now floor d o =
    update_workspace-IsOrdered w (λ r. record r { retained_floor_seq = floor; updated_at = now })
      (λ r s. refl) (λ r s. refl) d o

pub recompute-IsOrdered :
    (w : String) (now : ℕ) (d : Db) {d' : Db}
    → recompute_retained_floor w now d ≡ ok d'
    → IsOrdered d
    → IsOrdered d'
unfolding recompute_retained_floor
recompute-IsOrdered w now d h o =
    let (seq, _, e) = >>=-eq-ok (current_seq w d) _ h in
    subst IsOrdered (ok-injective e) (set_floor-IsOrdered w now _ d o)

settle_floor-IsOrdered :
    (t : EventType) (w : String) (now : ℕ) (d : Db) {d' : Db}
    → settle_floor t w now d ≡ ok d'
    → IsOrdered d
    → IsOrdered d'
unfolding settle_floor
settle_floor-IsOrdered root_add w now d h o = recompute-IsOrdered w now d h o
settle_floor-IsOrdered root_remove w now d h o = recompute-IsOrdered w now d h o
settle_floor-IsOrdered _ w now d h o = subst IsOrdered (ok-injective h) o

pub submit_event-IsOrdered :
    (sess : Session) (req : EventSubmitRequest) (now : ℕ) (d : Db) {d' : Db} {r : SubmitResult}
    → submit_event sess req now d ≡ ok (d', r)
    → IsOrdered d
    → IsOrdered d'
submit_event-IsOrdered sess req now d h o =
    settle_floor-IsOrdered req.event_type sess.workspace_id now (write_event sess req now d)
      (submit_event-Accepted sess req now d h).settled (write_event-IsOrdered sess req now d o)
