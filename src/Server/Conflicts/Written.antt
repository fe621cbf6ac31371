-- ===== src/Server/Conflicts/Written.antt =====
-- What an accepted content event leaves in the tables that later submissions are checked against.
use syna.Prelude.{
  ℕ, suc, String, str_eq, eq_iff, ◌≡◌, refl, ◌∙◌, Bool, true, false, ◌&&◌, Option, none, some, List,
  [], ◌∷◌, arith, Option-cases, inl, inr, is_some, ap,
}
use syna.Table.{find, any, upsert, find-update, any-find, find_sound}
use syna.Protocol.{EventSubmitRequest, EventType, root_add, dir_put, file_put}
use syna.Server.Schema.{Db, PathHeadRow, Session}
use syna.Server.Events.{
  is_head, write_event, insert_event, apply_effects, add_event_ref, add_event_refs,
  advance_workspace,
}

-- the events that write a path
abbrev pub IsContent : EventType → Type 0
IsContent dir_put = Unit
IsContent file_put = Unit
IsContent EventType.delete = Unit
IsContent _ = ⊥

-- The tables that the checks of a submission read, but for the heads and the workspaces.
pub record SameChecks (a b : Db) : Type 0 where
  pub roots : b.roots ≡ a.roots
  pub path_heads : b.path_heads ≡ a.path_heads
  pub associations : b.workspace_objects ≡ a.workspace_objects

add_event_refs-SameChecks :
    (seq : ℕ) (refs : List String) (d : Db) → SameChecks d (add_event_refs seq refs d)
unfolding add_event_refs add_event_ref
add_event_refs-SameChecks seq [] d = record { roots = refl; path_heads = refl; associations = refl }
add_event_refs-SameChecks seq (x ∷ rest) d =
    let same = add_event_refs-SameChecks seq rest (add_event_ref seq x d) in
    record { roots = same.roots; path_heads = same.path_heads; associations = same.associations }

-- The tables after an event, whatever its type, are those that its type writes.
pub write_event-SameChecks :
    (sess : Session) (req : EventSubmitRequest) (now : ℕ) (d : Db)
    → SameChecks
        (apply_effects sess req req.event_type
          (suc d.last_event_seq)
          now
          (insert_event sess req now d))
        (write_event sess req now d)
unfolding write_event advance_workspace
write_event-SameChecks sess req now d =
    let same = add_event_refs-SameChecks (suc d.last_event_seq) req.object_refs (
      apply_effects sess req req.event_type (suc d.last_event_seq) now
        (insert_event sess req now d)) in
    record { roots = same.roots; path_heads = same.path_heads; associations = same.associations }

-- A content event leaves the roots alone.
pub roots-apply_content :
    (sess : Session) (req : EventSubmitRequest) (t : EventType) (seq now : ℕ) (d : Db)
    → IsContent t
    → (apply_effects sess req t seq now (insert_event sess req now d)).roots ≡ d.roots
unfolding apply_effects insert_event
roots-apply_content sess req dir_put seq now d h = refl
roots-apply_content sess req file_put seq now d h = refl
roots-apply_content sess req EventType.delete seq now d h = refl
roots-apply_content sess req _ seq now d h = absurd h

pub associations-apply_effects :
    (sess : Session) (req : EventSubmitRequest) (t : EventType) (seq now : ℕ) (d : Db)
    → (apply_effects sess req t seq now (insert_event sess req now d)).workspace_objects
      ≡ d.workspace_objects
unfolding apply_effects insert_event
associations-apply_effects sess req root_add seq now d = refl
associations-apply_effects sess req _ seq now d = refl

-- the sequence number of a path's head
abbrev pub head_seq : Option PathHeadRow → Option ℕ
head_seq none = none
head_seq (some h) = some h.current_seq

head_seq-upsert :
    (q : PathHeadRow → Bool) (f : PathHeadRow → PathHeadRow) (row : PathHeadRow) (seq : ℕ)
    → ((h : PathHeadRow) → q (f h) ≡ q h)
    → ((h : PathHeadRow) → (f h).current_seq ≡ seq)
    → q row ≡ true
    → row.current_seq ≡ seq
    → (heads : List PathHeadRow) → head_seq (find q (upsert q f row heads)) ≡ some seq
unfolding upsert find
head_seq-upsert q f row seq keep set_seq hit row_seq heads = elim (Option-cases (find q heads)) [
  | inl missing ↦
      let absent : any q heads ≡ false = any-find q heads ∙ ap is_some missing in
      rw absent (rw hit (ap some row_seq))
  | inr (h, found) ↦
      let there : any q heads ≡ true = any-find q heads ∙ ap is_some found in
      rw there (
        rw (find-update q f keep q heads)
          (rw found (rw (find_sound q heads found) (ap some (set_seq h)))))
]

-- a key passes its own test
own_head :
    (sess : Session) (req : EventSubmitRequest)
    → (str_eq sess.workspace_id sess.workspace_id
        && str_eq req.root_id req.root_id
        && str_eq req.path_id req.path_id)
      ≡ true
own_head sess req = ground (
  arith,
  (eq_iff sess.workspace_id sess.workspace_id).1 refl,
  (eq_iff req.root_id req.root_id).1 refl,
  (eq_iff req.path_id req.path_id).1 refl,
)

-- The head of the path is the new event.
pub head_seq-apply_content :
    (sess : Session) (req : EventSubmitRequest) (t : EventType) (seq now : ℕ) (d : Db)
    → IsContent t
    → head_seq (
        find
          (is_head sess.workspace_id req.root_id req.path_id)
          (apply_effects sess req t seq now (insert_event sess req now d)).path_heads)
      ≡ some seq
unfolding apply_effects insert_event
head_seq-apply_content sess req dir_put seq now d h =
    head_seq-upsert _ _ _ seq (λ r. refl) (λ r. refl) (own_head sess req) refl d.path_heads
head_seq-apply_content sess req file_put seq now d h =
    head_seq-upsert _ _ _ seq (λ r. refl) (λ r. refl) (own_head sess req) refl d.path_heads
head_seq-apply_content sess req EventType.delete seq now d h =
    head_seq-upsert _ _ _ seq (λ r. refl) (λ r. refl) (own_head sess req) refl d.path_heads
head_seq-apply_content sess req _ seq now d h = absurd h
