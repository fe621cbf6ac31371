-- ===== src/Server/Isolation/Gone.antt =====
-- What a purge (internal/server/db/purge.go) leaves of the workspace itself: nothing.
use syna.Prelude.{ℕ, String, str_eq, ◌≡◌, ◌∙◌, ap, false, List, none}
use syna.Prelude.Result.{ok}
use syna.Table.{any, find, select, any-delete_self, find-delete_self}
use syna.Server.Schema.{Db}
use syna.Server.Objects.{is_workspace}
use syna.Server.Purge.{
  PurgeObject, PurgeResult, purge_rows, recount_objects, in_events, purge_workspace,
}
use syna.Server.Isolation.Rest.{SameRest, purge_workspace-SameRest}

-- Where `before` stood, no row of the workspace is left, and none that refers to one of its events.
pub record IsGone (w : String) (before d : Db) : Type 0 where
  pub workspace : find (is_workspace w) d.workspaces ≡ none
  pub events : any (λ r. str_eq r.workspace_id w) d.events ≡ false
  pub event_refs :
      any (in_events (select (λ e. str_eq e.workspace_id w) before.events)) d.event_object_refs
      ≡ false
  pub snapshots : any (λ r. str_eq r.workspace_id w) d.snapshots ≡ false
  pub roots : any (λ r. str_eq r.workspace_id w) d.roots ≡ false
  pub path_heads : any (λ r. str_eq r.workspace_id w) d.path_heads ≡ false
  pub sessions : any (λ r. str_eq r.workspace_id w) d.sessions ≡ false
  pub challenges : any (λ r. str_eq r.workspace_id w) d.session_challenges ≡ false
  pub devices : any (λ r. str_eq r.workspace_id w) d.devices ≡ false
  pub associations : any (λ r. str_eq r.workspace_id w) d.workspace_objects ≡ false

purge_rows-IsGone :
    (w : String) (now : ℕ) (d : Db) → IsGone w d (recount_objects now (purge_rows w d))
unfolding purge_rows recount_objects
purge_rows-IsGone w now d = record {
  workspace = find-delete_self (is_workspace w) (is_workspace w) (λ r h. h) d.workspaces;
  events = any-delete_self _ _ (λ r h. h) d.events;
  event_refs = any-delete_self _ _ (λ r h. h) d.event_object_refs;
  snapshots = any-delete_self _ _ (λ r h. h) d.snapshots;
  roots = any-delete_self _ _ (λ r h. h) d.roots;
  path_heads = any-delete_self _ _ (λ r h. h) d.path_heads;
  sessions = any-delete_self _ _ (λ r h. h) d.sessions;
  challenges = any-delete_self _ _ (λ r h. h) d.session_challenges;
  devices = any-delete_self _ _ (λ r h. h) d.devices;
  associations = any-delete_self _ _ (λ r h. h) d.workspace_objects;
}

SameRest-IsGone :
    (w : String) {before a b : Db} → SameRest a b → IsGone w before a → IsGone w before b
SameRest-IsGone w s g = record {
  workspace = ap (find (is_workspace w)) s.workspaces ∙ g.workspace;
  events = ap (any (λ r. str_eq r.workspace_id w)) s.events ∙ g.events;
  event_refs = ap (any (in_events _)) s.event_refs ∙ g.event_refs;
  snapshots = ap (any (λ r. str_eq r.workspace_id w)) s.snapshots ∙ g.snapshots;
  roots = ap (any (λ r. str_eq r.workspace_id w)) s.roots ∙ g.roots;
  path_heads = ap (any (λ r. str_eq r.workspace_id w)) s.path_heads ∙ g.path_heads;
  sessions = ap (any (λ r. str_eq r.workspace_id w)) s.sessions ∙ g.sessions;
  challenges = ap (any (λ r. str_eq r.workspace_id w)) s.challenges ∙ g.challenges;
  devices = ap (any (λ r. str_eq r.workspace_id w)) s.devices ∙ g.devices;
  associations = ap (any (λ r. str_eq r.workspace_id w)) s.associations ∙ g.associations;
}

-- After a purge the database has no row of the workspace: not the workspace, its events and their
-- object references, snapshots, roots, path heads, sessions, challenges, devices or associations.
pub purge_workspace-IsGone :
    (w : String) (candidates : List PurgeObject) (now : ℕ) (d : Db) {d' : Db} {r : PurgeResult}
    → purge_workspace w candidates now d ≡ ok (d', r)
    → IsGone w d d'
purge_workspace-IsGone w candidates now d h =
    SameRest-IsGone w (purge_workspace-SameRest w candidates now d h) (purge_rows-IsGone w now d)
