-- ===== src/Server/Isolation/Rest.antt =====
-- A purge (internal/server/db/purge.go) is its deletions, and what its loop leaves alone.
use mathlib.Core.Path.{subst}
use syna.Prelude.{ℕ, String, ◌≡◌, refl, ap, ◌&&◌, List, [], ◌∷◌, arith, Bool-cases, inl, inr}
use syna.Prelude.Result.{ok, ok-injective}
use syna.Table.{any, delete}
use syna.Server.Schema.{Db}
use syna.Server.Objects.{is_workspace, is_object}
use syna.Server.Purge.{
  PurgeObject, PurgeResult, purge_rows, recount_objects, is_unclaimed, delete_candidates,
  purge_workspace,
}

-- The tables, other than that of objects, in which the purge leaves what the rows show.
pub record SameRest (a b : Db) : Type 0 where
  pub workspaces : b.workspaces ≡ a.workspaces
  pub events : b.events ≡ a.events
  pub event_refs : b.event_object_refs ≡ a.event_object_refs
  pub roots : b.roots ≡ a.roots
  pub path_heads : b.path_heads ≡ a.path_heads
  pub snapshots : b.snapshots ≡ a.snapshots
  pub sessions : b.sessions ≡ a.sessions
  pub challenges : b.session_challenges ≡ a.session_challenges
  pub devices : b.devices ≡ a.devices
  pub associations : b.workspace_objects ≡ a.workspace_objects

SameRest-refl : (d : Db) → SameRest d d
SameRest-refl d = record {
  workspaces = refl;
  events = refl;
  event_refs = refl;
  roots = refl;
  path_heads = refl;
  snapshots = refl;
  sessions = refl;
  challenges = refl;
  devices = refl;
  associations = refl;
}

delete_candidates-SameRest :
    (candidates : List PurgeObject) (d : Db) → SameRest d (delete_candidates candidates d).0
unfolding delete_candidates
delete_candidates-SameRest [] d = SameRest-refl d
delete_candidates-SameRest (c ∷ rest) d =
    elim (Bool-cases (is_unclaimed c.object_id d && any (is_object c.object_id) d.objects)) [
      | inl gone ↦
          let s =
            delete_candidates-SameRest rest
              (record d { objects = delete (is_object c.object_id) d.objects }) in
          rw gone (record {
            workspaces = s.workspaces;
            events = s.events;
            event_refs = s.event_refs;
            roots = s.roots;
            path_heads = s.path_heads;
            snapshots = s.snapshots;
            sessions = s.sessions;
            challenges = s.challenges;
            devices = s.devices;
            associations = s.associations;
          })
      | inr stays ↦ rw stays (delete_candidates-SameRest rest d)
    ]

-- A successful purge is its deletions, a recount and the deletion of objects.
purge_workspace-inversion :
    (w : String) (candidates : List PurgeObject) (now : ℕ) (d : Db) {d' : Db} {r : PurgeResult}
    → purge_workspace w candidates now d ≡ ok (d', r)
    → (delete_candidates candidates (recount_objects now (purge_rows w d))).0 ≡ d'
unfolding purge_workspace
purge_workspace-inversion w candidates now d {d'} {r} h =
    elim (Bool-cases (any (is_workspace w) d.workspaces)) [
      | inl there ↦ ap (λ (p : Db × PurgeResult). p.0) (ok-injective (rw there at h))
      | inr missing ↦ absurd (ground (arith, missing))
    ]

pub purge_workspace-SameRest :
    (w : String) (candidates : List PurgeObject) (now : ℕ) (d : Db) {d' : Db} {r : PurgeResult}
    → purge_workspace w candidates now d ≡ ok (d', r)
    → SameRest (recount_objects now (purge_rows w d)) d'
purge_workspace-SameRest w candidates now d h =
    subst (SameRest (recount_objects now (purge_rows w d)))
      (purge_workspace-inversion w candidates now d h) (delete_candidates-SameRest candidates _)
