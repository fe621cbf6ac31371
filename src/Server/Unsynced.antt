-- ===== src/Server/Unsynced.antt =====
-- Challenges, sessions, devices and metrics (internal/server/db/sessions.go and metrics.go) touch
-- no table of the synchronised data.
use mathlib.Core.Path.{subst}
use syna.Prelude.{ℕ, String, ◌≡◌, refl, ap, ℤ, pos, negsuc, ◌==◌, Bool-cases, inl, inr}
use syna.Prelude.Result.{ok, >>=-eq-ok, ok-injective}
use syna.Table.{find}
use syna.Server.Schema.{Db, Session}
use syna.Server.Workspaces.{current_seq}
use syna.Server.Sessions.{
  prune_expired_challenges, save_challenge, delete_challenge, create_session, authenticate,
  session_of, unexpired, is_session,
}
use syna.Server.Metrics.{add_transferred_bytes}
use syna.Server.Refs.{SameCounts}
use syna.Server.Order.{SameLog}

-- The synchronised tables agree.
pub record SameData (a b : Db) : Type 0 where
  pub counts : SameCounts a b
  pub log : SameLog a b
  pub roots : a.roots ≡ b.roots
  pub path_heads : a.path_heads ≡ b.path_heads

pub SameData-refl : (d : Db) → SameData d d
SameData-refl d = record {
  counts = record {
    events = refl;
    snapshots = refl;
    snapshot_refs = refl;
    objects = refl;
    associations = refl;
  };
  log = record { events = refl; last = refl; workspaces = refl };
  roots = refl;
  path_heads = refl;
}

pub prune_expired_challenges-SameData :
    (now : ℕ) (d : Db) → SameData d (prune_expired_challenges now d)
unfolding prune_expired_challenges
prune_expired_challenges-SameData now d = record {
  counts = record {
    events = refl;
    snapshots = refl;
    snapshot_refs = refl;
    objects = refl;
    associations = refl;
  };
  log = record { events = refl; last = refl; workspaces = refl };
  roots = refl;
  path_heads = refl;
}

pub save_challenge-SameData :
    (w device name client server : String) (now : ℕ) (d : Db)
    → SameData d (save_challenge w device name client server now d)
unfolding save_challenge
save_challenge-SameData w device name client server now d = record {
  counts = record {
    events = refl;
    snapshots = refl;
    snapshot_refs = refl;
    objects = refl;
    associations = refl;
  };
  log = record { events = refl; last = refl; workspaces = refl };
  roots = refl;
  path_heads = refl;
}

pub delete_challenge-SameData :
    (w device client : String) (d : Db) → SameData d (delete_challenge w device client d)
unfolding delete_challenge
delete_challenge-SameData w device client d = record {
  counts = record {
    events = refl;
    snapshots = refl;
    snapshot_refs = refl;
    objects = refl;
    associations = refl;
  };
  log = record { events = refl; last = refl; workspaces = refl };
  roots = refl;
  path_heads = refl;
}

pub add_transferred_bytes-SameData : (n : ℤ) (d : Db) → SameData d (add_transferred_bytes n d)
unfolding add_transferred_bytes
add_transferred_bytes-SameData (negsuc n) d = SameData-refl d
add_transferred_bytes-SameData (pos n) d = elim (Bool-cases (n == 0)) [
  | inl none_sent ↦ rw none_sent (SameData-refl d)
  | inr sent ↦ rw sent (record {
    counts = record {
      events = refl;
      snapshots = refl;
      snapshot_refs = refl;
      objects = refl;
      associations = refl;
    };
    log = record { events = refl; last = refl; workspaces = refl };
    roots = refl;
    path_heads = refl;
  })
]

module _ (sha256 : String → String) where
  pub create_session-SameData :
      (token w device name : String) (ttl now : ℕ) (d : Db) {d' : Db} {r : String} {until seq : ℕ}
      → create_session sha256 token w device name ttl now d ≡ ok (d', r, until, seq)
      → SameData d d'
  unfolding create_session
  create_session-SameData token w device name ttl now d h =
      let (seq, _, e) = >>=-eq-ok (current_seq w d) _ h in
      subst (SameData d) (ap (λ (p : Db × String × ℕ × ℕ). p.0) (ok-injective e)) (record {
        counts = record {
          events = refl;
          snapshots = refl;
          snapshot_refs = refl;
          objects = refl;
          associations = refl;
        };
        log = record { events = refl; last = refl; workspaces = refl };
        roots = refl;
        path_heads = refl;
      })

  pub authenticate-SameData :
      (token : String) (now : ℕ) (d : Db) {d' : Db} {sess : Session}
      → authenticate sha256 token now d ≡ ok (d', sess)
      → SameData d d'
  unfolding authenticate
  authenticate-SameData token now d h =
      let (row, _, h1) = >>=-eq-ok (session_of (find (is_session (sha256 token)) d.sessions)) _ h in
      let (_, _, e) = >>=-eq-ok (unexpired now row) _ h1 in
      subst (SameData d) (ap (λ (p : Db × Session). p.0) (ok-injective e)) (record {
        counts = record {
          events = refl;
          snapshots = refl;
          snapshot_refs = refl;
          objects = refl;
          associations = refl;
        };
        log = record { events = refl; last = refl; workspaces = refl };
        roots = refl;
        path_heads = refl;
      })
