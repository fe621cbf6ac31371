-- ===== src/Client/Bootstrap/Removed.antt =====
-- Where a bootstrap (internal/client/daemon/daemon.go) resets the cursor, no root is left that the server
-- no longer has.
use syna.Prelude.{
  ℕ, String, str_eq, eq_iff, ◌≡◌, refl, ◌∙◌, Bool, true, false, not, ◌&&◌, ◌||◌, List, [], ◌∷◌,
  arith, Bool-cases, inl, inr,
}
use syna.Table.{any, update, any_mono}
use syna.Api.{BootstrapResponse}
use syna.Client.State.{
  Root, removed, list_roots, sort_roots, insert_root, is_local_root, set_root_state,
  delete_root_state, clear_warnings_with_prefix, reset_last_seq,
}
use syna.Client.World.{World}
use syna.Client.Snapshots.{SnapshotWorld, Disk}
use syna.Client.Daemon.{Daemon, is_removed, mark_root_removed, clear_staged_root}
use syna.Client.Bootstrap.Defs.{
  is_remote, remove_missing, restart, bootstrap_roots, Step, finished, remote_ids,
}

-- a root that is not removed, and that the server does not have
abbrev pub is_left : List String → Root → Bool
is_left remote r = not (is_removed r.state) && not (is_remote remote r.root_id)

-- is it one of those that are yet to be removed?
abbrev is_planned : List String → List Root → Root → Bool
is_planned remote ls x = any (λ l. is_left remote l && str_eq l.root_id x.root_id) ls

abbrev is_missed : List String → List Root → Root → Bool
is_missed remote ls x = is_left remote x && not (is_planned remote ls x)

missed-removed :
    (remote : List String) (l : Root) (ls rs : List Root)
    → is_left remote l ≡ true
    → any (is_missed remote (l ∷ ls)) rs ≡ false
    → any
        (is_missed remote ls)
        (update (is_local_root l.root_id) (λ r. record r { state = removed }) rs)
      ≡ false
unfolding any update
missed-removed remote l ls [] left h = refl
missed-removed remote l ls (r ∷ rs) left h = elim (Bool-cases (is_local_root l.root_id r)) [
  | inl own ↦
      let rest = missed-removed remote l ls rs left (ground (arith, h)) in
      rw own (ground (arith, rest))
  | inr other ↦
      let rest = missed-removed remote l ls rs left (ground (arith, h)) in
      rw other (
        ground
          (arith, rest, h, left, other, eq_iff l.root_id r.root_id, eq_iff r.root_id l.root_id))
]

module _ (w : World) (v : SnapshotWorld) (like : String → String → Bool) where
  remove_missing-left :
      (remote : List String) (ls : List Root) (s : Daemon)
      → any (is_missed remote ls) s.db.roots ≡ false
      → any (is_left remote) (remove_missing w v like remote ls s).db.roots ≡ false
  unfolding remove_missing any mark_root_removed set_root_state delete_root_state
      clear_warnings_with_prefix clear_staged_root
  remove_missing-left remote [] s h =
      any_mono (is_missed remote []) (is_left remote) (λ r left. ground (arith, left)) s.db.roots h
  remove_missing-left remote (l ∷ ls) s h =
      elim (Bool-cases (is_removed l.state || is_remote remote l.root_id)) [
        | inl stays ↦
            rw (remove_missing, stays)
              (remove_missing-left remote ls s (
                any_mono (is_missed remote (l ∷ ls)) (is_missed remote ls)
                  (λ r missed. ground (arith, missed, stays)) s.db.roots h))
        | inr goes ↦
            rw (remove_missing, goes)
              (remove_missing-left remote ls (mark_root_removed like l.root_id s)
                (missed-removed remote l ls s.db.roots (ground (arith, goes)) h))
      ]

any-insert_root :
    (p : Root → Bool) (r : Root) (rs : List Root) → any p (insert_root r rs) ≡ (p r || any p rs)
unfolding any insert_root
any-insert_root p r [] = refl
any-insert_root p r (s ∷ rs) = ground (arith, any-insert_root p r rs)

any-sort_roots : (p : Root → Bool) (rs : List Root) → any p (sort_roots rs) ≡ any p rs
unfolding any sort_roots
any-sort_roots p [] = refl
any-sort_roots p (r ∷ rs) = ground (arith, any-insert_root p r (sort_roots rs), any-sort_roots p rs)

-- Every root that is left is planned where the plan has all roots.
all-planned :
    (remote : List String) (ls xs : List Root)
    → ((q : Root → Bool) → any q xs ≡ true → any q ls ≡ true)
    → any (is_missed remote ls) xs ≡ false
unfolding any
all-planned remote ls [] has = refl
all-planned remote ls (x ∷ xs) has =
    let rest = all-planned remote ls xs (λ q there. has q (ground (arith, there))) in
    elim (Bool-cases (is_left remote x)) [
      | inl left ↦
          let planned : is_planned remote ls x ≡ true =
            has (λ l. is_left remote l && str_eq l.root_id x.root_id)
              (ground (arith, left, (eq_iff x.root_id x.root_id).1 refl)) in
          ground (arith, planned, rest)
      | inr gone ↦ ground (arith, gone, rest)
    ]

-- every root is removed, or is one that the server has, and the cursor is the server's
abbrev pub IsRestarted : List String → ℕ → Daemon → Type 0
IsRestarted remote seq s =
    (any (is_left remote) s.db.roots ≡ false) × (s.db.workspace.last_server_seq ≡ seq)

module _ (w : World) (v : SnapshotWorld) (like : String → String → Bool) where
  finished-IsRestarted :
      (resp : BootstrapResponse) (x : Step)
      → (finished w v like resp x).1 ≡ true
      → IsRestarted
          (remote_ids w v like resp)
          resp.bootstrap_after_seq
          (finished w v like resp x).0.0
  unfolding reset_last_seq list_roots
  finished-IsRestarted resp (x, false) h = cc
  finished-IsRestarted resp ((s, disk), true) h =
      let remote = remote_ids w v like resp in
      (
        remove_missing-left w v like remote (sort_roots s.db.roots) s (
            all-planned remote (sort_roots s.db.roots) s.db.roots
              (λ q there. any-sort_roots q s.db.roots ∙ there)),
        refl,
      )

  -- Where a bootstrap has come to its last catch-up without a failure, before that catch-up every root
  -- of the device is removed, or is one of those that the server has answered with; and the cursor is
  -- the one that it has answered with.
  pub restart-IsRestarted :
      (resp : BootstrapResponse) (s : Daemon) (disk : Disk)
      → (restart w v like resp s disk).1 ≡ true
      → IsRestarted
          (remote_ids w v like resp)
          resp.bootstrap_after_seq
          (restart w v like resp s disk).0.0
  unfolding restart
  restart-IsRestarted resp s disk h =
      finished-IsRestarted resp (bootstrap_roots w v like resp.roots s disk) h
